-- ===== src/License/Grace.antt =====
-- The grace of a build outside the update window, over any run of checks under one window.
use pulseboard.Common.{
  ℕ, ◌+◌, min, Bool, true, false, not, ◌&&◌, Option, none, some, List, [], ◌∷◌, ◌≡◌, refl, ◌∙◌, ap,
  arith, ltb, if◌then◌else◌,
}
use pulseboard.License.{
  Edition, community, is_bare, UpdateWindowRecord, State, Build, Messages,
  update_window_grace_period, reconcile_window, update_grace_end, bridle, enforce_update_window,
}

-- One check of the licence: the running binary, the time, and the state from the payload.
pub record Check : Type 0 where
  pub build : Build
  pub now : ℕ
  pub state : State

-- The record that stands after some checks under one window, all of whose writes succeed.
unfoldable pub held_after : Messages → ℕ → List Check → Option UpdateWindowRecord
unfolding enforce_update_window
held_after texts window_end [] = none
held_after texts window_end (c ∷ older) =
    (enforce_update_window texts false c.build c.now (some window_end) c.state
      (held_after texts window_end older)).1

abbrev dated_after : ℕ → Option ℕ → Bool
dated_after window_end none = false
dated_after window_end (some date) = ltb window_end date

-- A check of an edition to lose, on a build after the window.
abbrev pub is_outside : ℕ → Check → Bool
is_outside window_end c = not (is_bare c.state.edition) && dated_after window_end c.build.date

abbrev pub earlier : ℕ → Option ℕ → ℕ
earlier now none = now
earlier now (some t) = min now t

-- The earliest time of a check outside the window; the newest check stands first.
abbrev pub earliest : ℕ → List Check → Option ℕ
earliest window_end [] = none
earliest window_end (c ∷ older) =
    let before = earliest window_end older in
    if is_outside window_end c then some (earlier c.now before) else before

abbrev opened : Option UpdateWindowRecord → Option ℕ
opened none = none
opened (some rec) = some rec.opened_at

abbrev ends_at : ℕ → Option UpdateWindowRecord → Bool
ends_at window_end none = true
ends_at window_end (some rec) = not (ltb rec.window_end window_end)

enforce-opened :
    (texts : Messages) (window_end : ℕ) (c : Check) (date : Option ℕ)
    (o : Option UpdateWindowRecord)
    → c.build.date ≡ date
    → ends_at window_end o ≡ true
    → (opened (enforce_update_window texts false c.build c.now (some window_end) c.state o).1
        ≡ (if is_outside window_end c then some (earlier c.now (opened o)) else opened o))
      × (ends_at window_end
            (enforce_update_window texts false c.build c.now (some window_end) c.state o).1
          ≡ true)
unfolding enforce_update_window bridle reconcile_window
enforce-opened texts window_end c none none p h = ground (arith, p, h)
enforce-opened texts window_end c none (some rec) p h = ground (arith, p, h)
enforce-opened texts window_end c (some date) none p h = ground (arith, p, h)
enforce-opened texts window_end c (some date) (some rec) p h = ground (arith, p, h)

held_after-opened :
    (texts : Messages) (window_end : ℕ) (checks : List Check)
    → (opened (held_after texts window_end checks) ≡ earliest window_end checks)
      × (ends_at window_end (held_after texts window_end checks) ≡ true)
unfolding held_after
held_after-opened texts window_end [] = (refl, refl)
held_after-opened texts window_end (c ∷ older) =
    let (before, ends) = held_after-opened texts window_end older in
    let (now, ends') =
      enforce-opened texts window_end c c.build.date (held_after texts window_end older) refl
        ends in
    (now ∙ ap (λ o. if is_outside window_end c then some (earlier c.now o) else o) before, ends')

-- The edition that is left, and the status of a grace that is spent.
abbrev pub edition_at : ℕ → Check → Option ℕ → Edition
edition_at window_end c before =
    if is_outside window_end c
      && not (ltb c.now (earlier c.now before + update_window_grace_period))
    then community
    else c.state.edition

enforce-edition :
    (texts : Messages) (window_end : ℕ) (c : Check) (date : Option ℕ)
    (o : Option UpdateWindowRecord)
    → c.build.date ≡ date
    → ends_at window_end o ≡ true
    → (enforce_update_window texts false c.build c.now (some window_end) c.state o).0.edition
      ≡ edition_at window_end c (opened o)
unfolding enforce_update_window bridle reconcile_window update_grace_end
enforce-edition texts window_end c none none p h = ground (arith, p, h)
enforce-edition texts window_end c none (some rec) p h = ground (arith, p, h)
enforce-edition texts window_end c (some date) none p h = ground (arith, p, h)
enforce-edition texts window_end c (some date) (some rec) p h = ground (arith, p, h)

-- Under one update window, whatever builds run, forward or back, and whatever the clock shows: a check
-- on a build dated after the window takes the edition exactly if thirty days have passed since the
-- earliest check on any such build, this one included. A check counts if its licence grants an edition,
-- and every write of the record succeeds.
pub enforce_update_window-edition_at :
    (texts : Messages) (window_end : ℕ) (c : Check) (older : List Check)
    → (enforce_update_window texts false c.build c.now
        (some window_end)
        c.state
        (held_after texts window_end older)).0.edition
      ≡ edition_at window_end c (earliest window_end older)
enforce_update_window-edition_at texts window_end c older =
    let (before, ends) = held_after-opened texts window_end older in
    enforce-edition texts window_end c c.build.date (held_after texts window_end older) refl ends
    ∙ ap (edition_at window_end c) before
