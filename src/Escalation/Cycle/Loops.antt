-- ===== src/Escalation/Cycle/Loops.antt =====
-- Loops over runs that a query has read from the table.
use pulseboard.Common.{
  String, string_eq, Bool, true, false, Option, none, some, List, [], ◌∷◌, ◌≡◌, refl, sym, ◌∙◌,
  ◌==◌, ==→≡, ==_refl, arith, if◌then◌else◌, Bool-cases, inl, inr,
}
use pulseboard.Common.Assoc.{lookup}
use pulseboard.Escalation.Model.{is_open, Run}
use pulseboard.Escalation.Store.{State}
use pulseboard.Escalation.Cycle.Selection.{find_run, distinct_runs, when}
use pulseboard.Escalation.Cycle.Machine.{on_run}

-- The runs to process are open and stand in the table as they were read.
pub record AreRead (rs : List Run) (s : State) : Type 0 where
  pub once : distinct_runs rs ≡ true
  pub stored : (id : String) (r : Run) → find_run id rs ≡ some r → lookup id s.runs ≡ some r
  pub opened : (id : String) (r : Run) → find_run id rs ≡ some r → is_open r.status ≡ true

abbrev pub each : (Run → State → State) → List Run → State → State
each step [] s = s
each step (r ∷ rs) s = each step rs (step r s)

-- A changed run under its id, else what stood there.
abbrev pub settled : (Run → Run) → Option Run → Option Run → Option Run
settled change none old = old
settled change (some r) old = some (change r)

-- The step of one open run writes what `change` says under its id.
pub record Writes (step : Run → State → State) (change : Run → Run) : Type 0 where
  pub at :
      (r : Run) (k : String) (s : State)
      → lookup r.id s.runs ≡ some r
      → is_open r.status ≡ true
      → lookup k (step r s).runs ≡ (if r.id == k then some (change r) else lookup k s.runs)

module _ (step : Run → State → State) (change : Run → Run) (w : Writes step change) where
  head_law :
      (r : Run) (rs : List Run) (k : String) (s : State)
      → AreRead (r ∷ rs) s
      → lookup k (step r s).runs ≡ (if r.id == k then some (change r) else lookup k s.runs)
  head_law r rs k s h =
      w.at r k s (h.stored r.id r (ground (arith, ==_refl r.id)))
        (h.opened r.id r (ground (arith, ==_refl r.id)))

  later :
      (r : Run) (rs : List Run) (s : State) (id : String) (q : Run)
      → AreRead (r ∷ rs) s
      → find_run id rs ≡ some q
      → (r.id == id) ≡ false
  later r rs s id q h e = elim (Bool-cases (r.id == id)) [
    | inl t ↦ absurd (ground (arith, h.once, e, ==→≡ r.id id t))
    | inr f ↦ f
  ]

  rest-AreRead : (r : Run) (rs : List Run) (s : State) → AreRead (r ∷ rs) s → AreRead rs (step r s)
  rest-AreRead r rs s h = record {
    once = ground (arith, h.once);
    stored = λ id q e. ground (arith, later r rs s id q h e, head_law r rs id s h, h.stored id q);
    opened = λ id q e. h.opened id q (ground (arith, later r rs s id q h e));
  }

  pub lookup-each :
      (rs : List Run) (k : String) (s : State)
      → AreRead rs s
      → lookup k (each step rs s).runs ≡ settled change (find_run k rs) (lookup k s.runs)
  lookup-each [] k s h = refl
  lookup-each (r ∷ rs) k s h = elim (Bool-cases (r.id == k)) [
    | inl t ↦ ground (
      arith,
      lookup-each rs k (step r s) (rest-AreRead r rs s h),
      head_law r rs k s h,
      ==→≡ r.id k t,
      h.once,
    )
    | inr f ↦
        ground (arith, lookup-each rs k (step r s) (rest-AreRead r rs s h), head_law r rs k s h)
  ]

when-stored :
    (p : Run → Bool) (o : Option Run) (r : Run) → when p o ≡ some r → (o ≡ some r) × (p r ≡ true)
when-stored p none r e = ground arith
when-stored p (some q) r e = ground (arith, e)

-- Open runs that a query finds, each once.
pub found-AreRead :
    (p : Run → Bool) (rs : List Run) (s : State)
    → distinct_runs rs ≡ true
    → ((id : String) → find_run id rs ≡ when p (lookup id s.runs))
    → ((r : Run) → p r ≡ true → is_open r.status ≡ true)
    → AreRead rs s
found-AreRead p rs s u f o = record {
  once = u;
  stored = λ id r e. (when-stored p (lookup id s.runs) r (sym (f id) ∙ e)).0;
  opened = λ id r e. o r (when-stored p (lookup id s.runs) r (sym (f id) ∙ e)).1;
}

pub settled-when :
    (p : Run → Bool) (change : Run → Run) (o : Option Run)
    → settled change (when p o) o ≡ on_run (λ r. if p r then change r else r) o
settled-when p change none = refl
settled-when p change (some r) = ground arith
