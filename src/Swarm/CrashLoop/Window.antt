-- ===== src/Swarm/CrashLoop/Window.antt =====
-- The detector, which forgets old failures, against one that keeps every failure of a service.
use pulseboard.Common.{
  String, ℕ, ◌+◌, ◌-◌, Bool, true, false, not, ◌&&◌, Option, none, some, List, [], ◌∷◌, ◌++◌, ◌≡◌,
  refl, ◌∙◌, ap, sym, arith, leb, if◌then◌else◌,
}
use pulseboard.Alert.Model.{Event}
use pulseboard.Swarm.CrashLoop.{
  crash_loop_recovery_time, ServiceFailureState, prune, count, fail, settle,
}

-- What can happen to a service: a failed task, with the name that the report of it gives, and a look
-- for recoveries.
pub data Step : Type 0 where
  fails : String → ℕ → Step
  checked : ℕ → Step

-- What an event tells: whom it names, when, and the text of a crash loop.
pub data Notice : Type 0 where
  crash_loop_detected : String → ℕ → String → Notice
  crash_loop_recovered : String → ℕ → Notice

abbrev pub notice_of : Event → Notice
notice_of evt =
    if evt.is_recover
    then crash_loop_recovered evt.entity_name evt.timestamp
    else crash_loop_detected evt.entity_name evt.timestamp evt.message

abbrev pub time_of : Step → ℕ
time_of (fails name now) = now
time_of (checked now) = now

abbrev pub detected : (String → ℕ → String) → String → ℕ → Option ℕ → List Notice
detected text name now none = []
detected text name now (some n) = crash_loop_detected name now (text name n) ∷ []

abbrev pub recovered : String → ℕ → Bool → List Notice
recovered id now b = if b then crash_loop_recovered id now ∷ [] else []

-- What the detector reports of the service `id`.
unfoldable pub notices :
    (String → ℕ → String) → String → List Step → ServiceFailureState → List Notice
unfolding fail settle
notices text id [] st = []
notices text id (fails name now ∷ steps) st =
    let (st', alert) = fail now st in detected text name now alert ++ notices text id steps st'
notices text id (checked now ∷ steps) st =
    let (st', recovers) = settle now st in recovered id now recovers ++ notices text id steps st'

-- The specification: all failures so far, whether the service crashes in a loop, and its last
-- failure.
abbrev pub expected : (String → ℕ → String) → String → List ℕ → Bool → ℕ → List Step → List Notice
expected text id all looping last [] = []
expected text id all looping last (fails name now ∷ steps) =
    let n = count now (all ++ now ∷ []) in
    let alerts = leb 3 n && not looping in
    detected text name now (if alerts then some n else none)
    ++ expected text id (all ++ now ∷ []) (if alerts then true else looping) now steps
expected text id all looping last (checked now ∷ steps) =
    let recovers = looping && leb crash_loop_recovery_time (now - last) in
    recovered id now recovers
    ++ expected text id all (if recovers then false else looping) last steps

-- No step is earlier than the one before it.
abbrev pub in_time : ℕ → List Step → Bool
in_time last [] = true
in_time last (step ∷ steps) = leb last (time_of step) && in_time (time_of step) steps

-- From some time on, two lists of failures count the same.
abbrev pub SameCount : ℕ → List ℕ → List ℕ → Type 0
SameCount from xs ys = (now : ℕ) → leb from now ≡ true → count now xs ≡ count now ys

count-append : (now : ℕ) (xs ys : List ℕ) → count now (xs ++ ys) ≡ count now xs + count now ys
count-append now [] ys = omega arith
count-append now (x ∷ xs) ys = ground (arith, count-append now xs ys)

count-prune :
    (now from : ℕ) (xs : List ℕ) → leb from now ≡ true → count now (prune from xs) ≡ count now xs
count-prune now from [] h = refl
count-prune now from (x ∷ xs) h = ground (arith, h, count-prune now from xs)

pub prune-SameCount :
    (last now : ℕ) (xs ys : List ℕ)
    → leb last now ≡ true
    → SameCount last xs ys
    → SameCount now (prune now (xs ++ now ∷ [])) (ys ++ now ∷ [])
prune-SameCount last now xs ys h s later g =
    count-prune later now (xs ++ now ∷ []) g
    ∙ count-append later xs (now ∷ [])
    ∙ ap (λ n. n + count later (now ∷ [])) (s later (ground (arith, h, g)))
    ∙ sym (count-append later ys (now ∷ []))

pub leb_refl : (n : ℕ) → leb n n ≡ true
leb_refl n = ground arith

pub notices-SameCount :
    (text : String → ℕ → String) (id : String) (steps : List Step) (st : ServiceFailureState)
    (all : List ℕ) (from : ℕ)
    → in_time from steps ≡ true
    → SameCount from st.failures all
    → notices text id steps st ≡ expected text id all st.in_crash_loop st.last_failure steps
unfolding notices fail settle
notices-SameCount text id [] st all from h s = refl
notices-SameCount text id (fails name now ∷ steps) st all from h s =
    let now_on = now ∷ [] in
    let same = prune-SameCount from now st.failures all (ground (arith, h)) s in
    ap (λ l. detected text name now (fail now st).1 ++ l)
      (notices-SameCount text id steps (fail now st).0 (all ++ now_on) now (ground (arith, h)) same)
    ∙ ap
        (λ n.
          detected text name now (if leb 3 n && not st.in_crash_loop then some n else none)
          ++ expected text id (all ++ now_on)
              (if leb 3 n && not st.in_crash_loop then true else st.in_crash_loop) now steps)
        (same now (leb_refl now))
notices-SameCount text id (checked now ∷ steps) st all from h s =
    ap (λ l. recovered id now (settle now st).1 ++ l)
      (notices-SameCount text id steps (settle now st).0 all now (ground (arith, h))
        (λ later g. s later (ground (arith, h, g))))
