-- ===== src/Alert/Engine/Standing.antt =====
-- Which alerts stand after a run of events: what the events alone tell of it.
use pulseboard.Common.{
  String, string_eq, Bool, true, false, not, ◌&&◌, ◌||◌, Option, none, some, List, [], ◌∷◌, ◌++◌,
  ◌==◌, ◌≡◌, refl, arith, all, select, if◌then◌else◌,
}
use pulseboard.Alert.Model.{Event, ActiveAlertKey, key_eq, event_key}
use pulseboard.Alert.Deps.{Deps}
use pulseboard.Alert.Silence.{check_silence_rules}
use pulseboard.Alert.Engine.{Engine, process_event, run}
use pulseboard.Alert.Engine.Invariant.{IsKeyed, process_event-IsKeyed}
use pulseboard.Alert.Engine.Refinement.{view, is_some, book, stored, process_event-book}

-- Whether an alert is active under a key.
abbrev pub stands : Engine → ActiveAlertKey → Bool
stands e k = is_some (view e k)

abbrev pub events_of : List (Deps × Event) → List Event
events_of [] = []
events_of ((d, evt) ∷ rest) = evt ∷ events_of rest

-- A recovery of this key.
abbrev pub recovers : ActiveAlertKey → Event → Bool
recovers k evt = evt.is_recover && event_key evt == k

-- Whether the last event under the key, if any, was no recovery.
abbrev pub opened : ActiveAlertKey → Bool → List Event → Bool
opened k b [] = b
opened k b (evt ∷ evts) = opened k (if event_key evt == k then not evt.is_recover else b) evts

book-is_some :
    (recover quiet stored : Bool) (severity : String) (o : Option String)
    → recover ≡ false
    → is_some o ≡ true
    → is_some (book recover quiet stored severity o) ≡ true
book-is_some recover quiet stored severity none r h = ground (arith, h)
book-is_some recover quiet stored severity (some s) r h = ground (arith, r)

process_event-stands :
    (d : Deps) (evt : Event) (e : Engine) (k : ActiveAlertKey)
    → IsKeyed e
    → recovers k evt ≡ false
    → stands e k ≡ true
    → stands (process_event d evt e).0 k ≡ true
process_event-stands d evt e k h r s = rw (process_event-book d evt e k h) (
    ground (
      arith,
      r,
      s,
      book-is_some evt.is_recover (check_silence_rules d evt) (stored d evt) evt.severity
          (view e k),
    ))

-- An active alert stands as long as no event recovers its key.
pub run-stands :
    (evts : List (Deps × Event)) (e : Engine) (k : ActiveAlertKey)
    → IsKeyed e
    → all (λ evt. not (recovers k evt)) (events_of evts) ≡ true
    → stands e k ≡ true
    → stands (run evts e).0 k ≡ true
unfolding run
run-stands [] e k h r s = s
run-stands ((d, evt) ∷ evts) e k h r s =
    run-stands evts (process_event d evt e).0 k (process_event-IsKeyed d evt e h)
      (ground (arith, r)) (process_event-stands d evt e k h (ground (arith, r)) s)

book-recover :
    (recover quiet stored : Bool) (severity : String) (o : Option String)
    → (not (is_some (book recover quiet stored severity o)) || not recover) ≡ true
book-recover true quiet stored severity o = refl
book-recover false quiet stored severity o = ground arith

pub process_event-opened :
    (d : Deps) (evt : Event) (e : Engine) (k : ActiveAlertKey) (b : Bool)
    → IsKeyed e
    → (not (stands e k) || b) ≡ true
    → (not (stands (process_event d evt e).0 k)
        || (if event_key evt == k then not evt.is_recover else b))
      ≡ true
process_event-opened d evt e k b h s = rw (process_event-book d evt e k h) (
    ground (
      arith,
      s,
      book-recover evt.is_recover (check_silence_rules d evt) (stored d evt) evt.severity
          (view e k),
    ))

-- An alert stands only where the last event under its key was no recovery.
pub run-opened :
    (evts : List (Deps × Event)) (e : Engine) (k : ActiveAlertKey) (b : Bool)
    → IsKeyed e
    → (not (stands e k) || b) ≡ true
    → (not (stands (run evts e).0 k) || opened k b (events_of evts)) ≡ true
unfolding run
run-opened [] e k b h s = s
run-opened ((d, evt) ∷ evts) e k b h s =
    run-opened evts (process_event d evt e).0 k
      (if event_key evt == k then not evt.is_recover else b) (process_event-IsKeyed d evt e h)
      (process_event-opened d evt e k b h s)

-- Only the events under the key matter.
pub opened-select :
    (p : Event → Bool) (k : ActiveAlertKey) (b : Bool) (evts : List Event)
    → all (λ evt. p evt || not (event_key evt == k)) evts ≡ true
    → opened k b (select p evts) ≡ opened k b evts
opened-select p k b [] h = refl
opened-select p k b (evt ∷ evts) h = ground (
  arith,
  h,
  opened-select p k (if event_key evt == k then not evt.is_recover else b) evts,
  opened-select p k b evts,
)

pub opened-append :
    (k : ActiveAlertKey) (b : Bool) (xs ys : List Event)
    → opened k b (xs ++ ys) ≡ opened k (opened k b xs) ys
opened-append k b [] ys = refl
opened-append k b (evt ∷ xs) ys =
    opened-append k (if event_key evt == k then not evt.is_recover else b) xs ys

-- Without a recovery of the key among those that can have the key there is none at all.
pub all-recovers-select :
    (p : Event → Bool) (k : ActiveAlertKey) (evts : List Event)
    → all (λ evt. p evt || not (event_key evt == k)) evts ≡ true
    → all (λ evt. not (recovers k evt)) (select p evts) ≡ true
    → all (λ evt. not (recovers k evt)) evts ≡ true
all-recovers-select p k [] h r = refl
all-recovers-select p k (evt ∷ evts) h r = ground (arith, h, r, all-recovers-select p k evts)
