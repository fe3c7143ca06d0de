-- ===== src/Swarm/Replicas/Notices.antt =====
-- The alerts of a check, service by service.
use pulseboard.Common.{
  ℕ, ◌-◌, String, string_eq, Bool, true, false, not, ◌&&◌, Option, none, some, List, [], ◌∷◌, ◌++◌,
  ◌≡◌, refl, ◌∙◌, ap, arith, leb, contains, distinct, if◌then◌else◌, eq_iff,
}
use pulseboard.Common.Assoc.{lookup}
use pulseboard.Alert.Model.{Event}
use pulseboard.Swarm.Replicas.{
  ReplicaState, SwarmService, States, Texts, replica_event, restored_event, recover_from, recover,
  under_replicated, check_service, check_services, ids_of, check,
}
use pulseboard.Swarm.Replicas.Services.{
  is_under, check_service-lookup, state_after, service_of, lookup-check,
}

abbrev pub was_alerted : Option ReplicaState → Bool
was_alerted none = false
was_alerted (some state) = state.alerted

-- Tracked for the delay.
abbrev pub is_due : ℕ → ℕ → Option ReplicaState → Bool
is_due delay now none = false
is_due delay now (some state) = leb delay (now - state.first_seen)

-- What a check says of a service that it finds in a state.
abbrev pub notices_of : Texts → ℕ → ℕ → SwarmService → Option ReplicaState → List Event
notices_of texts delay now svc o =
    if is_under svc
    then (if not (was_alerted o) && is_due delay now o
        then replica_event texts now svc ∷ []
        else [])
    else (if was_alerted o then restored_event texts now svc.service_id svc.name ∷ [] else [])

unfoldable pub all_notices :
    Texts → ℕ → ℕ → (String → Option ReplicaState) → List SwarmService → List Event
all_notices texts delay now before [] = []
all_notices texts delay now before (svc ∷ services) =
    notices_of texts delay now svc (before svc.service_id)
    ++ all_notices texts delay now before services

recover-notices :
    (texts : Texts) (now : ℕ) (id name : String) (states : States) (o : Option ReplicaState)
    → (recover_from texts now id name states o).1
      ≡ (if was_alerted o then restored_event texts now id name ∷ [] else [])
recover-notices texts now id name states none = refl
recover-notices texts now id name states (some state) = refl

under_replicated-notices :
    (texts : Texts) (delay now : ℕ) (svc : SwarmService) (states : States) (o : Option ReplicaState)
    → (under_replicated texts delay now svc states o).1
      ≡ (if not (was_alerted o) && is_due delay now o then replica_event texts now svc ∷ [] else [])
under_replicated-notices texts delay now svc states none = refl
under_replicated-notices texts delay now svc states (some state) = ground arith

check_service-notices :
    (texts : Texts) (delay now : ℕ) (svc : SwarmService) (states : States)
    → (check_service texts delay now svc states).1
      ≡ notices_of texts delay now svc (lookup svc.service_id states)
unfolding check_service recover
check_service-notices texts delay now svc states =
    let o = lookup svc.service_id states in
    ground (
      arith,
      recover-notices texts now svc.service_id svc.name states o,
      under_replicated-notices texts delay now svc states o,
    )

-- Only the states of the services of the list matter.
all_notices-unseen :
    (texts : Texts) (delay now : ℕ) (first : SwarmService) (services : List SwarmService)
    (states : States)
    → contains (ids_of services) first.service_id ≡ false
    → all_notices texts delay now
        (λ k. lookup k (check_service texts delay now first states).0)
        services
      ≡ all_notices texts delay now (λ k. lookup k states) services
unfolding all_notices
all_notices-unseen texts delay now first [] states h = refl
all_notices-unseen texts delay now first (svc ∷ services) states h =
    let other : lookup svc.service_id (check_service texts delay now first states).0
        ≡ lookup svc.service_id states =
      check_service-lookup texts delay now first states svc.service_id
      ∙ ground (
        arith,
        h,
        eq_iff first.service_id svc.service_id,
        eq_iff svc.service_id first.service_id,
      ) in
    ap
      (λ o.
        notices_of texts delay now svc o
        ++ all_notices texts delay now
            (λ k. lookup k (check_service texts delay now first states).0) services)
      other
    ∙ ap (λ l. notices_of texts delay now svc (lookup svc.service_id states) ++ l)
        (all_notices-unseen texts delay now first services states (ground (arith, h)))

check_services-notices :
    (texts : Texts) (delay now : ℕ) (services : List SwarmService) (states : States)
    → distinct (ids_of services) ≡ true
    → (check_services texts delay now services states).1
      ≡ all_notices texts delay now (λ k. lookup k states) services
unfolding check_services all_notices
check_services-notices texts delay now [] states d = refl
check_services-notices texts delay now (svc ∷ services) states d =
    let done = check_service texts delay now svc states in
    ap (λ l. done.1 ++ l)
      (check_services-notices texts delay now services done.0 (ground (arith, d))
        ∙ all_notices-unseen texts delay now svc services states (ground (arith, d)))
    ∙ ap (λ l. l ++ all_notices texts delay now (λ k. lookup k states) services)
        (check_service-notices texts delay now svc states)

-- A check treats each service as if it were alone: if no id stands twice in the list, the state under
-- every id afterwards, and what is sent of each service, in the order of the list, are those of the
-- service and its state before. A service with fewer replicas than it wants is tracked from the first
-- check that finds it so, and alerts once, at the first check when the delay has passed since then;
-- every other one is not tracked, and recovers if it had alerted; one that is not in the list is not
-- tracked either.
pub check-all_notices :
    (texts : Texts) (delay now : ℕ) (services : List SwarmService) (states : States)
    → distinct (ids_of services) ≡ true
    → ((k : String)
        → lookup k (check texts delay now services states).0
          ≡ state_after delay now (service_of k services) (lookup k states))
      × ((check texts delay now services states).1
          ≡ all_notices texts delay now (λ k. lookup k states) services)
unfolding check
check-all_notices texts delay now services states d = (
  λ k. lookup-check texts delay now services states k d,
  check_services-notices texts delay now services states d,
)
