-- ===== src/Swarm/Replicas/Services.antt =====
-- The checker treats each service as if it were alone.
use pulseboard.Common.{
  ℕ, ◌-◌, String, string_eq, Bool, true, false, not, ◌&&◌, ◌||◌, Option, none, some, List, [], ◌∷◌,
  ◌==◌, ◌≡◌, refl, sym, ◌∙◌, ap, arith, ltb, leb, eqb, contains, distinct, if◌then◌else◌, ==→≡,
  Bool-cases, inl, inr,
}
use pulseboard.Common.Assoc.{lookup, lookup-insert, lookup-delete}
use pulseboard.Swarm.Replicas.{
  ReplicaState, SwarmService, States, Texts, recover_from, recover, under_replicated, check_service,
  check_services, ids_of, clean_up, check,
}

abbrev pub is_under : SwarmService → Bool
is_under svc =
    svc.mode == "replicated"
    && (not (eqb svc.desired_replicas 0) && ltb svc.running_replicas svc.desired_replicas)

-- What one check makes of the state of a service that it finds.
abbrev pub judged : ℕ → ℕ → Option ReplicaState → ReplicaState
judged delay now none = record { first_seen = now; alerted = false }
judged delay now (some state) = record state {
  alerted = state.alerted || leb delay (now - state.first_seen);
}

abbrev pub next_state : ℕ → ℕ → SwarmService → Option ReplicaState → Option ReplicaState
next_state delay now svc o = if is_under svc then some (judged delay now o) else none

recover-lookup :
    (texts : Texts) (now : ℕ) (id name : String) (states : States) (k : String)
    (o : Option ReplicaState)
    → lookup id states ≡ o
    → lookup k (recover_from texts now id name states o).0
      ≡ (if id == k then none else lookup k states)
recover-lookup texts now id name states k none e = elim (Bool-cases (id == k)) [
  | inl t ↦ rw t (ap (λ k. lookup k states) (sym (==→≡ id k t)) ∙ e)
  | inr f ↦ rw f refl
]
recover-lookup texts now id name states k (some state) e = lookup-delete id k states

under_replicated-lookup :
    (texts : Texts) (delay now : ℕ) (svc : SwarmService) (states : States) (k : String)
    (o : Option ReplicaState)
    → lookup svc.service_id states ≡ o
    → lookup k (under_replicated texts delay now svc states o).0
      ≡ (if svc.service_id == k then some (judged delay now o) else lookup k states)
under_replicated-lookup texts delay now svc states k none e =
    lookup-insert svc.service_id k (record { first_seen = now; alerted = false }) states
under_replicated-lookup texts delay now svc states k (some state) e =
    elim (Bool-cases (svc.service_id == k)) [
      | inl t ↦ ground (
        arith,
        t,
        e,
        ap (λ k. lookup k states) (==→≡ svc.service_id k t),
        lookup-insert svc.service_id k (record state { alerted = true }) states,
      )
      | inr f ↦
          ground (arith, f, lookup-insert svc.service_id k (record state { alerted = true }) states)
    ]

pub check_service-lookup :
    (texts : Texts) (delay now : ℕ) (svc : SwarmService) (states : States) (k : String)
    → lookup k (check_service texts delay now svc states).0 ≡ (
        if svc.service_id == k
        then next_state delay now svc (lookup svc.service_id states)
        else lookup k states)
unfolding check_service recover
check_service-lookup texts delay now svc states k =
    let id = svc.service_id in
    ground (
      arith,
      recover-lookup texts now id svc.name states k (lookup id states) refl,
      under_replicated-lookup texts delay now svc states k (lookup id states) refl,
    )

-- The service with an id in a list, if any.
abbrev pub service_of : String → List SwarmService → Option SwarmService
service_of id [] = none
service_of id (svc ∷ services) = if svc.service_id == id then some svc else service_of id services

check_services-lookup_other :
    (texts : Texts) (delay now : ℕ) (services : List SwarmService) (states : States) (k : String)
    → contains (ids_of services) k ≡ false
    → lookup k (check_services texts delay now services states).0 ≡ lookup k states
unfolding check_services
check_services-lookup_other texts delay now [] states k h = refl
check_services-lookup_other texts delay now (svc ∷ services) states k h =
    let done = check_service texts delay now svc states in
    check_services-lookup_other texts delay now services done.0 k (ground (arith, h))
    ∙ check_service-lookup texts delay now svc states k
    ∙ ground (arith, h)

abbrev pub state_after : ℕ → ℕ → Option SwarmService → Option ReplicaState → Option ReplicaState
state_after delay now none o = none
state_after delay now (some svc) o = next_state delay now svc o

lookup-clean_up :
    (active : List String) (states : States) (k : String)
    → lookup k (clean_up active states) ≡ (if contains active k then lookup k states else none)
unfolding clean_up lookup
lookup-clean_up active [] k = ground arith
lookup-clean_up active ((j, state) ∷ states) k = elim (Bool-cases (j == k)) [
  | inl t ↦ ground (arith, t, ap (contains active) (==→≡ j k t), lookup-clean_up active states k)
  | inr f ↦ ground (arith, f, lookup-clean_up active states k)
]

-- The state in the list of the services that the loop has still to see, or the one that it has seen.
check_services-lookup :
    (texts : Texts) (delay now : ℕ) (services : List SwarmService) (states : States) (k : String)
    → distinct (ids_of services) ≡ true
    → contains (ids_of services) k ≡ true
    → lookup k (check_services texts delay now services states).0
      ≡ state_after delay now (service_of k services) (lookup k states)
unfolding check_services
check_services-lookup texts delay now [] states k d h = absurd (ground (arith, h))
check_services-lookup texts delay now (svc ∷ services) states k d h =
    let done = check_service texts delay now svc states in
    elim (Bool-cases (svc.service_id == k)) [
      | inl t ↦
          let same = ==→≡ svc.service_id k t in
          let unseen : contains (ids_of services) k ≡ false =
            sym (ap (contains (ids_of services)) same) ∙ ground (arith, d) in
          check_services-lookup_other texts delay now services done.0 k unseen
          ∙ check_service-lookup texts delay now svc states k
          ∙ rw t (ap (λ k. next_state delay now svc (lookup k states)) same)
      | inr f ↦ rw f (
          check_services-lookup texts delay now services done.0 k (ground (arith, d))
            (ground (arith, f, h))
          ∙ ap (state_after delay now (service_of k services))
              (check_service-lookup texts delay now svc states k ∙ rw f refl))
    ]

absent-service_of :
    (services : List SwarmService) (k : String)
    → contains (ids_of services) k ≡ false
    → service_of k services ≡ none
absent-service_of [] k h = refl
absent-service_of (svc ∷ services) k h = ground (arith, h, absent-service_of services k)

-- A check treats each service as if it were alone: if no id stands twice in the list, the state under
-- every id afterwards is what the service of that id, if it is in the list, makes of the state before.
-- A service that has fewer replicas than it wants is tracked from the first check that finds it so,
-- and has alerted once the delay has passed since then at a check; every other one, and one that is
-- gone, is not tracked.
pub lookup-check :
    (texts : Texts) (delay now : ℕ) (services : List SwarmService) (states : States) (k : String)
    → distinct (ids_of services) ≡ true
    → lookup k (check texts delay now services states).0
      ≡ state_after delay now (service_of k services) (lookup k states)
unfolding check
lookup-check texts delay now services states k d =
    lookup-clean_up (ids_of services) (check_services texts delay now services states).0 k
    ∙ elim (Bool-cases (contains (ids_of services) k)) [
      | inl t ↦ rw t (check_services-lookup texts delay now services states k d t)
      | inr f ↦ rw f (
          ap (λ o. state_after delay now o (lookup k states))
            (sym (absent-service_of services k f)))
    ]
