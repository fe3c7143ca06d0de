-- ===== src/Alert/Engine/EntityRemoval.antt =====
-- ResolveByEntity: what stays in the map, and which rows are resolved.
use pulseboard.Common.{
  ℕ, String, string_eq, Bool, none, List, [], ◌∷◌, ◌≡◌, refl, ◌∙◌, arith, ==_refl, if◌then◌else◌,
}
use pulseboard.Common.Assoc.{lookup, take_where, lookup-take_where}
use pulseboard.Alert.Model.{Alert, ActiveAlertKey, key_eq}
use pulseboard.Alert.Deps.{Deps}
use pulseboard.Alert.Engine.{Engine, names_entity, resolve_all, resolve_by_entity}
use pulseboard.Alert.Engine.Recovery.{resolved_rows}
use pulseboard.Alert.Engine.Invariant.{IsKeyed}
use pulseboard.Alert.Engine.Refinement.{view}

-- The ids of the alerts that stand under a key of the entity.
abbrev pub ids_of_entity : String → String → List (ActiveAlertKey × Alert) → List String
ids_of_entity t i [] = []
ids_of_entity t i ((k, a) ∷ m) =
    let rest = ids_of_entity t i m in if names_entity t i k then a.id ∷ rest else rest

abbrev ids : List Alert → List String
ids [] = []
ids (a ∷ l) = a.id ∷ ids l

take_where-ids :
    (t i : String) (m : List (ActiveAlertKey × Alert))
    → ids (take_where (names_entity t i) m).1 ≡ ids_of_entity t i m
unfolding take_where
take_where-ids t i [] = refl
take_where-ids t i ((k, a) ∷ m) = ground (arith, take_where-ids t i m)

resolve_all-rows :
    (d : Deps) (updated : String → Bool) (now : ℕ) (l : List Alert)
    → resolved_rows (resolve_all d updated now l) ≡ ids l
unfolding resolve_all
resolve_all-rows d updated now [] = refl
resolve_all-rows d updated now (a ∷ l) = ground (arith, resolve_all-rows d updated now l)

-- After ResolveByEntity no alert of the entity is active, every other entry is as it was, and the
-- store was asked to resolve exactly the alerts of the entity, each entry once and in the order of
-- the map.
pub resolve_by_entity_lem :
    (d : Deps) (updated : String → Bool) (now : ℕ) (t i : String) (e : Engine)
    → ((k : ActiveAlertKey)
        → lookup k (resolve_by_entity d updated now t i e).0.active_alerts
          ≡ (if names_entity t i k then none else lookup k e.active_alerts))
      × (resolved_rows (resolve_by_entity d updated now t i e).1
          ≡ ids_of_entity t i e.active_alerts)
unfolding resolve_by_entity
resolve_by_entity_lem d updated now t i e = (
  λ k. lookup-take_where (names_entity t i) k e.active_alerts,
  resolve_all-rows d updated now (take_where (names_entity t i) e.active_alerts).1
      ∙ take_where-ids t i e.active_alerts,
)

-- The entries that stay are as they were.
pub resolve_by_entity-IsKeyed :
    (d : Deps) (updated : String → Bool) (now : ℕ) (t i : String) (e : Engine)
    → IsKeyed e
    → IsKeyed (resolve_by_entity d updated now t i e).0
resolve_by_entity-IsKeyed d updated now t i e h = record {
  at_key =
      λ j b f. ground (arith, f, (resolve_by_entity_lem d updated now t i e).0 j, h.at_key j b);
}

-- No alert of the entity stands.
pub resolve_by_entity-view :
    (d : Deps) (updated : String → Bool) (now : ℕ) (k : ActiveAlertKey) (e : Engine)
    → view (resolve_by_entity d updated now k.entity_type k.entity_id e).0 k ≡ none
resolve_by_entity-view d updated now k e =
    rw ((resolve_by_entity_lem d updated now k.entity_type k.entity_id e).0 k)
      (ground (arith, ==_refl k.entity_type, ==_refl k.entity_id))
