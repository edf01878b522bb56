-- ===== src/Cache/EntityCache.antt =====
-- internal/cache/cache.go: the entities of the current mission by their game id. Each method
-- holds the mutex for its whole body, so it is one step on the state.
use ocap2_extension.Prelude.{ℕ, [], Option, nat_eq}
use ocap2_extension.Prelude.Map.{Map, lookup, insert}
use ocap2_extension.Core.{Soldier, Vehicle, PlacedObject}

pub record EntityCache : Type 0 where
  pub soldiers : Map ℕ Soldier
  pub vehicles : Map ℕ Vehicle
  pub placed : Map ℕ PlacedObject

abbrev pub new : EntityCache
new = record { soldiers = []; vehicles = []; placed = [] }

unfoldable pub reset : EntityCache → EntityCache
reset c = record c { soldiers = []; vehicles = []; placed = [] }

abbrev pub get_soldier : EntityCache → ℕ → Option Soldier
get_soldier c id = lookup id c.soldiers

abbrev pub get_vehicle : EntityCache → ℕ → Option Vehicle
get_vehicle c id = lookup id c.vehicles

abbrev pub get_placed_object : EntityCache → ℕ → Option PlacedObject
get_placed_object c id = lookup id c.placed

abbrev pub add_soldier : EntityCache → Soldier → EntityCache
add_soldier c s = record c { soldiers = insert s.id s c.soldiers }

abbrev pub update_soldier : EntityCache → Soldier → EntityCache
update_soldier c s = record c { soldiers = insert s.id s c.soldiers }

abbrev pub add_vehicle : EntityCache → Vehicle → EntityCache
add_vehicle c v = record c { vehicles = insert v.id v c.vehicles }

abbrev pub add_placed_object : EntityCache → PlacedObject → EntityCache
add_placed_object c p = record c { placed = insert p.id p c.placed }
