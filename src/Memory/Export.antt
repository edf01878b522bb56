-- ===== src/Memory/Export.antt =====
-- memory.go: BuildExport and buildMissionDataUnlocked, what the exporters get. The exporters' maps hold
-- the records of the backend, under the same keys.
use ocap2_extension.Prelude.{
  ℕ, String, [], ◌∷◌, Option, none, some, ◌≡◌, refl, ◌∙◌, arith, nat_eq, string_eq, All, Eq,
}
use mathlib.Core.Option
use ocap2_extension.Prelude.Map.{Map, lookup, Distinct}
use ocap2_extension.Core.{Std}
use ocap2_extension.Export.Data
use ocap2_extension.Export.Data.{MissionData, Export}
use ocap2_extension.Export.Build.{build}
use ocap2_extension.Memory.State.{
  Backend, SoldierRecord, VehicleRecord, MarkerRecord, PlacedObjectRecord,
}

abbrev pub map_values {ℓ κ μ} : {K : Type ℓ} {V : Type κ} {W : Type μ} → (V → W) → Map K V → Map K W
map_values f [] = []
map_values f ((k, v) ∷ m) = (k, f v) ∷ map_values f m

abbrev pub soldier_data : SoldierRecord → Data.SoldierRecord
soldier_data r = record { soldier = r.soldier; states = r.states; fired_events = r.fired_events }

abbrev pub vehicle_data : VehicleRecord → Data.VehicleRecord
vehicle_data r = record { vehicle = r.vehicle; states = r.states }

abbrev pub marker_data : MarkerRecord → Data.MarkerRecord
marker_data r = record { marker = r.marker; states = r.states }

abbrev pub placed_data : PlacedObjectRecord → Data.PlacedObjectRecord
placed_data r = record { placed_object = r.placed_object; events = r.events }

-- The records behind the pointers. A pointer always has its record, so none is left out.
abbrev pub follow : Map String ℕ → Map ℕ MarkerRecord → Map String Data.MarkerRecord
follow [] heap = []
follow ((name, address) ∷ m) heap = elim (lookup address heap) [
  | none ↦ follow m heap
  | some r ↦ (name, marker_data r) ∷ follow m heap
]

unfoldable pub build_mission_data : Backend → MissionData
build_mission_data b = record {
  mission = b.mission;
  world = b.world;
  soldiers = map_values soldier_data b.soldiers;
  vehicles = map_values vehicle_data b.vehicles;
  markers = follow b.marker_store.markers b.marker_store.marker_heap;
  placed_objects = map_values placed_data b.placed;
  general_events = b.log.general_events;
  sector_events = b.log.sector_events;
  end_mission_events = b.log.end_mission_events;
  hit_events = b.log.hit_events;
  kill_events = b.log.kill_events;
  time_states = b.log.time_states;
  projectile_events = b.log.projectile_events;
}

-- `BuildExport`; `none` is a panic.
unfoldable pub build_export : Std → Backend → Option Export
build_export std b = build std (build_mission_data b)

module _ {ℓ κ μ} {K : Type ℓ} {V : Type κ} {W : Type μ} ⦃e : Eq K⦄ (f : V → W) where
  pub lookup-map_values :
      (k : K) (m : Map K V) → lookup k (map_values f m) ≡ Option.map f (lookup k m)
  unfolding lookup
  lookup-map_values k [] = refl
  lookup-map_values k ((j, v) ∷ m) = ground (arith, lookup-map_values k m)

  pub map_values-Distinct : (m : Map K V) → Distinct m → Distinct (map_values f m)
  unfolding Distinct
  map_values-Distinct [] d = tt
  map_values-Distinct ((k, v) ∷ m) (n, d) =
      (lookup-map_values k m ∙ rw n refl, map_values-Distinct m d)

pub map_values-All {ℓ κ μ ν π} :
    {K : Type ℓ} {V : Type κ} {W : Type μ} (f : V → W) (P : K × V → Type ν) (Q : K × W → Type π)
    (m : Map K V)
    → ((k : K) (v : V) → P (k, v) → Q (k, f v))
    → All P m
    → All Q (map_values f m)
map_values-All f P Q [] h a = tt
map_values-All f P Q ((k, v) ∷ m) h (p, a) = (h k v p, map_values-All f P Q m h a)
