-- ===== src/Memory/Keys.antt =====
-- memory.go: the keys of the unit maps, and the exporters on what was recorded.
use ocap2_extension.Prelude.{ℕ, ◌<◌, List, [], ◌∷◌, none, ◌≡◌, refl, nat_eq, All}
use ocap2_extension.Prelude.Panic.{◌>>=◌}
use ocap2_extension.Prelude.Map.{
  lookup, adjust, Distinct, All-insert, All-adjust, insert-Distinct, adjust-Distinct,
}
use ocap2_extension.Core.{Std, Mission, World}
use ocap2_extension.Export.Json.{Json, encode_export}
use ocap2_extension.Export.Build.{build, max_entity_id}
use ocap2_extension.Export.Stream.{stream}
use ocap2_extension.Export.StreamBuild.{IsExportable, IsSoldierShot, stream-build}
use ocap2_extension.Memory.State.{Backend, SoldierRecord, VehicleRecord}
use ocap2_extension.Memory.Lifecycle.{start_mission}
use ocap2_extension.Memory.Record.{
  new_soldier, new_vehicle, end_soldier, end_vehicle, push_soldier_state, push_vehicle_state,
  push_fired_event,
}
use ocap2_extension.Memory.Trace.{
  Op, adds_soldier, adds_vehicle, deletes_soldier, deletes_vehicle, soldier_moves, vehicle_moves,
  fires, step, run,
}
use ocap2_extension.Memory.Export.{
  build_mission_data, soldier_data, vehicle_data, map_values-All, map_values-Distinct,
}

abbrev pub SoldierKeyed : ℕ × SoldierRecord → Type 0
SoldierKeyed e = e.1.soldier.id ≡ e.0

abbrev pub VehicleKeyed : ℕ × VehicleRecord → Type 0
VehicleKeyed e = e.1.vehicle.id ≡ e.0

pub record HasKeys (b : Backend) : Type 0 where
  pub soldiers_keyed : All SoldierKeyed b.soldiers
  pub vehicles_keyed : All VehicleKeyed b.vehicles
  pub soldiers_distinct : Distinct b.soldiers
  pub vehicles_distinct : Distinct b.vehicles

soldiers_adjusted :
    (b : Backend)
    → HasKeys b
    → (f : SoldierRecord → SoldierRecord) (id : ℕ)
    → ((r : SoldierRecord) → SoldierKeyed (id, r) → SoldierKeyed (id, f r))
    → HasKeys (record b { soldiers = adjust f id b.soldiers })
soldiers_adjusted b h f id p = record {
  soldiers_keyed = All-adjust SoldierKeyed f id b.soldiers h.soldiers_keyed p;
  vehicles_keyed = h.vehicles_keyed;
  soldiers_distinct = adjust-Distinct f id b.soldiers h.soldiers_distinct;
  vehicles_distinct = h.vehicles_distinct;
}

vehicles_adjusted :
    (b : Backend)
    → HasKeys b
    → (f : VehicleRecord → VehicleRecord) (id : ℕ)
    → ((r : VehicleRecord) → VehicleKeyed (id, r) → VehicleKeyed (id, f r))
    → HasKeys (record b { vehicles = adjust f id b.vehicles })
vehicles_adjusted b h f id p = record {
  vehicles_keyed = All-adjust VehicleKeyed f id b.vehicles h.vehicles_keyed p;
  soldiers_keyed = h.soldiers_keyed;
  vehicles_distinct = adjust-Distinct f id b.vehicles h.vehicles_distinct;
  soldiers_distinct = h.soldiers_distinct;
}

step-HasKeys : (o : Op) (b : Backend) → HasKeys b → HasKeys (step o b)
unfolding step
step-HasKeys (adds_soldier s) b h = record {
  soldiers_keyed = All-insert SoldierKeyed s.id (new_soldier s) b.soldiers h.soldiers_keyed refl;
  vehicles_keyed = h.vehicles_keyed;
  soldiers_distinct = insert-Distinct s.id (new_soldier s) b.soldiers h.soldiers_distinct;
  vehicles_distinct = h.vehicles_distinct;
}
step-HasKeys (deletes_soldier id f) b h = soldiers_adjusted b h (end_soldier f) id (λ w p. p)
step-HasKeys (soldier_moves s) b h =
    soldiers_adjusted b h (push_soldier_state s) s.soldier_id (λ w p. p)
step-HasKeys (fires e) b h = soldiers_adjusted b h (push_fired_event e) e.soldier_id (λ w p. p)
step-HasKeys (adds_vehicle v) b h = record {
  soldiers_keyed = h.soldiers_keyed;
  vehicles_keyed = All-insert VehicleKeyed v.id (new_vehicle v) b.vehicles h.vehicles_keyed refl;
  soldiers_distinct = h.soldiers_distinct;
  vehicles_distinct = insert-Distinct v.id (new_vehicle v) b.vehicles h.vehicles_distinct;
}
step-HasKeys (deletes_vehicle id f) b h = vehicles_adjusted b h (end_vehicle f) id (λ w p. p)
step-HasKeys (vehicle_moves s) b h =
    vehicles_adjusted b h (push_vehicle_state s) s.vehicle_id (λ w p. p)
step-HasKeys _ b h = record {
  soldiers_keyed = h.soldiers_keyed;
  vehicles_keyed = h.vehicles_keyed;
  soldiers_distinct = h.soldiers_distinct;
  vehicles_distinct = h.vehicles_distinct;
}

-- Any history keeps each unit record under the id of its unit and each id once, in the maps of the
-- soldiers and of the vehicles.
pub run-HasKeys : (os : List Op) (b : Backend) → HasKeys b → HasKeys (run os b)
unfolding run
run-HasKeys [] b h = h
run-HasKeys (o ∷ os) b h = run-HasKeys os (step o b) (step-HasKeys o b h)

pub start_mission-HasKeys : (m : Mission) (w : World) (b : Backend) → HasKeys (start_mission m w b)
unfolding start_mission Distinct
start_mission-HasKeys m w b = record {
  soldiers_keyed = tt;
  vehicles_keyed = tt;
  soldiers_distinct = tt;
  vehicles_distinct = tt;
}

-- What remains to ask of the recorded data: no id is both a soldier and a vehicle, the largest id
-- leaves room for one more in a uint16, and bullets come from soldiers or unknown units.
pub record IsClean (b : Backend) : Type 0 where
  pub disjoint :
      All (λ e. lookup e.0 (build_mission_data b).vehicles ≡ none) (build_mission_data b).soldiers
  pub room : max_entity_id (build_mission_data b) < 65_535
  pub shots : All (IsSoldierShot (build_mission_data b)) (build_mission_data b).projectile_events

pub HasKeys-IsExportable :
    (b : Backend) → HasKeys b → IsClean b → IsExportable (build_mission_data b)
unfolding build_mission_data
HasKeys-IsExportable b h c = record {
  keyed = record {
    soldiers_keyed =
        map_values-All soldier_data SoldierKeyed _ b.soldiers (λ k v p. p) h.soldiers_keyed;
    vehicles_keyed =
        map_values-All vehicle_data VehicleKeyed _ b.vehicles (λ k v p. p) h.vehicles_keyed;
    soldiers_distinct = map_values-Distinct soldier_data b.soldiers h.soldiers_distinct;
    vehicles_distinct = map_values-Distinct vehicle_data b.vehicles h.vehicles_distinct;
    disjoint = c.disjoint;
    room = c.room;
  };
  shots = c.shots;
}

-- After any history since a mission's start, the streamed file is the encoding of the export built in
-- memory, or both fail, if no id is both a soldier's and a vehicle's, ids are below 65535, and each
-- bullet comes from a soldier or from an id above all units'.
pub stream-run :
    (std : Std) (json : Json) (m : Mission) (w : World) (b : Backend) (os : List Op)
    → IsClean (run os (start_mission m w b))
    → let d = build_mission_data (run os (start_mission m w b)) in
      stream std json d ≡ (build std d >>= λ x. encode_export json x "")
stream-run std json m w b os c =
    stream-build std json _
      (HasKeys-IsExportable _ (run-HasKeys os _ (start_mission-HasKeys m w b)) c)
