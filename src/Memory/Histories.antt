-- ===== src/Memory/Histories.antt =====
-- What one unit's record holds after a history: an independent description that follows that unit
-- alone, against the maps of memory.go.
use ocap2_extension.Prelude.{
  ℕ, List, [], ◌∷◌, Option, none, some, ◌≡◌, refl, ◌∙◌, ap, arith, nat_eq, nat_beq, if◌then◌else◌,
}
use ocap2_extension.Prelude.Map.{lookup, lookup-insert, lookup-adjust}
use ocap2_extension.Memory.State.{SoldierRecord, VehicleRecord, PlacedObjectRecord, Backend}
use ocap2_extension.Memory.Record.{
  new_soldier, new_vehicle, new_placed, end_soldier, end_vehicle, push_soldier_state,
  push_vehicle_state, push_fired_event, push_placed_event,
}
use ocap2_extension.Memory.Trace.{
  Op, adds_soldier, adds_vehicle, adds_placed, deletes_soldier, deletes_vehicle, soldier_moves,
  vehicle_moves, fires, placed_fires, step, run,
}

abbrev on_record {ℓ} : {A : Type ℓ} → (A → A) → Option A → Option A
on_record f none = none
on_record f (some r) = some (f r)

-- One soldier's record, by the events that name it.
pub track_soldier : ℕ → Option SoldierRecord → Op → Option SoldierRecord
track_soldier id r (adds_soldier s) = if nat_beq s.id id then some (new_soldier s) else r
track_soldier id r (deletes_soldier k f) = if nat_beq k id then on_record (end_soldier f) r else r
track_soldier id r (soldier_moves s) =
    if nat_beq s.soldier_id id then on_record (push_soldier_state s) r else r
track_soldier id r (fires e) =
    if nat_beq e.soldier_id id then on_record (push_fired_event e) r else r
track_soldier id r _ = r

pub soldier_history : ℕ → Option SoldierRecord → List Op → Option SoldierRecord
soldier_history id r [] = r
soldier_history id r (o ∷ os) = soldier_history id (track_soldier id r o) os

pub step-track_soldier :
    (id : ℕ) (o : Op) (b : Backend)
    → lookup id (step o b).soldiers ≡ track_soldier id (lookup id b.soldiers) o
unfolding step track_soldier
step-track_soldier id (adds_soldier s) b = lookup-insert id s.id (new_soldier s) b.soldiers
step-track_soldier id (deletes_soldier k f) b =
    ground (arith, lookup-adjust (end_soldier f) id k b.soldiers)
step-track_soldier id (soldier_moves s) b =
    ground (arith, lookup-adjust (push_soldier_state s) id s.soldier_id b.soldiers)
step-track_soldier id (fires e) b =
    ground (arith, lookup-adjust (push_fired_event e) id e.soldier_id b.soldiers)
step-track_soldier id _ b = refl

-- After any history a soldier's record is the one that its own events make: no event of another
-- soldier, of a vehicle or of any other kind reaches it, and none of its own is lost.
pub run-soldier_history :
    (os : List Op) (id : ℕ) (b : Backend)
    → lookup id (run os b).soldiers ≡ soldier_history id (lookup id b.soldiers) os
unfolding run soldier_history
run-soldier_history [] id b = refl
run-soldier_history (o ∷ os) id b =
    run-soldier_history os id (step o b)
    ∙ ap (λ r. soldier_history id r os) (step-track_soldier id o b)

-- One vehicle's record, by the events that name it.
pub track_vehicle : ℕ → Option VehicleRecord → Op → Option VehicleRecord
track_vehicle id r (adds_vehicle v) = if nat_beq v.id id then some (new_vehicle v) else r
track_vehicle id r (deletes_vehicle k f) = if nat_beq k id then on_record (end_vehicle f) r else r
track_vehicle id r (vehicle_moves s) =
    if nat_beq s.vehicle_id id then on_record (push_vehicle_state s) r else r
track_vehicle id r _ = r

pub vehicle_history : ℕ → Option VehicleRecord → List Op → Option VehicleRecord
vehicle_history id r [] = r
vehicle_history id r (o ∷ os) = vehicle_history id (track_vehicle id r o) os

pub step-track_vehicle :
    (id : ℕ) (o : Op) (b : Backend)
    → lookup id (step o b).vehicles ≡ track_vehicle id (lookup id b.vehicles) o
unfolding step track_vehicle
step-track_vehicle id (adds_vehicle v) b = lookup-insert id v.id (new_vehicle v) b.vehicles
step-track_vehicle id (deletes_vehicle k f) b =
    ground (arith, lookup-adjust (end_vehicle f) id k b.vehicles)
step-track_vehicle id (vehicle_moves s) b =
    ground (arith, lookup-adjust (push_vehicle_state s) id s.vehicle_id b.vehicles)
step-track_vehicle id _ b = refl

-- After any history a vehicle's record is the one that its own events make: its last registration,
-- with the states since then in order and the last delete frame.
pub run-vehicle_history :
    (os : List Op) (id : ℕ) (b : Backend)
    → lookup id (run os b).vehicles ≡ vehicle_history id (lookup id b.vehicles) os
unfolding run vehicle_history
run-vehicle_history [] id b = refl
run-vehicle_history (o ∷ os) id b =
    run-vehicle_history os id (step o b)
    ∙ ap (λ r. vehicle_history id r os) (step-track_vehicle id o b)

-- One placed object's record, by the events that name it.
pub track_placed : ℕ → Option PlacedObjectRecord → Op → Option PlacedObjectRecord
track_placed id r (adds_placed p) = if nat_beq p.id id then some (new_placed p) else r
track_placed id r (placed_fires e) =
    if nat_beq e.placed_id id then on_record (push_placed_event e) r else r
track_placed id r _ = r

pub placed_history : ℕ → Option PlacedObjectRecord → List Op → Option PlacedObjectRecord
placed_history id r [] = r
placed_history id r (o ∷ os) = placed_history id (track_placed id r o) os

pub step-track_placed :
    (id : ℕ) (o : Op) (b : Backend)
    → lookup id (step o b).placed ≡ track_placed id (lookup id b.placed) o
unfolding step track_placed
step-track_placed id (adds_placed p) b = lookup-insert id p.id (new_placed p) b.placed
step-track_placed id (placed_fires e) b =
    ground (arith, lookup-adjust (push_placed_event e) id e.placed_id b.placed)
step-track_placed id _ b = refl

-- After any history a placed object's record is the one that its own events make: its last
-- registration, with the events since then in order.
pub run-placed_history :
    (os : List Op) (id : ℕ) (b : Backend)
    → lookup id (run os b).placed ≡ placed_history id (lookup id b.placed) os
unfolding run placed_history
run-placed_history [] id b = refl
run-placed_history (o ∷ os) id b =
    run-placed_history os id (step o b)
    ∙ ap (λ r. placed_history id r os) (step-track_placed id o b)
