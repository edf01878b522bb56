-- ===== src/Export/Build.antt =====
-- builder.go: Build, sortedMarkers, sortedPlacedObjects. `none` is a panic: a nil mission or world, an
-- index out of range, or an event row that does not start with an `int`.
use Prim.Native.String.{compare as compare_texts}
use text.Mathlib.Text.{is_lt}
use ocap2_extension.Prelude.{
  ℕ, ◌+◌, ◌%◌, ℤ, String, Bool, true, false, ◌||◌, List, [], ◌∷◌, ◌++◌, map, Option, none, some,
  suc, zero, ltb, leb, ltb_ℤ, raise, nat_eq, string_eq, Eq, if◌then◌else◌, length, set, replicate,
  last?,
}
use ocap2_extension.Prelude.Map.{Map, lookup}
use ocap2_extension.Prelude.Panic.{◌>>=◌}
use ocap2_extension.Prelude.Sort.{stable_sort}
use ocap2_extension.Core.{
  int, Row, Std, Frame, SoldierState, VehicleState, ProjectileEvent, TimeState, Mission, World,
  TrajectoryPoint,
}
use ocap2_extension.Export.Data.{
  SoldierRecord, VehicleRecord, MarkerRecord, PlacedObjectRecord, MissionData, Time, Entity, Export,
}
use ocap2_extension.Export.Frames.{frame_to_v1}
use ocap2_extension.Export.Names.{is_projectile_marker}
use ocap2_extension.Export.Rows.{
  coordinates, build_general_event, sector_row, end_mission_row, hit_row, kill_row, placed_hits,
  projectile_hits, row_frame,
}
use ocap2_extension.Export.Markers.{marker_row, placed_row, projectile_row}
use ocap2_extension.Export.Entities.{no_entity, build_soldier_entity, build_vehicle_entity}

-- The loops that raise `maxFrame`.
unfoldable pub raise_soldier_states : Frame → List SoldierState → Frame
raise_soldier_states m [] = m
raise_soldier_states m (s ∷ ss) = raise_soldier_states (raise m s.capture_frame) ss

unfoldable pub raise_vehicle_states : Frame → List VehicleState → Frame
raise_vehicle_states m [] = m
raise_vehicle_states m (s ∷ ss) = raise_vehicle_states (raise m s.capture_frame) ss

unfoldable pub raise_soldiers : Frame → Map ℕ SoldierRecord → Frame
raise_soldiers m [] = m
raise_soldiers m ((k, r) ∷ rs) = raise_soldiers (raise_soldier_states m r.states) rs

unfoldable pub raise_vehicles : Frame → Map ℕ VehicleRecord → Frame
raise_vehicles m [] = m
raise_vehicles m ((k, r) ∷ rs) = raise_vehicles (raise_vehicle_states m r.states) rs

unfoldable pub max_frame : MissionData → Frame
max_frame d = raise_vehicles (raise_soldiers 0 d.soldiers) d.vehicles

-- The loops that raise `maxEntityID`.
unfoldable pub raise_soldier_ids : ℕ → Map ℕ SoldierRecord → ℕ
raise_soldier_ids m [] = m
raise_soldier_ids m ((k, r) ∷ rs) = raise_soldier_ids (raise m r.soldier.id) rs

unfoldable pub raise_vehicle_ids : ℕ → Map ℕ VehicleRecord → ℕ
raise_vehicle_ids m [] = m
raise_vehicle_ids m ((k, r) ∷ rs) = raise_vehicle_ids (raise m r.vehicle.id) rs

unfoldable pub max_entity_id : MissionData → ℕ
max_entity_id d = raise_vehicle_ids (raise_soldier_ids 0 d.soldiers) d.vehicles

unfoldable pub has_entities : MissionData → Bool
has_entities d = ltb 0 (length d.soldiers) || ltb 0 (length d.vehicles)

-- `make([]Entity, maxEntityID+1)`, where the sum is a uint16
unfoldable pub blank_entities : MissionData → List Entity
blank_entities d =
    if has_entities d then replicate ((max_entity_id d + 1) % 65_536) no_entity else []

-- `export.Entities[id] = e`
unfoldable pub place : ℕ → Entity → List Entity → Option (List Entity)
place id e es = if ltb id (length es) then some (set es id e) else none

unfoldable pub place_soldiers : Frame → Map ℕ SoldierRecord → List Entity → Option (List Entity)
unfolding place
place_soldiers mf [] es = some es
place_soldiers mf ((k, r) ∷ rs) es =
    place r.soldier.id (build_soldier_entity r mf []) es >>= λ es'. place_soldiers mf rs es'

-- The keys of a map, and the records in the order of sorted keys.
abbrev pub keys {ℓ κ} : {K : Type ℓ} {V : Type κ} → Map K V → List K
keys [] = []
keys ((k, v) ∷ m) = k ∷ keys m

abbrev pub collect {ℓ κ} : {K : Type ℓ} {V : Type κ} ⦃e : Eq K⦄ → List K → Map K V → List V
collect [] m = []
collect (k ∷ ks) m = elim (lookup k m) [ none ↦ collect ks m | some v ↦ v ∷ collect ks m ]

text_less : String → String → Bool
text_less s t = is_lt (compare_texts s t)

unfoldable pub sorted_markers : Map String MarkerRecord → List MarkerRecord
unfolding text_less
sorted_markers m = collect (stable_sort text_less (keys m)) m

unfoldable pub sorted_placed_objects : Map ℕ PlacedObjectRecord → List PlacedObjectRecord
sorted_placed_objects m = collect (stable_sort ltb (keys m)) m

-- Appending one row for each element, or the rows of each.
unfoldable pub append_each : {A : Type 0} → (A → Row) → List A → List Row → List Row
append_each f [] rows = rows
append_each f (x ∷ xs) rows = append_each f xs (rows ++ f x ∷ [])

-- A bullet with two points or more leaves a line to its last point.
unfoldable pub fireline : ProjectileEvent → Option Row
fireline pe = if leb 2 (length pe.trajectory) then ending (last? pe.trajectory) else none
  where
    ending : Option TrajectoryPoint → Option Row
    ending none = none
    ending (some p) = some (int (frame_to_v1 pe.capture_frame) ∷ coordinates p.position ∷ [])

abbrev pub add_fireline : Row → Entity → Entity
add_fireline ff e = record e { frames_fired = e.frames_fired ++ ff ∷ [] }

-- `export.Entities[i].FramesFired = append(…)`, under the guard `i < len(export.Entities)`
unfoldable pub fire_at : ℕ → Row → List Entity → List Entity
fire_at i ff [] = []
fire_at zero ff (e ∷ es) = add_fireline ff e ∷ es
fire_at (suc i) ff (e ∷ es) = e ∷ fire_at i ff es

pub record Parts : Type 0 where
  pub entities : List Entity
  pub markers : List Row
  pub events : List Row

module _ (std : Std) where
  unfoldable pub place_vehicles : Frame → Map ℕ VehicleRecord → List Entity → Option (List Entity)
  unfolding place
  place_vehicles mf [] es = some es
  place_vehicles mf ((k, r) ∷ rs) es =
      place r.vehicle.id (build_vehicle_entity std r mf) es >>= λ es'. place_vehicles mf rs es'

  -- Events that need no entity: general, sector, end of mission, hit, kill.
  unfoldable pub plain_events : MissionData → List Row
  plain_events d = append_each kill_row d.kill_events (
      append_each hit_row d.hit_events (
        append_each end_mission_row d.end_mission_events (
          append_each sector_row d.sector_events
            (append_each (build_general_event std) d.general_events []))))

  -- The loop over the placed objects.
  unfoldable pub add_placed : List PlacedObjectRecord → Parts → Parts
  add_placed [] p = p
  add_placed (r ∷ rs) p = add_placed rs (record p {
    markers = p.markers ++ placed_row r ∷ [];
    events = p.events ++ placed_hits std r.placed_object r.events;
  })

  -- One round of the loop over the projectiles.
  unfoldable pub add_projectile : Map ℕ VehicleRecord → ProjectileEvent → Parts → Parts
  add_projectile vehicles pe p =
      if is_projectile_marker pe.simulation_type
      then record p {
        markers = p.markers ++ projectile_row vehicles pe ∷ [];
        events = p.events ++ projectile_hits std pe;
      }
      else record p {
        entities = elim (fireline pe) [
          | none ↦ p.entities
          | some ff ↦ fire_at pe.firer_object_id ff p.entities
        ];
        events = p.events ++ projectile_hits std pe;
      }

  unfoldable pub add_projectiles : Map ℕ VehicleRecord → List ProjectileEvent → Parts → Parts
  unfolding add_projectile
  add_projectiles vehicles [] p = p
  add_projectiles vehicles (pe ∷ pes) p =
      add_projectiles vehicles pes (add_projectile vehicles pe p)

-- The `less` of the sort, which reads both frames.
abbrev pub frame_less : Option ℤ → Option ℤ → Bool
frame_less (some a) (some b) = ltb_ℤ a b
frame_less _ _ = false

unfoldable pub earlier : Row → Row → Bool
earlier r s = frame_less (row_frame r) (row_frame s)

unfoldable pub framed : List Row → Bool
framed [] = true
framed (r ∷ rs) = elim (row_frame r) [ none ↦ false | some f ↦ framed rs ]

-- The sort panics on a row that does not start with an `int`.
unfoldable pub sort_events : List Row → Option (List Row)
sort_events rows = if framed rows then some (stable_sort earlier rows) else none

unfoldable pub time_entry : TimeState → Time
time_entry ts = record {
  date = ts.mission_date;
  frame_num = frame_to_v1 ts.capture_frame;
  system_time_utc = ts.system_time_utc;
  time = ts.mission_time;
  time_multiplier = ts.time_multiplier;
}

-- The `Export` that `Build` returns.
abbrev pub export_of : Mission → World → MissionData → Parts → List Row → Export
export_of m w d p events = record {
  addon_version = m.addon_version;
  extension_version = m.extension_version;
  extension_build = m.extension_build;
  mission_name = m.mission_name;
  mission_author = m.author;
  world_name = w.world_name;
  end_frame = frame_to_v1 (max_frame d);
  capture_delay = m.capture_delay;
  tags = m.tag;
  times = map time_entry d.time_states;
  entities = p.entities;
  events = events;
  markers = p.markers;
}

module _ (std : Std) where
  -- Everything that `Build` collects, with the units' entities in place.
  unfoldable pub parts : MissionData → List Entity → Parts
  parts d es = add_projectiles std d.vehicles d.projectile_events (
      add_placed std (sorted_placed_objects d.placed_objects) (record {
        entities = es;
        markers = append_each (marker_row std) (sorted_markers d.markers) [];
        events = plain_events std d;
      }))

  unfoldable pub build : MissionData → Option Export
  build d = do
    m ← d.mission
    w ← d.world
    soldiers ← place_soldiers (max_frame d) d.soldiers (blank_entities d)
    entities ← place_vehicles std (max_frame d) d.vehicles soldiers
    events ← sort_events (parts d entities).events
    some (export_of m w d (parts d entities) events)
