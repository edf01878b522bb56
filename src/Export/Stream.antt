-- ===== src/Export/Stream.antt =====
-- stream.go: Stream, computeMetadata, buildTimes, buildAggregates, writeEntityForID. A writer that
-- accepts every byte is assumed; `none` is a panic or the encoder's error.
use ocap2_extension.Prelude.{
  ℕ, ◌+◌, ◌%◌, String, true, false, ◌||◌, List, [], ◌∷◌, ◌++◌, Option, none, some, suc, zero, ltb,
  raise, nat_beq, nat_eq, string_eq, if◌then◌else◌, length,
}
use ocap2_extension.Prelude.Map.{Map, lookup, insert}
use ocap2_extension.Prelude.Panic.{◌>>=◌}
use ocap2_extension.Core.{
  Row, Std, Frame, SoldierState, VehicleState, ProjectileEvent, TimeState, Mission, World,
}
use ocap2_extension.Export.Data.{
  SoldierRecord, VehicleRecord, PlacedObjectRecord, MissionData, Time, Entity,
}
use ocap2_extension.Export.Frames.{frame_to_v1}
use ocap2_extension.Export.Names.{is_projectile_marker}
use ocap2_extension.Export.Rows.{
  build_general_event, sector_row, end_mission_row, hit_row, kill_row, placed_hits, projectile_hits,
}
use ocap2_extension.Export.Markers.{marker_row, placed_row, projectile_row}
use ocap2_extension.Export.Entities.{no_entity, build_soldier_entity, build_vehicle_entity}
use ocap2_extension.Export.Build.{
  append_each, fireline, sorted_markers, sorted_placed_objects, sort_events, time_entry,
}
use ocap2_extension.Export.Json.{Json, Writer, write, write_bytes, write_field, ◌then_write◌}

pub record Metadata : Type 0 where
  pub max_frame : Frame
  pub max_entity_id : ℕ

-- `computeMetadata`, one walk that raises both.
unfoldable pub soldier_frames : List SoldierState → Metadata → Metadata
soldier_frames [] m = m
soldier_frames (s ∷ ss) m =
    soldier_frames ss (record m { max_frame = raise m.max_frame s.capture_frame })

unfoldable pub vehicle_frames : List VehicleState → Metadata → Metadata
vehicle_frames [] m = m
vehicle_frames (s ∷ ss) m =
    vehicle_frames ss (record m { max_frame = raise m.max_frame s.capture_frame })

unfoldable pub walk_soldiers : Map ℕ SoldierRecord → Metadata → Metadata
walk_soldiers [] m = m
walk_soldiers ((k, r) ∷ rs) m =
    walk_soldiers rs
      (soldier_frames r.states (record m { max_entity_id = raise m.max_entity_id r.soldier.id }))

unfoldable pub walk_vehicles : Map ℕ VehicleRecord → Metadata → Metadata
walk_vehicles [] m = m
walk_vehicles ((k, r) ∷ rs) m =
    walk_vehicles rs
      (vehicle_frames r.states (record m { max_entity_id = raise m.max_entity_id r.vehicle.id }))

unfoldable pub compute_metadata : MissionData → Metadata
compute_metadata d =
    walk_vehicles d.vehicles
      (walk_soldiers d.soldiers (record { max_frame = 0; max_entity_id = 0 }))

unfoldable pub build_times : List TimeState → List Time → List Time
build_times [] times = times
build_times (ts ∷ tss) times = build_times tss (times ++ time_entry ts ∷ [])

pub record Aggregates : Type 0 where
  pub events : List Row
  pub markers : List Row
  pub firelines : Map ℕ (List Row)

-- `m[k]` of a map of slices: a missing key is the nil slice.
abbrev pub rows_of : Option (List Row) → List Row
rows_of none = []
rows_of (some rows) = rows

abbrev pub firelines_of : ℕ → Map ℕ (List Row) → List Row
firelines_of id m = rows_of (lookup id m)

-- `firelines[id] = append(firelines[id], ff)`
unfoldable pub push_fireline : ℕ → Row → Map ℕ (List Row) → Map ℕ (List Row)
push_fireline id ff m = insert id (firelines_of id m ++ ff ∷ []) m

module _ (std : Std) where
  unfoldable pub aggregate_placed : List PlacedObjectRecord → Aggregates → Aggregates
  aggregate_placed [] a = a
  aggregate_placed (r ∷ rs) a = aggregate_placed rs (record a {
    markers = a.markers ++ placed_row r ∷ [];
    events = a.events ++ placed_hits std r.placed_object r.events;
  })

  unfoldable pub aggregate_projectile :
      Map ℕ VehicleRecord → ProjectileEvent → Aggregates → Aggregates
  aggregate_projectile vehicles pe a =
      if is_projectile_marker pe.simulation_type
      then record a {
        markers = a.markers ++ projectile_row vehicles pe ∷ [];
        events = a.events ++ projectile_hits std pe;
      }
      else record a {
        firelines = elim (fireline pe) [
          | none ↦ a.firelines
          | some ff ↦ push_fireline pe.firer_object_id ff a.firelines
        ];
        events = a.events ++ projectile_hits std pe;
      }

  unfoldable pub aggregate_projectiles :
      Map ℕ VehicleRecord → List ProjectileEvent → Aggregates → Aggregates
  unfolding aggregate_projectile
  aggregate_projectiles vehicles [] a = a
  aggregate_projectiles vehicles (pe ∷ pes) a =
      aggregate_projectiles vehicles pes (aggregate_projectile vehicles pe a)

  unfoldable pub build_aggregates : MissionData → Aggregates
  build_aggregates d = aggregate_projectiles d.vehicles d.projectile_events (
      aggregate_placed (sorted_placed_objects d.placed_objects) (record {
        events = append_each kill_row d.kill_events (
            append_each hit_row d.hit_events (
              append_each end_mission_row d.end_mission_events (
                append_each sector_row d.sector_events
                  (append_each (build_general_event std) d.general_events []))));
        markers = append_each (marker_row std) (sorted_markers d.markers) [];
        firelines = [];
      }))

  vehicle_or_blank : Option VehicleRecord → Frame → Entity
  vehicle_or_blank none mf = no_entity
  vehicle_or_blank (some r) mf = build_vehicle_entity std r mf

  choose_entity : Option SoldierRecord → Option VehicleRecord → Frame → List Row → Entity
  unfolding vehicle_or_blank
  choose_entity (some r) v mf lines = build_soldier_entity r mf lines
  choose_entity none v mf lines = vehicle_or_blank v mf

  -- The entity that `writeEntityForID` writes: a soldier's before a vehicle's, else a blank one.
  unfoldable pub entity_for_id : MissionData → Frame → ℕ → List Row → Entity
  unfolding choose_entity
  entity_for_id d mf id lines = choose_entity (lookup id d.soldiers) (lookup id d.vehicles) mf lines

  module _ (json : Json) where
    -- `for id := uint16(0); ; id++ { … if id == maxEntityID { break } }`
    unfoldable pub write_entities : ℕ → MissionData → Metadata → Map ℕ (List Row) → ℕ → Writer
    write_entities zero d m lines id out = none
    write_entities (suc fuel) d m lines id out =
        ((if ltb 0 id then write "," else write "")
            then_write write_bytes json
                (json.marshal_entity (entity_for_id d m.max_frame id (firelines_of id lines))))
          out
        >>= λ out'.
            let rest = write_entities fuel d m lines ((id + 1) % 65_536) out' in
            if nat_beq id m.max_entity_id then some out' else rest

    unfoldable pub write_all : MissionData → Metadata → Map ℕ (List Row) → Writer
    write_all d m lines =
        if ltb 0 (length d.soldiers) || ltb 0 (length d.vehicles)
        then write_entities 65_536 d m lines 0
        else write ""

    -- What `Stream` writes once everything but the entities is collected.
    unfoldable pub write_export :
        Mission → World → MissionData → Metadata → Aggregates → List Row → Writer
    write_export mission world d m a events =
        write "{"
        then_write write_field json false "addonVersion" (json.marshal_text mission.addon_version)
        then_write write_field json true "extensionVersion"
            (json.marshal_text mission.extension_version)
        then_write write_field json true "extensionBuild"
            (json.marshal_text mission.extension_build)
        then_write write_field json true "missionName" (json.marshal_text mission.mission_name)
        then_write write_field json true "missionAuthor" (json.marshal_text mission.author)
        then_write write_field json true "worldName" (json.marshal_text world.world_name)
        then_write write_field json true "endFrame" (json.marshal_int (frame_to_v1 m.max_frame))
        then_write write_field json true "captureDelay" (json.marshal_f32 mission.capture_delay)
        then_write write_field json true "tags" (json.marshal_text mission.tag)
        then_write write_field json true "times" (json.marshal_times (build_times d.time_states []))
        then_write write ",\"entities\":["
        then_write write_all d m a.firelines
        then_write write "]"
        then_write write_field json true "events" (json.marshal_rows events)
        then_write write_field json true "Markers" (json.marshal_rows a.markers)
        then_write write "}"

    unfoldable pub stream : MissionData → Option String
    stream d = do
      let a = build_aggregates d
      events ← sort_events a.events
      mission ← d.mission
      world ← d.world
      write_export mission world d (compute_metadata d) a events ""
