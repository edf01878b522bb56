-- ===== src/Export/Entities.antt =====
-- builder.go: buildSoldierEntity and buildVehicleEntity.
use ocap2_extension.Prelude.{
  ℕ, ℤ, pos, String, Bool, true, List, [], ◌∷◌, ◌++◌, map, Option, none, some, string_eq, ◌==◌,
  if◌then◌else◌, replicate, ltb,
}
use ocap2_extension.Core.{
  Any, int, uint, str, arr, nil, arr_of, Row, Std, Frame, SoldierState, VehicleState, FiredEvent,
}
use ocap2_extension.Export.Data.{SoldierRecord, VehicleRecord, Entity}
use ocap2_extension.Export.Frames.{frame_to_v1, dec, rounds}
use ocap2_extension.Export.Names.{bool_to_int}
use ocap2_extension.Export.Rows.{coordinates}

-- The zero value `Entity{}`.
abbrev pub no_entity : Entity
no_entity = record {
  id = 0;
  name = "";
  group = "";
  side = "";
  is_player = pos 0;
  kind = "";
  role = "";
  class = "";
  start_frame_num = pos 0;
  positions = [];
  frames_fired = [];
}

-- "Ever a player", and the last name that a player's state carries.
unfoldable pub identity : Bool → String → List SoldierState → Bool × String
identity is_player name [] = (is_player, name)
identity is_player name (s ∷ ss) =
    identity (if s.is_player then true else is_player)
      (if s.is_player then (if s.unit_name == "" then name else s.unit_name) else name) ss

vehicle_value : Option ℕ → Any
vehicle_value none = int (pos 0)
vehicle_value (some id) = uint id

unfoldable pub soldier_position : SoldierState → Row
unfolding vehicle_value
soldier_position s =
    coordinates s.position
    ∷ uint s.bearing
    ∷ uint s.lifestate
    ∷ vehicle_value s.in_vehicle_object_id
    ∷ str s.unit_name
    ∷ int (bool_to_int s.is_player)
    ∷ str s.current_role
    ∷ str s.group_id
    ∷ str s.side
    ∷ []

-- Where the last state ends: at the delete frame if it is set, else at the last frame of all.
abbrev pub end_of_last : Frame → Frame → ℤ
end_of_last delete_frame max_frame =
    if ltb 0 delete_frame then frame_to_v1 delete_frame else frame_to_v1 max_frame

-- The loop over the states: one row for each frame up to the next state.
unfoldable pub fill : Frame → Frame → List SoldierState → List Row
fill delete_frame max_frame [] = []
fill delete_frame max_frame (s ∷ []) =
    replicate (rounds (frame_to_v1 s.capture_frame) (end_of_last delete_frame max_frame))
      (soldier_position s)
fill delete_frame max_frame (s ∷ t ∷ ss) =
    replicate (rounds (frame_to_v1 s.capture_frame) (dec (frame_to_v1 t.capture_frame)))
      (soldier_position s)
    ++ fill delete_frame max_frame (t ∷ ss)

unfoldable pub fired_row : FiredEvent → Row
fired_row e = int (frame_to_v1 e.capture_frame) ∷ coordinates e.end_pos ∷ []

unfoldable pub build_soldier_entity : SoldierRecord → Frame → List Row → Entity
build_soldier_entity r max_frame extra_firelines =
    let s = r.soldier in
    let (is_player, name) = identity s.is_player s.unit_name r.states in
    record {
      id = s.id;
      name = name;
      group = s.group_id;
      side = s.side;
      is_player = bool_to_int is_player;
      kind = "unit";
      role = s.role_description;
      class = "";
      start_frame_num = frame_to_v1 s.join_frame;
      positions = fill s.delete_frame max_frame r.states;
      frames_fired = map fired_row r.fired_events ++ extra_firelines;
    }

module _ (std : Std) where
  crew_value : String → Any
  crew_value crew = elim (std.unmarshal crew) [ none ↦ arr nil | some v ↦ v ]

  vehicle_position : VehicleState → ℤ → Row
  unfolding crew_value
  vehicle_position s end_f =
      coordinates s.position
      ∷ uint s.bearing
      ∷ int (bool_to_int s.is_alive)
      ∷ crew_value s.crew
      ∷ arr_of (int (frame_to_v1 s.capture_frame) ∷ int end_f ∷ [])
      ∷ []

  -- The loop over the states: one row for each, with the frames that it holds for.
  unfoldable pub spans : Frame → Frame → List VehicleState → List Row
  unfolding vehicle_position
  spans delete_frame max_frame [] = []
  spans delete_frame max_frame (s ∷ []) =
      vehicle_position s (end_of_last delete_frame max_frame) ∷ []
  spans delete_frame max_frame (s ∷ t ∷ ss) =
      vehicle_position s (dec (frame_to_v1 t.capture_frame)) ∷ spans delete_frame max_frame (t ∷ ss)

  unfoldable pub build_vehicle_entity : VehicleRecord → Frame → Entity
  build_vehicle_entity r max_frame =
      let v = r.vehicle in
      record {
        id = v.id;
        name = v.display_name;
        group = "";
        side = if v.side == "" then "UNKNOWN" else v.side;
        is_player = pos 0;
        kind = "vehicle";
        role = "";
        class = v.ocap_type;
        start_frame_num = frame_to_v1 v.join_frame;
        positions = spans v.delete_frame max_frame r.states;
        frames_fired = [];
      }
