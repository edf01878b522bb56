-- ===== src/Parser/Units.antt =====
-- internal/parser: parse_soldier.go and parse_vehicle.go.
use ocap2_extension.Prelude.{
  ℕ, ℤ, pos, negsuc, zero, String, Bool, List, [], ◌∷◌, map, Option, none, some, length, leb,
}
use ocap2_extension.Prelude.Text.{is_comma, split}
use ocap2_extension.Prelude.Decimal.{parse_bool}
use ocap2_extension.Core.{
  Frame, Soldier, SoldierState, SoldierScores, Vehicle, VehicleState, frame_forever,
}
use ocap2_extension.Core.Dynamic.{int}
use ocap2_extension.Core.Result.{Result, ok, errorf, wrapping}
use ocap2_extension.Parser.{Parse}
use ocap2_extension.Parser.Decode.{
  Decoder, clean, arg, low_bits, uint16, atoi_or_clamp, or_false, frame, float32, boolean, decode,
  ensure, if_given, parse_uint_from_float, bracketed_position, ◌>>=◌, ◌>>◌,
}

abbrev pub no_scores : SoldierScores
no_scores = record {
  infantry_kills = 0;
  vehicle_kills = 0;
  armor_kills = 0;
  air_kills = 0;
  deaths = 0;
  total_score = 0;
}

abbrev score : String → ℕ
score s = low_bits 256 (atoi_or_clamp s)

-- Six scores or more: the rest is left out. With fewer there are none.
scores_of : List String → SoldierScores
scores_of (i ∷ v ∷ m ∷ a ∷ k ∷ t ∷ _) = record {
  infantry_kills = score i;
  vehicle_kills = score v;
  armor_kills = score m;
  air_kills = score a;
  deaths = score k;
  total_score = score t;
}
scores_of _ = no_scores

-- The scores are read for players only.
unfoldable pub scores_if : Bool → List String → Result SoldierScores
unfolding scores_of
scores_if is_player args =
    if_given is_player no_scores
      do scores_str ← arg args 11; ok (scores_of (split is_comma scores_str))

-- The vehicle that a soldier is in: -1 says none.
unfoldable pub vehicle_id_of : ℤ → Option ℕ
vehicle_id_of (negsuc zero) = none
vehicle_id_of n = some (low_bits 65_536 n)

-- groupID and side, which older addons do not send.
unfoldable pub group_and_side : List String → Result (String × String)
group_and_side args =
    if_given (leb 17 (length args)) ("", "")
      do group ← arg args 15; side ← arg args 16; ok (group, side)

-- `[entityId, frameNo]`: ParseSoldierDelete and ParseVehicleDelete
unfoldable pub entity_delete : Decoder → Parse (ℕ × Frame)
entity_delete d args = do
  ensure (leb 2 (length args)) (errorf "expected 2 args, got %d" (int (pos (length args)) ∷ []))
  let args' = map clean args
  id_text ← arg args' 0
  id ← wrapping "error converting entityId" (parse_uint_from_float d id_text)
  frame_text ← arg args' 1
  f ← wrapping "error converting frameNo" (frame d frame_text)
  ok (uint16 id, f)

module _ (d : Decoder) where
  unfoldable pub parse_soldier : Parse Soldier
  parse_soldier raw = do
    let args = map clean raw
    frame_text ← arg args 0
    capframe ← wrapping "error converting capture frame to int" (frame d frame_text)
    id_text ← arg args 1
    ocap_id ← wrapping "error converting ocapId to uint" (parse_uint_from_float d id_text)
    unit_name ← arg args 2
    group_id ← arg args 3
    side ← arg args 4
    player_text ← arg args 5
    is_player ← wrapping "error converting isPlayer to bool" (boolean d player_text)
    role_description ← arg args 6
    class_name ← arg args 7
    display_name ← arg args 8
    player_uid ← arg args 9
    squad ← arg args 10
    squad_params ← wrapping "error unmarshalling squadParams" (decode d d.unmarshal_anys squad)
    ok (record {
      id = uint16 ocap_id;
      join_time = d.now;
      join_frame = capframe;
      ocap_type = "";
      unit_name = unit_name;
      group_id = group_id;
      side = side;
      is_player = is_player;
      role_description = role_description;
      class_name = class_name;
      display_name = display_name;
      player_uid = player_uid;
      squad_params = squad_params;
      delete_frame = frame_forever;
    })

  unfoldable pub parse_soldier_delete : Parse (ℕ × Frame)
  unfolding entity_delete
  parse_soldier_delete raw = entity_delete d raw

  -- The role in the vehicle, the vehicle and the stance.
  unfoldable pub seat_of : List String → Result (String × String × String)
  seat_of args = do
    vehicle_role ← arg args 12
    vehicle_text ← arg args 13
    stance ← arg args 14
    ok (vehicle_role, vehicle_text, stance)

  unfoldable pub parse_soldier_state : Parse SoldierState
  unfolding scores_if seat_of group_and_side
  parse_soldier_state raw = do
    let args = map clean raw
    frame_text ← arg args 8
    capframe ← wrapping "error converting capture frame to int" (frame d frame_text)
    id_text ← arg args 0
    ocap_id ← wrapping "error converting ocapId to uint" (parse_uint_from_float d id_text)
    position_text ← arg args 1
    position ← bracketed_position d position_text
    bearing ← arg args 2
    lifestate ← arg args 3
    in_vehicle ← arg args 4
    unit_name ← arg args 5
    player_text ← arg args 6
    is_player ← wrapping "error converting isPlayer to bool" (boolean d player_text)
    current_role ← arg args 7
    stable ← arg args 9
    dragged ← arg args 10
    scores ← scores_if is_player args
    (vehicle_role, vehicle_text, stance) ← seat_of args
    (group_id, side) ← group_and_side args
    ok (record {
      soldier_id = uint16 ocap_id;
      time = d.now;
      capture_frame = capframe;
      position = position;
      bearing = low_bits 65_536 (atoi_or_clamp bearing);
      lifestate = low_bits 256 (atoi_or_clamp lifestate);
      in_vehicle = or_false (parse_bool in_vehicle);
      in_vehicle_object_id = vehicle_id_of (atoi_or_clamp vehicle_text);
      vehicle_role = vehicle_role;
      unit_name = unit_name;
      is_player = is_player;
      current_role = current_role;
      has_stable_vitals = or_false (parse_bool stable);
      is_dragged_carried = or_false (parse_bool dragged);
      stance = stance;
      group_id = group_id;
      side = side;
      scores = scores;
    })

  unfoldable pub parse_vehicle : Parse Vehicle
  parse_vehicle raw = do
    let args = map clean raw
    frame_text ← arg args 0
    capframe ← wrapping "error converting capture frame to int" (frame d frame_text)
    id_text ← arg args 1
    ocap_id ← wrapping "error converting ocapID to uint" (parse_uint_from_float d id_text)
    ocap_type ← arg args 2
    display_name ← arg args 3
    class_name ← arg args 4
    customization ← arg args 5
    side ← arg args 6
    ok (record {
      id = uint16 ocap_id;
      join_time = d.now;
      join_frame = capframe;
      ocap_type = ocap_type;
      class_name = class_name;
      display_name = display_name;
      customization = customization;
      side = side;
      delete_frame = frame_forever;
    })

  unfoldable pub parse_vehicle_delete : Parse (ℕ × Frame)
  unfolding entity_delete
  parse_vehicle_delete raw = entity_delete d raw

  -- fuel, damage, isEngineOn and locked
  unfoldable pub condition_of : List String → Result (ℕ × ℕ × Bool × Bool)
  condition_of args = do
    fuel_text ← arg args 6
    fuel ← wrapping "error converting fuel to float" (float32 d fuel_text)
    damage_text ← arg args 7
    damage ← wrapping "error converting damage to float" (float32 d damage_text)
    engine_text ← arg args 8
    engine_on ← wrapping "error converting isEngineOn to bool" (boolean d engine_text)
    locked_text ← arg args 9
    locked ← wrapping "error converting locked to bool" (boolean d locked_text)
    ok (fuel, damage, engine_on, locked)

  unfoldable pub turret_of : List String → Result (ℕ × ℕ)
  turret_of args = do
    azimuth_text ← arg args 13
    azimuth ← wrapping "error converting turretAzimuth to float" (float32 d azimuth_text)
    elevation_text ← arg args 14
    elevation ← wrapping "error converting turretElevation to float" (float32 d elevation_text)
    ok (azimuth, elevation)

  unfoldable pub parse_vehicle_state : Parse VehicleState
  unfolding condition_of turret_of
  parse_vehicle_state raw = do
    let args = map clean raw
    frame_text ← arg args 5
    capframe ← wrapping "error converting capture frame to int" (frame d frame_text)
    id_text ← arg args 0
    ocap_id ← wrapping "error converting ocapId to uint" (parse_uint_from_float d id_text)
    position_text ← arg args 1
    position ← bracketed_position d position_text
    bearing ← arg args 2
    alive ← arg args 3
    crew ← arg args 4
    (fuel, damage, engine_on, locked) ← condition_of args
    side ← arg args 10
    vector_dir ← arg args 11
    vector_up ← arg args 12
    (azimuth, elevation) ← turret_of args
    ok (record {
      vehicle_id = uint16 ocap_id;
      time = d.now;
      capture_frame = capframe;
      position = position;
      bearing = low_bits 65_536 (atoi_or_clamp bearing);
      is_alive = or_false (parse_bool alive);
      crew = crew;
      fuel = fuel;
      damage = damage;
      locked = locked;
      engine_on = engine_on;
      side = side;
      vector_dir = vector_dir;
      vector_up = vector_up;
      turret_azimuth = azimuth;
      turret_elevation = elevation;
    })
