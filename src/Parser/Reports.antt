-- ===== src/Parser/Reports.antt =====
-- internal/parser: parse_chat.go, parse_ace3.go, parse_focus.go, and of parse_events.go the events
-- without nested arrays.
use ocap2_extension.Prelude.{
  ℕ, ℤ, pos, negsuc, String, not, ◌&&◌, List, [], map, Option, none, some, length, ltb, leb,
  nat_beq, string_eq, ◌==◌, if◌then◌else◌,
}
use ocap2_extension.Core.{
  Frame, GeneralEvent, SectorEvent, EndMissionEvent, ChatEvent, RadioEvent, TimeState,
  Ace3DeathEvent, Ace3UnconsciousEvent, FieldMap,
}
use ocap2_extension.Core.Result.{Result, ok, wrapping}
use ocap2_extension.Export.Names.{format_weapon_text}
use ocap2_extension.Parser.{Parse, ParsedKill}
use ocap2_extension.Parser.Decode.{
  Decoder, clean, arg, got, uint16, int8, float, frame, boolean, decode, ensure, if_given,
  parse_uint_from_float, parse_int_from_float, parse_radio_channel, ◌>>=◌, ◌>>◌,
}
use ocap2_extension.Util.{trim_quotes, parse_sqf_string_array}

-- The unit that an event names, unless its id is negative.
unfoldable pub sender_of : ℤ → Option ℕ
sender_of (pos n) = some n
sender_of (negsuc n) = none

-- `ChatChannels` and the two names for a number that it does not have
abbrev chat_channel : ℕ → Option String
chat_channel n =
    if nat_beq n 0
    then some "Global"
    else if nat_beq n 1
    then some "Side"
    else if nat_beq n 2
    then some "Command"
    else if nat_beq n 3
    then some "Group"
    else if nat_beq n 4
    then some "Vehicle"
    else if nat_beq n 5
    then some "Direct"
    else if nat_beq n 16
    then some "System"
    else none

unfoldable pub channel_name : ℤ → String
channel_name (negsuc n) = "System"
channel_name (pos n) = elim (chat_channel n) [
  | some name ↦ name
  | none ↦ if ltb 5 n && ltb n 16 then "Custom" else "System"
]

module _ (d : Decoder) where
  -- The extra data, which may be missing.
  unfoldable pub extra_data_of : List String → Result FieldMap
  extra_data_of args = if_given (leb 4 (length args)) [] do
    text ← arg args 3
    wrapping "error unmarshalling extra data" (decode d d.unmarshal_map text)

  unfoldable pub parse_general_event : Parse GeneralEvent
  unfolding extra_data_of
  parse_general_event raw = do
    let args = map clean raw
    ensure (leb 3 (length args)) (got "insufficient data fields: got %d, need at least 3" args)
    frame_text ← arg args 0
    capframe ← wrapping "error converting capture frame" (frame d frame_text)
    name ← arg args 1
    message ← arg args 2
    extra_data ← extra_data_of args
    ok (record {
      id = 0;
      time = d.now;
      capture_frame = capframe;
      name = name;
      message = message;
      extra_data = extra_data;
    })

  unfoldable pub sector_side : List String → Result String
  sector_side args = if_given (leb 5 (length args)) "" (arg args 4)

  -- The position of a sector, if all of it is there.
  unfoldable pub sector_position : List String → Result (ℕ × ℕ × ℕ)
  sector_position args =
      if_given (leb 8 (length args)) (0, 0, 0)
        do
          x_text ← arg args 5
          x ← wrapping "invalid position X for sector event" (float d x_text)
          y_text ← arg args 6
          y ← wrapping "invalid position Y for sector event" (float d y_text)
          z_text ← arg args 7
          z ← wrapping "invalid position Z for sector event" (float d z_text)
          ok (x, y, z)

  unfoldable pub parse_sector_event : Parse SectorEvent
  unfolding sector_side sector_position
  parse_sector_event raw = do
    let args = map clean raw
    ensure (leb 4 (length args))
        (got "insufficient data for sector event: got %d, need at least 4" args)
    frame_text ← arg args 0
    capframe ← wrapping "error converting capture frame" (frame d frame_text)
    name ← arg args 1
    object_type ← arg args 2
    unit_name ← arg args 3
    side ← sector_side args
    (x, y, z) ← sector_position args
    ok (record {
      id = 0;
      time = d.now;
      capture_frame = capframe;
      name = name;
      object_type = object_type;
      unit_name = unit_name;
      side = side;
      pos_x = x;
      pos_y = y;
      pos_z = z;
    })

  unfoldable pub parse_end_mission_event : Parse EndMissionEvent
  parse_end_mission_event raw = do
    let args = map clean raw
    ensure (leb 3 (length args))
        (got "insufficient data for end mission event: got %d, need at least 3" args)
    frame_text ← arg args 0
    capframe ← wrapping "error converting capture frame" (frame d frame_text)
    side ← arg args 1
    message ← arg args 2
    ok (record { id = 0; time = d.now; capture_frame = capframe; side = side; message = message })

  -- The weapon is read from the text before the doubled quotes are undone.
  unfoldable pub parse_kill_event : Parse ParsedKill
  parse_kill_event raw = do
    raw_weapon ← arg raw 3
    let args = map clean raw
    frame_text ← arg args 0
    capframe ← wrapping "error converting capture frame to int" (frame d frame_text)
    victim_text ← arg args 1
    victim ←
        wrapping "error converting victim ocap id to uint" (parse_uint_from_float d victim_text)
    killer_text ← arg args 2
    killer ←
        wrapping "error converting killer ocap id to uint" (parse_uint_from_float d killer_text)
    let (vehicle, weapon, magazine) = parse_sqf_string_array (trim_quotes raw_weapon)
    distance_text ← arg args 4
    distance ← wrapping "error converting distance to float" (float d distance_text)
    ok (record {
      time = d.now;
      capture_frame = capframe;
      victim_id = uint16 victim;
      killer_id = uint16 killer;
      weapon_vehicle = vehicle;
      weapon_name = weapon;
      weapon_magazine = magazine;
      event_text = format_weapon_text vehicle weapon magazine;
      distance = d.std.to_f32 distance;
    })

  unfoldable pub parse_time_state : Parse TimeState
  parse_time_state raw = do
    let args = map clean raw
    frame_text ← arg args 0
    capframe ← wrapping "error converting capture frame to int" (frame d frame_text)
    system_time ← arg args 1
    mission_date ← arg args 2
    multiplier_text ← arg args 3
    multiplier ← wrapping "error converting timeMultiplier to float" (float d multiplier_text)
    mission_text ← arg args 4
    mission_time ← wrapping "error converting missionTime to float" (float d mission_text)
    ok (record {
      id = 0;
      time = d.now;
      capture_frame = capframe;
      system_time_utc = system_time;
      mission_date = mission_date;
      time_multiplier = d.std.to_f32 multiplier;
      mission_time = d.std.to_f32 mission_time;
    })

  unfoldable pub parse_chat_event : Parse ChatEvent
  parse_chat_event raw = do
    let args = map clean raw
    frame_text ← arg args 0
    capframe ← wrapping "error converting capture frame to int" (frame d frame_text)
    sender_text ← arg args 1
    sender ← wrapping "error converting sender ocap id to uint" (parse_int_from_float d sender_text)
    channel_text ← arg args 2
    channel ← wrapping "error converting channel to int" (parse_int_from_float d channel_text)
    from_name ← arg args 3
    sender_name ← arg args 4
    message ← arg args 5
    player_uid ← arg args 6
    ok (record {
      id = 0;
      soldier_id = sender_of sender;
      time = d.now;
      capture_frame = capframe;
      channel = channel_name channel;
      from_name = from_name;
      sender_name = sender_name;
      message = message;
      player_uid = player_uid;
    })

  -- An empty frequency is 0.
  unfoldable pub frequency : String → Result ℕ
  frequency text =
      if_given (not (text == "")) 0 (wrapping "error converting freq to float" (float d text))

  unfoldable pub parse_radio_event : Parse RadioEvent
  unfolding frequency
  parse_radio_event raw = do
    let args = map clean raw
    frame_text ← arg args 0
    capframe ← wrapping "error converting capture frame to int" (frame d frame_text)
    sender_text ← arg args 1
    sender ← wrapping "error converting sender ocap id to uint" (parse_int_from_float d sender_text)
    radio ← arg args 2
    radio_type ← arg args 3
    start_end ← arg args 4
    channel_text ← arg args 5
    channel ← wrapping "error converting channel to int" (parse_radio_channel d channel_text)
    additional_text ← arg args 6
    is_additional ← wrapping "error converting isAddtl to bool" (boolean d additional_text)
    frequency_text ← arg args 7
    freq ← frequency frequency_text
    code ← arg args 8
    ok (record {
      id = 0;
      soldier_id = sender_of sender;
      time = d.now;
      capture_frame = capframe;
      radio = radio;
      radio_type = radio_type;
      start_end = start_end;
      channel = int8 channel;
      is_additional = is_additional;
      frequency = d.std.to_f32 freq;
      code = code;
    })

  unfoldable pub parse_ace3_death_event : Parse Ace3DeathEvent
  parse_ace3_death_event raw = do
    let args = map clean raw
    frame_text ← arg args 0
    capframe ← wrapping "error converting capture frame to int" (frame d frame_text)
    victim_text ← arg args 1
    victim ←
        wrapping "error converting victim ocap id to uint" (parse_uint_from_float d victim_text)
    reason ← arg args 2
    source_text ← arg args 3
    source ←
        wrapping "error converting last damage source id to uint"
          (parse_int_from_float d source_text)
    ok (record {
      id = 0;
      soldier_id = victim;
      time = d.now;
      capture_frame = capframe;
      reason = reason;
      last_damage_source_id = sender_of source;
    })

  -- The time stays at its zero value.
  unfoldable pub parse_ace3_unconscious_event : Parse Ace3UnconsciousEvent
  parse_ace3_unconscious_event raw = do
    let args = map clean raw
    frame_text ← arg args 0
    capframe ← wrapping "error converting capture frame to int" (frame d frame_text)
    id_text ← arg args 1
    ocap_id ← wrapping "error converting ocap id to uint" (parse_uint_from_float d id_text)
    flag_text ← arg args 2
    is_unconscious ← wrapping "error converting isUnconscious to bool" (boolean d flag_text)
    ok (record {
      id = 0;
      soldier_id = ocap_id;
      time = 0;
      capture_frame = capframe;
      is_unconscious = is_unconscious;
    })

  -- Only the first argument is cleaned.
  unfoldable pub parse_focus_frame : Parse Frame
  parse_focus_frame args = do
    ensure (leb 1 (length args)) (got "expected 1 arg, got %d" args)
    text ← arg args 0
    wrapping "error converting frame" (parse_uint_from_float d (clean text))

  abbrev pub parse_focus_start : Parse Frame
  parse_focus_start args = parse_focus_frame args

  abbrev pub parse_focus_end : Parse Frame
  parse_focus_end args = parse_focus_frame args
