-- ===== src/Examples/Data.antt =====
-- A small mission: a rifleman (id 1) whom a player takes over, a truck (id 2), a marker, a mine.
use ocap2_extension.Prelude.{ℤ, pos, negsuc, String, [], ◌∷◌, none, some, Bool, true, false}
use ocap2_extension.Core.{
  Std, arr_of, Frame, Position3D, Mission, World, Soldier, SoldierState, Vehicle, VehicleState,
  Marker, MarkerState, PlacedObject, PlacedObjectEvent, TrajectoryPoint, ProjectileEvent,
}
use ocap2_extension.Core.Result.{ok, err, errorf}
use ocap2_extension.Export.Json.{Json}
use ocap2_extension.Parser.{Service, Parse, ParsedKill}

abbrev pub std : Std
std = record {
  sub64 = λ a b. a;
  add64 = λ a b. a;
  mul64 = λ a b. a;
  sqrt64 = λ a. a;
  to_f32 = λ a. a;
  to_f64 = λ a. a;
  f64_of_uint = λ a. a;
  unmarshal = λ s. some (arr_of []);
  unmarshal_floats = λ s. none;
}

abbrev digit : ℤ → String
digit (pos n) = "0"
digit (negsuc n) = "-1"

abbrev pub json : Json
json = record {
  marshal_text = λ s. some s;
  marshal_int = λ n. some (digit n);
  marshal_f32 = λ n. some "1.5";
  marshal_times = λ ts. some "[]";
  marshal_entity = λ e. some e.name;
  marshal_rows = λ rows. some "[]";
}

abbrev pub origin : Position3D
origin = record { x = 0; y = 0; z = 0 }

abbrev pub mission : Mission
mission = record {
  id = 1;
  mission_name = "Patrol";
  briefing_name = "Patrol";
  mission_name_source = "patrol";
  on_load_name = "";
  author = "OCAP";
  server_name = "server";
  server_profile = "server";
  start_time = 0;
  world_id = 1;
  capture_delay = 1;
  addon_version = "2";
  extension_version = "5";
  extension_build = "1";
  ocap_recorder_extension_version = "5";
  tag = "COOP";
  playable_slots = record { west = 1; east = 0; independent = 0; civilian = 0; logic = 0 };
  side_friendly = record { east_west = false; east_independent = false; west_independent = true };
  addons = [];
}

abbrev pub world : World
world = record {
  id = 1;
  author = "BI";
  workshop_id = "";
  display_name = "Altis";
  world_name = "altis";
  world_name_original = "Altis";
  world_size = 30_720;
  latitude = 0;
  longitude = 0;
  location = origin;
}

abbrev pub rifleman : Soldier
rifleman = record {
  id = 1;
  join_time = 0;
  join_frame = 1;
  ocap_type = "man";
  unit_name = "AI 1";
  group_id = "Alpha";
  side = "WEST";
  is_player = false;
  role_description = "Rifleman";
  class_name = "B_Soldier_F";
  display_name = "Rifleman";
  player_uid = "";
  squad_params = [];
  delete_frame = 0;
}

abbrev pub seen_at : Frame → String → Bool → SoldierState
seen_at frame name player = record {
  soldier_id = 1;
  time = 0;
  capture_frame = frame;
  position = origin;
  bearing = 90;
  lifestate = 1;
  in_vehicle = false;
  in_vehicle_object_id = none;
  vehicle_role = "";
  unit_name = name;
  is_player = player;
  current_role = "Rifleman";
  has_stable_vitals = true;
  is_dragged_carried = false;
  stance = "STAND";
  group_id = "";
  side = "";
  scores = record {
    infantry_kills = 0;
    vehicle_kills = 0;
    armor_kills = 0;
    air_kills = 0;
    deaths = 0;
    total_score = 0;
  };
}

abbrev pub truck : Vehicle
truck = record {
  id = 2;
  join_time = 0;
  join_frame = 1;
  ocap_type = "truck";
  class_name = "B_Truck_01";
  display_name = "HEMTT";
  customization = "";
  side = "";
  delete_frame = 0;
}

abbrev pub truck_at : Frame → VehicleState
truck_at frame = record {
  vehicle_id = 2;
  time = 0;
  capture_frame = frame;
  position = origin;
  bearing = 0;
  is_alive = true;
  crew = "[1]";
  fuel = 1;
  damage = 0;
  locked = false;
  engine_on = true;
  side = "WEST";
  vector_dir = "";
  vector_up = "";
  turret_azimuth = 0;
  turret_elevation = 0;
}

abbrev pub objective : Marker
objective = record {
  id = 0;
  time = 0;
  capture_frame = 1;
  end_frame = 0;
  marker_name = "objective";
  direction = 0;
  marker_type = "mil_dot";
  text = "Objective";
  owner_id = negsuc 0;
  color = "#800000";
  size = "[1,1]";
  side = "WEST";
  position = origin;
  polyline = [];
  shape = "ICON";
  alpha = 1;
  brush = "Solid";
  is_deleted = false;
}

abbrev pub objective_at : Frame → MarkerState
objective_at frame = record {
  id = 0;
  marker_id = 1;
  time = 0;
  capture_frame = frame;
  position = origin;
  direction = 0;
  alpha = 1;
  text = "Objective";
  color = "#800000";
  size = "[1,1]";
  marker_type = "mil_dot";
  brush = "Solid";
  shape = "ICON";
}

abbrev pub mine : PlacedObject
mine = record {
  id = 3;
  join_time = 0;
  join_frame = 2;
  class_name = "APERSMine";
  display_name = "APERS Mine";
  position = origin;
  owner_id = 1;
  side = "WEST";
  weapon = "put";
  magazine_icon = "icons/mine.paa";
}

abbrev pub mine_hit : PlacedObjectEvent
mine_hit = record {
  capture_frame = 4;
  placed_id = 3;
  event_type = "hit";
  position = origin;
  hit_entity_id = some 2;
}

abbrev pub point : Frame → TrajectoryPoint
point frame = record { position = origin; frame_num = frame }

abbrev pub bullet : ProjectileEvent
bullet = record {
  capture_frame = 3;
  firer_object_id = 1;
  vehicle_object_id = none;
  weapon_display = "MX";
  magazine_display = "30Rnd";
  muzzle_display = "MX";
  simulation_type = "shotBullet";
  magazine_icon = "";
  trajectory = point 3 ∷ point 4 ∷ [];
  hits = [];
}

-- The truck runs the rifleman over, as the parser gives it.
abbrev pub kill : ParsedKill
kill = record {
  time = 0;
  capture_frame = 5;
  victim_id = 1;
  killer_id = 2;
  weapon_vehicle = "HEMTT";
  weapon_name = "";
  weapon_magazine = "";
  event_text = "HEMTT";
  distance = 0;
}

-- A parser that knows one soldier and one state of it, and refuses everything else.
abbrev pub refusing : {A : Type 0} → Parse A
refusing args = err (errorf "insufficient data fields" [])

abbrev pub service : Service
service = record {
  parse_mission = λ args. ok (mission, world);
  parse_soldier = λ args. ok rifleman;
  parse_vehicle = λ args. ok truck;
  parse_soldier_state = λ args. ok (seen_at 2 "Ann" true);
  parse_vehicle_state = λ args. ok (truck_at 2);
  parse_projectile_event = refusing;
  parse_general_event = refusing;
  parse_sector_event = refusing;
  parse_end_mission_event = refusing;
  parse_kill_event = λ args. ok kill;
  parse_chat_event = refusing;
  parse_radio_event = refusing;
  parse_time_state = refusing;
  parse_ace3_death_event = refusing;
  parse_ace3_unconscious_event = refusing;
  parse_marker_create = λ args. ok objective;
  parse_marker_move = refusing;
  parse_marker_delete = refusing;
  parse_soldier_delete = λ args. ok (1, 9);
  parse_vehicle_delete = refusing;
  parse_telemetry_event = refusing;
  parse_placed_object = λ args. ok mine;
  parse_placed_object_event = λ args. ok mine_hit;
  parse_focus_start = λ args. ok 2;
  parse_focus_end = λ args. ok 4;
}
