-- ===== src/Parser/Arrays.antt =====
-- internal/parser/parse_events.go: the events whose arguments are nested arrays, a projectile and
-- the telemetry.
use ocap2_extension.Prelude.{ℕ, ℤ, pos, [], map, Option, none, some, length, leb}
use ocap2_extension.Core.{TelemetryEvent, EntityLocality, SideEntityCount}
use ocap2_extension.Core.Result.{ok, wrapping}
use ocap2_extension.Parser.{Parse, ParsedProjectile}
use ocap2_extension.Parser.Decode.{
  Decoder, clean, arg, got, if_error, uint16, frame, decode, ensure, parse_uint_from_float,
  parse_int_from_float, ◌>>=◌, ◌>>◌,
}
use ocap2_extension.Parser.Rows.{collect, trajectory_point, hit_part, player_of}

-- The vehicle that the shot came from, unless the id is negative.
vehicle_of : ℤ → Option ℕ
vehicle_of (pos n) = some (uint16 n)
vehicle_of _ = none

module _ (d : Decoder) where
  unfoldable pub parse_projectile_event : Parse ParsedProjectile
  unfolding vehicle_of
  parse_projectile_event raw = do
    let args = map clean raw
    ensure (leb 20 (length args)) (got "insufficient data fields: got %d, need 20" args)
    frame_text ← arg args 0
    capframe ← wrapping "error parsing firedFrame: %v" (frame d frame_text)
    firer_text ← arg args 2
    firer ← wrapping "error parsing firerID: %v" (parse_uint_from_float d firer_text)
    vehicle_text ← arg args 3
    vehicle ← wrapping "error parsing vehicleID: %v" (parse_int_from_float d vehicle_text)
    weapon_display ← arg args 7
    muzzle_display ← arg args 9
    magazine_display ← arg args 11
    positions_text ← arg args 14
    positions ← wrapping "error parsing positions: %v" (decode d d.unmarshal_rows positions_text)
    hits_text ← arg args 16
    simulation_type ← arg args 17
    magazine_icon ← arg args 19
    ok (record {
      capture_frame = capframe;
      firer_object_id = uint16 firer;
      vehicle_object_id = vehicle_of vehicle;
      weapon_display = weapon_display;
      magazine_display = magazine_display;
      muzzle_display = muzzle_display;
      simulation_type = simulation_type;
      magazine_icon = magazine_icon;
      trajectory = collect (trajectory_point d) positions [];
      hit_parts = collect (hit_part d) (if_error [] (d.unmarshal_rows hits_text)) [];
    })

  locality : (ℕ → ℕ) → EntityLocality
  locality s = record {
    units_total = d.uint_of_f64 (s 0);
    units_alive = d.uint_of_f64 (s 1);
    units_dead = d.uint_of_f64 (s 2);
    groups = d.uint_of_f64 (s 3);
    vehicles = d.uint_of_f64 (s 4);
    weapon_holders = d.uint_of_f64 (s 5);
  }

  parse_side : (ℕ → ℕ → ℕ) → SideEntityCount
  unfolding locality
  parse_side s = record { local = locality (s 0); remote = locality (s 1) }

  unfoldable pub parse_telemetry_event : Parse TelemetryEvent
  unfolding parse_side
  parse_telemetry_event raw = do
    ensure (leb 7 (length raw)) (got "telemetry: expected 7 args, got %d" raw)
    let args = map clean raw
    frame_text ← arg args 0
    frame_no ← wrapping "telemetry: parse frameNo" (frame d frame_text)
    fps_text ← arg args 1
    fps ← wrapping "telemetry: parse fps" (decode d (d.unmarshal_array 2) fps_text)
    sides_text ← arg args 2
    sides ← wrapping "telemetry: parse side data" (decode d d.unmarshal_sides sides_text)
    global_text ← arg args 3
    global ← wrapping "telemetry: parse global counts" (decode d (d.unmarshal_array 8) global_text)
    scripts_text ← arg args 4
    scripts ← wrapping "telemetry: parse scripts" (decode d (d.unmarshal_array 5) scripts_text)
    weather_text ← arg args 5
    weather ← wrapping "telemetry: parse weather" (decode d (d.unmarshal_array 12) weather_text)
    players_text ← arg args 6
    players ← wrapping "telemetry: parse players" (decode d d.unmarshal_rows players_text)
    ok (record {
      time = d.now;
      capture_frame = frame_no;
      fps_average = d.std.to_f32 (fps 0);
      fps_min = d.std.to_f32 (fps 1);
      side_entity_counts = record {
        east = parse_side (sides 0);
        west = parse_side (sides 1);
        independent = parse_side (sides 2);
        civilian = parse_side (sides 3);
      };
      global_counts = record {
        units_alive = d.uint_of_f64 (global 0);
        units_dead = d.uint_of_f64 (global 1);
        groups = d.uint_of_f64 (global 2);
        vehicles = d.uint_of_f64 (global 3);
        weapon_holders = d.uint_of_f64 (global 4);
        players_alive = d.uint_of_f64 (global 5);
        players_dead = d.uint_of_f64 (global 6);
        players_connected = d.uint_of_f64 (global 7);
      };
      scripts = record {
        spawn = d.uint_of_f64 (scripts 0);
        exec_vm = d.uint_of_f64 (scripts 1);
        exec = d.uint_of_f64 (scripts 2);
        exec_fsm = d.uint_of_f64 (scripts 3);
        pfh = d.uint_of_f64 (scripts 4);
      };
      weather = record {
        fog = d.std.to_f32 (weather 0);
        overcast = d.std.to_f32 (weather 1);
        rain = d.std.to_f32 (weather 2);
        humidity = d.std.to_f32 (weather 3);
        waves = d.std.to_f32 (weather 4);
        wind_dir = d.std.to_f32 (weather 5);
        wind_str = d.std.to_f32 (weather 6);
        gusts = d.std.to_f32 (weather 7);
        lightnings = d.std.to_f32 (weather 8);
        moon_intensity = d.std.to_f32 (weather 9);
        moon_phase = d.std.to_f32 (weather 10);
        sun_or_moon = d.std.to_f32 (weather 11);
      };
      players = collect (player_of d) players [];
    })
