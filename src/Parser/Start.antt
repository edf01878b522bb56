-- ===== src/Parser/Start.antt =====
-- internal/parser/parse_mission.go: the world and the mission from two JSON objects.
use ocap2_extension.Prelude.{
  ℕ, pos, String, Bool, List, [], ◌∷◌, map, Option, none, some, length, string_eq,
}
use ocap2_extension.Prelude.Map.{lookup}
use ocap2_extension.Prelude.Decimal.{format_int}
use ocap2_extension.Core.{Mission, World, Addon, Any, FieldMap, PlayableSlots, SideFriendly, Row}
use ocap2_extension.Core.Dynamic.{Anys, str, f64, bool, int, arr, nil, cons}
use ocap2_extension.Core.Result.{Result, ok, err, Error, errorf, panic, wrapping, or_fail}
use ocap2_extension.Parser.{Parse}
use ocap2_extension.Parser.Rows.{as_float, as_string}
use ocap2_extension.Parser.Decode.{Decoder, clean, arg, decode, ensure, ◌>>=◌, ◌>>◌}

abbrev pub row_of : Anys → Row
row_of nil = []
row_of (cons v vs) = v ∷ row_of vs

-- `v.([]any)` and `v.(bool)` with the second result
abbrev pub as_slice : Any → Option Row
as_slice (arr vs) = some (row_of vs)
as_slice _ = none

abbrev pub as_bool : Any → Option Bool
as_bool (bool b) = some b
as_bool _ = none

-- `v, ok := m[key].(T)`: a missing key gives a nil, which is of no type.
abbrev pub typed {ℓ} : {A : Type ℓ} → (Any → Option A) → Option Any → Option A
typed f none = none
typed f (some v) = f v

field_error : String → String → Error
field_error what key = errorf what (str key ∷ [])

-- `getString`, `getOptionalString`, `getFloat` and `getSlice`
get_string : FieldMap → String → Result String
get_string m key =
    or_fail (field_error "mission field %q is missing or not a string" key)
      (typed as_string (lookup key m))

get_optional_string : FieldMap → String → String
get_optional_string m key = elim (typed as_string (lookup key m)) [ none ↦ "" | some s ↦ s ]

get_float : FieldMap → String → Result ℕ
get_float m key =
    or_fail (field_error "mission field %q is missing or not a number" key)
      (typed as_float (lookup key m))

get_slice : FieldMap → String → Result Row
get_slice m key =
    or_fail (field_error "mission field %q is missing or not an array" key)
      (typed as_slice (lookup key m))

-- `v.(T)` without the second result, of an element that is there
abbrev pub must {ℓ} : {A : Type ℓ} → Option A → Result A
must o = or_fail (panic "interface conversion") o

module _ (d : Decoder) where
  workshop_id : Any → Result String
  workshop_id (f64 v) = do
    ensure (d.same_f64 v (d.f64_of_int (d.int_of_f64 v)))
        (errorf "invalid addon workshop ID: float has fractional part %f" (f64 v ∷ []))
    ok (format_int (d.int_of_f64 v))
  workshop_id (str v) = ok v
  workshop_id v = err (errorf "invalid addon workshop ID type: %T" (v ∷ []))

  addon_of : Row → Result Addon
  unfolding workshop_id
  addon_of (name ∷ id ∷ _) = do
    addon_name ← or_fail (errorf "invalid addon name type" []) (as_string name)
    workshop ← workshop_id id
    ok (record { id = 0; name = addon_name; workshop_id = workshop })
  addon_of _ = err (errorf "invalid addon format" [])

  addons_of : Row → Result (List Addon)
  unfolding addon_of
  addons_of [] = ok []
  addons_of (v ∷ vs) = do
    info ← or_fail (errorf "invalid addon format" []) (as_slice v)
    addon ← addon_of info
    rest ← addons_of vs
    ok (addon ∷ rest)

  slots_of : Row → Result PlayableSlots
  slots_of (a ∷ b ∷ c ∷ e ∷ f ∷ _) = do
    east ← must (as_float a)
    west ← must (as_float b)
    independent ← must (as_float c)
    civilian ← must (as_float e)
    logic ← must (as_float f)
    ok (record {
      west = d.uint8_of_f64 west;
      east = d.uint8_of_f64 east;
      independent = d.uint8_of_f64 independent;
      civilian = d.uint8_of_f64 civilian;
      logic = d.uint8_of_f64 logic;
    })
  slots_of s = err (errorf "playableSlots needs 5 elements, got %d" (int (pos (length s)) ∷ []))

  friendly_of : Row → Result SideFriendly
  friendly_of (a ∷ b ∷ c ∷ _) = do
    east_west ← must (as_bool a)
    east_independent ← must (as_bool b)
    west_independent ← must (as_bool c)
    ok (record {
      east_west = east_west;
      east_independent = east_independent;
      west_independent = west_independent;
    })
  friendly_of s = err (errorf "sideFriendly needs 3 elements, got %d" (int (pos (length s)) ∷ []))

  -- The mission's fields but those of the world.
  mission_of : FieldMap → Result Mission
  unfolding addons_of get_float get_string get_optional_string get_slice slots_of friendly_of
      field_error
  mission_of m = do
    addons_raw ←
        or_fail (errorf "addons field is missing or not an array" [])
          (typed as_slice (lookup "addons" m))
    addons ← addons_of addons_raw
    capture_delay ← get_float m "captureDelay"
    mission_name_source ← get_string m "missionNameSource"
    mission_name ← get_string m "missionName"
    briefing_name ← get_string m "briefingName"
    server_name ← get_string m "serverName"
    server_profile ← get_string m "serverProfile"
    on_load_name ← get_string m "onLoadName"
    author ← get_string m "author"
    slots_raw ← get_slice m "playableSlots"
    playable_slots ← slots_of slots_raw
    friendly_raw ← get_slice m "sideFriendly"
    side_friendly ← friendly_of friendly_raw
    ok (record {
      id = 0;
      mission_name = mission_name;
      briefing_name = briefing_name;
      mission_name_source = mission_name_source;
      on_load_name = on_load_name;
      author = author;
      server_name = server_name;
      server_profile = server_profile;
      start_time = d.now;
      world_id = 0;
      capture_delay = d.std.to_f32 capture_delay;
      addon_version = "";
      extension_version = "";
      extension_build = "";
      ocap_recorder_extension_version = "";
      tag = get_optional_string m "tag";
      playable_slots = playable_slots;
      side_friendly = side_friendly;
      addons = addons;
    })

  -- `core.Position3D{X: float64(world.Longitude), Y: float64(world.Latitude)}`
  abbrev pub locate : World → World
  locate w = record w {
    location = record { x = d.std.to_f64 w.longitude; y = d.std.to_f64 w.latitude; z = 0 };
  }

  unfoldable pub parse_mission : Parse (Mission × World)
  unfolding mission_of
  parse_mission raw = do
    let args = map clean raw
    world_text ← arg args 0
    world ← wrapping "error unmarshalling world data" (decode d d.unmarshal_world world_text)
    mission_text ← arg args 1
    fields ← wrapping "error unmarshalling mission data" (decode d d.unmarshal_map mission_text)
    mission ← mission_of fields
    ok (mission, locate world)
