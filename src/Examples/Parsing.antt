-- ===== src/Examples/Parsing.antt =====
-- The theorems on the parser at the texts of a few commands. The decoder of the examples has floats
-- whose bits are the number itself.
use ocap2_extension.Prelude.{
  String, Bool, true, false, pos, refl, subst, ◌≡◌, ◌≢◌, List, [], ◌∷◌, ap, none, some, nat_beq,
  nat_eq, arith, pos_part, string_eq, ◌==◌,
}
use ocap2_extension.Prelude.Text.{cut_prefix, cut_suffix, trim_left, trim_right}
use ocap2_extension.Prelude.Decimal.{format_uint, parse_uint, scan, scan_all}
use ocap2_extension.Prelude.Digits.{parse_uint-format_uint}
use ocap2_extension.Core.{Soldier}
use ocap2_extension.Core.Result.{ok, err, panic}
use ocap2_extension.Cache.MarkerCache
use ocap2_extension.Memory.State.{Backend, new}
use ocap2_extension.Memory.Lifecycle.{written}
use ocap2_extension.Memory.Storage.{memory}
use ocap2_extension.Memory.Record.{record_kill_event}
use ocap2_extension.Util.{fix_escape_quotes, trim_quotes, parse_sqf_string_array}
use ocap2_extension.Util.Quotes.{sqf_string, fix_escape_quotes-sqf_string}
use ocap2_extension.Util.Arrays.{QuoteFree, sqf_array, parse_sqf_string_array-sqf_array}
use ocap2_extension.Parser.Decode.{Decoder, clean, arg}
use ocap2_extension.Export.Names.{format_weapon_text}
use ocap2_extension.Prelude.Map.{lookup}
use ocap2_extension.Parser.Filled.{parser}
use ocap2_extension.Parser.Returns.{Returns}
use ocap2_extension.Parser.Units.{parse_soldier}
use ocap2_extension.Parser.Reports.{parse_kill_event}
use ocap2_extension.Parser.RoundTrip.{
  ReadsWhole, as_new, sqf_soldier, parse_soldier-sqf_soldier, parse_kill_event-sqf_array,
}
use ocap2_extension.Worker.State.{Manager}
use ocap2_extension.Worker.Commands.{handle, event_kill, telemetry_frame}
use ocap2_extension.Worker.Returns.{handle-Returns, arity}
use ocap2_extension.Worker.FromText.{handle-kill_texts}
use ocap2_extension.Examples.Data.{std, world, rifleman}

abbrev decoder : Decoder
decoder = record {
  std = std;
  parse_float = λ s. parse_uint s;
  parse_float32 = λ s. parse_uint s;
  float_error = λ s. "invalid syntax";
  uint_of_f64 = λ f. f;
  uint16_of_f64 = λ f. f;
  uint8_of_f64 = λ f. f;
  int_of_f64 = λ f. pos f;
  f64_of_int = λ n. pos_part n;
  is_negative = λ f. false;
  same_f64 = λ f g. nat_beq f g;
  unmarshal_anys = λ s. some [];
  unmarshal_rows = λ s. some [];
  unmarshal_points = λ s. none;
  unmarshal_map = λ s. none;
  unmarshal_world = λ s. some world;
  unmarshal_array = λ n s. none;
  unmarshal_sides = λ s. none;
  json_error = λ s. "unexpected end of JSON input";
  now = 0;
}

decoder-ReadsWhole : ReadsWhole decoder
decoder-ReadsWhole n h = (n, parse_uint-format_uint n (omega arith), refl)

-- A doubled quote inside a name.
fix_escape_quotes-sqf_string_example :
    fix_escape_quotes (trim_quotes (sqf_string "Ann \"Ace\" Lee")) ≡ "Ann \"Ace\" Lee"
unfolding cut_prefix cut_suffix
fix_escape_quotes-sqf_string_example = fix_escape_quotes-sqf_string "Ann \"Ace\" Lee" (refl, refl)

abbrev truck_name : String
truck_name = "HEMTT"

not_comma : truck_name ≢ ","
not_comma e = subst IsTrue (ap is_truck e) tt
  where
    is_truck : String → Bool
    is_truck s = s == "HEMTT"

    IsTrue : Bool → Type 0
    IsTrue true = Unit
    IsTrue false = ⊥

truck_free : QuoteFree "HEMTT"
truck_free = (refl, (refl, (refl, (refl, (refl, tt)))))

gun_free : QuoteFree "M2"
gun_free = (refl, (refl, tt))

magazine_free : QuoteFree "100Rnd"
magazine_free = (refl, (refl, (refl, (refl, (refl, (refl, tt))))))

parse_sqf_string_array-sqf_array_example :
    parse_sqf_string_array (sqf_array "HEMTT" "M2" "100Rnd") ≡ ("HEMTT", "M2", "100Rnd")
parse_sqf_string_array-sqf_array_example =
    parse_sqf_string_array-sqf_array "HEMTT" "M2" "100Rnd" truck_free gun_free magazine_free
      not_comma

parse_soldier-sqf_soldier_example :
    parse_soldier decoder (sqf_soldier rifleman "[]") ≡ ok (as_new decoder rifleman)
unfolding cut_prefix cut_suffix
parse_soldier-sqf_soldier_example =
    parse_soldier-sqf_soldier decoder rifleman "[]" decoder-ReadsWhole (omega arith) (omega arith)
      (
        (refl, refl),
        (refl, refl),
        (refl, refl),
        (refl, refl),
        (refl, refl),
        (refl, refl),
        (refl, refl),
      )
      (refl, refl) refl

forty : decoder.parse_float (clean "40") ≡ some 40
unfolding clean fix_escape_quotes trim_quotes trim_left trim_right scan scan_all
forty = refl

-- The first kill of the mission, in texts: the truck's gunner 2 kills 1 at frame 5.
abbrev kill_texts : List String
kill_texts =
    format_uint 5 ∷ format_uint 1 ∷ format_uint 2 ∷ sqf_array "HEMTT" "M2" "100Rnd" ∷ "40" ∷ []

abbrev gunner : Soldier
gunner = record rifleman { id = 2 }

abbrev both : Manager Backend
both = record {
  entity_cache = record { soldiers = (1, rifleman) ∷ (2, gunner) ∷ []; vehicles = []; placed = [] };
  marker_cache = MarkerCache.new;
  backend = new;
}

parse_kill_event-sqf_array_example :
    parse_kill_event decoder kill_texts
    ≡ ok (record {
      time = 0;
      capture_frame = 5;
      victim_id = 1;
      killer_id = 2;
      weapon_vehicle = "HEMTT";
      weapon_name = "M2";
      weapon_magazine = "100Rnd";
      event_text = "HEMTT: M2 [100Rnd]";
      distance = 40;
    })
unfolding format_weapon_text
parse_kill_event-sqf_array_example =
    parse_kill_event-sqf_array decoder 5 1 2 40 "HEMTT" "M2" "100Rnd" "40" decoder-ReadsWhole
      (omega arith) (omega arith) (omega arith) truck_free gun_free magazine_free not_comma forty

handle-kill_texts_example :
    handle (parser decoder) (memory std (written "patrol.json.gz")) event_kill kill_texts both ≡ (
      ok tt,
      record both {
        backend =
            record_kill_event
              (record {
                id = 0;
                time = 0;
                capture_frame = 5;
                victim_soldier_id = some 1;
                victim_vehicle_id = none;
                killer_soldier_id = some 2;
                killer_vehicle_id = none;
                weapon_vehicle = "HEMTT";
                weapon_name = "M2";
                weapon_magazine = "100Rnd";
                event_text = "HEMTT: M2 [100Rnd]";
                distance = 40;
              })
              new;
      },
    )
unfolding format_weapon_text lookup
handle-kill_texts_example =
    handle-kill_texts decoder std (written "patrol.json.gz") 5 1 2 40 "HEMTT" "M2" "100Rnd" "40"
      both rifleman gunner refl refl decoder-ReadsWhole (omega arith) (omega arith) (omega arith)
      truck_free gun_free magazine_free not_comma forty

-- A telemetry command without arguments is refused, a marker with 14 is read or refused.
handle-Returns_example :
    Returns
      (handle (parser decoder) (memory std (written "patrol.json.gz")) telemetry_frame [] both).0
unfolding arity
handle-Returns_example =
    handle-Returns decoder std (written "patrol.json.gz") telemetry_frame [] both refl

-- Too few arguments for a new soldier: the parser does not count them and panics.
soldier_panics : parse_soldier decoder [] ≡ err (panic "index out of range")
unfolding parse_soldier arg
soldier_panics = refl
