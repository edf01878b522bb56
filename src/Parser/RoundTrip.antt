-- ===== src/Parser/RoundTrip.antt =====
-- What the addon sends for a new soldier and a placed object, and what the parser reads.
use ocap2_extension.Prelude.{
  ℕ, zero, suc, String, Bool, true, false, ◌≡◌, ◌≢◌, refl, ◌≤◌, ◌<◌, ◌%◌, ◌/◌, List, [], ◌∷◌, some,
  arith, ltb, Bool-cases, inl, inr,
}
use ocap2_extension.Prelude.Text.{is_quote, trim_left, trim_right}
use ocap2_extension.Prelude.Decimal.{digits, digit_char, format_uint, parse_bool}
use ocap2_extension.Prelude.Digits.{parse_uint-format_uint, code-digit_char}
use ocap2_extension.Core.{Soldier, frame_forever}
use ocap2_extension.Core.Result.{ok}
use ocap2_extension.Util.{element, fix_escape_quotes, trim_quotes}
use ocap2_extension.Util.Quotes.{sqf_string, EdgesFree, fix_escape_quotes-sqf_string}
use ocap2_extension.Util.Arrays.{
  QuoteFree, element_free, sqf_array, trim_quotes-sqf_array, parse_sqf_string_array-sqf_array,
}
use ocap2_extension.Parser.Decode.{
  Decoder, clean, arg, frame, float, boolean, parse_uint_from_float,
}
use ocap2_extension.Export.Names.{format_weapon_text}
use ocap2_extension.Parser.Reports.{parse_kill_event}
use ocap2_extension.Parser.Units.{parse_soldier}

digit_plain : (n : ℕ) → is_quote (digit_char (n % 10)) ≡ false
digit_plain n = ground (arith, code-digit_char (n % 10))

digits-QuoteFree : (k n : ℕ) (out : String) → QuoteFree out → QuoteFree (digits k n out)
unfolding digits
digits-QuoteFree zero n out h = (digit_plain n, h)
digits-QuoteFree (suc k) n out h = elim (Bool-cases (ltb n 10)) [
  | inl q ↦ rw (q, digits) (digit_plain n, h)
  | inr q ↦ rw (q, digits) (digits-QuoteFree k (n / 10) _ (digit_plain n, h))
]

clean-format_uint : (n : ℕ) → clean (format_uint n) ≡ format_uint n
unfolding clean element format_uint
clean-format_uint n = element_free _ (digits-QuoteFree 19 n "" tt)

clean-sqf_string : (s : String) → EdgesFree s → clean (sqf_string s) ≡ s
unfolding clean
clean-sqf_string s h = fix_escape_quotes-sqf_string s h

-- `strconv.ParseFloat` reads the whole numbers that a float64 can hold one by one, and the conversion
-- back to an integer is exact there.
abbrev pub ReadsWhole : Decoder → Type 0
ReadsWhole d =
    (n : ℕ)
    → n ≤ 9_007_199_254_740_992
    → (f : ℕ) × (d.parse_float (format_uint n) ≡ some f) × (d.uint_of_f64 f ≡ n)

-- A Boolean as SQF prints it.
abbrev pub sqf_bool : Bool → String
sqf_bool true = "true"
sqf_bool false = "false"

-- The arguments of `:SOLDIER:CREATE:` for a soldier whose squad parameters print as `squad`.
abbrev pub sqf_soldier : Soldier → String → List String
sqf_soldier s squad =
    format_uint s.join_frame
    ∷ format_uint s.id
    ∷ sqf_string s.unit_name
    ∷ sqf_string s.group_id
    ∷ sqf_string s.side
    ∷ sqf_bool s.is_player
    ∷ sqf_string s.role_description
    ∷ sqf_string s.class_name
    ∷ sqf_string s.display_name
    ∷ sqf_string s.player_uid
    ∷ sqf_string squad
    ∷ []

-- The texts of a soldier.
abbrev pub TextsEdgesFree : Soldier → Type 0
TextsEdgesFree s =
    EdgesFree s.unit_name
    × EdgesFree s.group_id
    × EdgesFree s.side
    × EdgesFree s.role_description
    × EdgesFree s.class_name
    × EdgesFree s.display_name
    × EdgesFree s.player_uid

-- What the command says nothing about.
abbrev pub as_new : Decoder → Soldier → Soldier
as_new d s = record s { join_time = d.now; ocap_type = ""; delete_frame = frame_forever }

module _ (d : Decoder) where
  frame-format_uint :
      ReadsWhole d → (n : ℕ) → n ≤ 9_007_199_254_740_992 → frame d (format_uint n) ≡ ok n
  unfolding frame float
  frame-format_uint r n h = let (f, e, k) = r n h in rw (e, k) refl

  parse_uint_from_float-format_uint :
      (n : ℕ) → n < 18_446_744_073_709_551_616 → parse_uint_from_float d (format_uint n) ≡ ok n
  unfolding parse_uint_from_float
  parse_uint_from_float-format_uint n h = rw (parse_uint-format_uint n h) refl

  boolean-sqf_bool : (b : Bool) → boolean d (clean (sqf_bool b)) ≡ ok b
  unfolding boolean parse_bool clean fix_escape_quotes trim_quotes trim_right trim_left
  boolean-sqf_bool true = refl
  boolean-sqf_bool false = refl

  small : (n : ℕ) → n < 65_536 → n % 65_536 ≡ n
  small n h = omega arith

  -- The arguments that the addon sends for a soldier parse to that soldier, if the id is below 2^16,
  -- the frame at most 2^53, no text begins or ends with a quote, and floats read whole numbers.
  pub parse_soldier-sqf_soldier :
      (s : Soldier) (squad : String)
      → ReadsWhole d
      → s.id < 65_536
      → s.join_frame ≤ 9_007_199_254_740_992
      → TextsEdgesFree s
      → EdgesFree squad
      → d.unmarshal_anys squad ≡ some s.squad_params
      → parse_soldier d (sqf_soldier s squad) ≡ ok (as_new d s)
  unfolding parse_soldier arg
  parse_soldier-sqf_soldier s squad r i j (a, b, c, e, f, g, u) q h =
      rw
        (
          clean-format_uint s.join_frame,
          frame-format_uint r s.join_frame j,
          clean-format_uint s.id,
          parse_uint_from_float-format_uint s.id (omega arith),
          clean-sqf_string s.unit_name a,
          clean-sqf_string s.group_id b,
          clean-sqf_string s.side c,
          boolean-sqf_bool s.is_player,
          clean-sqf_string s.role_description e,
          clean-sqf_string s.class_name f,
          clean-sqf_string s.display_name g,
          clean-sqf_string s.player_uid u,
          clean-sqf_string squad q,
          h,
          small s.id i,
        )
        refl

  -- A kill event with whole numbers for the frame and the two units and three weapon texts without
  -- quotes, the first of them not a comma alone, is read as those values. The event text is what
  -- the exporter makes of the three texts.
  pub parse_kill_event-sqf_array :
      (f victim killer x : ℕ) (v w m distance : String)
      → ReadsWhole d
      → f ≤ 9_007_199_254_740_992
      → victim < 65_536
      → killer < 65_536
      → QuoteFree v
      → QuoteFree w
      → QuoteFree m
      → v ≢ ","
      → d.parse_float (clean distance) ≡ some x
      → parse_kill_event d (
          format_uint f ∷ format_uint victim ∷ format_uint killer ∷ sqf_array v w m ∷ distance ∷ [])
        ≡ ok (record {
          time = d.now;
          capture_frame = f;
          victim_id = victim;
          killer_id = killer;
          weapon_vehicle = v;
          weapon_name = w;
          weapon_magazine = m;
          event_text = format_weapon_text v w m;
          distance = d.std.to_f32 x;
        })
  unfolding parse_kill_event arg float
  parse_kill_event-sqf_array f victim killer x v w m distance r i j k hv hw hm n h =
      rw
        (
          clean-format_uint f,
          frame-format_uint r f i,
          clean-format_uint victim,
          parse_uint_from_float-format_uint victim (omega arith),
          clean-format_uint killer,
          parse_uint_from_float-format_uint killer (omega arith),
          trim_quotes-sqf_array v w m,
          parse_sqf_string_array-sqf_array v w m hv hw hm n,
          h,
          small victim j,
          small killer k,
        )
        refl
