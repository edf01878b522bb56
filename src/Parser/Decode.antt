-- ===== src/Parser/Decode.antt =====
-- What the parse functions share: cleaning the arguments, reading one of them, internal/geo, and
-- the number readers of parser.go.
use ocap2_extension.Prelude.{
  ℕ, ℤ, pos, negsuc, String, Bool, true, false, not, ◌&&◌, ◌+◌, ◌-◌, ◌%◌, List, [], ◌∷◌, Option,
  none, some, get_elem?, last?, length, ltb, string_eq, if◌then◌else◌,
}
use ocap2_extension.Prelude.Text.{
  is_comma, is_open, is_close, is_space, trim, trim_prefix, trim_suffix, split,
}
use ocap2_extension.Prelude.Decimal.{parse_uint, parse_int, parse_bool, atoi}
use ocap2_extension.Core.{Any, Std, Frame, Timestamp, Position3D, Polyline, FieldMap, World}
use ocap2_extension.Core.Dynamic.{str, int}
use ocap2_extension.Core.Result.{Result, ok, err, Error, errorf, panic, wrapping, or_fail}
use ocap2_extension.Util.{trim_quotes, fix_escape_quotes, inside}

-- The standard library and the machine where the parser relies on them. A float is its bits.
pub record Decoder : Type 0 where
  pub std : Std
  -- `strconv.ParseFloat(s, 64)`, and `float32(f)` of `strconv.ParseFloat(s, 32)`; the text
  -- of its error
  pub parse_float : String → Option ℕ
  pub parse_float32 : String → Option ℕ
  pub float_error : String → String
  -- `uint64(f)`, `uint16(f)`, `uint8(f)` and `int64(f)`; `float64(n)` of a signed integer
  pub uint_of_f64 : ℕ → ℕ
  pub uint16_of_f64 : ℕ → ℕ
  pub uint8_of_f64 : ℕ → ℕ
  pub int_of_f64 : ℕ → ℤ
  pub f64_of_int : ℤ → ℕ
  -- `f < 0` and `f == g`
  pub is_negative : ℕ → Bool
  pub same_f64 : ℕ → ℕ → Bool
  -- `json.Unmarshal` into values of the types that the parser asks for, and the
  -- text of its error
  pub unmarshal_anys : String → Option (List Any)
  pub unmarshal_rows : String → Option (List (List Any))
  pub unmarshal_points : String → Option (List (List ℕ))
  pub unmarshal_map : String → Option FieldMap
  pub unmarshal_world : String → Option World
  -- into a `[k]float64` and a `[4][2][6]float64`, arrays as functions of the index
  pub unmarshal_array : ℕ → String → Option (ℕ → ℕ)
  pub unmarshal_sides : String → Option (ℕ → ℕ → ℕ → ℕ)
  pub json_error : String → String
  -- `time.Now()` when the command is parsed
  pub now : Timestamp

infixl 5 ◌>>=◌ ◌>>◌
abbrev pub ◌>>=◌ {ℓ κ} : {A : Type ℓ} {B : Type κ} → Result A → (A → Result B) → Result B
ok a >>= f = f a
err e >>= f = err e

abbrev pub ◌>>◌ {ℓ κ} : {A : Type ℓ} {B : Type κ} → Result A → Result B → Result B
m >> k = m >>= λ _. k

-- `return …, fmt.Errorf(…)` unless the test holds
abbrev pub ensure : Bool → Error → Result (Unit {0})
ensure true e = ok tt
ensure false e = err e

-- `if v, err := …; err == nil { return v, nil }` before another way
abbrev pub or_try {ℓ} : {A : Type ℓ} → Option A → Result A → Result A
or_try (some v) r = ok v
or_try none r = r

-- The value, if there is no error.
abbrev pub value_of {ℓ} : {A : Type ℓ} → Result A → Option A
value_of (ok v) = some v
value_of (err e) = none

-- What a test adds to a value that is there anyway.
abbrev pub if_given {ℓ} : {A : Type ℓ} → Bool → A → Result A → Result A
if_given true other r = r
if_given false other r = ok other

-- `util.FixEscapeQuotes(util.TrimQuotes(v))`
unfoldable pub clean : String → String
clean v = fix_escape_quotes (trim_quotes v)

abbrev pub in_range {ℓ} : {A : Type ℓ} → Option A → Result A
in_range o = or_fail (panic "index out of range") o

-- `data[i]`
unfoldable pub arg : List String → ℕ → Result String
arg args i = in_range (get_elem? args i)

-- An argument as an error shows it.
abbrev pub quoting : String → String → Error
quoting what s = errorf what (str s ∷ [])

-- An error that shows how many arguments there were.
abbrev pub got : String → List String → Error
got what args = errorf what (int (pos (length args)) ∷ [])

-- `if err != nil { v = other }`
abbrev pub if_error {ℓ} : {A : Type ℓ} → A → Option A → A
if_error other none = other
if_error other (some a) = a

-- The low bits of a signed integer: a conversion to an unsigned type.
unfoldable pub low_bits : ℕ → ℤ → ℕ
low_bits m (pos n) = n % m
low_bits m (negsuc n) = m - 1 - n % m

abbrev pub uint16 : ℕ → ℕ
uint16 n = n % 65_536

-- `int8(n)`
unfoldable pub int8 : ℤ → ℤ
unfolding low_bits
int8 n = let w = low_bits 256 n in if ltb w 128 then pos w else negsuc (255 - w)

-- `strconv.Atoi` and `strconv.ParseBool` where the caller drops the error.
abbrev pub atoi_or_clamp : String → ℤ
atoi_or_clamp s = (atoi s).0

abbrev pub or_false : Option Bool → Bool
or_false o = if_error false o

module _ (d : Decoder) where
  -- `strconv.ParseFloat(s, 64)`
  unfoldable pub float : String → Result ℕ
  float s = or_fail (errorf (d.float_error s) []) (d.parse_float s)

  -- `float32(f)` of `f, err := strconv.ParseFloat(s, 32)`
  unfoldable pub float32 : String → Result ℕ
  float32 s = or_fail (errorf (d.float_error s) []) (d.parse_float32 s)

  -- `core.Frame(f)` of `f, err := strconv.ParseFloat(s, 64)`
  unfoldable pub frame : String → Result Frame
  unfolding float
  frame s = do f ← float s; ok (d.uint_of_f64 f)

  -- `strconv.ParseBool`
  unfoldable pub boolean : String → Result Bool
  boolean s = or_fail (quoting "strconv.ParseBool: parsing %q: invalid syntax" s) (parse_bool s)

  -- `json.Unmarshal`
  abbrev pub decode {ℓ} : {A : Type ℓ} → (String → Option A) → String → Result A
  decode f s = or_fail (errorf (d.json_error s) []) (f s)

  unfoldable pub whole_uint : String → ℕ → Result ℕ
  whole_uint s f = do
    ensure (not (d.is_negative f) && d.same_f64 f (d.std.f64_of_uint (d.uint_of_f64 f)))
        (quoting "parseUintFromFloat: %q is not a valid uint64" s)
    ok (d.uint_of_f64 f)

  unfoldable pub parse_uint_from_float : String → Result ℕ
  unfolding whole_uint float
  parse_uint_from_float s = or_try (parse_uint s) (float s >>= whole_uint s)

  unfoldable pub whole_int : String → ℕ → Result ℤ
  whole_int s f = do
    ensure (d.same_f64 f (d.f64_of_int (d.int_of_f64 f)))
        (quoting "parseIntFromFloat: %q is not a valid int64" s)
    ok (d.int_of_f64 f)

  unfoldable pub parse_int_from_float : String → Result ℤ
  unfolding whole_int float
  parse_int_from_float s = or_try (parse_int s) (float s >>= whole_int s)

  unfoldable pub not_channel : String → Error
  not_channel s =
      quoting "parseRadioChannel: %q is not a valid channel (expected int or [int,...,int])" s

  -- The last element of an SQF array.
  last_knob : String → Option String
  last_knob s = elim (inside s) [
    | none ↦ none
    | some inner ↦ elim (last? (split is_comma inner)) [
      | none ↦ none
      | some l ↦ some (trim is_space l)
    ]
  ]

  -- The channel of the array's last element, if there is an array with a number at its end.
  knob_channel : Option String → Option ℤ
  knob_channel none = none
  knob_channel (some l) = value_of (parse_int_from_float l)

  unfoldable pub parse_radio_channel : String → Result ℤ
  unfolding last_knob knob_channel not_channel
  parse_radio_channel text =
      let s = trim is_space text in
      or_try (value_of (parse_int_from_float s))
        (or_fail (not_channel s) (knob_channel (last_knob s)))

  -- internal/geo: Position3DFromString
  unfoldable pub invalid_coordinates : Error
  invalid_coordinates = errorf "invalid coordinates provided" []

  unfoldable pub coordinate : String → Result ℕ
  unfolding invalid_coordinates
  coordinate s = or_fail invalid_coordinates (d.parse_float s)

  unfoldable pub position_of : List String → Result Position3D
  unfolding coordinate invalid_coordinates
  position_of (long ∷ lat ∷ []) = do
    x ← coordinate long
    y ← coordinate lat
    ok (record { x = x; y = y; z = 0 })
  position_of (long ∷ lat ∷ elev ∷ _) = do
    x ← coordinate long
    y ← coordinate lat
    z ← coordinate elev
    ok (record { x = x; y = y; z = z })
  position_of _ = err invalid_coordinates

  unfoldable pub position3d_from_string : String → Result Position3D
  unfolding position_of
  position3d_from_string coords = position_of (split is_comma coords)

  -- A position that may stand between brackets.
  unfoldable pub bracketed_position : String → Result Position3D
  bracketed_position text = position3d_from_string (trim_suffix is_close (trim_prefix is_open text))

  -- internal/geo: the loop of ParsePolylineToCore
  unfoldable pub point_list : ℕ → List (List ℕ) → Result Polyline
  point_list i [] = ok []
  point_list i ((x ∷ y ∷ _) ∷ cs) = do
    rest ← point_list (i + 1) cs
    ok ((record { x = x; y = y }) ∷ rest)
  point_list i (_ ∷ cs) = err (errorf "coordinate %d has insufficient values" (int (pos i) ∷ []))

  unfoldable pub parse_polyline_to_core : String → Result Polyline
  unfolding point_list
  parse_polyline_to_core input = do
    coords ← wrapping "failed to parse polyline JSON" (decode d.unmarshal_points input)
    ensure (not (ltb (length coords) 2))
        (errorf "polyline must have at least 2 points, got %d" (int (pos (length coords)) ∷ []))
    point_list 0 coords
