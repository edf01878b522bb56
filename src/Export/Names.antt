-- ===== src/Export/Names.antt =====
-- builder.go: extractFilename, sideToIndex, isProjectileMarker, boolToInt, parseMarkerSize, and
-- strings.TrimPrefix(color, "#"); internal/util: FormatWeaponText.
use Prim.Native.Char.{code}
use Prim.Native.String.{◌++◌ as append}
use ocap2_extension.Prelude.{
  ℕ, ℤ, pos, negsuc, String, Bool, true, false, not, ◌&&◌, ◌||◌, ◌-◌, List, [], ◌∷◌, map, Option,
  none, some, nat_beq, leb, string_eq, ◌==◌, if◌then◌else◌,
}
use ocap2_extension.Core.{Any, f64, arr_of, Std}

abbrev pub is_separator : ℕ → Bool
is_separator c = nat_beq c b'/' || nat_beq c 92

-- What follows the last separator. The text is searched from its end: the rest comes first.
after_separator : String → Option String
after_separator String.[] = none
after_separator (String.◌∷◌ c s) = elim (after_separator s) [
  | some r ↦ some r
  | none ↦ if is_separator (code c) then some s else none
]

unfoldable pub extract_filename : String → String
unfolding after_separator
extract_filename path = elim (after_separator path) [ none ↦ path | some r ↦ r ]

unfoldable pub trim_hash : String → String
trim_hash String.[] = String.[]
trim_hash (String.◌∷◌ c s) = if nat_beq (code c) b'#' then s else String.◌∷◌ c s

abbrev codes : String → List ℕ
codes String.[] = []
codes (String.◌∷◌ c s) = code c ∷ codes s

same_codes : List ℕ → List ℕ → Bool
same_codes [] [] = true
same_codes (c ∷ s) (d ∷ t) = nat_beq c d && same_codes s t
same_codes _ _ = false

-- `strings.ToUpper` as far as a comparison with an ASCII text sees it: besides `a` to `z` only the
-- dotless i and the long s have an ASCII capital.
upper : ℕ → ℕ
upper c =
    if leb b'a' c && leb c b'z'
    then c - 32
    else if nat_beq c 0x131
    then b'I'
    else if nat_beq c 0x17f
    then b'S'
    else c

abbrev pub global_side : ℤ
global_side = negsuc 0

unfoldable pub side_to_index : String → ℤ
unfolding same_codes upper
side_to_index side =
    if is "EAST" || is "OPFOR"
    then pos 0
    else if is "WEST" || is "BLUFOR"
    then pos 1
    else if is "GUER" || is "INDEPENDENT"
    then pos 2
    else if is "CIV" || is "CIVILIAN"
    then pos 3
    else global_side
  where
    is : String → Bool
    is name = same_codes (map upper (codes side)) (codes name)

abbrev pub bool_to_int : Bool → ℤ
bool_to_int true = pos 1
bool_to_int false = pos 0

unfoldable pub is_projectile_marker : String → Bool
is_projectile_marker sim = not (sim == "shotBullet")

-- The bits of the float 1.0.
abbrev pub one64 : ℕ
one64 = 4_607_182_418_800_017_408

two_floats : Option (List ℕ) → Any
two_floats (some (w ∷ h ∷ [])) = arr_of (f64 w ∷ f64 h ∷ [])
two_floats _ = arr_of (f64 one64 ∷ f64 one64 ∷ [])

unfoldable pub parse_marker_size : Std → String → Any
unfolding two_floats
parse_marker_size std size = two_floats (std.unmarshal_floats size)

unfoldable pub format_weapon_text : String → String → String → String
format_weapon_text vehicle weapon magazine = append (append named weapon) loaded
  where
    named : String
    named = if vehicle == "" then "" else append vehicle (if weapon == "" then "" else ": ")

    loaded : String
    loaded = if magazine == "" then "" else append " [" (append magazine "]")
