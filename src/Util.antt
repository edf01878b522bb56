-- ===== src/Util.antt =====
-- internal/util/util.go. `FormatWeaponText` is with the exporter's texts, Export/Names.
pub mod Quotes
pub mod Arrays
use Prim.Native.Char.{Char}
use ocap2_extension.Prelude.{ℕ, String, Bool, true, false, ◌&&◌, Option, none, some}
use ocap2_extension.Prelude.Text.{
  is_quote, is_comma, is_open, is_close, is_space, trim, cut_prefix, cut_suffix,
}

unfoldable pub trim_quotes : String → String
trim_quotes s = trim is_quote s

-- `strings.ReplaceAll(s, "\"\"", "\"")`, from the left and without overlaps
unfoldable pub fix_escape_quotes : String → String
fix_escape_quotes String.[] = String.[]
fix_escape_quotes (String.◌∷◌ c String.[]) = String.◌∷◌ c String.[]
fix_escape_quotes (String.◌∷◌ c (String.◌∷◌ d s)) = elim (is_quote c && is_quote d) [
  | true ↦ String.◌∷◌ c (fix_escape_quotes s)
  | false ↦ String.◌∷◌ c (fix_escape_quotes (String.◌∷◌ d s))
]

abbrev pub onto_left : Char → Option (String × String) → Option (String × String)
onto_left c none = none
onto_left c (some (l, r)) = some (String.◌∷◌ c l, r)

-- The text before and after the first `","`.
unfoldable pub cut_separator : String → Option (String × String)
cut_separator String.[] = none
cut_separator (String.◌∷◌ c String.[]) = none
cut_separator (String.◌∷◌ c (String.◌∷◌ d String.[])) = none
cut_separator (String.◌∷◌ c (String.◌∷◌ d (String.◌∷◌ e s))) =
    elim (is_quote c && (is_comma d && is_quote e)) [
      | true ↦ some (String.[], s)
      | false ↦ onto_left c (cut_separator (String.◌∷◌ d (String.◌∷◌ e s)))
    ]

-- `strings.SplitN(inner, "\",\"", 3)` where it has three parts
unfoldable pub split_three : String → Option (String × String × String)
split_three inner = elim (cut_separator inner) [
  | none ↦ none
  | some (a, rest) ↦ elim (cut_separator rest) [ none ↦ none | some (b, c) ↦ some (a, b, c) ]
]

-- The text between the brackets, if the first and the last character are brackets.
unfoldable pub inside : String → Option String
inside s = elim (cut_prefix is_open s) [ none ↦ none | some r ↦ cut_suffix is_close r ]

unfoldable pub element : String → String
element s = fix_escape_quotes (trim_quotes s)

unfoldable pub of_parts : String → Option (String × String × String) → String × String × String
unfolding element
of_parts s none = ("", s, "")
of_parts s (some (a, b, c)) = (element a, element b, element c)

unfoldable pub parse_sqf_string_array : String → String × String × String
unfolding of_parts
parse_sqf_string_array s =
    let t = trim is_space s in
    elim (inside t) [ none ↦ ("", t, "") | some inner ↦ of_parts t (split_three inner) ]
