-- ===== src/Prelude/Text.antt =====
-- Go's `strings` package as the recorder uses it: on texts whose separators are ASCII, so that a
-- cut between bytes is a cut between characters.
use Prim.Native.Char.{Char, code}
use Prim.Native.String.{String}
use mathlib.Core.Bool.{Bool, true, false, ◌&&◌, ◌||◌}
use mathlib.Core.Option.{Option, none, some}
use mathlib.Core.List.{List, [], ◌∷◌}
use ocap2_extension.Prelude.Tests.{nat_beq, leb, if◌then◌else◌}

abbrev pub is_quote : Char → Bool
is_quote c = nat_beq (code c) 34

abbrev pub is_comma : Char → Bool
is_comma c = nat_beq (code c) b','

abbrev pub is_open : Char → Bool
is_open c = nat_beq (code c) b'['

abbrev pub is_close : Char → Bool
is_close c = nat_beq (code c) b']'

-- `unicode.IsSpace`
abbrev pub is_space : Char → Bool
is_space c =
    let n = code c in
    leb 9 n && leb n 13
    || nat_beq n 32
    || nat_beq n 0x85
    || nat_beq n 0xa0
    || nat_beq n 0x1680
    || leb 0x2000 n && leb n 0x200a
    || nat_beq n 0x2028
    || nat_beq n 0x2029
    || nat_beq n 0x202f
    || nat_beq n 0x205f
    || nat_beq n 0x3000

-- `strings.TrimLeftFunc`
unfoldable pub trim_left : (Char → Bool) → String → String
trim_left p String.[] = String.[]
trim_left p (String.◌∷◌ c s) = elim (p c) [ true ↦ trim_left p s | false ↦ String.◌∷◌ c s ]

-- A character before a text that is already trimmed on the right.
abbrev pub put_unless : (Char → Bool) → Char → String → String
put_unless p c String.[] = if p c then String.[] else String.◌∷◌ c String.[]
put_unless p c (String.◌∷◌ d s) = String.◌∷◌ c (String.◌∷◌ d s)

-- `strings.TrimRightFunc`
unfoldable pub trim_right : (Char → Bool) → String → String
trim_right p String.[] = String.[]
trim_right p (String.◌∷◌ c s) = put_unless p c (trim_right p s)

-- `strings.Trim` and `strings.TrimSpace`
abbrev pub trim : (Char → Bool) → String → String
trim p s = trim_right p (trim_left p s)

-- `strings.TrimPrefix` and `strings.HasPrefix`, of one character
unfoldable pub cut_prefix : (Char → Bool) → String → Option String
cut_prefix p String.[] = none
cut_prefix p (String.◌∷◌ c s) = if p c then some s else none

-- `strings.TrimSuffix` and `strings.HasSuffix`, of one character
unfoldable pub cut_suffix : (Char → Bool) → String → Option String
cut_suffix p String.[] = none
cut_suffix p (String.◌∷◌ c String.[]) = if p c then some String.[] else none
cut_suffix p (String.◌∷◌ c (String.◌∷◌ d s)) = elim (cut_suffix p (String.◌∷◌ d s)) [
  | none ↦ none
  | some r ↦ some (String.◌∷◌ c r)
]

abbrev pub or_whole : String → Option String → String
or_whole s none = s
or_whole s (some r) = r

abbrev pub trim_prefix : (Char → Bool) → String → String
trim_prefix p s = or_whole s (cut_prefix p s)

abbrev pub trim_suffix : (Char → Bool) → String → String
trim_suffix p s = or_whole s (cut_suffix p s)

-- A character before the first part.
abbrev pub onto_first : Char → List String → List String
onto_first c [] = String.◌∷◌ c String.[] ∷ []
onto_first c (w ∷ ws) = String.◌∷◌ c w ∷ ws

-- `strings.Split` at one character
unfoldable pub split : (Char → Bool) → String → List String
split p String.[] = String.[] ∷ []
split p (String.◌∷◌ c s) = elim (p c) [
  | true ↦ String.[] ∷ split p s
  | false ↦ onto_first c (split p s)
]
