-- ===== src/Prelude/Decimal.antt =====
-- Go's `strconv` on whole numbers in base 10: ParseUint, ParseInt, Atoi, ParseBool and FormatUint.
use Prim.Native.Char.{Char, code}
use Prim.Native.Nat.{ℕ, zero, suc, ◌+◌, ◌-◌, ◌*◌, ◌/◌, ◌%◌}
use Prim.Native.String.{String}
use mathlib.Core.Bool.{Bool, true, false, ◌&&◌, ◌||◌}
use mathlib.Core.Option.{Option, none, some}
use ocap2_extension.Prelude.Tests.{ltb, leb, nat_beq, string_eq, ◌==◌, if◌then◌else◌}
use ocap2_extension.Prelude.Int.{ℤ, pos, negsuc}

-- The result of reading digits: a character that is none, a number of 2^64 or more, a number.
pub data Scan : Type 0 where
  syntax : Scan
  range : Scan
  value : ℕ → Scan

abbrev pub is_digit : Char → Bool
is_digit c = leb b'0' (code c) && leb (code c) b'9'

abbrev pub digit : Char → ℕ
digit c = code c - b'0'

-- The loop of `ParseUint`. It stops at the first digit that takes the number past 64 bits.
unfoldable pub scan : String → ℕ → Scan
scan String.[] n = value n
scan (String.◌∷◌ c s) n = elim (is_digit c) [
  | false ↦ syntax
  | true ↦ elim (ltb (n * 10 + digit c) 18_446_744_073_709_551_616) [
    | true ↦ scan s (n * 10 + digit c)
    | false ↦ range
  ]
]

unfoldable pub scan_all : String → Scan
scan_all String.[] = syntax
scan_all (String.◌∷◌ c s) = scan (String.◌∷◌ c s) 0

abbrev pub value? : Scan → Option ℕ
value? (value n) = some n
value? syntax = none
value? range = none

-- `strconv.ParseUint(s, 10, 64)`
abbrev pub parse_uint : String → Option ℕ
parse_uint s = value? (scan_all s)

-- A sign before the digits.
unfoldable pub signed : String → Bool × String
signed String.[] = (false, String.[])
signed (String.◌∷◌ c s) =
    if nat_beq (code c) b'-'
    then (true, s)
    else if nat_beq (code c) b'+'
    then (false, s)
    else (false, String.◌∷◌ c s)

-- The number and whether there was no error. Out of range the number is the nearest one.
abbrev pub clamp : Bool → Scan → ℤ × Bool
clamp neg syntax = (pos 0, false)
clamp false range = (pos 9_223_372_036_854_775_807, false)
clamp true range = (negsuc 9_223_372_036_854_775_807, false)
clamp false (value n) =
    if ltb n 9_223_372_036_854_775_808
    then (pos n, true)
    else (pos 9_223_372_036_854_775_807, false)
clamp true (value zero) = (pos 0, true)
clamp true (value (suc n)) =
    if ltb n 9_223_372_036_854_775_808
    then (negsuc n, true)
    else (negsuc 9_223_372_036_854_775_807, false)

-- `strconv.Atoi`, and `strconv.ParseInt(s, 10, 64)`
unfoldable pub atoi : String → ℤ × Bool
atoi s = let (neg, digits) = signed s in clamp neg (scan_all digits)

abbrev pub if_ok {ℓ} : {A : Type ℓ} → A × Bool → Option A
if_ok (a, true) = some a
if_ok (a, false) = none

abbrev pub parse_int : String → Option ℤ
parse_int s = if_ok (atoi s)

-- `strconv.ParseBool`
unfoldable pub parse_bool : String → Option Bool
parse_bool s =
    if s == "1" || s == "t" || s == "T" || s == "true" || s == "TRUE" || s == "True"
    then some true
    else if s == "0" || s == "f" || s == "F" || s == "false" || s == "FALSE" || s == "False"
    then some false
    else none

abbrev pub digit_char : ℕ → Char
digit_char zero = "0"
digit_char (suc zero) = "1"
digit_char (suc (suc zero)) = "2"
digit_char (suc (suc (suc zero))) = "3"
digit_char (suc (suc (suc (suc zero)))) = "4"
digit_char (suc (suc (suc (suc (suc zero))))) = "5"
digit_char (suc (suc (suc (suc (suc (suc zero)))))) = "6"
digit_char (suc (suc (suc (suc (suc (suc (suc zero))))))) = "7"
digit_char (suc (suc (suc (suc (suc (suc (suc (suc zero)))))))) = "8"
digit_char (suc (suc (suc (suc (suc (suc (suc (suc (suc d))))))))) = "9"

-- The digits of a number before a text, the last one first: at most one more than the fuel.
unfoldable pub digits : ℕ → ℕ → String → String
digits zero n out = String.◌∷◌ (digit_char (n % 10)) out
digits (suc k) n out = elim (ltb n 10) [
  | true ↦ String.◌∷◌ (digit_char (n % 10)) out
  | false ↦ digits k (n / 10) (String.◌∷◌ (digit_char (n % 10)) out)
]

-- `strconv.FormatUint(n, 10)`: a number of 64 bits has 20 digits at most.
unfoldable pub format_uint : ℕ → String
format_uint n = digits 19 n String.[]

-- `strconv.FormatInt(n, 10)`
unfoldable pub format_int : ℤ → String
format_int (pos n) = format_uint n
format_int (negsuc n) = String.◌∷◌ "-" (format_uint (suc n))
