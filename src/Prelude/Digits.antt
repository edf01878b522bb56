-- ===== src/Prelude/Digits.antt =====
-- Printing a number in base 10 and reading it back.
use Prim.Native.Char.{Char, code}
use Prim.Native.Nat.{ℕ, zero, suc, ◌+◌, ◌*◌, ◌/◌, ◌%◌, ◌<◌}
use Prim.Native.String.{String}
use mathlib.Core.Path.{◌≡◌, refl, ap, ◌∙◌}
use mathlib.Core.Logic.{inl, inr}
use mathlib.Core.Bool.{true}
use mathlib.Core.Option.{some}
use native.Mathlib.Omega.{arith}
use ocap2_extension.Prelude.Tests.{ltb, Bool-cases, lt→ltb}
use ocap2_extension.Prelude.Decimal.{
  scan, scan_all, is_digit, digit, digit_char, digits, format_uint, value?, parse_uint,
}

abbrev pub IsCons : String → Type 0
IsCons String.[] = ⊥
IsCons (String.◌∷◌ c s) = Unit

-- The largest number of one more digit than the fuel, and one.
abbrev bound : ℕ → ℕ
bound zero = 10
bound (suc k) = bound k * 10

pub code-digit_char : (d : ℕ) → d < 10 → code (digit_char d) ≡ b'0' + d
code-digit_char zero h = refl
code-digit_char (suc zero) h = refl
code-digit_char (suc (suc zero)) h = refl
code-digit_char (suc (suc (suc zero))) h = refl
code-digit_char (suc (suc (suc (suc zero)))) h = refl
code-digit_char (suc (suc (suc (suc (suc zero))))) h = refl
code-digit_char (suc (suc (suc (suc (suc (suc zero)))))) h = refl
code-digit_char (suc (suc (suc (suc (suc (suc (suc zero))))))) h = refl
code-digit_char (suc (suc (suc (suc (suc (suc (suc (suc zero)))))))) h = refl
code-digit_char (suc (suc (suc (suc (suc (suc (suc (suc (suc zero))))))))) h = refl
code-digit_char (suc (suc (suc (suc (suc (suc (suc (suc (suc (suc d)))))))))) h =
    absurd (omega arith)

-- A digit in front of the rest goes behind the number read so far.
scan_digit :
    (c : Char) (d n : ℕ) (out : String)
    → code c ≡ b'0' + d
    → d < 10
    → n * 10 + d < 18_446_744_073_709_551_616
    → scan (String.◌∷◌ c out) n ≡ scan out (n * 10 + d)
unfolding scan
scan_digit c d n out e h k =
    rw
      (
        is_digit_of c d e h,
        scan,
        lt→ltb (n * 10 + digit c) 18_446_744_073_709_551_616 (omega (arith, digit_of c d e)),
      )
      (ap (λ x. scan out (n * 10 + x)) (digit_of c d e))
  where
    is_digit_of : (c : Char) (d : ℕ) → code c ≡ b'0' + d → d < 10 → is_digit c ≡ true
    is_digit_of c d e h = ground arith

    digit_of : (c : Char) (d : ℕ) → code c ≡ b'0' + d → digit c ≡ d
    digit_of c d e = omega arith

scan_last :
    (n m : ℕ) (out : String)
    → m * 10 + n % 10 ≡ n
    → n < 18_446_744_073_709_551_616
    → scan (String.◌∷◌ (digit_char (n % 10)) out) m ≡ scan out n
scan_last n m out e h =
    scan_digit (digit_char (n % 10)) (n % 10) m out (code-digit_char (n % 10) (omega arith))
      (omega arith) (omega arith)
    ∙ ap (scan out) e

scan-digits :
    (k n : ℕ) (out : String)
    → n < bound k
    → n < 18_446_744_073_709_551_616
    → scan (digits k n out) 0 ≡ scan out n
unfolding digits
scan-digits zero n out h b = scan_last n 0 out (omega arith) b
scan-digits (suc k) n out h b = elim (Bool-cases (ltb n 10)) [
  | inl q ↦ rw (q, digits) (scan_last n 0 out (ground arith) b)
  | inr q ↦
      rw (q, digits)
        (scan-digits k (n / 10) _ (omega arith) (omega arith)
          ∙ scan_last n (n / 10) out (omega arith) b)
]

digits-IsCons : (k n : ℕ) (out : String) → IsCons (digits k n out)
unfolding digits
digits-IsCons zero n out = tt
digits-IsCons (suc k) n out = elim (Bool-cases (ltb n 10)) [
  | inl q ↦ rw (q, digits) tt
  | inr q ↦ rw (q, digits) (digits-IsCons k (n / 10) _)
]

scan_all-scan : (s : String) → IsCons s → scan_all s ≡ scan s 0
unfolding scan_all
scan_all-scan String.[] h = absurd h
scan_all-scan (String.◌∷◌ c s) h = refl

-- A 64-bit number is read back from what is printed of it.
pub parse_uint-format_uint :
    (n : ℕ) → n < 18_446_744_073_709_551_616 → parse_uint (format_uint n) ≡ some n
unfolding format_uint scan
parse_uint-format_uint n h =
    ap value? (scan_all-scan _ (digits-IsCons 19 n "") ∙ scan-digits 19 n "" (omega arith) h)
