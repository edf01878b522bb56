-- ===== src/Export/Frames.antt =====
-- builder.go: frames of the export, which count from 0, and the size of a gap.
use ocap2_extension.Prelude.{
  ℕ, ℤ, pos, negsuc, pos_part, neg_part, int_of_word, ◌+◌, ◌-◌, ◌%◌, suc, zero, nat_beq,
  if◌then◌else◌, ◌≡◌, refl, ◌<◌, arith,
}
use ocap2_extension.Core.{Frame}

abbrev pub word_mod : ℕ
word_mod = 18_446_744_073_709_551_616

abbrev pub max_int : ℕ
max_int = 9_223_372_036_854_775_807

-- `int(f) - 1`, with Go's wrap-around
unfoldable pub frame_to_v1 : Frame → ℤ
frame_to_v1 f = int_of_word ((f + (word_mod - 1)) % word_mod)

-- `i - 1` on an `int`
abbrev pub dec : ℤ → ℤ
dec (pos zero) = negsuc 0
dec (pos (suc n)) = pos n
dec (negsuc n) = if nat_beq n max_int then pos max_int else negsuc (n + 1)

-- How often `for f := a; f <= b; f++` runs its body (with `b` below the largest `int`).
abbrev pub rounds : ℤ → ℤ → ℕ
rounds a b = (pos_part b + neg_part a + 1) - (pos_part a + neg_part b)

-- A recorded frame exports as the number before it, and the unset frame as -1.
pub frame_to_v1-suc : (f : ℕ) → f < max_int → frame_to_v1 (suc f) ≡ pos f
unfolding frame_to_v1
frame_to_v1-suc f h = ground arith

pub frame_to_v1-zero : frame_to_v1 0 ≡ negsuc 0
unfolding frame_to_v1
frame_to_v1-zero = refl
