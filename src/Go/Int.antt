-- ===== src/Go/Int.antt =====
-- Signed machine integers: an int64 is kept as the integer that it stands for, and a difference
-- wraps around as Go's does.
use lanmon.Prelude.{ℕ, suc, ◌+◌, ◌-◌, ◌%◌, ◌^◌, ◌<◌, ltb, if◌then◌else◌}

-- `negsuc n` is -(n + 1).
pub data ℤ : Type 0 where
  pos : ℕ → ℤ
  negsuc : ℕ → ℤ

abbrev pub word : ℕ
word = 2 ^ 64

abbrev pub IsInt64 : ℤ → Type 0
IsInt64 (pos n) = n < 2 ^ 63
IsInt64 (negsuc n) = n < 2 ^ 63

-- The two's complement pattern.
abbrev pub bits : ℤ → ℕ
bits (pos n) = n % word
bits (negsuc n) = word - 1 - n % word

abbrev pub signed : ℕ → ℤ
signed w = if ltb w (2 ^ 63) then pos w else negsuc (word - 1 - w)

-- `a - b` on int64.
unfoldable pub sub64 : ℤ → ℤ → ℤ
sub64 a b = signed ((bits a + word - bits b) % word)

-- `math.Abs(float64(z))`, for a comparison with a small integer: rounding to float64 is monotone
-- and exact on small integers, so the comparison comes out as it does on the integers.
abbrev pub magnitude : ℤ → ℕ
magnitude (pos n) = n
magnitude (negsuc n) = suc n
