-- ===== src/Base/Int.antt =====
-- Go's signed 64-bit `int`, as the integer that it stands for; `negsuc n` is -(n + 1).
use Prim.Native.Nat.{ℕ, zero, suc, ◌+◌, ◌-◌}
use mathlib.Core.Bool.{Bool, true, false}
use purp_tape.Base.Tests.{ltb, leb, ◌==◌, if◌then◌else◌}

pub data ℤ : Type 0 where
  pos : ℕ → ℤ
  negsuc : ℕ → ℤ

abbrev pub max_int : ℕ
max_int = 0x7fff_ffff_ffff_ffff

-- n++, which wraps from the largest value to the smallest.
abbrev pub incr : ℤ → ℤ
incr (pos n) = if n == max_int then negsuc max_int else pos (n + 1)
incr (negsuc zero) = pos 0
incr (negsuc (suc n)) = negsuc n

-- a < b and a <= b
abbrev pub lt_int : ℤ → ℤ → Bool
lt_int (pos a) (pos b) = ltb a b
lt_int (pos a) (negsuc b) = false
lt_int (negsuc a) (pos b) = true
lt_int (negsuc a) (negsuc b) = ltb b a

abbrev pub le_int : ℤ → ℤ → Bool
le_int (pos a) (pos b) = leb a b
le_int (pos a) (negsuc b) = false
le_int (negsuc a) (pos b) = true
le_int (negsuc a) (negsuc b) = leb b a

abbrev pub pos_part : ℤ → ℕ
pos_part (pos n) = n
pos_part (negsuc n) = 0

-- The 64-bit value of an integer between -2^64 and 2^64 - 1.
abbrev pub wrap : ℤ → ℤ
wrap (pos n) = if leb n max_int then pos n else negsuc (max_int + max_int + 1 - n)
wrap (negsuc n) = if leb n max_int then negsuc n else pos (max_int + max_int + 1 - n)

abbrev pub neg_part : ℤ → ℕ
neg_part (pos n) = 0
neg_part (negsuc n) = n + 1

-- The difference of two naturals.
abbrev pub sub_ℕ : ℕ → ℕ → ℤ
sub_ℕ a b = if leb b a then pos (a - b) else negsuc (b - a - 1)

-- a - b on int
abbrev pub sub_int : ℤ → ℤ → ℤ
sub_int a b = wrap (sub_ℕ (pos_part a + neg_part b) (neg_part a + pos_part b))
