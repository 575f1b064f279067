-- ===== src/Prelude/Int.antt =====
-- Signed integers over the native numbers, under the library's names, and the conversions between
-- machine integers of the source: `int64_t` to `size_t`, and the casts to `int` and `int64_t`.
use Prim.Native.Nat.{ℕ, suc, ◌+◌, ◌-◌, ◌%◌, ◌^◌}
use mathlib.Core.Bool.{Bool, false}
use tiny_lobby_tests.Prelude.Tests.{ltb, eqb, if◌then◌else◌}

-- `negsuc n` is -(n + 1).
pub data ℤ : Type 0 where
  pos : ℕ → ℤ
  negsuc : ℕ → ℤ

abbrev pub pos_part : ℤ → ℕ
pos_part (pos n) = n
pos_part (negsuc n) = 0

abbrev pub neg_part : ℤ → ℕ
neg_part (pos n) = 0
neg_part (negsuc n) = suc n

abbrev pub ltb_ℤ : ℤ → ℤ → Bool
ltb_ℤ a b = ltb (pos_part a + neg_part b) (pos_part b + neg_part a)

abbrev pub eqb_ℤ : ℤ → ℤ → Bool
eqb_ℤ (pos a) (pos b) = eqb a b
eqb_ℤ (negsuc a) (negsuc b) = eqb a b
eqb_ℤ (pos a) (negsuc b) = false
eqb_ℤ (negsuc a) (pos b) = false

-- The bit pattern of an integer in w bits.
abbrev pub to_word : ℕ → ℤ → ℕ
to_word w (pos n) = n % 2 ^ w
to_word w (negsuc n) = 2 ^ w - 1 - n % 2 ^ w

-- The integer of a bit pattern of w + 1 bits, in two's complement.
abbrev pub of_word : ℕ → ℕ → ℤ
of_word w n = if ltb n (2 ^ w) then pos n else negsuc (2 ^ suc w - 1 - n)

-- A comparison of an `int64_t` with a `size_t` converts the first to 64 bits without sign.
abbrev pub to_u64 : ℤ → ℕ
to_u64 = to_word 64

abbrev pub cast_i64 : ℤ → ℤ
cast_i64 z = of_word 63 (to_word 64 z)

abbrev pub cast_i32 : ℤ → ℤ
cast_i32 z = of_word 31 (to_word 32 z)
