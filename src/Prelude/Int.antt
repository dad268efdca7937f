-- ===== src/Prelude/Int.antt =====
-- Signed integers over the native numbers: `int` amounts and `int64_t` column values.
use Prim.Native.Nat.{ℕ, suc, ◌+◌, ◌-◌, ◌%◌, ◌≤◌, ◌<◌}
use mathlib.Core.Path.{◌≡◌, refl}
use mathlib.Core.Bool.{Bool, true, false}
use native.Mathlib.Omega.{arith}
use recipes_core.Prelude.Tests.{ltb, ◌==◌, if◌then◌else◌}

-- `negsuc n` is -(n + 1).
pub data ℤ : Type 0 where
  pos : ℕ → ℤ
  negsuc : ℕ → ℤ

abbrev pub pos_part : ℤ → ℕ
pos_part (pos n) = n
pos_part (negsuc n) = 0

abbrev pub neg_part : ℤ → ℕ
neg_part (pos n) = 0
neg_part (negsuc n) = suc n

infix 50 ◌≤ℤ◌
abbrev pub ◌≤ℤ◌ : ℤ → ℤ → Type 0
a ≤ℤ b = pos_part a + neg_part b ≤ pos_part b + neg_part a

abbrev pub ltb_ℤ : ℤ → ℤ → Bool
ltb_ℤ a b = ltb (pos_part a + neg_part b) (pos_part b + neg_part a)

abbrev pub eq_ℤ : ℤ → ℤ → Bool
eq_ℤ (pos a) (pos b) = a == b
eq_ℤ (negsuc a) (negsuc b) = a == b
eq_ℤ a b = Bool.false

pub ltb_ℤ-eq_false : (a b : ℤ) → ltb_ℤ a b ≡ Bool.false → b ≤ℤ a
ltb_ℤ-eq_false a b h = ground arith

-- The values of a 32-bit `int`.
abbrev pub IsInt : ℤ → Type 0
IsInt (pos n) = n < 2147483648
IsInt (negsuc n) = n < 2147483648

-- The lower 32 bits of a column's value, as `sqlite3_column_int` takes them: with m below 2^32, the
-- value is m, or m - 2^32 from 2^31 on. The bits of -(n + 1) are those of n, inverted.
abbrev of_bits : ℕ → ℤ
of_bits m = if ltb m 2147483648 then pos m else negsuc (4294967295 - m)

unfoldable pub to_int : ℤ → ℤ
to_int (pos n) = of_bits (n % 4294967296)
to_int (negsuc n) = of_bits (4294967295 - n % 4294967296)

pub to_int-IsInt : (a : ℤ) → IsInt a → to_int a ≡ a
unfolding to_int
to_int-IsInt (pos n) h =
    let whole : n % 4294967296 ≡ n = omega arith in
    let low : ltb n 2147483648 ≡ true = ground arith in rw (whole, low) refl
to_int-IsInt (negsuc n) h =
    let whole : n % 4294967296 ≡ n = omega arith in
    let high : ltb (4294967295 - n) 2147483648 ≡ false = ground arith in
    let back : 4294967295 - (4294967295 - n) ≡ n = omega arith in rw (whole, high, back) refl
