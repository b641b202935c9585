-- ===== src/Prelude/Int.antt =====
-- Signed integers over the native numbers, for the `i32` and `i64` of the source.
use Prim.Native.Nat.{ℕ, suc, ◌+◌, ◌-◌, ◌≤◌, ◌<◌, ◌%◌}
use mathlib.Core.Bool.{Bool}
use booking_backend.Prelude.Tests.{ltb, leb, if◌then◌else◌}

-- `negsuc n` is -(n + 1).
pub data ℤ : Type 0 where
  pos : ℕ → ℤ
  negsuc : ℕ → ℤ

abbrev pub pos_part : ℤ → ℕ
pos_part (pos n) = n
pos_part (negsuc n) = 0

abbrev pub neg_part : ℤ → ℕ
neg_part (pos n) = 0
neg_part (negsuc n) = suc n

abbrev pub ltb_ℤ : ℤ → ℤ → Bool
ltb_ℤ a b = ltb (pos_part a + neg_part b) (pos_part b + neg_part a)

abbrev pub leb_ℤ : ℤ → ℤ → Bool
leb_ℤ a b = leb (pos_part a + neg_part b) (pos_part b + neg_part a)

-- The range of an `i32`.
pub record IsI32 (a : ℤ) : Type 0 where
  pub above : neg_part a ≤ 2147483648
  pub below : pos_part a < 2147483648

abbrev pub usize_mod : ℕ
usize_mod = 18446744073709551616

-- `a as usize` for an `i32` on a 64-bit target: sign extension.
abbrev pub as_usize : ℤ → ℕ
as_usize (pos n) = n % usize_mod
as_usize (negsuc n) = usize_mod - 1 - n % usize_mod

-- `n as i32` for a `usize` or an `i64` that is not negative: the low 32 bits.
abbrev pub as_i32 : ℕ → ℤ
as_i32 n =
    if ltb (n % 4294967296) 2147483648
    then pos (n % 4294967296)
    else negsuc (4294967295 - n % 4294967296)
