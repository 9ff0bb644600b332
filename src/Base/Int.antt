-- ===== src/Base/Int.antt =====
-- Signed integers over the native numbers. Sums and orders go through the two parts of an integer,
-- which are numbers that the arithmetic tactics read.
use Prim.Native.Nat.{ℕ, suc, ◌+◌, ◌-◌, ◌≤◌, ◌<◌, ◌%◌, ◌^◌}
use mathlib.Core.Bool.{Bool}
use firecracker_shim.Base.Tests.{ltb, leb, if◌then◌else◌}

-- `negsuc n` is -(n + 1).
pub data ℤ : Type 0 where
  pos : ℕ → ℤ
  negsuc : ℕ → ℤ

abbrev pub pos_part : ℤ → ℕ
pos_part (pos n) = n
pos_part (negsuc n) = 0

abbrev pub neg_part : ℤ → ℕ
neg_part (pos n) = 0
neg_part (negsuc n) = suc n

-- a - b, as an integer.
abbrev pub sub_ℕ : ℕ → ℕ → ℤ
sub_ℕ a b = if leb b a then pos (a - b) else negsuc (b - a - 1)

infixl 65 ◌+ℤ◌ ◌-ℤ◌
infix 50 ◌≤ℤ◌ ◌<ℤ◌
unfoldable pub ◌+ℤ◌ : ℤ → ℤ → ℤ
a +ℤ b = sub_ℕ (pos_part a + pos_part b) (neg_part a + neg_part b)

unfoldable pub ◌-ℤ◌ : ℤ → ℤ → ℤ
a -ℤ b = sub_ℕ (pos_part a + neg_part b) (neg_part a + pos_part b)

abbrev pub ◌≤ℤ◌ : ℤ → ℤ → Type 0
a ≤ℤ b = pos_part a + neg_part b ≤ pos_part b + neg_part a

abbrev pub ◌<ℤ◌ : ℤ → ℤ → Type 0
a <ℤ b = pos_part a + neg_part b < pos_part b + neg_part a

abbrev pub leb_ℤ : ℤ → ℤ → Bool
leb_ℤ a b = leb (pos_part a + neg_part b) (pos_part b + neg_part a)

abbrev pub ltb_ℤ : ℤ → ℤ → Bool
ltb_ℤ a b = ltb (pos_part a + neg_part b) (pos_part b + neg_part a)

-- The value of a 64-bit pattern as an `int64`, and the pattern of an integer.
abbrev pub to_int64 : ℕ → ℤ
to_int64 n = if ltb n (2 ^ 63) then pos n else sub_ℕ n (2 ^ 64)

abbrev pub from_int64 : ℤ → ℕ
from_int64 (pos n) = n % 2 ^ 64
from_int64 (negsuc n) = 2 ^ 64 - 1 - n % 2 ^ 64

-- The wrap-around of an `int64` operation.
abbrev pub wrap64 : ℤ → ℤ
wrap64 a = to_int64 (from_int64 a)
