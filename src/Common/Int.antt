-- ===== src/Common/Int.antt =====
-- Signed integers over the native numbers, and the wrap-around of an `i64`.
use Prim.Native.Nat.{ℕ, suc, ◌+◌, ◌-◌, ◌^◌, ◌%◌, ◌≤◌, ◌<◌}
use mathlib.Core.Path.{◌≡◌}
use mathlib.Core.Bool.{Bool}
use native.Mathlib.Omega.{arith}
use briska_blast.Common.Tests.{ltb, leb, if◌then◌else◌}

-- `negsuc n` is -(n + 1).
pub data ℤ : Type 0 where
  pos : ℕ → ℤ
  negsuc : ℕ → ℤ

abbrev pub pos_part : ℤ → ℕ
pos_part (pos n) = n
pos_part (negsuc n) = 0

abbrev pub neg_part : ℤ → ℕ
neg_part (pos n) = 0
neg_part (negsuc n) = suc n

abbrev pub sub_ℕ : ℕ → ℕ → ℤ
sub_ℕ a b = if leb b a then pos (a - b) else negsuc (b - a - 1)

infixl 65 ◌+ℤ◌
unfoldable pub ◌+ℤ◌ : ℤ → ℤ → ℤ
a +ℤ b = sub_ℕ (pos_part a + pos_part b) (neg_part a + neg_part b)

infix 50 ◌≤ℤ◌ ◌<ℤ◌
abbrev pub ◌≤ℤ◌ : ℤ → ℤ → Type 0
a ≤ℤ b = pos_part a + neg_part b ≤ pos_part b + neg_part a

abbrev pub ◌<ℤ◌ : ℤ → ℤ → Type 0
a <ℤ b = pos_part a + neg_part b < pos_part b + neg_part a

abbrev pub ltb_ℤ : ℤ → ℤ → Bool
ltb_ℤ a b = ltb (pos_part a + neg_part b) (pos_part b + neg_part a)

abbrev pub leb_ℤ : ℤ → ℤ → Bool
leb_ℤ a b = leb (pos_part a + neg_part b) (pos_part b + neg_part a)

-- `i64::min` and `i64::max`.
abbrev pub min_ℤ : ℤ → ℤ → ℤ
min_ℤ a b = if leb_ℤ a b then a else b

abbrev pub max_ℤ : ℤ → ℤ → ℤ
max_ℤ a b = if leb_ℤ a b then b else a

-- The residue of an integer modulo 2 ^ 64, and the `i64` that has a given residue.
abbrev pub residue64 : ℤ → ℕ
residue64 (pos n) = n % 2 ^ 64
residue64 (negsuc n) = 2 ^ 64 - 1 - n % 2 ^ 64

abbrev pub of_residue64 : ℕ → ℤ
of_residue64 r = if ltb r (2 ^ 63) then pos r else negsuc (2 ^ 64 - 1 - r)

-- Two's complement, as a release build computes.
unfoldable pub wrap_i64 : ℤ → ℤ
wrap_i64 a = of_residue64 (residue64 a)

abbrev pub i64_max : ℕ
i64_max = 2 ^ 63 - 1

abbrev pub IsI64 : ℤ → Type 0
IsI64 a = (pos_part a ≤ i64_max) × (neg_part a ≤ 2 ^ 63)

pub wrap_i64-IsI64 : (a : ℤ) → IsI64 (wrap_i64 a)
unfolding wrap_i64
wrap_i64-IsI64 a = ground arith

-- A value in range is its own wrap.
pub wrap_i64_in_range : (a : ℤ) → IsI64 a → wrap_i64 a ≡ a
unfolding wrap_i64
wrap_i64_in_range a h = ground arith
