-- ===== src/Prelude/Int.antt =====
-- Signed integers over the native numbers, and Rust's `i64` arithmetic on them. A value of type
-- `i64` is an integer in the range; every operation below that could leave it saturates.
use Prim.Native.Nat.{ℕ, suc, ◌+◌, ◌-◌, ◌^◌, ◌≤◌, ◌<◌, ◌*◌, min}
use mathlib.Core.Bool.{Bool}
use native.Mathlib.Omega.{arith}
use sepp.Prelude.Tests.{ltb, leb, if◌then◌else◌}

-- `negsuc n` is -(n + 1).
pub data ℤ : Type 0 where
  pos : ℕ → ℤ
  negsuc : ℕ → ℤ

abbrev pub pos_part : ℤ → ℕ
pos_part (pos n) = n
pos_part (negsuc n) = 0

abbrev pub neg_part : ℤ → ℕ
neg_part (pos n) = 0
neg_part (negsuc n) = suc n

abbrev pub sub_ℕ : ℕ → ℕ → ℤ
sub_ℕ a b = if leb b a then pos (a - b) else negsuc (b - a - 1)

infixl 65 ◌+ℤ◌
infix 50 ◌≤ℤ◌ ◌<ℤ◌
abbrev pub ◌+ℤ◌ : ℤ → ℤ → ℤ
a +ℤ b = sub_ℕ (pos_part a + pos_part b) (neg_part a + neg_part b)

abbrev pub ◌≤ℤ◌ : ℤ → ℤ → Type 0
a ≤ℤ b = pos_part a + neg_part b ≤ pos_part b + neg_part a

abbrev pub ◌<ℤ◌ : ℤ → ℤ → Type 0
a <ℤ b = pos_part a + neg_part b < pos_part b + neg_part a

abbrev pub ltb_ℤ : ℤ → ℤ → Bool
ltb_ℤ a b = ltb (pos_part a + neg_part b) (pos_part b + neg_part a)

abbrev pub leb_ℤ : ℤ → ℤ → Bool
leb_ℤ a b = leb (pos_part a + neg_part b) (pos_part b + neg_part a)

-- `i64::MAX` is 2^63 - 1 and `i64::MIN` is -2^63.
abbrev pub i64_max : ℕ
i64_max = 2 ^ 63 - 1

abbrev pub IsI64 : ℤ → Type 0
IsI64 (pos n) = n < 2 ^ 63
IsI64 (negsuc n) = n < 2 ^ 63

abbrev pub saturate : ℤ → ℤ
saturate (pos n) = if leb n i64_max then pos n else pos i64_max
saturate (negsuc n) = if leb n i64_max then negsuc n else negsuc i64_max

-- `a.saturating_add(b)`.
unfoldable pub saturating_add : ℤ → ℤ → ℤ
saturating_add a b = saturate (a +ℤ b)

-- `i64::try_from(n).unwrap_or(i64::MAX)` of a `u64`.
unfoldable pub i64_of_u64 : ℕ → ℤ
i64_of_u64 n = if leb n i64_max then pos n else pos i64_max

-- `u64`: the saturating operations.
abbrev pub u64_max : ℕ
u64_max = 2 ^ 64 - 1

abbrev pub saturating_add_u64 : ℕ → ℕ → ℕ
saturating_add_u64 a b = min (a + b) u64_max

abbrev pub saturating_mul_u64 : ℕ → ℕ → ℕ
saturating_mul_u64 a b = min (a * b) u64_max

abbrev pub saturating_pow_u64 : ℕ → ℕ → ℕ
saturating_pow_u64 a b = min (a ^ b) u64_max

pub saturating_add-IsI64 : (a b : ℤ) → IsI64 (saturating_add a b)
unfolding saturating_add
saturating_add-IsI64 a b = ground arith

pub i64_of_u64-IsI64 : (n : ℕ) → IsI64 (i64_of_u64 n)
unfolding i64_of_u64
i64_of_u64-IsI64 n = ground arith

-- The sum with a non-negative number of milliseconds is not below the first operand.
pub le-saturating_add : (a : ℤ) (n : ℕ) → IsI64 a → a ≤ℤ saturating_add a (i64_of_u64 n)
unfolding saturating_add i64_of_u64
le-saturating_add (pos a) n h = ground arith
le-saturating_add (negsuc a) n h = ground arith
