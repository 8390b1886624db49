-- ===== src/Std/BigEndian.antt =====
-- `to_be_bytes` and `from_be_bytes` of `u16`, `u32`, `u64` and `i64`. An `i64` is written in two's
-- complement.
use sepp.Prelude.{
  ◌∙◌, ℕ, zero, suc, ◌+◌, ◌-◌, ◌*◌, ◌/◌, ◌%◌, ◌^◌, ◌<◌, compare, ◌≡◌, refl, [], ◌∷◌, ◌++◌, arith,
  ltb, if◌then◌else◌, length, length-append, compare, refl,
}
use sepp.Prelude.Int.{ℤ, pos, negsuc, IsI64}
use native.Mathlib.Nat.{pow-suc}
use sepp.Std.Bytes.{Bytes, cmp, cmp-snoc}

-- The w low-order bytes of n, the most significant first.
unfoldable pub to_be : ℕ → ℕ → Bytes
to_be zero n = []
to_be (suc w) n = to_be w (n / 256) ++ (n % 256) ∷ []

-- The number that the bytes stand for, with those read so far in the accumulator.
unfoldable pub from_be : ℕ → Bytes → ℕ
from_be acc [] = acc
from_be acc (b ∷ bs) = from_be (acc * 256 + b) bs

abbrev pub u16_to_be : ℕ → Bytes
u16_to_be = to_be 2

abbrev pub u32_to_be : ℕ → Bytes
u32_to_be = to_be 4

abbrev pub u64_to_be : ℕ → Bytes
u64_to_be = to_be 8

-- The bit pattern of an `i64`, and the integer that a pattern stands for.
unfoldable pub i64_bits : ℤ → ℕ
i64_bits (pos n) = n
i64_bits (negsuc n) = 2 ^ 64 - 1 - n

unfoldable pub i64_of_bits : ℕ → ℤ
i64_of_bits b = if ltb b (2 ^ 63) then pos b else negsuc (2 ^ 64 - 1 - b)

abbrev pub i64_to_be : ℤ → Bytes
i64_to_be z = u64_to_be (i64_bits z)

abbrev pub i64_from_be : Bytes → ℤ
i64_from_be bs = i64_of_bits (from_be 0 bs)

pub i64_of_bits-i64_bits : (z : ℤ) → IsI64 z → i64_of_bits (i64_bits z) ≡ z
unfolding i64_bits i64_of_bits
i64_of_bits-i64_bits (pos n) h = ground arith
i64_of_bits-i64_bits (negsuc n) h = ground arith

pub i64_bits-lt : (z : ℤ) → IsI64 z → i64_bits z < 2 ^ 64
unfolding i64_bits
i64_bits-lt (pos n) h = omega arith
i64_bits-lt (negsuc n) h = omega arith

pub length-to_be : (w n : ℕ) → length (to_be w n) ≡ w
unfolding to_be
length-to_be zero n = refl
length-to_be (suc w) n =
    rw (length-append (to_be w (n / 256)) ((n % 256) ∷ []))
      (omega (arith, length-to_be w (n / 256)))

from_be-append : (acc : ℕ) (xs ys : Bytes) → from_be acc (xs ++ ys) ≡ from_be (from_be acc xs) ys
unfolding from_be
from_be-append acc [] ys = refl
from_be-append acc (x ∷ xs) ys = from_be-append (acc * 256 + x) xs ys

pub from_be-to_be : (w acc n : ℕ) → n < 256 ^ w → from_be acc (to_be w n) ≡ acc * 256 ^ w + n
unfolding to_be from_be
from_be-to_be zero acc n h = omega arith
from_be-to_be (suc w) acc n h =
    let h' : n < 256 ^ w * 256 = rw pow-suc at h in
    rw
      (
        from_be-append acc (to_be w (n / 256)) ((n % 256) ∷ []),
        pow-suc,
        from_be-to_be w acc (n / 256) (omega arith),
      )
      (omega arith)

-- Big-endian integers of one width are ordered as the numbers are.
pub cmp-to_be : (w a b : ℕ) → a < 256 ^ w → b < 256 ^ w → cmp (to_be w a) (to_be w b) ≡ compare a b
unfolding to_be cmp
cmp-to_be zero a b ha hb = ground arith
cmp-to_be (suc w) a b ha hb =
    let ha' : a < 256 ^ w * 256 = rw pow-suc at ha in
    let hb' : b < 256 ^ w * 256 = rw pow-suc at hb in
    rw
      (
        cmp-snoc (to_be w (a / 256)) (to_be w (b / 256)) (a % 256) (b % 256)
            (omega (arith, length-to_be w (a / 256), length-to_be w (b / 256))),
        cmp-to_be w (a / 256) (b / 256) (omega arith) (omega arith),
      )
      (ground arith)

zero_mul_add : (n : ℕ) → 0 * 256 ^ 8 + n ≡ n
zero_mul_add n = omega arith

-- An `i64` survives its eight bytes.
pub i64_from_be-i64_to_be : (z : ℤ) → IsI64 z → i64_from_be (i64_to_be z) ≡ z
i64_from_be-i64_to_be z h =
    let e : from_be 0 (i64_to_be z) ≡ i64_bits z =
      from_be-to_be 8 0 (i64_bits z) (i64_bits-lt z h) ∙ zero_mul_add (i64_bits z) in
    rw e (i64_of_bits-i64_bits z h)

pub u16_from_be-u16_to_be : (n : ℕ) → n < 2 ^ 16 → from_be 0 (u16_to_be n) ≡ n
u16_from_be-u16_to_be n h = rw (from_be-to_be 2 0 n (omega arith)) (omega arith)

pub u32_from_be-u32_to_be : (n : ℕ) → n < 2 ^ 32 → from_be 0 (u32_to_be n) ≡ n
u32_from_be-u32_to_be n h = rw (from_be-to_be 4 0 n (omega arith)) (omega arith)
