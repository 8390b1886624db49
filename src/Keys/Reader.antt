-- ===== src/Keys/Reader.antt =====
-- `KeyReader` of src/keys.rs. The state is what is left of the bytes, `bytes[pos..]`; a read past
-- the end, or a text that is not UTF-8, gives none.
use mathlib.Core.List.{append_assoc}
use sepp.Prelude.{
  ℕ, ◌+◌, ◌%◌, ◌<◌, ◌^◌, ◌≡◌, refl, ap, ◌∙◌, [], ◌∷◌, ◌++◌, Option, none, some, if◌then◌else◌,
  arith, length, leb, le→leb, and_then, take-append, drop-append,
}
use sepp.Prelude
use sepp.Prelude.Int.{ℤ, IsI64}
use sepp.Std.Bytes.{Bytes, Text}
use sepp.Std.BigEndian.{
  from_be, i64_from_be, u16_to_be, u32_to_be, i64_to_be, i64_bits, length-to_be,
  i64_from_be-i64_to_be, u16_from_be-u16_to_be, u32_from_be-u32_to_be,
}
use sepp.Std.Utf8.{from_utf8, IsUtf8, from_utf8-some}
use sepp.Keys.Writer

abbrev pub Read : Type 0 → Type 0
Read A = Bytes → Option (A × Bytes)

continue : {A B : Type 0} → Option (A × Bytes) → (A → Read B) → Option (B × Bytes)
continue none f = none
continue (some (a, rest)) f = f a rest

infixl 10 ◌>>=◌ ◌>>◌
unfoldable pub ◌>>=◌ : {A B : Type 0} → Read A → (A → Read B) → Read B
unfolding continue
◌>>=◌ m f bytes = continue (m bytes) f

abbrev pub ◌>>◌ : {A B : Type 0} → Read A → Read B → Read B
m >> k = m >>= λ _. k

abbrev pub return : {A : Type 0} → A → Read A
return a bytes = some (a, bytes)

abbrev pub run : {A : Type 0} → Read A → Bytes → Option A
run m bytes = and_then (m bytes) (λ found. some found.0)

unfoldable pub take : ℕ → Read Bytes
take n bytes =
    if leb n (length bytes) then some (Prelude.take n bytes, Prelude.drop n bytes) else none

byte_of : Bytes → Read ℕ
byte_of [] rest = none
byte_of (b ∷ bs) rest = some (b, rest)

unfoldable pub u8 : Read ℕ
unfolding byte_of
u8 = do slice ← take 1; byte_of slice

unfoldable pub u32 : Read ℕ
u32 = do slice ← take 4; return (from_be 0 slice)

unfoldable pub i64 : Read ℤ
i64 = do slice ← take 8; return (i64_from_be slice)

unfoldable pub prefixed : Read Bytes
prefixed = do len ← take 2; take (from_be 0 len)

text_of : Bytes → Read Text
text_of bytes rest = and_then (from_utf8 bytes) (λ t. some (t, rest))

unfoldable pub prefixed_str : Read Text
unfolding text_of
prefixed_str = do bytes ← prefixed; text_of bytes

unfoldable pub tail : Read Bytes
tail bytes = some (bytes, [])

unfoldable pub tail_str : Read Text
unfolding text_of
tail_str bytes = text_of bytes []

-- A protobuf message, or a part of one, that takes up the rest of the bytes.
unfoldable pub message : {A : Type 0} → (Bytes → Option A) → Read A
message decode bytes = and_then (decode bytes) (λ a. some (a, []))

pub bind-some :
    {A B : Type 0} (m : Read A) (f : A → Read B) (bytes : Bytes) {a : A} {rest : Bytes}
    → m bytes ≡ some (a, rest)
    → (m >>= f) bytes ≡ f a rest
unfolding ◌>>=◌
bind-some m f bytes e = rw e

pub take_lem : (n : ℕ) (a rest : Bytes) → length a ≡ n → take n (a ++ rest) ≡ some (a, rest)
unfolding take
take_lem n a rest e =
    rw (← e, le→leb (length a) (length (a ++ rest)) (omega (arith, Prelude.length-append a rest)))
      (rw (take-append a rest, drop-append a rest))

-- Each reader takes back what the writer of its name wrote, and leaves the rest.
pub u8_lem : (v : ℕ) (rest : Bytes) → u8 (v ∷ rest) ≡ some (v, rest)
unfolding u8
u8_lem v rest = bind-some (take 1) byte_of (v ∷ rest) (take_lem 1 (v ∷ []) rest refl)

pub i64_lem : (z : ℤ) (rest : Bytes) → IsI64 z → i64 (Writer.i64 z ++ rest) ≡ some (z, rest)
unfolding i64 Writer.i64
i64_lem z rest h =
    bind-some (take 8) (λ slice. return (i64_from_be slice)) (i64_to_be z ++ rest)
      (take_lem 8 (i64_to_be z) rest (length-to_be 8 (i64_bits z)))
    ∙ ap (λ x. some (x, rest)) (i64_from_be-i64_to_be z h)

pub u32_lem : (n : ℕ) (rest : Bytes) → n < 2 ^ 32 → u32 (Writer.u32 n ++ rest) ≡ some (n, rest)
unfolding u32 Writer.u32
u32_lem n rest h =
    bind-some (take 4) (λ slice. return (from_be 0 slice)) (u32_to_be n ++ rest)
      (take_lem 4 (u32_to_be n) rest (length-to_be 4 n))
    ∙ ap (λ x. some (x, rest)) (u32_from_be-u32_to_be n h)

pub prefixed_lem :
    (a rest : Bytes) → length a < 2 ^ 16 → prefixed (Writer.prefixed a ++ rest) ≡ some (a, rest)
unfolding prefixed Writer.prefixed
prefixed_lem a rest h =
    let n : ℕ = length a % 2 ^ 16 in
    rw append_assoc (
      bind-some (take 2) (λ len. take (from_be 0 len)) (u16_to_be n ++ (a ++ rest))
        (take_lem 2 (u16_to_be n) (a ++ rest) (length-to_be 2 n))
      ∙ take_lem (from_be 0 (u16_to_be n)) a rest
          (omega (arith, u16_from_be-u16_to_be n (omega arith))))

pub prefixed_str_lem :
    (a rest : Bytes)
    → length a < 2 ^ 16
    → IsUtf8 a
    → prefixed_str (Writer.prefixed a ++ rest) ≡ some (a, rest)
unfolding prefixed_str text_of
prefixed_str_lem a rest h u =
    bind-some prefixed text_of (Writer.prefixed a ++ rest) (prefixed_lem a rest h)
    ∙ rw (from_utf8-some a u)

pub tail_str_lem : (a : Bytes) → IsUtf8 a → tail_str a ≡ some (a, [])
unfolding tail_str text_of
tail_str_lem a u = rw (from_utf8-some a u)

pub message_lem :
    {A : Type 0} (decode : Bytes → Option A) (bytes : Bytes) {a : A}
    → decode bytes ≡ some a
    → message decode bytes ≡ some (a, [])
unfolding message
message_lem decode bytes e = rw e
