-- ===== src/Keys/Writer.antt =====
-- `KeyWriter` of src/keys.rs. Each method appends bytes to the buffer; these are the bytes appended.
use sepp.Prelude.{ℕ, ◌%◌, ◌^◌, [], ◌∷◌, ◌++◌, length}
use sepp.Prelude.Int.{ℤ}
use sepp.Std.Bytes.{Bytes}
use sepp.Std.BigEndian.{u16_to_be, u32_to_be, i64_to_be}

unfoldable pub u8 : ℕ → Bytes
u8 v = v ∷ []

unfoldable pub u32 : ℕ → Bytes
u32 v = u32_to_be v

unfoldable pub i64 : ℤ → Bytes
i64 v = i64_to_be v

-- The length is cast to a `u16`, which drops its high bits.
unfoldable pub prefixed : Bytes → Bytes
prefixed bytes = u16_to_be (length bytes % 2 ^ 16) ++ bytes
