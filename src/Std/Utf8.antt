-- ===== src/Std/Utf8.antt =====
-- `std::str::from_utf8`: well-formed UTF-8 by the table of the Unicode standard.
use sepp.Prelude.{
  ℕ, zero, suc, ◌≡◌, refl, Bool, true, false, ◌&&◌, [], ◌∷◌, Option, none, some, ltb, leb,
  if◌then◌else◌, ◌==◌,
}
use sepp.Std.Bytes.{Bytes, Text}

-- What must follow a first byte: how many continuation bytes, and the range of the first of them.
lead : ℕ → Option (ℕ × ℕ × ℕ)
lead b =
    if ltb b 0x80
    then some (0, 0x80, 0xbf)
    else if ltb b 0xc2
    then none
    else if ltb b 0xe0
    then some (1, 0x80, 0xbf)
    else if b == 0xe0
    then some (2, 0xa0, 0xbf)
    else if b == 0xed
    then some (2, 0x80, 0x9f)
    else if ltb b 0xf0
    then some (2, 0x80, 0xbf)
    else if b == 0xf0
    then some (3, 0x90, 0xbf)
    else if ltb b 0xf4
    then some (3, 0x80, 0xbf)
    else if b == 0xf4
    then some (3, 0x80, 0x8f)
    else none

-- The continuation bytes still due and the range of the next one are carried along.
follow : ℕ → ℕ → ℕ → Bytes → Bool
unfolding lead
follow zero lo hi [] = true
follow (suc due) lo hi [] = false
follow zero lo hi (b ∷ bs) = elim (lead b) [
  | none ↦ false
  | some (due, lo', hi') ↦ follow due lo' hi' bs
]
follow (suc due) lo hi (b ∷ bs) = leb lo b && leb b hi && follow due 0x80 0xbf bs

unfoldable pub is_utf8 : Bytes → Bool
unfolding follow
is_utf8 bs = follow 0 0x80 0xbf bs

unfoldable pub from_utf8 : Bytes → Option Text
unfolding is_utf8
from_utf8 bs = if is_utf8 bs then some bs else none

if_some : (b : Bool) (x t : Bytes) → (if b then some x else none) ≡ some t → (t ≡ x) × (b ≡ true)
if_some true x t h = (cc, refl)
if_some false x t h = cc

abbrev pub IsUtf8 : Bytes → Type 0
IsUtf8 bs = is_utf8 bs ≡ true

pub from_utf8-some : (bs : Bytes) → IsUtf8 bs → from_utf8 bs ≡ some bs
unfolding from_utf8
from_utf8-some bs h = rw h

pub from_utf8_sound : (bs t : Bytes) → from_utf8 bs ≡ some t → (t ≡ bs) × IsUtf8 bs
unfolding from_utf8
from_utf8_sound bs t h = if_some (is_utf8 bs) bs t h

-- U+00E9, then a truncated and an overlong sequence.
accepts_utf8 : is_utf8 (0xc3 ∷ 0xa9 ∷ []) ≡ true
unfolding is_utf8
accepts_utf8 = refl

rejects_truncated : is_utf8 (0xc3 ∷ []) ≡ false
unfolding is_utf8
rejects_truncated = refl

rejects_overlong : is_utf8 (0xe0 ∷ 0x80 ∷ 0xaf ∷ []) ≡ false
unfolding is_utf8
rejects_overlong = refl
