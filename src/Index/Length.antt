-- ===== src/Index/Length.antt =====
-- How many keys `ReadyIndex::pop_front` of src/storage.rs leaves.
use sepp.Prelude.{
  ℕ, suc, ◌≤◌, ◌≡◌, [], ◌∷◌, Option, none, some, arith, length, Option-cases, inl, inr,
}
use sepp.Std.Bytes.{Bytes}
use sepp.Std.BTreeMap
use sepp.Std.BTreeMap.{BTreeMap}
use sepp.Index.{ReadyIndex, pop_key, pop_front, first_of_prefix}

length-remove : (m : BTreeMap ℕ) (k : Bytes) → length (BTreeMap.remove m k) ≤ length m
unfolding BTreeMap.remove
length-remove [] k = omega arith
length-remove ((j, w) ∷ m) k = ground (arith, length-remove m k)

length-remove_present :
    (m : BTreeMap ℕ) (k : Bytes) (a : ℕ)
    → BTreeMap.get m k ≡ some a
    → suc (length (BTreeMap.remove m k)) ≤ length m
unfolding BTreeMap.remove BTreeMap.get
length-remove_present [] k a e = cc
length-remove_present ((j, w) ∷ m) k a e =
    ground (arith, length-remove m k, length-remove_present m k a)

-- A key that is popped is one key fewer.
abbrev pub Shrinks : ReadyIndex → Option (Bytes × ℕ) × ReadyIndex → Type 0
Shrinks ix (none, ix') = Unit
Shrinks ix (some e, ix') = suc (length ix'.keys) ≤ length ix.keys

pop_key-Shrinks : (ix : ReadyIndex) (k : Option Bytes) → Shrinks ix (pop_key ix k)
unfolding pop_key
pop_key-Shrinks ix none = tt
pop_key-Shrinks ix (some k) = elim (Option-cases (BTreeMap.get ix.keys k)) [
  | inl e ↦ rw (e, pop_key) tt
  | inr (a, e) ↦ rw (e, pop_key) (length-remove_present ix.keys k a e)
]

pub pop_front-Shrinks : (ix : ReadyIndex) (p : Bytes) → Shrinks ix (pop_front ix p)
unfolding pop_front
pop_front-Shrinks ix p = pop_key-Shrinks ix (first_of_prefix (BTreeMap.range_from ix.keys p) p)
