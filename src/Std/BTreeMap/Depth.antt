-- ===== src/Std/BTreeMap/Depth.antt =====
-- Counting the entries of a `BTreeMap` that belong to one queue, and what `insert` and `remove` do
-- to the count.
use sepp.Prelude.{
  ℕ, ◌+◌, Ordering, ◌≡◌, refl, Bool, true, false, [], ◌∷◌, Option, none, some, arith,
}
use sepp.Std.Bytes.{Bytes, Text, cmp, ◌=ᵇ◌, =ᵇ_iff, eq_of_cmp, cmp_trans, cmp_refl}
use sepp.Std.BTreeMap.{BTreeMap, get, insert, remove, IsAbove, IsSorted}

abbrev pub one_if : Bool → ℕ
one_if true = 1
one_if false = 0

-- Whether an owner that may be absent is the queue.
abbrev pub owns : Text → Option Text → Bool
owns q none = false
owns q (some p) = p =ᵇ q

module _ {ℓ} {V : Type ℓ} where
  pub get_below : (k : Bytes) (m : BTreeMap V) → IsAbove k m → get m k ≡ none
  unfolding get
  get_below k [] h = refl
  get_below k ((j, w) ∷ m) h = ground (arith, get_below k m h.1, =ᵇ_iff j k, cmp_refl k)

  pub get_before :
      (k j : Bytes) (m : BTreeMap V) → cmp k j ≡ Ordering.lt → IsAbove j m → get m k ≡ none
  unfolding get
  get_before k j [] h t = refl
  get_before k j ((i, w) ∷ m) h t =
      ground (arith, get_before k j m h t.1, =ᵇ_iff i k, cmp_refl k, cmp_trans k j i h t.0)

module _ {ℓ} {V : Type ℓ} (owner : Bytes → V → Option Text) (q : Text) where
  -- The number of entries whose owner is `q`.
  unfoldable pub depth : BTreeMap V → ℕ
  depth [] = 0
  depth ((k, v) ∷ m) = one_if (owns q (owner k v)) + depth m

  pub depth-insert_new :
      (m : BTreeMap V) (k : Bytes) (v : V)
      → get m k ≡ none
      → depth (insert m k v) ≡ one_if (owns q (owner k v)) + depth m
  unfolding depth get insert
  depth-insert_new [] k v e = refl
  depth-insert_new ((j, w) ∷ m) k v e =
      ground (arith, depth-insert_new m k v, =ᵇ_iff j k, eq_of_cmp k j)

  pub depth-insert_old :
      (m : BTreeMap V) (k : Bytes) (v w : V)
      → IsSorted m
      → get m k ≡ some w
      → depth (insert m k v) + one_if (owns q (owner k w)) ≡ one_if (owns q (owner k v)) + depth m
  unfolding depth get insert
  depth-insert_old [] k v w s e = cc
  depth-insert_old ((j, x) ∷ m) k v w s e =
      ground (
        arith,
        depth-insert_old m k v w s.1,
        =ᵇ_iff j k,
        eq_of_cmp k j,
        cmp_refl k,
        get_before k j m,
      )

  depth-remove_absent : (m : BTreeMap V) (k : Bytes) → get m k ≡ none → depth (remove m k) ≡ depth m
  unfolding depth get remove
  depth-remove_absent [] k e = refl
  depth-remove_absent ((j, x) ∷ m) k e = ground (arith, depth-remove_absent m k)

  pub depth-remove :
      (m : BTreeMap V) (k : Bytes) (w : V)
      → IsSorted m
      → get m k ≡ some w
      → depth (remove m k) + one_if (owns q (owner k w)) ≡ depth m
  unfolding depth get remove
  depth-remove [] k w s e = cc
  depth-remove ((j, x) ∷ m) k w s e =
      ground (arith, depth-remove m k w s.1, =ᵇ_iff j k, get_below j m s.0, depth-remove_absent m k)
