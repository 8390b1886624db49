-- ===== src/Std/BTreeMap.antt =====
-- `BTreeMap<Vec<u8>, V>`: the entries in ascending order of their keys.
pub mod Depth
use sepp.Prelude.{Ordering, ◌≡◌, List, [], ◌∷◌, Option, none, some, if◌then◌else◌, arith, refl}
use sepp.Std.Bytes.{cmp_refl, cmp_trans, Bytes, cmp, ◌=ᵇ◌, =ᵇ_iff, eq_of_cmp, cmp-flip, cmp_trans}

abbrev pub BTreeMap {ℓ} : Type ℓ → Type ℓ
BTreeMap V = List (Bytes × V)

module _ {ℓ} {V : Type ℓ} where
  unfoldable pub get : BTreeMap V → Bytes → Option V
  get [] k = none
  get ((j, v) ∷ m) k = if j =ᵇ k then some v else get m k

  -- `insert` puts a new entry at its place in the order, and overwrites an old one.
  unfoldable pub insert : BTreeMap V → Bytes → V → BTreeMap V
  insert [] k v = (k, v) ∷ []
  insert ((j, w) ∷ m) k v = elim (cmp k j) [
    | Ordering.lt ↦ (k, v) ∷ (j, w) ∷ m
    | Ordering.eq ↦ (k, v) ∷ m
    | Ordering.gt ↦ (j, w) ∷ insert m k v
  ]

  unfoldable pub remove : BTreeMap V → Bytes → BTreeMap V
  remove [] k = []
  remove ((j, w) ∷ m) k = let rest = remove m k in if j =ᵇ k then rest else (j, w) ∷ rest

  -- `range(lo..)`: the entries from the first key that is not below `lo`.
  unfoldable pub range_from : BTreeMap V → Bytes → BTreeMap V
  range_from [] lo = []
  range_from ((j, w) ∷ m) lo = elim (cmp j lo) [ Ordering.lt ↦ range_from m lo | _ ↦ (j, w) ∷ m ]

  -- The invariant of the representation.
  abbrev pub IsAbove : Bytes → BTreeMap V → Type 0
  IsAbove k [] = Unit
  IsAbove k ((j, w) ∷ m) = (cmp k j ≡ Ordering.lt) × IsAbove k m

  abbrev pub IsSorted : BTreeMap V → Type 0
  IsSorted [] = Unit
  IsSorted ((j, w) ∷ m) = IsAbove j m × IsSorted m

  pub get-insert :
      (m : BTreeMap V) (k j : Bytes) (v : V)
      → get (insert m k v) j ≡ (if k =ᵇ j then some v else get m j)
  unfolding get insert
  get-insert [] k j v = refl
  get-insert ((i, w) ∷ m) k j v =
      ground (arith, get-insert m k j v, eq_of_cmp k i, cmp_refl k, =ᵇ_iff i j, =ᵇ_iff k j)

  pub get-remove :
      (m : BTreeMap V) (k j : Bytes) → get (remove m k) j ≡ (if k =ᵇ j then none else get m j)
  unfolding get remove
  get-remove [] k j = ground arith
  get-remove ((i, w) ∷ m) k j = ground (arith, get-remove m k j, =ᵇ_iff i k, =ᵇ_iff i j, =ᵇ_iff k j)

  IsAbove-trans : (a b : Bytes) (m : BTreeMap V) → cmp a b ≡ Ordering.lt → IsAbove b m → IsAbove a m
  IsAbove-trans a b [] h t = tt
  IsAbove-trans a b ((j, w) ∷ m) h t = (cmp_trans a b j h t.0, IsAbove-trans a b m h t.1)

  insert-IsAbove :
      (m : BTreeMap V) (a k : Bytes) (v : V)
      → cmp a k ≡ Ordering.lt
      → IsAbove a m
      → IsAbove a (insert m k v)
  unfolding insert
  insert-IsAbove [] a k v h t = (h, tt)
  insert-IsAbove ((j, w) ∷ m) a k v h t = ground (arith, insert-IsAbove m a k v h t.1)

  pub insert-IsSorted : (m : BTreeMap V) (k : Bytes) (v : V) → IsSorted m → IsSorted (insert m k v)
  unfolding insert
  insert-IsSorted [] k v s = (tt, tt)
  insert-IsSorted ((j, w) ∷ m) k v s = ground (
    arith,
    insert-IsSorted m k v s.1,
    IsAbove-trans k j m,
    eq_of_cmp k j,
    cmp-flip k j,
    insert-IsAbove m j k v,
  )

  remove-IsAbove : (m : BTreeMap V) (a k : Bytes) → IsAbove a m → IsAbove a (remove m k)
  unfolding remove
  remove-IsAbove [] a k t = tt
  remove-IsAbove ((j, w) ∷ m) a k t = ground (arith, remove-IsAbove m a k t.1)

  pub remove-IsSorted : (m : BTreeMap V) (k : Bytes) → IsSorted m → IsSorted (remove m k)
  unfolding remove
  remove-IsSorted [] k s = tt
  remove-IsSorted ((j, w) ∷ m) k s =
      ground (arith, remove-IsSorted m k s.1, remove-IsAbove m j k s.0)
