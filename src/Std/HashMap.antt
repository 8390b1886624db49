-- ===== src/Std/HashMap.antt =====
-- `HashMap<K, V>` as an association list. The program never depends on the order of its entries.
use text.Mathlib.Text.{◌==◌ as str_eq}
use text.Mathlib.TextEquality.{eq_iff}
use sepp.Prelude.{
  String, ap, ◌&&◌, ◌≡◌, refl, ◌↔◌, Bool, true, List, [], ◌∷◌, Option, none, some, if◌then◌else◌,
  arith,
}
use sepp.Prelude.{Bool-cases, inl, inr}
use sepp.Std.Bytes.{Bytes, ◌=ᵇ◌, =ᵇ_iff}

pub record Eq {ℓ} (A : Type ℓ) : Type ℓ where
  pub eq : A → A → Bool
  pub eq_iff : (a b : A) → (eq a b ≡ true) ↔ (a ≡ b)

instance abbrev pub bytes_eq : Eq Bytes
bytes_eq = record { eq = ◌=ᵇ◌; eq_iff = =ᵇ_iff }

abbrev pub HashMap {ℓ κ} : Type ℓ → Type κ → Type (ℓ ⊔ κ)
HashMap K V = List (K × V)

module _ {ℓ κ} {K : Type ℓ} {V : Type κ} ⦃e : Eq K⦄ where
  unfoldable pub get : HashMap K V → K → Option V
  get [] k = none
  get ((j, v) ∷ m) k = if e.eq j k then some v else get m k

  unfoldable pub insert : HashMap K V → K → V → HashMap K V
  insert [] k v = (k, v) ∷ []
  insert ((j, w) ∷ m) k v = if e.eq j k then (k, v) ∷ m else (j, w) ∷ insert m k v

  unfoldable pub remove : HashMap K V → K → HashMap K V
  remove [] k = []
  remove ((j, w) ∷ m) k = let rest = remove m k in if e.eq j k then rest else (j, w) ∷ rest

  pub get-insert :
      (m : HashMap K V) (k j : K) (v : V)
      → get (insert m k v) j ≡ (if e.eq k j then some v else get m j)
  unfolding get insert
  get-insert [] k j v = refl
  get-insert ((i, w) ∷ m) k j v =
      ground (arith, get-insert m k j v, e.eq_iff i k, e.eq_iff i j, e.eq_iff k j)

  pub get-remove :
      (m : HashMap K V) (k j : K) → get (remove m k) j ≡ (if e.eq k j then none else get m j)
  unfolding get remove
  get-remove [] k j = ground arith
  get-remove ((i, w) ∷ m) k j =
      ground (arith, get-remove m k j, e.eq_iff i k, e.eq_iff i j, e.eq_iff k j)

  -- No key stands twice.
  abbrev pub IsMap : HashMap K V → Type (ℓ ⊔ κ)
  IsMap [] = Unit
  IsMap ((k, v) ∷ m) = (get m k ≡ none) × IsMap m

  pub insert-IsMap : (m : HashMap K V) (k : K) (v : V) → IsMap m → IsMap (insert m k v)
  unfolding insert get
  insert-IsMap [] k v h = (refl, tt)
  insert-IsMap ((j, w) ∷ m) k v h = elim (Bool-cases (e.eq j k)) [
    | inl same ↦ rw (same, ← (e.eq_iff j k).0 same) h
    | inr other ↦ rw (other) (
      rw (get-insert m k j v) (ground (arith, e.eq_iff j k, e.eq_iff k j, h.0)),
      insert-IsMap m k v h.1,
    )
  ]

  pub remove-IsMap : (m : HashMap K V) (k : K) → IsMap m → IsMap (remove m k)
  unfolding remove get
  remove-IsMap [] k h = tt
  remove-IsMap ((j, w) ∷ m) k h = elim (Bool-cases (e.eq j k)) [
    | inl same ↦ rw same (remove-IsMap m k h.1)
    | inr other ↦ rw other (rw (get-remove m k j) (ground (arith, h.0)), remove-IsMap m k h.1)
  ]

-- Keys that pair a text with a static string.
pub pair_iff : (a b : Bytes × String) → ((a.0 =ᵇ b.0 && str_eq a.1 b.1) ≡ true) ↔ (a ≡ b)
pair_iff (a, s) (b, t) = (
  λ h. ground (arith, =ᵇ_iff a b, eq_iff s t),
  λ e. ground (
    arith,
    =ᵇ_iff a b,
    eq_iff s t,
    ap {B = Bytes} (λ (p : Bytes × String). p.0) e,
    ap {B = String} (λ (p : Bytes × String). p.1) e,
  ),
)

instance abbrev pub labelled_eq : Eq (Bytes × String)
labelled_eq = record { eq = λ a b. a.0 =ᵇ b.0 && str_eq a.1 b.1; eq_iff = pair_iff }
