-- ===== src/Std/Bytes.antt =====
-- Byte strings: `Vec<u8>` and `&[u8]`, ordered lexicographically as Rust orders them. A `String`
-- stands for its UTF-8 bytes.
use sepp.Prelude.{
  ℕ, compare, Ordering, ◌≡◌, refl, ◌↔◌, Bool, true, false, List, [], ◌∷◌, ◌++◌, arith, length, ◌≢◌,
}

abbrev pub Bytes : Type 0
Bytes = List ℕ

abbrev pub Text : Type 0
Text = Bytes

-- `a.cmp(b)` of byte slices.
unfoldable pub cmp : Bytes → Bytes → Ordering
cmp [] [] = Ordering.eq
cmp [] (y ∷ ys) = Ordering.lt
cmp (x ∷ xs) [] = Ordering.gt
cmp (x ∷ xs) (y ∷ ys) = elim (compare x y) [
  | Ordering.lt ↦ Ordering.lt
  | Ordering.eq ↦ cmp xs ys
  | Ordering.gt ↦ Ordering.gt
]

abbrev pub is_eq : Ordering → Bool
is_eq Ordering.lt = false
is_eq Ordering.eq = true
is_eq Ordering.gt = false

infix 50 ◌=ᵇ◌
-- `a == b` of byte slices and of strings.
unfoldable pub ◌=ᵇ◌ : Bytes → Bytes → Bool
a =ᵇ b = is_eq (cmp a b)

-- `a.starts_with(p)`.
unfoldable pub starts_with : Bytes → Bytes → Bool
starts_with a [] = true
starts_with [] (p ∷ ps) = false
starts_with (x ∷ xs) (p ∷ ps) = elim (compare x p) [ Ordering.eq ↦ starts_with xs ps | _ ↦ false ]

pub cmp_refl : (a : Bytes) → cmp a a ≡ Ordering.eq
unfolding cmp
cmp_refl [] = refl
cmp_refl (x ∷ xs) = ground (arith, cmp_refl xs)

pub eq_of_cmp : (a b : Bytes) → cmp a b ≡ Ordering.eq → a ≡ b
unfolding cmp
eq_of_cmp [] [] h = refl
eq_of_cmp [] (y ∷ ys) h = ground arith
eq_of_cmp (x ∷ xs) [] h = ground arith
eq_of_cmp (x ∷ xs) (y ∷ ys) h = ground (arith, eq_of_cmp xs ys)

pub cmp-flip : (a b : Bytes) → cmp a b ≡ Ordering.gt → cmp b a ≡ Ordering.lt
unfolding cmp
cmp-flip [] [] h = ground arith
cmp-flip [] (y ∷ ys) h = ground arith
cmp-flip (x ∷ xs) [] h = refl
cmp-flip (x ∷ xs) (y ∷ ys) h = ground (arith, cmp-flip xs ys)

pub cmp_trans :
    (a b c : Bytes) → cmp a b ≡ Ordering.lt → cmp b c ≡ Ordering.lt → cmp a c ≡ Ordering.lt
unfolding cmp
cmp_trans [] [] c h k = ground arith
cmp_trans [] (y ∷ ys) [] h k = ground arith
cmp_trans [] (y ∷ ys) (z ∷ zs) h k = refl
cmp_trans (x ∷ xs) [] c h k = ground arith
cmp_trans (x ∷ xs) (y ∷ ys) [] h k = ground arith
cmp_trans (x ∷ xs) (y ∷ ys) (z ∷ zs) h k = ground (arith, cmp_trans xs ys zs)

pub =ᵇ_iff : (a b : Bytes) → ((a =ᵇ b) ≡ true) ↔ (a ≡ b)
unfolding ◌=ᵇ◌
=ᵇ_iff a b = (λ h. eq_of_cmp a b (ground arith), λ e. ground (arith, cmp_refl a))

pub =ᵇ-refl : (a : Bytes) → (a =ᵇ a) ≡ true
=ᵇ-refl a = (=ᵇ_iff a a).1 refl

pub =ᵇ-ne : (a b : Bytes) → a ≢ b → (a =ᵇ b) ≡ false
=ᵇ-ne a b h = ground (arith, =ᵇ_iff a b)

pub lt_irrefl : (a : Bytes) → cmp a a ≡ Ordering.lt → ⊥
lt_irrefl a h = cc (cmp_refl a)

pub starts_with-append : (p a : Bytes) → starts_with (p ++ a) p ≡ true
unfolding starts_with
starts_with-append [] [] = refl
starts_with-append [] (x ∷ xs) = refl
starts_with-append (p ∷ ps) a = ground (arith, starts_with-append ps a)

-- Two strings that go on after the same bytes are ordered as their rests are.
pub cmp-append : (p a b : Bytes) → cmp (p ++ a) (p ++ b) ≡ cmp a b
unfolding cmp
cmp-append [] a b = refl
cmp-append (x ∷ p) a b = ground (arith, cmp-append p a b)

-- Prefixes of one length decide the order where they differ.
pub cmp-append_lt :
    (a b s t : Bytes)
    → length a ≡ length b
    → cmp a b ≡ Ordering.lt
    → cmp (a ++ s) (b ++ t) ≡ Ordering.lt
unfolding cmp
cmp-append_lt [] [] s t e h = ground arith
cmp-append_lt [] (y ∷ b) s t e h = absurd (omega arith)
cmp-append_lt (x ∷ a) [] s t e h = absurd (omega arith)
cmp-append_lt (x ∷ a) (y ∷ b) s t e h = ground (arith, cmp-append_lt a b s t)

pub cmp-snoc :
    (a b : Bytes) (x y : ℕ)
    → length a ≡ length b
    → cmp (a ++ x ∷ []) (b ++ y ∷ []) ≡ elim (cmp a b) [
      | Ordering.lt ↦ Ordering.lt
      | Ordering.eq ↦ compare x y
      | Ordering.gt ↦ Ordering.gt
    ]
unfolding cmp
cmp-snoc [] [] x y e = ground arith
cmp-snoc [] (z ∷ b) x y e = absurd (omega arith)
cmp-snoc (z ∷ a) [] x y e = absurd (omega arith)
cmp-snoc (z ∷ a) (w ∷ b) x y e = ground (arith, cmp-snoc a b x y)
