-- ===== src/Peek/Ready.antt =====
-- The pages of ready keys of `peek_keys` of src/storage.rs.
use sepp.Prelude.{
  ℕ, zero, suc, ◌≤◌, ◌≡◌, ◌∙◌, ap, sym, refl, Bool, true, false, ◌&&◌, List, [], ◌∷◌, ◌++◌, Option,
  none, some, Ordering, arith, inl, inr, ◌==◌, length, take, drop, if◌then◌else◌, and-true, ==_iff,
}
use sepp.Std.Bytes.{Bytes, Text, cmp, starts_with}
use sepp.Std.BTreeMap.{BTreeMap, IsAbove, IsSorted, range_from}
use sepp.Keys.{queue_prefix}
use sepp.Peek.{range_after, while_prefix, last_of, is_nonempty, peek_ready}
use sepp.Peek.Pages.{at_head, range_after-tail, Ordering-cases}

-- The entries that a page starts from, and those after a cursor.
abbrev pub ready_from {ℓ} : {V : Type ℓ} → BTreeMap V → Bytes → Option Bytes → BTreeMap V
ready_from m prefix none = range_from m prefix
ready_from m prefix (some c) = range_after m c

abbrev pub keys_after {ℓ} : {V : Type ℓ} → BTreeMap V → Bytes → Option Bytes → List Bytes
keys_after m prefix none = []
keys_after m prefix (some c) = while_prefix prefix (range_after m c)

module _ {ℓ} {V : Type ℓ} where
  from_above :
      (m es : BTreeMap V) (a lo k : Bytes) (v : V)
      → IsAbove a m
      → range_from m lo ≡ (k, v) ∷ es
      → cmp a k ≡ Ordering.lt
  unfolding range_from
  from_above [] es a lo k v h e = cc
  from_above ((j, w) ∷ m) es a lo k v h e = ground (arith, from_above m es a lo k v h.1)

  range_from-tail :
      (m es : BTreeMap V) (lo k : Bytes) (v : V)
      → IsSorted m
      → range_from m lo ≡ (k, v) ∷ es
      → range_after m k ≡ es
  unfolding range_from range_after
  range_from-tail [] es lo k v s e = cc
  range_from-tail ((j, w) ∷ m) es lo k v s e = elim (Ordering-cases (cmp j lo)) [
    | inl g ↦ at_head j k w v m es s.0 (rw (g, range_from) at e)
    | inr (inl g) ↦
        let e' : range_from m lo ≡ (k, v) ∷ es = rw (g, range_from) at e in
        rw (from_above m es j lo k v s.0 e', range_after) (range_from-tail m es lo k v s.1 e')
    | inr (inr g) ↦ at_head j k w v m es s.0 (rw (g, range_from) at e)
  ]

  ready_from-tail :
      (m es : BTreeMap V) (prefix : Bytes) (cursor : Option Bytes) (k : Bytes) (v : V)
      → IsSorted m
      → ready_from m prefix cursor ≡ (k, v) ∷ es
      → range_after m k ≡ es
  ready_from-tail m es prefix none k v s e = range_from-tail m es prefix k v s e
  ready_from-tail m es prefix (some c) k v s e = range_after-tail m es c k v s e

  -- One round of the next lemma, given whether the first key has the prefix.
  last_of-round :
      (m : BTreeMap V) (prefix k : Bytes) (n : ℕ) (ks : List Bytes) (b : Bool)
      → while_prefix prefix (range_after m k) ≡ ks
      → ((n' : ℕ)
          → length (take (suc n') ks) ≡ suc n'
          → keys_after m prefix (last_of (take (suc n') ks)) ≡ drop (suc n') ks)
      → length (take (suc n) (elim b [ true ↦ k ∷ ks | false ↦ [] ])) ≡ suc n
      → keys_after m prefix (last_of (take (suc n) (elim b [ true ↦ k ∷ ks | false ↦ [] ])))
        ≡ drop (suc n) (elim b [ true ↦ k ∷ ks | false ↦ [] ])
  last_of-round m prefix k n ks false t ih h = absurd (omega arith)
  last_of-round m prefix k zero ks true t ih h = t
  last_of-round m prefix k (suc n) [] true t ih h = absurd (omega arith)
  last_of-round m prefix k (suc n) (x ∷ ks) true t ih h = ih n (omega arith)

  -- After the last of n keys come those that were not taken.
  last_of-after :
      (m es : BTreeMap V) (prefix : Bytes) (cursor : Option Bytes) (n : ℕ)
      → IsSorted m
      → ready_from m prefix cursor ≡ es
      → length (take (suc n) (while_prefix prefix es)) ≡ suc n
      → keys_after m prefix (last_of (take (suc n) (while_prefix prefix es)))
        ≡ drop (suc n) (while_prefix prefix es)
  unfolding while_prefix
  last_of-after m [] prefix cursor n s e h = absurd (omega arith)
  last_of-after m ((k, v) ∷ es) prefix cursor n s e h =
      let t = ready_from-tail m es prefix cursor k v s e in
      last_of-round m prefix k n (while_prefix prefix es) (starts_with k prefix)
        (ap (while_prefix prefix) t) (λ n'. last_of-after m es prefix (some k) n' s t) h

take-append-drop : (n : ℕ) (ks : List Bytes) → take n ks ++ drop n ks ≡ ks
take-append-drop zero ks = refl
take-append-drop (suc n) [] = refl
take-append-drop (suc n) (k ∷ ks) = ap (λ l. k ∷ l) (take-append-drop n ks)

suc-==-suc : (a b : ℕ) → (suc a == suc b) ≡ (a == b)
suc-==-suc a b = ground arith

-- A page that is not full, or has nothing behind it, has all the keys.
take-append_all :
    (n : ℕ) (ks : List Bytes)
    → length (take n ks) == n && is_nonempty (drop n ks) ≡ false
    → take n ks ++ [] ≡ ks
take-append_all zero [] h = refl
take-append_all zero (k ∷ ks) h = cc
take-append_all (suc n) [] h = refl
take-append_all (suc n) (k ∷ ks) h =
    ap (λ l. k ∷ l)
      (take-append_all n ks
        (ap (λ b. b && is_nonempty (drop n ks)) (sym (suc-==-suc (length (take n ks)) n)) ∙ h))

page-covers :
    {V : Type 0} (m : BTreeMap V) (prefix : Bytes) (n : ℕ) (ks : List Bytes) (full : Bool)
    → length (take n ks) == n && is_nonempty (drop n ks) ≡ full
    → (length (take n ks) ≡ n → keys_after m prefix (last_of (take n ks)) ≡ drop n ks)
    → ks ≡ take n ks ++ keys_after m prefix (if full then last_of (take n ks) else none)
page-covers m prefix n ks false e after = sym (take-append_all n ks e)
page-covers m prefix n ks true e after =
    let full = and-true (length (take n ks) == n) _ e in
    sym (ap (λ l. take n ks ++ l) (after ((==_iff _ _).0 full.0)) ∙ take-append-drop n ks)

-- A page of ready jobs has the next ready keys of the queue after the cursor, in order, and the pages
-- after it, which start after its cursor, have exactly the others: none is lost or given twice, and
-- the last page is the one without a cursor. Each page takes at least one key.
pub peek_ready-Covers :
    (ready : BTreeMap ℕ) (queue : Text) (cursor : Option Bytes) (limit : ℕ)
    → IsSorted ready
    → 1 ≤ limit
    → while_prefix (queue_prefix queue) (ready_from ready (queue_prefix queue) cursor)
      ≡ (peek_ready ready queue cursor limit).keys
        ++ keys_after ready (queue_prefix queue) (peek_ready ready queue cursor limit).next_cursor
unfolding peek_ready
peek_ready-Covers ready queue cursor zero s l = absurd (omega arith)
peek_ready-Covers ready queue none (suc n) s l =
    page-covers ready (queue_prefix queue) (suc n) _ _ refl
      (last_of-after ready _ (queue_prefix queue) none n s refl)
peek_ready-Covers ready queue (some c) (suc n) s l =
    page-covers ready (queue_prefix queue) (suc n) _ _ refl
      (last_of-after ready _ (queue_prefix queue) (some c) n s refl)
