-- ===== src/Peek/Pages.antt =====
-- The pages of `peek_keys` of src/storage.rs, one after the other.
use sepp.Prelude.{
  ℕ, zero, suc, ◌≤◌, ◌≡◌, ◌∙◌, ap, sym, subst, refl, Bool, true, false, List, [], ◌∷◌, ◌++◌, Option,
  none, some, Ordering, arith, inl, inr, ◌⊎◌,
}
use sepp.Std.Bytes.{Bytes, Text, cmp, ◌=ᵇ◌, cmp_refl, cmp_trans, eq_of_cmp, lt_irrefl}
use sepp.Std.BTreeMap.{BTreeMap, IsAbove, IsSorted}
use sepp.Peek.{
  PeekPage, range_after, examine, entries_from, peek_timers, with_key, peek_examine_cap,
}

-- The keys of the queue, in order.
abbrev pub owned : Text → BTreeMap Text → List Bytes
owned queue [] = []
owned queue ((key, owner) ∷ es) = elim (owner =ᵇ queue) [
  | true ↦ key ∷ owned queue es
  | false ↦ owned queue es
]

-- The keys that the pages after this one have still to give.
abbrev pub owned_after : Text → BTreeMap Text → Option Bytes → List Bytes
owned_after queue m none = []
owned_after queue m (some c) = owned queue (range_after m c)

cmp-gt_of_lt : (a b : Bytes) → cmp a b ≡ Ordering.lt → cmp b a ≡ Ordering.gt
cmp-gt_of_lt a b h = ground (arith, cmp_trans a b a, eq_of_cmp b a, cmp_refl a, lt_irrefl a)

pub Ordering-cases : (o : Ordering) → (o ≡ Ordering.gt) ⊎ (o ≡ Ordering.lt) ⊎ (o ≡ Ordering.eq)
Ordering-cases Ordering.gt = inl refl
Ordering-cases Ordering.lt = inr (inl refl)
Ordering-cases Ordering.eq = inr (inr refl)

module _ {ℓ} {V : Type ℓ} where
  cons_key : {j k : Bytes} {w v : V} {m es : BTreeMap V} → (j, w) ∷ m ≡ (k, v) ∷ es → j ≡ k
  cons_key e = cc

  cons_tail : {j k : Bytes} {w v : V} {m es : BTreeMap V} → (j, w) ∷ m ≡ (k, v) ∷ es → m ≡ es
  cons_tail e = cc

  range_after-IsAbove : (m : BTreeMap V) (c : Bytes) → IsAbove c m → range_after m c ≡ m
  unfolding range_after
  range_after-IsAbove [] c h = refl
  range_after-IsAbove ((j, w) ∷ m) c h = rw (cmp-gt_of_lt c j h.0, range_after) refl

  pub at_head :
      (j k : Bytes) (w v : V) (m es : BTreeMap V)
      → IsAbove j m
      → (j, w) ∷ m ≡ (k, v) ∷ es
      → range_after ((j, w) ∷ m) k ≡ es
  unfolding range_after
  at_head j k w v m es s e =
      subst (λ x. range_after ((j, w) ∷ m) x ≡ es) (cons_key e)
        (rw (cmp_refl j, range_after) (range_after-IsAbove m j s ∙ cons_tail e))

  head_above :
      (m es : BTreeMap V) (a lo k : Bytes) (v : V)
      → IsAbove a m
      → range_after m lo ≡ (k, v) ∷ es
      → cmp a k ≡ Ordering.lt
  unfolding range_after
  head_above [] es a lo k v h e = cc
  head_above ((j, w) ∷ m) es a lo k v h e = ground (arith, head_above m es a lo k v h.1)

  -- What comes after the first entry of a range starts after its key.
  pub range_after-tail :
      (m es : BTreeMap V) (lo k : Bytes) (v : V)
      → IsSorted m
      → range_after m lo ≡ (k, v) ∷ es
      → range_after m k ≡ es
  unfolding range_after
  range_after-tail [] es lo k v s e = cc
  range_after-tail ((j, w) ∷ m) es lo k v s e = elim (Ordering-cases (cmp j lo)) [
    | inl g ↦
        let e' : (j, w) ∷ m ≡ (k, v) ∷ es = rw (g, range_after) at e in at_head j k w v m es s.0 e'
    | inr (inl g) ↦
        let e' : range_after m lo ≡ (k, v) ∷ es = rw (g, range_after) at e in
        rw (head_above m es j lo k v s.0 e', range_after) (range_after-tail m es lo k v s.1 e')
    | inr (inr g) ↦
        let e' : range_after m lo ≡ (k, v) ∷ es = rw (g, range_after) at e in
        rw (head_above m es j lo k v s.0 e', range_after) (range_after-tail m es lo k v s.1 e')
  ]

  -- The same of the whole map, or of a range.
  entries_from-tail :
      (m es : BTreeMap V) (cursor : Option Bytes) (k : Bytes) (v : V)
      → IsSorted m
      → entries_from m cursor ≡ (k, v) ∷ es
      → range_after m k ≡ es
  entries_from-tail m es (some c) k v s e = range_after-tail m es c k v s e
  entries_from-tail [] es none k v s e = cc
  entries_from-tail ((j, w) ∷ m) es none k v s e = at_head j k w v m es s.0 e

-- The key examined last, if there is one, is the one before the entries that are left; there is one
-- if no more may be examined.
abbrev Behind : BTreeMap Text → BTreeMap Text → ℕ → Option Bytes → Type 0
Behind m es left none = 1 ≤ left
Behind m es left (some c) = range_after m c ≡ es

-- A page and the pages after it have the keys of the entries that are left.
Covers : Text → BTreeMap Text → BTreeMap Text → PeekPage → Type 0
Covers queue m es page = owned queue es ≡ page.keys ++ owned_after queue m page.next_cursor

-- One round of the loop, given whether the queue owns the entry.
abbrev stepped : Text → Bytes → (left room : ℕ) → BTreeMap Text → Bool → PeekPage
stepped queue key left room es own = elim own [
  | false ↦ examine queue left room (some key) es
  | true ↦ elim room [
    | suc (suc more) ↦ with_key key (examine queue left (suc more) (some key) es)
    | _ ↦ record { keys = key ∷ []; next_cursor = some key; truncated = false }
  ]
]

step :
    (queue : Text) (m es : BTreeMap Text) (k : Bytes) (left room : ℕ) (own : Bool)
    → range_after m k ≡ es
    → ((room' : ℕ) → Covers queue m es (examine queue left room' (some k) es))
    → (elim own [ true ↦ k ∷ owned queue es | false ↦ owned queue es ])
      ≡ (stepped queue k left room es own).keys
        ++ owned_after queue m (stepped queue k left room es own).next_cursor
unfolding Covers
step queue m es k left room false t h = h room
step queue m es k left zero true t h = ap (λ l. k ∷ owned queue l) (sym t)
step queue m es k left (suc zero) true t h = ap (λ l. k ∷ owned queue l) (sym t)
step queue m es k left (suc (suc more)) true t h = ap (λ l. k ∷ l) (h (suc more))

examine-Covers :
    (queue : Text) (m : BTreeMap Text) (cursor last : Option Bytes) (left room : ℕ)
    (es : BTreeMap Text)
    → IsSorted m
    → entries_from m cursor ≡ es
    → Behind m es left last
    → Covers queue m es (examine queue left room last es)
unfolding examine Covers
examine-Covers queue m cursor last left room [] s e b = refl
examine-Covers queue m cursor none zero room (x ∷ es) s e b = absurd (omega arith)
examine-Covers queue m cursor (some c) zero room (x ∷ es) s e b = rw b refl
examine-Covers queue m cursor last (suc left) room ((k, o) ∷ es) s e b =
    let t = entries_from-tail m es cursor k o s e in
    step queue m es k left room (o =ᵇ queue) t
      λ room'. examine-Covers queue m (some k) (some k) left room' es s t t

-- A page of scheduled jobs, leases or dead letters has the next keys of the queue after the cursor, in
-- order, and the pages after it, which start after its cursor, have exactly the others: none is lost
-- or given twice, and the last page is the one without a cursor.
pub peek_timers-Covers :
    (entries : BTreeMap Text) (queue : Text) (cursor : Option Bytes) (limit : ℕ)
    → IsSorted entries
    → owned queue (entries_from entries cursor)
      ≡ (peek_timers entries queue cursor limit).keys
        ++ owned_after queue entries (peek_timers entries queue cursor limit).next_cursor
unfolding peek_timers Covers peek_examine_cap
peek_timers-Covers entries queue cursor limit s =
    examine-Covers queue entries cursor none peek_examine_cap limit (entries_from entries cursor) s
      refl (omega arith)
