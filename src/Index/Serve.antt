-- ===== src/Index/Serve.antt =====
-- What `pop_front` and `pop_due` of src/storage.rs take: the first key of the queue, and the first
-- key whose deadline has come.
use native.Mathlib.Decide.{dec_lt}
use sepp.Prelude.Int.{ℤ, pos, ltb_ℤ, ◌<ℤ◌, ◌≤ℤ◌}
use sepp.Keys.Writer
use sepp.Keys.{deadline_of}
use sepp.Keys.RoundTrip.{deadline_of-i64}
use sepp.Keys.Order.{cmp-i64}
use sepp.Prelude.{◌<◌, ◌≤◌, ◌^◌, ◌++◌, Option-cases}
use sepp.Index.{pop_due, pop_timer, first_entry, TimerIndex}
use sepp.Index.Timer.{IsTimer}
use sepp.Std.Bytes.{Text, cmp_trans, lt_irrefl}
use sepp.Prelude.{
  ℕ, ◌≡◌, ◌≢◌, refl, ◌⊎◌, inl, inr, Bool, true, false, [], ◌∷◌, Option, none, some, arith, Ordering,
  Bool-cases,
}
use sepp.Std.Bytes.{Bytes, cmp, starts_with, =ᵇ_iff, =ᵇ-refl, cmp_refl}
use sepp.Std.BTreeMap
use sepp.Std.BTreeMap.{BTreeMap, get, range_from, IsSorted, IsAbove}
use sepp.Keys.{read_queue}
use sepp.Index.{drop_owner, ReadyIndex, pop_front, pop_key, first_of_prefix}
use sepp.Index.Ready.{IsReady}

-- A key with the prefix is not below the prefix.
prefix_le : (j p : Bytes) → starts_with j p ≡ true → cmp j p ≡ Ordering.lt → ⊥
unfolding starts_with cmp
prefix_le [] [] s h = cc
prefix_le (x ∷ j) [] s h = cc
prefix_le [] (y ∷ p) s h = cc
prefix_le (x ∷ j) (y ∷ p) s h = ground (arith, prefix_le j p)

-- What lies between the prefix and a key that has it has it too.
between :
    (k j p : Bytes)
    → cmp k p ≢ Ordering.lt
    → cmp k j ≡ Ordering.lt
    → starts_with j p ≡ true
    → starts_with k p ≡ true
unfolding starts_with cmp
between [] j [] a b s = refl
between (x ∷ k) j [] a b s = refl
between [] j (y ∷ p) a b s = absurd (a refl)
between (x ∷ k) [] (y ∷ p) a b s = ground arith
between (x ∷ k) (z ∷ j) (y ∷ p) a b s = ground (arith, between k j p)

module _ {ℓ} {V : Type ℓ} where
  above_lt :
      (k j : Bytes) (m : BTreeMap V) (b : V)
      → IsAbove k m
      → get m j ≡ some b
      → cmp k j ≡ Ordering.lt
  unfolding get
  above_lt k j [] b t e = cc
  above_lt k j ((i, w) ∷ m) b t e = ground (arith, above_lt k j m b t.1, =ᵇ_iff i j)

  -- The first entry is the least.
  pub head_least :
      (k : Bytes) (a : V) (m : BTreeMap V) (j : Bytes) (b : V)
      → IsSorted ((k, a) ∷ m)
      → get ((k, a) ∷ m) j ≡ some b
      → (k ≡ j) ⊎ (cmp k j ≡ Ordering.lt)
  unfolding get
  head_least k a m j b s e = ground (arith, above_lt k j m b s.0, =ᵇ_iff k j)

  range-IsSorted : (m : BTreeMap V) (lo : Bytes) → IsSorted m → IsSorted (range_from m lo)
  unfolding range_from
  range-IsSorted [] lo s = tt
  range-IsSorted ((k, a) ∷ m) lo s = ground (arith, range-IsSorted m lo s.1)

  -- The range has every entry that is not below its start, and no other.
  range_covers :
      (m : BTreeMap V) (lo j : Bytes) (b : V)
      → get m j ≡ some b
      → (cmp j lo ≡ Ordering.lt) ⊎ (get (range_from m lo) j ≡ some b)
  unfolding get range_from
  range_covers [] lo j b e = cc
  range_covers ((k, a) ∷ m) lo j b e = ground (arith, range_covers m lo j b, =ᵇ_iff k j)

  range_head_get :
      (m : BTreeMap V) (lo k : Bytes) (a : V) (rest : BTreeMap V)
      → IsSorted m
      → range_from m lo ≡ (k, a) ∷ rest
      → get m k ≡ some a
  unfolding get range_from
  range_head_get [] lo k a rest s e = cc
  range_head_get ((j, w) ∷ m) lo k a rest s e = ground (
    arith,
    range_head_get m lo k a rest s.1,
    =ᵇ_iff j k,
    =ᵇ-refl j,
    above_lt j k m a s.0,
    cmp_refl j,
  )

  range_head_ge :
      (m : BTreeMap V) (lo k : Bytes) (a : V) (rest : BTreeMap V)
      → range_from m lo ≡ (k, a) ∷ rest
      → cmp k lo ≡ Ordering.lt
      → ⊥
  unfolding range_from
  range_head_ge [] lo k a rest e h = cc
  range_head_ge ((j, w) ∷ m) lo k a rest e h = ground (arith, range_head_ge m lo k a rest)

abbrev pub Serves : ReadyIndex → Bytes → Option (Bytes × ℕ) × ReadyIndex → Type 0
Serves ix p (none, ix') =
    (ix' ≡ ix) × ((j : Bytes) (b : ℕ) → get ix.keys j ≡ some b → starts_with j p ≡ false)
Serves ix p (some (k, a), ix') =
    (starts_with k p ≡ true)
    × (get ix.keys k ≡ some a)
    × (ix'.keys ≡ BTreeMap.remove ix.keys k)
    × ((j : Bytes) (b : ℕ)
        → get ix.keys j ≡ some b
        → starts_with j p ≡ true
        → (k ≡ j) ⊎ (cmp k j ≡ Ordering.lt))

pop_key-some :
    (ix : ReadyIndex) (k : Bytes) (a : ℕ)
    → get ix.keys k ≡ some a
    → pop_key ix (some k) ≡ (
      some (k, a),
      record { keys = BTreeMap.remove ix.keys k; by_queue = drop_owner ix.by_queue (read_queue k) },
    )
unfolding pop_key
pop_key-some ix k a e = rw (e, pop_key)

in_range :
    (m : BTreeMap ℕ) (p j : Bytes) (b : ℕ)
    → get m j ≡ some b
    → starts_with j p ≡ true
    → get (range_from m p) j ≡ some b
in_range m p j b e s = elim (range_covers m p j b e) [
  | inl below ↦ absurd (prefix_le j p s below)
  | inr there ↦ there
]

false_of : (b : Bool) → (b ≡ true → ⊥) → b ≡ false
false_of true h = absurd (h refl)
false_of false h = refl

serve_range :
    (ix : ReadyIndex) (p : Bytes) (r : BTreeMap ℕ)
    → IsReady ix
    → BTreeMap.range_from ix.keys p ≡ r
    → Serves ix p (pop_key ix (first_of_prefix r p))
unfolding first_of_prefix
serve_range ix p [] v e =
    unfold pop_key get in
    (refl, λ j b h. false_of (starts_with j p) (λ s. cc (in_range ix.keys p j b h s, e)))
serve_range ix p ((k, a) ∷ rest) v e =
    let sorted : IsSorted ((k, a) ∷ rest) = rw e at (range-IsSorted ix.keys p v.sorted) in
    let least = λ (j : Bytes) (b : ℕ) (h : get ix.keys j ≡ some b) (s : starts_with j p ≡ true).
      head_least k a rest j b sorted (rw e at (in_range ix.keys p j b h s)) in
    let here = range_head_get ix.keys p k a rest v.sorted e in
    elim (Bool-cases (starts_with k p)) [
      | inl s ↦ rw (s, pop_key-some ix k a here) (s, here, refl, least)
      | inr s ↦
          unfold pop_key in
          rw s (
            refl,
            λ j b h. false_of (starts_with j p) (λ sj. elim (least j b h sj) [
              | inl same ↦ cc
              | inr later ↦ cc (between k j p (range_head_ge ix.keys p k a rest e) later sj)
            ]),
          )
    ]

-- `pop_front` takes the least of the keys with the prefix, and takes none only where no key has it:
-- then it changes nothing. The index must be in order.
pub pop_front-Serves : (ix : ReadyIndex) (p : Bytes) → IsReady ix → Serves ix p (pop_front ix p)
unfolding pop_front
pop_front-Serves ix p v = serve_range ix p (range_from ix.keys p) v refl

-- What a pop of a timer index does: nothing, or the removal of a key with its value.
abbrev pub DueCases : TimerIndex → Option (Bytes × Text) × TimerIndex → Type 0
DueCases ix (none, ix') = ix' ≡ ix
DueCases ix (some (k, q), ix') = (get ix.keys k ≡ some q) × (ix'.keys ≡ BTreeMap.remove ix.keys k)

pop_timer-cases :
    (ix : TimerIndex) (now : ℤ) (first : Option (Bytes × Text))
    → DueCases ix (pop_timer ix now first)
unfolding pop_timer
pop_timer-cases ix now none = refl
pop_timer-cases ix now (some (key, q)) = elim (Bool-cases (ltb_ℤ now (deadline_of key))) [
  | inl late ↦ rw late refl
  | inr due ↦ elim (Option-cases (get ix.keys key)) [
    | inl e ↦ rw (due, e, pop_timer) refl
    | inr (queue, e) ↦ rw (due, e, pop_timer) (e, refl)
  ]
]

pub pop_due-cases : (ix : TimerIndex) (now : ℤ) → DueCases ix (pop_due ix now)
unfolding pop_due
pop_due-cases ix now = pop_timer-cases ix now (first_entry ix.keys)

-- The keys of a timer index begin with a time from the epoch on.
abbrev pub IsTimed : TimerIndex → Type 0
IsTimed ix =
    (k : Bytes) (q : Text)
    → get ix.keys k ≡ some q
    → (d : ℕ) × (rest : Bytes) × (d < 2 ^ 63) × (k ≡ Writer.i64 (pos d) ++ rest)

-- A key that is popped is due and the least; where none is popped nothing changes and no key is due.
abbrev pub PopsDue : TimerIndex → ℤ → Option (Bytes × Text) × TimerIndex → Type 0
PopsDue ix now (none, ix') =
    (ix' ≡ ix) × ((k : Bytes) (q : Text) → get ix.keys k ≡ some q → now <ℤ deadline_of k)
PopsDue ix now (some (k, q), ix') =
    (deadline_of k ≤ℤ now)
    × (get ix.keys k ≡ some q)
    × (ix'.keys ≡ BTreeMap.remove ix.keys k)
    × ((j : Bytes) (p : Text) → get ix.keys j ≡ some p → (k ≡ j) ⊎ (cmp k j ≡ Ordering.lt))

deadline_pos :
    (d : ℕ) (k rest : Bytes) → d < 2 ^ 63 → k ≡ Writer.i64 (pos d) ++ rest → deadline_of k ≡ pos d
deadline_pos d k rest h e = rw e (deadline_of-i64 (pos d) rest h)

-- Deadlines rise along the keys.
deadline_le :
    (a b : ℕ) (k j s r : Bytes)
    → a < 2 ^ 63
    → k ≡ Writer.i64 (pos a) ++ s
    → j ≡ Writer.i64 (pos b) ++ r
    → cmp k j ≡ Ordering.lt
    → a ≤ b
deadline_le a b k j s r ha sa sb o = elim (dec_lt b a) [
  | yes h ↦
      let back : cmp j k ≡ Ordering.lt = rw (sa, sb) (cmp-i64 b a r s h ha) in
      absurd (lt_irrefl k (cmp_trans k j k o back))
  | no h ↦ omega arith
]

deadline_mono :
    (ix : TimerIndex) (k j : Bytes) (q p : Text)
    → IsTimed ix
    → get ix.keys k ≡ some q
    → get ix.keys j ≡ some p
    → (k ≡ j) ⊎ (cmp k j ≡ Ordering.lt)
    → deadline_of k ≤ℤ deadline_of j
deadline_mono ix k j q p t ek ej (inl e) = rw e (omega arith)
deadline_mono ix k j q p t ek ej (inr o) =
    let (a, s, ha, sa) = t k q ek in
    let (b, r, hb, sb) = t j p ej in
    let le : a ≤ b = deadline_le a b k j s r ha sa sb o in
    rw (deadline_pos a k s ha sa, deadline_pos b j r hb sb) (omega arith)

pop_first :
    (ix : TimerIndex) (now : ℤ) (m : BTreeMap Text)
    → IsTimer ix
    → IsTimed ix
    → ix.keys ≡ m
    → PopsDue ix now (pop_timer ix now (first_entry m))
pop_first ix now [] v t e = unfold pop_timer get in (refl, λ k q h. cc (rw e at h))
pop_first ix now ((k, q) ∷ rest) v t e =
    let sorted : IsSorted ((k, q) ∷ rest) = rw e at v.sorted in
    let here : get ix.keys k ≡ some q = rw e (unfold get in rw (=ᵇ-refl k)) in
    let least = λ (j : Bytes) (p : Text) (h : get ix.keys j ≡ some p).
      head_least k q rest j p sorted (rw e at h) in
    elim (Bool-cases (ltb_ℤ now (deadline_of k))) [
      | inl late ↦
          unfold pop_timer in
          rw late (
            refl,
            λ j p h.
                later (deadline_of k) (deadline_of j) late
                  (deadline_mono ix k j q p t here h (least j p h)),
          )
      | inr due ↦
          unfold pop_timer in
          rw (due, here, pop_timer) (not_later (deadline_of k) due, here, refl, least)
    ]
  where
    later : (d d' : ℤ) → ltb_ℤ now d ≡ true → d ≤ℤ d' → now <ℤ d'
    later d d' h l = ground arith

    not_later : (d : ℤ) → ltb_ℤ now d ≡ false → d ≤ℤ now
    not_later d h = ground arith

-- `pop_due` takes the least key if its deadline has come. Where it takes none it changes nothing and
-- no key is due. The index must be in order and every key begin with a time from the epoch on.
pub pop_due-PopsDue :
    (ix : TimerIndex) (now : ℤ) → IsTimer ix → IsTimed ix → PopsDue ix now (pop_due ix now)
unfolding pop_due
pop_due-PopsDue ix now v t = pop_first ix now ix.keys v t refl
