-- ===== src/Index/Counters.antt =====
-- The counters of src/storage.rs: a queue has a counter exactly while it owns an entry.
use native.Mathlib.Numerals.{add-one}
use sepp.Prelude.{
  Option-cases, ◌-◌, Bool-cases, inl, inr, ℕ, zero, suc, ◌+◌, ◌-◌, ◌≡◌, refl, ◌∙◌, false, Option,
  none, some, arith, unwrap_or, ap,
}
use sepp.Std.Bytes.{Text, ◌=ᵇ◌, =ᵇ_iff, =ᵇ-refl}
use sepp.Std.BTreeMap.Depth.{one_if}
use sepp.Std.HashMap
use sepp.Std.HashMap.{HashMap, bytes_eq}
use sepp.Index.{bump_queue, drop_queue}

-- No counter at zero.
abbrev pub nonzero : ℕ → Option ℕ
nonzero zero = none
nonzero (suc n) = some (suc n)

pub queue_count-nonzero : (n : ℕ) → unwrap_or (nonzero n) 0 ≡ n
queue_count-nonzero zero = refl
queue_count-nonzero (suc n) = refl

one_add : (n : ℕ) → 1 + n ≡ suc n
one_add n = omega arith

zero_add : (n : ℕ) → n ≡ 0 + n
zero_add n = omega arith

suc_of : (k n : ℕ) → k + 1 ≡ n → n ≡ suc k
suc_of k n h = omega arith

zero_of : (k n : ℕ) → k + 0 ≡ n → n ≡ k
zero_of k n h = omega arith

bump_value : (n : ℕ) → some (unwrap_or (nonzero n) 0 + 1) ≡ nonzero (1 + n)
bump_value n = rw (queue_count-nonzero n, one_add n, add-one n)

pub get-bump :
    (m : HashMap Text ℕ) (p q : Text) (n : ℕ)
    → HashMap.get m q ≡ nonzero n
    → HashMap.get (bump_queue m p) q ≡ nonzero (one_if (p =ᵇ q) + n)
unfolding bump_queue
get-bump m p q n e = elim (Bool-cases (p =ᵇ q)) [
  | inl same ↦
      let pq : p ≡ q = (=ᵇ_iff p q).0 same in
      rw (HashMap.get-insert m p q (unwrap_or (HashMap.get m p) 0 + 1), same, pq, e) (bump_value n)
  | inr other ↦
      rw (HashMap.get-insert m p q (unwrap_or (HashMap.get m p) 0 + 1), other, e)
        (ap nonzero (zero_add n))
]

-- What `drop_queue` does to the counter of its own queue.
drop_value :
    (m : HashMap Text ℕ) (p : Text) (k : ℕ)
    → HashMap.get m p ≡ some (suc k)
    → HashMap.get (drop_queue m p) p ≡ nonzero k
unfolding drop_queue
drop_value m p zero e = rw (e, drop_queue, HashMap.get-remove m p p, =ᵇ-refl p)
drop_value m p (suc k) e =
    rw (e, drop_queue) (ground (arith, HashMap.get-insert m p p (suc (suc k) - 1), =ᵇ-refl p))

drop_other :
    (m : HashMap Text ℕ) (p q : Text)
    → (p =ᵇ q) ≡ false
    → HashMap.get (drop_queue m p) q ≡ HashMap.get m q
unfolding drop_queue
drop_other m p q h = elim (Option-cases (HashMap.get m p)) [
  | inl e ↦ rw (e, drop_queue)
  | inr (n, e) ↦
      rw (e, drop_queue)
        (ground (arith, HashMap.get-remove m p q, HashMap.get-insert m p q (n - 1)))
]

pub get-drop :
    (m : HashMap Text ℕ) (p q : Text) (n k : ℕ)
    → HashMap.get m q ≡ nonzero n
    → k + one_if (p =ᵇ q) ≡ n
    → HashMap.get (drop_queue m p) q ≡ nonzero k
get-drop m p q n k e h = elim (Bool-cases (p =ᵇ q)) [
  | inl same ↦
      let pq : p ≡ q = (=ᵇ_iff p q).0 same in
      let h' : k + 1 ≡ n = rw same at h in
      let e' : HashMap.get m q ≡ some (suc k) = e ∙ ap nonzero (suc_of k n h') in
      rw pq (drop_value m q k e')
  | inr other ↦
      let h' : k + 0 ≡ n = rw other at h in drop_other m p q other ∙ e ∙ ap nonzero (zero_of k n h')
]
