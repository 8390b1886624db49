-- ===== src/Index/Ready.antt =====
-- `ReadyIndex` of src/storage.rs: its counters, and what `pop_front` takes.
use sepp.Prelude.{ℕ, ◌+◌, ◌≡◌, ◌∙◌, ap, inl, inr, Option, none, some, arith, Option-cases}
use sepp.Std.Bytes.{Bytes, Text}
use sepp.Std.BTreeMap
use sepp.Std.BTreeMap.{BTreeMap, IsSorted, IsAbove, insert-IsSorted, remove-IsSorted}
use sepp.Std.BTreeMap.Depth.{depth, owns, one_if, depth-insert_new, depth-insert_old, depth-remove}
use sepp.Std.HashMap
use sepp.Std.HashMap.{HashMap, bytes_eq}
use sepp.Keys.{read_queue}
use sepp.Index.{
  ReadyIndex, ready_insert, ready_remove, pop_front, pop_key, first_of_prefix, bump_owner,
  drop_owner,
}
use sepp.Index.Counters.{nonzero, get-bump, get-drop}

-- The queue that a ready key belongs to is in the key.
abbrev pub ready_owner : Bytes → ℕ → Option Text
ready_owner key attempt = read_queue key

-- The entries are in order, and each queue's counter is the number of its entries, and is absent
-- where there is none.
pub record IsCounted {ℓ} {V : Type ℓ} (owner : Bytes → V → Option Text) (m : BTreeMap V)
    (h : HashMap Text ℕ) : Type ℓ where
  pub sorted : IsSorted m
  pub counts : (q : Text) → HashMap.get h q ≡ nonzero (depth owner q m)

abbrev pub IsReady : ReadyIndex → Type 0
IsReady ix = IsCounted ready_owner ix.keys ix.by_queue

pub get-bump_owner :
    (h : HashMap Text ℕ) (o : Option Text) (q : Text) (n : ℕ)
    → HashMap.get h q ≡ nonzero n
    → HashMap.get (bump_owner h o) q ≡ nonzero (one_if (owns q o) + n)
get-bump_owner h none q n e = e ∙ ap nonzero (omega arith)
get-bump_owner h (some p) q n e = get-bump h p q n e

pub get-drop_owner :
    (h : HashMap Text ℕ) (o : Option Text) (q : Text) (n k : ℕ)
    → HashMap.get h q ≡ nonzero n
    → k + one_if (owns q o) ≡ n
    → HashMap.get (drop_owner h o) q ≡ nonzero k
get-drop_owner h none q n k e s = e ∙ ap nonzero (omega arith)
get-drop_owner h (some p) q n k e s = get-drop h p q n k e s

cancel : (a b c : ℕ) → a + c ≡ c + b → b ≡ a
cancel a b c h = omega arith

-- Inserting a key, new or not, keeps the keys in order and each queue's counter equal to the number of
-- its keys.
pub ready_insert-IsReady :
    (ix : ReadyIndex) (key : Bytes) (a : ℕ) → IsReady ix → IsReady (ready_insert ix key a)
unfolding ready_insert
ready_insert-IsReady ix key a v = elim (Option-cases (BTreeMap.get ix.keys key)) [
  | inl e ↦ record {
    sorted = insert-IsSorted ix.keys key a v.sorted;
    counts = λ q.
        rw (e, depth-insert_new ready_owner q ix.keys key a e)
          (get-bump_owner ix.by_queue (read_queue key) q (depth ready_owner q ix.keys)
            (v.counts q));
  }
  | inr (b, e) ↦ record {
    sorted = insert-IsSorted ix.keys key a v.sorted;
    counts = λ q. rw e (
        v.counts q
        ∙ ap nonzero (
            cancel (depth ready_owner q (BTreeMap.insert ix.keys key a))
              (depth ready_owner q ix.keys) (one_if (owns q (read_queue key)))
              (depth-insert_old ready_owner q ix.keys key a b v.sorted e)));
  }
]

-- Taking a key out with its counter.
removed-IsReady :
    (ix : ReadyIndex) (key : Bytes) (a : ℕ)
    → IsReady ix
    → BTreeMap.get ix.keys key ≡ some a
    → IsCounted ready_owner (BTreeMap.remove ix.keys key) (drop_owner ix.by_queue (read_queue key))
removed-IsReady ix key a v e = record {
  sorted = remove-IsSorted ix.keys key v.sorted;
  counts = λ q.
      get-drop_owner ix.by_queue (read_queue key) q (depth ready_owner q ix.keys)
        (depth ready_owner q (BTreeMap.remove ix.keys key)) (v.counts q)
        (depth-remove ready_owner q ix.keys key a v.sorted e);
}

-- Removing a key, there or not, keeps the order and the counters.
pub ready_remove-IsReady :
    (ix : ReadyIndex) (key : Bytes) → IsReady ix → IsReady (ready_remove ix key).1
unfolding ready_remove
ready_remove-IsReady ix key v = elim (Option-cases (BTreeMap.get ix.keys key)) [
  | inl e ↦ rw (e, ready_remove) v
  | inr (a, e) ↦ rw (e, ready_remove) (removed-IsReady ix key a v e)
]

pop_key-IsReady : (ix : ReadyIndex) (k : Option Bytes) → IsReady ix → IsReady (pop_key ix k).1
unfolding pop_key
pop_key-IsReady ix none v = v
pop_key-IsReady ix (some key) v = elim (Option-cases (BTreeMap.get ix.keys key)) [
  | inl e ↦ rw (e, pop_key) v
  | inr (a, e) ↦ rw (e, pop_key) (removed-IsReady ix key a v e)
]

-- A pop, of a key or of none, keeps the order and the counters.
pub pop_front-IsReady :
    (ix : ReadyIndex) (prefix : Bytes) → IsReady ix → IsReady (pop_front ix prefix).1
unfolding pop_front
pop_front-IsReady ix prefix v =
    pop_key-IsReady ix (first_of_prefix (BTreeMap.range_from ix.keys prefix) prefix) v
