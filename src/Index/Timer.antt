-- ===== src/Index/Timer.antt =====
-- `TimerIndex` of src/storage.rs: its counters, and what `pop_due` takes.
use sepp.Prelude.{
  ℕ, ◌+◌, ◌≡◌, ◌∙◌, ap, ◌⊎◌, inl, inr, Option, none, some, arith, Option-cases, Bool-cases,
}
use sepp.Prelude.Int.{ℤ, ltb_ℤ}
use sepp.Std.Bytes.{Bytes, Text, ◌=ᵇ◌}
use sepp.Std.BTreeMap
use sepp.Std.BTreeMap.{BTreeMap, IsSorted, IsAbove, insert-IsSorted, remove-IsSorted}
use sepp.Std.BTreeMap.Depth.{depth, one_if, depth-insert_new, depth-insert_old, depth-remove}
use sepp.Std.HashMap.{bytes_eq}
use sepp.Keys.{deadline_of}
use sepp.Index.{TimerIndex, timer_insert, timer_remove, pop_due, pop_timer, first_entry, drop_queue}
use sepp.Index.Counters.{nonzero, get-bump, get-drop}
use sepp.Index.Ready.{IsCounted}

-- The queue of a timer is the value beside its key.
abbrev pub timer_owner : Bytes → Text → Option Text
timer_owner key queue = some queue

abbrev pub IsTimer : TimerIndex → Type 0
IsTimer ix = IsCounted timer_owner ix.keys ix.by_queue

cancel : (a b c : ℕ) → a + c ≡ c + b → b ≡ a
cancel a b c h = omega arith

-- A key that is there already must belong to the same queue: `insert` counts new keys only.
abbrev pub IsFree : TimerIndex → Bytes → Text → Type 0
IsFree ix key queue = (BTreeMap.get ix.keys key ≡ none) ⊎ (BTreeMap.get ix.keys key ≡ some queue)

-- Inserting a key that is new, or that has the same queue already, keeps the order and the counters.
pub timer_insert-IsTimer :
    (ix : TimerIndex) (key : Bytes) (queue : Text)
    → IsFree ix key queue
    → IsTimer ix
    → IsTimer (timer_insert ix key queue)
unfolding timer_insert
timer_insert-IsTimer ix key queue (inl e) v = record {
  sorted = insert-IsSorted ix.keys key queue v.sorted;
  counts = λ q.
      rw (e, depth-insert_new timer_owner q ix.keys key queue e)
        (get-bump ix.by_queue queue q (depth timer_owner q ix.keys) (v.counts q));
}
timer_insert-IsTimer ix key queue (inr e) v = record {
  sorted = insert-IsSorted ix.keys key queue v.sorted;
  counts = λ q. rw e (
      v.counts q
      ∙ ap nonzero (
          cancel (depth timer_owner q (BTreeMap.insert ix.keys key queue))
            (depth timer_owner q ix.keys) (one_if (queue =ᵇ q))
            (depth-insert_old timer_owner q ix.keys key queue queue v.sorted e)));
}

removed-IsTimer :
    (ix : TimerIndex) (key : Bytes) (queue : Text)
    → IsTimer ix
    → BTreeMap.get ix.keys key ≡ some queue
    → IsCounted timer_owner (BTreeMap.remove ix.keys key) (drop_queue ix.by_queue queue)
removed-IsTimer ix key queue v e = record {
  sorted = remove-IsSorted ix.keys key v.sorted;
  counts = λ q.
      get-drop ix.by_queue queue q (depth timer_owner q ix.keys)
        (depth timer_owner q (BTreeMap.remove ix.keys key)) (v.counts q)
        (depth-remove timer_owner q ix.keys key queue v.sorted e);
}

pub timer_remove-IsTimer :
    (ix : TimerIndex) (key : Bytes) → IsTimer ix → IsTimer (timer_remove ix key)
unfolding timer_remove
timer_remove-IsTimer ix key v = elim (Option-cases (BTreeMap.get ix.keys key)) [
  | inl e ↦ rw (e, timer_remove) v
  | inr (queue, e) ↦ rw (e, timer_remove) (removed-IsTimer ix key queue v e)
]

pop_timer-IsTimer :
    (ix : TimerIndex) (now : ℤ) (first : Option (Bytes × Text))
    → IsTimer ix
    → IsTimer (pop_timer ix now first).1
unfolding pop_timer
pop_timer-IsTimer ix now none v = v
pop_timer-IsTimer ix now (some (key, q)) v = elim (Bool-cases (ltb_ℤ now (deadline_of key))) [
  | inl late ↦ rw late v
  | inr due ↦ elim (Option-cases (BTreeMap.get ix.keys key)) [
    | inl e ↦ rw (due, e, pop_timer) v
    | inr (queue, e) ↦ rw (due, e, pop_timer) (removed-IsTimer ix key queue v e)
  ]
]

-- A pop, of a due key or of none, keeps the order and the counters.
pub pop_due-IsTimer : (ix : TimerIndex) (now : ℤ) → IsTimer ix → IsTimer (pop_due ix now).1
unfolding pop_due
pop_due-IsTimer ix now v = pop_timer-IsTimer ix now (first_entry ix.keys) v
