-- ===== src/Index.antt =====
-- `ReadyIndex`, `TimerIndex` and `Indexes` of src/storage.rs: the in-memory images of the ordered
-- keyspaces, with a live counter for each queue. The counters are `u64`s that count entries held in
-- memory and are not bounded here.
pub mod Counters
pub mod Ready
pub mod Timer
pub mod Serve
pub mod Length
use sepp.Prelude.{
  ℕ, ◌+◌, ◌-◌, ◌≡◌, Bool, true, false, [], ◌∷◌, Option, none, some, if◌then◌else◌, ◌==◌, unwrap_or,
  is_some, ltb, List,
}
use sepp.Prelude.Int.{ℤ, ltb_ℤ}
use sepp.Std.Bytes.{Bytes, Text, starts_with}
use sepp.Std.BTreeMap
use sepp.Std.BTreeMap.{BTreeMap}
use sepp.Std.HashMap
use sepp.Std.HashMap.{HashMap, bytes_eq}
use sepp.Keys.{read_queue, deadline_of}

-- `*map.entry(queue).or_default() += 1`.
unfoldable pub bump_queue : HashMap Text ℕ → Text → HashMap Text ℕ
bump_queue m queue = HashMap.insert m queue (unwrap_or (HashMap.get m queue) 0 + 1)

unfoldable pub drop_queue : HashMap Text ℕ → Text → HashMap Text ℕ
drop_queue m queue = elim (HashMap.get m queue) [
  | none ↦ m
  | some n ↦ if n - 1 == 0 then HashMap.remove m queue else HashMap.insert m queue (n - 1)
]

pub record ReadyIndex : Type 0 where
  pub keys : BTreeMap ℕ
  pub by_queue : HashMap Text ℕ

-- `if let Some(queue) = read_queue(key) { … }` round the two counter updates.
abbrev pub bump_owner : HashMap Text ℕ → Option Text → HashMap Text ℕ
bump_owner m none = m
bump_owner m (some queue) = bump_queue m queue

abbrev pub drop_owner : HashMap Text ℕ → Option Text → HashMap Text ℕ
drop_owner m none = m
drop_owner m (some queue) = drop_queue m queue

unfoldable pub ready_insert : ReadyIndex → Bytes → ℕ → ReadyIndex
ready_insert ix key attempt = record {
  keys = BTreeMap.insert ix.keys key attempt;
  by_queue =
      if is_some (BTreeMap.get ix.keys key)
      then ix.by_queue
      else bump_owner ix.by_queue (read_queue key);
}

unfoldable pub ready_remove : ReadyIndex → Bytes → Option ℕ × ReadyIndex
ready_remove ix key = elim (BTreeMap.get ix.keys key) [
  | none ↦ (none, ix)
  | some attempt ↦ (
    some attempt,
    record {
      keys = BTreeMap.remove ix.keys key;
      by_queue = drop_owner ix.by_queue (read_queue key);
    },
  )
]

-- `range(prefix..).next().filter(|(k, _)| k.starts_with(prefix))`.
first_of_prefix : BTreeMap ℕ → Bytes → Option Bytes
first_of_prefix [] prefix = none
first_of_prefix ((k, a) ∷ rest) prefix = if starts_with k prefix then some k else none

pop_key : ReadyIndex → Option Bytes → Option (Bytes × ℕ) × ReadyIndex
pop_key ix none = (none, ix)
pop_key ix (some key) = elim (BTreeMap.get ix.keys key) [
  | none ↦ (none, ix)
  | some attempt ↦ (
    some (key, attempt),
    record {
      keys = BTreeMap.remove ix.keys key;
      by_queue = drop_owner ix.by_queue (read_queue key);
    },
  )
]

unfoldable pub pop_front : ReadyIndex → Bytes → Option (Bytes × ℕ) × ReadyIndex
unfolding pop_key first_of_prefix
pop_front ix prefix = pop_key ix (first_of_prefix (BTreeMap.range_from ix.keys prefix) prefix)

unfoldable pub ready_attempt : ReadyIndex → Bytes → Option ℕ
ready_attempt ix key = BTreeMap.get ix.keys key

pub record TimerIndex : Type 0 where
  pub keys : BTreeMap Text
  pub by_queue : HashMap Text ℕ

unfoldable pub timer_insert : TimerIndex → Bytes → Text → TimerIndex
timer_insert ix key queue = record {
  keys = BTreeMap.insert ix.keys key queue;
  by_queue =
      if is_some (BTreeMap.get ix.keys key) then ix.by_queue else bump_queue ix.by_queue queue;
}

unfoldable pub timer_remove : TimerIndex → Bytes → TimerIndex
timer_remove ix key = elim (BTreeMap.get ix.keys key) [
  | none ↦ ix
  | some queue ↦ record {
    keys = BTreeMap.remove ix.keys key;
    by_queue = drop_queue ix.by_queue queue;
  }
]

abbrev first_entry : BTreeMap Text → Option (Bytes × Text)
first_entry [] = none
first_entry (e ∷ rest) = some e

pop_timer : TimerIndex → ℤ → Option (Bytes × Text) → Option (Bytes × Text) × TimerIndex
pop_timer ix now none = (none, ix)
pop_timer ix now (some (key, _)) =
    if ltb_ℤ now (deadline_of key) then (none, ix) else elim (BTreeMap.get ix.keys key) [
      | none ↦ (none, ix)
      | some queue ↦ (
        some (key, queue),
        record { keys = BTreeMap.remove ix.keys key; by_queue = drop_queue ix.by_queue queue },
      )
    ]

unfoldable pub pop_due : TimerIndex → ℤ → Option (Bytes × Text) × TimerIndex
unfolding pop_timer
pop_due ix now = pop_timer ix now (first_entry ix.keys)

unfoldable pub earliest : TimerIndex → Option ℤ
earliest ix = elim (first_entry ix.keys) [ none ↦ none | some e ↦ some (deadline_of e.0) ]

pub record Indexes : Type 0 where
  pub ready : ReadyIndex
  pub scheduled : TimerIndex
  pub leases : TimerIndex
  pub dedup_timers : TimerIndex
  pub dead_letter : TimerIndex
  pub closing : HashMap Text ℤ

abbrev pub queue_count : HashMap Text ℕ → Text → ℕ
queue_count m queue = unwrap_or (HashMap.get m queue) 0

unfoldable pub live_depth : Indexes → Text → ℕ
live_depth ix queue =
    queue_count ix.ready.by_queue queue
    + queue_count ix.scheduled.by_queue queue
    + queue_count ix.leases.by_queue queue

pub record QueueDepthCounts : Type 0 where
  pub ready : ℕ
  pub scheduled : ℕ
  pub inflight : ℕ
  pub dead_letter : ℕ

unfoldable pub depth_counts : Indexes → Text → QueueDepthCounts
depth_counts ix queue = record {
  ready = queue_count ix.ready.by_queue queue;
  scheduled = queue_count ix.scheduled.by_queue queue;
  inflight = queue_count ix.leases.by_queue queue;
  dead_letter = queue_count ix.dead_letter.by_queue queue;
}
