-- ===== src/Peek.antt =====
-- `peek_keys` of src/storage.rs: pages of the keys of a queue, for the admin interface.
pub mod Covers
pub mod Pages
pub mod Ready
use sepp.Prelude.{
  ℕ, zero, suc, Bool, true, false, ◌&&◌, List, [], ◌∷◌, Option, none, some, Ordering, min, max,
  length, take, drop, ◌==◌, if◌then◌else◌,
}
use sepp.Std.Bytes.{Bytes, Text, cmp, ◌=ᵇ◌, starts_with}
use sepp.Std.BTreeMap.{BTreeMap, range_from}
use sepp.Keys.{queue_prefix}
use sepp.Index.{Indexes, TimerIndex}
use sepp.Op.{PeekState}

pub record PeekPage : Type 0 where
  pub keys : List Bytes
  pub next_cursor : Option Bytes
  pub truncated : Bool

unfoldable pub peek_limit_max : ℕ
peek_limit_max = 100

unfoldable pub peek_examine_cap : ℕ
peek_examine_cap = 10000

-- `range((Excluded(lo), Unbounded))`.
unfoldable pub range_after {ℓ} : {V : Type ℓ} → BTreeMap V → Bytes → BTreeMap V
range_after [] lo = []
range_after ((j, w) ∷ m) lo = elim (cmp j lo) [ Ordering.gt ↦ (j, w) ∷ m | _ ↦ range_after m lo ]

-- `.map(|(k, _)| k).take_while(|k| k.starts_with(&prefix))`.
unfoldable pub while_prefix {ℓ} : {V : Type ℓ} → Bytes → BTreeMap V → List Bytes
while_prefix prefix [] = []
while_prefix prefix ((k, v) ∷ m) = elim (starts_with k prefix) [
  | true ↦ k ∷ while_prefix prefix m
  | false ↦ []
]

abbrev pub last_of : List Bytes → Option Bytes
last_of [] = none
last_of (k ∷ []) = some k
last_of (k ∷ l ∷ ls) = last_of (l ∷ ls)

abbrev pub is_nonempty : {A : Type 0} → List A → Bool
is_nonempty [] = false
is_nonempty (x ∷ xs) = true

unfoldable pub peek_ready : BTreeMap ℕ → Text → Option Bytes → ℕ → PeekPage
peek_ready ready queue cursor limit =
    let prefix = queue_prefix queue in
    let range =
      while_prefix prefix
        (elim cursor [ some c ↦ range_after ready c | none ↦ range_from ready prefix ]) in
    let keys = take limit range in
    record {
      keys = keys;
      next_cursor =
          if length keys == limit && is_nonempty (drop limit range) then last_of keys else none;
      truncated = false;
    }

abbrev pub with_key : Bytes → PeekPage → PeekPage
with_key k page = record page { keys = k ∷ page.keys }

-- The loop over the entries that are left, with how many more may be examined, how many more keys
-- fit, and the key examined last.
unfoldable pub examine : Text → (left room : ℕ) → Option Bytes → BTreeMap Text → PeekPage
examine queue left room last [] = record { keys = []; next_cursor = none; truncated = false }
examine queue zero room last (e ∷ es) = record { keys = []; next_cursor = last; truncated = true }
examine queue (suc left) room last ((key, owner) ∷ es) = elim (owner =ᵇ queue) [
  | false ↦ examine queue left room (some key) es
  | true ↦ elim room [
    | suc (suc more) ↦ with_key key (examine queue left (suc more) (some key) es)
    | _ ↦ record { keys = key ∷ []; next_cursor = some key; truncated = false }
  ]
]

abbrev pub entries_from {ℓ} : {V : Type ℓ} → BTreeMap V → Option Bytes → BTreeMap V
entries_from m none = m
entries_from m (some c) = range_after m c

unfoldable pub peek_timers : BTreeMap Text → Text → Option Bytes → ℕ → PeekPage
peek_timers entries queue cursor limit =
    examine queue peek_examine_cap limit none (entries_from entries cursor)

unfoldable pub peek_keys : Indexes → PeekState → Text → Option Bytes → ℕ → PeekPage
peek_keys indexes state queue cursor n =
    let limit = min (max n 1) peek_limit_max in
    elim state [
      | PeekState.ready ↦ peek_ready indexes.ready.keys queue cursor limit
      | PeekState.scheduled ↦ peek_timers indexes.scheduled.keys queue cursor limit
      | PeekState.inflight ↦ peek_timers indexes.leases.keys queue cursor limit
      | PeekState.dead_letter ↦ peek_timers indexes.dead_letter.keys queue cursor limit
    ]
