-- ===== src/Peek/Covers.antt =====
-- What the pages of `peek_keys` of src/storage.rs give of the indexes, in every state of a job.
use sepp.Prelude.{ℕ, ◌≡◌, List, ◌++◌, Option, min, max, arith}
use sepp.Std.Bytes.{Bytes, Text}
use sepp.Fjall.{Fjall}
use sepp.Keys.{queue_prefix}
use sepp.Index.{Indexes}
use sepp.Op.{PeekState}
use sepp.Storage.{State}
use sepp.Storage.Mirror.{Mirrors}
use sepp.Peek.{while_prefix, entries_from, peek_keys, peek_limit_max}
use sepp.Peek.Pages.{owned, owned_after, peek_timers-Covers}
use sepp.Peek.Ready.{ready_from, keys_after, peek_ready-Covers}

-- The keys of a queue in an index, in order: all of them, or those after a cursor.
abbrev pub keys_from : Indexes → PeekState → Text → Option Bytes → List Bytes
keys_from ix PeekState.ready q cursor =
    while_prefix (queue_prefix q) (ready_from ix.ready.keys (queue_prefix q) cursor)
keys_from ix PeekState.scheduled q cursor = owned q (entries_from ix.scheduled.keys cursor)
keys_from ix PeekState.inflight q cursor = owned q (entries_from ix.leases.keys cursor)
keys_from ix PeekState.dead_letter q cursor = owned q (entries_from ix.dead_letter.keys cursor)

-- What the pages after a page have still to give, none after the last.
abbrev pub keys_left : Indexes → PeekState → Text → Option Bytes → List Bytes
keys_left ix PeekState.ready q next = keys_after ix.ready.keys (queue_prefix q) next
keys_left ix PeekState.scheduled q next = owned_after q ix.scheduled.keys next
keys_left ix PeekState.inflight q next = owned_after q ix.leases.keys next
keys_left ix PeekState.dead_letter q next = owned_after q ix.dead_letter.keys next

module _ ⦃db : Fjall⦄ where
  -- While the indexes mirror the keyspaces, a page has the next keys of the queue after the cursor, in
  -- order, and the pages after it have exactly the others: whatever the limit that the caller asks
  -- for, and when the cap on examined entries cuts a page short, no key is lost or given twice.
  pub peek_keys-Covers :
      (s : State) (state : PeekState) (queue : Text) (cursor : Option Bytes) (limit : ℕ)
      → Mirrors s
      → keys_from s.indexes state queue cursor
        ≡ (peek_keys s.indexes state queue cursor limit).keys
          ++ keys_left s.indexes state queue
              (peek_keys s.indexes state queue cursor limit).next_cursor
  unfolding peek_keys peek_limit_max
  peek_keys-Covers s PeekState.ready queue cursor limit m =
      peek_ready-Covers s.indexes.ready.keys queue cursor (min (max limit 1) 100) m.0.counted.sorted
        (omega arith)
  peek_keys-Covers s PeekState.scheduled queue cursor limit m =
      peek_timers-Covers s.indexes.scheduled.keys queue cursor _ m.1.sorted
  peek_keys-Covers s PeekState.inflight queue cursor limit m =
      peek_timers-Covers s.indexes.leases.keys queue cursor _ m.2.sorted
  peek_keys-Covers s PeekState.dead_letter queue cursor limit m =
      peek_timers-Covers s.indexes.dead_letter.keys queue cursor _ m.4.sorted
