-- ===== src/Storage/Atomic.antt =====
-- The single calls of an action of src/storage.rs: those that read, and those that write.
use sepp.Prelude.{ℕ, ◌≡◌, refl, Option, none, some, String}
use sepp.Prelude.Atomic.{
  is_ok, Reads, Succeeds, IsAtomic, IsAtomic-Reads, IsAtomic-Succeeds, IsAtomic-bind, IsAtomic-then,
  IsAtomic-if, Succeeds-if, reads_rules, succeeds_rules,
}
use sepp.Std.Bytes.{Bytes, Text}
use sepp.Fjall.{Fjall}
use sepp.Storage.{
  State, Space, Timer, Cycle, fetched, tx_get, tx_insert, tx_remove, index_timer, unindex_timer,
  index_ready, note,
}

module _ ⦃db : Fjall⦄ where
  fetched-Reads : (e : Option String) (v : Option Bytes) (s : State) → (fetched e v s).1 ≡ s
  unfolding fetched
  fetched-Reads none v s = refl
  fetched-Reads (some e) v s = refl

  pub tx_get-Reads : (sp : Space) (k : Bytes) → Reads (tx_get sp k)
  unfolding tx_get
  tx_get-Reads sp k = record { at = λ s. fetched-Reads _ _ s }

  pub tx_insert-Succeeds : (sp : Space) (k v : Bytes) → Succeeds (tx_insert sp k v)
  unfolding tx_insert
  tx_insert-Succeeds sp k v = record { at = λ s. refl }

  pub tx_remove-Succeeds : (sp : Space) (k : Bytes) → Succeeds (tx_remove sp k)
  unfolding tx_remove
  tx_remove-Succeeds sp k = record { at = λ s. refl }

  pub index_timer-Succeeds : (t : Timer) (k : Bytes) (q : Text) → Succeeds (index_timer t k q)
  unfolding index_timer
  index_timer-Succeeds t k q = record { at = λ s. refl }

  pub unindex_timer-Succeeds : (t : Timer) (k : Bytes) → Succeeds (unindex_timer t k)
  unfolding unindex_timer
  unindex_timer-Succeeds t k = record { at = λ s. refl }

  pub index_ready-Succeeds : (k : Bytes) (a : ℕ) → Succeeds (index_ready k a)
  unfolding index_ready
  index_ready-Succeeds k a = record { at = λ s. refl }

  pub note-Succeeds : (f : Cycle → Cycle) → Succeeds (note f)
  unfolding note
  note-Succeeds f = record { at = λ s. refl }

pub ruleset write_rules = (
  succeeds_rules, tx_insert-Succeeds, tx_remove-Succeeds, index_timer-Succeeds,
  unindex_timer-Succeeds, index_ready-Succeeds, note-Succeeds,
)
