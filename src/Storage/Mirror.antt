-- ===== src/Storage/Mirror.antt =====
-- What the in-memory indexes and the keyspaces have in common: each index has exactly the keys of
-- its keyspace, in order, the ready index counts the keys of each queue, and the close tombstones
-- are the `closing/` rows of `meta`. The rules below say which steps of an action keep that; they
-- are for the pairs of steps by which the code changes a keyspace and its index together.
pub mod Pop
pub mod Stale
use sepp.Prelude.{Bool-cases}
use sepp.Prelude.{
  Option-cases, inl, inr, ℕ, ◌≡◌, refl, Bool, true, false, Option, none, some, if◌then◌else◌,
  is_some, String,
}
use sepp.Prelude.Int.{ℤ}
use sepp.Prelude.Result.{Exec, ◌>>=◌, ◌>>◌}
use sepp.Prelude.Maintains.{Maintains}
use sepp.Std.Bytes.{Bytes, Text, ◌=ᵇ◌, =ᵇ_iff}
use sepp.Std.BigEndian.{i64_to_be}
use sepp.Std.BTreeMap
use sepp.Std.BTreeMap.{BTreeMap, IsSorted, insert-IsSorted, remove-IsSorted}
use sepp.Std.HashMap
use sepp.Std.HashMap.{IsMap, HashMap, bytes_eq}
use sepp.Fjall.{Fjall}
use sepp.Keys.{closing_key}
use sepp.Index.{ReadyIndex, TimerIndex, ready_insert, ready_remove, timer_insert, timer_remove}
use sepp.Index.Ready.{IsReady, ready_insert-IsReady, ready_remove-IsReady}
use sepp.Storage.{
  State, Cycle, Space, Timer, fetched, tx_get, tx_insert, tx_remove, index_ready, unindex_ready,
  index_timer, unindex_timer, note,
}

module _ ⦃db : Fjall⦄ where
  abbrev pub HasKeys {ℓ} : {V : Type ℓ} → db.Keyspace → BTreeMap V → Type 0
  HasKeys ks m = (k : Bytes) → is_some (BTreeMap.get m k) ≡ is_some (db.get ks k)

  pub HasKeys-insert {ℓ} :
      {V : Type ℓ} (ks : db.Keyspace) (m : BTreeMap V) (k value : Bytes) (v : V)
      → HasKeys ks m
      → HasKeys (db.insert ks k value) (BTreeMap.insert m k v)
  HasKeys-insert ks m k value v h j =
      rw (BTreeMap.get-insert m k j v, db.get-insert ks k value j) (same (k =ᵇ j))
    where
      same :
          (b : Bool)
          → is_some (if b then some v else BTreeMap.get m j)
            ≡ is_some (if b then some value else db.get ks j)
      same true = refl
      same false = h j

  pub HasKeys-remove {ℓ} :
      {V : Type ℓ} (ks : db.Keyspace) (m : BTreeMap V) (k : Bytes)
      → HasKeys ks m
      → HasKeys (db.remove ks k) (BTreeMap.remove m k)
  HasKeys-remove ks m k h j = rw (BTreeMap.get-remove m k j, db.get-remove ks k j) (same (k =ᵇ j))
    where
      same :
          (b : Bool)
          → is_some (if b then none else BTreeMap.get m j)
            ≡ is_some (if b then none else db.get ks j)
      same true = refl
      same false = h j

  -- A row that the index does not have may be removed alone.
  pub HasKeys-remove_absent {ℓ} :
      {V : Type ℓ} (ks : db.Keyspace) (m : BTreeMap V) (k : Bytes)
      → BTreeMap.get m k ≡ none
      → HasKeys ks m
      → HasKeys (db.remove ks k) m
  HasKeys-remove_absent ks m k e h j = rw (db.get-remove ks k j) (elim (Bool-cases (k =ᵇ j)) [
    | inl same ↦ rw (same, ← (=ᵇ_iff k j).0 same, e)
    | inr other ↦ rw other (h j)
  ])

  pub record ReadyMirror (ks : db.Keyspace) (ix : ReadyIndex) : Type 0 where
    pub counted : IsReady ix
    pub keys : HasKeys ks ix.keys

  pub record TimerMirror (ks : db.Keyspace) (ix : TimerIndex) : Type 0 where
    pub sorted : IsSorted ix.keys
    pub keys : HasKeys ks ix.keys

  abbrev pub stored : Option ℤ → Option Bytes
  stored none = none
  stored (some deadline) = some (i64_to_be deadline)

  pub record ClosingMirror (ks : db.Keyspace) (m : HashMap Text ℤ) : Type 0 where
    pub distinct : IsMap m
    pub rows : (q : Text) → db.get ks (closing_key q) ≡ stored (HashMap.get m q)

  abbrev pub Mirrors : State → Type 0
  Mirrors s =
      ReadyMirror s.tx.ready s.indexes.ready
      × TimerMirror s.tx.scheduled s.indexes.scheduled
      × TimerMirror s.tx.leases s.indexes.leases
      × TimerMirror s.tx.dedup_timers s.indexes.dedup_timers
      × TimerMirror s.tx.dead_letter s.indexes.dead_letter
      × ClosingMirror s.tx.meta s.indexes.closing

  pub ReadyMirror-insert :
      (ks : db.Keyspace) (ix : ReadyIndex) (k value : Bytes) (a : ℕ)
      → ReadyMirror ks ix
      → ReadyMirror (db.insert ks k value) (ready_insert ix k a)
  unfolding ready_insert
  ReadyMirror-insert ks ix k value a h = record {
    counted = ready_insert-IsReady ix k a h.counted;
    keys = HasKeys-insert ks ix.keys k value a h.keys;
  }

  pub TimerMirror-insert :
      (ks : db.Keyspace) (ix : TimerIndex) (k value : Bytes) (q : Text)
      → TimerMirror ks ix
      → TimerMirror (db.insert ks k value) (timer_insert ix k q)
  unfolding timer_insert
  TimerMirror-insert ks ix k value q h = record {
    sorted = insert-IsSorted ix.keys k q h.sorted;
    keys = HasKeys-insert ks ix.keys k value q h.keys;
  }

  pub TimerMirror-remove :
      (ks : db.Keyspace) (ix : TimerIndex) (k : Bytes)
      → TimerMirror ks ix
      → TimerMirror (db.remove ks k) (timer_remove ix k)
  unfolding timer_remove
  TimerMirror-remove ks ix k h = elim (Option-cases (BTreeMap.get ix.keys k)) [
    | inl e ↦
        rw (e, timer_remove)
          (record { sorted = h.sorted; keys = HasKeys-remove_absent ks ix.keys k e h.keys })
    | inr (q, e) ↦
        rw (e, timer_remove)
          (record {
            sorted = remove-IsSorted ix.keys k h.sorted;
            keys = HasKeys-remove ks ix.keys k h.keys;
          })
  ]

  pub ReadyMirror-remove :
      (ks : db.Keyspace) (ix : ReadyIndex) (k : Bytes)
      → ReadyMirror ks ix
      → ReadyMirror (db.remove ks k) (ready_remove ix k).1
  unfolding ready_remove
  ReadyMirror-remove ks ix k h = record {
    counted = ready_remove-IsReady ix k h.counted;
    keys = keys;
  }
    where
      keys : HasKeys (db.remove ks k) (ready_remove ix k).1.keys
      keys = elim (Option-cases (BTreeMap.get ix.keys k)) [
        | inl e ↦ rw (e, ready_remove) (HasKeys-remove_absent ks ix.keys k e h.keys)
        | inr (a, e) ↦ rw (e, ready_remove) (HasKeys-remove ks ix.keys k h.keys)
      ]

  -- The keyspace that a timer index mirrors.
  abbrev pub timer_space : Timer → Space
  timer_space Timer.scheduled = Space.scheduled
  timer_space Timer.leases = Space.leases
  timer_space Timer.dedup_timers = Space.dedup_timers
  timer_space Timer.dead_letter = Space.dead_letter

-- Steps that touch no mirrored keyspace and no index.
module _ ⦃db : Fjall⦄ where
  abbrev pub IsPlain : Space → Type 0
  IsPlain Space.jobs = Unit
  IsPlain Space.payloads = Unit
  IsPlain Space.inflight = Unit
  IsPlain Space.dedup = Unit
  IsPlain Space.audit = Unit
  IsPlain _ = ⊥

  pub tx_insert-Mirrors :
      (sp : Space) (k v : Bytes) → IsPlain sp → Maintains Mirrors (tx_insert sp k v)
  unfolding tx_insert
  tx_insert-Mirrors Space.jobs k v p = record { at = λ s m _. m }
  tx_insert-Mirrors Space.payloads k v p = record { at = λ s m _. m }
  tx_insert-Mirrors Space.inflight k v p = record { at = λ s m _. m }
  tx_insert-Mirrors Space.dedup k v p = record { at = λ s m _. m }
  tx_insert-Mirrors Space.audit k v p = record { at = λ s m _. m }
  tx_insert-Mirrors _ k v p = absurd p

  pub tx_remove-Mirrors : (sp : Space) (k : Bytes) → IsPlain sp → Maintains Mirrors (tx_remove sp k)
  unfolding tx_remove
  tx_remove-Mirrors Space.jobs k p = record { at = λ s m _. m }
  tx_remove-Mirrors Space.payloads k p = record { at = λ s m _. m }
  tx_remove-Mirrors Space.inflight k p = record { at = λ s m _. m }
  tx_remove-Mirrors Space.dedup k p = record { at = λ s m _. m }
  tx_remove-Mirrors Space.audit k p = record { at = λ s m _. m }
  tx_remove-Mirrors _ k p = absurd p

  pub note-Mirrors : (f : Cycle → Cycle) → Maintains Mirrors (note f)
  unfolding note
  note-Mirrors f = record { at = λ s m _. m }

  fetched-Mirrors :
      (e : Option String) (v : Option Bytes) (s : State) → Mirrors s → Mirrors (fetched e v s).1
  unfolding fetched
  fetched-Mirrors none v s m = m
  fetched-Mirrors (some e) v s m = m

  pub tx_get-Mirrors : (sp : Space) (k : Bytes) → Maintains Mirrors (tx_get sp k)
  unfolding tx_get
  tx_get-Mirrors sp k = record { at = λ s m _. fetched-Mirrors _ _ s m }

-- A keyspace and its index change together.
module _ ⦃db : Fjall⦄ {B : Type 0} where
  pub put_ready-Mirrors :
      (k v : Bytes) (a : ℕ) (rest : Exec State B)
      → Maintains Mirrors rest
      → Maintains Mirrors (tx_insert Space.ready k v >> (index_ready k a >> rest))
  unfolding tx_insert index_ready ◌>>=◌
  put_ready-Mirrors k v a rest h = record {
    at = λ s m g.
        h.at _ (ReadyMirror-insert s.tx.ready s.indexes.ready k v a m.0, m.1, m.2, m.3, m.4, m.5) g;
  }

  pub take_ready-Mirrors :
      (k : Bytes) (rest : Exec State B)
      → Maintains Mirrors rest
      → Maintains Mirrors (tx_remove Space.ready k >> (unindex_ready k >> rest))
  unfolding tx_remove unindex_ready ◌>>=◌
  take_ready-Mirrors k rest h = record {
    at = λ s m g.
        h.at _ (ReadyMirror-remove s.tx.ready s.indexes.ready k m.0, m.1, m.2, m.3, m.4, m.5) g;
  }

  pub put_timer-Mirrors :
      (t : Timer) (k v : Bytes) (q : Text) (rest : Exec State B)
      → Maintains Mirrors rest
      → Maintains Mirrors (tx_insert (timer_space t) k v >> (index_timer t k q >> rest))
  unfolding tx_insert index_timer ◌>>=◌
  put_timer-Mirrors Timer.scheduled k v q rest h = record {
    at = λ s m g. h.at _ (m.0, TimerMirror-insert _ _ k v q m.1, m.2, m.3, m.4, m.5) g;
  }
  put_timer-Mirrors Timer.leases k v q rest h = record {
    at = λ s m g. h.at _ (m.0, m.1, TimerMirror-insert _ _ k v q m.2, m.3, m.4, m.5) g;
  }
  put_timer-Mirrors Timer.dedup_timers k v q rest h = record {
    at = λ s m g. h.at _ (m.0, m.1, m.2, TimerMirror-insert _ _ k v q m.3, m.4, m.5) g;
  }
  put_timer-Mirrors Timer.dead_letter k v q rest h = record {
    at = λ s m g. h.at _ (m.0, m.1, m.2, m.3, TimerMirror-insert _ _ k v q m.4, m.5) g;
  }

  pub take_timer-Mirrors :
      (t : Timer) (k : Bytes) (rest : Exec State B)
      → Maintains Mirrors rest
      → Maintains Mirrors (tx_remove (timer_space t) k >> (unindex_timer t k >> rest))
  unfolding tx_remove unindex_timer ◌>>=◌
  take_timer-Mirrors Timer.scheduled k rest h = record {
    at = λ s m g. h.at _ (m.0, TimerMirror-remove _ _ k m.1, m.2, m.3, m.4, m.5) g;
  }
  take_timer-Mirrors Timer.leases k rest h = record {
    at = λ s m g. h.at _ (m.0, m.1, TimerMirror-remove _ _ k m.2, m.3, m.4, m.5) g;
  }
  take_timer-Mirrors Timer.dedup_timers k rest h = record {
    at = λ s m g. h.at _ (m.0, m.1, m.2, TimerMirror-remove _ _ k m.3, m.4, m.5) g;
  }
  take_timer-Mirrors Timer.dead_letter k rest h = record {
    at = λ s m g. h.at _ (m.0, m.1, m.2, m.3, TimerMirror-remove _ _ k m.4, m.5) g;
  }

  -- The dead-letter index changes before its row.
  pub untimer_dead-Mirrors :
      (k : Bytes) (rest : Exec State B)
      → Maintains Mirrors rest
      → Maintains Mirrors
          (unindex_timer Timer.dead_letter k >> (tx_remove Space.dead_letter k >> rest))
  unfolding tx_remove unindex_timer ◌>>=◌
  untimer_dead-Mirrors k rest h = record {
    at = λ s m g. h.at _ (m.0, m.1, m.2, m.3, TimerMirror-remove _ _ k m.4, m.5) g;
  }

-- The two last steps of an action.
module _ ⦃db : Fjall⦄ where
  pub put_scheduled-Mirrors :
      (k v : Bytes) (q : Text)
      → Maintains Mirrors (tx_insert Space.scheduled k v >> index_timer Timer.scheduled k q)
  unfolding tx_insert index_timer ◌>>=◌
  put_scheduled-Mirrors k v q = record {
    at = λ s m _. (m.0, TimerMirror-insert _ _ k v q m.1, m.2, m.3, m.4, m.5);
  }

  pub put_dead-Mirrors :
      (k v : Bytes) (q : Text)
      → Maintains Mirrors (index_timer Timer.dead_letter k q >> tx_insert Space.dead_letter k v)
  unfolding tx_insert index_timer ◌>>=◌
  put_dead-Mirrors k v q = record {
    at = λ s m _. (m.0, m.1, m.2, m.3, TimerMirror-insert _ _ k v q m.4, m.5);
  }

  pub take_scheduled-Mirrors :
      (k : Bytes)
      → Maintains Mirrors (tx_remove Space.scheduled k >> unindex_timer Timer.scheduled k)
  unfolding tx_remove unindex_timer ◌>>=◌
  take_scheduled-Mirrors k = record {
    at = λ s m _. (m.0, TimerMirror-remove _ _ k m.1, m.2, m.3, m.4, m.5);
  }

  pub take_dedup-Mirrors :
      (k : Bytes)
      → Maintains Mirrors (tx_remove Space.dedup_timers k >> unindex_timer Timer.dedup_timers k)
  unfolding tx_remove unindex_timer ◌>>=◌
  take_dedup-Mirrors k = record {
    at = λ s m _. (m.0, m.1, m.2, TimerMirror-remove _ _ k m.3, m.4, m.5);
  }

  pub take_last_ready-Mirrors :
      (k : Bytes) → Maintains Mirrors (tx_remove Space.ready k >> unindex_ready k)
  unfolding tx_remove unindex_ready ◌>>=◌
  take_last_ready-Mirrors k = record {
    at = λ s m _. (ReadyMirror-remove s.tx.ready s.indexes.ready k m.0, m.1, m.2, m.3, m.4, m.5);
  }

pub ruleset mirror_rules = (
  tx_insert-Mirrors, tx_remove-Mirrors, note-Mirrors, tx_get-Mirrors, put_ready-Mirrors,
  take_ready-Mirrors, put_timer-Mirrors, take_timer-Mirrors, untimer_dead-Mirrors,
  put_scheduled-Mirrors, put_dead-Mirrors, take_scheduled-Mirrors, take_dedup-Mirrors,
  take_last_ready-Mirrors,
)
