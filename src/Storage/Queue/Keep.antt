-- ===== src/Storage/Queue/Keep.antt =====
-- `apply_close_queue`, `apply_open_queue`, `apply_purge_queue_chunk` and `apply_audit_append` of
-- src/storage.rs, on the mirror.
use sepp.Prelude.{
  ℕ, zero, suc, ◌≡◌, refl, Bool, true, false, List, [], ◌∷◌, Option, none, some, if◌then◌else◌, ltb,
}
use sepp.Prelude.Int.{ℤ}
use sepp.Prelude.Result.{Exec, ◌>>=◌, ◌>>◌}
use sepp.Prelude.Maintains.{
  Maintains, Maintains-if, Maintains-bind, Maintains-pure, maintains_rules,
}
use sepp.Std.Bytes.{Bytes, Text, ◌=ᵇ◌, cmp}
use sepp.Std.BigEndian.{i64_to_be}
use sepp.Std.HashMap
use sepp.Std.HashMap.{HashMap, bytes_eq}
use sepp.Proto.{Prost, AuditRecord}
use sepp.Fjall.{Fjall}
use sepp.Keys.{decode_ready, closing_key, audit_seq_key, timer_job_id, dedup_timer_key}
use sepp.Storage.{State, Space, Timer, tx_remove, tx_insert, note, mark_dirty}
use sepp.Storage.Mirror.{
  Mirrors, ClosingMirror, stored, mirror_rules, note-Mirrors, timer_space, take_timer-Mirrors,
}
use sepp.Storage.Mirror.Pop.{IsPopped, Passes, Leads-after, Leads-remove, pop_ready-Mirrors}
use sepp.Storage.Queue.{
  apply_close_queue, reopen, apply_open_queue, remove_job, id_of_ready, purge_ready, purge_keys,
  purge_timers, remove_dedup, purge_all, apply_purge_queue_chunk, apply_audit_append,
}

pub closing_key-eq : (p q : Text) → (closing_key p =ᵇ closing_key q) ≡ (p =ᵇ q)
unfolding closing_key ◌=ᵇ◌ cmp
closing_key-eq p q = refl

audit_seq_key-eq : (q : Text) → (audit_seq_key =ᵇ closing_key q) ≡ false
unfolding closing_key ◌=ᵇ◌ cmp
audit_seq_key-eq q = refl

module _ ⦃db : Fjall⦄ where
  close_rows :
      (ks : db.Keyspace) (m : HashMap Text ℤ) (p : Text) (d : ℤ)
      → ClosingMirror ks m
      → ClosingMirror (db.insert ks (closing_key p) (i64_to_be d)) (HashMap.insert m p d)
  close_rows ks m p d h = record {
    distinct = HashMap.insert-IsMap m p d h.distinct;
    rows = λ q.
        rw
          (
            HashMap.get-insert m p q d,
            db.get-insert ks (closing_key p) (i64_to_be d) (closing_key q),
            closing_key-eq p q,
          )
          (same q (p =ᵇ q));
  }
    where
      same :
          (q : Text) (b : Bool)
          → (if b then some (i64_to_be d) else db.get ks (closing_key q))
            ≡ stored (if b then some d else HashMap.get m q)
      same q true = refl
      same q false = h.rows q

  pub open_rows :
      (ks : db.Keyspace) (m : HashMap Text ℤ) (p : Text)
      → ClosingMirror ks m
      → ClosingMirror (db.remove ks (closing_key p)) (HashMap.remove m p)
  open_rows ks m p h = record {
    distinct = HashMap.remove-IsMap m p h.distinct;
    rows = λ q.
        rw
          (
            HashMap.get-remove m p q,
            db.get-remove ks (closing_key p) (closing_key q),
            closing_key-eq p q,
          )
          (same q (p =ᵇ q));
  }
    where
      same :
          (q : Text) (b : Bool)
          → (if b then none else db.get ks (closing_key q))
            ≡ stored (if b then none else HashMap.get m q)
      same q true = refl
      same q false = h.rows q

  audit_rows :
      (ks : db.Keyspace) (m : HashMap Text ℤ) (v : Bytes)
      → ClosingMirror ks m
      → ClosingMirror (db.insert ks audit_seq_key v) m
  audit_rows ks m v h = record {
    distinct = h.distinct;
    rows =
        λ q. rw (db.get-insert ks audit_seq_key v (closing_key q), audit_seq_key-eq q) (h.rows q);
  }

module _ ⦃db : Fjall⦄ ⦃prost : Prost⦄ where
  pub apply_close_queue-Mirrors :
      (q : Text) (now grace : ℤ) → Maintains Mirrors (apply_close_queue q now grace)
  unfolding apply_close_queue ◌>>=◌ tx_insert note
  apply_close_queue-Mirrors q now grace = record {
    at = λ s m _. (m.0, m.1, m.2, m.3, m.4, close_rows s.tx.meta s.indexes.closing q _ m.5);
  }

  reopen-Mirrors : (q : Text) (d : Option ℤ) → Maintains Mirrors (reopen q d)
  unfolding reopen ◌>>=◌ tx_remove note
  reopen-Mirrors q none = record { at = λ s m _. m }
  reopen-Mirrors q (some d) = record {
    at = λ s m _. (m.0, m.1, m.2, m.3, m.4, open_rows s.tx.meta s.indexes.closing q m.5);
  }

  pub apply_open_queue-Mirrors : (q : Text) → Maintains Mirrors (apply_open_queue q)
  unfolding apply_open_queue
  apply_open_queue-Mirrors q = search (maintains_rules, reopen-Mirrors)

  remove_job-Mirrors : (id : Option Bytes) → Maintains Mirrors (remove_job id)
  unfolding remove_job
  remove_job-Mirrors none = search maintains_rules
  remove_job-Mirrors (some id) = search (maintains_rules, mirror_rules)

  remove_job-Passes :
      (k : Bytes) (id : Option Bytes) → Passes (IsPopped Space.ready k) (remove_job id)
  unfolding remove_job tx_remove ◌>>=◌
  remove_job-Passes k none = record { at = λ s p _. (refl, p) }
  remove_job-Passes k (some id) = record { at = λ s p _. (refl, p) }

  purge_ready-Mirrors : (left : ℕ) (p : Bytes) → Maintains Mirrors (purge_ready left p)
  unfolding purge_ready
  purge_ready-Mirrors zero p = Maintains-pure zero
  purge_ready-Mirrors (suc left) p = pop_ready-Mirrors p _ (Maintains-pure (suc left)) λ k _.
      Leads-after (IsPopped Space.ready k) Mirrors _ _
        (remove_job-Passes k (id_of_ready (decode_ready k)))
        (Leads-remove Space.ready k _
          (Maintains-bind _ _ (note-Mirrors mark_dirty) λ _. purge_ready-Mirrors left p))

  purge_keys-Mirrors :
      (follow : Bytes → Exec State Unit) (t : Timer) (keys : List Bytes)
      → ((k : Bytes) → Maintains Mirrors (follow k))
      → Maintains Mirrors (purge_keys follow (timer_space t) t keys)
  unfolding purge_keys
  purge_keys-Mirrors follow t [] h = search maintains_rules
  purge_keys-Mirrors follow t (k ∷ keys) h = Maintains-bind _ _ (h k) λ _.
      take_timer-Mirrors t k _
        (Maintains-bind _ _ (note-Mirrors mark_dirty) λ _. purge_keys-Mirrors follow t keys h)

  purge_timers-Mirrors :
      (follow : Bytes → Exec State Unit) (t : Timer) (q : Text) (left : ℕ)
      → ((k : Bytes) → Maintains Mirrors (follow k))
      → Maintains Mirrors (purge_timers follow (timer_space t) t q left)
  unfolding purge_timers
  purge_timers-Mirrors follow t q left h =
      Maintains-bind _ _ (search maintains_rules)
        λ keys. Maintains-bind _ _ (purge_keys-Mirrors follow t keys h) λ _. search maintains_rules

  remove_dedup-Mirrors : (k : Option Bytes) → Maintains Mirrors (remove_dedup k)
  unfolding remove_dedup
  remove_dedup-Mirrors none = search maintains_rules
  remove_dedup-Mirrors (some k) = search mirror_rules

  purge_all-Mirrors : (q : Text) (max : ℕ) → Maintains Mirrors (purge_all q max)
  unfolding purge_all
  purge_all-Mirrors q max = Maintains-bind _ _ (purge_ready-Mirrors max _) λ left₁.
      Maintains-bind _ _
        (purge_timers-Mirrors _ Timer.scheduled q left₁ λ k. remove_job-Mirrors (timer_job_id k))
        λ left₂.
          Maintains-bind _ _
            (purge_timers-Mirrors _ Timer.dead_letter q left₂ λ _. search maintains_rules)
            λ left₃.
              Maintains-bind _ _
                (purge_timers-Mirrors _ Timer.dedup_timers q left₃
                  λ k. remove_dedup-Mirrors (dedup_timer_key k))
                λ left₄. search (maintains_rules, mirror_rules)

  pub apply_purge_queue_chunk-Mirrors :
      (q : Text) (max : ℕ) → Maintains Mirrors (apply_purge_queue_chunk q max)
  unfolding apply_purge_queue_chunk
  apply_purge_queue_chunk-Mirrors q max =
      Maintains-bind _ _ (search maintains_rules)
        λ leased. Maintains-if (ltb 0 leased) _ _ (search maintains_rules) (purge_all-Mirrors q max)

  put_seq-Mirrors :
      {B : Type 0} (v : Bytes) (rest : Exec State B)
      → Maintains Mirrors rest
      → Maintains Mirrors (tx_insert Space.meta audit_seq_key v >> rest)
  unfolding tx_insert ◌>>=◌
  put_seq-Mirrors v rest h = record {
    at = λ s m g. h.at _ (m.0, m.1, m.2, m.3, m.4, audit_rows s.tx.meta s.indexes.closing v m.5) g;
  }

  pub apply_audit_append-Mirrors :
      (r : AuditRecord) (now : ℤ) → Maintains Mirrors (apply_audit_append r now)
  unfolding apply_audit_append
  apply_audit_append-Mirrors r now =
      search (maintains_rules, mirror_rules, put_seq-Mirrors) depth 10
