-- ===== src/Storage/Lease/Atomic.antt =====
-- What `apply_ack`, `apply_nack` and `apply_extend` of src/storage.rs leave behind when they fail.
use sepp.Prelude.{ℕ, ◌≡◌, Bool, false, ltb, leb, ◌||◌}
use sepp.Prelude.Int.{ℤ}
use sepp.Prelude.Atomic.{
  is_ok, Reads, Succeeds, IsAtomic, IsAtomic-Succeeds, IsAtomic-bind, IsAtomic-then, IsAtomic-if,
  Succeeds-if, reads_rules,
}
use sepp.Std.Bytes.{Text}
use sepp.Proto.{Prost, NackRequest, ExtendRequest}
use sepp.Fjall.{Fjall}
use sepp.Keys.{Inflight}
use sepp.Storage.{State}
use sepp.Storage.Lease.{
  leased, ack_leased, apply_ack, nack_dead, requeue, nack_retry, apply_nack, force_dead_letter,
  extend_leased, apply_extend,
}
use sepp.Storage.Atomic.{tx_get-Reads, write_rules}
use sepp.Storage.DeadLetter.Atomic.{maybe_store_dead_letter-IsAtomic}

module _ ⦃db : Fjall⦄ ⦃prost : Prost⦄ where
  pub leased-Reads : (id : Text) (attempt : ℕ) → Reads (leased id attempt)
  unfolding leased
  leased-Reads id attempt = search (reads_rules, tx_get-Reads)

  ack_leased-Succeeds : (id : Text) (i : Inflight) → Succeeds (ack_leased id i)
  unfolding ack_leased
  ack_leased-Succeeds id i = search write_rules depth 12

  nack_dead-IsAtomic :
      (req : NackRequest) (forced enabled : Bool) (now : ℤ) (i : Inflight)
      → IsAtomic (nack_dead req forced enabled now i)
  unfolding nack_dead
  nack_dead-IsAtomic req forced enabled now i =
      IsAtomic-then _ _ (maybe_store_dead_letter-IsAtomic _ _ enabled)
        λ _. search write_rules depth 14

  requeue-Succeeds :
      (req : NackRequest) (delay : ℕ) (now : ℤ) (i : Inflight) → Succeeds (requeue req delay now i)
  unfolding requeue
  requeue-Succeeds req delay now i =
      Succeeds-if (ltb 0 delay) _ _ (search write_rules) (search write_rules)

  nack_retry-Succeeds :
      (req : NackRequest) (delay : ℕ) (now : ℤ) (i : Inflight)
      → Succeeds (nack_retry req delay now i)
  unfolding nack_retry
  nack_retry-Succeeds req delay now i = search (write_rules, requeue-Succeeds) depth 12

  extend_leased-Succeeds :
      (id : Text) (at_ms : ℤ) (i : Inflight) → Succeeds (extend_leased id at_ms i)
  unfolding extend_leased
  extend_leased-Succeeds id at_ms i = search write_rules depth 14

  -- An ack that fails leaves the whole state as it was: keyspaces, indexes and cycle.
  pub apply_ack-atomic :
      (id : Text) (attempt : ℕ) (s : State)
      → is_ok (apply_ack id attempt s).0 ≡ false
      → (apply_ack id attempt s).1 ≡ s
  unfolding apply_ack
  apply_ack-atomic id attempt =
      (IsAtomic-bind _ _ (leased-Reads id attempt)
        λ i. IsAtomic-Succeeds _ (ack_leased-Succeeds id i)).at

  -- A nack that fails leaves the whole state as it was: it stores no dead letter and moves no job.
  pub apply_nack-atomic :
      (req : NackRequest) (delay : ℕ) (enabled : Bool) (now : ℤ) (s : State)
      → is_ok (apply_nack req delay enabled now s).0 ≡ false
      → (apply_nack req delay enabled now s).1 ≡ s
  unfolding apply_nack
  apply_nack-atomic req delay enabled now =
      (IsAtomic-bind _ _ (leased-Reads req.job_id req.attempt) λ i.
        IsAtomic-if (force_dead_letter req || leb i.max_attempts i.attempt) _ _
          (nack_dead-IsAtomic req (force_dead_letter req) enabled now i)
          (IsAtomic-Succeeds _ (nack_retry-Succeeds req delay now i))).at

  -- An extension that fails leaves the whole state as it was.
  pub apply_extend-atomic :
      (req : ExtendRequest) (lease_ms : ℕ) (now : ℤ) (s : State)
      → is_ok (apply_extend req lease_ms now s).0 ≡ false
      → (apply_extend req lease_ms now s).1 ≡ s
  unfolding apply_extend
  apply_extend-atomic req lease_ms now =
      (IsAtomic-bind _ _ (leased-Reads req.job_id req.attempt)
        λ i. IsAtomic-Succeeds _ (extend_leased-Succeeds req.job_id _ i)).at
