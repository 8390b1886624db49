-- ===== src/Storage/Lease/Keep.antt =====
-- `apply_ack`, `apply_nack` and `apply_extend` of src/storage.rs, on the mirror.
use sepp.Prelude.{ℕ}
use sepp.Prelude.Maintains.{Maintains, maintains_rules}
use sepp.Std.Bytes.{Text}
use sepp.Proto.{Prost}
use sepp.Fjall.{Fjall}
use sepp.Keys.{Inflight}
use sepp.Storage.{Timer}
use sepp.Storage.Mirror.{Mirrors, mirror_rules, put_timer-Mirrors, take_timer-Mirrors}
use sepp.Storage.DeadLetter.Keep.{maybe_store_dead_letter-Mirrors}
use sepp.Storage.Lease.{nack_dead, requeue, nack_retry, apply_nack, extend_leased, apply_extend}
use sepp.Proto.{NackRequest, ExtendRequest}
use sepp.Prelude.{Bool, ltb}
use sepp.Prelude.Int.{ℤ}
use sepp.Prelude.Maintains.{Maintains-if}
use sepp.Storage.Lease.{leased, ack_leased, apply_ack}

ruleset lease_rules = (
  maintains_rules, mirror_rules, take_timer-Mirrors, put_timer-Mirrors,
  maybe_store_dead_letter-Mirrors,
)

module _ ⦃db : Fjall⦄ ⦃prost : Prost⦄ where
  leased-Mirrors : (id : Text) (attempt : ℕ) → Maintains Mirrors (leased id attempt)
  unfolding leased
  leased-Mirrors id attempt = search lease_rules

  ack_leased-Mirrors : (id : Text) (i : Inflight) → Maintains Mirrors (ack_leased id i)
  unfolding ack_leased
  ack_leased-Mirrors id i = search (lease_rules, take_timer-Mirrors Timer.leases) depth 12

  pub apply_ack-Mirrors : (id : Text) (attempt : ℕ) → Maintains Mirrors (apply_ack id attempt)
  unfolding apply_ack
  apply_ack-Mirrors id attempt = search (maintains_rules, leased-Mirrors, ack_leased-Mirrors)

  nack_dead-Mirrors :
      (req : NackRequest) (forced enabled : Bool) (now : ℤ) (i : Inflight)
      → Maintains Mirrors (nack_dead req forced enabled now i)
  unfolding nack_dead
  nack_dead-Mirrors req forced enabled now i =
      search (lease_rules, take_timer-Mirrors Timer.leases) depth 14

  requeue-Mirrors :
      (req : NackRequest) (delay : ℕ) (now : ℤ) (i : Inflight)
      → Maintains Mirrors (requeue req delay now i)
  unfolding requeue
  requeue-Mirrors req delay now i =
      Maintains-if (ltb 0 delay) _ _ (search lease_rules) (search lease_rules)

  nack_retry-Mirrors :
      (req : NackRequest) (delay : ℕ) (now : ℤ) (i : Inflight)
      → Maintains Mirrors (nack_retry req delay now i)
  unfolding nack_retry
  nack_retry-Mirrors req delay now i =
      search (lease_rules, requeue-Mirrors, take_timer-Mirrors Timer.leases) depth 12

  pub apply_nack-Mirrors :
      (req : NackRequest) (delay : ℕ) (enabled : Bool) (now : ℤ)
      → Maintains Mirrors (apply_nack req delay enabled now)
  unfolding apply_nack
  apply_nack-Mirrors req delay enabled now =
      search (maintains_rules, leased-Mirrors, nack_dead-Mirrors, nack_retry-Mirrors)

  extend_leased-Mirrors :
      (id : Text) (at_ms : ℤ) (i : Inflight) → Maintains Mirrors (extend_leased id at_ms i)
  unfolding extend_leased
  extend_leased-Mirrors id at_ms i =
      search (lease_rules, take_timer-Mirrors Timer.leases, put_timer-Mirrors Timer.leases) depth 14

  pub apply_extend-Mirrors :
      (req : ExtendRequest) (lease_ms : ℕ) (now : ℤ)
      → Maintains Mirrors (apply_extend req lease_ms now)
  unfolding apply_extend
  apply_extend-Mirrors req lease_ms now =
      search (maintains_rules, leased-Mirrors, extend_leased-Mirrors)
