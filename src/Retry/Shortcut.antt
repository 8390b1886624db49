-- ===== src/Retry/Shortcut.antt =====
-- The fast paths of `resolve_retry_delay` and `resolve_extend_lease` of src/storage.rs.
use sepp.Prelude.{Option, not-true, and-true, not, ◌&&◌}
use sepp.Queues.{RetryPolicy, retry_policy}
use sepp.Queues.Effective.{policy_of}
use sepp.Prelude.{
  ℕ, ◌≤◌, ◌≡◌, refl, Bool, true, false, not, ◌&&◌, none, some, min, arith, and-true, Option,
  not-true, leb, leb→le, if◌then◌else◌,
}
use sepp.Prelude.Result.{Result, ok}
use sepp.Std.Bytes.{Bytes, Text}
use sepp.Proto.{Prost, NackRequest, ExtendRequest}
use sepp.Fjall.{Fjall}
use sepp.Config.{Config}
use sepp.Queues.{RetryPolicy, effective, retry_policy, from_config}
use sepp.Queues.Effective.{
  policy_of, retry_policy-effective, min_max_lease_ms-le, any_retry_policy-zero,
}
use sepp.Keys.{Inflight, decode_inflight}
use sepp.Storage.{Tx}
use sepp.Retry.{
  JitterHash, queue_of_inflight_job, policy_retry_delay_ms, delay_under, resolve_retry_delay,
  explicit_delay, requested_lease, resolve_extend_lease, is_none,
}

module _ ⦃db : Fjall⦄ ⦃prost : Prost⦄ where
  -- The snapshot has a record of the job in flight, readable, and of the queue.
  pub record IsInflight (snap : Tx) (id queue : Text) : Type 0 where
    pub bytes : Bytes
    pub inflight : Inflight
    pub readable : db.read_error snap.inflight id ≡ none
    pub row : db.get snap.inflight id ≡ some bytes
    pub decoded : decode_inflight bytes ≡ ok inflight
    pub of_queue : inflight.queue ≡ queue

  found :
      (snap : Tx) (id queue : Text)
      → IsInflight snap id queue
      → queue_of_inflight_job snap id ≡ ok (some queue)
  unfolding queue_of_inflight_job
  found snap id queue i = rw (i.readable, i.row, i.decoded, i.of_queue) refl

  skipped :
      (b : Bool) (requested lease : ℕ) (slow : Result ℕ)
      → slow ≡ ok (min requested lease)
      → (b ≡ true → requested ≤ lease)
      → (if b then ok requested else slow) ≡ ok (min requested lease)
  skipped true requested lease slow e h = ground (arith, h refl)
  skipped false requested lease slow e h = e

  -- The lease that an extend asks for is cut to the longest of the job's queue, whether or not the
  -- lookup of that queue is skipped.
  pub resolve_extend_lease-min :
      (cfg : Config) (snap : Tx) (req : ExtendRequest) (queue : Text)
      → IsInflight snap req.job_id queue
      → resolve_extend_lease (from_config cfg) snap req
        ≡ ok (min (requested_lease req) (effective (from_config cfg) queue).max_lease_duration_ms)
  unfolding resolve_extend_lease
  resolve_extend_lease-min cfg snap req queue i =
      skipped _ _ _ _ (rw (found snap req.job_id queue i) refl)
        λ (fast : leb (requested_lease req) (from_config cfg).min_max_lease_ms ≡ true). omega (
          arith,
          leb→le (requested_lease req) (from_config cfg).min_max_lease_ms fast,
          min_max_lease_ms-le cfg queue,
        )

module _ ⦃db : Fjall⦄ ⦃prost : Prost⦄ ⦃h : JitterHash⦄ where
  nothing_explicit : (o : Option ℕ) → is_none o ≡ true → o ≡ none
  nothing_explicit none e = refl
  nothing_explicit (some ms) e = cc

  no_delay :
      (policy : RetryPolicy) (req : NackRequest)
      → explicit_delay req ≡ none
      → policy.retry_delay_ms ≡ 0
      → 0 ≡ delay_under policy req
  unfolding delay_under policy_retry_delay_ms
  no_delay policy req e z = rw (e, delay_under, policy_retry_delay_ms, z) refl

  skipped_delay :
      (b : Bool) (delay : ℕ) (slow : Result ℕ)
      → slow ≡ ok delay
      → (b ≡ true → 0 ≡ delay)
      → (if b then ok 0 else slow) ≡ ok delay
  skipped_delay true delay slow e k = ground (arith, k refl)
  skipped_delay false delay slow e k = e

  -- The delay put into a nack is the request's, cut to the queue's horizon, or else that of the
  -- retry policy in the limits of the job's queue, whether or not the lookup of that queue is
  -- skipped.
  pub resolve_retry_delay-policy :
      (cfg : Config) (snap : Tx) (req : NackRequest) (queue : Text)
      → IsInflight snap req.job_id queue
      → resolve_retry_delay (from_config cfg) (from_config cfg) snap req
        ≡ ok (delay_under (policy_of (effective (from_config cfg) queue)) req)
  unfolding resolve_retry_delay
  resolve_retry_delay-policy cfg snap req queue i =
      let r = from_config cfg in
      rw (← (retry_policy-effective r queue).0) (
        skipped_delay (is_none (explicit_delay req) && not r.any_retry_policy) _ _
          (rw (found snap req.job_id queue i) refl)
          λ fast.
            let both = and-true (is_none (explicit_delay req)) (not r.any_retry_policy) fast in
            no_delay (retry_policy r queue) req (nothing_explicit _ both.0)
              (any_retry_policy-zero cfg queue (not-true r.any_retry_policy both.1)))
