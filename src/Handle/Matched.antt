-- ===== src/Handle/Matched.antt =====
-- The methods of the `Storage` handle against the functions that apply their operations.
use sepp.Handle.{as_nack, as_extend}
use sepp.Op.{Op}
use sepp.Prelude.Int.{pos}
use sepp.Proto.{NackRequest, ExtendRequest}
use sepp.Queues.{QueueRegistry}
use sepp.Retry.{JitterHash, resolve_extend_lease}
use sepp.Storage.{Tx}
use sepp.Storage.Lease.{apply_nack, apply_extend}
use sepp.Handle.{nack, extend, nack_delay}
use sepp.Prelude.{◌∙◌, ℕ, ◌≡◌, refl, List, Option, some, min, max}
use sepp.Prelude.Int.{ℤ}
use sepp.Prelude.Result.{Result, ok, err, Exec, pure, proceed, ◌>>=◌}
use sepp.Std.Bytes.{Bytes, Text}
use sepp.Proto.{Prost, EnqueueRequest, AuditRecord}
use sepp.Fjall.{Fjall}
use sepp.Op.{PeekState, stamp}
use sepp.Storage.{State}
use sepp.Storage.Lease.{apply_ack}
use sepp.Storage.Enqueue.{apply_enqueue, apply_enqueue_atomic}
use sepp.Storage.Reserve.{apply_reserve}
use sepp.Storage.Admin.{
  apply_drain, apply_requeue_dead_letters, apply_dead_letter_jobs, apply_delete_dead_letters,
}
use sepp.Storage.Queue.{
  apply_close_queue, apply_open_queue, apply_purge_queue_chunk, apply_audit_append,
}
use sepp.Storage.Apply.{OpOutcome, apply_op, apply_command, returning}
use sepp.Handle.{
  Handle, prepare_jobs, close_grace_ms, purge_chunk_max, unwrapped, send_op, enqueue,
  enqueue_atomic, reserve_once, ack, drain_dead_letters, close_queue, open_queue,
  requeue_dead_letters, dead_letter_jobs, delete_dead_letters, purge_queue_chunk, append_audit,
}

module _ ⦃db : Fjall⦄ ⦃prost : Prost⦄ where
  -- Wrapping a result in its outcome and taking it out again leaves it alone.
  unwrapped-returning :
      {A B : Type 0} (f : A → OpOutcome) (g : OpOutcome → Option B) (k : A → B) (m : Exec State A)
      → ((a : A) → g (f a) ≡ some (k a))
      → (s : State)
      → (returning f m >>= λ outcome. unwrapped (g outcome)) s ≡ (m >>= λ a. pure (k a)) s
  unfolding ◌>>=◌
  unwrapped-returning f g k m h s = go (m s).0 (m s).1
    where
      go :
          (r : Result _) (t : State)
          → proceed
              (proceed r (λ a. pure (f a)) t).0
              (λ outcome. unwrapped (g outcome))
              (proceed r (λ a. pure (f a)) t).1
            ≡ proceed r (λ a. pure (k a)) t
      go (ok a) t = rw (h a) refl
      go (err e) t = refl

  and_pure : (A : Type 0) (m : Exec State A) (s : State) → (m >>= λ a. pure a) s ≡ m s
  unfolding ◌>>=◌
  and_pure A m s = go (m s).0 (m s).1
    where
      go : (r : Result A) (t : State) → proceed r (λ a. pure a) t ≡ (r, t)
      go (ok a) t = refl
      go (err e) t = refl

  matched :
      {A : Type 0} (f : A → OpOutcome) (g : OpOutcome → Option A) (m : Exec State A)
      → ((a : A) → g (f a) ≡ some a)
      → (s : State) → (returning f m >>= λ outcome. unwrapped (g outcome)) s ≡ m s
  matched f g m h s = unwrapped-returning f g (λ a. a) m h s ∙ and_pure _ m s

  after_lookup :
      {A B : Type 0} (r : Result A) (f g : A → Exec State B) (s : State)
      → ((a : A) → f a s ≡ g a s)
      → proceed r f s ≡ proceed r g s
  after_lookup (ok a) f g s h = h a
  after_lookup (err e) f g s h = refl

  nack-lookup :
      ⦃j : JitterHash⦄ (h : Handle) (after : QueueRegistry) (snap : Tx) (req : NackRequest)
      (now : ℤ) (s : State)
      → nack h after snap req now s
        ≡ proceed
            (nack_delay h after snap req)
            (λ delay. send_op as_nack (Op.nack req delay h.dead_letter_enabled (pos 0)) now)
            s
  unfolding nack ◌>>=◌
  nack-lookup h after snap req now s = refl

  extend-lookup :
      (h : Handle) (snap : Tx) (req : ExtendRequest) (now : ℤ) (s : State)
      → extend h snap req now s
        ≡ proceed
            (resolve_extend_lease h.live snap req)
            (λ lease. send_op as_extend (Op.extend req lease (pos 0)) now)
            s
  unfolding extend ◌>>=◌
  extend-lookup h snap req now s = refl

  pub reserve_once-apply_reserve :
      (queues : List Text) (lease_ms max_jobs : ℕ) (now : ℤ) (s : State)
      → reserve_once queues lease_ms max_jobs now s ≡ apply_reserve queues lease_ms max_jobs now s
  unfolding send_op apply_command apply_op stamp reserve_once
  reserve_once-apply_reserve queues lease_ms max_jobs now s = matched _ _ _ (λ a. refl) s

  -- Each method does what its operation does, at the time read from the clock.
  pub record IsMatched (h : Handle) (fresh : ℕ → Text) (now : ℤ) (s : State) : Type 0 where
    pub of_enqueue :
        (jobs : List EnqueueRequest)
        → enqueue h fresh jobs now s ≡ apply_enqueue (prepare_jobs h fresh 0 jobs) now s
    pub of_enqueue_atomic :
        (jobs : List EnqueueRequest)
        → enqueue_atomic h fresh jobs now s
          ≡ apply_enqueue_atomic (prepare_jobs h fresh 0 jobs) now s
    pub of_reserve :
        (queues : List Text) (lease_ms max_jobs : ℕ)
        → reserve_once queues lease_ms max_jobs now s ≡ apply_reserve queues lease_ms max_jobs now s
    pub of_ack : (id : Text) (attempt : ℕ) → ack id attempt now s ≡ apply_ack id attempt s
    -- After its lookup, which is the only other way to fail.
    pub of_nack :
        (j : JitterHash) (after : QueueRegistry) (snap : Tx) (req : NackRequest)
        → nack ⦃j = j⦄ h after snap req now s
          ≡ proceed
              (nack_delay ⦃j = j⦄ h after snap req)
              (λ delay. apply_nack req delay h.dead_letter_enabled now)
              s
    pub of_extend :
        (snap : Tx) (req : ExtendRequest)
        → extend h snap req now s
          ≡ proceed (resolve_extend_lease h.live snap req) (λ lease. apply_extend req lease now) s
    pub of_drain :
        (queue : Option Text) (n : ℕ)
        → drain_dead_letters h queue n now s ≡ apply_drain queue n h.drain_scan_cap s
    pub of_close :
        (queue : Text) → close_queue queue now s ≡ apply_close_queue queue now close_grace_ms s
    pub of_open : (queue : Text) → open_queue queue now s ≡ apply_open_queue queue s
    pub of_requeue :
        (queue : Text) (keys : List Bytes)
        → requeue_dead_letters queue keys now s ≡ apply_requeue_dead_letters queue keys now s
    pub of_dead_letter :
        (queue : Text) (state : PeekState) (keys : List Bytes) (reason : Option Text)
        → dead_letter_jobs h queue state keys reason now s
          ≡ apply_dead_letter_jobs queue state keys reason h.dead_letter_enabled now s
    pub of_delete :
        (queue : Text) (keys : List Bytes)
        → delete_dead_letters queue keys now s ≡ apply_delete_dead_letters queue keys s
    pub of_purge :
        (queue : Text) (n : ℕ)
        → purge_queue_chunk queue n now s
          ≡ apply_purge_queue_chunk queue (min (max n 1) purge_chunk_max) s
    pub of_audit :
        (r : AuditRecord)
        → append_audit r now s
          ≡ (apply_audit_append r now >>= λ seq.
                pure (record { seq = seq; ts_ms = now; entry = r }))
              s

  -- No method of the handle meets an outcome of another kind: each returns what the function that
  -- applies its operation returns, and leaves the state that it leaves.
  pub send_op-IsMatched :
      (h : Handle) (fresh : ℕ → Text) (now : ℤ) (s : State) → IsMatched h fresh now s
  unfolding send_op apply_command apply_op stamp enqueue enqueue_atomic reserve_once ack
      drain_dead_letters close_queue open_queue requeue_dead_letters dead_letter_jobs
      delete_dead_letters purge_queue_chunk append_audit
  send_op-IsMatched h fresh now s = record {
    of_enqueue = λ jobs. matched _ _ _ (λ a. refl) s;
    of_enqueue_atomic = λ jobs. matched _ _ _ (λ a. refl) s;
    of_reserve =
        λ queues lease_ms max_jobs. reserve_once-apply_reserve queues lease_ms max_jobs now s;
    of_ack = λ id attempt. matched _ _ _ (λ a. refl) s;
    of_nack = λ j after snap req.
        nack-lookup ⦃j = j⦄ h after snap req now s
        ∙ after_lookup (nack_delay ⦃j = j⦄ h after snap req) _ _ s
            λ delay. matched _ _ _ (λ a. refl) s;
    of_extend = λ snap req.
        extend-lookup h snap req now s
        ∙ after_lookup (resolve_extend_lease h.live snap req) _ _ s
            λ lease. matched _ _ _ (λ a. refl) s;
    of_drain = λ queue n. matched _ _ _ (λ a. refl) s;
    of_close = λ queue. matched _ _ _ (λ a. refl) s;
    of_open = λ queue. matched _ _ _ (λ a. refl) s;
    of_requeue = λ queue keys. matched _ _ _ (λ a. refl) s;
    of_dead_letter = λ queue state keys reason. matched _ _ _ (λ a. refl) s;
    of_delete = λ queue keys. matched _ _ _ (λ a. refl) s;
    of_purge = λ queue n. matched _ _ _ (λ a. refl) s;
    of_audit = λ r. unwrapped-returning _ _ _ _ (λ a. refl) s;
  }
