-- ===== src/Server/Jobs/Settled.antt =====
-- Jobs whose lease is over, in the handlers of src/queue_server.rs.
use sepp.Prelude.{◌≡◌, refl, false, none, ◌∙◌, sym, ap, subst}
use sepp.Prelude.Result.{Result, ok, err, Status, Exec, pure, proceed, ◌>>=◌}
use sepp.Prelude.Atomic.{is_ok}
use sepp.Prelude.Check.{Check, pass, fail}
use sepp.Std.Bytes.{Text}
use sepp.Proto.{Prost, AckRequest, NackRequest, ExtendRequest, Complaint}
use sepp.Fjall.{Fjall}
use sepp.Queues.{QueueRegistry}
use sepp.Retry.{JitterHash, resolve_extend_lease}
use sepp.Storage.{State, Tx}
use sepp.Storage.Lease.{apply_nack, apply_extend}
use sepp.Storage.Lease.Fencing.{apply_ack-IsGone}
use sepp.Storage.Lease.Over.{
  NoLease, apply_ack-NoLease, apply_nack-NoLease, apply_extend-NoLease, apply_nack-IsAbsent,
}
use sepp.Handle.{nack_delay}
use sepp.Handle.Matched.{send_op-IsMatched}
use sepp.Server.Handlers.{Call, Answer, done, turned_away, panics}
use sepp.Server.Jobs.{NackResponse, handled, ack_handler, nack_handler, extend_handler}

-- The call has no answer but an error, and leaves the state alone.
abbrev pub IsRefused : {A : Type 0} → Result (Answer A) → Type 0
IsRefused (ok (done a)) = ⊥
IsRefused (ok (turned_away r)) = Unit
IsRefused (ok panics) = ⊥
IsRefused (err e) = Unit

abbrev pub Refuses : {S A : Type 0} → Exec S (Answer A) → S → Type 0
Refuses call s = IsRefused (call s).0 × ((call s).1 ≡ s)

module _ {S A B : Type 0} where
  -- A call that starts with a lookup, which reads only.
  looked_up :
      (r : Result A) (f : A → Exec S B) (s : S) (x : Status)
      → ((a : A) → f a s ≡ (err x, s))
      → (is_ok (proceed r f s).0 ≡ false) × ((proceed r f s).1 ≡ s)
  looked_up (ok a) f s x h = (ap (λ p. is_ok p.0) (h a), ap (λ p. p.1) (h a))
  looked_up (err e) f s x h = (refl, refl)

  looked_up_ok :
      (P : S → Type 0) (r : Result A) (f : A → Exec S B) (s : S) (b : B)
      → ((a : A) → (f a s).0 ≡ ok b → P (f a s).1)
      → (proceed r f s).0 ≡ ok b
      → P (proceed r f s).1
  looked_up_ok P (ok a) f s b h e = h a e
  looked_up_ok P (err x) f s b h e = cc

  responding :
      (r : Result A) (t s : S) (respond : A → B)
      → is_ok r ≡ false
      → t ≡ s
      → IsRefused (proceed r (λ a. pure (done (respond a))) t).0
        × ((proceed r (λ a. pure (done (respond a))) t).1 ≡ s)
  responding (ok a) t s respond e h = cc
  responding (err x) t s respond e h = (tt, h)

  handled-Refuses :
      (c : Check Complaint) (call : Exec S A) (respond : A → B) (s : S)
      → is_ok (call s).0 ≡ false
      → (call s).1 ≡ s
      → Refuses (handled c call respond) s
  unfolding ◌>>=◌
  handled-Refuses pass call respond s e h = responding (call s).0 (call s).1 s respond e h
  handled-Refuses (fail complaint) call respond s e h = (tt, refl)

  answered :
      (P : S → Type 0) (r : Result A) (t : S) (respond : A → B) (b : B)
      → ((a : A) → r ≡ ok a → P t)
      → (proceed r (λ a. pure (done (respond a))) t).0 ≡ ok (done b)
      → P (proceed r (λ a. pure (done (respond a))) t).1
  answered P (ok a) t respond b h e = h a refl
  answered P (err x) t respond b h e = cc

  handled-answered :
      (P : S → Type 0) (c : Check Complaint) (call : Exec S A) (respond : A → B) (s : S) (b : B)
      → ((a : A) → (call s).0 ≡ ok a → P (call s).1)
      → (handled c call respond s).0 ≡ ok (done b)
      → P (handled c call respond s).1
  unfolding ◌>>=◌
  handled-answered P pass call respond s b h e = answered P (call s).0 (call s).1 respond b h e
  handled-answered P (fail complaint) call respond s b h e = cc

module _ ⦃db : Fjall⦄ ⦃prost : Prost⦄ where
  ack_handler-Refuses :
      (c : Call) (req : AckRequest) (s : State)
      → NoLease req.job_id s
      → Refuses (ack_handler c req) s
  unfolding ack_handler
  ack_handler-Refuses c req s h =
      let same =
        (send_op-IsMatched c.handle c.fresh c.drain_clock s).of_ack req.job_id req.attempt
        ∙ apply_ack-NoLease req.job_id req.attempt s h in
      handled-Refuses _ _ _ s (ap (λ p. is_ok p.0) same) (ap (λ p. p.1) same)

  nack_handler-Refuses :
      ⦃j : JitterHash⦄ (c : Call) (after : QueueRegistry) (snap : Tx) (req : NackRequest)
      (s : State)
      → NoLease req.job_id s
      → Refuses (nack_handler c after snap req) s
  unfolding nack_handler
  nack_handler-Refuses ⦃j = j⦄ c after snap req s h =
      let same = (send_op-IsMatched c.handle c.fresh c.drain_clock s).of_nack j after snap req in
      let stays =
        looked_up (nack_delay c.handle after snap req)
          (λ delay. apply_nack req delay c.handle.dead_letter_enabled c.drain_clock) s _
          λ delay. apply_nack-NoLease req delay c.handle.dead_letter_enabled c.drain_clock s h in
      handled-Refuses _ _ _ s (ap (λ p. is_ok p.0) same ∙ stays.0) (ap (λ p. p.1) same ∙ stays.1)

  extend_handler-Refuses :
      (c : Call) (snap : Tx) (req : ExtendRequest) (s : State)
      → NoLease req.job_id s
      → Refuses (extend_handler c snap req) s
  unfolding extend_handler
  extend_handler-Refuses c snap req s h =
      let same = (send_op-IsMatched c.handle c.fresh c.drain_clock s).of_extend snap req in
      let stays =
        looked_up (resolve_extend_lease c.handle.live snap req)
          (λ lease. apply_extend req lease c.drain_clock) s _
          λ lease. apply_extend-NoLease req lease c.drain_clock s h in
      handled-Refuses _ _ _ s (ap (λ p. is_ok p.0) same ∙ stays.0) (ap (λ p. p.1) same ∙ stays.1)

  -- Whatever a worker sends for a job is refused.
  pub record IsSettled ⦃j : JitterHash⦄ (id : Text) (s : State) : Type 0 where
    pub ack_again :
        (c : Call) (req : AckRequest) → Refuses (ack_handler c (record req { job_id = id })) s
    pub nack_again :
        (c : Call) (after : QueueRegistry) (snap : Tx) (req : NackRequest)
        → Refuses (nack_handler c after snap (record req { job_id = id })) s
    pub extend_again :
        (c : Call) (snap : Tx) (req : ExtendRequest)
        → Refuses (extend_handler c snap (record req { job_id = id })) s

  NoLease-IsSettled : ⦃j : JitterHash⦄ (id : Text) (s : State) → NoLease id s → IsSettled id s
  NoLease-IsSettled id s h = record {
    ack_again = λ c req. ack_handler-Refuses c (record req { job_id = id }) s h;
    nack_again =
        λ c after snap req. nack_handler-Refuses c after snap (record req { job_id = id }) s h;
    extend_again = λ c snap req. extend_handler-Refuses c snap (record req { job_id = id }) s h;
  }

  abbrev IsAbsent : Text → State → Type 0
  IsAbsent id s = db.get s.tx.inflight id ≡ none

  ack_handler-IsAbsent :
      (c : Call) (req : AckRequest) (s : State) (id : Text)
      → (ack_handler c req s).0 ≡ ok (done id)
      → IsAbsent req.job_id (ack_handler c req s).1
  unfolding ack_handler
  ack_handler-IsAbsent c req s id =
      let same =
        (send_op-IsMatched c.handle c.fresh c.drain_clock s).of_ack req.job_id req.attempt in
      handled-answered (IsAbsent req.job_id) _ _ _ s id λ o e.
        subst (λ p. IsAbsent req.job_id p.1) (sym same)
          (apply_ack-IsGone req.job_id req.attempt s o (ap (λ p. p.0) (sym same) ∙ e)).inflight

  nack_handler-IsAbsent :
      ⦃j : JitterHash⦄ (c : Call) (after : QueueRegistry) (snap : Tx) (req : NackRequest)
      (s : State) (r : NackResponse)
      → (nack_handler c after snap req s).0 ≡ ok (done r)
      → IsAbsent req.job_id (nack_handler c after snap req s).1
  unfolding nack_handler
  nack_handler-IsAbsent ⦃j = j⦄ c after snap req s r =
      let same = (send_op-IsMatched c.handle c.fresh c.drain_clock s).of_nack j after snap req in
      handled-answered (IsAbsent req.job_id) _ _ _ s r λ o e.
        subst (λ p. IsAbsent req.job_id p.1) (sym same)
          (looked_up_ok (IsAbsent req.job_id) (nack_delay c.handle after snap req)
            (λ delay. apply_nack req delay c.handle.dead_letter_enabled c.drain_clock) s o
            (λ delay. apply_nack-IsAbsent req delay c.handle.dead_letter_enabled c.drain_clock s o)
            (ap (λ p. p.0) (sym same) ∙ e))

  -- In the state that an answered ack of a job leaves, every ack, nack and extension of that job,
  -- whatever attempt, clock, configuration and registry it comes with, is turned away or fails, and
  -- leaves the whole state as it is, if the read of the record of the job does not fail.
  pub ack_handler-IsSettled :
      ⦃j : JitterHash⦄ (c : Call) (req : AckRequest) (s : State) (id : Text)
      → (ack_handler c req s).0 ≡ ok (done id)
      → db.read_error (ack_handler c req s).1.tx.inflight req.job_id ≡ none
      → IsSettled req.job_id (ack_handler c req s).1
  ack_handler-IsSettled c req s id g h =
      NoLease-IsSettled req.job_id (ack_handler c req s).1
        (record { readable = h; absent = ack_handler-IsAbsent c req s id g })

  -- In the state that an answered nack of a job leaves, whether the job is gone or waits for its next
  -- attempt, every ack, nack and extension of it is turned away or fails, and leaves the whole state
  -- as it is, if the read of the record of the job does not fail.
  pub nack_handler-IsSettled :
      ⦃j : JitterHash⦄ (c : Call) (after : QueueRegistry) (snap : Tx) (req : NackRequest)
      (s : State) (r : NackResponse)
      → (nack_handler c after snap req s).0 ≡ ok (done r)
      → db.read_error (nack_handler c after snap req s).1.tx.inflight req.job_id ≡ none
      → IsSettled req.job_id (nack_handler c after snap req s).1
  nack_handler-IsSettled c after snap req s r g h =
      NoLease-IsSettled req.job_id (nack_handler c after snap req s).1
        (record { readable = h; absent = nack_handler-IsAbsent c after snap req s r g })
