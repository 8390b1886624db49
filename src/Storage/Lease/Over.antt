-- ===== src/Storage/Lease/Over.antt =====
-- `apply_ack`, `apply_nack` and `apply_extend` of src/storage.rs on a job whose lease is over.
use sepp.Prelude.{none, ℕ, ◌≡◌, refl, Bool, true, false, ◌||◌, leb, if◌then◌else◌}
use sepp.Prelude.Int.{ℤ}
use sepp.Prelude.Result.{Result, ok, err, Status, Exec, proceed, ◌>>=◌, not_found_status}
use sepp.Std.Bytes.{Text, =ᵇ-refl}
use sepp.Proto.{Prost, NackRequest, ExtendRequest}
use sepp.Fjall.{Fjall}
use sepp.Keys.{Inflight}
use sepp.Storage.{State, tx_remove, unindex_timer, note}
use sepp.Storage.Lease.{
  apply_ack, apply_nack, apply_extend, nack_dead, nack_retry, force_dead_letter, NackOutcome,
}
use sepp.Storage.Lease.Fencing.{leased-not_found}
use sepp.Storage.Lease.Atomic.{leased-Reads}

-- What follows an action that fails and changes nothing is not run.
stopped :
    {S A B : Type 0} (r : Result A) (t s : S) (f : A → Exec S B) (x : Status)
    → r ≡ err x
    → t ≡ s
    → proceed r f t ≡ (err x, s)
stopped (ok a) t s f x e h = cc
stopped (err y) t s f x e h = cc

module _ ⦃db : Fjall⦄ ⦃prost : Prost⦄ where
  -- No record of the job in flight is left.
  pub record NoLease (id : Text) (s : State) : Type 0 where
    pub readable : db.read_error s.tx.inflight id ≡ none
    pub absent : db.get s.tx.inflight id ≡ none

  pub apply_ack-NoLease :
      (id : Text) (attempt : ℕ) (s : State)
      → NoLease id s
      → apply_ack id attempt s ≡ (err (not_found_status "job not found"), s)
  unfolding apply_ack ◌>>=◌
  apply_ack-NoLease id attempt s h =
      stopped _ _ s _ _ (leased-not_found id attempt s h.readable h.absent)
        ((leased-Reads id attempt).at s)

  pub apply_nack-NoLease :
      (req : NackRequest) (delay : ℕ) (enabled : Bool) (now : ℤ) (s : State)
      → NoLease req.job_id s
      → apply_nack req delay enabled now s ≡ (err (not_found_status "job not found"), s)
  unfolding apply_nack ◌>>=◌
  apply_nack-NoLease req delay enabled now s h =
      stopped _ _ s _ _ (leased-not_found req.job_id req.attempt s h.readable h.absent)
        ((leased-Reads req.job_id req.attempt).at s)

  pub apply_extend-NoLease :
      (req : ExtendRequest) (lease_ms : ℕ) (now : ℤ) (s : State)
      → NoLease req.job_id s
      → apply_extend req lease_ms now s ≡ (err (not_found_status "job not found"), s)
  unfolding apply_extend ◌>>=◌
  apply_extend-NoLease req lease_ms now s h =
      stopped _ _ s _ _ (leased-not_found req.job_id req.attempt s h.readable h.absent)
        ((leased-Reads req.job_id req.attempt).at s)

  IsAbsent : Text → State → Type 0
  IsAbsent id s = db.get s.tx.inflight id ≡ none

  -- The state after an action that succeeds has no record of the job.
  record Clears {A : Type 0} (id : Text) (m : Exec State A) : Type 0 where
    at : (s : State) (a : A) → (m s).0 ≡ ok a → IsAbsent id (m s).1

  module _ {A B : Type 0} where
    Clears-after :
        (id : Text) (m : Exec State A) (f : A → Exec State B)
        → ((a : A) → Clears id (f a))
        → Clears id (m >>= f)
    unfolding ◌>>=◌
    Clears-after id m f h = record { at = λ s b. next (m s).0 (m s).1 b }
      where
        next :
            (r : Result A) (t : State) (b : B)
            → (proceed r f t).0 ≡ ok b
            → IsAbsent id (proceed r f t).1
        next (ok a) t b g = (h a).at t b g
        next (err e) t b g = cc

  Clears-if :
      {A : Type 0} (id : Text) (b : Bool) (m n : Exec State A)
      → Clears id m
      → Clears id n
      → Clears id (if b then m else n)
  Clears-if id true m n hm hn = hm
  Clears-if id false m n hm hn = hn

  nack_dead-Clears :
      (req : NackRequest) (forced enabled : Bool) (now : ℤ) (i : Inflight)
      → Clears req.job_id (nack_dead req forced enabled now i)
  unfolding nack_dead
  nack_dead-Clears req forced enabled now i = Clears-after req.job_id _ _ λ a. record {
    at = λ s o g.
        unfold tx_remove in
        unfold unindex_timer in
        unfold note in
        unfold ◌>>=◌ in
        unfold IsAbsent in
        rw (db.get-remove s.tx.inflight req.job_id req.job_id, =ᵇ-refl req.job_id) refl;
  }

  nack_retry-Clears :
      (req : NackRequest) (delay : ℕ) (now : ℤ) (i : Inflight)
      → Clears req.job_id (nack_retry req delay now i)
  unfolding nack_retry
  nack_retry-Clears req delay now i = Clears-after req.job_id _ _ λ a. record {
    at = λ s o g.
        unfold tx_remove in
        unfold unindex_timer in
        unfold note in
        unfold ◌>>=◌ in
        unfold IsAbsent in
        rw (db.get-remove s.tx.inflight req.job_id req.job_id, =ᵇ-refl req.job_id) refl;
  }

  apply_nack-Clears :
      (req : NackRequest) (delay : ℕ) (enabled : Bool) (now : ℤ)
      → Clears req.job_id (apply_nack req delay enabled now)
  unfolding apply_nack
  apply_nack-Clears req delay enabled now = Clears-after req.job_id _ _ λ i.
      Clears-if req.job_id (force_dead_letter req || leb i.max_attempts i.attempt) _ _
        (nack_dead-Clears req (force_dead_letter req) enabled now i)
        (nack_retry-Clears req delay now i)

  pub apply_nack-IsAbsent :
      (req : NackRequest) (delay : ℕ) (enabled : Bool) (now : ℤ) (s : State) (o : NackOutcome)
      → (apply_nack req delay enabled now s).0 ≡ ok o
      → db.get (apply_nack req delay enabled now s).1.tx.inflight req.job_id ≡ none
  unfolding IsAbsent
  apply_nack-IsAbsent req delay enabled now = (apply_nack-Clears req delay enabled now).at
