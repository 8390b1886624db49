-- ===== src/Storage/Lease/Fencing.antt =====
-- The guard of `apply_ack`, `apply_nack` and `apply_extend` of src/storage.rs, and acks after acks.
use sepp.Prelude.{
  ℕ, ◌≡◌, refl, true, false, Option, none, some, ◌==◌, String, if◌then◌else◌, Bool, ◌∙◌, sym, ap,
  ==_iff,
}
use sepp.Prelude.Result.{
  Status, Result, ok, err, Exec, proceed, pure, raise, lift, ok_or, ◌>>=◌, not_found_status,
  failed_precondition_status,
}
use sepp.Std.Bytes.{Bytes, Text, =ᵇ-refl}
use sepp.Proto.{Prost}
use sepp.Fjall.{Fjall}
use sepp.Keys.{Inflight, decode_inflight}
use sepp.Storage.{State, fetched, tx_get, tx_remove, unindex_timer, note}
use sepp.Storage.Lease.{leased, ack_leased, apply_ack, AckOutcome}

module _ ⦃db : Fjall⦄ ⦃prost : Prost⦄ where
  -- The record of a job in flight.
  pub record HasLease (id : Text) (attempt : ℕ) (s : State) (i : Inflight) : Type 0 where
    pub bytes : Bytes
    pub row : db.get s.tx.inflight id ≡ some bytes
    pub decoded : decode_inflight bytes ≡ ok i
    pub holder : i.attempt ≡ attempt

  checked :
      (id : Text) (attempt : ℕ) (s : State) (bytes : Bytes) (i j : Inflight) (b : Bool)
      → (j.attempt == attempt) ≡ b
      → db.get s.tx.inflight id ≡ some bytes
      → decode_inflight bytes ≡ ok j
      → ((if b then pure j else raise (failed_precondition_status "attempt mismatch")) s).0 ≡ ok i
      → HasLease id attempt s i
  checked id attempt s bytes i j true e w d g = record {
    bytes = bytes;
    row = w;
    decoded = d ∙ g;
    holder = ap (elim [ ok k ↦ k.attempt | err x ↦ 0 ]) (sym g) ∙ (==_iff j.attempt attempt).0 e;
  }
  checked id attempt s bytes i j false e w d g = cc

  opened :
      (id : Text) (attempt : ℕ) (s : State) (bytes : Bytes) (i : Inflight) (r : Result Inflight)
      → decode_inflight bytes ≡ r
      → db.get s.tx.inflight id ≡ some bytes
      → (proceed r
          (λ j.
            if j.attempt == attempt
            then pure j
            else raise (failed_precondition_status "attempt mismatch"))
          s).0
        ≡ ok i
      → HasLease id attempt s i
  opened id attempt s bytes i (ok j) d w g = checked id attempt s bytes i j _ refl w d g
  opened id attempt s bytes i (err x) d w g = cc

  abbrev rest_of : Text → ℕ → Option Bytes → Exec State Inflight
  rest_of id attempt found = do
    stored ← lift (ok_or (not_found_status "job not found") found)
    inflight ← lift (decode_inflight stored)
    if inflight.attempt == attempt
        then pure inflight
        else raise (failed_precondition_status "attempt mismatch")

  found_row :
      (id : Text) (attempt : ℕ) (s : State) (i : Inflight) (e : Option String) (v : Option Bytes)
      → db.get s.tx.inflight id ≡ v
      → (proceed (fetched e v s).0 (rest_of id attempt) (fetched e v s).1).0 ≡ ok i
      → HasLease id attempt s i
  unfolding fetched ◌>>=◌
  found_row id attempt s i none (some bytes) w g = opened id attempt s bytes i _ refl w g
  found_row id attempt s i none none w g = cc
  found_row id attempt s i (some x) v w g = cc

  -- The guard that an ack, a nack and an extension share lets nobody through but the holder: there
  -- is a record of the job, it decodes to what the guard returns, and it is of the attempt named.
  pub leased-HasLease :
      (id : Text) (attempt : ℕ) (s : State) (i : Inflight)
      → (leased id attempt s).0 ≡ ok i
      → HasLease id attempt s i
  unfolding leased tx_get ◌>>=◌
  leased-HasLease id attempt s i = found_row id attempt s i _ _ refl

  refused :
      (id : Text) (attempt : ℕ) (s : State) (e : Option String) (v : Option Bytes)
      → e ≡ none
      → v ≡ none
      → (proceed (fetched e v s).0 (rest_of id attempt) (fetched e v s).1).0
        ≡ err (not_found_status "job not found")
  unfolding fetched ◌>>=◌
  refused id attempt s none none h w = refl
  refused id attempt s none (some v) h w = cc
  refused id attempt s (some e) v h w = cc

  -- The guard answers `not_found` for a job with no record.
  pub leased-not_found :
      (id : Text) (attempt : ℕ) (s : State)
      → db.read_error s.tx.inflight id ≡ none
      → db.get s.tx.inflight id ≡ none
      → (leased id attempt s).0 ≡ err (not_found_status "job not found")
  unfolding leased tx_get ◌>>=◌
  leased-not_found id attempt s = refused id attempt s _ _

  -- What an ack removes.
  pub record IsGone (id : Text) (s : State) : Type 0 where
    pub job : db.get s.tx.jobs id ≡ none
    pub payload : db.get s.tx.payloads id ≡ none
    pub inflight : db.get s.tx.inflight id ≡ none

  ack_leased-IsGone : (id : Text) (i : Inflight) (s : State) → IsGone id (ack_leased id i s).1
  unfolding ack_leased tx_remove unindex_timer note ◌>>=◌
  ack_leased-IsGone id i s = record {
    job = rw (db.get-remove s.tx.jobs id id, =ᵇ-refl id) refl;
    payload = rw (db.get-remove s.tx.payloads id id, =ᵇ-refl id) refl;
    inflight = rw (db.get-remove s.tx.inflight id id, =ᵇ-refl id) refl;
  }

  acked_by :
      (id : Text) (s : State) (r : Result Inflight) (t : State) (o : AckOutcome)
      → (proceed r (ack_leased id) t).0 ≡ ok o
      → IsGone id (proceed r (ack_leased id) t).1
  acked_by id s (ok i) t o g = ack_leased-IsGone id i t
  acked_by id s (err e) t o g = cc

  pub apply_ack-IsGone :
      (id : Text) (attempt : ℕ) (s : State) (o : AckOutcome)
      → (apply_ack id attempt s).0 ≡ ok o
      → IsGone id (apply_ack id attempt s).1
  unfolding apply_ack ◌>>=◌
  apply_ack-IsGone id attempt s o = acked_by id s _ _ o

  stopped :
      (id : Text) (r : Result Inflight) (t : State) (x : Status)
      → r ≡ err x
      → (proceed r (ack_leased id) t).0 ≡ err x
  stopped id (ok i) t x e = cc
  stopped id (err y) t x e = ap (elim [ ok k ↦ err x | err z ↦ err z ]) e

  -- A job is acked once: after an ack that succeeds, an ack of the same job, of whatever attempt, is
  -- answered with `not_found`, if the read of its record does not fail.
  pub apply_ack-once :
      (id : Text) (attempt again : ℕ) (s : State) (o : AckOutcome)
      → (apply_ack id attempt s).0 ≡ ok o
      → db.read_error (apply_ack id attempt s).1.tx.inflight id ≡ none
      → (apply_ack id again (apply_ack id attempt s).1).0 ≡ err (not_found_status "job not found")
  apply_ack-once id attempt again s o g h =
      let gone = apply_ack-IsGone id attempt s o g in
      unfold apply_ack in
      unfold ◌>>=◌ in
      stopped id _ _ _ (leased-not_found id again (apply_ack id attempt s).1 h gone.inflight)
