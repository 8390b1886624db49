-- ===== src/Storage/Reserve/Fuel.antt =====
-- The rounds that the inner loop of `apply_reserve` of src/storage.rs is given.
use sepp.Prelude.{
  ℕ, zero, suc, ◌≤◌, ◌≡◌, refl, true, false, List, Option, none, some, leb, length, arith,
  Bool-cases, inl, inr, Option-cases, String, sym, ◌∙◌,
}
use sepp.Prelude.Int.{ℤ}
use sepp.Prelude.Result.{Result, ok, err, Exec, proceed, pure, ◌>>=◌}
use sepp.Prelude.Maintains.{Maintains, is_fatal, maintains_rules}
use sepp.Std.Bytes.{Bytes, Text}
use sepp.Proto.{Prost, Job}
use sepp.Fjall.{Fjall}
use sepp.Keys.{ReadyKey, decode_ready, decode_job_value}
use sepp.Index.{ReadyIndex, pop_front}
use sepp.Index.Length.{Shrinks, pop_front-Shrinks}
use sepp.Storage.{
  State, Space, Timer, Cycle, fetched, tx_get, tx_insert, tx_remove, index_timer, note, pop_ready,
}
use sepp.Storage.Reserve.{
  drop_entry, drop_job, lease_job, with_payload, decoded, stored_job, reserve_entry, push_some,
  reserve_queue,
}

module _ ⦃db : Fjall⦄ where
  -- The ready index has at most `n` keys.
  abbrev pub Fits : ℕ → State → Type 0
  Fits n s = length s.indexes.ready.keys ≤ n

  fetched-Fits :
      (n : ℕ) (e : Option String) (v : Option Bytes) (s : State)
      → Fits n s
      → Fits n (fetched e v s).1
  unfolding fetched
  fetched-Fits n none v s h = h
  fetched-Fits n (some e) v s h = h

  tx_get-Fits : (n : ℕ) (sp : Space) (k : Bytes) → Maintains (Fits n) (tx_get sp k)
  unfolding tx_get
  tx_get-Fits n sp k = record { at = λ s h _. fetched-Fits n _ _ s h }

  tx_insert-Fits : (n : ℕ) (sp : Space) (k v : Bytes) → Maintains (Fits n) (tx_insert sp k v)
  unfolding tx_insert
  tx_insert-Fits n sp k v = record { at = λ s h _. h }

  tx_remove-Fits : (n : ℕ) (sp : Space) (k : Bytes) → Maintains (Fits n) (tx_remove sp k)
  unfolding tx_remove
  tx_remove-Fits n sp k = record { at = λ s h _. h }

  note-Fits : (n : ℕ) (f : Cycle → Cycle) → Maintains (Fits n) (note f)
  unfolding note
  note-Fits n f = record { at = λ s h _. h }

  index_lease-Fits :
      (n : ℕ) (k : Bytes) (q : Text) → Maintains (Fits n) (index_timer Timer.leases k q)
  unfolding index_timer
  index_lease-Fits n k q = record { at = λ s h _. h }

ruleset fits_rules =
    (maintains_rules, tx_get-Fits, tx_insert-Fits, tx_remove-Fits, note-Fits, index_lease-Fits)

module _ ⦃db : Fjall⦄ ⦃prost : Prost⦄ where
  drop_entry-Fits : (n : ℕ) (k : Bytes) → Maintains (Fits n) (drop_entry k)
  unfolding drop_entry
  drop_entry-Fits n k = search fits_rules

  drop_job-Fits : (n : ℕ) (k : Bytes) (id : Text) → Maintains (Fits n) (drop_job k id)
  unfolding drop_job
  drop_job-Fits n k id = search fits_rules

  lease_job-Fits :
      (n : ℕ) (at_ms : ℤ) (k : Bytes) (a : ℕ) (q : Text) (job : Job)
      → Maintains (Fits n) (lease_job at_ms k a q job)
  unfolding lease_job
  lease_job-Fits n at_ms k a q job = search fits_rules depth 12

  with_payload-Fits :
      (n : ℕ) (at_ms : ℤ) (k : Bytes) (a : ℕ) (id q : Text) (job : Job) (v : Option Bytes)
      → Maintains (Fits n) (with_payload at_ms k a id q job v)
  unfolding with_payload
  with_payload-Fits n at_ms k a id q job none = lease_job-Fits n at_ms k a q job
  with_payload-Fits n at_ms k a id q job (some bytes) =
      elim (Option-cases (prost.decode_payload bytes)) [
        | inl e ↦ rw (e, with_payload) (drop_job-Fits n k id)
        | inr (p, e) ↦
            rw (e, with_payload) (lease_job-Fits n at_ms k a q (record job { payload = some p }))
      ]

  decoded-Fits :
      (n : ℕ) (at_ms : ℤ) (k : Bytes) (a : ℕ) (id : Text) (r : Result (Text × Job))
      → Maintains (Fits n) (decoded at_ms k a id r)
  unfolding decoded
  decoded-Fits n at_ms k a id (err e) = drop_job-Fits n k id
  decoded-Fits n at_ms k a id (ok (q, job)) = search (fits_rules, with_payload-Fits)

  stored_job-Fits :
      (n : ℕ) (at_ms : ℤ) (k : Bytes) (a : ℕ) (id : Text) (v : Option Bytes)
      → Maintains (Fits n) (stored_job at_ms k a id v)
  unfolding stored_job
  stored_job-Fits n at_ms k a id none = drop_entry-Fits n k
  stored_job-Fits n at_ms k a id (some v) = decoded-Fits n at_ms k a id (decode_job_value v)

  reserve_entry-Fits :
      (n : ℕ) (at_ms : ℤ) (k : Bytes) (a : ℕ) (rk : Option ReadyKey)
      → Maintains (Fits n) (reserve_entry at_ms k a rk)
  unfolding reserve_entry
  reserve_entry-Fits n at_ms k a none = drop_entry-Fits n k
  reserve_entry-Fits n at_ms k a (some rk) = search (fits_rules, stored_job-Fits)

  -- What two loops do after the same first part is the same, if they agree on the states that it
  -- leads to.
  alike :
      (n : ℕ) (r : Result (Option Job)) (t : State) (f g : Option Job → Exec State (List Job))
      → ((job : Option Job) (u : State) → Fits n u → f job u ≡ g job u)
      → (is_fatal r ≡ false → Fits n t)
      → proceed r f t ≡ proceed r g t
  alike n (ok job) t f g same h = same job t (h refl)
  alike n (err e) t f g same h = refl

  round : ℕ → ℤ → ℕ → Bytes → List Job → Option (Bytes × ℕ) → Exec State (List Job)
  round fuel at_ms max_jobs p jobs popped = elim popped [
    | none ↦ pure jobs
    | some (k, a) ↦ do
      job ← reserve_entry at_ms k a (decode_ready k)
      reserve_queue fuel at_ms max_jobs p (push_some jobs job)
  ]

  with_ready : State → ReadyIndex → State
  with_ready s ix = record s { indexes = record s.indexes { ready = ix } }

  -- With no key left there is no round.
  no_round :
      (at_ms : ℤ) (max_jobs : ℕ) (p : Bytes) (jobs : List Job) (s : State)
      (r : Option (Bytes × ℕ) × ReadyIndex)
      → Shrinks s.indexes.ready r
      → Fits 0 s
      → round 1 at_ms max_jobs p jobs r.0 (with_ready s r.1)
        ≡ round 0 at_ms max_jobs p jobs r.0 (with_ready s r.1)
  unfolding round
  no_round at_ms max_jobs p jobs s (none, ix') sh h = refl
  no_round at_ms max_jobs p jobs s (some (k, a), ix') sh h = absurd (omega arith)

  next_round :
      (n : ℕ) (at_ms : ℤ) (max_jobs : ℕ) (p : Bytes) (jobs : List Job) (s : State)
      (r : Option (Bytes × ℕ) × ReadyIndex)
      → ((job : Option Job) (u : State)
          → Fits n u
          → reserve_queue (suc (suc n)) at_ms max_jobs p (push_some jobs job) u
            ≡ reserve_queue (suc n) at_ms max_jobs p (push_some jobs job) u)
      → Shrinks s.indexes.ready r
      → Fits (suc n) s
      → round (suc (suc n)) at_ms max_jobs p jobs r.0 (with_ready s r.1)
        ≡ round (suc n) at_ms max_jobs p jobs r.0 (with_ready s r.1)
  unfolding round with_ready ◌>>=◌
  next_round n at_ms max_jobs p jobs s (none, ix') same sh h = refl
  next_round n at_ms max_jobs p jobs s (some (k, a), ix') same sh h =
      alike n _ _ _ _ same
        ((reserve_entry-Fits n at_ms k a (decode_ready k)).at (with_ready s ix') (omega arith))

  popped_round :
      (fuel : ℕ) (at_ms : ℤ) (max_jobs : ℕ) (p : Bytes) (jobs : List Job) (s : State)
      → leb max_jobs (length jobs) ≡ false
      → reserve_queue (suc fuel) at_ms max_jobs p jobs s
        ≡ round fuel at_ms max_jobs p jobs
            (pop_front s.indexes.ready p).0
            (with_ready s (pop_front s.indexes.ready p).1)
  unfolding reserve_queue pop_ready ◌>>=◌ with_ready round
  popped_round fuel at_ms max_jobs p jobs s e = rw (e, reserve_queue) refl

  full_round :
      (fuel : ℕ) (at_ms : ℤ) (max_jobs : ℕ) (p : Bytes) (jobs : List Job) (s : State)
      → leb max_jobs (length jobs) ≡ true
      → reserve_queue (suc fuel) at_ms max_jobs p jobs s ≡ (ok jobs, s)
  unfolding reserve_queue
  full_round fuel at_ms max_jobs p jobs s e = rw (e, reserve_queue) refl

  -- Where the rounds are more than the keys of the ready index, one round more gives the same result
  -- and the same state.
  pub reserve_queue-fuel :
      (n : ℕ) (at_ms : ℤ) (max_jobs : ℕ) (p : Bytes) (jobs : List Job) (s : State)
      → length s.indexes.ready.keys ≤ n
      → reserve_queue (suc (suc n)) at_ms max_jobs p jobs s
        ≡ reserve_queue (suc n) at_ms max_jobs p jobs s
  reserve_queue-fuel zero at_ms max_jobs p jobs s h =
      elim (Bool-cases (leb max_jobs (length jobs))) [
        | inl e ↦
            full_round 1 at_ms max_jobs p jobs s e ∙ sym (full_round 0 at_ms max_jobs p jobs s e)
        | inr e ↦
            popped_round 1 at_ms max_jobs p jobs s e
            ∙ no_round at_ms max_jobs p jobs s (pop_front s.indexes.ready p)
                (pop_front-Shrinks s.indexes.ready p) h
            ∙ sym (popped_round 0 at_ms max_jobs p jobs s e)
      ]
  reserve_queue-fuel (suc n) at_ms max_jobs p jobs s h =
      elim (Bool-cases (leb max_jobs (length jobs))) [
        | inl e ↦
            full_round (suc (suc n)) at_ms max_jobs p jobs s e
            ∙ sym (full_round (suc n) at_ms max_jobs p jobs s e)
        | inr e ↦
            popped_round (suc (suc n)) at_ms max_jobs p jobs s e
            ∙ next_round n at_ms max_jobs p jobs s (pop_front s.indexes.ready p)
                (λ job u k. reserve_queue-fuel n at_ms max_jobs p (push_some jobs job) u k)
                (pop_front-Shrinks s.indexes.ready p) h
            ∙ sym (popped_round (suc n) at_ms max_jobs p jobs s e)
      ]
