-- ===== src/Storage/Enqueue/Outcome.antt =====
-- The answers of `apply_enqueue` and `apply_enqueue_atomic` of src/storage.rs.
use sepp.Prelude.{
  ℕ, ◌+◌, ◌≡◌, ◌≢◌, refl, Bool, true, false, List, [], ◌∷◌, if◌then◌else◌, length, arith,
}
use sepp.Prelude.Int.{ℤ}
use sepp.Prelude.Result.{ok, Exec, pure, ◌>>=◌}
use sepp.Prelude.Yields.{Yields, Yields-pure, Yields-bind, Yields-after, Yields-ok}
use sepp.Proto.{Prost, EnqueueResponse, JobRejection}
use sepp.Fjall.{Fjall}
use sepp.Op.{PreparedJob}
use sepp.Std.Bytes.{Text}
use sepp.Index.{live_depth}
use sepp.Storage.{State}
use sepp.Storage.Enqueue.Caps.{
  jobs_for, cap_for, IsWithin, AllOpen, none_closing-AllOpen, none_full-IsWithin,
}
use sepp.Storage.Enqueue.{
  EnqueueResult, AtomicEnqueueOutcome, committed, rejected, collect, enqueue_one, enqueue_checked,
  apply_enqueue, apply_enqueue_atomic, is_empty, closing_jobs, full_queues, full_jobs, wanted,
}

collect-length :
    {S A B : Type 0} (f : A → Exec S B) (as' : List A)
    → Yields (λ bs. length bs ≡ length as') (collect f as')
unfolding collect
collect-length f [] = Yields-pure _ [] refl
collect-length f (a ∷ as') = Yields-after _ (f a) _ λ b.
    Yields-bind (λ bs. length bs ≡ length as') _ _ _ (collect-length f as')
      λ bs h. Yields-pure _ (b ∷ bs) (omega (arith, h))

module _ ⦃db : Fjall⦄ ⦃prost : Prost⦄ where
  -- An enqueue answers every job of the call, with one result each.
  pub apply_enqueue-length :
      (jobs : List PreparedJob) (now : ℤ) (s : State) (results : List EnqueueResult)
      → (apply_enqueue jobs now s).0 ≡ ok results
      → length results ≡ length jobs
  unfolding apply_enqueue
  apply_enqueue-length jobs now s results =
      Yields-ok (λ rs. length rs ≡ length jobs) _ s results (collect-length (enqueue_one now) jobs)

  commit : List PreparedJob → ℤ → Exec State AtomicEnqueueOutcome
  commit jobs now = do responses ← collect (enqueue_checked now) jobs; pure (committed responses)

  abbrev IsCommitted : ℕ → AtomicEnqueueOutcome → Type 0
  IsCommitted n (committed responses) = length responses ≡ n
  IsCommitted n (rejected reasons) = ⊥

  commit-IsCommitted :
      (jobs : List PreparedJob) (now : ℤ) → Yields (IsCommitted (length jobs)) (commit jobs now)
  unfolding commit
  commit-IsCommitted jobs now =
      Yields-bind (λ bs. length bs ≡ length jobs) _ _ _ (collect-length (enqueue_checked now) jobs)
        λ bs h. Yields-pure _ (committed bs) h

  -- The three ways a batch goes, by the two tests.
  decided :
      List PreparedJob
      → ℤ
      → (closing full : Bool) → List (ℕ × JobRejection)
      → List (ℕ × JobRejection)
      → Exec State AtomicEnqueueOutcome
  decided jobs now closing full x y =
      if closing then (if full then commit jobs now else pure (rejected x)) else pure (rejected y)

  decided-rejected :
      (jobs : List PreparedJob) (now : ℤ) (closing full : Bool) (x y z : List (ℕ × JobRejection))
      (s : State)
      → (decided jobs now closing full x y s).0 ≡ ok (rejected z)
      → (decided jobs now closing full x y s).1 ≡ s
  unfolding decided
  decided-rejected jobs now true true x y z s h =
      absurd
        (Yields-ok (IsCommitted (length jobs)) _ s (rejected z) (commit-IsCommitted jobs now) h)
  decided-rejected jobs now true false x y z s h = refl
  decided-rejected jobs now false full x y z s h = refl

  decided-committed :
      (jobs : List PreparedJob) (now : ℤ) (closing full : Bool) (x y : List (ℕ × JobRejection))
      (s : State) (responses : List EnqueueResponse)
      → (decided jobs now closing full x y s).0 ≡ ok (committed responses)
      → (closing ≡ true) × (full ≡ true) × (length responses ≡ length jobs)
  unfolding decided
  decided-committed jobs now true true x y s rs h = (
    refl,
    refl,
    Yields-ok (IsCommitted (length jobs)) _ s (committed rs) (commit-IsCommitted jobs now) h,
  )
  decided-committed jobs now true false x y s rs h = cc
  decided-committed jobs now false full x y s rs h = cc

  -- A batch that is rejected leaves the whole state as it was: none of its jobs goes in.
  pub apply_enqueue_atomic-rejected :
      (jobs : List PreparedJob) (now : ℤ) (s : State) (reasons : List (ℕ × JobRejection))
      → (apply_enqueue_atomic jobs now s).0 ≡ ok (rejected reasons)
      → (apply_enqueue_atomic jobs now s).1 ≡ s
  unfolding apply_enqueue_atomic decided commit ◌>>=◌
  apply_enqueue_atomic-rejected jobs now s reasons =
      decided-rejected jobs now (is_empty (closing_jobs s.indexes now 0 jobs))
        (is_empty (full_queues s.indexes (wanted jobs []) [])) _ _ reasons s

  -- When a batch is committed, it answers each of its jobs, none of them is for a queue that is being
  -- closed, and for every queue the live jobs that it had and the jobs of the batch that are for it
  -- are together at most the cap that the first of these jobs names, if it names one.
  pub apply_enqueue_atomic-committed :
      (jobs : List PreparedJob) (now : ℤ) (s : State) (responses : List EnqueueResponse)
      → (apply_enqueue_atomic jobs now s).0 ≡ ok (committed responses)
      → AllOpen s.indexes now jobs
        × ((q : Text) → IsWithin (cap_for q jobs) (live_depth s.indexes q + jobs_for q jobs))
        × (length responses ≡ length jobs)
  unfolding apply_enqueue_atomic decided commit ◌>>=◌
  apply_enqueue_atomic-committed jobs now s responses h =
      let tests =
        decided-committed jobs now (is_empty (closing_jobs s.indexes now 0 jobs))
          (is_empty (full_queues s.indexes (wanted jobs []) []))
          (full_jobs (full_queues s.indexes (wanted jobs []) []) 0 jobs)
          (closing_jobs s.indexes now 0 jobs) s responses h in
      (
        (none_closing-AllOpen s.indexes now 0 jobs).0 tests.0,
        (none_full-IsWithin s.indexes jobs).0 tests.1,
        tests.2,
      )

  decided-admits :
      (jobs : List PreparedJob) (now : ℤ) (closing full : Bool) (x y z : List (ℕ × JobRejection))
      (s : State)
      → closing ≡ true
      → full ≡ true
      → (decided jobs now closing full x y s).0 ≢ ok (rejected z)
  unfolding decided
  decided-admits jobs now true true x y z s a b h =
      Yields-ok (IsCommitted (length jobs)) _ s (rejected z) (commit-IsCommitted jobs now) h
  decided-admits jobs now true false x y z s a b h = cc
  decided-admits jobs now false full x y z s a b h = cc

  -- The other way round: a batch is not rejected when no job of it is for a queue that is being
  -- closed and, for every queue, the live jobs that it has and the jobs of the batch that are for it
  -- are together at most the cap that the first of these jobs names, if it names one.
  pub apply_enqueue_atomic-admits :
      (jobs : List PreparedJob) (now : ℤ) (s : State) (reasons : List (ℕ × JobRejection))
      → AllOpen s.indexes now jobs
      → ((q : Text) → IsWithin (cap_for q jobs) (live_depth s.indexes q + jobs_for q jobs))
      → (apply_enqueue_atomic jobs now s).0 ≢ ok (rejected reasons)
  unfolding apply_enqueue_atomic decided commit ◌>>=◌
  apply_enqueue_atomic-admits jobs now s reasons o within =
      decided-admits jobs now _ _ (full_jobs (full_queues s.indexes (wanted jobs []) []) 0 jobs)
        (closing_jobs s.indexes now 0 jobs) reasons s
        ((none_closing-AllOpen s.indexes now 0 jobs).1 o)
        ((none_full-IsWithin s.indexes jobs).1 within)
