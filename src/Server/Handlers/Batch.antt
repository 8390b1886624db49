-- ===== src/Server/Handlers/Batch.antt =====
-- What the two batch handlers of src/queue_server.rs answer.
use sepp.Prelude.{
  Bool-cases, ltb→lt, ◌<◌, ◌⊎◌, inl, inr, ℕ, suc, ◌≡◌, refl, List, [], ◌∷◌, some, map, ltb, length,
  arith, ◌∙◌, ap, sym,
}
use sepp.Std.Bytes.{Text}
use sepp.Server.Handlers.{
  Refusal, Call, Answer, done, turned_away, panics, slots, valid, fill, classify_of,
  commit_validated, sized, enqueue_batch_handler, with_trace_context,
}
use sepp.Prelude.Check.{Check-cases, Check, pass, fail}
use sepp.Prelude.Result.{Result, ok, err, Exec}
use sepp.Prelude.Yields.{Yields, Holds, Yields-pure, Yields-bind, Yields-ok}
use sepp.Proto.{Prost, EnqueueRequest, JobRejection}
use sepp.Fjall.{Fjall}
use sepp.Storage.{State}
use sepp.Storage.Enqueue.{EnqueueResult, refused}
use sepp.Storage.Enqueue.Outcome.{apply_enqueue-length}
use sepp.Handle.{Handle, prepare_jobs}
use sepp.Handle.Matched.{send_op-IsMatched}

module _ (classify : EnqueueRequest → Check JobRejection) where
  -- One result for each job, and the rejection of the admission for each that it rejects.
  abbrev pub Answers : List EnqueueRequest → List EnqueueResult → Type 0
  Answers [] [] = Unit
  Answers [] (x ∷ xs) = ⊥
  Answers (job ∷ jobs) [] = ⊥
  Answers (job ∷ jobs) (x ∷ xs) =
      ((r : JobRejection) → classify job ≡ fail r → x ≡ refused r) × Answers jobs xs

  Filled : List EnqueueRequest → List EnqueueResult → Type 0
  Filled jobs results =
      (out : List EnqueueResult) × (fill (slots classify jobs) results ≡ some out)
      × Answers jobs out

  fill-Answers :
      (jobs : List EnqueueRequest) (results : List EnqueueResult)
      → length results ≡ length (valid classify jobs)
      → (out : List EnqueueResult) × (fill (slots classify jobs) results ≡ some out)
        × Answers jobs out
  unfolding slots valid fill
  fill-Answers [] results h = ([], refl, tt)
  fill-Answers (job ∷ jobs) results h = elim (Check-cases (classify job)) [
    | inl e ↦ taken results (rw (e, length, valid) at h) e λ xs. fill-Answers jobs xs
    | inr (r, e) ↦
        let (out, filled, rest) = fill-Answers jobs results (rw (e, length, valid) at h) in
        rw e (refused r ∷ out, rw filled refl, (λ r' e'. cc, rest))
  ]
    where
      taken :
          (results : List EnqueueResult)
          → length results ≡ suc (length (valid classify jobs))
          → classify job ≡ pass
          → ((xs : List EnqueueResult)
              → length xs ≡ length (valid classify jobs)
              → (out : List EnqueueResult) × (fill (slots classify jobs) xs ≡ some out)
                × Answers jobs out)
          → (out : List EnqueueResult) × (fill (slots classify (job ∷ jobs)) results ≡ some out)
            × Answers (job ∷ jobs) out
      taken [] h e ih = absurd (omega arith)
      taken (x ∷ xs) h e ih =
          let (out, filled, rest) = ih xs (omega arith) in
          rw e (x ∷ out, rw filled refl, (λ r e'. cc, rest))

module _ ⦃db : Fjall⦄ ⦃prost : Prost⦄ where
  length-prepare_jobs :
      (h : Handle) (fresh : ℕ → Text) (n : ℕ) (jobs : List EnqueueRequest)
      → length (prepare_jobs h fresh n jobs) ≡ length jobs
  unfolding prepare_jobs
  length-prepare_jobs h fresh n [] = refl
  length-prepare_jobs h fresh n (job ∷ jobs) =
      omega (arith, length-prepare_jobs h fresh (suc n) jobs)

  length-map : {A B : Type 0} (f : A → B) (xs : List A) → length (map f xs) ≡ length xs
  length-map f [] = refl
  length-map f (x ∷ xs) = omega (arith, length-map f xs)

  committed_length :
      (c : Call) (jobs : List EnqueueRequest) (s : State) (r : Result (List EnqueueResult))
      → (commit_validated c jobs s).0 ≡ r
      → Holds (λ results. length results ≡ length jobs) r
  unfolding commit_validated
  committed_length c jobs s (err e) g = tt
  committed_length c jobs s (ok results) g =
      let traced = map (with_trace_context c.current) jobs in
      let prepared = prepare_jobs c.handle c.fresh 0 traced in
      let same = (send_op-IsMatched c.handle c.fresh c.drain_clock s).of_enqueue traced in
      omega (
        arith,
        apply_enqueue-length prepared c.drain_clock s results (ap (λ p. p.0) (sym same) ∙ g),
        length-prepare_jobs c.handle c.fresh 0 traced,
        length-map (with_trace_context c.current) jobs,
      )

  -- What an answer to a batch says: a result for each job, or the size of the batch is wrong.
  abbrev pub IsBatchAnswer : Call → List EnqueueRequest → Answer (List EnqueueResult) → Type 0
  IsBatchAnswer c jobs (done results) = Answers (classify_of c) jobs results
  IsBatchAnswer c jobs (turned_away r) =
      (jobs ≡ []) ⊎ (c.config.limits.max_enqueue_batch < length jobs)
  IsBatchAnswer c jobs panics = ⊥

  sized-Yields :
      {A : Type 0} (P : Answer A → Type 0) (c : Call) (jobs : List EnqueueRequest)
      (m : Exec State (Answer A))
      → ((r : Refusal)
          → (jobs ≡ []) ⊎ (c.config.limits.max_enqueue_batch < length jobs)
          → P (turned_away r))
      → Yields P m
      → Yields P (sized c jobs m)
  unfolding sized
  sized-Yields P c [] m h y = Yields-pure _ _ (h _ (inl refl))
  sized-Yields P c (job ∷ jobs) m h y =
      elim (Bool-cases (ltb c.config.limits.max_enqueue_batch (length (job ∷ jobs)))) [
        | inl e ↦ rw e (Yields-pure _ _ (h _ (inr (ltb→lt _ _ e))))
        | inr e ↦ rw e y
      ]

  -- A batch is answered job by job, in order, each job that the admission rejects with that
  -- rejection, or it is turned away because it is empty or too large; the handler never runs out of
  -- results.
  pub enqueue_batch_handler-IsBatchAnswer :
      (c : Call) (jobs : List EnqueueRequest) (s : State) (a : Answer (List EnqueueResult))
      → (enqueue_batch_handler c jobs s).0 ≡ ok a
      → IsBatchAnswer c jobs a
  unfolding enqueue_batch_handler
  enqueue_batch_handler-IsBatchAnswer c jobs s a = Yields-ok (IsBatchAnswer c jobs) _ s a (
      sized-Yields (IsBatchAnswer c jobs) c jobs _ (λ r h. h)
        (Yields-bind (λ results. length results ≡ length (valid (classify_of c) jobs)) _
          (commit_validated c (valid (classify_of c) jobs)) _
          (record { at = λ t. committed_length c _ t _ refl })
          λ results h.
            let (out, filled, rest) = fill-Answers (classify_of c) jobs results h in
            Yields-pure _ _ (rw filled rest)))
