-- ===== src/Server/Handlers/Atomic.antt =====
-- What the atomic batch handler of src/queue_server.rs leaves behind when it commits nothing.
use sepp.Prelude.{◌≡◌, refl, Bool, true, false, List, map, if◌then◌else◌, ◌∙◌, ap, sym, ltb, length}
use sepp.Prelude.Result.{Result, ok, err, Exec, pure, proceed, ◌>>=◌}
use sepp.Proto.{Prost, EnqueueRequest, EnqueueResponse}
use sepp.Fjall.{Fjall}
use sepp.Storage.{State}
use sepp.Storage.Enqueue.{AtomicEnqueueOutcome, committed, rejected}
use sepp.Storage.Enqueue.Outcome.{apply_enqueue_atomic-rejected}
use sepp.Handle.{prepare_jobs}
use sepp.Handle.Matched.{send_op-IsMatched}
use sepp.Server.Handlers.{
  Call, Answer, done, turned_away, panics, valid, errors, classify_of, commit_validated_atomic,
  commit_all, sized, enqueue_atomic_handler, is_empty, with_trace_context,
}

abbrev pub IsUncommitted : Answer AtomicEnqueueOutcome → Type 0
IsUncommitted (done (committed responses)) = ⊥
IsUncommitted (done (rejected reasons)) = Unit
IsUncommitted (turned_away r) = Unit
IsUncommitted panics = Unit

uncommitted :
    (a : Answer AtomicEnqueueOutcome) (responses : List EnqueueResponse)
    → IsUncommitted a
    → ok (done (committed responses)) ≡ ok a
    → ⊥
uncommitted (done (committed rs)) responses u e = u
uncommitted (done (rejected rs)) responses u e = cc
uncommitted (turned_away r) responses u e = cc
uncommitted panics responses u e = cc

module _ ⦃db : Fjall⦄ ⦃prost : Prost⦄ where
  branches :
      (empty large sound : Bool) (x y z : Answer AtomicEnqueueOutcome)
      (m : Exec State (Answer AtomicEnqueueOutcome)) (s : State) (a : Answer AtomicEnqueueOutcome)
      → ((m s).0 ≡ ok a → (m s).1 ≡ s)
      → ((if empty then pure x else if large then pure y else if sound then m else pure z) s).0
        ≡ ok a
      → ((if empty then pure x else if large then pure y else if sound then m else pure z) s).1 ≡ s
  branches true large sound x y z m s a h e = refl
  branches false true sound x y z m s a h e = refl
  branches false false true x y z m s a h e = h e
  branches false false false x y z m s a h e = refl

  kept :
      (c : Call) (jobs : List EnqueueRequest) (s : State) (r : Result AtomicEnqueueOutcome)
      (t : State) (a : Answer AtomicEnqueueOutcome)
      → commit_validated_atomic c jobs s ≡ (r, t)
      → IsUncommitted a
      → (proceed r (λ outcome. pure (done outcome)) t).0 ≡ ok a
      → (proceed r (λ outcome. pure (done outcome)) t).1 ≡ s
  unfolding commit_validated_atomic
  kept c jobs s (err e) t a g u h = cc
  kept c jobs s (ok (committed responses)) t a g u h = absurd (uncommitted a responses u h)
  kept c jobs s (ok (rejected reasons)) t a g u h =
      let traced = map (with_trace_context c.current) jobs in
      let prepared = prepare_jobs c.handle c.fresh 0 traced in
      let same =
        sym ((send_op-IsMatched c.handle c.fresh c.drain_clock s).of_enqueue_atomic traced) ∙ g in
      ap (λ p. p.1) (sym same)
      ∙ apply_enqueue_atomic-rejected prepared c.drain_clock s reasons (ap (λ p. p.0) same)

  -- An atomic batch that is turned away or rejected, whether at the admission or by the storage
  -- layer, leaves the whole state as it was.
  pub enqueue_atomic_handler-kept :
      (c : Call) (jobs : List EnqueueRequest) (s : State) (a : Answer AtomicEnqueueOutcome)
      → IsUncommitted a
      → (enqueue_atomic_handler c jobs s).0 ≡ ok a
      → (enqueue_atomic_handler c jobs s).1 ≡ s
  unfolding enqueue_atomic_handler sized commit_all ◌>>=◌
  enqueue_atomic_handler-kept c jobs s a u =
      branches (is_empty jobs) (ltb c.config.limits.max_enqueue_batch (length jobs))
        (is_empty (errors (classify_of c) 0 jobs)) _ _ _ (commit_all c jobs) s a
        (λ h. kept c (valid (classify_of c) jobs) s _ _ a refl u h)
