-- ===== src/Storage/Enqueue/Keep.antt =====
-- `apply_enqueue` and `apply_enqueue_atomic` of src/storage.rs, on the mirror.
use sepp.Prelude.{ℕ, List, [], ◌∷◌, Option, none, some}
use sepp.Prelude.Int.{ℤ, ltb_ℤ}
use sepp.Prelude.Result.{Exec}
use sepp.Prelude.Maintains.{Maintains, maintains_rules, Maintains-if, Maintains-bind}
use sepp.Prelude.Maintains.{Maintains-pure, Maintains-gets}
use sepp.Storage.Enqueue.{
  insert_unless, respond, enqueue_checked, apply_enqueue_atomic, closing_jobs, full_queues, wanted,
  is_empty,
}
use sepp.Prelude.Result.{gets}
use sepp.Std.Bytes.{Bytes, Text}
use sepp.Proto.{Prost, Payload, EnqueueRequest, Timestamp, timestamp_to_millis}
use sepp.Fjall.{Fjall}
use sepp.Keys.{DedupValue}
use sepp.Op.{PreparedJob}
use sepp.Storage.{Timer}
use sepp.Storage.Mirror.{Mirrors, mirror_rules, put_timer-Mirrors}
use sepp.Storage.Enqueue.{
  DedupCheck, hit, miss, collect, dedup_decision, check_key, check_dedup, insert_payload,
  insert_now, insert_at, drop_stale, insert_dedup, insert_job, admit, enqueue_one, apply_enqueue,
  respond, enqueue_checked, apply_enqueue_atomic,
}

pub collect-Maintains :
    {S A B : Type 0} {P : S → Type 0} (f : A → Exec S B) (xs : List A)
    → ((a : A) → Maintains P (f a))
    → Maintains P (collect f xs)
unfolding collect
collect-Maintains f [] h = search maintains_rules
collect-Maintains f (x ∷ xs) h = Maintains-bind (f x) _ (h x) (λ b.
    Maintains-bind (collect f xs) _ (collect-Maintains f xs h) (λ bs. Maintains-pure (b ∷ bs)))

ruleset enqueue_rules = (maintains_rules, mirror_rules)

module _ ⦃db : Fjall⦄ ⦃prost : Prost⦄ where
  dedup_decision-Mirrors :
      (req : EnqueueRequest) (k : Bytes) (now : ℤ) (v : Option DedupValue)
      → Maintains Mirrors (dedup_decision req k now v)
  unfolding dedup_decision
  dedup_decision-Mirrors req k now none = search enqueue_rules
  dedup_decision-Mirrors req k now (some v) = search enqueue_rules

  check_key-Mirrors :
      (req : EnqueueRequest) (now : ℤ) (k : Option Text) → Maintains Mirrors (check_key req now k)
  unfolding check_key
  check_key-Mirrors req now none = search enqueue_rules
  check_key-Mirrors req now (some k) = search (enqueue_rules, dedup_decision-Mirrors)

  pub check_dedup-Mirrors :
      (req : EnqueueRequest) (now : ℤ) → Maintains Mirrors (check_dedup req now)
  unfolding check_dedup
  check_dedup-Mirrors req now = check_key-Mirrors req now req.idempotency_key

  insert_payload-Mirrors :
      (id : Text) (p : Option Payload) → Maintains Mirrors (insert_payload id p)
  unfolding insert_payload
  insert_payload-Mirrors id none = search enqueue_rules
  insert_payload-Mirrors id (some p) = search enqueue_rules

  insert_now-Mirrors : (p : PreparedJob) (now : ℤ) → Maintains Mirrors (insert_now p now)
  unfolding insert_now
  insert_now-Mirrors p now = search enqueue_rules

  insert_at-Mirrors :
      (p : PreparedJob) (now : ℤ) (at_time : Option Timestamp)
      → Maintains Mirrors (insert_at p now at_time)
  unfolding insert_at
  insert_at-Mirrors p now none = unfold insert_now in search enqueue_rules
  insert_at-Mirrors p now (some t) =
      Maintains-if (ltb_ℤ now (timestamp_to_millis t)) _ _ (search enqueue_rules)
        (unfold insert_now in search enqueue_rules)

  drop_stale-Mirrors : (old : Option Bytes) → Maintains Mirrors (drop_stale old)
  unfolding drop_stale
  drop_stale-Mirrors none = search enqueue_rules
  drop_stale-Mirrors (some t) = search enqueue_rules

  insert_dedup-Mirrors :
      (p : PreparedJob) (now : ℤ) (old : Option Bytes) (k : Option Text)
      → Maintains Mirrors (insert_dedup p now old k)
  unfolding insert_dedup
  insert_dedup-Mirrors p now old none = search enqueue_rules
  insert_dedup-Mirrors p now old (some k) =
      Maintains-bind (drop_stale old) _ (drop_stale-Mirrors old)
        (λ _. put_timer-Mirrors Timer.dedup_timers _ _ _ _ (search enqueue_rules))

  pub insert_job-Mirrors :
      (p : PreparedJob) (now : ℤ) (old : Option Bytes) → Maintains Mirrors (insert_job p now old)
  unfolding insert_job
  insert_job-Mirrors p now old =
      search (enqueue_rules, insert_payload-Mirrors, insert_at-Mirrors, insert_dedup-Mirrors) depth
        12

  insert_unless-Mirrors :
      (p : PreparedJob) (now : ℤ) (old : Option Bytes) (full : Option ℕ)
      → Maintains Mirrors (insert_unless p now old full)
  unfolding insert_unless
  insert_unless-Mirrors p now old none = search (maintains_rules, insert_job-Mirrors)
  insert_unless-Mirrors p now old (some cap) = search maintains_rules

  admit-Mirrors : (p : PreparedJob) (now : ℤ) (c : DedupCheck) → Maintains Mirrors (admit p now c)
  unfolding admit
  admit-Mirrors p now (hit r) = search maintains_rules
  admit-Mirrors p now (miss old) = search (maintains_rules, insert_unless-Mirrors)

  pub apply_enqueue-Mirrors :
      (jobs : List PreparedJob) (now : ℤ) → Maintains Mirrors (apply_enqueue jobs now)
  unfolding apply_enqueue enqueue_one
  apply_enqueue-Mirrors jobs now =
      collect-Maintains (enqueue_one now) jobs
        (λ p. search (maintains_rules, check_dedup-Mirrors, admit-Mirrors))

  respond-Mirrors :
      (p : PreparedJob) (now : ℤ) (c : DedupCheck) → Maintains Mirrors (respond p now c)
  unfolding respond
  respond-Mirrors p now (hit r) = search maintains_rules
  respond-Mirrors p now (miss old) = insert_job-Mirrors p now old

  enqueue_checked-Mirrors : (now : ℤ) (p : PreparedJob) → Maintains Mirrors (enqueue_checked now p)
  unfolding enqueue_checked
  enqueue_checked-Mirrors now p = search (maintains_rules, check_dedup-Mirrors, respond-Mirrors)

  pub apply_enqueue_atomic-Mirrors :
      (jobs : List PreparedJob) (now : ℤ) → Maintains Mirrors (apply_enqueue_atomic jobs now)
  unfolding apply_enqueue_atomic
  apply_enqueue_atomic-Mirrors jobs now =
      let all = collect-Maintains (enqueue_checked now) jobs (enqueue_checked-Mirrors now) in
      Maintains-bind (gets (λ s. s.indexes)) _ (Maintains-gets _) (λ ix.
        Maintains-if (is_empty (closing_jobs ix now 0 jobs)) _ _
          (Maintains-if (is_empty (full_queues ix (wanted jobs []) [])) _ _
            (Maintains-bind _ _ all (λ r. Maintains-pure _)) (Maintains-pure _))
          (Maintains-pure _))
