-- ===== src/Storage/Sweep/Keep.antt =====
-- `apply_sweep` of src/storage.rs, on the mirror: each phase pops an index entry, removes its row,
-- and puts the job where it goes.
use sepp.Storage.Sweep.{sweep_retention, apply_sweep}
use sepp.Storage.Sweep.Tombstones.{sweep_closing-Mirrors}
use sepp.Prelude.{
  ℕ, zero, suc, true, false, Bool, Option, none, some, leb, and_then, refl, if◌then◌else◌,
}
use sepp.Prelude.Int.{ℤ}
use sepp.Prelude.Result.{Result, ok, err, Exec, pure}
use sepp.Prelude.Maintains.{
  Maintains, Maintains-if, Maintains-bind, Maintains-pure, maintains_rules,
}
use sepp.Std.Bytes.{Bytes, Text}
use sepp.Std.Utf8.{from_utf8}
use sepp.Proto.{Prost, Job}
use sepp.Fjall.{Fjall}
use sepp.Keys.{Inflight, decode_inflight, dedup_timer_key}
use sepp.Storage.{State, Space, Timer, tx_remove, attempt_of_chunk}
use sepp.Storage.DeadLetter.Keep.{maybe_store_dead_letter-Mirrors}
use sepp.Storage.Mirror.{Mirrors, mirror_rules, timer_space}
use sepp.Storage.Mirror.Pop.{
  IsPopped, Leads, Passes, Passes-get, Leads-after, Leads-get, Leads-remove, Leads-bind,
  pop_timer-Mirrors,
}
use sepp.Storage.Sweep.{
  sweep_due, promote, expire_dedup, past, sweep_dedup, promote_stored, promote_job, sweep_scheduled,
  expire_dead, redeliver, expire, expire_stored, expire_lease, sweep_leases, sweep_dead_letter,
}

module _ ⦃db : Fjall⦄ ⦃prost : Prost⦄ where
  -- What a phase asks of the function that handles a due timer.
  abbrev pub Restores : Timer → (Bytes → Text → Exec State Unit) → Type 0
  Restores t handle =
      (k : Bytes) (q : Text) → Leads (IsPopped (timer_space t) k) Mirrors (handle k q)

  pub sweep_due-Mirrors :
      (t : Timer) (now : ℤ) (handle : Bytes → Text → Exec State Unit) (budget : ℕ)
      → Restores t handle
      → Maintains Mirrors (sweep_due t now handle budget)
  unfolding sweep_due
  sweep_due-Mirrors t now handle zero h = Maintains-pure 0
  sweep_due-Mirrors t now handle (suc budget) h =
      pop_timer-Mirrors t now _ (Maintains-pure 0) λ k q. Leads-bind _ _ _ _ (h k q) λ _.
        Maintains-bind _ _ (sweep_due-Mirrors t now handle budget h)
          λ rest. Maintains-pure (suc rest)

  promote-Mirrors : (hint : Option ℕ) (r : Result (Text × Job)) → Maintains Mirrors (promote hint r)
  unfolding promote
  promote-Mirrors hint (err e) = search maintains_rules
  promote-Mirrors hint (ok (q, job)) = search (maintains_rules, mirror_rules) depth 10

  promote_stored-Mirrors :
      (hint : Option ℕ) (v : Option Bytes) → Maintains Mirrors (promote_stored hint v)
  unfolding promote_stored
  promote_stored-Mirrors hint none = search maintains_rules
  promote_stored-Mirrors hint (some v) = promote-Mirrors hint _

  promote_job-Mirrors :
      (hint : Option ℕ) (id : Option Bytes) → Maintains Mirrors (promote_job hint id)
  unfolding promote_job
  promote_job-Mirrors hint none = search maintains_rules
  promote_job-Mirrors hint (some id) =
      search (maintains_rules, mirror_rules, promote_stored-Mirrors)

  pub sweep_scheduled-Restores : Restores Timer.scheduled sweep_scheduled
  unfolding sweep_scheduled
  sweep_scheduled-Restores k q =
      Leads-get (IsPopped Space.scheduled k) Mirrors Space.scheduled k _ λ v.
        Leads-remove Space.scheduled k _ (
          search (maintains_rules, mirror_rules, promote_job-Mirrors (and_then v attempt_of_chunk)))

  expire_dead-Mirrors :
      (now : ℤ) (dead : Bool) (id : Bytes) (i : Inflight)
      → Maintains Mirrors (expire_dead now dead id i)
  unfolding expire_dead
  expire_dead-Mirrors now dead id i =
      search (maintains_rules, mirror_rules, maybe_store_dead_letter-Mirrors) depth 10

  redeliver-Mirrors :
      (id : Bytes) (i : Inflight) (decoded : Option Text)
      → Maintains Mirrors (redeliver id i decoded)
  unfolding redeliver
  redeliver-Mirrors id i none = search maintains_rules
  redeliver-Mirrors id i (some text) = search (maintains_rules, mirror_rules) depth 12

  expire-Mirrors :
      (now : ℤ) (dead : Bool) (id : Bytes) (r : Result Inflight)
      → Maintains Mirrors (expire now dead id r)
  unfolding expire
  expire-Mirrors now dead id (err e) = search maintains_rules
  expire-Mirrors now dead id (ok i) =
      Maintains-if (leb i.max_attempts i.attempt) _ _ (expire_dead-Mirrors now dead id i)
        (redeliver-Mirrors id i (from_utf8 id))

  expire_stored-Mirrors :
      (now : ℤ) (dead : Bool) (id : Bytes) (v : Option Bytes)
      → Maintains Mirrors (expire_stored now dead id v)
  unfolding expire_stored
  expire_stored-Mirrors now dead id none = search maintains_rules
  expire_stored-Mirrors now dead id (some v) = expire-Mirrors now dead id (decode_inflight v)

  expire_lease-Mirrors :
      (now : ℤ) (dead : Bool) (id : Option Bytes) → Maintains Mirrors (expire_lease now dead id)
  unfolding expire_lease
  expire_lease-Mirrors now dead none = search maintains_rules
  expire_lease-Mirrors now dead (some id) =
      search (maintains_rules, mirror_rules, expire_stored-Mirrors)

  pub sweep_leases-Restores :
      (now : ℤ) (dead : Bool) → Restores Timer.leases (sweep_leases now dead)
  unfolding sweep_leases
  sweep_leases-Restores now dead k q =
      Leads-remove Space.leases k _ (search (maintains_rules, mirror_rules, expire_lease-Mirrors))

  pub sweep_dead_letter-Restores : Restores Timer.dead_letter sweep_dead_letter
  unfolding sweep_dead_letter
  sweep_dead_letter-Restores k q = Leads-remove Space.dead_letter k _ (search mirror_rules)

  forget-Passes :
      (k dedup_k : Bytes) (b : Bool)
      → Passes
          (IsPopped Space.dedup_timers k)
          (if b then tx_remove Space.dedup dedup_k else pure tt)
  unfolding tx_remove
  forget-Passes k dedup_k true = record { at = λ s p _. (refl, p) }
  forget-Passes k dedup_k false = record { at = λ s p _. (refl, p) }

  expire_dedup-Passes :
      (now : ℤ) (k : Bytes) (dedup_k : Option Bytes)
      → Passes (IsPopped Space.dedup_timers k) (expire_dedup now dedup_k)
  unfolding expire_dedup
  expire_dedup-Passes now k none = record { at = λ s p _. (refl, p) }
  expire_dedup-Passes now k (some dedup_k) =
      Passes-get (IsPopped Space.dedup_timers k) Space.dedup dedup_k _
        λ v. forget-Passes k dedup_k (past now v)

  pub sweep_dedup-Restores : (now : ℤ) → Restores Timer.dedup_timers (sweep_dedup now)
  unfolding sweep_dedup
  sweep_dedup-Restores now k q =
      Leads-after (IsPopped Space.dedup_timers k) Mirrors _ _
        (expire_dedup-Passes now k (dedup_timer_key k))
        (Leads-remove Space.dedup_timers k _ (search (maintains_rules, mirror_rules)))

  sweep_retention-Mirrors :
      (budget : ℕ) (cutoff : Option ℤ) → Maintains Mirrors (sweep_retention budget cutoff)
  unfolding sweep_retention
  sweep_retention-Mirrors budget none = Maintains-pure 0
  sweep_retention-Mirrors budget (some cutoff) =
      Maintains-bind _ _
        (sweep_due-Mirrors Timer.dead_letter cutoff _ budget sweep_dead_letter-Restores)
        λ n. search (maintains_rules, mirror_rules)

  pub apply_sweep-Mirrors :
      (now : ℤ) (budget : ℕ) (cutoff : Option ℤ) (dead : Bool)
      → Maintains Mirrors (apply_sweep now budget cutoff dead)
  unfolding apply_sweep
  apply_sweep-Mirrors now budget cutoff dead = Maintains-bind _ _ (sweep_closing-Mirrors now) λ _.
      Maintains-bind _ _ (sweep_due-Mirrors Timer.scheduled now _ budget sweep_scheduled-Restores)
        λ a.
          Maintains-bind _ _
            (sweep_due-Mirrors Timer.leases now _ budget (sweep_leases-Restores now dead))
            λ b.
              Maintains-bind _ _
                (sweep_due-Mirrors Timer.dedup_timers now _ budget (sweep_dedup-Restores now))
                λ c. search (maintains_rules, sweep_retention-Mirrors)
