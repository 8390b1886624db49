-- ===== src/Storage/Sweep/Bounds.antt =====
-- `apply_sweep` of src/storage.rs: the amount of work of one sweep.
use sepp.Prelude.{ℕ, zero, suc, ◌+◌, ◌*◌, ◌≤◌, ◌≡◌, Bool, Option, none, some, arith}
use sepp.Prelude.Int.{ℤ}
use sepp.Prelude.Result.{ok, Exec}
use sepp.Prelude.Yields.{Yields, Yields-pure, Yields-bind, Yields-after, Yields-ok}
use sepp.Std.Bytes.{Bytes, Text}
use sepp.Proto.{Prost}
use sepp.Fjall.{Fjall}
use sepp.Storage.{State, Timer, pop_timer}
use sepp.Storage.Sweep.{
  sweep_due, sweep_closing, sweep_scheduled, sweep_leases, sweep_dedup, sweep_dead_letter,
  sweep_retention, apply_sweep,
}

module _ ⦃db : Fjall⦄ ⦃prost : Prost⦄ where
  sweep_due-budget :
      (t : Timer) (now : ℤ) (handle : Bytes → Text → Exec State Unit) (budget : ℕ)
      → Yields (λ n. n ≤ budget) (sweep_due t now handle budget)
  unfolding sweep_due
  sweep_due-budget t now handle zero = Yields-pure _ 0 (omega arith)
  sweep_due-budget t now handle (suc budget) = Yields-after _ (pop_timer t now) _ (elim [
    | none ↦ Yields-pure _ 0 (omega arith)
    | some (k, q) ↦ Yields-after _ (handle k q) _ λ _.
        Yields-bind (λ n. n ≤ budget) _ _ _ (sweep_due-budget t now handle budget)
          λ rest h. Yields-pure _ (suc rest) (omega arith)
  ])

  -- The phases that have a budget: promotions, leases, dedup records, and retention if it is on.
  abbrev pub phases : Option ℤ → ℕ
  phases none = 3
  phases (some cutoff) = 4

  sweep_retention-phases :
      (budget : ℕ) (cutoff : Option ℤ)
      → Yields (λ n. n + 3 * budget ≤ phases cutoff * budget) (sweep_retention budget cutoff)
  unfolding sweep_retention
  sweep_retention-phases budget none = Yields-pure _ 0 (omega arith)
  sweep_retention-phases budget (some cutoff) =
      Yields-bind (λ n. n ≤ budget) _ _ _
        (sweep_due-budget Timer.dead_letter cutoff sweep_dead_letter budget)
        λ n h. Yields-after _ _ _ λ _. Yields-pure _ n (omega arith)

  -- The budget is that of a phase, not of the sweep: a sweep that succeeds reports at most three times
  -- the budget of timers handled, and at most four times the budget if dead letters have a retention.
  pub apply_sweep-budget :
      (now : ℤ) (budget : ℕ) (cutoff : Option ℤ) (dead : Bool) (s : State) (n : ℕ)
      → (apply_sweep now budget cutoff dead s).0 ≡ ok n
      → n ≤ phases cutoff * budget
  unfolding apply_sweep
  apply_sweep-budget now budget cutoff dead s n =
      Yields-ok (λ k. k ≤ phases cutoff * budget) _ s n
        (Yields-after _ (sweep_closing now) _ λ _.
          Yields-bind (λ k. k ≤ budget) _ _ _
            (sweep_due-budget Timer.scheduled now sweep_scheduled budget)
            λ a ha.
              Yields-bind (λ k. k ≤ budget) _ _ _
                (sweep_due-budget Timer.leases now (sweep_leases now dead) budget)
                λ b hb.
                  Yields-bind (λ k. k ≤ budget) _ _ _
                    (sweep_due-budget Timer.dedup_timers now (sweep_dedup now) budget)
                    λ c hc.
                      Yields-bind (λ k. k + 3 * budget ≤ phases cutoff * budget) _ _ _
                        (sweep_retention-phases budget cutoff)
                        λ d hd. Yields-pure _ (a + b + c + d) (omega arith))
