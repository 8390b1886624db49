-- ===== src/Queues/Effective.antt =====
-- The cheap readers of src/queues.rs, against the full limits of a queue.
use sepp.Prelude.{
  ℕ, ◌≤◌, ◌≡◌, refl, Bool, true, false, List, [], ◌∷◌, Option, none, some, ltb, min, arith,
  or-false, All, sym, subst, ◌∙◌, Option-cases, inl, inr, if◌then◌else◌, unwrap_or,
}
use sepp.Prelude.Check.{IfSome}
use sepp.Std.Bytes.{Text, ◌=ᵇ◌}
use sepp.Std.HashMap
use sepp.Std.HashMap.{HashMap, bytes_eq, get-insert}
use sepp.Config.{Config, EffectiveLimits, QueueConfig, from_globals, merged_with}
use sepp.Queues.{
  QueueRegistry, RetryPolicy, collect, any_delay, min_lease, from_config, effective, retry_policy,
  dedup_window_ms,
}

abbrev pub policy_of : EffectiveLimits → RetryPolicy
policy_of eff = record {
  retry_delay_ms = eff.retry_delay_ms;
  retry_backoff = eff.retry_backoff;
  retry_delay_max_ms = eff.retry_delay_max_ms;
  max_schedule_horizon_ms = eff.max_schedule_horizon_ms;
}

-- The retry policy of a queue and its deduplication window, which are read without merging the
-- limits, are those of the limits that are in force for the queue.
pub retry_policy-effective :
    (r : QueueRegistry) (queue : Text)
    → (retry_policy r queue ≡ policy_of (effective r queue))
      × (dedup_window_ms r queue ≡ (effective r queue).dedup_window_ms)
unfolding retry_policy effective dedup_window_ms merged_with
retry_policy-effective r queue = elim (Option-cases (HashMap.get r.declared queue)) [
  | inl e ↦ rw (e, effective) (refl, refl)
  | inr (q, e) ↦ rw (e, effective) (refl, refl)
]

some_inj : {a b : QueueConfig} → some a ≡ some b → a ≡ b
some_inj e = cc

none_ne : {a : QueueConfig} {X : Type 0} → none ≡ some a → X
none_ne e = cc

module _ (P : QueueConfig → Type 0) where
  abbrev Values : HashMap Text QueueConfig → Type 0
  Values m = (k : Text) (q : QueueConfig) → HashMap.get m k ≡ some q → P q

  by_name :
      {q c : QueueConfig} (b : Bool) (o : Option QueueConfig)
      → ((d : QueueConfig) → o ≡ some d → P d)
      → P q
      → (if b then some q else o) ≡ some c
      → P c
  by_name true o h p e = subst P (some_inj e) p
  by_name false o h p e = h _ e

  insert-Values :
      (m : HashMap Text QueueConfig) (q : QueueConfig)
      → P q
      → Values m
      → Values (HashMap.insert m q.name q)
  insert-Values m q p h k c e =
      by_name (q.name =ᵇ k) (HashMap.get m k) (h k) p (sym (get-insert m q.name k q) ∙ e)

  -- What holds of every queue of the file holds of every declared queue.
  pub collect-Values :
      (m : HashMap Text QueueConfig) (qs : List QueueConfig)
      → Values m
      → All P qs
      → Values (collect m qs)
  unfolding collect
  collect-Values m [] h t = h
  collect-Values m (q ∷ qs) h t =
      collect-Values (HashMap.insert m q.name q) qs (insert-Values m q t.0 h) t.1

  pub declared-Values : (cfg : Config) → All P cfg.queues → Values (from_config cfg).declared
  unfolding from_config HashMap.get
  declared-Values cfg t = collect-Values [] cfg.queues (λ k q e. none_ne e) t

-- An override of the lease is not below the minimum.
min_lease-le-acc : (acc : ℕ) (qs : List QueueConfig) → min_lease acc qs ≤ acc
unfolding min_lease
min_lease-le-acc acc [] = omega arith
min_lease-le-acc acc (q ∷ qs) = elim (Option-cases q.max_lease_duration_ms) [
  | inl e ↦ rw e (min_lease-le-acc acc qs)
  | inr (ms, e) ↦ rw e (omega (arith, min_lease-le-acc (min acc ms) qs))
]

abbrev AtLeast : ℕ → QueueConfig → Type 0
AtLeast n q = IfSome q.max_lease_duration_ms (λ ms. n ≤ ms)

min_lease-le : (acc : ℕ) (qs : List QueueConfig) → All (AtLeast (min_lease acc qs)) qs
unfolding min_lease
min_lease-le acc [] = tt
min_lease-le acc (q ∷ qs) = (
  elim (Option-cases q.max_lease_duration_ms) [
    | inl e ↦ rw e tt
    | inr (ms, e) ↦ rw e (omega (arith, min_lease-le-acc (min acc ms) qs))
  ],
  min_lease-le (elim q.max_lease_duration_ms [ none ↦ acc | some ms ↦ min acc ms ]) qs,
)

overridden :
    (n : ℕ) (d : EffectiveLimits) (q : QueueConfig)
    → n ≤ d.max_lease_duration_ms
    → AtLeast n q
    → n ≤ (merged_with d q).max_lease_duration_ms
unfolding merged_with
overridden n d q h t = elim (Option-cases q.max_lease_duration_ms) [
  | inl e ↦ rw e h
  | inr (ms, e) ↦ rw e (rw e at t)
]

-- No queue, declared or not, has a longest lease under the minimum that the registry of a
-- configuration keeps.
pub min_max_lease_ms-le :
    (cfg : Config) (queue : Text)
    → (from_config cfg).min_max_lease_ms ≤ (effective (from_config cfg) queue).max_lease_duration_ms
unfolding from_config effective
min_max_lease_ms-le cfg queue =
    let defaults = from_globals cfg.limits cfg.storage in
    let acc = defaults.max_lease_duration_ms in
    let n = min_lease acc cfg.queues in
    elim (Option-cases (HashMap.get (collect [] cfg.queues) queue)) [
      | inl e ↦ rw (e, effective) (min_lease-le-acc acc cfg.queues)
      | inr (q, e) ↦
          rw (e, effective)
            (overridden n defaults q (min_lease-le-acc acc cfg.queues)
              (declared-Values (AtLeast n) cfg (min_lease-le acc cfg.queues) queue q e))
    ]

abbrev HasNoDelay : QueueConfig → Type 0
HasNoDelay q = IfSome q.retry_delay_ms (λ ms. ms ≡ 0)

is_zero : (n : ℕ) → ltb 0 n ≡ false → n ≡ 0
is_zero n h = ground arith

any_delay-HasNoDelay : (qs : List QueueConfig) → any_delay qs ≡ false → All HasNoDelay qs
unfolding any_delay
any_delay-HasNoDelay [] h = tt
any_delay-HasNoDelay (q ∷ qs) h =
    let both = or-false _ (any_delay qs) h in
    (
      elim (Option-cases q.retry_delay_ms) [
        | inl e ↦ rw e tt
        | inr (ms, e) ↦ rw e (is_zero ms (rw e at both.0))
      ],
      any_delay-HasNoDelay qs both.1,
    )

no_override : (q : QueueConfig) (d : ℕ) → d ≡ 0 → HasNoDelay q → unwrap_or q.retry_delay_ms d ≡ 0
no_override q d z t = elim (Option-cases q.retry_delay_ms) [
  | inl e ↦ rw e z
  | inr (ms, e) ↦ rw e (rw e at t)
]

-- Without a retry policy in the configuration, every queue's delay is zero.
pub any_retry_policy-zero :
    (cfg : Config) (queue : Text)
    → (from_config cfg).any_retry_policy ≡ false
    → (retry_policy (from_config cfg) queue).retry_delay_ms ≡ 0
unfolding from_config retry_policy from_globals
any_retry_policy-zero cfg queue h =
    let both = or-false (ltb 0 cfg.limits.retry_delay_ms) (any_delay cfg.queues) h in
    elim (Option-cases (HashMap.get (collect [] cfg.queues) queue)) [
      | inl e ↦ rw (e, retry_policy) (is_zero _ both.0)
      | inr (q, e) ↦
          rw (e, retry_policy)
            (no_override q cfg.limits.retry_delay_ms (is_zero _ both.0)
              (declared-Values HasNoDelay cfg (any_delay-HasNoDelay cfg.queues both.1) queue q e))
    ]
