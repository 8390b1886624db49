-- ===== src/Queues.antt =====
-- src/queues.rs: the limits in force for a queue.
pub mod Effective
use sepp.Prelude.{
  ℕ, ◌+◌, Bool, false, ◌||◌, List, [], ◌∷◌, Option, none, some, ltb, unwrap_or, and_then, min,
  is_some, length,
}
use sepp.Prelude.Int.{ℤ}
use sepp.Std.Bytes.{Text}
use sepp.Std.HashMap
use sepp.Std.HashMap.{HashMap, bytes_eq}
use sepp.Config.{Config, EffectiveLimits, QueueConfig, RetryBackoff, from_globals, merged_with}

pub record QueueRegistry : Type 0 where
  pub defaults : EffectiveLimits
  pub declared : HashMap Text QueueConfig
  pub any_retry_policy : Bool
  pub min_max_lease_ms : ℕ
  pub generation : ℕ

pub record RetryPolicy : Type 0 where
  pub retry_delay_ms : ℕ
  pub retry_backoff : RetryBackoff
  pub retry_delay_max_ms : ℕ
  pub max_schedule_horizon_ms : ℕ

-- `.map(|q| (q.name.clone(), q.clone())).collect()`: a later queue replaces an earlier one.
unfoldable pub collect : HashMap Text QueueConfig → List QueueConfig → HashMap Text QueueConfig
collect m [] = m
collect m (q ∷ qs) = collect (HashMap.insert m q.name q) qs

abbrev positive : Option ℕ → Bool
positive none = false
positive (some v) = ltb 0 v

unfoldable pub any_delay : List QueueConfig → Bool
any_delay [] = false
any_delay (q ∷ qs) = positive q.retry_delay_ms || any_delay qs

-- The fold with `u64::min` over the overrides.
unfoldable pub min_lease : ℕ → List QueueConfig → ℕ
min_lease acc [] = acc
min_lease acc (q ∷ qs) =
    min_lease (elim q.max_lease_duration_ms [ none ↦ acc | some ms ↦ min acc ms ]) qs

unfoldable pub from_config : Config → QueueRegistry
from_config cfg =
    let defaults = from_globals cfg.limits cfg.storage in
    record {
      defaults = defaults;
      declared = collect [] cfg.queues;
      any_retry_policy = ltb 0 defaults.retry_delay_ms || any_delay cfg.queues;
      min_max_lease_ms = min_lease defaults.max_lease_duration_ms cfg.queues;
      generation = 0;
    }

-- What the shared registry holds after `publish`.
unfoldable pub publish : QueueRegistry → QueueRegistry → QueueRegistry
publish shared next = record next { generation = shared.generation + 1 }

unfoldable pub effective : QueueRegistry → Text → EffectiveLimits
effective self queue = elim (HashMap.get self.declared queue) [
  | some q ↦ merged_with self.defaults q
  | none ↦ self.defaults
]

unfoldable pub retry_policy : QueueRegistry → Text → RetryPolicy
retry_policy self queue =
    let q = HashMap.get self.declared queue in
    record {
      retry_delay_ms = unwrap_or (and_then q (λ c. c.retry_delay_ms)) self.defaults.retry_delay_ms;
      retry_backoff = unwrap_or (and_then q (λ c. c.retry_backoff)) self.defaults.retry_backoff;
      retry_delay_max_ms =
          unwrap_or (and_then q (λ c. c.retry_delay_max_ms)) self.defaults.retry_delay_max_ms;
      max_schedule_horizon_ms =
          unwrap_or (and_then q (λ c. c.max_schedule_horizon_ms))
            self.defaults.max_schedule_horizon_ms;
    }

unfoldable pub dedup_window_ms : QueueRegistry → Text → ℤ
dedup_window_ms self queue =
    unwrap_or (and_then (HashMap.get self.declared queue) (λ c. c.dedup_window_ms))
      self.defaults.dedup_window_ms

unfoldable pub is_declared : QueueRegistry → Text → Bool
is_declared self queue = is_some (HashMap.get self.declared queue)

unfoldable pub declared_count : QueueRegistry → ℕ
declared_count self = length self.declared
