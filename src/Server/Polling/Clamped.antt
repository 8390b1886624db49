-- ===== src/Server/Polling/Clamped.antt =====
-- The clamps of the reserve handler of src/queue_server.rs.
use sepp.Prelude.{ℕ, ◌≤◌, List, [], ◌∷◌, All, arith}
use sepp.Prelude.Check.{Passes}
use sepp.Std.Bytes.{Text}
use sepp.Proto.{Prost, ReserveRequest}
use sepp.Config.{Config}
use sepp.Config.Validation.{validate_config}
use sepp.Config.Accepts.{validate_config-InRange, validate_config-reserve_batch}
use sepp.Queues.{QueueRegistry, effective, from_config}
use sepp.Server.Polling.{max_lease, lease_of, max_jobs_of, wait_of}

abbrev AtMostEach : QueueRegistry → ℕ → List Text → Type 0
AtMostEach registry n = All (λ q. n ≤ (effective registry q).max_lease_duration_ms)

weakened :
    (registry : QueueRegistry) (a b : ℕ) (qs : List Text)
    → a ≤ b
    → AtMostEach registry b qs
    → AtMostEach registry a qs
weakened registry a b [] h t = tt
weakened registry a b (q ∷ qs) h t = (omega (arith, t.0), weakened registry a b qs h t.1)

max_lease-AtMostEach :
    (registry : QueueRegistry) (qs : List Text) → AtMostEach registry (max_lease registry qs) qs
unfolding max_lease
max_lease-AtMostEach registry [] = tt
max_lease-AtMostEach registry (q ∷ qs) = (
  omega arith,
  weakened registry _ (max_lease registry qs) qs (omega arith) (max_lease-AtMostEach registry qs),
)

max_lease-positive :
    (cfg : Config) (qs : List Text)
    → Passes (validate_config cfg)
    → 1 ≤ max_lease (from_config cfg) qs
unfolding max_lease
max_lease-positive cfg [] h = omega arith
max_lease-positive cfg (q ∷ qs) h =
    omega (arith, (validate_config-InRange cfg q h).lease, max_lease-positive cfg qs h)

pub record IsClamped ⦃prost : Prost⦄ (cfg : Config) (req : ReserveRequest) : Type 0 where
  pub lease : 1 ≤ lease_of (from_config cfg) req
  pub lease_le : AtMostEach (from_config cfg) (lease_of (from_config cfg) req) req.queues
  pub jobs : 1 ≤ max_jobs_of cfg req
  pub jobs_le : max_jobs_of cfg req ≤ cfg.limits.max_reserve_batch
  pub wait : wait_of cfg req ≤ cfg.limits.max_wait_timeout_ms

-- Under a configuration that passes its checks, a reservation gets a lease of at least a millisecond
-- that is not above the longest lease of any queue that it names, at least one job and at most the
-- batch limit, and a wait within its limit.
pub lease_of-IsClamped :
    (prost : Prost) (cfg : Config) (req : ReserveRequest)
    → Passes (validate_config cfg)
    → IsClamped ⦃prost = prost⦄ cfg req
unfolding lease_of max_jobs_of wait_of
lease_of-IsClamped prost cfg req h =
    let positive = max_lease-positive cfg req.queues h in
    record {
      lease = omega arith;
      lease_le =
          weakened (from_config cfg) _ (max_lease (from_config cfg) req.queues) req.queues
            (omega (arith, positive)) (max_lease-AtMostEach (from_config cfg) req.queues);
      jobs = omega (arith, validate_config-reserve_batch cfg h);
      jobs_le = omega arith;
      wait = omega arith;
    }
