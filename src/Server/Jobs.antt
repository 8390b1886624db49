-- ===== src/Server/Jobs.antt =====
-- The handlers of src/queue_server.rs for jobs that are out with a worker, and the drain of dead
-- letters. Spans, log lines and metrics are left out.
pub mod Settled
use sepp.Prelude.{ℕ, Bool, Option, none, some, min, max, unwrap_or, is_some, String, List, [], ◌∷◌}
use sepp.Prelude.Int.{ℤ}
use sepp.Prelude.Result.{Exec, pure, ◌>>=◌}
use sepp.Prelude.Check.{Check, pass, fail}
use sepp.Std.Bytes.{Text}
use sepp.Proto.{
  Prost, AckRequest, NackRequest, ExtendRequest, DrainDeadLettersRequest, DeadLetterRecord,
  Complaint, Timestamp, millis_to_timestamp,
}
use sepp.Fjall.{Fjall}
use sepp.Config.{Config}
use sepp.Queues.{QueueRegistry, effective}
use sepp.Retry.{JitterHash}
use sepp.Validate.{ack_request, nack_request, extend_request, drain_dead_letters_request}
use sepp.Storage.{State, Tx}
use sepp.Handle.{ack, nack, extend, drain_dead_letters}
use sepp.Server.{ServerLimits, server_limits}
use sepp.Server.Handlers.{Call, Answer, done, turned_away, malformed}

pub record NackResponse : Type 0 where
  pub job_id : Text
  pub dead_lettered : Bool

pub record ExtendResponse : Type 0 where
  pub job_id : Text
  pub lease_expires_at : Option Timestamp

-- `clamp(1, max_reserve_batch)`, where the batch limit is at least 1.
unfoldable pub drain_max : Config → DrainDeadLettersRequest → ℕ
drain_max config req = min (max (unwrap_or req.max 1) 1) config.limits.max_reserve_batch

-- The check of a request, then the call of the storage handle, then the response.
abbrev pub handled : {S A B : Type 0} → Check Complaint → Exec S A → (A → B) → Exec S (Answer B)
handled pass call respond = call >>= λ outcome. pure (done (respond outcome))
handled (fail complaint) call respond = pure (turned_away (malformed complaint))

module _ ⦃db : Fjall⦄ ⦃prost : Prost⦄ where
  -- The response of an ack is the id of the job.
  unfoldable pub ack_handler : Call → AckRequest → Exec State (Answer Text)
  ack_handler c req =
      handled (ack_request req) (ack req.job_id req.attempt c.drain_clock) λ outcome. req.job_id

  -- The registry and the snapshot are those of the lookup of the retry policy.
  unfoldable pub nack_handler :
      ⦃j : JitterHash⦄ → Call → QueueRegistry → Tx → NackRequest → Exec State (Answer NackResponse)
  nack_handler c after snap req =
      handled (nack_request req) (nack c.handle after snap req c.drain_clock)
        λ outcome. record { job_id = req.job_id; dead_lettered = outcome.dead_lettered }

  unfoldable pub extend_handler : Call → Tx → ExtendRequest → Exec State (Answer ExtendResponse)
  extend_handler c snap req =
      handled (extend_request req) (extend c.handle snap req c.drain_clock) λ outcome. record {
        job_id = req.job_id;
        lease_expires_at = some (millis_to_timestamp outcome.lease_expires_at);
      }

  unfoldable pub drain_handler :
      Call → DrainDeadLettersRequest → Exec State (Answer (List DeadLetterRecord))
  drain_handler c req =
      handled (drain_dead_letters_request req)
        (drain_dead_letters c.handle req.queue (drain_max c.config req) c.drain_clock)
        λ records. records
