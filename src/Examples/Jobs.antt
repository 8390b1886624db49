-- ===== src/Examples/Jobs.antt =====
-- The theorems on jobs whose lease is over, at concrete inputs.
use sepp.Prelude.{◌≡◌, refl, true, false, [], ◌∷◌, none, some}
use sepp.Prelude.Result.{ok}
use sepp.Std.Bytes.{Text}
use sepp.Proto.{AckRequest, NackRequest, RetryStrategy}
use sepp.Queues.{from_config}
use sepp.Keys.{encode_inflight}
use sepp.Storage.{State}
use sepp.Server.Handlers.{Call, done}
use sepp.Server.Jobs.{NackResponse, ack_handler, nack_handler}
use sepp.Server.Jobs.Settled.{IsSettled, ack_handler-IsSettled, nack_handler-IsSettled}
use sepp.Examples.Codec.{memory, codec}
use sepp.Examples.Limits.{config_c, jitter}
use sepp.Examples.Runs.{held, lease_j}
use sepp.Examples.Server.{call_c, handle_c}

-- 00000000-0000-0000-0000-000000000000.
abbrev uuid_u : Text
uuid_u =
    48 ∷ 48 ∷ 48 ∷ 48 ∷ 48 ∷ 48 ∷ 48 ∷ 48 ∷ 45 ∷ 48 ∷ 48 ∷ 48 ∷ 48 ∷ 45 ∷ 48 ∷ 48 ∷ 48 ∷ 48 ∷ 45
    ∷ 48 ∷ 48 ∷ 48 ∷ 48 ∷ 45 ∷ 48 ∷ 48 ∷ 48 ∷ 48 ∷ 48 ∷ 48 ∷ 48 ∷ 48 ∷ 48 ∷ 48 ∷ 48 ∷ 48 ∷ []

abbrev held_u : State
held_u = record held { tx = record held.tx { inflight = (uuid_u, encode_inflight lease_j) ∷ [] } }

abbrev ack_u : AckRequest
ack_u = record { job_id = uuid_u; attempt = 1; worker_id = none }

ack_ok : (ack_handler call_c ack_u held_u).0 ≡ ok (done uuid_u)
unfolding sepp.Prelude.Result.◌>>=◌ sepp.Storage.tx_get sepp.Std.BTreeMap.get sepp.Std.Bytes.◌=ᵇ◌
    sepp.Std.Bytes.cmp sepp.Storage.Lease.leased sepp.Keys.decode_inflight sepp.Keys.Reader.◌>>=◌
    sepp.Keys.Reader.u32 sepp.Keys.Reader.take sepp.Keys.encode_inflight sepp.Keys.Writer.u32
    sepp.Std.BigEndian.to_be sepp.Keys.Writer.i64 sepp.Keys.Writer.prefixed sepp.Keys.Reader.i64
    sepp.Keys.Reader.prefixed_str sepp.Keys.Reader.prefixed sepp.Keys.Reader.message
    sepp.Std.BigEndian.from_be sepp.Std.BigEndian.i64_bits sepp.Std.BigEndian.i64_of_bits
    sepp.Std.Utf8.from_utf8 sepp.Std.Utf8.is_utf8 sepp.Storage.tx_insert sepp.Storage.tx_remove
    sepp.Storage.index_ready sepp.Storage.index_timer sepp.Storage.unindex_timer sepp.Storage.note
    sepp.Handle.send_op sepp.Storage.Apply.apply_command sepp.Storage.Apply.apply_op sepp.Op.stamp
    sepp.Validate.uuid sepp.Validate.is_uuid sepp.Validate.uuid_from sepp.Validate.gte
    sepp.Std.BTreeMap.remove ack_handler sepp.Validate.ack_request sepp.Handle.ack
    sepp.Storage.Lease.apply_ack sepp.Storage.Lease.ack_leased
ack_ok = refl

ack_handler-IsSettled_example : IsSettled uuid_u (ack_handler call_c ack_u held_u).1
ack_handler-IsSettled_example = ack_handler-IsSettled call_c ack_u held_u uuid_u ack_ok refl

-- Dead letters are not kept.
abbrev call_u : Call
call_u = record call_c { handle = record handle_c { dead_letter_enabled = false } }

abbrev nack_u : NackRequest
nack_u = record {
  job_id = uuid_u;
  attempt = 1;
  reason = none;
  retry = some (record { strategy = some RetryStrategy.dead_letter });
  worker_id = none;
}

abbrev response_u : NackResponse
response_u = record { job_id = uuid_u; dead_lettered = true }

nack_ok :
    (nack_handler call_u (from_config config_c) held_u.tx nack_u held_u).0 ≡ ok (done response_u)
unfolding sepp.Prelude.Result.◌>>=◌ sepp.Storage.tx_get sepp.Std.BTreeMap.get sepp.Std.Bytes.◌=ᵇ◌
    sepp.Std.Bytes.cmp sepp.Storage.Lease.leased sepp.Keys.decode_inflight sepp.Keys.Reader.◌>>=◌
    sepp.Keys.Reader.u32 sepp.Keys.Reader.take sepp.Keys.encode_inflight sepp.Keys.Writer.u32
    sepp.Std.BigEndian.to_be sepp.Keys.Writer.i64 sepp.Keys.Writer.prefixed sepp.Keys.Reader.i64
    sepp.Keys.Reader.prefixed_str sepp.Keys.Reader.prefixed sepp.Keys.Reader.message
    sepp.Std.BigEndian.from_be sepp.Std.BigEndian.i64_bits sepp.Std.BigEndian.i64_of_bits
    sepp.Std.Utf8.from_utf8 sepp.Std.Utf8.is_utf8 sepp.Storage.tx_insert sepp.Storage.tx_remove
    sepp.Storage.index_ready sepp.Storage.index_timer sepp.Storage.unindex_timer sepp.Storage.note
    sepp.Handle.send_op sepp.Storage.Apply.apply_command sepp.Storage.Apply.apply_op sepp.Op.stamp
    sepp.Validate.uuid sepp.Validate.is_uuid sepp.Validate.uuid_from sepp.Validate.gte
    sepp.Std.BTreeMap.remove nack_handler sepp.Validate.nack_request sepp.Handle.nack
    sepp.Handle.nack_delay sepp.Storage.Lease.apply_nack sepp.Storage.Lease.nack_dead
    sepp.Storage.Lease.force_dead_letter sepp.Storage.DeadLetter.maybe_store_dead_letter
nack_ok = refl

nack_handler-IsSettled_example :
    IsSettled uuid_u (nack_handler call_u (from_config config_c) held_u.tx nack_u held_u).1
nack_handler-IsSettled_example =
    nack_handler-IsSettled call_u (from_config config_c) held_u.tx nack_u held_u response_u nack_ok
      refl
