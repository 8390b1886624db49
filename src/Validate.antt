-- ===== src/Validate.antt =====
-- src/validate.rs: the shape of a request, checked before the server reads it.
pub mod Accepts
use sepp.Prelude.{
  ℕ, ◌+◌, ◌*◌, Bool, true, false, not, ◌&&◌, ◌||◌, List, [], ◌∷◌, Option, none, some, leb, ltb,
  ◌==◌, length, if◌then◌else◌, String, is_some,
}
use sepp.Prelude.Int.{ℤ, pos, negsuc, ◌+ℤ◌, ltb_ℤ, leb_ℤ}
use sepp.Prelude.Check.{Check, pass, fail, ◌then◌, fail_if, if_some, each}
use sepp.Std.Bytes.{Bytes, Text, ◌=ᵇ◌}
use sepp.Proto.{
  Complaint, must_not_be_empty, must_contain_an_item, is_required, must_be_le, must_be_ge,
  must_not_be_negative, must_be_positive, must_set_a_value, must_be_a_uuid, bad_queue_name,
  EnqueueRequest, ReserveRequest, AckRequest, NackRequest, ExtendRequest, DrainDeadLettersRequest,
  Payload, PrimitiveValue, TraceContext, Duration, RetryStrategy, NackRetry,
}

-- `name.contains('/')`, and `name.chars().any(char::is_control)`: U+0000 to U+001F and U+007F, and
-- U+0080 to U+009F, which UTF-8 writes with the lead byte 0xc2.
unfoldable pub contains : Text → ℕ → Bool
contains [] c = false
contains (b ∷ bs) c = (b == c) || contains bs c

abbrev continues_c1 : Text → Bool
continues_c1 [] = false
continues_c1 (b ∷ bs) = leb 0x80 b && leb b 0x9f

unfoldable pub has_control : Text → Bool
has_control [] = false
has_control (b ∷ bs) = ltb b 0x20 || (b == 0x7f) || (b == 0xc2 && continues_c1 bs) || has_control bs

abbrev is_empty : {A : Type 0} → List A → Bool
is_empty [] = true
is_empty (x ∷ xs) = false

unfoldable pub queue_name_error : Text → Option String
queue_name_error name =
    if is_empty name
    then some "must not be empty"
    else if name =ᵇ 46 ∷ [] || name =ᵇ 46 ∷ 46 ∷ []
    then some "must not be \".\" or \"..\""
    else if contains name 47
    then some "must not contain '/'"
    else if has_control name
    then some "must not contain control characters"
    else none

abbrev complain : String → Option String → Check Complaint
complain field none = pass
complain field (some why) = fail (bad_queue_name field why)

unfoldable pub queue_name : String → Text → Check Complaint
queue_name field name = complain field (queue_name_error name)

unfoldable pub min_len : String → Text → Check Complaint
min_len field s = fail_if (is_empty s) (must_not_be_empty field)

unfoldable pub lte : String → ℕ → ℕ → Check Complaint
lte field value max = fail_if (ltb max value) (must_be_le field max)

unfoldable pub gte : String → ℕ → ℕ → Check Complaint
gte field value min = fail_if (ltb value min) (must_be_ge field min)

-- `d.seconds as i128 * 1_000_000_000 + d.nanos as i128`.
abbrev times_billion : ℤ → ℤ
times_billion (pos n) = pos (n * 1000000000)
times_billion (negsuc n) = negsuc (n * 1000000000 + 999999999)

unfoldable pub total_nanos : Duration → ℤ
total_nanos d = times_billion d.seconds +ℤ d.nanos

unfoldable pub non_negative : String → Duration → Check Complaint
non_negative field d = fail_if (ltb_ℤ (total_nanos d) (pos 0)) (must_not_be_negative field)

unfoldable pub positive : String → Duration → Check Complaint
positive field d = fail_if (leb_ℤ (total_nanos d) (pos 0)) (must_be_positive field)

abbrev is_ascii_hexdigit : ℕ → Bool
is_ascii_hexdigit c = (leb 48 c && leb c 57) || (leb 65 c && leb c 70) || (leb 97 c && leb c 102)

-- The test of `is_uuid` on the bytes from position i on.
unfoldable pub uuid_from : ℕ → Bytes → Bool
uuid_from i [] = true
uuid_from i (c ∷ cs) =
    (if i == 8 || i == 13 || i == 18 || i == 23 then c == 45 else is_ascii_hexdigit c)
    && uuid_from (i + 1) cs

unfoldable pub is_uuid : Text → Bool
is_uuid s = length s == 36 && uuid_from 0 s

unfoldable pub uuid : String → Text → Check Complaint
uuid field s = fail_if (not (is_uuid s)) (must_be_a_uuid field)

unfoldable pub payload : Payload → Check Complaint
payload p =
    fail_if (is_empty p.bytes) (must_not_be_empty "payload.data")
    then min_len "payload.encoding" p.encoding

unfoldable pub trace_context : TraceContext → Check Complaint
trace_context tc = min_len "trace_context.traceparent" tc.traceparent

unfoldable pub primitive_value : Text → PrimitiveValue → Check Complaint
primitive_value key v = fail_if (not (is_some v.value)) (must_set_a_value key)

unfoldable pub required_positive : String → Option Duration → Check Complaint
required_positive field none = fail (is_required field)
required_positive field (some d) = positive field d

unfoldable pub enqueue_request : EnqueueRequest → Check Complaint
enqueue_request req =
    queue_name "queue" req.queue
    then min_len "job_type" req.job_type
    then if_some req.payload payload
    then if_some req.idempotency_key (min_len "idempotency_key")
    then if_some req.priority (λ p. lte "priority" p 9)
    then if_some req.max_attempts (λ m. gte "max_attempts" m 1)
    then if_some req.trace_context trace_context
    then each req.custom (λ kv. min_len "custom key" kv.0 then primitive_value kv.0 kv.1)

unfoldable pub reserve_request : ReserveRequest → Check Complaint
reserve_request req =
    fail_if (is_empty req.queues) (must_contain_an_item "queues")
    then each req.queues (queue_name "queues item")
    then if_some req.wait_timeout (non_negative "wait_timeout")
    then required_positive "lease_duration" req.lease_duration
    then if_some req.worker_id (min_len "worker_id")
    then if_some req.max_jobs (λ m. gte "max_jobs" m 1)

unfoldable pub ack_request : AckRequest → Check Complaint
ack_request req =
    uuid "job_id" req.job_id
    then gte "attempt" req.attempt 1
    then if_some req.worker_id (min_len "worker_id")

abbrev retry_strategy : NackRetry → Check Complaint
retry_strategy retry = elim retry.strategy [
  | none ↦ fail (is_required "retry strategy")
  | some (RetryStrategy.delay d) ↦ non_negative "retry delay" d
  | some _ ↦ pass
]

unfoldable pub nack_request : NackRequest → Check Complaint
nack_request req =
    uuid "job_id" req.job_id
    then gte "attempt" req.attempt 1
    then if_some req.retry retry_strategy
    then if_some req.worker_id (min_len "worker_id")

unfoldable pub extend_request : ExtendRequest → Check Complaint
extend_request req =
    uuid "job_id" req.job_id
    then gte "attempt" req.attempt 1
    then required_positive "lease_duration" req.lease_duration
    then if_some req.worker_id (min_len "worker_id")

unfoldable pub drain_dead_letters_request : DrainDeadLettersRequest → Check Complaint
drain_dead_letters_request req =
    if_some req.queue (min_len "queue") then if_some req.max (λ m. gte "max" m 1)
