-- ===== src/Examples/Keys.antt =====
-- The theorems on keys, times and indexes, at small concrete inputs.
use sepp.Prelude.{◌≡◌, refl, [], ◌∷◌, sym, none, some, Ordering, arith, inl, inr, Bool-cases}
use sepp.Prelude.Int.{pos, negsuc}
use sepp.Prelude.Result.{ok}
use sepp.Std.Bytes.{Bytes, Text, cmp, ◌=ᵇ◌, =ᵇ_iff}
use sepp.Std.BTreeMap
use sepp.Std.HashMap
use sepp.Std.BTreeMap.Depth.{depth}
use sepp.Std.Utf8.{IsUtf8, is_utf8}
use sepp.Proto.{Job, millis_to_timestamp, timestamp_to_millis}
use sepp.Proto.Time.{timestamp_to_millis-millis_to_timestamp}
use sepp.Keys.{
  ReadyKey, encode_ready, decode_ready, DedupValue, encode_dedup_value, decode_dedup_value,
  DeadLetterKey, encode_dead_letter_key, dead_letter_queue, dead_letter_job_id, Inflight,
  encode_inflight, decode_inflight, encode_job_value, decode_job_value, encode_timer,
}
use sepp.Keys.RoundTrip.{
  IsName, IsRecord, decode_ready-encode_ready, decode_dedup_value-encode, dead_letter-encode,
  decode_inflight-encode_inflight, decode_job_value-encode,
}
use sepp.Keys.Order.{encode_ready-priority, encode_ready-fifo, encode_timer-deadline}
use sepp.Index.{ReadyIndex, TimerIndex, ready_insert, timer_insert, pop_front, pop_due}
use sepp.Index.Ready.{IsReady, ready_insert-IsReady}
use sepp.Index.Timer.{IsTimer, timer_insert-IsTimer, pop_due-IsTimer}
use sepp.Index.Serve.{Serves, pop_front-Serves, IsTimed, PopsDue, pop_due-PopsDue}
use sepp.Examples.Codec.{codec}

abbrev queue_q : Text
queue_q = 113 ∷ []

abbrev id_j : Text
id_j = 106 ∷ []

IsName-q : IsName queue_q
unfolding is_utf8
IsName-q = record { short = omega arith; utf8 = refl }

IsUtf8-j : IsUtf8 id_j
unfolding is_utf8
IsUtf8-j = refl

-- A priority above 9 counts as 9.
abbrev ready_k : ReadyKey
ready_k = record { queue = queue_q; priority = 12; enqueued_at = pos 7; job_id = id_j }

decode_ready-encode_ready_example :
    decode_ready (encode_ready ready_k) ≡ some (record ready_k { priority = 9 })
decode_ready-encode_ready_example =
    decode_ready-encode_ready ready_k IsName-q (omega arith) IsUtf8-j

abbrev dedup_v : DedupValue
dedup_v = record { enqueued_at = pos 7; deadline = negsuc 3; job_id = id_j }

decode_dedup_value-encode_example : decode_dedup_value (encode_dedup_value dedup_v) ≡ some dedup_v
decode_dedup_value-encode_example =
    decode_dedup_value-encode dedup_v (omega arith) (omega arith) IsUtf8-j

abbrev dead_k : DeadLetterKey
dead_k = record { failed_at = pos 300; queue = queue_q; job_id = id_j }

dead_letter-encode_example :
    (dead_letter_queue (encode_dead_letter_key dead_k) ≡ some queue_q)
    × (dead_letter_job_id (encode_dead_letter_key dead_k) ≡ some id_j)
dead_letter-encode_example = dead_letter-encode dead_k (omega arith) IsName-q IsUtf8-j

abbrev record_j : Inflight
record_j = record {
  attempt = 1;
  lease_expires_at = pos 100;
  enqueued_at = pos 7;
  priority = 5;
  max_attempts = 3;
  queue = queue_q;
  trace_context = none;
}

record_j-IsRecord : IsRecord codec record_j
record_j-IsRecord = record {
  attempt = omega arith;
  lease = omega arith;
  enqueued = omega arith;
  priority = omega arith;
  max_attempts = omega arith;
  name = IsName-q;
  trace = λ t e. cc;
}

decode_inflight-encode_inflight_example :
    decode_inflight ⦃prost = codec⦄ (encode_inflight ⦃prost = codec⦄ record_j) ≡ ok record_j
decode_inflight-encode_inflight_example =
    decode_inflight-encode_inflight codec record_j record_j-IsRecord

abbrev job_j : Job
job_j = record {
  id = id_j;
  job_type = [];
  payload = none;
  priority = 5;
  trace_context = none;
  enqueued_at = none;
  attempt = 1;
  max_attempts = 3;
  lease_expires_at = none;
  custom = [];
  scheduled_at = none;
  queue = [];
}

decode_job_value-encode_example :
    decode_job_value ⦃prost = codec⦄ (encode_job_value ⦃prost = codec⦄ queue_q job_j)
    ≡ ok (queue_q, job_j)
decode_job_value-encode_example = decode_job_value-encode codec queue_q job_j IsName-q

timestamp_to_millis-millis_to_timestamp_example :
    timestamp_to_millis ⦃prost = codec⦄ (millis_to_timestamp ⦃prost = codec⦄ (negsuc 1500))
    ≡ negsuc 1500
timestamp_to_millis-millis_to_timestamp_example =
    timestamp_to_millis-millis_to_timestamp codec (negsuc 1500) (omega arith) (omega arith)

encode_ready-priority_example :
    cmp (encode_ready ready_k) (encode_ready (record ready_k { priority = 8; enqueued_at = pos 1 }))
    ≡ Ordering.lt
encode_ready-priority_example =
    encode_ready-priority ready_k (record ready_k { priority = 8; enqueued_at = pos 1 }) refl
      (omega arith)

encode_ready-fifo_example :
    cmp (encode_ready ready_k) (encode_ready (record ready_k { enqueued_at = pos 500 }))
    ≡ Ordering.lt
encode_ready-fifo_example =
    encode_ready-fifo ready_k (record ready_k { enqueued_at = pos 500 }) 7 500 refl refl refl refl
      (omega arith) (omega arith)

encode_timer-deadline_example :
    cmp
      (encode_timer (record { deadline = pos 255; job_id = id_j }))
      (encode_timer (record { deadline = pos 256; job_id = [] }))
    ≡ Ordering.lt
encode_timer-deadline_example = encode_timer-deadline 255 256 id_j [] (omega arith) (omega arith)

abbrev no_ready : ReadyIndex
no_ready = record { keys = []; by_queue = [] }

no_ready-IsReady : IsReady no_ready
unfolding HashMap.get depth
no_ready-IsReady = record { sorted = tt; counts = λ q. refl }

abbrev one_ready : ReadyIndex
one_ready = ready_insert no_ready (encode_ready ready_k) 1

ready_insert-IsReady_example : IsReady one_ready
ready_insert-IsReady_example =
    ready_insert-IsReady no_ready (encode_ready ready_k) 1 no_ready-IsReady

one_ready-IsReady : IsReady one_ready
one_ready-IsReady = ready_insert-IsReady no_ready (encode_ready ready_k) 1 no_ready-IsReady

pop_front-Serves_example : Serves one_ready [] (pop_front one_ready [])
pop_front-Serves_example = pop_front-Serves one_ready [] one_ready-IsReady

abbrev no_timers : TimerIndex
no_timers = record { keys = []; by_queue = [] }

no_timers-IsTimer : IsTimer no_timers
unfolding HashMap.get depth
no_timers-IsTimer = record { sorted = tt; counts = λ q. refl }

abbrev timer_k : Bytes
timer_k = encode_timer (record { deadline = pos 100; job_id = id_j })

abbrev one_timer : TimerIndex
one_timer = timer_insert no_timers timer_k queue_q

no_timers-get : BTreeMap.get no_timers.keys timer_k ≡ none
unfolding BTreeMap.get
no_timers-get = refl

timer_insert-IsTimer_example : IsTimer one_timer
timer_insert-IsTimer_example =
    timer_insert-IsTimer no_timers timer_k queue_q (inl no_timers-get) no_timers-IsTimer

one_timer-IsTimer : IsTimer one_timer
one_timer-IsTimer =
    timer_insert-IsTimer no_timers timer_k queue_q (inl no_timers-get) no_timers-IsTimer

pop_due-IsTimer_example : IsTimer (pop_due one_timer (pos 100)).1
pop_due-IsTimer_example = pop_due-IsTimer one_timer (pos 100) one_timer-IsTimer

one_timer-IsTimed : IsTimed one_timer
unfolding timer_insert BTreeMap.get BTreeMap.insert encode_timer
one_timer-IsTimed k q e = elim (Bool-cases (timer_k =ᵇ k)) [
  | inl same ↦ (100, id_j, omega arith, sym ((=ᵇ_iff timer_k k).0 same))
  | inr other ↦ absurd (cc (rw other at e))
]

pop_due-PopsDue_example : PopsDue one_timer (pos 100) (pop_due one_timer (pos 100))
pop_due-PopsDue_example = pop_due-PopsDue one_timer (pos 100) one_timer-IsTimer one_timer-IsTimed
