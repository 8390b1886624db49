-- ===== src/Examples/Codec.antt =====
-- A codec for the messages, in the place of prost, and an in-memory keyspace, in the place of fjall.
use sepp.Prelude.{
  ℕ, zero, suc, ◌≡◌, refl, Bool, true, false, List, [], ◌∷◌, Option, none, some, and_then, length,
}
use sepp.Prelude.Int.{ℤ, pos, negsuc}
use sepp.Std.Bytes.{Bytes, Text}
use sepp.Std.BTreeMap
use sepp.Std.BTreeMap.{BTreeMap}
use sepp.Proto.{
  Prost, Job, Payload, TraceContext, DeadLetterRecord, DeadLetterCause, AuditRecord, Timestamp,
  PrimitiveKind, PrimitiveValue, string_value, double_value, int_value, bool_value,
}
use sepp.Fjall.{Fjall}

-- A parser reads a value off the front.
record Codec (A : Type 0) : Type 0 where
  put : A → Bytes → Bytes
  get : Bytes → Option (A × Bytes)
  get-put : (a : A) (rest : Bytes) → get (put a rest) ≡ some (a, rest)

nat : Codec ℕ
nat = record {
  put = λ n rest. n ∷ rest;
  get = elim [ [] ↦ none | n ∷ rest ↦ some (n, rest) ];
  get-put = λ n rest. refl;
}

module _ {A B : Type 0} (a : Codec A) (b : Codec B) where
  after : Option (A × Bytes) → Option ((A × B) × Bytes)
  after none = none
  after (some (x, rest)) = and_then (b.get rest) λ r. some ((x, r.0), r.1)

  pair : Codec (A × B)
  unfolding after
  pair = record {
    put = λ p rest. a.put p.0 (b.put p.1 rest);
    get = λ bs. after (a.get bs);
    get-put = λ p rest. rw (a.get-put p.0 (b.put p.1 rest), after, b.get-put p.1 rest) refl;
  }

module _ {A B : Type 0} (a : Codec A) (f : A → B) (g : B → A) (h : (y : B) → f (g y) ≡ y) where
  iso : Codec B
  iso = record {
    put = λ y. a.put (g y);
    get = λ bs. and_then (a.get bs) λ r. some (f r.0, r.1);
    get-put = λ y rest. rw (a.get-put (g y) rest, h y) refl;
  }

module _ {A : Type 0} (a : Codec A) where
  put_option : Option A → Bytes → Bytes
  put_option none rest = 0 ∷ rest
  put_option (some x) rest = 1 ∷ a.put x rest

  get_option : Bytes → Option (Option A × Bytes)
  get_option [] = none
  get_option (zero ∷ rest) = some (none, rest)
  get_option (suc _ ∷ rest) = and_then (a.get rest) λ r. some (some r.0, r.1)

  option : Codec (Option A)
  unfolding put_option get_option
  option = record {
    put = put_option;
    get = get_option;
    get-put = elim [ none ↦ λ rest. refl | some x ↦ λ rest. rw (a.get-put x rest) refl ];
  }

  put_items : List A → Bytes → Bytes
  put_items [] rest = rest
  put_items (x ∷ xs) rest = a.put x (put_items xs rest)

  get_items : ℕ → Bytes → Option (List A × Bytes)
  get_items zero bs = some ([], bs)
  get_items (suc n) bs =
      and_then (a.get bs) λ r. and_then (get_items n r.1) λ q. some (r.0 ∷ q.0, q.1)

  get-put_items :
      (xs : List A) (rest : Bytes) → get_items (length xs) (put_items xs rest) ≡ some (xs, rest)
  unfolding put_items get_items
  get-put_items [] rest = refl
  get-put_items (x ∷ xs) rest = rw (a.get-put x (put_items xs rest), get-put_items xs rest) refl

  counted : Bytes → Option (List A × Bytes)
  counted [] = none
  counted (n ∷ bs) = get_items n bs

  list : Codec (List A)
  unfolding counted
  list = record {
    put = λ xs rest. length xs ∷ put_items xs rest;
    get = counted;
    get-put = get-put_items;
  }

to_bool : ℕ → Bool
to_bool zero = false
to_bool (suc n) = true

of_bool : Bool → ℕ
of_bool false = 0
of_bool true = 1

bool : Codec Bool
unfolding to_bool of_bool
bool = iso nat to_bool of_bool (elim [ true ↦ refl | false ↦ refl ])

to_int : Bool × ℕ → ℤ
to_int (true, n) = pos n
to_int (false, n) = negsuc n

of_int : ℤ → Bool × ℕ
of_int (pos n) = (true, n)
of_int (negsuc n) = (false, n)

int : Codec ℤ
unfolding to_int of_int
int = iso (pair bool nat) to_int of_int (elim [ pos n ↦ refl | negsuc n ↦ refl ])

text : Codec Text
text = list nat

to_kind : ℕ × Text × ℤ → PrimitiveKind
to_kind (zero, t, n) = string_value t
to_kind (suc zero, t, n) = elim n [ pos k ↦ double_value k | negsuc k ↦ double_value k ]
to_kind (suc (suc zero), t, n) = int_value n
to_kind (suc (suc (suc zero)), t, n) = bool_value true
to_kind (suc (suc (suc (suc _))), t, n) = bool_value false

of_kind : PrimitiveKind → ℕ × Text × ℤ
of_kind (string_value t) = (0, t, pos 0)
of_kind (double_value n) = (1, [], pos n)
of_kind (int_value n) = (2, [], n)
of_kind (bool_value true) = (3, [], pos 0)
of_kind (bool_value false) = (4, [], pos 0)

to_kind-of_kind : (k : PrimitiveKind) → to_kind (of_kind k) ≡ k
unfolding to_kind of_kind
to_kind-of_kind (string_value t) = refl
to_kind-of_kind (double_value n) = refl
to_kind-of_kind (int_value n) = refl
to_kind-of_kind (bool_value true) = refl
to_kind-of_kind (bool_value false) = refl

module _ {A B C : Type 0} (a : Codec A) (b : Codec B) (c : Codec C) where
  triple : Codec (A × B × C)
  triple = iso (pair a (pair b c)) (λ p. (p.0, p.1.0, p.1.1)) (λ p. (p.0, (p.1, p.2))) λ p. refl

kind : Codec PrimitiveKind
kind = iso (triple nat text int) to_kind of_kind to_kind-of_kind

value : Codec PrimitiveValue
value = iso (option kind) (λ v. record { value = v }) (λ v. v.value) λ v. refl

timestamp : Codec Timestamp
timestamp =
    iso (pair int int) (λ p. record { seconds = p.0; nanos = p.1 }) (λ t. (t.seconds, t.nanos))
      λ t. refl

payload : Codec Payload
payload =
    iso (pair text text) (λ p. record { bytes = p.0; encoding = p.1 }) (λ t. (t.bytes, t.encoding))
      λ t. refl

trace : Codec TraceContext
trace =
    iso (pair text (option text)) (λ p. record { traceparent = p.0; tracestate = p.1 })
      (λ t. (t.traceparent, t.tracestate)) λ t. refl

custom : Codec (List (Text × PrimitiveValue))
custom = list (pair text value)

job : Codec Job
job =
    iso
      (pair (triple text text (option payload)) (
        pair (triple nat (option trace) (option timestamp))
          (pair (triple nat nat (option timestamp)) (triple custom (option timestamp) text))))
      (λ p. record {
        id = p.0.0;
        job_type = p.0.1;
        payload = p.0.2;
        priority = p.1.0.0;
        trace_context = p.1.0.1;
        enqueued_at = p.1.0.2;
        attempt = p.1.1.0.0;
        max_attempts = p.1.1.0.1;
        lease_expires_at = p.1.1.0.2;
        custom = p.1.1.1.0;
        scheduled_at = p.1.1.1.1;
        queue = p.1.1.1.2;
      })
      (λ j. (
        (j.id, j.job_type, j.payload),
        (
          (j.priority, j.trace_context, j.enqueued_at),
          ((j.attempt, j.max_attempts, j.lease_expires_at), (j.custom, j.scheduled_at, j.queue)),
        ),
      ))
      λ j. refl

to_cause : ℕ → DeadLetterCause
to_cause zero = DeadLetterCause.unspecified
to_cause (suc zero) = DeadLetterCause.attempts_exhausted
to_cause (suc (suc zero)) = DeadLetterCause.rejected
to_cause (suc (suc (suc zero))) = DeadLetterCause.lease_expired
to_cause (suc (suc (suc (suc _)))) = DeadLetterCause.admin

of_cause : DeadLetterCause → ℕ
of_cause DeadLetterCause.unspecified = 0
of_cause DeadLetterCause.attempts_exhausted = 1
of_cause DeadLetterCause.rejected = 2
of_cause DeadLetterCause.lease_expired = 3
of_cause DeadLetterCause.admin = 4

to_cause-of_cause : (c : DeadLetterCause) → to_cause (of_cause c) ≡ c
unfolding to_cause of_cause
to_cause-of_cause DeadLetterCause.unspecified = refl
to_cause-of_cause DeadLetterCause.attempts_exhausted = refl
to_cause-of_cause DeadLetterCause.rejected = refl
to_cause-of_cause DeadLetterCause.lease_expired = refl
to_cause-of_cause DeadLetterCause.admin = refl

cause : Codec DeadLetterCause
cause = iso nat to_cause of_cause to_cause-of_cause

dead_letter : Codec DeadLetterRecord
dead_letter =
    iso (pair (pair (option job) cause) (triple (option timestamp) nat (option text)))
      (λ p. record {
        job = p.0.0;
        cause = p.0.1;
        failed_at = p.1.0;
        final_attempt = p.1.1;
        last_reason = p.1.2;
      })
      (λ r. ((r.job, r.cause), (r.failed_at, r.final_attempt, r.last_reason))) λ r. refl

audit : Codec AuditRecord
audit =
    iso (pair (pair text text) (pair text text))
      (λ p. record { actor = p.0.0; role = p.0.1; action = p.1.0; details_json = p.1.1 })
      (λ r. ((r.actor, r.role), (r.action, r.details_json))) λ r. refl

module _ {A : Type 0} (c : Codec A) where
  encode : A → Bytes
  encode a = c.put a []

  first : Option (A × Bytes) → Option A
  first none = none
  first (some (a, rest)) = some a

  decode : Bytes → Option A
  unfolding first
  decode bs = first (c.get bs)

  decode-encode : (a : A) → decode (encode a) ≡ some a
  unfolding decode encode first
  decode-encode a = rw (c.get-put a []) refl

instance pub codec : Prost
codec = record {
  encode_job = encode job;
  decode_job = decode job;
  decode_job-encode_job = decode-encode job;
  encode_payload = encode payload;
  decode_payload = decode payload;
  decode_payload-encode_payload = decode-encode payload;
  encode_trace_context = encode trace;
  decode_trace_context = decode trace;
  decode_trace_context-encode_trace_context = decode-encode trace;
  encode_dead_letter = encode dead_letter;
  decode_dead_letter = decode dead_letter;
  decode_dead_letter-encode_dead_letter = decode-encode dead_letter;
  encode_audit = encode audit;
  decode_audit = decode audit;
  decode_audit-encode_audit = decode-encode audit;
  normalized = λ t. t;
  normalized_lem = λ s n h. refl;
  normalized_duration = λ d. d;
  normalized_duration_lem = λ s n h. refl;
}

-- A keyspace in memory, whose reads do not fail.
instance abbrev pub memory : Fjall
memory = record {
  Keyspace = BTreeMap Bytes;
  get = BTreeMap.get;
  read_error = λ m k. none;
  insert = BTreeMap.insert;
  remove = BTreeMap.remove;
  get-insert = λ m k v j. BTreeMap.get-insert m k j v;
  get-remove = λ m k j. BTreeMap.get-remove m k j;
}
