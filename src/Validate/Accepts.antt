-- ===== src/Validate/Accepts.antt =====
-- What the checks of src/validate.rs let through.
use sepp.Prelude.{
  ℕ, ◌≤◌, ◌≡◌, ◌≢◌, refl, Bool, true, false, ◌||◌, [], ◌∷◌, Option, none, some, arith, or-false,
  All, String, if◌then◌else◌, ltb, ◌==◌, is_some, not, not-false, ◌&&◌,
}
use sepp.Prelude.Check.{
  Passes, IfSome, fail_if-Passes, then-Passes, if_some-Passes, each-Passes, fail_if, ◌then◌,
  if_some,
}
use sepp.Std.Bytes.{Text, ◌=ᵇ◌, =ᵇ_iff}
use sepp.Proto.{must_be_le, must_be_ge, EnqueueRequest, Payload, PrimitiveValue}
use sepp.Validate.{
  queue_name_error, contains, has_control, is_empty, continues_c1, queue_name, min_len, lte, gte,
  payload, trace_context, primitive_value, enqueue_request, complain,
}

-- A byte of a queue name: no slash and no ASCII control character.
abbrev pub IsNameByte : ℕ → Type 0
IsNameByte b = (b ≢ 47) × (32 ≤ b) × (b ≢ 127)

pub record IsQueueName (name : Text) : Type 0 where
  pub nonempty : name ≢ []
  pub not_dot : name ≢ 46 ∷ []
  pub not_dots : name ≢ 46 ∷ 46 ∷ []
  pub bytes : All IsNameByte name

name_bytes :
    (name : Text) → contains name 47 ≡ false → has_control name ≡ false → All IsNameByte name
unfolding contains has_control
name_bytes [] h k = tt
name_bytes (b ∷ bs) h k =
    let slash = or-false (b == 47) (contains bs 47) h in
    let c0 =
      or-false (ltb b 0x20 || b == 0x7f || (b == 0xc2 && continues_c1 bs)) (has_control bs) k in
    (ground arith, name_bytes bs slash.1 c0.1)

otherwise :
    (b : Bool) (why : String) (o : Option String)
    → (if b then some why else o) ≡ none
    → (b ≡ false) × (o ≡ none)
otherwise true why o h = cc
otherwise false why o h = (refl, h)

ne_of : (a b : Text) → (a =ᵇ b) ≡ false → a ≢ b
ne_of a b h = ground (arith, =ᵇ_iff a b)

nonempty_of : (a : Text) → is_empty a ≡ false → a ≢ []
nonempty_of [] h = cc
nonempty_of (b ∷ a) h = cc

pub queue_name_error-IsQueueName : (name : Text) → queue_name_error name ≡ none → IsQueueName name
unfolding queue_name_error
queue_name_error-IsQueueName name h =
    let empty = otherwise (is_empty name) _ _ h in
    let dots = otherwise (name =ᵇ 46 ∷ [] || name =ᵇ 46 ∷ 46 ∷ []) _ _ empty.1 in
    let slash = otherwise (contains name 47) _ _ dots.1 in
    let control = otherwise (has_control name) _ _ slash.1 in
    let dot = or-false _ _ dots.0 in
    record {
      nonempty = nonempty_of name empty.0;
      not_dot = ne_of name (46 ∷ []) dot.0;
      not_dots = ne_of name (46 ∷ 46 ∷ []) dot.1;
      bytes = name_bytes name slash.0 control.0;
    }

complained : (field : String) (o : Option String) → Passes (complain field o) → o ≡ none
complained field none h = refl
complained field (some why) h = cc

queue_name-IsQueueName :
    (field : String) (name : Text) → Passes (queue_name field name) → IsQueueName name
unfolding queue_name
queue_name-IsQueueName field name h =
    queue_name_error-IsQueueName name (complained field (queue_name_error name) h)

min_len-nonempty : (field : String) (s : Text) → Passes (min_len field s) → s ≢ []
unfolding min_len
min_len-nonempty field s h = nonempty_of s (fail_if-Passes (is_empty s) _ h)

lte-le : (field : String) (n max : ℕ) → Passes (lte field n max) → n ≤ max
unfolding lte
lte-le field n max h = ground (arith, fail_if-Passes (ltb max n) (must_be_le field max) h)

gte-le : (field : String) (n min : ℕ) → Passes (gte field n min) → min ≤ n
unfolding gte
gte-le field n min h = ground (arith, fail_if-Passes (ltb n min) (must_be_ge field min) h)

abbrev pub HasContent : Payload → Type 0
HasContent p = (p.bytes ≢ []) × (p.encoding ≢ [])

payload-HasContent : (p : Payload) → Passes (payload p) → HasContent p
unfolding payload
payload-HasContent p h =
    let both = then-Passes (fail_if (is_empty p.bytes) _) (min_len _ p.encoding) h in
    (
      nonempty_of p.bytes (fail_if-Passes (is_empty p.bytes) _ both.0),
      min_len-nonempty _ p.encoding both.1,
    )

-- A key and its value in the custom map.
abbrev pub IsEntry : Text × PrimitiveValue → Type 0
IsEntry kv = (kv.0 ≢ []) × (is_some kv.1.value ≡ true)

entry-IsEntry :
    (kv : Text × PrimitiveValue)
    → Passes (min_len "custom key" kv.0 then primitive_value kv.0 kv.1)
    → IsEntry kv
unfolding primitive_value
entry-IsEntry kv h =
    let both = then-Passes (min_len _ kv.0) (primitive_value kv.0 kv.1) h in
    (
      min_len-nonempty _ kv.0 both.0,
      not-false (is_some kv.1.value) (fail_if-Passes (not (is_some kv.1.value)) _ both.1),
    )

pub record IsEnqueueRequest (req : EnqueueRequest) : Type 0 where
  pub queue : IsQueueName req.queue
  pub job_type : req.job_type ≢ []
  pub payload : IfSome req.payload HasContent
  pub idempotency_key : IfSome req.idempotency_key (λ k. k ≢ [])
  pub priority : IfSome req.priority (λ p. p ≤ 9)
  pub max_attempts : IfSome req.max_attempts (λ m. 1 ≤ m)
  pub traceparent : IfSome req.trace_context (λ tc. tc.traceparent ≢ [])
  pub custom : All IsEntry req.custom

-- An enqueue request that passes names a queue that can be addressed, has a job type, a payload
-- with content, no empty key, a priority of at most 9, at least one attempt, a trace parent where it
-- has a trace context, and no custom entry without a key or a value.
pub enqueue_request-IsEnqueueRequest :
    (req : EnqueueRequest) → Passes (enqueue_request req) → IsEnqueueRequest req
unfolding enqueue_request trace_context
enqueue_request-IsEnqueueRequest req h =
    let a = then-Passes (queue_name _ req.queue) _ h in
    let b = then-Passes (min_len _ req.job_type) _ a.1 in
    let c = then-Passes (if_some req.payload payload) _ b.1 in
    let d = then-Passes (if_some req.idempotency_key (min_len _)) _ c.1 in
    let e = then-Passes (if_some req.priority (λ p. lte _ p 9)) _ d.1 in
    let f = then-Passes (if_some req.max_attempts (λ m. gte _ m 1)) _ e.1 in
    let g = then-Passes (if_some req.trace_context trace_context) _ f.1 in
    record {
      queue = queue_name-IsQueueName _ req.queue a.0;
      job_type = min_len-nonempty _ req.job_type b.0;
      payload = if_some-Passes req.payload payload HasContent payload-HasContent c.0;
      idempotency_key =
          if_some-Passes req.idempotency_key _ (λ k. k ≢ []) (λ k. min_len-nonempty _ k) d.0;
      priority = if_some-Passes req.priority _ (λ p. p ≤ 9) (λ p. lte-le _ p 9) e.0;
      max_attempts = if_some-Passes req.max_attempts _ (λ m. 1 ≤ m) (λ m. gte-le _ m 1) f.0;
      traceparent =
          if_some-Passes req.trace_context _ (λ tc. tc.traceparent ≢ [])
            (λ tc. min_len-nonempty _ tc.traceparent) g.0;
      custom = each-Passes req.custom _ IsEntry entry-IsEntry g.1;
    }
