-- ===== src/Keys/Order.antt =====
-- src/keys.rs: ready keys and timer keys as byte strings, compared.
use sepp.Prelude.{ℕ, ◌-◌, ◌<◌, ◌^◌, ◌≡◌, [], ◌∷◌, ◌++◌, ◌∙◌, min, Ordering, arith}
use sepp.Prelude.Int.{pos}
use sepp.Std.Bytes.{Bytes, Text, cmp, cmp-append, cmp-append_lt}
use sepp.Std.BigEndian.{i64_bits, cmp-to_be, length-to_be, u64_to_be}
use sepp.Keys.Writer
use sepp.Keys.{ReadyKey, encode_ready, encode_timer}

-- Times since the epoch are ordered as their bytes are, whatever follows.
pub cmp-i64 :
    (a b : ℕ) (s t : Bytes)
    → a < b
    → b < 2 ^ 63
    → cmp (Writer.i64 (pos a) ++ s) (Writer.i64 (pos b) ++ t) ≡ Ordering.lt
unfolding Writer.i64 i64_bits
cmp-i64 a b s t h k =
    cmp-append_lt (u64_to_be a) (u64_to_be b) s t
      (omega (arith, length-to_be 8 a, length-to_be 8 b))
      (cmp-to_be 8 a b (omega arith) (omega arith) ∙ ground arith)

cmp-u8 : (a b : ℕ) (s t : Bytes) → a < b → cmp (a ∷ s) (b ∷ t) ≡ Ordering.lt
unfolding cmp
cmp-u8 a b s t h = ground arith

-- In one queue a key of higher priority, capped at 9, sorts first, whatever the times and ids.
pub encode_ready-priority :
    (k l : ReadyKey)
    → k.queue ≡ l.queue
    → min l.priority 9 < min k.priority 9
    → cmp (encode_ready k) (encode_ready l) ≡ Ordering.lt
unfolding encode_ready Writer.u8
encode_ready-priority k l q h =
    rw (q, cmp-append (Writer.prefixed l.queue))
      (cmp-u8 (9 - min k.priority 9) (9 - min l.priority 9) _ _ (omega arith))

-- Within a priority the key of the earlier time sorts first, for times from the epoch on.
pub encode_ready-fifo :
    (k l : ReadyKey) (a b : ℕ)
    → k.queue ≡ l.queue
    → min k.priority 9 ≡ min l.priority 9
    → k.enqueued_at ≡ pos a
    → l.enqueued_at ≡ pos b
    → a < b
    → b < 2 ^ 63
    → cmp (encode_ready k) (encode_ready l) ≡ Ordering.lt
unfolding encode_ready Writer.u8
encode_ready-fifo k l a b q p e f h bound =
    rw (q, p, e, f, cmp-append (Writer.prefixed l.queue), cmp-append ((9 - min l.priority 9) ∷ []))
      (cmp-i64 a b k.job_id l.job_id h bound)

-- Timer keys of earlier deadlines sort first, whatever the job ids, for deadlines from the epoch on.
pub encode_timer-deadline :
    (a b : ℕ) (i j : Text)
    → a < b
    → b < 2 ^ 63
    → cmp
        (encode_timer (record { deadline = pos a; job_id = i }))
        (encode_timer (record { deadline = pos b; job_id = j }))
      ≡ Ordering.lt
unfolding encode_timer
encode_timer-deadline a b i j h k = cmp-i64 a b i j h k
