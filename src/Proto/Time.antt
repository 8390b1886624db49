-- ===== src/Proto/Time.antt =====
-- The conversions between milliseconds and timestamps or durations of src/pb.rs.
use sepp.Prelude.{◌-◌, ◌*◌, ◌/◌, ◌%◌, ◌≡◌, arith, ℕ, ◌<◌, ◌^◌}
use sepp.Prelude.Int.{ℤ, pos, negsuc, saturating_add, IsI64, ◌≤ℤ◌, i64_max}
use sepp.Proto.{
  Prost, millis_to_timestamp, timestamp_to_millis, millis_to_duration, duration_to_millis,
}

-- Within the range of `i64`, but for its last second below, milliseconds survive the conversion to
-- a timestamp and back.
pub timestamp_to_millis-millis_to_timestamp :
    (prost : Prost) (ms : ℤ)
    → IsI64 ms
    → negsuc (i64_max - 1000) ≤ℤ ms
    → timestamp_to_millis ⦃prost = prost⦄ (millis_to_timestamp ⦃prost = prost⦄ ms) ≡ ms
unfolding timestamp_to_millis millis_to_timestamp saturating_add
timestamp_to_millis-millis_to_timestamp prost (pos n) h b =
    rw
      (
        prost.normalized_lem (pos (n / 1000)) (n % 1000 * 1000000) (omega arith),
        prost.normalized_lem (pos (n / 1000)) (n % 1000 * 1000000) (omega arith),
      )
      (ground arith)
timestamp_to_millis-millis_to_timestamp prost (negsuc n) h b =
    rw
      (
        prost.normalized_lem (negsuc (n / 1000)) ((999 - n % 1000) * 1000000) (omega arith),
        prost.normalized_lem (negsuc (n / 1000)) ((999 - n % 1000) * 1000000) (omega arith),
      )
      (ground arith)

-- Every `u64` of milliseconds survives the conversion to a duration and back.
pub duration_to_millis-millis_to_duration :
    (prost : Prost) (ms : ℕ)
    → ms < 2 ^ 64
    → duration_to_millis ⦃prost = prost⦄ (millis_to_duration ms) ≡ ms
unfolding duration_to_millis millis_to_duration
duration_to_millis-millis_to_duration prost ms h =
    rw (prost.normalized_duration_lem (ms / 1000) (ms % 1000 * 1000000) (omega arith))
      (ground arith)
