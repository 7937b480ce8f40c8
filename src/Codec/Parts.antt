-- ===== src/Codec/Parts.antt =====
-- `Encode` and `Decode` for `StreamFlags`, `GpioState`, `LatencyStats` and `RadioEvent`,
-- crates/cm108-types/src/codec.rs.
pub mod Laws
use cm108_driver_rust.Base.{ℕ, zero, suc, List, Option, none, some, ◌>>=◌}
use cm108_driver_rust.Types.{
  GpioState, LatencyStats, StreamFlags, from_bits_truncate, RadioEvent, ptt_assert, ptt_deassert,
  cos_active, cos_inactive, gpio_change,
}
use cm108_driver_rust.Codec.Words.{push_u8, push_u32, read_u8, read_u32}
use cm108_driver_rust.Codec.Traits.{Encode, Decode}

unfoldable pub encode_flags : StreamFlags → List ℕ → List ℕ
encode_flags s buf = push_u8 buf s.bits

unfoldable pub decode_flags : List ℕ → Option (StreamFlags × List ℕ)
decode_flags buf = do (b, rest) ← read_u8 buf; some (from_bits_truncate b, rest)

unfoldable pub encode_gpio : GpioState → List ℕ → List ℕ
encode_gpio g buf = push_u8 buf g.mask

unfoldable pub decode_gpio : List ℕ → Option (GpioState × List ℕ)
decode_gpio buf = do (b, rest) ← read_u8 buf; some (record { mask = b }, rest)

unfoldable pub encode_latency : LatencyStats → List ℕ → List ℕ
encode_latency s buf = push_u32 (push_u32 (push_u32 buf s.min_us) s.max_us) s.p99_us

unfoldable pub decode_latency : List ℕ → Option (LatencyStats × List ℕ)
decode_latency buf = do
  (lo, buf) ← read_u32 buf
  (hi, buf) ← read_u32 buf
  (p99, buf) ← read_u32 buf
  some (record { min_us = lo; max_us = hi; p99_us = p99 }, buf)

unfoldable pub encode_event : RadioEvent → List ℕ → List ℕ
encode_event ptt_assert buf = push_u8 buf 0
encode_event ptt_deassert buf = push_u8 buf 1
encode_event cos_active buf = push_u8 buf 2
encode_event cos_inactive buf = push_u8 buf 3
encode_event (gpio_change g) buf = encode_gpio g (push_u8 buf 4)

-- The `match` on the tag, from 0 on.
unfoldable pub event_of_tag : ℕ → List ℕ → Option (RadioEvent × List ℕ)
event_of_tag zero rest = some (ptt_assert, rest)
event_of_tag (suc zero) rest = some (ptt_deassert, rest)
event_of_tag (suc (suc zero)) rest = some (cos_active, rest)
event_of_tag (suc (suc (suc zero))) rest = some (cos_inactive, rest)
event_of_tag (suc (suc (suc (suc zero)))) rest = do
  (g, rest) ← decode_gpio rest
  some (gpio_change g, rest)
event_of_tag _ rest = none

unfoldable pub decode_event : List ℕ → Option (RadioEvent × List ℕ)
decode_event buf = do (tag, rest) ← read_u8 buf; event_of_tag tag rest

instance abbrev pub flags_encode : Encode StreamFlags
flags_encode = record { encode = encode_flags }

instance abbrev pub flags_decode : Decode StreamFlags
flags_decode = record { decode = decode_flags }

instance abbrev pub gpio_encode : Encode GpioState
gpio_encode = record { encode = encode_gpio }

instance abbrev pub gpio_decode : Decode GpioState
gpio_decode = record { decode = decode_gpio }

instance abbrev pub latency_encode : Encode LatencyStats
latency_encode = record { encode = encode_latency }

instance abbrev pub latency_decode : Decode LatencyStats
latency_decode = record { decode = decode_latency }

instance abbrev pub event_encode : Encode RadioEvent
event_encode = record { encode = encode_event }

instance abbrev pub event_decode : Decode RadioEvent
event_decode = record { decode = decode_event }
