-- ===== src/Tests/Data.antt =====
-- Values that the tests share.
use cm108_driver_rust.Base.{ℕ, zero, suc, refl, replicate, All, arith}
use cm108_driver_rust.Types.{AudioFrame, IsFrame, IsU16, StreamFlags}

abbrev pub tone : AudioFrame
tone = record { samples = replicate 96 0x8001 }

samples_ranged : (n v : ℕ) → IsU16 v → All IsU16 (replicate n v)
samples_ranged zero v p = tt
samples_ranged (suc n) v p = (p, samples_ranged n v p)

pub tone-IsFrame : IsFrame tone
tone-IsFrame = record { count = refl; ranged = samples_ranged 96 0x8001 (omega arith) }

abbrev pub everything : StreamFlags
everything = record { bits = 7 }
