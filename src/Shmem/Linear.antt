-- ===== src/Shmem/Linear.antt =====
-- The interleaved system against the register.
use cm108_driver_rust.Base.{
  ℕ, ◌+◌, ◌*◌, ◌^◌, ◌≤◌, ◌<◌, refl, sym, List, [], ◌∷◌, Option, none, some, length,
  length-replicate, All, arith,
}
use cm108_driver_rust.Types.{AudioFrame, default_frame, IsFrame}
use cm108_driver_rust.Shmem.{
  Event, wrote, returned, System, Move, begin, write, read, step, note, run, start,
}
use cm108_driver_rust.Shmem.Raw.{raw_bytes-default}
use cm108_driver_rust.Shmem.Seqlock.{IsRegister, Inv, Next}
use cm108_driver_rust.Shmem.Writing.{begin-Next, writer-Next}
use cm108_driver_rust.Shmem.Reading.{reader-Next}

-- A move of the schedule: the frames written are frames.
abbrev pub IsMove : Move → Type 0
IsMove (begin f) = IsFrame f
IsMove _ = Unit

step-Next :
    (cur : AudioFrame) (k : ℕ) (s : System) (m : Move)
    → 2 * k + 2 < 2 ^ 64
    → IsMove m
    → Inv cur k s
    → Next cur k (step s m).0 (step s m).1
unfolding step
step-Next cur k s (begin f) room v inv = begin-Next cur f k s.mem s.writer s.reader v inv
step-Next cur k s write room v inv = writer-Next cur k s.mem s.writer s.reader room inv
step-Next cur k s read room v inv = reader-Next cur k s.mem s.writer s.reader inv

-- What is noted fits the register, if what comes after it does.
note-IsRegister :
    (cur : AudioFrame) (k : ℕ) (s : System) (e : Option Event) (es : List Event)
    → Next cur k s e
    → ((f : AudioFrame) (n : ℕ) → n ≤ k + 1 → Inv f n s → IsRegister f n es)
    → IsRegister cur k (note e es)
note-IsRegister cur k s none es h rest = rest cur k (omega arith) h
note-IsRegister cur k s (some (wrote f n)) es h rest = (h.0, rest f (k + 1) (omega arith) h.1)
note-IsRegister cur k s (some (returned f)) es h rest = (h.0, rest cur k (omega arith) h.1)

run-IsRegister_from :
    (ms : List Move) (cur : AudioFrame) (k : ℕ) (s : System)
    → 2 * (k + length ms) < 2 ^ 64
    → All IsMove ms
    → Inv cur k s
    → IsRegister cur k (run s ms).1
unfolding run
run-IsRegister_from [] cur k s room v inv = tt
run-IsRegister_from (m ∷ ms) cur k s room (vm, v) inv =
    note-IsRegister cur k (step s m).0 (step s m).1 (run (step s m).0 ms).1
      (step-Next cur k s m (omega arith) vm inv)
      λ f n le inv'. run-IsRegister_from ms f n (step s m).0 (omega arith) v inv'

start-Inv : Inv default_frame 0 start
unfolding start
start-Inv = record {
  full = length-replicate {A = ℕ} 192 0;
  writer = (refl, sym raw_bytes-default);
  reader = tt;
}

-- Under every interleaving of fewer than 2 ^ 63 steps, the callers cannot tell the seqlock from an
-- atomic register: each frame that a read returns is the frame of the last write that had returned
-- (silence before the first), never a mixture, and the n-th write returns the counter 2 * n.
pub run-IsRegister :
    (ms : List Move)
    → length ms < 2 ^ 63
    → All IsMove ms
    → IsRegister default_frame 0 (run start ms).1
run-IsRegister ms room v = run-IsRegister_from ms default_frame 0 start (omega arith) v start-Inv
