-- ===== src/Shmem.antt =====
-- The seqlock over shared memory: `AudioShmem::write` of crates/cm108-server/src/shmem.rs and
-- `RxShmem::read_frame` of crates/cm108-client/src/client.rs. Each access to shared memory, a byte
-- of the frame or the counter, is one atomic step, and the steps of the two sides interleave.
pub mod Raw
pub mod Seqlock
pub mod Writing
pub mod Reading
pub mod Linear
pub mod Progress
pub mod Whole
pub mod Mapping
use cm108_driver_rust.Base.{
  ℕ, zero, suc, ◌+◌, ◌*◌, ◌/◌, ◌%◌, ◌^◌, List, [], ◌∷◌, ◌++◌, Option, none, some, ltb, ◌==◌,
  if◌then◌else◌, length, get_or, set, replicate,
}
use cm108_driver_rust.Types.{AudioFrame, default_frame, frame_bytes}

-- The counter and the 192 bytes of the frame behind it.
pub record Memory : Type 0 where
  pub seq : ℕ
  pub cells : List ℕ

-- A frame as its bytes in the memory of a little-endian machine, and back.
unfoldable pub raw_samples : List ℕ → List ℕ
raw_samples [] = []
raw_samples (s ∷ ss) = (s % 256) ∷ (s / 256) ∷ raw_samples ss

unfoldable pub raw_bytes : AudioFrame → List ℕ
raw_bytes f = raw_samples f.samples

unfoldable pub samples_from : List ℕ → List ℕ
samples_from [] = []
samples_from (lo ∷ []) = []
samples_from (lo ∷ hi ∷ bs) = (lo + hi * 256) ∷ samples_from bs

unfoldable pub from_raw : List ℕ → AudioFrame
from_raw bs = record { samples = samples_from bs }

-- Where the writer is: not in `write`; about to store the odd counter; with `i` bytes copied.
pub data Writer : Type 0 where
  idle : Writer
  loaded : ℕ → AudioFrame → Writer
  copying : ℕ → AudioFrame → ℕ → Writer

-- Where the reader is: about to load the counter, or with some bytes copied.
pub data Reader : Type 0 where
  starting : Reader
  reading : ℕ → List ℕ → Reader

-- What the callers see: `write` returned a counter, `read_frame` returned a frame.
pub data Event : Type 0 where
  wrote : AudioFrame → ℕ → Event
  returned : AudioFrame → Event

-- `seq.load`, when the dispatch thread calls `write`; it makes no second call meanwhile.
unfoldable pub begin_write : AudioFrame → Memory → Writer → Writer
begin_write f m idle = loaded m.seq f
begin_write f m w = w

unfoldable pub writer_step : Memory → Writer → Memory × Writer × Option Event
writer_step m idle = (m, idle, none)
writer_step m (loaded cur f) = (record m { seq = (cur + 1) % 2 ^ 64 }, copying cur f 0, none)
writer_step m (copying cur f i) =
    if ltb i frame_bytes
    then (
      record m { cells = set m.cells i (get_or (raw_bytes f) i 0) },
      copying cur f (i + 1),
      none,
    )
    else (record m { seq = (cur + 2) % 2 ^ 64 }, idle, some (wrote f ((cur + 2) % 2 ^ 64)))

unfoldable pub reader_step : Memory → Reader → Reader × Option Event
reader_step m starting = (if m.seq % 2 == 0 then reading m.seq [] else starting, none)
reader_step m (reading s1 buf) =
    if ltb (length buf) frame_bytes
    then (reading s1 (buf ++ get_or m.cells (length buf) 0 ∷ []), none)
    else (starting, if m.seq == s1 then some (returned (from_raw buf)) else none)

pub record System : Type 0 where
  pub mem : Memory
  pub writer : Writer
  pub reader : Reader

pub data Move : Type 0 where
  begin : AudioFrame → Move
  write : Move
  read : Move

unfoldable pub step : System → Move → System × Option Event
step s (begin f) = (record s { writer = begin_write f s.mem s.writer }, none)
step s write = let (m, w, e) = writer_step s.mem s.writer in (record s { mem = m; writer = w }, e)
step s read = let (r, e) = reader_step s.mem s.reader in (record s { reader = r }, e)

abbrev pub note : Option Event → List Event → List Event
note none es = es
note (some e) es = e ∷ es

-- Any interleaving of the two sides, and what the callers see in its course.
unfoldable pub run : System → List Move → System × List Event
run s [] = (s, [])
run s (m ∷ ms) = let (s₁, e) = step s m in let (s₂, es) = run s₁ ms in (s₂, note e es)

-- A fresh mapping holds zeros: `create`.
unfoldable pub start : System
start = record {
  mem = record { seq = 0; cells = replicate 192 0 };
  writer = idle;
  reader = starting;
}

-- A whole call of `write`, where the steps between are of no account: the memory, and what it returns.
unfoldable pub write_frame : AudioFrame → Memory → Memory × ℕ
write_frame f m = (record { seq = (m.seq + 2) % 2 ^ 64; cells = raw_bytes f }, (m.seq + 2) % 2 ^ 64)
