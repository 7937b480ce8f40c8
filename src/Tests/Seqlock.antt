-- ===== src/Tests/Seqlock.antt =====
-- The seqlock: a write, a read, and a read that a write overtakes.
use cm108_driver_rust.Base.{ℕ, zero, suc, List, ◌∷◌, ◌++◌, replicate, All, All-append, arith}
use cm108_driver_rust.Types.{default_frame}
use cm108_driver_rust.Shmem.{Move, begin, write, read, run, start}
use cm108_driver_rust.Shmem.Seqlock.{IsRegister}
use cm108_driver_rust.Shmem.Linear.{IsMove, run-IsRegister}
use cm108_driver_rust.Tests.Data.{tone, tone-IsFrame}

moves_valid : (n : ℕ) → All IsMove (replicate n write)
moves_valid zero = tt
moves_valid (suc n) = (tt, moves_valid n)

reads_valid : (n : ℕ) → All IsMove (replicate n read)
reads_valid zero = tt
reads_valid (suc n) = (tt, reads_valid n)

-- A read begins, a write overtakes it, the read fails, and the next read returns the frame.
abbrev overtaken : List Move
overtaken = (begin tone ∷ replicate 194 write) ++ replicate 300 read

abbrev schedule : List Move
schedule = replicate 100 read ++ overtaken

run-IsRegister_example : IsRegister default_frame 0 (run start schedule).1
run-IsRegister_example = run-IsRegister schedule (omega arith) (
    All-append IsMove (replicate 100 read) overtaken (reads_valid 100) (
      All-append IsMove (begin tone ∷ replicate 194 write) (replicate 300 read)
        (tone-IsFrame, moves_valid 194) (reads_valid 300)))
