-- ===== src/Shmem/Progress.antt =====
-- Neither side waits for ever: a write takes 195 steps of the writer, and a read 194 steps of the
-- reader where the writer does not come between them.
use cm108_driver_rust.Base.{
  ℕ, zero, suc, ◌+◌, ◌%◌, ◌^◌, ◌≤◌, ◌<◌, ◌≡◌, refl, sym, ap, ◌∙◌, subst, List, [], ◌∷◌, ◌++◌, none,
  some, ==_refl, ==_eq, lt→ltb, le→ltb, length, length-append, get_or, take, take-all, take-suc,
  replicate, arith,
}
use cm108_driver_rust.Types.{AudioFrame}
use cm108_driver_rust.Shmem.{
  Memory, from_raw, Writer, idle, copying, Reader, starting, reading, wrote, returned, begin_write,
  writer_step, reader_step, System, Move, begin, write, read, step, note, run,
}
use cm108_driver_rust.Shmem.Raw.{from_raw-raw_bytes}
use cm108_driver_rust.Shmem.Seqlock.{Inv}

-- A run of one side's steps, the first of them apart.
pub run-cons :
    (s : System) (m : Move) (ms : List Move)
    → (run s (m ∷ ms)).1 ≡ note (step s m).1 (run (step s m).0 ms).1
unfolding run
run-cons s m ms = refl

module _ (m : Memory) (w : Writer) where
  abbrev with_reader : Reader → System
  with_reader r = record { mem = m; writer = w; reader = r }

  read_copies :
      (s1 : ℕ) (buf : List ℕ)
      → length buf < 192
      → step (with_reader (reading s1 buf)) read
        ≡ (with_reader (reading s1 (buf ++ get_or m.cells (length buf) 0 ∷ [])), none)
  unfolding step reader_step
  read_copies s1 buf h = rw (lt→ltb (length buf) 192 h)

  read_ends :
      (buf : List ℕ)
      → 192 ≤ length buf
      → step (with_reader (reading m.seq buf)) read
        ≡ (with_reader starting, some (returned (from_raw buf)))
  unfolding step reader_step
  read_ends buf h = rw (le→ltb (length buf) 192 h, ==_refl m.seq)

  -- `n` bytes are still to be copied.
  read_rest :
      (n : ℕ) (buf : List ℕ)
      → length m.cells ≡ 192
      → length buf + n ≡ 192
      → buf ≡ take (length buf) m.cells
      → (run (with_reader (reading m.seq buf)) (replicate (suc n) read)).1
        ≡ returned (from_raw m.cells) ∷ []
  read_rest zero buf full size same =
      let here : length buf ≡ 192 = omega arith in
      let whole : buf ≡ m.cells =
        same ∙ subst (λ (n : ℕ). take n m.cells ≡ m.cells) (sym here) (take-all 192 m.cells full) in
      run-cons _ read []
      ∙ rw (read_ends buf (omega arith))
          (unfold run in ap (λ (l : List ℕ). returned (from_raw l) ∷ []) whole)
  read_rest (suc n) buf full size same =
      let b : ℕ = get_or m.cells (length buf) 0 in
      let longer : suc (length buf) ≡ length (buf ++ b ∷ []) =
        omega (arith, length-append buf (b ∷ [])) in
      let copied : buf ++ b ∷ [] ≡ take (length (buf ++ b ∷ [])) m.cells =
        ap (λ l. l ++ b ∷ []) same
        ∙ take-suc (length buf) m.cells 0 (omega arith)
        ∙ ap (λ (n : ℕ). take n m.cells) longer in
      run-cons _ read (replicate (suc n) read)
      ∙ rw (read_copies m.seq buf (omega arith))
          (read_rest n (buf ++ b ∷ []) full (omega (arith, longer)) copied)

-- In a system that keeps the invariant and has no write in progress, a reader that starts returns the
-- last frame that was written after 194 steps of its own.
pub read-ends :
    (cur : AudioFrame) (k : ℕ) (m : Memory)
    → Inv cur k (record { mem = m; writer = idle; reader = starting })
    → (run (record { mem = m; writer = idle; reader = starting }) (replicate 194 read)).1
      ≡ returned cur ∷ []
unfolding step reader_step
read-ends cur k m inv =
    run-cons _ read (replicate 193 read)
    ∙ rw (==_eq (m.seq % 2) 0 (omega (arith, inv.writer.0))) (
        read_rest m idle 192 [] inv.full refl refl
        ∙ ap (λ (f : AudioFrame). returned f ∷ [])
            (ap from_raw inv.writer.1 ∙ from_raw-raw_bytes cur))

module _ (r : Reader) where
  -- `n` bytes are still to be copied.
  write_rest :
      (n i c : ℕ) (f : AudioFrame) (m : Memory)
      → i + n ≡ 192
      → (run (record { mem = m; writer = copying c f i; reader = r }) (replicate (suc n) write)).1
        ≡ wrote f ((c + 2) % 2 ^ 64) ∷ []
  unfolding step writer_step
  write_rest zero i c f m size =
      run-cons _ write [] ∙ rw (le→ltb i 192 (omega arith)) (unfold run in refl)
  write_rest (suc n) i c f m size =
      run-cons _ write (replicate (suc n) write)
      ∙ rw (lt→ltb i 192 (omega arith)) (write_rest n (i + 1) c f _ (omega arith))

-- A write returns after the step that begins it and 194 more of the writer, with the counter that was
-- in memory and 2 more, modulo 2 ^ 64, whatever the memory holds and wherever the reader is.
pub write-ends :
    (f : AudioFrame) (m : Memory) (r : Reader)
    → (run (record { mem = m; writer = idle; reader = r }) (begin f ∷ replicate 194 write)).1
      ≡ wrote f ((m.seq + 2) % 2 ^ 64) ∷ []
write-ends f m r =
    run-cons _ (begin f) (replicate 194 write)
    ∙ (unfold step begin_write in
        run-cons _ write (replicate 193 write)
        ∙ (unfold writer_step in write_rest r 192 0 m.seq f _ refl))
