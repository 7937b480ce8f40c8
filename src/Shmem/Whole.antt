-- ===== src/Shmem/Whole.antt =====
-- A write as a whole.
use cm108_driver_rust.Base.{
  ℕ, zero, suc, ◌+◌, ◌%◌, ◌^◌, ◌≡◌, refl, sym, ap, ◌∙◌, subst, List, [], ◌∷◌, lt→ltb, le→ltb,
  length, length-set, get_or, set, take, take-all, take-copy, replicate, arith,
}
use cm108_driver_rust.Types.{AudioFrame, IsFrame}
use cm108_driver_rust.Shmem.{
  Memory, raw_bytes, idle, copying, Reader, wrote, begin_write, writer_step, System, Move, begin,
  write, step, note, run, write_frame,
}
use cm108_driver_rust.Shmem.Raw.{length-raw_bytes}

run-state :
    (s : System) (m : Move) (ms : List Move)
    → run s (m ∷ ms) ≡ ((run (step s m).0 ms).0, note (step s m).1 (run (step s m).0 ms).1)
unfolding run
run-state s m ms = refl

module _ (f : AudioFrame) (v : IsFrame f) (r : Reader) where
  -- `n` bytes are still to be copied.
  copy_rest :
      (n i c : ℕ) (m : Memory)
      → i + n ≡ 192
      → length m.cells ≡ 192
      → take i m.cells ≡ take i (raw_bytes f)
      → run (record { mem = m; writer = copying c f i; reader = r }) (replicate (suc n) write) ≡ (
        record {
          mem = record { seq = (c + 2) % 2 ^ 64; cells = raw_bytes f };
          writer = idle;
          reader = r;
        },
        wrote f ((c + 2) % 2 ^ 64) ∷ [],
      )
  unfolding step writer_step
  copy_rest zero i c m size full same =
      let last : i ≡ 192 = omega arith in
      let cells : m.cells ≡ raw_bytes f =
        sym (take-all 192 m.cells full)
        ∙ subst (λ (n : ℕ). take n m.cells ≡ take n (raw_bytes f)) last same
        ∙ take-all 192 (raw_bytes f) (length-raw_bytes f v) in
      run-state _ write []
      ∙ rw (le→ltb i 192 (omega arith)) (
          unfold run in
          ap
            (λ (l : List ℕ). (
              (let s : System = record {
                mem = record { seq = (c + 2) % 2 ^ 64; cells = l };
                writer = idle;
                reader = r;
              } in
                  s),
              wrote f ((c + 2) % 2 ^ 64) ∷ [],
            ))
            cells)
  copy_rest (suc n) i c m size full same =
      let b : ℕ = get_or (raw_bytes f) i 0 in
      let front : take (suc i) (set m.cells i b) ≡ take (suc i) (raw_bytes f) =
        take-copy i m.cells (raw_bytes f) 0 (omega (arith, full))
          (omega (arith, length-raw_bytes f v)) same in
      run-state _ write (replicate (suc n) write)
      ∙ rw (lt→ltb i 192 (omega arith)) (
          copy_rest n (i + 1) c (record m { cells = set m.cells i b }) (omega arith)
            (length-set m.cells i b ∙ full)
            (subst (λ (k : ℕ). take k (set m.cells i b) ≡ take k (raw_bytes f)) {x = suc i}
              {y = i + 1} (omega arith) front))

  -- The steps of one call of `write`, with no other between them, store the frame and the counter as
  -- the whole call does, leave a reader where it is, and return the same counter.
  pub run-write_frame :
      (m : Memory)
      → length m.cells ≡ 192
      → let (m', n) = write_frame f m in
        run (record { mem = m; writer = idle; reader = r }) (begin f ∷ replicate 194 write)
        ≡ (record { mem = m'; writer = idle; reader = r }, wrote f n ∷ [])
  unfolding write_frame
  run-write_frame m full =
      run-state _ (begin f) (replicate 194 write)
      ∙ (unfold step begin_write in
          run-state _ write (replicate 193 write)
          ∙ (unfold writer_step in
              copy_rest 192 0 m.seq (record m { seq = (m.seq + 1) % 2 ^ 64 }) refl full refl))
