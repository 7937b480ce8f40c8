-- ===== src/Shmem/Writing.antt =====
-- The steps of the writer keep the invariant of the seqlock.
use cm108_driver_rust.Base.{
  ℕ, suc, ◌+◌, ◌*◌, ◌%◌, ◌^◌, ◌≤◌, ◌<◌, ◌≡◌, inl, inr, refl, sym, ◌∙◌, subst, List, Option, if-true,
  if-false, lt→ltb, le→ltb, length-set, get_or, set, take, take-all, take-copy, arith, dec_lt,
}
use cm108_driver_rust.Types.{AudioFrame, IsFrame}
use cm108_driver_rust.Shmem.{
  Memory, raw_bytes, Writer, idle, loaded, copying, Reader, Event, begin_write, writer_step, System,
}
use cm108_driver_rust.Shmem.Raw.{length-raw_bytes}
use cm108_driver_rust.Shmem.Seqlock.{Inv, Next, reader_outrun}

pub begin-Next :
    (cur f : AudioFrame) (k : ℕ) (m : Memory) (w : Writer) (r : Reader)
    → IsFrame f
    → Inv cur k (record { mem = m; writer = w; reader = r })
    → Inv cur k (record { mem = m; writer = begin_write f m w; reader = r })
unfolding begin_write
begin-Next cur f k m idle r v inv = record {
  full = inv.full;
  writer = (inv.writer.0, refl, inv.writer.1, v);
  reader = inv.reader;
}
begin-Next cur f k m (loaded c g) r v inv = inv
begin-Next cur f k m (copying c g i) r v inv = inv

-- The stores of the writer.
odd_store :
    (cur f : AudioFrame) (k c : ℕ) (m : Memory) (r : Reader)
    → 2 * k + 2 < 2 ^ 64
    → Inv cur k (record { mem = m; writer = loaded c f; reader = r })
    → Inv cur k
        (record { mem = record m { seq = (c + 1) % 2 ^ 64 }; writer = copying c f 0; reader = r })
odd_store cur f k c m r room inv =
    let (even, at, cells, v) = inv.writer in
    let up : (c + 1) % 2 ^ 64 ≡ c + 1 = omega arith in
    record {
      full = inv.full;
      writer = (even, up, omega arith, refl, v);
      reader =
          reader_outrun m (record m { seq = (c + 1) % 2 ^ 64 }) r inv.reader (omega arith)
            (inl (omega arith));
    }

copy_step :
    (cur f : AudioFrame) (k c i : ℕ) (m : Memory) (r : Reader)
    → i < 192
    → Inv cur k (record { mem = m; writer = copying c f i; reader = r })
    → Inv cur k (record {
      mem = record m { cells = set m.cells i (get_or (raw_bytes f) i 0) };
      writer = copying c f (i + 1);
      reader = r;
    })
copy_step cur f k c i m r below inv =
    let (even, odd, _, same, v) = inv.writer in
    let cells : List ℕ = set m.cells i (get_or (raw_bytes f) i 0) in
    let front : take (suc i) cells ≡ take (suc i) (raw_bytes f) =
      take-copy i m.cells (raw_bytes f) 0 (omega (arith, inv.full))
        (omega (arith, length-raw_bytes f v)) same in
    record {
      full = omega (arith, inv.full, length-set m.cells i (get_or (raw_bytes f) i 0));
      writer = (
        even,
        odd,
        omega arith,
        subst (λ (n : ℕ). take n cells ≡ take n (raw_bytes f)) {x = suc i} {y = i + 1} (omega arith)
            front,
        v,
      );
      reader =
          reader_outrun m (record m { cells = cells }) r inv.reader (omega arith)
            (inl (omega arith));
    }

even_store :
    (cur f : AudioFrame) (k c i : ℕ) (m : Memory) (r : Reader)
    → 2 * k + 2 < 2 ^ 64
    → 192 ≤ i
    → Inv cur k (record { mem = m; writer = copying c f i; reader = r })
    → ((c + 2) % 2 ^ 64 ≡ 2 * (k + 1))
      × Inv f
          (k + 1)
          (record { mem = record m { seq = (c + 2) % 2 ^ 64 }; writer = idle; reader = r })
even_store cur f k c i m r room above inv =
    let (even, odd, most, same, v) = inv.writer in
    let up : (c + 2) % 2 ^ 64 ≡ 2 * (k + 1) = omega arith in
    let last : i ≡ 192 = omega arith in
    let cells : m.cells ≡ raw_bytes f =
      sym (take-all 192 m.cells inv.full)
      ∙ subst (λ (n : ℕ). take n m.cells ≡ take n (raw_bytes f)) last same
      ∙ take-all 192 (raw_bytes f) (length-raw_bytes f v) in
    (
      up,
      record {
        full = inv.full;
        writer = (up, cells);
        reader =
            reader_outrun m (record m { seq = (c + 2) % 2 ^ 64 }) r inv.reader (omega arith)
              (inr (omega arith));
      },
    )

-- Any step of the writer.
abbrev pub after_writer : Reader → Memory × Writer × Option Event → System
after_writer r (m, w, e) = record { mem = m; writer = w; reader = r }

pub writer-Next :
    (cur : AudioFrame) (k : ℕ) (m : Memory) (w : Writer) (r : Reader)
    → 2 * k + 2 < 2 ^ 64
    → Inv cur k (record { mem = m; writer = w; reader = r })
    → Next cur k (after_writer r (writer_step m w)) (writer_step m w).2
unfolding writer_step
writer-Next cur k m idle r room inv = inv
writer-Next cur k m (loaded c f) r room inv = odd_store cur f k c m r room inv
writer-Next cur k m (copying c f i) r room inv = elim (dec_lt i 192) [
  | yes below ↦
      subst (λ x. Next cur k (after_writer r x) x.2) (sym (if-true _ _ (lt→ltb i 192 below)))
        (copy_step cur f k c i m r below inv)
  | no above ↦
      subst (λ x. Next cur k (after_writer r x) x.2)
        (sym (if-false _ _ (le→ltb i 192 (omega arith))))
        (even_store cur f k c i m r room (omega arith) inv)
]
