-- ===== src/Shmem/Seqlock.antt =====
-- The specification of the seqlock and its invariant.
use cm108_driver_rust.Base.{
  ℕ, ◌+◌, ◌*◌, ◌%◌, ◌≤◌, ◌<◌, ◌≡◌, ◌⊎◌, inl, inr, List, [], ◌∷◌, Option, none, some, length, take,
  arith,
}
use cm108_driver_rust.Types.{AudioFrame, IsFrame}
use cm108_driver_rust.Shmem.{
  Memory, raw_bytes, Writer, idle, loaded, copying, Reader, starting, reading, Event, wrote,
  returned, System,
}

-- The specification, an atomic register: a read returns the frame of the last write that returned,
-- `cur` at first, and after `k` writes the next one returns the counter 2 * (k + 1).
abbrev pub IsRegister : AudioFrame → ℕ → List Event → Type 0
IsRegister cur k [] = Unit
IsRegister cur k (wrote f n ∷ es) = (n ≡ 2 * (k + 1)) × IsRegister f (k + 1) es
IsRegister cur k (returned f ∷ es) = (f ≡ cur) × IsRegister cur k es

-- What holds of the writer when `k` writes have returned, the last that of `cur`.
abbrev pub WriterOk : AudioFrame → ℕ → Memory → Writer → Type 0
WriterOk cur k m idle = (m.seq ≡ 2 * k) × (m.cells ≡ raw_bytes cur)
WriterOk cur k m (loaded c f) = (c ≡ 2 * k) × (m.seq ≡ c) × (m.cells ≡ raw_bytes cur) × IsFrame f
WriterOk cur k m (copying c f i) =
    (c ≡ 2 * k) × (m.seq ≡ c + 1) × (i ≤ 192) × (take i m.cells ≡ take i (raw_bytes f)) × IsFrame f

-- While the counter is the one that the reader saw, its bytes are those in memory.
abbrev pub ReaderOk : Memory → Reader → Type 0
ReaderOk m starting = Unit
ReaderOk m (reading s1 buf) =
    (s1 % 2 ≡ 0)
    × (s1 ≤ m.seq)
    × (length buf ≤ 192)
    × (m.seq ≡ s1 → buf ≡ take (length buf) m.cells)

pub record Inv (cur : AudioFrame) (k : ℕ) (s : System) : Type 0 where
  pub full : length s.mem.cells ≡ 192
  pub writer : WriterOk cur k s.mem s.writer
  pub reader : ReaderOk s.mem s.reader

-- A move of the writer leaves the reader's part true if the counter becomes odd or grows past it.
pub reader_outrun :
    (m m' : Memory) (r : Reader)
    → ReaderOk m r
    → m.seq ≤ m'.seq
    → (m'.seq % 2 ≡ 1) ⊎ (m.seq < m'.seq)
    → ReaderOk m' r
reader_outrun m m' starting h le new = tt
reader_outrun m m' (reading s1 buf) (even, below, short, same) le new =
    (even, omega arith, short, λ e. absurd (outrun new e))
  where
    outrun : (m'.seq % 2 ≡ 1) ⊎ (m.seq < m'.seq) → m'.seq ≡ s1 → ⊥
    outrun (inl odd) e = omega arith
    outrun (inr grows) e = omega arith

-- What a step that notes `e` leads to.
abbrev pub Next : AudioFrame → ℕ → System → Option Event → Type 0
Next cur k s none = Inv cur k s
Next cur k s (some (wrote f n)) = (n ≡ 2 * (k + 1)) × Inv f (k + 1) s
Next cur k s (some (returned f)) = (f ≡ cur) × Inv cur k s
