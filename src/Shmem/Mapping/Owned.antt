-- ===== src/Shmem/Mapping/Owned.antt =====
-- What the process holds when the shared memory is made and dropped.
use cm108_driver_rust.Base.{
  ℕ, ◌≡◌, ◌≢◌, refl, ap, ◌∙◌, Bool, true, false, List, [], ◌∷◌, ◌++◌, Option, none, some, if-false,
  ==_ne, All,
}
use cm108_driver_rust.Types.{Text}
use cm108_driver_rust.Io.{IoResult, ok, err}
use cm108_driver_rust.Shmem.Mapping.{
  shmem_size, Kernel, AudioShmem, has_nul, done_or, got_or, then_or, create_memfd, ftruncate,
  mmap_shared, create_with, create, drop_shmem, map_rx, drop_rx,
}

-- What is documented of these calls: which descriptors of memory files are open and what is mapped of
-- them, the newest first.
-- A call that fails changes neither.
pub record IsKernel {W : Type 0} (kernel : Kernel W) : Type 0 where
  pub open_fds : W → List ℕ
  pub mapped : W → List (ℕ × ℕ)
  pub created :
      (name : List ℕ) (w : W) (fd : ℕ)
      → (kernel.memfd_create name w).0 ≡ some fd
      → (open_fds (kernel.memfd_create name w).1 ≡ fd ∷ open_fds w)
        × (mapped (kernel.memfd_create name w).1 ≡ mapped w)
  pub not_created :
      (name : List ℕ) (w : W)
      → (kernel.memfd_create name w).0 ≡ none
      → (open_fds (kernel.memfd_create name w).1 ≡ open_fds w)
        × (mapped (kernel.memfd_create name w).1 ≡ mapped w)
  pub resized :
      (fd size : ℕ) (w : W)
      → (open_fds (kernel.truncate fd size w).1 ≡ open_fds w)
        × (mapped (kernel.truncate fd size w).1 ≡ mapped w)
  pub maps :
      (fd size ptr : ℕ) (writable : Bool) (w : W)
      → (kernel.mmap fd size writable w).0 ≡ some ptr
      → (open_fds (kernel.mmap fd size writable w).1 ≡ open_fds w)
        × (mapped (kernel.mmap fd size writable w).1 ≡ (ptr, size) ∷ mapped w)
  pub not_mapped :
      (fd size : ℕ) (writable : Bool) (w : W)
      → (kernel.mmap fd size writable w).0 ≡ none
      → (open_fds (kernel.mmap fd size writable w).1 ≡ open_fds w)
        × (mapped (kernel.mmap fd size writable w).1 ≡ mapped w)
  pub unmaps :
      (ptr size : ℕ) (rest : List (ℕ × ℕ)) (w : W)
      → mapped w ≡ (ptr, size) ∷ rest
      → (open_fds (kernel.munmap ptr size w) ≡ open_fds w)
        × (mapped (kernel.munmap ptr size w) ≡ rest)
  pub closes :
      (fd : ℕ) (rest : List ℕ) (w : W)
      → open_fds w ≡ fd ∷ rest
      → (open_fds (kernel.close fd w) ≡ rest) × (mapped (kernel.close fd w) ≡ mapped w)

module _ {W : Type 0} (kernel : Kernel W) (k : IsKernel kernel) where
  -- The process holds these descriptors and mappings.
  abbrev pub Holds : List ℕ → List (ℕ × ℕ) → W → Type 0
  Holds fds ms w = (k.open_fds w ≡ fds) × (k.mapped w ≡ ms)

  -- What `create` or `map` leaves: a descriptor and a mapping of one page, or nothing.
  abbrev pub Owns : List ℕ → List (ℕ × ℕ) → IoResult AudioShmem × W → Type 0
  Owns fds ms (ok s, w) = Holds (s.fd ∷ fds) ((s.ptr, shmem_size) ∷ ms) w
  Owns fds ms (err e, w) = Holds fds ms w

  close_after :
      (fd : ℕ) (fds : List ℕ) (ms : List (ℕ × ℕ)) (w : W)
      → Holds (fd ∷ fds) ms w
      → Holds fds ms (kernel.close fd w)
  close_after fd fds ms w (o, m) = let (o', m') = k.closes fd fds w o in (o', m' ∙ m)

  mapped-Owns :
      (fd : ℕ) (writable : Bool) (fds : List ℕ) (ms : List (ℕ × ℕ)) (w : W)
      → Holds (fd ∷ fds) ms w
      → Owns fds ms (
          then_or
            (got_or (kernel.mmap fd shmem_size writable w))
            (kernel.close fd)
            λ ptr w₁. (ok (record { fd = fd; ptr = ptr }), w₁))
  mapped-Owns fd writable fds ms w (o, m) =
      go (kernel.mmap fd shmem_size writable w) (λ ptr e. k.maps fd shmem_size ptr writable w e)
        (λ e. k.not_mapped fd shmem_size writable w e)
    where
      go :
          (r : Option ℕ × W)
          → ((ptr : ℕ)
              → r.0 ≡ some ptr
              → (k.open_fds r.1 ≡ k.open_fds w) × (k.mapped r.1 ≡ (ptr, shmem_size) ∷ k.mapped w))
          → (r.0 ≡ none → (k.open_fds r.1 ≡ k.open_fds w) × (k.mapped r.1 ≡ k.mapped w))
          → Owns fds ms (
              then_or
                (got_or r)
                (kernel.close fd)
                λ ptr w₁. (ok (record { fd = fd; ptr = ptr }), w₁))
      go (some ptr, w₁) good bad =
          let (o₁, m₁) = good ptr refl in (o₁ ∙ o, m₁ ∙ ap (λ l. (ptr, shmem_size) ∷ l) m)
      go (none, w₁) good bad = let (o₁, m₁) = bad refl in close_after fd fds ms w₁ (o₁ ∙ o, m₁ ∙ m)

  sized-Owns :
      (fd : ℕ) (fds : List ℕ) (ms : List (ℕ × ℕ)) (w₁ : W) (r : Bool × W)
      → Holds (fd ∷ fds) ms w₁
      → (k.open_fds r.1 ≡ k.open_fds w₁) × (k.mapped r.1 ≡ k.mapped w₁)
      → Owns fds ms (
          then_or (done_or r) (kernel.close fd) λ _ w₂.
            then_or
              (got_or (kernel.mmap fd shmem_size true w₂))
              (kernel.close fd)
              λ ptr w₃. (ok (record { fd = fd; ptr = ptr }), w₃))
  sized-Owns fd fds ms w₁ (true, w₂) (o₁, m₁) (o₂, m₂) =
      mapped-Owns fd true fds ms w₂ (o₂ ∙ o₁, m₂ ∙ m₁)
  sized-Owns fd fds ms w₁ (false, w₂) (o₁, m₁) (o₂, m₂) =
      close_after fd fds ms w₂ (o₂ ∙ o₁, m₂ ∙ m₁)

  created-Owns :
      (fds : List ℕ) (ms : List (ℕ × ℕ)) (name : List ℕ) (w : W)
      → Holds fds ms w
      → Owns fds ms (create_with kernel (got_or (kernel.memfd_create name w)))
  unfolding create_with ftruncate mmap_shared
  created-Owns fds ms name w (o, m) =
      go (kernel.memfd_create name w) (λ fd e. k.created name w fd e) (λ e. k.not_created name w e)
    where
      go :
          (r : Option ℕ × W)
          → ((fd : ℕ)
              → r.0 ≡ some fd
              → (k.open_fds r.1 ≡ fd ∷ k.open_fds w) × (k.mapped r.1 ≡ k.mapped w))
          → (r.0 ≡ none → (k.open_fds r.1 ≡ k.open_fds w) × (k.mapped r.1 ≡ k.mapped w))
          → Owns fds ms (create_with kernel (got_or r))
      go (some fd, w₁) good bad =
          let (o₁, m₁) = good fd refl in
          sized-Owns fd fds ms w₁ (kernel.truncate fd shmem_size w₁)
            (o₁ ∙ ap (λ l. fd ∷ l) o, m₁ ∙ m) (k.resized fd shmem_size w₁)
      go (none, w₁) good bad = let (o₁, m₁) = bad refl in (o₁ ∙ o, m₁ ∙ m)

  pub dropped-Holds :
      (s : AudioShmem) (fds : List ℕ) (ms : List (ℕ × ℕ)) (w : W)
      → Holds (s.fd ∷ fds) ((s.ptr, shmem_size) ∷ ms) w
      → Holds fds ms (kernel.close s.fd (kernel.munmap s.ptr shmem_size w))
  dropped-Holds s fds ms w (o, m) =
      let (o₁, m₁) = k.unmaps s.ptr shmem_size ms w m in
      close_after s.fd fds ms (kernel.munmap s.ptr shmem_size w) (o₁ ∙ o, m₁)

  -- Drops what was made, if it was.
  abbrev pub dropped_by : (AudioShmem → W → W) → IoResult AudioShmem × W → W
  dropped_by drop (ok s, w) = drop s w
  dropped_by drop (err e, w) = w

  dropped_by-Holds :
      (fds : List ℕ) (ms : List (ℕ × ℕ)) (r : IoResult AudioShmem × W)
      → Owns fds ms r
      → Holds fds ms (dropped_by (λ s w. kernel.close s.fd (kernel.munmap s.ptr shmem_size w)) r)
  dropped_by-Holds fds ms (ok s, w) h = dropped-Holds s fds ms w h
  dropped_by-Holds fds ms (err e, w) h = h

  has_nul-false : (name : Text) → All (λ c. c ≢ 0) name → has_nul name ≡ false
  has_nul-false [] h = refl
  has_nul-false (c ∷ cs) (ne, h) = rw (==_ne c 0 ne) (has_nul-false cs h)

  -- For a label without a zero byte, `create` does not panic: it leaves the process with one more
  -- descriptor and one more mapping, of a page, or with an error and nothing more than before; and
  -- dropping what it made gives both back.
  pub create-Owns :
      (fds : List ℕ) (ms : List (ℕ × ℕ)) (label : Text) (w : W)
      → All (λ c. c ≢ 0) label
      → Holds fds ms w
      → (r : IoResult AudioShmem × W) × (create kernel label w ≡ some r)
        × Owns fds ms r
        × Holds fds ms (dropped_by (drop_shmem kernel) r)
  unfolding create create_memfd drop_shmem
  create-Owns fds ms label w clean h =
      let made : IoResult ℕ × W = got_or (kernel.memfd_create (label ++ 0 ∷ []) w) in
      let owns = created-Owns fds ms (label ++ 0 ∷ []) w h in
      (
        create_with kernel made,
        ap
            (λ (o : Option (IoResult ℕ × W)). elim o [
              | none ↦ none
              | some r ↦ some (create_with kernel r)
            ])
            (if-false none (some made) (has_nul-false label clean)),
        owns,
        dropped_by-Holds fds ms (create_with kernel made) owns,
      )

  -- The client's mapping takes the descriptor that it is given: with a mapping of a page it keeps it,
  -- with an error it has closed it, and dropping gives both back.
  pub map_rx-Owns :
      (fd : ℕ) (fds : List ℕ) (ms : List (ℕ × ℕ)) (w : W)
      → Holds (fd ∷ fds) ms w
      → Owns fds ms (map_rx kernel fd w)
        × Holds fds ms (dropped_by (drop_rx kernel) (map_rx kernel fd w))
  unfolding map_rx drop_rx
  map_rx-Owns fd fds ms w h =
      let owns = mapped-Owns fd false fds ms w h in (owns, dropped_by-Holds fds ms _ owns)
