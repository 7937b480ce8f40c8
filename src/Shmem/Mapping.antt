-- ===== src/Shmem/Mapping.antt =====
-- Where the shared memory comes from and goes: `AudioShmem::create`, its helpers and its `drop` of
-- crates/cm108-server/src/shmem.rs, and `RxShmem::map` and its `drop` of
-- crates/cm108-client/src/client.rs. The system calls are the operations of `Kernel`, with the state
-- of the process passed along.
pub mod Owned
use cm108_driver_rust.Base.{
  ℕ, ◌+◌, ◌^◌, ◌≡◌, ◌≢◌, refl, sym, ap, ◌∙◌, subst, Bool, true, false, List, [], ◌∷◌, ◌++◌, Option,
  none, some, ◌==◌, ◌||◌, ==_ne, if◌then◌else◌, if-true, if-false, All,
}
use cm108_driver_rust.Types.{Text}
use cm108_driver_rust.Io.{IoResult, ok, err, other}

abbrev pub shmem_size : ℕ
shmem_size = 4096

-- An address, a descriptor or a mapping's length is a number. A call that returns -1 or MAP_FAILED
-- gives none or false.
pub record Kernel (W : Type 0) : Type 0 where
  pub memfd_create : List ℕ → W → Option ℕ × W
  pub truncate : ℕ → ℕ → W → Bool × W
  pub mmap : ℕ → ℕ → Bool → W → Option ℕ × W
  pub munmap : ℕ → ℕ → W → W
  pub close : ℕ → W → W

pub record AudioShmem : Type 0 where
  pub fd : ℕ
  pub ptr : ℕ

-- `CString::new` refuses a text with a zero byte in it, and `expect` panics then.
abbrev pub has_nul : Text → Bool
has_nul [] = false
has_nul (c ∷ cs) = c == 0 || has_nul cs

-- `Err(last_os_error())`, if the call failed.
abbrev pub done_or : {W : Type 0} → Bool × W → IoResult (Unit {0}) × W
done_or (true, w) = (ok tt, w)
done_or (false, w) = (err other, w)

abbrev pub got_or : {W : Type 0} → Option ℕ × W → IoResult ℕ × W
got_or (some n, w) = (ok n, w)
got_or (none, w) = (err other, w)

-- `?` on one of these, with what is dropped when it returns early.
abbrev pub then_or :
    {A B W : Type 0} → IoResult A × W → (W → W) → (A → W → IoResult B × W) → IoResult B × W
then_or (ok a, w) release k = k a w
then_or (err e, w) release k = (err e, release w)

module _ {W : Type 0} (kernel : Kernel W) where
  unfoldable pub create_memfd : Text → W → Option (IoResult ℕ × W)
  create_memfd name w =
      if has_nul name then none else some (got_or (kernel.memfd_create (name ++ 0 ∷ []) w))

  unfoldable pub ftruncate : ℕ → ℕ → W → IoResult (Unit {0}) × W
  ftruncate fd size w = done_or (kernel.truncate fd size w)

  unfoldable pub mmap_shared : ℕ → ℕ → W → IoResult ℕ × W
  mmap_shared fd size w = got_or (kernel.mmap fd size true w)

  -- `create` behind its first line: an `OwnedFd` that is dropped closes its descriptor.
  unfoldable pub create_with : IoResult ℕ × W → IoResult AudioShmem × W
  create_with r =
      then_or r (λ w. w)
        λ fd w₁. then_or (ftruncate fd shmem_size w₁) (kernel.close fd) λ _ w₂.
          then_or (mmap_shared fd shmem_size w₂) (kernel.close fd)
            λ ptr w₃. (ok (record { fd = fd; ptr = ptr }), w₃)

  -- It is none where it panics.
  unfoldable pub create : Text → W → Option (IoResult AudioShmem × W)
  create label w = elim (create_memfd label w) [ none ↦ none | some r ↦ some (create_with r) ]

  -- `drop` unmaps, and then the field with the descriptor is dropped.
  unfoldable pub drop_shmem : AudioShmem → W → W
  drop_shmem s w = kernel.close s.fd (kernel.munmap s.ptr shmem_size w)

  -- The client's mapping, which is read-only, of a descriptor that it owns.
  unfoldable pub map_rx : ℕ → W → IoResult AudioShmem × W
  map_rx fd w =
      then_or (got_or (kernel.mmap fd shmem_size false w)) (kernel.close fd)
        λ ptr w₁. (ok (record { fd = fd; ptr = ptr }), w₁)

  unfoldable pub drop_rx : AudioShmem → W → W
  drop_rx s w = kernel.close s.fd (kernel.munmap s.ptr shmem_size w)
