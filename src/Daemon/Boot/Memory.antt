-- ===== src/Daemon/Boot/Memory.antt =====
-- Who holds the shared memory when the daemon has started, or has failed to.
use cm108_driver_rust.Base.{
  ℕ, ◌≡◌, refl, ap, ◌∙◌, Bool, true, false, List, ◌∷◌, Option, none, some, if◌then◌else◌, arith,
}
use cm108_driver_rust.Types.{Text}
use cm108_driver_rust.Main.{codes}
use cm108_driver_rust.Io.{IoResult, ok, err}
use cm108_driver_rust.Device.{HalResult, gives, refuses, Cm108Device, open_cm108, drop_device}
use cm108_driver_rust.Shmem.Mapping.{shmem_size, AudioShmem, drop_shmem}
use cm108_driver_rust.Shmem.Mapping.Owned.{IsKernel, Holds, Owns, create-Owns, dropped-Holds}
use cm108_driver_rust.Daemon.Boot.{
  Host, io_error, all_threads, Boot, listens, fails, bind_socket, make_dir, clear_path,
  spawn_heartbeat, spawn_gpio, spawn_dispatch, start_iso, with_shmem, with_device, run_start,
}

-- What is documented of the other calls: they do nothing with memory files and their mappings.
pub record IsHost {W : Type 0} (host : Host W) : Type 0 where
  pub memory : IsKernel host.kernel
  pub open memory use {open_fds, mapped}
  pub opening :
      (w : W)
      → (open_fds (open_cm108 host.rusb w).1 ≡ open_fds w)
        × (mapped (open_cm108 host.rusb w).1 ≡ mapped w)
  pub dropping :
      (w : W)
      → (open_fds (drop_device host.rusb w) ≡ open_fds w)
        × (mapped (drop_device host.rusb w) ≡ mapped w)
  pub spawning :
      (name : Text) (w : W)
      → (open_fds (host.spawn name w).1 ≡ open_fds w) × (mapped (host.spawn name w).1 ≡ mapped w)
  pub removing :
      (path : Text) (w : W)
      → (open_fds (host.remove_file path w).1 ≡ open_fds w)
        × (mapped (host.remove_file path w).1 ≡ mapped w)
  pub making :
      (path : Text) (w : W)
      → (open_fds (host.create_dir_all path w).1 ≡ open_fds w)
        × (mapped (host.create_dir_all path w).1 ≡ mapped w)
  pub permitting :
      (path : Text) (mode : ℕ) (w : W)
      → (open_fds (host.set_permissions path mode w).1 ≡ open_fds w)
        × (mapped (host.set_permissions path mode w).1 ≡ mapped w)
  pub binding :
      (path : Text) (w : W)
      → (open_fds (host.bind path w).1 ≡ open_fds w) × (mapped (host.bind path w).1 ≡ mapped w)

module _ {W : Type 0} (host : Host W) (h : IsHost host) (fds : List ℕ) (ms : List (ℕ × ℕ)) where
  abbrev Has : AudioShmem → W → Type 0
  Has s w = Holds host.kernel h.memory (s.fd ∷ fds) ((s.ptr, shmem_size) ∷ ms) w

  -- The dispatch thread is the third to be started, and owns the memory from then on.
  abbrev pub Kept : List Text → W → Type 0
  Kept (rx ∷ tx ∷ dispatch ∷ more) w = (s : AudioShmem) × Has s w
  Kept _ w = Holds host.kernel h.memory fds ms w

  abbrev pub Started : Boot × W → Type 0
  Started (listens d s, w) = Has s w
  Started (fails e threads, w) = Kept threads w

  -- A call that does nothing with them.
  still :
      (s : AudioShmem) (w w' : W)
      → (h.open_fds w' ≡ h.open_fds w) × (h.mapped w' ≡ h.mapped w)
      → Has s w
      → Has s w'
  still s w w' (o, m) (o', m') = (o ∙ o', m ∙ m')

  if-Started : (b : Bool) (x y : Boot × W) → Started x → Started y → Started (if b then x else y)
  if-Started true x y p q = p
  if-Started false x y p q = q

  bound-Started :
      (b : Bool) (d : Cm108Device) (s : AudioShmem) (w : W)
      → Has s w
      → Started (if b then listens d s else fails io_error all_threads, w)
  bound-Started true d s w p = p
  bound-Started false d s w p = (s, p)

  make_dir-Started :
      (dir : Option Text) (d : Cm108Device) (s : AudioShmem) (path : Text) (w : W)
      → Has s w
      → Started (make_dir host dir d s path w)
  unfolding make_dir bind_socket
  make_dir-Started none d s path w p =
      bound-Started (host.bind path w).0 d s (host.bind path w).1
        (still s w (host.bind path w).1 (h.binding path w) p)
  make_dir-Started (some dir) d s path w p =
      let w₁ : W = (host.create_dir_all dir w).1 in
      let w₂ : W = (host.set_permissions dir 0o755 w₁).1 in
      let p₁ = still s w w₁ (h.making dir w) p in
      let p₂ = still s w₁ w₂ (h.permitting dir 0o755 w₁) p₁ in
      if-Started (host.create_dir_all dir w).0 _ _
        (bound-Started (host.bind path w₂).0 d s (host.bind path w₂).1
          (still s w₂ (host.bind path w₂).1 (h.binding path w₂) p₂))
        (s, p₁)

  clear_path-Started :
      (d : Cm108Device) (s : AudioShmem) (path : Text) (w : W)
      → Has s w
      → Started (clear_path host d s path w)
  unfolding clear_path
  clear_path-Started d s path w p =
      let w₁ : W = (host.remove_file path w).1 in
      let p₁ = still s w w₁ (h.removing path w) p in
      if-Started (host.exists path w) _ _
        (if-Started (host.remove_file path w).0 _ _
          (make_dir-Started (host.parent path) d s path w₁ p₁) (s, p₁))
        (make_dir-Started (host.parent path) d s path w p)

  spawn_dispatch-Started :
      (d : Cm108Device) (s : AudioShmem) (path : Text) (w : W)
      → Has s w
      → Started (spawn_dispatch host d s path w)
  unfolding spawn_dispatch spawn_gpio spawn_heartbeat drop_shmem
  spawn_dispatch-Started d s path w p =
      let w₁ : W = (host.spawn (codes "cm108-dispatch") w).1 in
      let p₁ = still s w w₁ (h.spawning _ w) p in
      let w₂ : W = (host.spawn (codes "cm108-gpio") w₁).1 in
      let p₂ = still s w₁ w₂ (h.spawning _ w₁) p₁ in
      let w₃ : W = (host.spawn (codes "cm108-heartbeat") w₂).1 in
      let p₃ = still s w₂ w₃ (h.spawning _ w₂) p₂ in
      if-Started (host.spawn (codes "cm108-dispatch") w).0 _ _
        (if-Started (host.spawn (codes "cm108-gpio") w₁).0 _ _
          (if-Started (host.spawn (codes "cm108-heartbeat") w₂).0 _ _
            (clear_path-Started d s path w₃ p₃) (s, p₃))
          (s, p₂))
        (dropped-Holds host.kernel h.memory s fds ms w₁ p₁)

  start_iso-Started :
      (error : Text) (d : Cm108Device) (s : AudioShmem) (path : Text) (w : W)
      → Has s w
      → Started (start_iso host error d s path w)
  unfolding start_iso drop_shmem
  start_iso-Started error d s path w p =
      let w₁ : W = (host.spawn (codes "cm108-rx") w).1 in
      let p₁ = still s w w₁ (h.spawning _ w) p in
      let w₂ : W = (host.spawn (codes "cm108-tx") w₁).1 in
      let p₂ = still s w₁ w₂ (h.spawning _ w₁) p₁ in
      let (o, m) = dropped-Holds host.kernel h.memory s fds ms w₁ p₁ in
      let (o', m') = h.dropping (drop_shmem host.kernel s w₁) in
      if-Started (host.spawn (codes "cm108-rx") w).0 _ _
        (if-Started (host.spawn (codes "cm108-tx") w₁).0 _ _ (spawn_dispatch-Started d s path w₂ p₂)
          (dropped-Holds host.kernel h.memory s fds ms w₂ p₂))
        (o' ∙ o, m' ∙ m)

  with_shmem-Started :
      (error : Text) (d : Cm108Device) (path : Text) (r : IoResult AudioShmem × W)
      → Owns host.kernel h.memory fds ms r
      → Started (with_shmem host error d path r)
  unfolding with_shmem
  with_shmem-Started error d path (ok s, w) p = start_iso-Started error d s path w p
  with_shmem-Started error d path (err e, w) (o, m) =
      let (o', m') = h.dropping w in (o' ∙ o, m' ∙ m)

  with_device-Started :
      (error path : Text) (r : HalResult Cm108Device × W)
      → Holds host.kernel h.memory fds ms r.1
      → (b : Boot × W) × (with_device host error path r ≡ some b) × Started b
  unfolding with_device
  with_device-Started error path (gives d, w) p =
      let (r, made, owns, _) =
        create-Owns host.kernel h.memory fds ms (codes "cm108-rx") w (omega arith) p in
      (
        with_shmem host error d path r,
        ap
            (λ (o : Option (IoResult AudioShmem × W)). elim o [
              | none ↦ none
              | some r ↦ some (with_shmem host error d path r)
            ])
            made,
        with_shmem-Started error d path r owns,
      )
  with_device-Started error path (refuses e, w) p = (_, refl, p)

  -- The start of the daemon does not panic. If it listens, it holds one memory file and one mapping
  -- of a page more than before. If it fails before the dispatch thread runs, it has given back what it
  -- made of the memory; if it fails later, the dispatch thread still has it. The other calls of the
  -- system do nothing with memory files.
  pub run_start-Started :
      (error path : Text) (w : W)
      → Holds host.kernel h.memory fds ms w
      → (b : Boot × W) × (run_start host error path w ≡ some b) × Started b
  unfolding run_start
  run_start-Started error path w (o, m) =
      let (o', m') = h.opening w in
      with_device-Started error path (open_cm108 host.rusb w) (o' ∙ o, m' ∙ m)
