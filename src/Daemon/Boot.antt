-- ===== src/Daemon/Boot.antt =====
-- How the daemon starts: `run` of crates/cm108-server/src/server.rs up to its accept loop, and
-- `IsoStream::start` of crates/cm108-hal/src/iso_stream.rs. The device, the shared memory, the start of
-- a thread and the calls on the file system are operations of `Host`, with the state of the system
-- passed along. The last owner of a value that is dropped gives it back; a thread that runs owns what
-- it was given.
pub mod Memory
use cm108_driver_rust.Base.{
  ℕ, ◌≡◌, refl, Bool, true, false, List, [], ◌∷◌, ◌++◌, Option, none, some, if◌then◌else◌,
}
use cm108_driver_rust.Types.{Text}
use cm108_driver_rust.Main.{codes}
use cm108_driver_rust.Io.{IoResult, ok, err}
use cm108_driver_rust.Device.{
  HalError, hid, HalResult, gives, refuses, Rusb, Cm108Device, open_cm108, drop_device,
}
use cm108_driver_rust.Shmem.Mapping.{Kernel, AudioShmem, create, drop_shmem}

-- A call that is true has succeeded. `parent` is that of a path.
pub record Host (W : Type 0) : Type 0 where
  pub rusb : Rusb W
  pub kernel : Kernel W
  pub spawn : Text → W → Bool × W
  pub exists : Text → W → Bool
  pub remove_file : Text → W → Bool × W
  pub parent : Text → Option Text
  pub create_dir_all : Text → W → Bool × W
  pub set_permissions : Text → ℕ → W → Bool × W
  pub bind : Text → W → Bool × W

pub data RunError : Type 0 where
  hal : HalError → RunError
  io_error : RunError

-- The daemon listens, or it has failed while these threads run.
pub data Boot : Type 0 where
  listens : Cm108Device → AudioShmem → Boot
  fails : RunError → List Text → Boot

abbrev pub iso_threads : List Text
iso_threads = codes "cm108-rx" ∷ codes "cm108-tx" ∷ []

abbrev pub all_threads : List Text
all_threads =
    codes "cm108-rx"
    ∷ codes "cm108-tx"
    ∷ codes "cm108-dispatch"
    ∷ codes "cm108-gpio"
    ∷ codes "cm108-heartbeat"
    ∷ []

module _ {W : Type 0} (host : Host W) where
  unfoldable pub bind_socket : Cm108Device → AudioShmem → Text → W → Boot × W
  bind_socket d s path w =
      let (bound, w₁) = host.bind path w in
      (if bound then listens d s else fails io_error all_threads, w₁)

  -- The directory of the socket, whose permissions may stay as they are.
  unfoldable pub make_dir : Option Text → Cm108Device → AudioShmem → Text → W → Boot × W
  make_dir none d s path w = bind_socket d s path w
  make_dir (some dir) d s path w =
      let (made, w₁) = host.create_dir_all dir w in
      let (_, w₂) = host.set_permissions dir 0o755 w₁ in
      if made then bind_socket d s path w₂ else (fails io_error all_threads, w₁)

  -- A socket that an earlier run has left is removed.
  unfoldable pub clear_path : Cm108Device → AudioShmem → Text → W → Boot × W
  clear_path d s path w =
      let (removed, w₁) = host.remove_file path w in
      if host.exists path w
      then (if removed
          then make_dir (host.parent path) d s path w₁
          else (fails io_error all_threads, w₁))
      else make_dir (host.parent path) d s path w

  -- The three threads of the daemon. From the first on the memory is also owned by a thread.
  unfoldable pub spawn_heartbeat : Cm108Device → AudioShmem → Text → W → Boot × W
  spawn_heartbeat d s path w =
      let (spawned, w₁) = host.spawn (codes "cm108-heartbeat") w in
      if spawned
      then clear_path d s path w₁
      else (fails io_error (iso_threads ++ (codes "cm108-dispatch" ∷ codes "cm108-gpio" ∷ [])), w₁)

  unfoldable pub spawn_gpio : Cm108Device → AudioShmem → Text → W → Boot × W
  spawn_gpio d s path w =
      let (spawned, w₁) = host.spawn (codes "cm108-gpio") w in
      if spawned
      then spawn_heartbeat d s path w₁
      else (fails io_error (iso_threads ++ codes "cm108-dispatch" ∷ []), w₁)

  unfoldable pub spawn_dispatch : Cm108Device → AudioShmem → Text → W → Boot × W
  spawn_dispatch d s path w =
      let (spawned, w₁) = host.spawn (codes "cm108-dispatch") w in
      if spawned
      then spawn_gpio d s path w₁
      else (fails io_error iso_threads, drop_shmem host.kernel s w₁)

  -- `IsoStream::start`, whose errors have the text of the system's error.
  unfoldable pub start_iso : Text → Cm108Device → AudioShmem → Text → W → Boot × W
  start_iso error d s path w =
      let (rx, w₁) = host.spawn (codes "cm108-rx") w in
      let (tx, w₂) = host.spawn (codes "cm108-tx") w₁ in
      if rx
      then (if tx
          then spawn_dispatch d s path w₂
          else (fails (hal (hid error)) (codes "cm108-rx" ∷ []), drop_shmem host.kernel s w₂))
      else (fails (hal (hid error)) [], drop_device host.rusb (drop_shmem host.kernel s w₁))

  unfoldable pub with_shmem : Text → Cm108Device → Text → IoResult AudioShmem × W → Boot × W
  with_shmem error d path (ok s, w) = start_iso error d s path w
  with_shmem error d path (err e, w) = (fails io_error [], drop_device host.rusb w)

  unfoldable pub with_device : Text → Text → HalResult Cm108Device × W → Option (Boot × W)
  with_device error path (gives d, w) = elim (create host.kernel (codes "cm108-rx") w) [
    | none ↦ none
    | some r ↦ some (with_shmem error d path r)
  ]
  with_device error path (refuses e, w) = some (fails (hal e) [], w)

  -- It is none where it panics.
  unfoldable pub run_start : Text → Text → W → Option (Boot × W)
  run_start error path w = with_device error path (open_cm108 host.rusb w)
