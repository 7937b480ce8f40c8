-- ===== src/Tests/Startup.antt =====
-- The start of the daemon on a small system.
use cm108_driver_rust.Base.{
  ℕ, ◌==◌, ◌+◌, ◌≡◌, refl, ap, true, false, List, [], ◌∷◌, Option, none, some, length, arith,
}
use cm108_driver_rust.Main.{codes}
use cm108_driver_rust.Gpio.{ok}
use cm108_driver_rust.Device.{
  Rusb, open_cm108, open_from, take_over, detach_all, detach_if_active, detach_match, drop_device,
  give_back,
}
use cm108_driver_rust.Shmem.Mapping.{
  Kernel, create_memfd, ftruncate, mmap_shared, create_with, create, drop_shmem,
}
use cm108_driver_rust.Shmem.Mapping.Owned.{IsKernel}
use cm108_driver_rust.Daemon.Boot.{
  Host, Boot, io_error, listens, fails, iso_threads, bind_socket, make_dir, clear_path,
  spawn_heartbeat, spawn_gpio, spawn_dispatch, start_iso, with_shmem, with_device, run_start,
}
use cm108_driver_rust.Daemon.Boot.Memory.{IsHost, Started, run_start-Started}

-- The memory files and the mappings.
abbrev World : Type 0
World = List ℕ × List (ℕ × ℕ)

abbrev rest_of {ℓ} : {A : Type ℓ} → List A → List A
rest_of [] = []
rest_of (x ∷ xs) = xs

-- Two mappings are the most it makes.
abbrev next_mapping : ℕ → List ℕ → List (ℕ × ℕ) → Option ℕ × World
next_mapping size fds [] = (some 4096, (fds, (4096, size) ∷ []))
next_mapping size fds (m ∷ []) = (some 8192, (fds, (8192, size) ∷ m ∷ []))
next_mapping size fds ms = (none, (fds, ms))

abbrev small_kernel : Kernel World
small_kernel = record {
  memfd_create = λ name w. (some (length w.0 + 3), ((length w.0 + 3) ∷ w.0, w.1));
  truncate = λ fd size w. (true, w);
  mmap = λ fd size writable w. next_mapping size w.0 w.1;
  munmap = λ ptr size w. (w.0, rest_of w.1);
  close = λ fd w. (rest_of w.0, w.1);
}

mapping_made :
    (size ptr : ℕ) (fds : List ℕ) (ms : List (ℕ × ℕ))
    → (next_mapping size fds ms).0 ≡ some ptr
    → ((next_mapping size fds ms).1.0 ≡ fds) × ((next_mapping size fds ms).1.1 ≡ (ptr, size) ∷ ms)
mapping_made size ptr fds [] e = ground arith
mapping_made size ptr fds (m ∷ []) e = ground arith
mapping_made size ptr fds (m ∷ n ∷ ms) e = absurd (cc)

mapping_refused :
    (size : ℕ) (fds : List ℕ) (ms : List (ℕ × ℕ))
    → (next_mapping size fds ms).0 ≡ none
    → ((next_mapping size fds ms).1.0 ≡ fds) × ((next_mapping size fds ms).1.1 ≡ ms)
mapping_refused size fds [] e = absurd (cc)
mapping_refused size fds (m ∷ []) e = absurd (cc)
mapping_refused size fds (m ∷ n ∷ ms) e = (refl, refl)

file_made :
    (n fd : ℕ) (fds : List ℕ)
    → ◌≡◌ {A = Option ℕ} (some n) (some fd)
    → ◌≡◌ {A = List ℕ} (n ∷ fds) (fd ∷ fds)
file_made n fd fds e = ground arith

file_never_refused : (n : ℕ) → ◌≡◌ {A = Option ℕ} (some n) none → ⊥
file_never_refused n e = cc

abbrev small_kernel-IsKernel : IsKernel small_kernel
small_kernel-IsKernel = record {
  open_fds = λ w. w.0;
  mapped = λ w. w.1;
  created = λ name w fd e. (file_made (length w.0 + 3) fd w.0 e, refl);
  not_created = λ name w e. absurd (file_never_refused (length w.0 + 3) e);
  resized = λ fd size w. (refl, refl);
  maps = λ fd size ptr writable w e. mapping_made size ptr w.0 w.1 e;
  not_mapped = λ fd size writable w e. mapping_refused size w.0 w.1 e;
  unmaps = λ ptr size rest w e. (refl, ap rest_of e);
  closes = λ fd rest w e. (ap rest_of e, refl);
}

-- A bus with one CM108.
abbrev one_device : Rusb World
one_device = record {
  devices = λ w. ok (record { descriptor = ok (0x0d8c, 0x013c); bus = 1; address = 4 } ∷ []);
  open_device = λ d w. (ok tt, w);
  kernel_driver_active = λ i w. ok true;
  detach_kernel_driver = λ i w. (ok tt, w);
  claim_interface = λ i w. (ok tt, w);
  release_interface = λ i w. (ok tt, w);
  attach_kernel_driver = λ i w. (ok tt, w);
}

abbrev small_host : Host World
small_host = record {
  rusb = one_device;
  kernel = small_kernel;
  spawn = λ name w. (true, w);
  exists = λ path w. true;
  remove_file = λ path w. (true, w);
  parent = λ path. some (codes "/run/cm108d");
  create_dir_all = λ path w. (true, w);
  set_permissions = λ path mode w. (false, w);
  bind = λ path w. (true, w);
}

opened_still : (w : World) → (open_cm108 one_device w).1 ≡ w
unfolding open_cm108 open_from take_over detach_all detach_if_active detach_match
opened_still w = refl

dropped_still : (w : World) → drop_device one_device w ≡ w
unfolding drop_device give_back
dropped_still w = refl

abbrev small_host-IsHost : IsHost small_host
small_host-IsHost = record {
  memory = small_kernel-IsKernel;
  opening =
      λ w. (ap (λ (v : World). v.0) (opened_still w), ap (λ (v : World). v.1) (opened_still w));
  dropping =
      λ w. (ap (λ (v : World). v.0) (dropped_still w), ap (λ (v : World). v.1) (dropped_still w));
  spawning = λ name w. (refl, refl);
  removing = λ path w. (refl, refl);
  making = λ path w. (refl, refl);
  permitting = λ path mode w. (refl, refl);
  binding = λ path w. (refl, refl);
}

run_start-Started_example :
    (b : Boot × World) × (run_start small_host [] (codes "/run/cm108d/cm108d.sock") ([], [])
      ≡ some b)
    × Started small_host small_host-IsHost [] [] b
run_start-Started_example =
    run_start-Started small_host small_host-IsHost [] [] [] (codes "/run/cm108d/cm108d.sock")
      ([], []) (refl, refl)

-- The daemon listens, with one memory file and one mapping.
start_listens :
    run_start small_host [] (codes "/run/cm108d/cm108d.sock") ([], [])
    ≡ some (
      listens
          (record { pid = 0x013c; device_bus = 1; device_address = 4 })
          (record { fd = 3; ptr = 4096 }),
      (3 ∷ [], (4096, 4096) ∷ []),
    )
unfolding run_start with_device with_shmem start_iso spawn_dispatch spawn_gpio spawn_heartbeat
    clear_path make_dir bind_socket open_cm108 open_from take_over detach_all detach_if_active
    detach_match create create_with create_memfd ftruncate mmap_shared
start_listens = refl

-- A host that cannot start the dispatch thread: the file and the mapping are given back.
start_gives_back :
    run_start
      (record small_host { spawn = λ name w. (length name == 8, w) })
      []
      (codes "/run/cm108d/cm108d.sock")
      ([], [])
    ≡ some (fails io_error iso_threads, ([], []))
unfolding run_start with_device with_shmem start_iso spawn_dispatch spawn_gpio spawn_heartbeat
    clear_path make_dir bind_socket open_cm108 open_from take_over detach_all detach_if_active
    detach_match create create_with create_memfd ftruncate mmap_shared drop_shmem
start_gives_back = refl
