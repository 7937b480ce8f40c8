-- ===== src/Daemon/Notices.antt =====
-- What the dispatch thread tells the clients, and what they read then.
use cm108_driver_rust.Base.{
  ℕ, ◌+◌, ◌%◌, ◌^◌, ◌<◌, ◌≡◌, refl, sym, ap, ◌∙◌, List, [], ◌∷◌, ◌++◌, length, replicate, arith,
}
use cm108_driver_rust.Types.{AudioFrame, default_frame, IsFrame}
use cm108_driver_rust.Shmem.{idle, starting, read, returned, run}
use cm108_driver_rust.Shmem.Raw.{length-raw_bytes, raw_bytes-default, default-IsFrame}
use cm108_driver_rust.Shmem.Progress.{read-ends}
use cm108_driver_rust.Latency.{recorded}
use cm108_driver_rust.Registry.{ClientRegistry, Op, apply, apply_all}
use cm108_driver_rust.Daemon.{
  Dispatcher, Moment, takes, sleeps, elsewhere, dispatch_moment, dispatch_run, booted,
}
use cm108_driver_rust.Daemon.Windows.{Knows, frame_ops, dispatch_frame-Knows}

-- The steps on the registry, after frames with the latencies `us`.
abbrev pub ops_of : List ℕ → List Moment → List Op
ops_of us [] = []
ops_of us (takes f micros rx tx ∷ ms) =
    frame_ops (micros % 2 ^ 32 ∷ us) rx tx ++ ops_of (micros % 2 ^ 32 ∷ us) ms
ops_of us (sleeps ∷ ms) = ops_of us ms
ops_of us (elsewhere op ∷ ms) = op ∷ ops_of us ms

-- The latencies, the last at the head, and the last frame.
abbrev pub latencies : List ℕ → List Moment → List ℕ
latencies us [] = us
latencies us (takes f micros rx tx ∷ ms) = latencies (micros % 2 ^ 32 ∷ us) ms
latencies us (sleeps ∷ ms) = latencies us ms
latencies us (elsewhere op ∷ ms) = latencies us ms

abbrev pub last_frame : AudioFrame → List Moment → AudioFrame
last_frame cur [] = cur
last_frame cur (takes f micros rx tx ∷ ms) = last_frame f ms
last_frame cur (sleeps ∷ ms) = last_frame cur ms
last_frame cur (elsewhere op ∷ ms) = last_frame cur ms

-- The frames that are dispatched are frames.
abbrev pub Frames : List Moment → Type 0
Frames [] = Unit
Frames (takes f micros rx tx ∷ ms) = IsFrame f × Frames ms
Frames (sleeps ∷ ms) = Frames ms
Frames (elsewhere op ∷ ms) = Frames ms

apply_all-append :
    (ops more : List Op) (r : ClientRegistry)
    → apply_all (ops ++ more) r ≡ apply_all more (apply_all ops r)
unfolding apply_all
apply_all-append [] more r = refl
apply_all-append (op ∷ ops) more r = apply_all-append ops more (apply op r)

apply_one :
    (op : Op) (ops : List Op) (r : ClientRegistry)
    → apply_all (op ∷ ops) r ≡ apply_all ops (apply op r)
unfolding apply_all
apply_one op ops r = refl

elsewhere-Knows :
    (cur : AudioFrame) (us : List ℕ) (op : Op) (s : Dispatcher)
    → Knows cur us s
    → Knows cur us (dispatch_moment (elsewhere op) s)
unfolding dispatch_moment
elsewhere-Knows cur us op s h = record {
  ticks = h.ticks;
  window = h.window;
  published = h.published;
  counter = h.counter;
  frame = h.frame;
}

run-Knows :
    (ms : List Moment) (cur : AudioFrame) (us : List ℕ) (s : Dispatcher)
    → length us + length ms < 2 ^ 63
    → Knows cur us s
    → Knows (last_frame cur ms) (latencies us ms) (dispatch_run ms s)
      × ((dispatch_run ms s).registry ≡ apply_all (ops_of us ms) s.registry)
unfolding dispatch_run dispatch_moment
run-Knows [] cur us s room h = (h, unfold apply_all in refl)
run-Knows (takes f micros rx tx ∷ ms) cur us s room h =
    let (h', done) = dispatch_frame-Knows cur f us micros rx tx s (omega arith) h in
    let (last, rest) = run-Knows ms f (micros % 2 ^ 32 ∷ us) _ (omega arith) h' in
    (
      last,
      rest
          ∙ ap (apply_all (ops_of (micros % 2 ^ 32 ∷ us) ms)) done
          ∙ sym (apply_all-append (frame_ops (micros % 2 ^ 32 ∷ us) rx tx) _ s.registry),
    )
run-Knows (sleeps ∷ ms) cur us s room h = run-Knows ms cur us s (omega arith) h
run-Knows (elsewhere op ∷ ms) cur us s room h =
    let (last, rest) = run-Knows ms cur us _ (omega arith) (elsewhere-Knows cur us op s h) in
    (last, rest ∙ sym (apply_one op (ops_of us ms) s.registry))

booted-Knows : (reg : ClientRegistry) → Knows default_frame [] (booted reg)
unfolding booted recorded
booted-Knows reg = record {
  ticks = refl;
  window = refl;
  published = refl;
  counter = refl;
  frame = sym raw_bytes-default;
}

-- In a run of fewer than 2 ^ 63 moments, whatever other threads do to the registry between the
-- frames: the n-th frame offers the notice of the counter 2 * n to the clients, and each 5,000-th
-- frame then the statistics of the latencies of the last 5,000 frames and no others, which GetStats
-- reports until the next. Memory holds the last frame and twice the number of frames, and the
-- histogram the latencies since the last multiple of 5,000.
pub dispatch_run-Knows :
    (ms : List Moment) (reg : ClientRegistry)
    → length ms < 2 ^ 63
    → let s = dispatch_run ms (booted reg) in
      (s.registry ≡ apply_all (ops_of [] ms) reg)
      × Knows (last_frame default_frame ms) (latencies [] ms) s
dispatch_run-Knows ms reg room =
    let (h, ops) = run-Knows ms default_frame [] (booted reg) (omega arith) (booted-Knows reg) in
    (ops ∙ ap (apply_all (ops_of [] ms)) (unfold booted in refl), h)

last_frame-IsFrame :
    (ms : List Moment) (cur : AudioFrame) → IsFrame cur → Frames ms → IsFrame (last_frame cur ms)
last_frame-IsFrame [] cur v all = v
last_frame-IsFrame (takes f micros rx tx ∷ ms) cur v (w, all) = last_frame-IsFrame ms f w all
last_frame-IsFrame (sleeps ∷ ms) cur v all = last_frame-IsFrame ms cur v all
last_frame-IsFrame (elsewhere op ∷ ms) cur v all = last_frame-IsFrame ms cur v all

-- A client that reads while the dispatch thread does not write gets the last frame dispatched, after
-- 194 steps of its own, in a run of fewer than 2 ^ 63 moments.
pub dispatch_run-read :
    (ms : List Moment) (reg : ClientRegistry)
    → length ms < 2 ^ 63
    → Frames ms
    → (run
        (record { mem = (dispatch_run ms (booted reg)).shmem; writer = idle; reader = starting })
        (replicate 194 read)).1
      ≡ returned (last_frame default_frame ms) ∷ []
dispatch_run-read ms reg room all =
    let h = (dispatch_run-Knows ms reg room).1 in
    let last : AudioFrame = last_frame default_frame ms in
    let v = last_frame-IsFrame ms default_frame default-IsFrame all in
    read-ends last (length (latencies [] ms)) (dispatch_run ms (booted reg)).shmem (record {
      full = ap length h.frame ∙ length-raw_bytes last v;
      writer = (h.counter, h.frame);
      reader = tt;
    })
