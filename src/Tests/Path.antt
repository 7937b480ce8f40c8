-- ===== src/Tests/Path.antt =====
-- The path from the device to the clients, with a ring that has one slot left.
use cm108_driver_rust.Base.{
  false, length, get_or-replicate_below, ℕ, zero, suc, ◌<◌, ◌≡◌, refl, ap, inl, inr, true, List, [],
  ◌∷◌, ◌++◌, Option, none, some, replicate, arith,
}
use cm108_driver_rust.Types.{AudioFrame, cos_active}
use cm108_driver_rust.Usbfs.{zeroed, completed, come_back}
use cm108_driver_rust.Usbfs.Flight.{Returned}
use cm108_driver_rust.Ring.{Producer, Consumer, IsRing, IsChannel}
use cm108_driver_rust.Registry.{radio}
use cm108_driver_rust.Iso.Rx.Frames.{Fits}
use cm108_driver_rust.Daemon.{booted}
use cm108_driver_rust.Daemon.Pipeline.{
  idle, Pipeline, Step, receives, counts, dispatches, changes, pipe_run,
}
use cm108_driver_rust.Daemon.Pipeline.Fifo.{serve_run, arrivals, Kept}
use cm108_driver_rust.Daemon.Pipeline.History.{changes_of, Told}
use cm108_driver_rust.Daemon.Pipeline.Simulate.{rounds_of}
use cm108_driver_rust.Daemon.Pipeline.Refine.{served_of, capacity_of, pipe_run-Fifo}
use cm108_driver_rust.Iso.Tx.{TxState}
use cm108_driver_rust.Iso.Tx.Block.{IsTx}
use cm108_driver_rust.Daemon.Playback.{
  PlaybackStep, writes, sends, playback_run, Line, line_run, sending, playback_run-Line,
}
use cm108_driver_rust.Tests.Data.{tone}
use cm108_driver_rust.Tests.Clients.{two_clients}

-- The frames in a ring and its free slots.
abbrev Slots : Type 0
Slots = List AudioFrame × ℕ

abbrev put : List AudioFrame → AudioFrame → ℕ → Option Slots
put q f zero = none
put q f (suc k) = some (q ++ f ∷ [], k)

abbrev got : ℕ → List AudioFrame → Option (AudioFrame × Slots)
got k [] = none
got k (f ∷ fs) = some (f, (fs, suc k))

abbrev writing : Producer Slots
writing = record { push = λ r f. put r.0 f r.1 }

abbrev taking : Consumer Slots
taking = record { pop = λ r. got r.1 r.0 }

put_room :
    (q : List AudioFrame) (f : AudioFrame) (n : ℕ)
    → 0 < n
    → (r' : Slots) × (put q f n ≡ some r') × (r'.0 ≡ q ++ f ∷ []) × (n ≡ suc r'.1)
put_room q f zero h = absurd (omega arith)
put_room q f (suc k) h = ((q ++ f ∷ [], k), refl, refl, refl)

abbrev slots-IsRing : IsRing writing
slots-IsRing = record {
  queued = λ r. r.0;
  slots = λ r. r.1;
  push_full = λ r f e. ap (put r.0 f) e;
  push_room = λ r f h. put_room r.0 f r.1 h;
}

abbrev slots-IsChannel : IsChannel writing taking
slots-IsChannel = record {
  pushes = slots-IsRing;
  no_frame = λ r e. ap (got r.1) e;
  one_frame = λ r f fs e. ((fs, suc r.1), ap (got r.1) e, refl, refl);
}

-- The second frame does not fit, the third does; a client's pin event comes between the pop and the
-- notice of a round, and the count inside it.
abbrev steps : List Step
steps =
    receives (completed 1 0 2 (1 ∷ 2 ∷ []), true)
    ∷ receives (completed 0 0 2 (3 ∷ 4 ∷ []), true)
    ∷ dispatches 0 0
    ∷ changes (radio cos_active)
    ∷ dispatches 0 0
    ∷ counts
    ∷ dispatches 0 0
    ∷ dispatches 12 0
    ∷ receives (completed 1 0 2 (5 ∷ 6 ∷ []), true)
    ∷ []

abbrev path : Pipeline Slots
path = record {
  rx = record {
    urbs = replicate 8 zeroed;
    bufs = replicate 8 (replicate 100 0);
    ring = (tone ∷ [], 1);
    xruns = 0;
    held = 0 ∷ 1 ∷ [];
  };
  counter = 0;
  thread = record { pc = idle; dispatcher = booted two_clients };
}

steps-Returned : Returned (rounds_of steps) (0 ∷ 1 ∷ [])
unfolding come_back
steps-Returned = (inr (inl refl), (inr (inl refl), (inr (inl refl), tt)))

steps-Fits : Fits (rounds_of steps)
steps-Fits = (omega arith, (omega arith, (omega arith, tt)))

pipe_run-Fifo_example :
    let v =
      serve_run
        (capacity_of writing taking slots-IsChannel path)
        steps
        (served_of writing taking slots-IsChannel path) in
    (s' : Pipeline Slots) × (pipe_run writing taking steps path ≡ some s')
    × (s'.rx.ring.0 ≡ v.queue.waiting)
    × (s'.rx.xruns ≡ v.queue.xruns)
    × (s'.counter ≡ v.counted)
    × (s'.thread ≡ v.thread)
    × Told path.thread.dispatcher (changes_of steps) v.queue.dispatched s'.thread
    × Kept 0 ((tone ∷ []) ++ arrivals steps) v.queue
pipe_run-Fifo_example =
    pipe_run-Fifo writing taking slots-IsChannel steps path
      (record { blocks = refl; buffers = refl; once = omega arith }) refl (omega arith)
      steps-Returned steps-Fits

-- One of two frames fits, and then two blocks are reaped.
abbrev writes_and_rounds : List PlaybackStep
writes_and_rounds =
    writes (tone ∷ tone ∷ [])
    ∷ sends (completed 1 0 96 [], true)
    ∷ sends (completed 0 0 96 [], false)
    ∷ []

abbrev speaker : TxState Slots
speaker = record {
  urbs = replicate 8 zeroed;
  bufs = replicate 8 (replicate 96 1);
  ring = ([], 1);
  xruns = 0;
  held = 0 ∷ 1 ∷ [];
  sent = [];
}

speaker-IsTx : IsTx speaker
speaker-IsTx = record {
  blocks = refl;
  buffers = refl;
  sizes = λ i below. ap length (get_or-replicate_below 8 i (replicate {A = ℕ} 96 1) [] below);
  once = omega arith;
}

rounds-Returned : Returned (sending writes_and_rounds) (0 ∷ 1 ∷ [])
unfolding come_back
rounds-Returned = (inr (inl refl), (inr (inl refl), tt))

playback_run-Line_example :
    let first : Line = record {
      queue = record { waiting = []; xruns = 0; dispatched = [] };
      packets = [];
    } in
    let s' = playback_run writing taking writes_and_rounds speaker in
    let l = line_run 1 writes_and_rounds first in
    (s'.ring.0 ≡ l.queue.waiting) × (s'.xruns ≡ l.queue.xruns) × (s'.sent ≡ l.packets)
playback_run-Line_example =
    playback_run-Line writing taking slots-IsChannel writes_and_rounds speaker speaker-IsTx tt
      (omega arith) rounds-Returned ((refl, (refl, tt)), tt)
