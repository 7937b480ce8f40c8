-- ===== src/Daemon/Pipeline.antt =====
-- The path from the device to the clients: the receiving thread of
-- crates/cm108-hal/src/iso_stream.rs and the dispatch thread of crates/cm108-server/src/server.rs, at
-- the two ends of one ring, with their steps in any order. Each access of the dispatch thread to what
-- it shares is a step of its own: the ring, the memory, the registry, the counter of the receiving
-- thread. A round of the receiving thread ends with its one access to the ring, and counting a frame
-- that did not fit is a step of its own.
pub mod Fifo
pub mod Log
pub mod Pushes
pub mod Simulate
pub mod Rounds
pub mod History
pub mod Refine
use cm108_driver_rust.Base.{
  ℕ, ◌+◌, ◌%◌, ◌^◌, List, [], ◌∷◌, Option, none, some, ◌==◌, if◌then◌else◌,
}
use cm108_driver_rust.Types.{AudioFrame, LatencyStats}
use cm108_driver_rust.Shmem.{write_frame}
use cm108_driver_rust.Latency.{record_us, to_stats, reset}
use cm108_driver_rust.Usbfs.{Round}
use cm108_driver_rust.Ring.{Producer, Consumer}
use cm108_driver_rust.Registry.{notify_audio_ready, broadcast_stats, Op}
use cm108_driver_rust.Iso.Rx.{RxState, rx_round}
use cm108_driver_rust.Daemon.{Dispatcher, elsewhere, dispatch_moment}

-- Where the dispatch thread stands inside a round, with the variables that are live there: behind the
-- pop, behind the write to memory, behind the notice, behind the store of the statistics, and behind
-- the loads of the counters.
pub data Stage : Type 0 where
  has_frame : AudioFrame → Stage
  has_seq : ℕ → Stage
  has_notified : Stage
  has_snap : LatencyStats → Stage
  has_xruns : LatencyStats → ℕ → ℕ → Stage

pub data DispatchPc : Type 0 where
  idle : DispatchPc
  inside : Stage → DispatchPc

pub record Dispatching : Type 0 where
  pub pc : DispatchPc
  pub dispatcher : Dispatcher

-- The end of a round, or every 5,000 frames the store of the statistics.
unfoldable pub count_up : Dispatcher → Dispatching
count_up d =
    let snap = to_stats d.histogram in
    if d.ticker % 5000 == 0
    then record { pc = inside (has_snap snap); dispatcher = record d { last_latency = snap } }
    else record { pc = idle; dispatcher = d }

-- A step of the dispatch thread inside a round, with the microseconds that it measures and the two
-- counters.
unfoldable pub dispatch_step : Stage → ℕ → ℕ → ℕ → Dispatcher → Dispatching
dispatch_step (has_frame f) micros rx tx d =
    let (shmem', seq) = write_frame f d.shmem in
    record { pc = inside (has_seq seq); dispatcher = record d { shmem = shmem' } }
dispatch_step (has_seq seq) micros rx tx d = record {
  pc = inside has_notified;
  dispatcher = record d { registry = notify_audio_ready seq d.registry };
}
dispatch_step has_notified micros rx tx d = count_up (record d {
  histogram = record_us d.histogram (micros % 2 ^ 32);
  ticker = (d.ticker + 1) % 2 ^ 64;
})
dispatch_step (has_snap snap) micros rx tx d = record {
  pc = inside (has_xruns snap rx tx);
  dispatcher = d;
}
dispatch_step (has_xruns snap rx' tx') micros rx tx d = record {
  pc = idle;
  dispatcher = record d {
    registry = broadcast_stats rx' tx' snap d.registry;
    histogram = reset d.histogram;
  };
}

-- `counter` is the counter of the receiving thread as the others see it.
pub record Pipeline (R : Type 0) : Type 0 where
  pub rx : RxState R
  pub counter : ℕ
  pub thread : Dispatching

-- A round of the receiving thread up to its access to the ring; its count, which comes before its
-- next round at the latest; a step of the dispatch thread, with the microseconds that it measures and
-- the counter of the sending thread; and a step of another thread on the registry.
pub data Step : Type 0 where
  receives : Round → Step
  counts : Step
  dispatches : ℕ → ℕ → Step
  changes : Op → Step

-- A step of another thread on the registry, wherever the dispatch thread stands.
unfoldable pub change_registry : Op → Dispatching → Dispatching
change_registry op t = record t { dispatcher = dispatch_moment (elsewhere op) t.dispatcher }

module _ {R : Type 0} where
  -- The dispatch thread, with what it pops.
  unfoldable pub dispatch_popped : Option (AudioFrame × R) → Pipeline R → Pipeline R
  dispatch_popped none s = s
  dispatch_popped (some (f, ring')) s = record s {
    rx = record s.rx { ring = ring' };
    thread = record s.thread { pc = inside (has_frame f) };
  }

module _ {R : Type 0} (producer : Producer R) (consumer : Consumer R) where
  unfoldable pub dispatch_at : DispatchPc → ℕ → ℕ → Pipeline R → Pipeline R
  dispatch_at idle micros tx s = dispatch_popped (consumer.pop s.rx.ring) s
  dispatch_at (inside stage) micros tx s = record s {
    thread = dispatch_step stage micros s.counter tx s.thread.dispatcher;
  }

  -- None is a panic of the receiving thread.
  unfoldable pub pipe_step : Step → Pipeline R → Option (Pipeline R)
  pipe_step (receives r) s = elim (rx_round producer r s.rx) [
    | none ↦ none
    | some rx' ↦ some (record s { rx = rx'; counter = s.rx.xruns })
  ]
  pipe_step counts s = some (record s { counter = s.rx.xruns })
  pipe_step (dispatches micros tx) s = some (dispatch_at s.thread.pc micros tx s)
  pipe_step (changes op) s = some (record s { thread = change_registry op s.thread })

  unfoldable pub pipe_run : List Step → Pipeline R → Option (Pipeline R)
  pipe_run [] s = some s
  pipe_run (p ∷ ps) s = elim (pipe_step p s) [ none ↦ none | some s' ↦ pipe_run ps s' ]
