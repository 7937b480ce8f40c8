-- ===== src/Daemon.antt =====
-- The dispatch thread of `run` in crates/cm108-server/src/server.rs, which takes the received frames
-- to the clients. What a round takes from the ring, the time it measures and the counters it reads
-- are its arguments; so are the steps of other threads on the registry between the rounds.
pub mod Windows
pub mod Notices
pub mod Heartbeat
pub mod Pipeline
pub mod Playback
pub mod Boot
use cm108_driver_rust.Base.{ℕ, ◌+◌, ◌%◌, ◌^◌, List, [], ◌∷◌, ◌==◌, if◌then◌else◌, replicate}
use cm108_driver_rust.Types.{AudioFrame, LatencyStats, default_stats}
use cm108_driver_rust.Shmem.{Memory, write_frame}
use cm108_driver_rust.Latency
use cm108_driver_rust.Latency.{LatencyHistogram, record_us, to_stats, reset}
use cm108_driver_rust.Registry.{ClientRegistry, notify_audio_ready, broadcast_stats, Op, apply}

pub record Dispatcher : Type 0 where
  pub shmem : Memory
  pub registry : ClientRegistry
  pub histogram : LatencyHistogram
  pub ticker : ℕ
  pub last_latency : LatencyStats

-- A frame that is dispatched, with the microseconds that this takes and the two xrun counters as they
-- are then; a round with no frame, which only sleeps; and a step of another thread on the registry.
pub data Moment : Type 0 where
  takes : AudioFrame → ℕ → ℕ → ℕ → Moment
  sleeps : Moment
  elsewhere : Op → Moment

-- The end of a round, every 5,000 frames.
unfoldable pub publish : ℕ → ℕ → Dispatcher → Dispatcher
publish rx_xruns tx_xruns s =
    let snap = to_stats s.histogram in
    if s.ticker % 5000 == 0
    then record s {
      last_latency = snap;
      registry = broadcast_stats rx_xruns tx_xruns snap s.registry;
      histogram = reset s.histogram;
    }
    else s

-- `as_micros() as u32` wraps around.
unfoldable pub dispatch_frame : AudioFrame → ℕ → ℕ → ℕ → Dispatcher → Dispatcher
dispatch_frame f micros rx_xruns tx_xruns s =
    let (shmem', seq) = write_frame f s.shmem in
    publish rx_xruns tx_xruns (record {
      shmem = shmem';
      registry = notify_audio_ready seq s.registry;
      histogram = record_us s.histogram (micros % 2 ^ 32);
      ticker = (s.ticker + 1) % 2 ^ 64;
      last_latency = s.last_latency;
    })

unfoldable pub dispatch_moment : Moment → Dispatcher → Dispatcher
dispatch_moment (takes f micros rx tx) s = dispatch_frame f micros rx tx s
dispatch_moment sleeps s = s
dispatch_moment (elsewhere op) s = record s { registry = apply op s.registry }

unfoldable pub dispatch_run : List Moment → Dispatcher → Dispatcher
dispatch_run [] s = s
dispatch_run (m ∷ ms) s = dispatch_run ms (dispatch_moment m s)

-- The thread at its start, with the registry as it is then.
unfoldable pub booted : ClientRegistry → Dispatcher
booted reg = record {
  shmem = record { seq = 0; cells = replicate 192 0 };
  registry = reg;
  histogram = Latency.new;
  ticker = 0;
  last_latency = default_stats;
}
