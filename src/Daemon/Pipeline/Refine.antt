-- ===== src/Daemon/Pipeline/Refine.antt =====
-- The two threads and their ring implement the queue.
use mathlib.Core.List.Sublistᴰ
use cm108_driver_rust.Base.{
  ℕ, ◌+◌, ◌^◌, ◌<◌, ◌≡◌, refl, sym, subst, List, [], ◌++◌, some, length, arith,
}
use cm108_driver_rust.Usbfs.Flight.{Returned}
use cm108_driver_rust.Ring.{Producer, Consumer, IsChannel}
use cm108_driver_rust.Iso.Rx.Frames.{Fits, IsRx}
use cm108_driver_rust.Daemon.Pipeline.{idle, Pipeline, Step, pipe_run}
use cm108_driver_rust.Daemon.Pipeline.Fifo.{Served, serve_run, arrivals, Kept, serve_run-Kept}
use cm108_driver_rust.Daemon.Pipeline.History.{changes_of, Told, Told-first, serve_run-Told}
use cm108_driver_rust.Daemon.Pipeline.Simulate.{rounds_of, Implements, pipe_run-Implements}

module _ {R : Type 0} (producer : Producer R) (consumer : Consumer R)
    (channel : IsChannel producer consumer) where
  -- The queue that stands for the path at first, and its capacity.
  abbrev pub served_of : Pipeline R → Served
  served_of s = record {
    queue = record {
      waiting = channel.pushes.queued s.rx.ring;
      xruns = s.rx.xruns;
      dispatched = [];
    };
    counted = s.counter;
    thread = s.thread;
  }

  abbrev pub capacity_of : Pipeline R → ℕ
  capacity_of s = channel.pushes.slots s.rx.ring + length (channel.pushes.queued s.rx.ring)

  -- In every interleaving of the steps of the dispatch thread, the rounds of the receiving thread,
  -- its counts, and the steps of other threads on the registry, the path from the device to the
  -- clients is a bounded queue: the ring has the frames that wait, and the dispatch thread steps as
  -- one that takes its frames from the queue and loads the count of the frames lost as it is at the
  -- load. So the frames taken by the dispatch thread, and then those that wait, are in the order of
  -- arrival and none of them twice, and each one that is missing is in the count of the receiving
  -- thread, which others see before its next round at the latest. Wherever the dispatch thread
  -- stands, memory, the histogram, the number of frames and the latest statistics are those of whole
  -- rounds, without steps in between, for the frames taken, or for all but the last and the part of
  -- its round behind which it stands; and the registry has had, each in order and merged, the steps of
  -- the other threads and, of the dispatch thread, the notices and statistics of these rounds. It holds
  -- for a dispatch thread that starts between two rounds, while the kernel gives back blocks that it
  -- holds and writes no more than a buffer holds.
  pub pipe_run-Fifo :
      (ps : List Step) (s : Pipeline R)
      → IsRx s.rx
      → s.thread.pc ≡ idle
      → s.rx.xruns < 2 ^ 64
      → Returned (rounds_of ps) s.rx.held
      → Fits (rounds_of ps)
      → let v = serve_run (capacity_of s) ps (served_of s) in
        (s' : Pipeline R) × (pipe_run producer consumer ps s ≡ some s')
        × (channel.pushes.queued s'.rx.ring ≡ v.queue.waiting)
        × (s'.rx.xruns ≡ v.queue.xruns)
        × (s'.counter ≡ v.counted)
        × (s'.thread ≡ v.thread)
        × Told s.thread.dispatcher (changes_of ps) v.queue.dispatched s'.thread
        × Kept s.rx.xruns (channel.pushes.queued s.rx.ring ++ arrivals ps) v.queue
  pipe_run-Fifo ps s receiver between bound g f =
      let whole : Implements producer consumer channel (capacity_of s) s (served_of s) = record {
        receiver = receiver;
        queue = (refl, refl, refl);
        seen = refl;
        served = refl;
      } in
      let v : Served = serve_run (capacity_of s) ps (served_of s) in
      let (s', run, h') =
        pipe_run-Implements producer consumer channel (capacity_of s) ps s (served_of s) whole g
          f in
      let (queued, _, count) = h'.queue in
      (
        s',
        run,
        queued,
        count,
        h'.seen,
        h'.served,
        subst (Told s.thread.dispatcher (changes_of ps) v.queue.dispatched) (sym h'.served) (
            serve_run-Told s.thread.dispatcher (capacity_of s) ps [] (served_of s)
              (Told-first s.thread.dispatcher s.thread refl between)),
        serve_run-Kept s.rx.xruns (capacity_of s) ps (channel.pushes.queued s.rx.ring) (served_of s)
            (Sublistᴰ.refl (channel.pushes.queued s.rx.ring), 0, omega arith, omega (arith, bound)),
      )
