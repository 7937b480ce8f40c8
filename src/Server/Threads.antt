-- ===== src/Server/Threads.antt =====
-- The connections of the daemon beside one another: the threads that `handle_client` of
-- crates/cm108-server/src/ipc.rs is run by, and the writer thread that each starts, on the registry
-- and the context that they share with the other threads. A move is one step of one thread. The
-- accesses under one lock are one step, and so are the pushes of one audio message.
pub mod Update
pub mod Keys
pub mod Owners
pub mod Isolation
pub mod Fifo
pub mod Told
pub mod Alone
use cm108_driver_rust.Base.{
  ℕ, zero, suc, ◌+◌, Bool, true, false, List, [], ◌∷◌, Option, none, some, ◌==◌, ltb, if◌then◌else◌,
}
use cm108_driver_rust.Types.{RadioEvent, LatencyStats, ClientMsg, get_stats, ServerMsg, stats}
use cm108_driver_rust.Io.{IoResult, ok, err, Input, Outcome, Sink}
use cm108_driver_rust.Framing.{read_msg, write_msg}
use cm108_driver_rust.Gpio.{DeviceHandle, HidGpio}
use cm108_driver_rust.Ring.{Producer}
use cm108_driver_rust.Registry.{
  ClientHandle, ClientRegistry, allocate_id, register, unregister, get, modify,
  broadcast_radio_event, notify_audio_ready, broadcast_stats, send_to, oldest_gone, received,
  hung_up, connected_client,
}
use cm108_driver_rust.Server.{ClientContext, dispatch_match}

-- Where `handle_client` stands, with the identifier and the local variables that are live there: the
-- last five are inside `dispatch_client_msg`, before and behind the store of the time and, for a
-- request of statistics, behind each of the three loads.
pub data Pc : Type 0 where
  accepted : Pc
  allocated registered passed serving closing gone : ℕ → Pc
  has_read stored : ℕ → ClientMsg → Pc
  has_latency : ℕ → LatencyStats → Pc
  has_rx : ℕ → LatencyStats → ℕ → Pc
  has_tx : ℕ → LatencyStats → ℕ → ℕ → Pc

-- The writer thread: with nothing in hand, or with a message that it has taken from its queue.
pub data WriterPc : Type 0 where
  unspawned waiting ended : WriterPc
  writing : ServerMsg → WriterPc

-- `fd_sent` and `cloned` are how `send_fd` and `try_clone` will come out; `left` is what the queue
-- holds when its sender is dropped.
pub record Connection : Type 0 where
  pub pc : Pc
  pub input : Input
  pub fd_sent : Bool
  pub cloned : Bool
  pub writer : WriterPc
  pub sink : Sink
  pub left : List ServerMsg

-- The identifier of a connection: 0, which is nobody's, before it has one.
unfoldable pub id_of : Pc → ℕ
id_of accepted = 0
id_of (allocated id) = id
id_of (registered id) = id
id_of (passed id) = id
id_of (serving id) = id
id_of (closing id) = id
id_of (gone id) = id
id_of (has_read id msg) = id
id_of (stored id msg) = id
id_of (has_latency id lat) = id
id_of (has_rx id lat rx) = id
id_of (has_tx id lat rx tx) = id

-- From `register` to `unregister`.
unfoldable pub is_registered : Pc → Bool
is_registered accepted = false
is_registered (allocated id) = false
is_registered (gone id) = false
is_registered _ = true

-- The queue of a connection, in the channel while the registry has its sender.
abbrev pub queue_in : List ServerMsg → Option ClientHandle → List ServerMsg
queue_in left none = left
queue_in left (some h) = h.sender.queued

unfoldable pub queue_of : Connection → ClientRegistry → List ServerMsg
queue_of c r = queue_in c.left (get (id_of c.pc) r.clients)

-- The loop's next round.
unfoldable pub read_by : ℕ → Connection → IoResult (Option ClientMsg) × Input → Connection
read_by id c (ok (some msg), s) = record c { pc = has_read id msg; input = s }
read_by id c (ok none, s) = record c { pc = closing id; input = s }
read_by id c (err e, s) = record c { pc = closing id; input = s }

module _ {D R : Type 0} (handle : DeviceHandle D) (producer : Producer R) where
  -- Behind the store of the time: the loads for the statistics, or the rest of the dispatch.
  unfoldable pub dispatch_next :
      ℕ → ClientMsg → Connection → ClientContext D R → Connection × ClientContext D R
  dispatch_next id get_stats c ctx = (record c { pc = has_latency id ctx.last_latency }, ctx)
  dispatch_next id msg c ctx =
      (record c { pc = serving id }, dispatch_match handle producer id msg ctx)

  -- The next step of the thread of a connection, at the time `now`.
  unfoldable pub advance : Pc → ℕ → Connection → ClientContext D R → Connection × ClientContext D R
  advance accepted now c ctx =
      let (id, reg) = allocate_id ctx.registry in
      (record c { pc = allocated id }, record ctx { registry = reg })
  advance (allocated id) now c ctx = (
    record c { pc = registered id },
    record ctx { registry = register (connected_client id) ctx.registry },
  )
  advance (registered id) now c ctx =
      (record c { pc = if c.fd_sent then passed id else closing id }, ctx)
  advance (passed id) now c ctx = (
    if c.cloned
        then record c { pc = serving id; writer = waiting }
        else record c { pc = closing id },
    ctx,
  )
  advance (serving id) now c ctx = (read_by id c (read_msg false c.input), ctx)
  advance (has_read id msg) now c ctx =
      (record c { pc = stored id msg }, record ctx { last_activity_ms = now })
  advance (stored id msg) now c ctx = dispatch_next id msg c ctx
  advance (has_latency id lat) now c ctx = (record c { pc = has_rx id lat ctx.rx_xruns }, ctx)
  advance (has_rx id lat rx) now c ctx = (record c { pc = has_tx id lat rx ctx.tx_xruns }, ctx)
  advance (has_tx id lat rx tx) now c ctx = (
    record c { pc = serving id },
    record ctx { registry = send_to id (stats rx tx lat) ctx.registry },
  )
  advance (closing id) now c ctx = (
    record c { pc = gone id; left = queue_of c ctx.registry },
    record ctx { registry = unregister id ctx.registry },
  )
  advance (gone id) now c ctx = (c, ctx)

abbrev pub has_ended : Pc → Bool
has_ended (gone id) = true
has_ended _ = false

-- `for msg in msg_rx`: the next message, the end behind the last one if there is no sender any more,
-- or to wait on.
unfoldable pub take_next :
    List ServerMsg → Connection → ClientRegistry → Connection × ClientRegistry
take_next [] c r = (if has_ended c.pc then record c { writer = ended } else c, r)
take_next (msg ∷ msgs) c r = (
  record c { writer = writing msg; left = oldest_gone c.left },
  record r { clients = modify (id_of c.pc) received r.clients },
)

-- Behind `write_msg`: the loop goes on, or it is left and the receiver dropped.
unfoldable pub written_by :
    IoResult (Unit {0}) × Sink → Connection → ClientRegistry → Connection × ClientRegistry
written_by (ok _, w) c r = (record c { writer = waiting; sink = w }, r)
written_by (err e, w) c r = (
  record c { writer = ended; sink = w; left = [] },
  record r { clients = modify (id_of c.pc) hung_up r.clients },
)

-- The next step of the writer thread.
unfoldable pub write_next : WriterPc → Connection → ClientRegistry → Connection × ClientRegistry
write_next unspawned c r = (c, r)
write_next ended c r = (c, r)
write_next waiting c r = take_next (queue_of c r) c r
write_next (writing msg) c r = written_by (write_msg msg c.sink) c r

-- What the dispatch thread and the GPIO thread tell the clients.
pub data Broadcast : Type 0 where
  radio : RadioEvent → Broadcast
  audio : ℕ → Broadcast
  statistics : ℕ → ℕ → LatencyStats → Broadcast

unfoldable pub broadcast : Broadcast → ClientRegistry → ClientRegistry
broadcast (radio ev) r = broadcast_radio_event ev r
broadcast (audio seq) r = notify_audio_ready seq r
broadcast (statistics rx tx lat) r = broadcast_stats rx tx lat r

-- The connections by their numbers, as many as have been accepted.
pub record System (D R : Type 0) : Type 0 where
  pub ctx : ClientContext D R
  pub connections : ℕ → Connection
  pub count : ℕ

-- A connection is accepted, of which the input and the outcomes of the calls on its socket are given;
-- the thread or the writer thread of a connection steps; a thread of the daemon broadcasts, or it
-- changes the rest of the context in any way.
pub data Move (D R : Type 0) : Type 0 where
  accept : Input → List Outcome → Bool → Bool → Move D R
  connection : ℕ → ℕ → Move D R
  writer : ℕ → Move D R
  broadcasts : Broadcast → Move D R
  elsewhere : HidGpio → D → R → ℕ → ℕ → LatencyStats → Move D R

unfoldable pub update : (ℕ → Connection) → ℕ → Connection → ℕ → Connection
update cs k c j = if j == k then c else cs j

unfoldable pub fresh : Input → List Outcome → Bool → Bool → Connection
fresh s os fd_sent cloned = record {
  pc = accepted;
  input = s;
  fd_sent = fd_sent;
  cloned = cloned;
  writer = unspawned;
  sink = record { sent = []; outcomes = os };
  left = [];
}

module _ {D R : Type 0} (handle : DeviceHandle D) (producer : Producer R) where
  -- A move of a connection that has not been accepted is none.
  unfoldable pub move : Move D R → System D R → System D R
  move (accept s os fd_sent cloned) sys = record sys {
    connections = update sys.connections sys.count (fresh s os fd_sent cloned);
    count = sys.count + 1;
  }
  move (connection k now) sys =
      let c = sys.connections k in
      let (c', ctx') = advance handle producer c.pc now c sys.ctx in
      if ltb k sys.count
      then record sys { ctx = ctx'; connections = update sys.connections k c' }
      else sys
  move (writer k) sys =
      let c = sys.connections k in
      let (c', reg) = write_next c.writer c sys.ctx.registry in
      if ltb k sys.count
      then record sys {
        ctx = record sys.ctx { registry = reg };
        connections = update sys.connections k c';
      }
      else sys
  move (broadcasts b) sys = record sys {
    ctx = record sys.ctx { registry = broadcast b sys.ctx.registry };
  }
  move (elsewhere gpio device tx rx_xruns tx_xruns lat) sys = record sys {
    ctx = record sys.ctx {
      gpio = gpio;
      device = device;
      tx = tx;
      rx_xruns = rx_xruns;
      tx_xruns = tx_xruns;
      last_latency = lat;
    };
  }

  unfoldable pub run : List (Move D R) → System D R → System D R
  run [] sys = sys
  run (m ∷ ms) sys = run ms (move m sys)

-- The daemon before its first connection, with an empty registry.
unfoldable pub nobody : {D R : Type 0} → ClientContext D R → System D R
nobody ctx = record { ctx = ctx; connections = λ k. fresh [] [] false false; count = 0 }
