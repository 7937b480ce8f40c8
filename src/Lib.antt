-- ===== src/Lib.antt =====
-- A model of the CM108 driver: the daemon cm108d, which owns a CM108 USB sound fob, and the library by
-- which clients talk to it over a Unix socket and a shared memory page.
--
-- The daemon takes the device from the kernel's drivers. A receiving thread turns the packets of the
-- device into frames and puts them into a ring, from which the dispatch thread writes each into
-- shared memory under a seqlock and notifies the subscribed clients; a sending thread takes the
-- frames that clients write from another ring. The daemon polls the pins and broadcasts their
-- changes; and it serves each client on a thread of its own, which reads length-prefixed messages,
-- dispatches them and answers through a bounded queue, which a writer thread empties to the socket.
--
-- The files:
--   Base                 natives and library names that the others share, with Base/Tests (Boolean
--                        tests, options), Base/Lists, Base/Index and Base/Bits (lemmas).
--   Types                crates/cm108-types/src/lib.rs: frames, pins, flag sets, events, messages.
--   Codec                crates/cm108-types/src/codec.rs: Words (push_ and read_ helpers), Traits
--                        (Encode, Decode), Frame, Parts, Client, Server (their instances, one
--                        function for encode and one for decode), Framed (to_framed, from_framed).
--   Io                   what the program uses of std::io: read_exact and write_all.
--   Framing              write_msg and read_msg of crates/cm108-server/src/ipc.rs; write_client_msg
--                        and read_server_msg of crates/cm108-client/src/framing.rs; poll_msg of
--                        crates/cm108-client/src/client.rs.
--   Latency              crates/cm108-server/src/latency.rs: LatencyHistogram.
--   Shmem                AudioShmem::write of crates/cm108-server/src/shmem.rs and
--                        RxShmem::read_frame of crates/cm108-client/src/client.rs; Mapping has how
--                        either side makes and drops its mapping.
--   Ring                 what the program uses of rtrb: Producer, Consumer, and pushing frames.
--   Usbfs                crates/cm108-hal/src/usbfs.rs: the structures, and who holds a block (Flight);
--                        Start has the submissions before the loops.
--   Iso                  crates/cm108-hal/src/iso_stream.rs: Format (bytes_to_frame, frame_to_mono),
--                        Rx (spawn_rx_thread), Tx (spawn_tx_thread).
--   Gpio                 crates/cm108-hal/src/hid_gpio.rs: HidGpio and the poller.
--   Registry             ClientRegistry of crates/cm108-server/src/ipc.rs.
--   Server               handle_client and dispatch_client_msg of crates/cm108-server/src/ipc.rs, and
--                        the GPIO thread of crates/cm108-server/src/server.rs; Writer has the
--                        writer thread of a connection and the client's end of its socket. Threads
--                        has the same handler step by step, with the threads of all connections and
--                        of the daemon interleaved: who owns an entry of the registry (Owners), what
--                        other threads do to a client (Isolation), and what a socket carries (Fifo).
--   Daemon               the dispatch thread of crates/cm108-server/src/server.rs; Heartbeat has its
--                        heartbeat thread, Pipeline the path from the receiving thread through the
--                        ring to the dispatch thread, step by step, Playback that from the clients through the
--                        other ring to the sending thread, and Boot the start of the daemon up to its
--                        accept loop.
--   Client               the calls of Cm108Client in crates/cm108-client/src/client.rs; Interface has
--                        the C interface, crates/cm108-client/src/ffi.rs, and Connect how a client
--                        gets the descriptor of the shared memory; Errors shows its errors, of
--                        crates/cm108-client/src/lib.rs.
--   Device               crates/cm108-hal/src/device.rs: finding, taking over and giving back the device.
--   Hal                  crates/cm108-hal/src/lib.rs and rt.rs: errors, logging and scheduling.
--   Main                 crates/cm108-server/src/main.rs: the arguments and the log level.
--   Tests                runs at concrete inputs.
--
-- State and operations. A `&mut` or a lock is a state that is passed along; the operations that hold
-- one lock are one step. Integers are native numbers with the wrap-around of their width written
-- out, and a predicate for their range (IsU8 and so on). An i16 is its two's complement pattern, a
-- String its UTF-8 bytes, a hash map the list of its values. Overflow and shifts are those of a
-- build without overflow checks; debug assertions are left out.
--
-- Parameters. The operations of rusb (Gpio.DeviceHandle, Device.Rusb), of rtrb (Ring.Producer,
-- Ring.Consumer) and of the system (Shmem.Mapping.Kernel, Daemon.Boot.Host, Hal.Scheduler) are
-- arguments; what is documented of them are the hypotheses Ring.IsRing, Ring.IsQueue, Ring.IsChannel,
-- Device.Ownership.IsRusb, Shmem.Mapping.Owned.IsKernel and Daemon.Boot.Memory.IsHost. What the
-- kernel returns to the streaming threads is a list of rounds, and the hypotheses
-- Usbfs.Flight.Returned and Iso.Rx.Frames.Fits say what is documented of it. The times of the clock
-- are arguments too, and in Daemon and Daemon.Notices what the dispatch thread takes from its ring.
--
-- Bounds and fuel. The waiting calls of the client run on fuel, of which one round for each message
-- is enough. The loop of a connection runs on fuel too; more rounds than the input is long are
-- enough, since every message that is read takes a byte at least. The logarithm of a u32 takes 32
-- rounds. The seqlock is stated for fewer than 2 ^ 63 steps, before its counter can wrap around, the
-- registry and the dispatch thread for fewer than 2 ^ 63 steps, the percentile for fewer than 2 ^ 57
-- samples, where the product with 99 cannot wrap around.
--
-- Not modelled: weak memory (the steps of the seqlock are sequentially consistent); what the kernel
-- does in a system call; the examples and the packaging.
-- The functions of Server run a connection without steps of other threads in between;
-- Server.Threads has them. The functions of Daemon and Daemon.Notices run a round of the dispatch
-- thread without steps of other threads in between; Daemon.Pipeline has its single steps, of which the
-- write of a frame to memory is one: Shmem has its bytes.
pub mod Base
pub mod Types
pub mod Codec
pub mod Io
pub mod Framing
pub mod Latency
pub mod Shmem
pub mod Gpio
pub mod Ring
pub mod Usbfs
pub mod Iso
pub mod Daemon
pub mod Main
pub mod Device
pub mod Hal
pub mod Registry
pub mod Server
pub mod Client
pub mod Tests
