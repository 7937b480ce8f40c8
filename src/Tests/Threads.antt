-- ===== src/Tests/Threads.antt =====
-- The threads of the daemon: dispatch, heartbeat, and the writer of a connection.
use cm108_driver_rust.Base.{
  ◌+◌, ◌^◌, ◌≡◌, true, false, List, [], ◌∷◌, ◌++◌, some, map, replicate, arith,
}
use cm108_driver_rust.Types.{default_frame, ServerMsg, cos_active}
use cm108_driver_rust.Io.{byte, breaks, accepts, Sink}
use cm108_driver_rust.Gpio.Pins.{out_pin}
use cm108_driver_rust.Registry.{radio, apply_all}
use cm108_driver_rust.Shmem.{Memory, idle, starting, returned, read, run}
use cm108_driver_rust.Shmem.Raw.{default-IsFrame}
use cm108_driver_rust.Daemon.{Moment, takes, sleeps, elsewhere, dispatch_run, booted}
use cm108_driver_rust.Daemon.Windows.{Knows}
use cm108_driver_rust.Daemon.Notices.{
  ops_of, latencies, last_frame, dispatch_run-Knows, dispatch_run-read,
}
use cm108_driver_rust.Daemon.Heartbeat.{
  Pulse, beats, commands, Lamp, pulse_run, commanded, pulse_run-commanded,
}
use cm108_driver_rust.Client.{returns}
use cm108_driver_rust.Server.Writer.{stream, wait_all, wait_all-stream}
use cm108_driver_rust.Tests.Data.{tone, tone-IsFrame}
use cm108_driver_rust.Tests.Clients.{two_clients}
use cm108_driver_rust.Tests.Pins.{Board, board_handle, board, pc_ok}
use cm108_driver_rust.Tests.Sockets.{pins_changed, pins_changed-length, all_at_once}

abbrev zeros : Memory
zeros = record { seq = 0; cells = replicate 192 0 }

-- Two frames, with a pause and a broadcast between them.
abbrev moments : List Moment
moments =
    takes default_frame 17 0 0
    ∷ sleeps
    ∷ elsewhere (radio cos_active)
    ∷ takes tone (2 ^ 32 + 5) 1 0
    ∷ []

dispatch_run-Knows_example :
    let s = dispatch_run moments (booted two_clients) in
    (s.registry ≡ apply_all (ops_of [] moments) two_clients)
    × Knows (last_frame default_frame moments) (latencies [] moments) s
dispatch_run-Knows_example = dispatch_run-Knows moments two_clients (omega arith)

dispatch_run-read_example :
    (run
      (record {
        mem = (dispatch_run moments (booted two_clients)).shmem;
        writer = idle;
        reader = starting;
      })
      (replicate 194 read)).1
    ≡ returned tone ∷ []
dispatch_run-read_example =
    dispatch_run-read moments two_clients (omega arith) (default-IsFrame, (tone-IsFrame, tt))

-- PTT is set between two beats.
abbrev pulses : List Pulse
pulses = beats 5000 4000 ∷ commands 0 true ∷ beats 9000 4000 ∷ []

abbrev lamp : Lamp Board
lamp = record { pin_state = false; gpio = pc_ok; device = board; slept_ms = 0 }

pulse_run-commanded_example :
    (out_pin (pulse_run board_handle pulses lamp).gpio.gpio_out 0
      ≡ commanded 0 (out_pin pc_ok.gpio_out 0) pulses)
    × ((pulse_run board_handle pulses lamp).gpio.gpio_dir ≡ pc_ok.gpio_dir)
pulse_run-commanded_example =
    pulse_run-commanded board_handle pulses 0 lamp (λ e. omega arith) (omega arith) (omega arith)
      (omega arith, tt)

-- The socket breaks in the second packet.
abbrev breaking : Sink
breaking = record { sent = []; outcomes = accepts ∷ accepts ∷ accepts ∷ breaks 1 ∷ [] }

abbrev answers : List ServerMsg
answers = pins_changed ∷ pins_changed ∷ []

wait_all-stream_example :
    wait_all 2 (map byte (stream answers) ++ byte 9 ∷ [])
    ≡ (returns (some pins_changed) ∷ returns (some pins_changed) ∷ [], byte 9 ∷ [])
wait_all-stream_example =
    wait_all-stream answers (map byte (stream answers) ++ byte 9 ∷ []) (byte 9 ∷ [])
      (omega arith, (omega arith, tt))
      (omega (arith, pins_changed-length), (omega (arith, pins_changed-length), tt))
      (all_at_once (stream answers) (byte 9 ∷ []))
