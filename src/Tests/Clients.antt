-- ===== src/Tests/Clients.antt =====
-- Clients of the daemon, with a ring of two slots.
use cm108_driver_rust.Base.{
  ℕ, ◌+◌, ◌-◌, ◌%◌, ◌^◌, ◌≡◌, refl, true, List, [], ◌∷◌, ◌++◌, none, some, ltb, lt→ltb, le→ltb,
  if◌then◌else◌, if-true, if-false, length, length-append, take, arith,
}
use cm108_driver_rust.Types.{
  AudioFrame, default_frame, audio_in, set_gpio, audio_write, pong, cos_active,
}
use cm108_driver_rust.Codec.Client.{client_encode}
use cm108_driver_rust.Io.{Input, byte, pause, fails}
use cm108_driver_rust.Gpio.{poll_loop}
use cm108_driver_rust.Registry.{
  sync_channel, ClientHandle, get, ClientRegistry, new, allocate_id, register, unregister, Op,
  connect, disconnect, subscribes, radio, audio, reply, receive, connected_client, apply_all,
}
use cm108_driver_rust.Registry.Inv.{IsRegistry, apply_all-IsRegistry}
use cm108_driver_rust.Server.{ClientContext, dispatch_client_msg, handle_client}
use cm108_driver_rust.Ring.{Producer, IsRing}
use cm108_driver_rust.Server.Dispatch.{dispatch-audio_write}
use cm108_driver_rust.Server.Connection.{handle_client-leaves}
use cm108_driver_rust.Server.Session.{
  Session, ended, then_comes, dispatch_all, handle_client-Session,
}
use cm108_driver_rust.Server.Events.{broadcast_all, gpio_thread, gpio_thread-poll_loop}
use cm108_driver_rust.Tests.Data.{tone, everything}
use cm108_driver_rust.Tests.Pins.{Board, board_handle, board, pc_ok}
use cm108_driver_rust.Tests.Sockets.{slow, ptt_on_comes, ptt_on_length}

-- Two clients connect, one subscribes, messages are sent, the other leaves.
abbrev some_ops : List Op
some_ops =
    connect
    ∷ connect
    ∷ subscribes 1 everything
    ∷ audio 2
    ∷ reply 2 pong
    ∷ radio cos_active
    ∷ receive 1
    ∷ disconnect 2
    ∷ []

apply_all-IsRegistry_example : IsRegistry (apply_all some_ops new)
apply_all-IsRegistry_example = apply_all-IsRegistry some_ops (omega arith)

abbrev pub two_clients : ClientRegistry
two_clients = record {
  clients =
      record { id = 1; streams = everything; sender = sync_channel 128 }
      ∷ record { id = 2; streams = audio_in; sender = sync_channel 128 }
      ∷ [];
  next_id = 3;
}

two_clients-IsRegistry : IsRegistry two_clients
unfolding sync_channel
two_clients-IsRegistry = record {
  entries = (
    record { given = omega arith; bound = refl; queued = omega arith },
    (record { given = omega arith; bound = refl; queued = omega arith }, tt),
  );
  distinct = ((λ e. omega arith, tt), (tt, tt));
  positive = omega arith;
}

abbrev second : ClientHandle
second = record { id = 2; streams = audio_in; sender = sync_channel 128 }

second_found : get 2 two_clients.clients ≡ some second
unfolding get
second_found = refl

abbrev pub two_slots : Producer (List AudioFrame)
two_slots = record { push = λ r f. if ltb (length r) 2 then some (r ++ f ∷ []) else none }

abbrev pub two_slots_ring : IsRing two_slots
two_slots_ring = record {
  queued = λ r. r;
  slots = λ r. 2 - length r;
  push_full = λ r f e. if-false _ _ (le→ltb (length r) 2 (omega arith));
  push_room = λ r f h. (
    r ++ f ∷ [],
    if-true _ _ (lt→ltb (length r) 2 (omega arith)),
    refl,
    omega (arith, length-append r (f ∷ [])),
  );
}

abbrev context : ClientContext Board (List AudioFrame)
context = record {
  registry = two_clients;
  gpio = pc_ok;
  device = board;
  tx = default_frame ∷ [];
  rx_xruns = 5;
  tx_xruns = 2 ^ 64 - 1;
  last_latency = record { min_us = 1; max_us = 9; p99_us = 16 };
  last_activity_ms = 0;
}

-- One of the two frames fits, and the counter wraps around.
dispatch-audio_write_example :
    let ctx' =
      dispatch_client_msg board_handle two_slots 1 (audio_write (tone ∷ tone ∷ [])) 50 context in
    (ctx'.tx ≡ (default_frame ∷ []) ++ take (2 - 1) (tone ∷ tone ∷ []))
    × (ctx'.tx_xruns ≡ ((2 ^ 64 - 1) + (2 - (2 - 1))) % 2 ^ 64)
    × (ctx'.registry ≡ two_clients)
    × (ctx'.gpio ≡ pc_ok)
dispatch-audio_write_example =
    dispatch-audio_write board_handle two_slots two_slots_ring 50 1 (tone ∷ tone ∷ []) context
      (omega arith)

gpio_thread-poll_loop_example :
    let (last, events, d') = poll_loop board_handle 5 (record { mask = 0 }) board in
    gpio_thread board_handle 5 (record { mask = 0 }) board two_clients
    ≡ (last, broadcast_all events two_clients, d')
gpio_thread-poll_loop_example =
    gpio_thread-poll_loop board_handle 5 (record { mask = 0 }) board two_clients

-- A prefix, a pause, and a failure of the socket.
abbrev failing : Input
failing = byte 1 ∷ byte 0 ∷ pause ∷ fails ∷ byte 0 ∷ []

handle_client-leaves_example :
    (ctx' : ClientContext Board (List AudioFrame)) × (handle_client board_handle two_slots 6 true
        true
        (λ s. 50)
        failing
        context
      ≡ some ctx')
    × IsRegistry ctx'.registry
    × (get 3 ctx'.registry.clients ≡ none)
    × (get 2 ctx'.registry.clients ≡ get 2 two_clients.clients)
handle_client-leaves_example =
    handle_client-leaves board_handle two_slots 6 true true (λ s. 50) 2 failing context
      (omega arith) two_clients-IsRegistry (omega arith) (λ e. omega arith)

-- PTT on, twice, at times that are the number of bytes still to come.
abbrev twice : Input
twice = slow 1 0 1 (slow 1 0 1 [])

abbrev times : Input → ℕ
times s = length s

twice-Session : Session times ((set_gpio 0 true, 10) ∷ (set_gpio 0 true, 0) ∷ []) twice
twice-Session =
    then_comes (omega arith) (omega (arith, ptt_on_length)) (ptt_on_comes (slow 1 0 1 []))
      (then_comes (omega arith) (omega (arith, ptt_on_length)) (ptt_on_comes []) ended)

handle_client-Session_example :
    let (id, reg) = allocate_id two_clients in
    let joined : ClientContext Board (List AudioFrame) = record context {
      registry = register (connected_client id) reg;
    } in
    let last : ClientContext Board (List AudioFrame) =
      dispatch_all board_handle two_slots id
        ((set_gpio 0 true, 10) ∷ (set_gpio 0 true, 0) ∷ [])
        joined in
    handle_client board_handle two_slots 21 true true times twice context
    ≡ some (record last { registry = unregister id last.registry })
handle_client-Session_example =
    handle_client-Session board_handle two_slots 21 times
      ((set_gpio 0 true, 10) ∷ (set_gpio 0 true, 0) ∷ []) twice context (omega arith) twice-Session
