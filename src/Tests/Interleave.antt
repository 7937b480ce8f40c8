-- ===== src/Tests/Interleave.antt =====
-- Two clients of the daemon, whose threads interleave.
use cm108_driver_rust.Base.{
  ℕ, ◌<◌, ◌≡◌, refl, sym, subst, true, false, List, [], ◌∷◌, ◌++◌, some, length, take, arith,
}
use mathlib.Core.List.{Sublist}
use cm108_driver_rust.Types.{
  AudioFrame, default_stats, ServerMsg, cos_active, from_bits_truncate, contains,
}
use cm108_driver_rust.Codec.Words.{from_le_bytes, read_u8}
use cm108_driver_rust.Codec.Traits.{from_bytes}
use cm108_driver_rust.Codec.Parts.{decode_flags}
use cm108_driver_rust.Codec.Client.{decode_client, client_of_tag}
use cm108_driver_rust.Io.{byte, Input, read_exact}
use cm108_driver_rust.Framing.{read_msg, client_prefix, client_body}
use cm108_driver_rust.Registry.{
  new, ClientHandle, sync_channel, get, allocate_id, register, connected_client, insert, modify,
  set_streams, update_streams, broadcast_radio_event, notify_audio_ready, offer_on, offer, try_send,
  unregister, remove,
}
use cm108_driver_rust.Server.{ClientContext, dispatch_match}
use cm108_driver_rust.Server.Writer.{stream, Streams}
use cm108_driver_rust.Server.Threads.{
  Move, accept, connection, writer, broadcasts, radio, audio, System, run, nobody, id_of,
  is_registered, queue_of, waiting, closing, fresh, update, advance, dispatch_next, read_by, move,
  broadcast,
}
use cm108_driver_rust.Server.Threads.Owners.{Owned}
use cm108_driver_rust.Server.Threads.Owners.Run.{run-Owned}
use cm108_driver_rust.Server.Threads.Isolation.Still.{heard, run-heard}
use cm108_driver_rust.Server.Threads.Fifo.{offered_in, in_hand}
use cm108_driver_rust.Server.Threads.Fifo.Run.{run-Fifo}
use cm108_driver_rust.Server.Threads.Fifo.Drain.{turns}
use cm108_driver_rust.Server.Threads.Told.{run-told}
use cm108_driver_rust.Codec.Server.{server_encode, encode_server}
use cm108_driver_rust.Codec.Parts.{encode_event}
use cm108_driver_rust.Codec.Words.{push_u8, push_u64, to_le_bytes}
use cm108_driver_rust.Codec.Traits.{to_vec}
use cm108_driver_rust.Types.{radio_event, audio_ready}
use cm108_driver_rust.Client.{returns}
use cm108_driver_rust.Server.Writer.{wait_all}
use cm108_driver_rust.Base.{map}
use cm108_driver_rust.Tests.Sockets.{all_at_once}
use cm108_driver_rust.Tests.Data.{everything}
use cm108_driver_rust.Tests.Pins.{Board, board_handle, board, pc_ok}
use cm108_driver_rust.Tests.Clients.{two_slots}

abbrev idle_daemon : ClientContext Board (List AudioFrame)
idle_daemon = record {
  registry = new;
  gpio = pc_ok;
  device = board;
  tx = [];
  rx_xruns = 0;
  tx_xruns = 0;
  last_latency = default_stats;
  last_activity_ms = 0;
}

-- A subscription to everything, and then a ping.
abbrev wishes : Input
wishes =
    byte 2
    ∷ byte 0
    ∷ byte 0
    ∷ byte 0
    ∷ byte 0
    ∷ byte 7
    ∷ byte 1
    ∷ byte 0
    ∷ byte 0
    ∷ byte 0
    ∷ byte 3
    ∷ []

-- The first client subscribes while the second connects.
abbrev joining : List (Move Board (List AudioFrame))
joining =
    accept wishes [] true true
    ∷ accept [] [] false true
    ∷ connection 0 1
    ∷ connection 1 1
    ∷ connection 1 1
    ∷ connection 0 1
    ∷ connection 0 2
    ∷ connection 0 2
    ∷ connection 0 2
    ∷ connection 0 3
    ∷ connection 1 3
    ∷ connection 0 3
    ∷ []

abbrev joined : System Board (List AudioFrame)
joined = run board_handle two_slots joining (nobody idle_daemon)

run-Owned_example : Owned joined.connections joined.ctx.registry
run-Owned_example = run-Owned board_handle two_slots joining idle_daemon refl (omega arith)

abbrev first_client : ClientHandle
first_client = record { id = 1; streams = everything; sender = sync_channel 128 }

joined_count : joined.count ≡ 2
unfolding run move nobody
joined_count = refl

-- The first client is in its loop, subscribed; the second one's descriptor could not be sent.
joined_first :
    (is_registered (joined.connections 0).pc ≡ true)
    × (get (id_of (joined.connections 0).pc) joined.ctx.registry.clients ≡ some first_client)
    × ((joined.connections 0).writer ≡ waiting)
    × ((joined.connections 0).sink.outcomes ≡ [])
    × ((joined.connections 1).pc ≡ closing 2)
unfolding run is_registered id_of move nobody fresh update advance dispatch_next read_by read_msg
    client_prefix client_body read_exact from_le_bytes from_bytes decode_client read_u8
    client_of_tag decode_flags from_bits_truncate dispatch_match allocate_id register
    connected_client sync_channel insert get modify set_streams update_streams new
joined_first = (refl, refl, refl, refl, refl)

-- Two broadcasts, while the second connection leaves.
abbrev news : List (Move Board (List AudioFrame))
news = broadcasts (radio cos_active) ∷ connection 1 4 ∷ broadcasts (audio 2) ∷ []

run-heard_example :
    let sys' = run board_handle two_slots news joined in
    (sys'.connections 0 ≡ joined.connections 0)
    × (get (id_of (joined.connections 0).pc) sys'.ctx.registry.clients
        ≡ some (record first_client {
          sender = record first_client.sender {
            queued = take 128 (first_client.sender.queued ++ heard first_client.streams news);
          };
        }))
run-heard_example =
    run-heard board_handle two_slots joining news idle_daemon 0 first_client refl (omega arith)
      (subst (λ (n : ℕ). 0 < n) (sym joined_count) (omega arith)) joined_first.0 joined_first.1
      (unfold sync_channel in refl) (tt, ((λ e. omega arith), (tt, tt)))

-- The writer takes the first notice and has written it when a pong is queued.
abbrev busy : List (Move Board (List AudioFrame))
busy =
    joining ++ (news ++ writer 0 ∷ connection 0 5 ∷ writer 0 ∷ connection 0 5 ∷ connection 0 5 ∷ [])

run-Fifo_example :
    let sys = run board_handle two_slots busy (nobody idle_daemon) in
    let c = sys.connections 0 in
    (taken : List ServerMsg) × Streams [] taken c.sink
    × Sublist
        (taken ++ (in_hand c.writer ++ queue_of c sys.ctx.registry))
        (offered_in board_handle two_slots 0 busy (nobody idle_daemon))
run-Fifo_example = run-Fifo board_handle two_slots busy idle_daemon 0 refl (omega arith)

abbrev hearing : System Board (List AudioFrame)
hearing = run board_handle two_slots news joined

hearing_first :
    (hearing.count ≡ 2)
    × ((hearing.connections 0).writer ≡ waiting)
    × ((hearing.connections 0).sink.outcomes ≡ [])
    × (length (queue_of (hearing.connections 0) hearing.ctx.registry) ≡ 2)
unfolding run is_registered id_of move nobody fresh update advance dispatch_next read_by read_msg
    client_prefix client_body read_exact from_le_bytes from_bytes decode_client read_u8
    client_of_tag decode_flags from_bits_truncate dispatch_match allocate_id register
    connected_client sync_channel insert get modify set_streams update_streams new queue_of
    broadcast broadcast_radio_event notify_audio_ready offer_on offer try_send unregister remove
    contains
hearing_first = (refl, refl, refl, refl)

cos-length : length (to_vec (radio_event cos_active)) ≡ 2
unfolding to_vec encode_server encode_event push_u8
cos-length = refl

ready-length : length (to_vec (audio_ready 2)) ≡ 9
unfolding to_vec encode_server push_u8 push_u64 to_le_bytes
ready-length = refl

run-told_example :
    let told : List ServerMsg =
      take 128 (first_client.sender.queued ++ heard first_client.streams news) in
    let c = (run board_handle two_slots (news ++ turns 0 told) joined).connections 0 in
    (c.sink.sent ≡ (joined.connections 0).sink.sent ++ stream told)
    × (wait_all (length told) (map byte (stream told) ++ byte 9 ∷ [])
        ≡ (map (λ m. returns (some m)) told, byte 9 ∷ []))
unfolding contains sync_channel
run-told_example =
    run-told board_handle two_slots joining news idle_daemon 0 first_client
      (map byte (stream (radio_event cos_active ∷ audio_ready 2 ∷ [])) ++ byte 9 ∷ []) (byte 9 ∷ [])
      refl (omega arith) (subst (λ (n : ℕ). 0 < n) (sym joined_count) (omega arith)) joined_first.0
      joined_first.1 refl joined_first.2 joined_first.3 (tt, ((λ e. omega arith), (tt, tt)))
      (omega arith, (omega arith, tt))
      (omega (arith, cos-length), (omega (arith, ready-length), tt))
      (all_at_once (stream (radio_event cos_active ∷ audio_ready 2 ∷ [])) (byte 9 ∷ []))
