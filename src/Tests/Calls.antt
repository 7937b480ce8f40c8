-- ===== src/Tests/Calls.antt =====
-- The waiting calls of the client, with a pin event before the answer.
use cm108_driver_rust.Base.{◌≡◌, refl, sym, subst, [], ◌++◌, some, map, length, arith}
use cm108_driver_rust.Types.{LatencyStats, ServerMsg, audio_ready, stats, get_stats}
use cm108_driver_rust.Codec.Words.{to_le_bytes, push_u8, push_u32, push_u64}
use cm108_driver_rust.Codec.Traits.{to_vec}
use cm108_driver_rust.Codec.Parts.{encode_latency}
use cm108_driver_rust.Codec.Client.{client_encode}
use cm108_driver_rust.Codec.Server.{encode_server, server_encode}
use cm108_driver_rust.Codec.Framed.{to_framed}
use cm108_driver_rust.Io.{Input, byte}
use cm108_driver_rust.Io.Laws.{Delivers}
use cm108_driver_rust.Client.{returns, newer, request_stats}
use cm108_driver_rust.Client.Wait.{
  FirstStats, Answers, at_last, not_yet, figures, another, request_stats-FirstStats,
}
use cm108_driver_rust.Tests.Sockets.{
  pins_changed, pins_changed_bytes, pins_changed-length, slow, slow-Delivers, all_at_once,
}

pins_changed_comes : (s : Input) → Delivers (to_framed pins_changed) (slow 1 4 5 s) s
pins_changed_comes s =
    subst (λ bs. Delivers bs (slow 1 4 5 s) s) (sym pins_changed_bytes) (slow-Delivers 1 4 5 s)

notice-length : length (to_vec (audio_ready 8)) ≡ 9
unfolding to_vec encode_server push_u8 push_u64 to_le_bytes
notice-length = refl

abbrev pub figures_sent : LatencyStats
figures_sent = record { min_us = 3; max_us = 1000; p99_us = 1024 }

pub figures-length : length (to_vec (stats 1 2 figures_sent)) ≡ 29
unfolding to_vec encode_server encode_latency push_u8 push_u32 push_u64 to_le_bytes
figures-length = refl

abbrev pub arrival : ServerMsg → Input
arrival msg = slow 1 4 5 (map byte (to_framed msg) ++ [])

pub notice_comes : Answers (newer 6) 8 [] 1 (arrival (audio_ready 8))
unfolding newer
notice_comes =
    not_yet {msg = pins_changed} (omega arith) (omega (arith, pins_changed-length)) refl
      (pins_changed_comes (map byte (to_framed (audio_ready 8)) ++ []))
      (at_last {msg = audio_ready 8} (omega arith) (omega (arith, notice-length)) refl
        (all_at_once (to_framed (audio_ready 8)) []))

figures_come : FirstStats 1 2 figures_sent [] 1 (arrival (stats 1 2 figures_sent))
figures_come =
    another {msg = pins_changed} (omega arith) (omega (arith, pins_changed-length))
      (λ rx tx lat e. cc) (pins_changed_comes (map byte (to_framed (stats 1 2 figures_sent)) ++ []))
      (figures (omega arith) (omega (arith, figures-length))
        (all_at_once (to_framed (stats 1 2 figures_sent)) []))

request_stats-FirstStats_example :
    request_stats 2 (record { sent = []; outcomes = [] }) (arrival (stats 1 2 figures_sent)) ≡ (
      some (returns (1, 2, figures_sent), []),
      record { sent = [] ++ to_framed get_stats; outcomes = [] },
    )
request_stats-FirstStats_example =
    request_stats-FirstStats 2 1 1 2 figures_sent [] {s = arrival (stats 1 2 figures_sent)}
      {rest = []} (omega arith) figures_come
