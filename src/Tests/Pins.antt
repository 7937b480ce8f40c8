-- ===== src/Tests/Pins.antt =====
-- The pins, with a device that records the transfers and plays back reports.
use cm108_driver_rust.Base.{ℕ, ◌≡◌, refl, true, List, [], ◌∷◌, ◌==◌, if◌then◌else◌, arith}
use cm108_driver_rust.Types.{IsU8, ptt_assert, cos_active, gpio_change, pin}
use cm108_driver_rust.Gpio.{
  timeout, UsbResult, ok, err, ControlWrite, DeviceHandle, as_done, HidGpio, set_pin, read_state,
  report_state, change_events, poll_round, poll_loop,
}
use cm108_driver_rust.Gpio.Pins.{out_pin, set_pin-pins}
use cm108_driver_rust.Gpio.Poller.{view_of, follow, IsNews, results, last_state, poll_loop-follow}

-- The reports to come and the transfers made.
abbrev pub Board : Type 0
Board = List ℕ × List ControlWrite

abbrev pub board_handle : DeviceHandle Board
board_handle = record {
  write_control = λ c d. (ok 4, (d.0, c ∷ d.1));
  read_interrupt = λ endpoint buf wait d. play d;
}
  where
    play : Board → UsbResult ℕ × List ℕ × Board
    play ([], writes) = (err timeout, [], ([], writes))
    play (r ∷ rs, writes) = (ok 4, 0 ∷ r ∷ 0 ∷ 0 ∷ [], (rs, writes))

abbrev pub board : Board
board = (0b0001 ∷ 0b0001 ∷ 0b0011 ∷ [], [])

abbrev pub pc_ok : HidGpio
pc_ok = record { gpio_out = 0b1000; gpio_dir = 0b1001 }

set_pin-pins_example :
    (out : ℕ) × IsU8 out
    × (out_pin out 3 ≡ (if 3 == 0 then true else out_pin pc_ok.gpio_out 3))
    × (let sent =
          board_handle.write_control
            (record {
              request_type = 33;
              request = 9;
              value = 512;
              index = 3;
              data_bytes = 0 ∷ out ∷ 0b1001 ∷ 0 ∷ [];
              timeout_ms = 100;
            })
            board in
        set_pin board_handle 0 true pc_ok board
        ≡ (as_done sent.0, record { gpio_out = out; gpio_dir = 0b1001 }, sent.1))
set_pin-pins_example =
    set_pin-pins board_handle 0 3 true pc_ok board (omega arith) (omega arith) (omega arith)

-- PTT on, no change, COS on, and then timeouts.
poll_loop_test :
    (poll_loop board_handle 5 (record { mask = 0 }) board).1
    ≡ ptt_assert
      ∷ gpio_change (record { mask = 1 })
      ∷ cos_active
      ∷ gpio_change (record { mask = 3 })
      ∷ []
unfolding poll_loop read_state report_state poll_round change_events pin
poll_loop_test = refl

poll_loop-follow_example :
    let (last, events, d') = poll_loop board_handle 5 (record { mask = 0 }) board in
    (last ≡ last_state (record { mask = 0 }) (results board_handle 5 board))
    × (follow (view_of (record { mask = 0 })) events ≡ view_of last)
    × IsNews (view_of (record { mask = 0 })) events
poll_loop-follow_example = poll_loop-follow board_handle 5 (record { mask = 0 }) board
