-- ===== src/Tests/Outside.antt =====
-- What is seen from outside: C programs, the command line and the USB bus.
use cm108_driver_rust.Base.{
  ℕ, ◌*◌, ◌≡◌, refl, ap, subst, true, false, Bool, List, [], ◌∷◌, ◌++◌, none, some, map, min, take,
  ◌==◌, if◌then◌else◌, arith,
}
use cm108_driver_rust.Types.{gpio_change, audio_ready, stats}
use cm108_driver_rust.Codec.Client.{client_encode}
use cm108_driver_rust.Codec.Server.{server_encode}
use cm108_driver_rust.Codec.Framed.{to_framed}
use cm108_driver_rust.Io.{byte, accepts, breaks}
use cm108_driver_rust.Client.Interface.{Cm108Client, radio_to_c, cm108_read_audio, cm108_poll_event}
use cm108_driver_rust.Client.Interface.Calls.{
  radio_of_c, radio_of_c-radio_to_c, cm108_poll_event-whole, cm108_read_audio-Answers,
}
use cm108_driver_rust.Main.{codes, text_eq, starts_with, unknown, kind, runs, rejects, parse_args}
use cm108_driver_rust.Main.Options.{
  socket_with, socket_then, level_then, written, parse_args-written,
}
use cm108_driver_rust.Gpio.{ok, err, other}
use cm108_driver_rust.Device.{
  usb, not_found, gives, refuses, Listed, Rusb, detach_match, detach_if_active, detach_all,
  take_over, open_from,
}
use cm108_driver_rust.Device.Choice.{open_cm108-first}
use cm108_driver_rust.Device.Ownership.{IsRusb, take_over-free}
use cm108_driver_rust.Tests.Data.{tone}
use cm108_driver_rust.Tests.Calls.{arrival, figures_sent, figures-length, notice_comes}

abbrev polling : Cm108Client
polling = record {
  writer = record { sent = []; outcomes = accepts ∷ breaks 2 ∷ [] };
  reader = map byte (to_framed (stats 1 2 figures_sent)) ++ [];
  last_seq = 6;
}

-- Statistics are taken off the socket and not reported.
cm108_poll_event-whole_example :
    cm108_poll_event (some polling) false ≡ (0, none, some (record polling { reader = [] }))
cm108_poll_event-whole_example =
    cm108_poll_event-whole polling (stats 1 2 figures_sent) [] (omega arith)
      (omega (arith, figures-length)) refl

radio_of_c-radio_to_c_example :
    radio_of_c (radio_to_c (gpio_change (record { mask = 9 })))
    ≡ some (gpio_change (record { mask = 9 }))
radio_of_c-radio_to_c_example = radio_of_c-radio_to_c (gpio_change (record { mask = 9 }))

abbrev listening : Cm108Client
listening = record polling { reader = arrival (audio_ready 8) }

cm108_read_audio-Answers_example :
    cm108_read_audio 2 tone (some listening) false 100
    ≡ some (
      min 100 48,
      take (min 100 48 * 2) tone.samples,
      some (record listening { reader = []; last_seq = 8 }),
    )
cm108_read_audio-Answers_example =
    cm108_read_audio-Answers 2 1 8 100 tone listening {rest = []} (omega arith) notice_comes

bad_option : kind (codes "--loud") ≡ unknown
unfolding kind text_eq starts_with
bad_option = refl

parse_args-written_example :
    (parse_args (some (codes "/a")) none (
        written
          (socket_with (codes "/b") ∷ level_then (codes "warn") ∷ socket_then (codes "/c") ∷ []))
      ≡ runs (codes "/c") (codes "warn"))
    × (parse_args (some (codes "/a")) none (
          written
            (socket_with (codes "/b") ∷ level_then (codes "warn") ∷ socket_then (codes "/c") ∷ [])
          ++ codes "--loud" ∷ [])
        ≡ rejects (codes "--loud"))
parse_args-written_example =
    parse_args-written (some (codes "/a")) none
      (socket_with (codes "/b") ∷ level_then (codes "warn") ∷ socket_then (codes "/c") ∷ [])
      (codes "--loud") [] bad_option

-- A bus with a kernel driver on the interfaces of a list.
abbrev freed : ℕ → List ℕ → List ℕ
freed i [] = []
freed i (j ∷ js) = if j == i then freed i js else j ∷ freed i js

abbrev holds : List ℕ → ℕ → Bool
holds [] i = false
holds (j ∷ js) i = if j == i then true else holds js i

abbrev linux : Rusb (List ℕ)
linux = record {
  devices = λ w. ok [];
  open_device = λ d w. (ok tt, w);
  kernel_driver_active = λ i w. ok (holds w i);
  detach_kernel_driver = λ i w. (ok tt, freed i w);
  claim_interface = λ i w. (ok tt, w);
  release_interface = λ i w. (ok tt, w);
  attach_kernel_driver = λ i w. (ok tt, i ∷ w);
}

holds-freed : (i : ℕ) (w : List ℕ) → holds (freed i w) i ≡ false
holds-freed i [] = refl
holds-freed i (j ∷ js) = ground (arith, holds-freed i js)

holds-freed_other : (i j : ℕ) (w : List ℕ) → holds w j ≡ false → holds (freed i w) j ≡ false
holds-freed_other i j [] h = refl
holds-freed_other i j (k ∷ ks) h = ground (arith, holds-freed_other i j ks)

linux-IsRusb : IsRusb linux
linux-IsRusb = record {
  bound = holds;
  says = λ i b w e. cc;
  supported = λ i w e. cc;
  detaches = λ i w w' e. subst (λ v. holds v i ≡ false) (ap (λ p. p.1) e) (holds-freed i w);
  detach_frees = λ i j w h. holds-freed_other i j w h;
  claim_frees = λ i j w h. h;
}

abbrev fob : Listed
fob = record { descriptor = ok (0x0d8c, 0x013a); bus = 1; address = 7 }

abbrev mouse : Listed
mouse = record { descriptor = ok (0x046d, 0xc077); bus = 1; address = 3 }

abbrev locked : Listed
locked = record { descriptor = err other; bus = 1; address = 4 }

open_cm108-first_example :
    (open_from linux (mouse ∷ fob ∷ locked ∷ []) [] ≡ take_over linux fob 0x013a [])
    × (open_from linux (mouse ∷ locked ∷ locked ∷ []) [] ≡ (refuses (usb other), []))
    × (open_from linux (mouse ∷ []) [] ≡ (refuses not_found, []))
open_cm108-first_example =
    open_cm108-first linux (mouse ∷ []) (locked ∷ []) fob locked (0x0d8c, 0x013a) other []
      (((0x046d, 0xc077), refl, refl), tt) refl refl refl

taken :
    take_over linux fob 0x013a (0 ∷ 2 ∷ [])
    ≡ (gives (record { pid = 0x013a; device_bus = 1; device_address = 7 }), [])
unfolding take_over detach_all detach_if_active detach_match
taken = refl

take_over-free_example : linux-IsRusb.bound [] 2 ≡ false
take_over-free_example =
    take_over-free linux linux-IsRusb fob 0x013a
      (record { pid = 0x013a; device_bus = 1; device_address = 7 }) (0 ∷ 2 ∷ []) [] 2 taken
      (omega arith)
