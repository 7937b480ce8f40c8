-- ===== src/Types.antt =====
-- The shared data types, crates/cm108-types/src/lib.rs. An integer of w bits is a native number
-- with its range stated apart (`IsU8` and so on); an i16 is its two's complement bit pattern.
pub mod Flags
use cm108_driver_rust.Base.{
  ℕ, ◌*◌, ◌<◌, ◌^◌, ◌≡◌, ◌≤◌, Bool, not, List, [], ◌∷◌, length, replicate, All, ◌==◌, bit_and,
  bit_or,
}

abbrev pub IsU8 : ℕ → Type 0
IsU8 n = n < 2 ^ 8

abbrev pub IsU16 : ℕ → Type 0
IsU16 n = n < 2 ^ 16

abbrev pub IsU32 : ℕ → Type 0
IsU32 n = n < 2 ^ 32

abbrev pub IsU64 : ℕ → Type 0
IsU64 n = n < 2 ^ 64

-- USB constants.
abbrev pub cm108_vid : ℕ
cm108_vid = 0x0d8c

abbrev pub cm108_pids : List ℕ
cm108_pids = 0x001f ∷ 0x0105 ∷ 0x0107 ∷ 0x010f ∷ 0x0115 ∷ 0x013a ∷ 0x013c ∷ []

abbrev pub iface_audio_ctrl : ℕ
iface_audio_ctrl = 0

abbrev pub iface_audio_out : ℕ
iface_audio_out = 1

abbrev pub iface_audio_in : ℕ
iface_audio_in = 2

abbrev pub iface_hid : ℕ
iface_hid = 3

abbrev pub ep_iso_out : ℕ
ep_iso_out = 0x01

abbrev pub ep_iso_in : ℕ
ep_iso_in = 0x82

abbrev pub ep_hid_in : ℕ
ep_hid_in = 0x87

abbrev pub frame_bytes : ℕ
frame_bytes = 192

abbrev pub samples_per_frame : ℕ
samples_per_frame = 48

-- One millisecond of stereo audio: the array of `samples_per_frame * 2` interleaved i16 samples.
pub record AudioFrame : Type 0 where
  pub samples : List ℕ

unfoldable pub default_frame : AudioFrame
default_frame = record { samples = replicate (samples_per_frame * 2) 0 }

-- What the array type of the source gives: 96 samples, each a 16-bit pattern.
pub record IsFrame (f : AudioFrame) : Type 0 where
  pub count : length f.samples ≡ samples_per_frame * 2
  pub ranged : All IsU16 f.samples

-- Bitmask of the pins GPIO1 to GPIO4; bit 0 is GPIO1, the PTT pin.
pub record GpioState : Type 0 where
  pub mask : ℕ

-- `self.0 & (1 << n) != 0`, for `n < 8`; the code asserts `n < 4` in debug builds.
unfoldable pub pin : GpioState → ℕ → Bool
pin g n = not (bit_and g.mask (2 ^ n) == 0)

pub data RadioEvent : Type 0 where
  ptt_assert : RadioEvent
  ptt_deassert : RadioEvent
  cos_active : RadioEvent
  cos_inactive : RadioEvent
  gpio_change : GpioState → RadioEvent

pub record LatencyStats : Type 0 where
  pub min_us : ℕ
  pub max_us : ℕ
  pub p99_us : ℕ

abbrev pub default_stats : LatencyStats
default_stats = record { min_us = 0; max_us = 0; p99_us = 0 }

-- Bitmask of the streams that a client subscribes to.
pub record StreamFlags : Type 0 where
  pub bits : ℕ

abbrev pub audio_in : StreamFlags
audio_in = record { bits = 0b0001 }

abbrev pub audio_out : StreamFlags
audio_out = record { bits = 0b0010 }

abbrev pub gpio_events : StreamFlags
gpio_events = record { bits = 0b0100 }

abbrev pub no_streams : StreamFlags
no_streams = record { bits = 0 }

unfoldable pub contains : StreamFlags → StreamFlags → Bool
contains s t = bit_and s.bits t.bits == t.bits

unfoldable pub from_bits_truncate : ℕ → StreamFlags
from_bits_truncate v = record { bits = bit_and v 0b0111 }

unfoldable pub bitor : StreamFlags → StreamFlags → StreamFlags
bitor s t = record { bits = bit_or s.bits t.bits }

pub data ClientMsg : Type 0 where
  subscribe : StreamFlags → ClientMsg
  set_gpio : ℕ → Bool → ClientMsg
  audio_write : List AudioFrame → ClientMsg
  ping : ClientMsg
  get_stats : ClientMsg

-- A `String` of the source is its UTF-8 bytes.
abbrev pub Text : Type 0
Text = List ℕ

pub data ServerMsg : Type 0 where
  audio_ready : ℕ → ServerMsg
  radio_event : RadioEvent → ServerMsg
  stats : ℕ → ℕ → LatencyStats → ServerMsg
  pong : ServerMsg
  error : Text → ServerMsg

-- The ranges that the field types of the source give.
abbrev pub IsEvent : RadioEvent → Type 0
IsEvent (gpio_change g) = IsU8 g.mask
IsEvent _ = Unit

abbrev pub IsStats : LatencyStats → Type 0
IsStats s = IsU32 s.min_us × IsU32 s.max_us × IsU32 s.p99_us
