-- ===== src/Usbfs.antt =====
-- The usbfs interface of the kernel, crates/cm108-hal/src/usbfs.rs: the structures that it shares with
-- the program and the calls made on them. What a call returns is the kernel's choice and stands in
-- the rounds below; a buffer is named by its index, in place of its address.
pub mod Flight
pub mod Start
use cm108_driver_rust.Base.{
  ℕ, zero, suc, Option, none, some, ◌+◌, ◌*◌, ◌^◌, ◌/◌, ◌%◌, Bool, ◌&&◌, ◌++◌, List, [], ◌∷◌, ◌==◌,
  if◌then◌else◌,
}

abbrev pub usbdevfs_submiturb : ℕ
usbdevfs_submiturb = 0x8038_550a

abbrev pub usbdevfs_reapurbndelay : ℕ
usbdevfs_reapurbndelay = 0x4008_550d

abbrev pub usbdevfs_claimintf : ℕ
usbdevfs_claimintf = 0x8004_550f

abbrev pub usbdevfs_setintf : ℕ
usbdevfs_setintf = 0x8008_5504

abbrev pub usbdevfs_discardurb : ℕ
usbdevfs_discardurb = 0x0000_550b

abbrev pub urb_type_iso : ℕ
urb_type_iso = 0

pub record UsbdevfsUrb : Type 0 where
  pub typ : ℕ
  pub endpoint : ℕ
  pub pad0 : ℕ
  pub status : ℕ
  pub flags : ℕ
  pub pad1 : ℕ
  pub buffer : ℕ
  pub buffer_length : ℕ
  pub actual_length : ℕ
  pub start_frame : ℕ
  pub number_of_packets : ℕ
  pub error_count : ℕ
  pub signr : ℕ
  pub usercontext : ℕ

pub record UsbIsoPacketDesc : Type 0 where
  pub packet_length : ℕ
  pub packet_actual_length : ℕ
  pub packet_status : ℕ

pub record SingleIsoUrb : Type 0 where
  pub hdr : UsbdevfsUrb
  pub pkt : UsbIsoPacketDesc

-- `std::mem::zeroed`
abbrev pub zeroed : SingleIsoUrb
zeroed = record {
  hdr = record {
    typ = 0;
    endpoint = 0;
    pad0 = 0;
    status = 0;
    flags = 0;
    pad1 = 0;
    buffer = 0;
    buffer_length = 0;
    actual_length = 0;
    start_frame = 0;
    number_of_packets = 0;
    error_count = 0;
    signr = 0;
    usercontext = 0;
  };
  pkt = record { packet_length = 0; packet_actual_length = 0; packet_status = 0 };
}

-- What one `reap_urb` returns: the context of a block that is complete, with the status and the
-- length that the kernel has written into the block and the bytes it has written into its buffer; or
-- an error, which is `WouldBlock` if no block is complete.
pub data Reaped : Type 0 where
  completed : ℕ → ℕ → ℕ → List ℕ → Reaped
  would_block : Reaped
  fails : Reaped

-- One round of a stream's loop: what is reaped, and whether the kernel takes the block that is then
-- submitted.
abbrev pub Round : Type 0
Round = Reaped × Bool

-- The contexts of the blocks that the kernel holds: a block that is reaped comes back.
unfoldable pub come_back : ℕ → List ℕ → List ℕ
come_back i [] = []
come_back i (j ∷ js) = let rest = come_back i js in if j == i then js else j ∷ rest

-- `submit_urb`: a block that is refused stays with the program.
abbrev pub submit_urb : Bool → ℕ → List ℕ → List ℕ
submit_urb accepted i held = if accepted then i ∷ held else held

-- A thread's submissions before its loop, `n` of them left and the first of block `i`; the thread ends
-- at the first that the kernel refuses.
unfoldable pub submit_all : {S : Type 0} → (ℕ → S → S) → ℕ → ℕ → (ℕ → Bool) → S → Option S
submit_all submit zero i accepts s = some s
submit_all submit (suc n) i accepts s =
    let rest = submit_all submit n (i + 1) accepts (submit i s) in if accepts i then rest else none

-- How the set-up of a thread goes: the device is opened, its interface claimed, and its alternate
-- setting chosen.
pub record Setup : Type 0 where
  pub opened : Bool
  pub claimed : Bool
  pub switched : Bool

-- The thread ends at the first of these that fails.
abbrev pub is_set_up : Setup → Bool
is_set_up o = o.opened && (o.claimed && o.switched)

-- `{:03}` of a u8, in ASCII.
abbrev pub three_digits : ℕ → List ℕ
three_digits n = (48 + n / 100) ∷ (48 + n / 10 % 10) ∷ (48 + n % 10) ∷ []

-- The path that `open_usbfs` opens, "/dev/bus/usb/" with the two numbers.
unfoldable pub usbfs_path : ℕ → ℕ → List ℕ
usbfs_path bus addr =
    47 ∷ 100 ∷ 101 ∷ 118 ∷ 47 ∷ 98 ∷ 117 ∷ 115 ∷ 47 ∷ 117 ∷ 115 ∷ 98 ∷ 47 ∷ three_digits bus
    ++ 47 ∷ three_digits addr
