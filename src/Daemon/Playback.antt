-- ===== src/Daemon/Playback.antt =====
-- The path from the clients to the device: what `AudioWrite` messages put into the ring in
-- crates/cm108-server/src/ipc.rs, and the sending thread of crates/cm108-hal/src/iso_stream.rs at its
-- other end, in any order.
use cm108_driver_rust.Base.{
  ℕ, ◌+◌, ◌-◌, ◌%◌, ◌^◌, ◌<◌, ◌≡◌, refl, sym, ap, ◌∙◌, subst, Bool, List, [], ◌∷◌, ◌++◌, Option,
  none, some, ltb, if◌then◌else◌, length, drop, All, All-append, Bool-cases, if-true, if-false, inl,
  inr, Has, arith,
}
use cm108_driver_rust.Types.{AudioFrame}
use cm108_driver_rust.Usbfs.{completed, would_block, fails, Round, come_back, submit_urb}
use cm108_driver_rust.Usbfs.Flight.{come_back-Once, Returned}
use cm108_driver_rust.Ring.{Producer, Consumer, push_frames, IsQueue, IsChannel}
use cm108_driver_rust.Iso.Tx.{TxState, submit_tx, finished, fill_packet, tx_round}
use cm108_driver_rust.Iso.Tx.Block.{IsTx, sent_state, tx_round-completed}
use cm108_driver_rust.Daemon.Pipeline.Fifo.{Fifo, offer_one, offer_all}
use cm108_driver_rust.Daemon.Pipeline.Pushes.{Holds, push_frames-Holds}
use cm108_driver_rust.Iso.Tx.Packets.{next_packet, Whole, tx_round-Advances}

-- Frames that a client writes, which may be some of a message where the sending thread comes between,
-- and a round of the sending thread.
pub data PlaybackStep : Type 0 where
  writes : List AudioFrame → PlaybackStep
  sends : Round → PlaybackStep

module _ {R : Type 0} (producer : Producer R) (consumer : Consumer R) where
  unfoldable pub playback_step : PlaybackStep → TxState R → TxState R
  playback_step (writes fs) s =
      let (ring', xruns') = push_frames producer fs s.ring s.xruns in
      record s { ring = ring'; xruns = xruns' }
  playback_step (sends r) s = tx_round consumer r s

  unfoldable pub playback_run : List PlaybackStep → TxState R → TxState R
  playback_run [] s = s
  playback_run (p ∷ ps) s = playback_run ps (playback_step p s)

-- The specification: a bounded queue, and the packets sent.
pub record Line : Type 0 where
  pub queue : Fifo
  pub packets : List (List ℕ)

-- A block that is reaped takes the oldest frame.
abbrev pub shorter : Fifo → Fifo
shorter q = record q {
  waiting = drop 1 q.waiting;
  xruns = (q.xruns + (1 - length q.waiting)) % 2 ^ 64;
}

abbrev pub line_step : ℕ → PlaybackStep → Line → Line
line_step capacity (writes fs) l = record l { queue = offer_all capacity fs l.queue }
line_step capacity (sends (completed i st n bytes, a)) l = record {
  queue = shorter l.queue;
  packets = if a then l.packets ++ next_packet l.queue.waiting ∷ [] else l.packets;
}
line_step capacity (sends (would_block, a)) l = l
line_step capacity (sends (fails, a)) l = l

abbrev pub line_run : ℕ → List PlaybackStep → Line → Line
line_run capacity [] l = l
line_run capacity (p ∷ ps) l = line_run capacity ps (line_step capacity p l)

-- The frames that are written have 96 samples, and the rounds of the sending thread.
abbrev pub AllWhole : List PlaybackStep → Type 0
AllWhole [] = Unit
AllWhole (writes fs ∷ ps) = All Whole fs × AllWhole ps
AllWhole (sends r ∷ ps) = AllWhole ps

abbrev pub sending : List PlaybackStep → List Round
sending [] = []
sending (writes fs ∷ ps) = sending ps
sending (sends r ∷ ps) = r ∷ sending ps

-- Frames of 96 samples, and a counter of 64 bits.
abbrev Proper : Fifo → Type 0
Proper q = All Whole q.waiting × (q.xruns < 2 ^ 64)

offer_one-Proper :
    (capacity : ℕ) (f : AudioFrame) (q : Fifo)
    → Whole f
    → Proper q
    → Proper (offer_one capacity f q)
offer_one-Proper capacity f q whole (waiting, bound) =
    elim (Bool-cases (ltb (length q.waiting) capacity)) [
      | inl room ↦
          subst Proper (sym (if-true _ _ room))
            (All-append Whole q.waiting (f ∷ []) waiting (whole, tt), bound)
      | inr full ↦ subst Proper (sym (if-false _ _ full)) (waiting, omega arith)
    ]

offer_all-Proper :
    (capacity : ℕ) (fs : List AudioFrame) (q : Fifo)
    → All Whole fs
    → Proper q
    → Proper (offer_all capacity fs q)
offer_all-Proper capacity [] q w h = h
offer_all-Proper capacity (f ∷ fs) q (whole, w) h =
    offer_all-Proper capacity fs (offer_one capacity f q) w (offer_one-Proper capacity f q whole h)

All-drop_one : (fs : List AudioFrame) → All Whole fs → All Whole (drop 1 fs)
All-drop_one [] w = tt
All-drop_one (f ∷ fs) (h, w) = w

module _ {R : Type 0} (producer : Producer R) (consumer : Consumer R)
    (channel : IsChannel producer consumer) where
  abbrev as_queue : IsQueue consumer
  as_queue = record {
    waiting = channel.pushes.queued;
    pop_empty = channel.no_frame;
    pop_front = λ r f fs e.
        let (r', popped, behind, _) = channel.one_frame r f fs e in (r', popped, behind);
  }

  -- The ring behind a pop.
  abbrev ring_behind : Option (AudioFrame × R) → R → R
  ring_behind none r = r
  ring_behind (some (f, r')) r = r'

  sent_ring :
      (i st n : ℕ) (a : Bool) (s : TxState R) (o : Option (AudioFrame × R))
      → (sent_state i st n a s o).ring ≡ ring_behind o s.ring
  unfolding submit_tx fill_packet finished
  sent_ring i st n a s none = refl
  sent_ring i st n a s (some (f, r')) = refl

  slots_behind :
      (r : R) (fs : List AudioFrame)
      → channel.pushes.queued r ≡ fs
      → channel.pushes.slots (ring_behind (consumer.pop r) r) + length (drop 1 fs)
        ≡ channel.pushes.slots r + length fs
  slots_behind r [] e = ap (λ o. channel.pushes.slots (ring_behind o r) + 0) (channel.no_frame r e)
  slots_behind r (f ∷ fs) e =
      let (r', popped, _, slots) = channel.one_frame r f fs e in
      ap (λ o. channel.pushes.slots (ring_behind o r) + length fs) popped ∙ omega (arith, slots)

  module _ (capacity : ℕ) where
    -- The path against the line.
    pub record Plays (s : TxState R) (l : Line) : Type 0 where
      pub sender : IsTx s
      pub holds : Holds producer channel.pushes capacity s.ring s.xruns l.queue
      pub proper : Proper l.queue
      pub sent : s.sent ≡ l.packets

    writes-Plays :
        (fs : List AudioFrame) (s : TxState R) (l : Line)
        → All Whole fs
        → Plays s l
        → Plays (playback_step producer consumer (writes fs) s) (line_step capacity (writes fs) l)
    unfolding playback_step
    writes-Plays fs s l w h = record {
      sender = record {
        blocks = h.sender.blocks;
        buffers = h.sender.buffers;
        sizes = h.sender.sizes;
        once = h.sender.once;
      };
      holds =
          (push_frames-Holds producer channel.pushes capacity fs s.ring s.xruns l.queue h.holds).0;
      proper = offer_all-Proper capacity fs l.queue w h.proper;
      sent = h.sent;
    }

    sends-Plays :
        (i st n : ℕ) (bytes : List ℕ) (a : Bool) (s : TxState R) (l : Line)
        → Has i s.held
        → Plays s l
        → Plays
            (tx_round consumer (completed i st n bytes, a) s)
            (line_step capacity (sends (completed i st n bytes, a)) l)
          × ((tx_round consumer (completed i st n bytes, a) s).held
              ≡ submit_urb a i (come_back i s.held))
    sends-Plays i st n bytes a s l held h =
        let (queued, room, count) = h.holds in
        let (whole, bound) = h.proper in
        let (_, _, small, _) = come_back-Once i s.held h.sender.once held in
        let (sender, sent, waits, counted, held') =
          tx_round-Advances consumer as_queue i st n bytes a s l.queue.waiting h.sender held queued
            whole (omega (arith, count, bound)) in
        let ring =
          ap (λ (t : TxState R). channel.pushes.slots t.ring)
            (tx_round-completed consumer i st n bytes a s small)
          ∙ ap channel.pushes.slots (sent_ring i st n a s (consumer.pop s.ring)) in
        (
          record {
            sender = sender;
            holds = (
              waits,
              omega (arith, ring, slots_behind s.ring l.queue.waiting queued, room),
              counted ∙ ap (λ (x : ℕ). (x + (1 - length l.queue.waiting)) % 2 ^ 64) count,
            );
            proper = (All-drop_one l.queue.waiting whole, omega arith);
            sent =
                sent ∙ ap (λ ps. if a then ps ++ next_packet l.queue.waiting ∷ [] else ps) h.sent;
          },
          held',
        )

    playback_run-Plays :
        (ps : List PlaybackStep) (s : TxState R) (l : Line)
        → Returned (sending ps) s.held
        → AllWhole ps
        → Plays s l
        → Plays (playback_run producer consumer ps s) (line_run capacity ps l)
    unfolding playback_run playback_step tx_round
    playback_run-Plays [] s l g w h = h
    playback_run-Plays (writes fs ∷ ps) s l g (whole, w) h =
        playback_run-Plays ps (playback_step producer consumer (writes fs) s)
          (line_step capacity (writes fs) l) g w (writes-Plays fs s l whole h)
    playback_run-Plays (sends (completed i st n bytes, a) ∷ ps) s l (here, g) w h =
        let (h', held) = sends-Plays i st n bytes a s l here h in
        playback_run-Plays ps (tx_round consumer (completed i st n bytes, a) s)
          (line_step capacity (sends (completed i st n bytes, a)) l)
          (subst (Returned (sending ps)) (sym held) g) w h'
    playback_run-Plays (sends (would_block, a) ∷ ps) s l g w h = playback_run-Plays ps s l g w h
    playback_run-Plays (sends (fails, a) ∷ ps) s l g w h = playback_run-Plays ps s l g w h

  -- In every interleaving of clients that write frames and of the sending thread, the path from the
  -- clients to the device is a bounded queue of frames: each block that is reaped sends the left
  -- channel of the oldest frame that waits, or silence; and what does not fit and each silence are
  -- counted in the one counter. It holds for frames of 96 samples, while the kernel gives back blocks
  -- that it holds.
  pub playback_run-Line :
      (ps : List PlaybackStep) (s : TxState R)
      → IsTx s
      → All Whole (channel.pushes.queued s.ring)
      → s.xruns < 2 ^ 64
      → Returned (sending ps) s.held
      → AllWhole ps
      → let waits = channel.pushes.queued s.ring in
        let capacity = channel.pushes.slots s.ring + length waits in
        let first : Line = record {
          queue = record { waiting = waits; xruns = s.xruns; dispatched = [] };
          packets = s.sent;
        } in
        let s' = playback_run producer consumer ps s in
        let l = line_run capacity ps first in
        (channel.pushes.queued s'.ring ≡ l.queue.waiting)
        × (s'.xruns ≡ l.queue.xruns)
        × (s'.sent ≡ l.packets)
  playback_run-Line ps s v whole bound g w =
      let h =
        playback_run-Plays (channel.pushes.slots s.ring + length (channel.pushes.queued s.ring)) ps
          s _ g w
          (record {
            sender = v;
            holds = (refl, refl, refl);
            proper = (whole, bound);
            sent = refl;
          }) in
      (h.holds.0, h.holds.2, h.sent)
