-- ===== src/Iso/Rx/Frames.antt =====
-- What the receiving thread puts into the ring.
use cm108_driver_rust.Base.{
  ℕ, ◌+◌, ◌-◌, ◌%◌, ◌^◌, ◌≤◌, ◌<◌, ◌≡◌, refl, sym, ap, ◌∙◌, subst, Bool, ◌&&◌, List, [], ◌∷◌, ◌++◌,
  Option, none, some, ◌==◌, ltb, lt→ltb, le→ltb, if◌then◌else◌, if-true, Bool-cases, inl, inr, Has,
  length, length-set, get_or, get_or-set_self, take, arith,
}
use mathlib.Core.Option as Option
use cm108_driver_rust.Types.{AudioFrame}
use cm108_driver_rust.Usbfs.{zeroed, completed, would_block, fails, Round, come_back, submit_urb}
use cm108_driver_rust.Usbfs.Flight.{
  Once, come_back-Once, submit_urb-Once, refused, Returned, held_after, held_after-Once,
}
use cm108_driver_rust.Ring.{Producer, push_frames, IsRing}
use cm108_driver_rust.Ring.Laws.{push_frames-append, push_frames-Pushes}
use cm108_driver_rust.Iso.Format.{bytes_to_frame}
use cm108_driver_rust.Iso.Rx.{RxState, submit_rx, delivered, take_packet, rx_round, rx_run}

-- The frames of the packets that arrive, one for each block that is reaped without an error and with
-- a byte at least.
abbrev pub frame_of : ℕ → ℕ → List ℕ → List AudioFrame
frame_of st n bytes = if st == 0 && ltb 0 n then bytes_to_frame (take n bytes) ∷ [] else []

abbrev pub frames_of : List Round → List AudioFrame
frames_of [] = []
frames_of ((completed i st n bytes, a) ∷ rs) = frame_of st n bytes ++ frames_of rs
frames_of ((would_block, a) ∷ rs) = frames_of rs
frames_of ((fails, a) ∷ rs) = frames_of rs

-- What is documented of the kernel: it writes no more than a block's buffer holds.
abbrev pub Fits : List Round → Type 0
Fits [] = Unit
Fits ((completed i st n bytes, a) ∷ rs) = (n ≤ length bytes) × Fits rs
Fits ((would_block, a) ∷ rs) = Fits rs
Fits ((fails, a) ∷ rs) = Fits rs

-- The thread's eight blocks and eight buffers, and what the kernel holds of them.
pub record IsRx {R : Type 0} (s : RxState R) : Type 0 where
  pub blocks : length s.urbs ≡ 8
  pub buffers : length s.bufs ≡ 8
  pub once : Once s.held

module _ {R : Type 0} (producer : Producer R) where
  -- The ring and the counter after some frames.
  abbrev with_pushed : List AudioFrame → RxState R → RxState R
  with_pushed fs s =
      let (ring', xruns') = push_frames producer fs s.ring s.xruns in
      record s { ring = ring'; xruns = xruns' }

  module _ (i st n : ℕ) (bytes : List ℕ) (fit : n ≤ length bytes) where
    take_packet_lem :
        (s : RxState R)
        → (get_or s.urbs i zeroed).hdr.status ≡ st
        → (get_or s.urbs i zeroed).pkt.packet_actual_length ≡ n
        → get_or s.bufs i [] ≡ bytes
        → take_packet producer i s ≡ some (with_pushed (frame_of st n bytes) s)
    unfolding take_packet push_frames
    take_packet_lem s hs hn hb =
        rw (hs, hn, hb, le→ltb (length bytes) n fit)
          (elim (Bool-cases (st == 0 && ltb 0 n)) [ inl e ↦ rw e refl | inr e ↦ rw e refl ])

    take_packet-delivered :
        (s : RxState R)
        → IsRx s
        → i < 8
        → take_packet producer i (delivered i st n bytes s)
          ≡ some (with_pushed (frame_of st n bytes) (delivered i st n bytes s))
    take_packet-delivered s v small =
        take_packet_lem (delivered i st n bytes s)
          (unfold delivered in
            ap (λ u. u.hdr.status) (get_or-set_self s.urbs i _ zeroed (omega (arith, v.blocks))))
          (unfold delivered in
            ap (λ u. u.pkt.packet_actual_length)
              (get_or-set_self s.urbs i _ zeroed (omega (arith, v.blocks))))
          (unfold delivered in get_or-set_self s.bufs i bytes [] (omega (arith, v.buffers)))

    -- The thread after a block that is reaped.
    abbrev completed_state : Bool → RxState R → RxState R
    completed_state a s =
        submit_rx a i (with_pushed (frame_of st n bytes) (delivered i st n bytes s))

    rx_round-completed :
        (a : Bool) (s : RxState R)
        → IsRx s
        → i < 8
        → rx_round producer (completed i st n bytes, a) s ≡ some (completed_state a s)
    unfolding rx_round
    rx_round-completed a s v small =
        if-true _ _ (lt→ltb i 8 small)
        ∙ ap (Option.map (submit_rx a i)) (take_packet-delivered s v small)

    completed_queue :
        (a : Bool) (s : RxState R)
        → ◌≡◌ {A = R × ℕ}
            ((completed_state a s).ring, (completed_state a s).xruns)
            (push_frames producer (frame_of st n bytes) s.ring s.xruns)
    unfolding submit_rx delivered
    completed_queue a s = refl

    completed_held :
        (a : Bool) (s : RxState R)
        → (completed_state a s).held ≡ submit_urb a i (come_back i s.held)
    unfolding submit_rx delivered
    completed_held a s = refl

    completed-IsRx : (a : Bool) (s : RxState R) → IsRx s → Has i s.held → IsRx (completed_state a s)
    unfolding submit_rx delivered
    completed-IsRx a s v h =
        let (o, gone, small, count) = come_back-Once i s.held v.once h in
        record {
          blocks = length-set _ i _ ∙ length-set s.urbs i _ ∙ v.blocks;
          buffers = length-set s.bufs i bytes ∙ v.buffers;
          once = submit_urb-Once a i _ o gone small;
        }

  rx_run_step :
      (r : Round) (rs : List Round) (s s₁ : RxState R)
      → rx_round producer r s ≡ some s₁
      → rx_run producer (r ∷ rs) s ≡ rx_run producer rs s₁
  unfolding rx_run
  rx_run_step r rs s s₁ e =
      ap (λ (o : Option (RxState R)). elim o [ none ↦ none | some s' ↦ rx_run producer rs s' ]) e

  pub rx_run-IsRx :
      (rs : List Round) (s : RxState R)
      → IsRx s
      → Returned rs s.held
      → Fits rs
      → (s' : RxState R) × (rx_run producer rs s ≡ some s')
        × IsRx s'
        × (◌≡◌ {A = R × ℕ} (s'.ring, s'.xruns) (push_frames producer (frames_of rs) s.ring s.xruns))
        × (s'.held ≡ held_after rs s.held)
  rx_run-IsRx [] s v g f = (s, (unfold rx_run in refl), v, (unfold push_frames in refl), refl)
  rx_run-IsRx ((completed i st n bytes, a) ∷ rs) s v (h, g) (fit, f) =
      let (_, _, small, _) = come_back-Once i s.held v.once h in
      let s₁ : RxState R = completed_state i st n bytes fit a s in
      let held = completed_held i st n bytes fit a s in
      let (s', run, v', queue, kept) =
        rx_run-IsRx rs s₁ (completed-IsRx i st n bytes fit a s v h)
          (subst (Returned rs) (sym held) g) f in
      (
        s',
        rx_run_step _ rs s s₁ (rx_round-completed i st n bytes fit a s v small) ∙ run,
        v',
        queue
            ∙ ap (λ (p : R × ℕ). push_frames producer (frames_of rs) p.0 p.1)
                (completed_queue i st n bytes fit a s)
            ∙ sym (push_frames-append producer (frame_of st n bytes) (frames_of rs) s.ring s.xruns),
        kept ∙ ap (held_after rs) held,
      )
  rx_run-IsRx ((would_block, a) ∷ rs) s v g f =
      let (s', run, v', queue, kept) = rx_run-IsRx rs s v g f in
      (s', rx_run_step (would_block, a) rs s s (unfold rx_round in refl) ∙ run, v', queue, kept)
  rx_run-IsRx ((fails, a) ∷ rs) s v g f =
      let (s', run, v', queue, kept) = rx_run-IsRx rs s v g f in
      (s', rx_run_step (fails, a) rs s s (unfold rx_round in refl) ∙ run, v', queue, kept)

  -- While the kernel gives back blocks that it holds and writes no more than a buffer holds, no round
  -- of the receiving thread panics, and after any number of rounds the ring has the frames of the
  -- packets that arrived, one for each block reaped without an error and with a byte at least, in the
  -- order of the blocks, as far as slots were free and nothing was read; the rest are counted as
  -- xruns. The kernel then holds no block twice, and as many as before less those that it refused.
  pub rx_run-Frames :
      (ring : IsRing producer) (rs : List Round) (s : RxState R)
      → IsRx s
      → s.xruns < 2 ^ 64
      → Returned rs s.held
      → Fits rs
      → let n = ring.slots s.ring in
        let fs = frames_of rs in
        (s' : RxState R) × (rx_run producer rs s ≡ some s')
        × IsRx s'
        × (ring.queued s'.ring ≡ ring.queued s.ring ++ take n fs)
        × (s'.xruns ≡ (s.xruns + (length fs - n)) % 2 ^ 64)
        × (length s'.held + refused rs ≡ length s.held)
  rx_run-Frames ring rs s v bound g f =
      let (s', run, v', queue, kept) = rx_run-IsRx rs s v g f in
      let (queued, counted) =
        push_frames-Pushes producer ring (frames_of rs) s.ring s.xruns (ring.slots s.ring) bound
          refl in
      let (_, total) = held_after-Once rs s.held g v.once in
      (
        s',
        run,
        v',
        ap (λ p. ring.queued p.0) queue ∙ queued,
        ap (λ p. p.1) queue ∙ counted,
        ap (λ (l : List ℕ). length l + refused rs) kept ∙ total,
      )
