-- ===== src/Iso/Tx/Packets.antt =====
-- What the sending thread gives to the device.
use cm108_driver_rust.Base.{
  ℕ, zero, suc, ◌+◌, ◌%◌, ◌^◌, ◌<◌, ◌≡◌, refl, sym, ap, ◌∙◌, subst, Bool, true, false, List, [],
  ◌∷◌, ◌++◌, none, some, if◌then◌else◌, Has, length, get_or, drop, length-drop, ◌-◌, replicate,
  append_assoc, append-nil, All, arith,
}
use cm108_driver_rust.Types.{AudioFrame}
use cm108_driver_rust.Usbfs.{completed, would_block, fails, Round, come_back, submit_urb}
use cm108_driver_rust.Usbfs.Flight.{come_back-Once, refused, Returned, held_after, held_after-Once}
use cm108_driver_rust.Ring.{Consumer, IsQueue}
use cm108_driver_rust.Iso.Format.Mono.{mono_bytes, frame_to_mono_lem}
use cm108_driver_rust.Iso.Tx.{TxState, submit_tx, finished, fill_packet, tx_round, tx_run}
use cm108_driver_rust.Iso.Tx.Block.{
  IsTx, sent_state, sent_held, sent-IsTx, packet_lem, tx_round-completed,
}

-- The packet of the frame at the head of a queue, or silence.
abbrev pub next_packet : List AudioFrame → List ℕ
next_packet [] = replicate 96 0
next_packet (f ∷ fs) = mono_bytes f.samples

-- The packets that some rounds send while the frames `fs` wait: one for each block that is reaped, if
-- the kernel takes it.
abbrev pub packets : List Round → List AudioFrame → List (List ℕ)
packets [] fs = []
packets ((completed i st n bytes, true) ∷ rs) fs = next_packet fs ∷ packets rs (drop 1 fs)
packets ((completed i st n bytes, false) ∷ rs) fs = packets rs (drop 1 fs)
packets ((would_block, a) ∷ rs) fs = packets rs fs
packets ((fails, a) ∷ rs) fs = packets rs fs

-- The blocks that are reaped.
abbrev pub reaped : List Round → ℕ
reaped [] = 0
reaped ((completed i st n bytes, a) ∷ rs) = suc (reaped rs)
reaped ((would_block, a) ∷ rs) = reaped rs
reaped ((fails, a) ∷ rs) = reaped rs

-- A frame has 96 samples.
abbrev pub Whole : AudioFrame → Type 0
Whole f = length f.samples ≡ 96

module _ {R : Type 0} (consumer : Consumer R) (queue : IsQueue consumer) where
  -- What one block that is reaped changes, while the frames `fs` wait.
  abbrev pub Advances : ℕ → Bool → List AudioFrame → TxState R → TxState R → Type 0
  Advances i a fs s s₁ =
      IsTx s₁
      × (s₁.sent ≡ (if a then s.sent ++ next_packet fs ∷ [] else s.sent))
      × (queue.waiting s₁.ring ≡ drop 1 fs)
      × (s₁.xruns ≡ (s.xruns + (1 - length fs)) % 2 ^ 64)
      × (s₁.held ≡ submit_urb a i (come_back i s.held))

  pub tx_round-Advances :
      (i st n : ℕ) (bytes : List ℕ) (a : Bool) (s : TxState R) (fs : List AudioFrame)
      → IsTx s
      → Has i s.held
      → queue.waiting s.ring ≡ fs
      → All Whole fs
      → s.xruns < 2 ^ 64
      → Advances i a fs s (tx_round consumer (completed i st n bytes, a) s)
  tx_round-Advances i st n bytes a s [] v h e w bound =
      let (_, _, small, _) = come_back-Once i s.held v.once h in
      let step =
        tx_round-completed consumer i st n bytes a s small
        ∙ ap (sent_state i st n a s) (queue.pop_empty s.ring e) in
      subst (Advances i a [] s) (sym step) (
        sent-IsTx i st n a s v h none,
        packet_lem i st n a s v h none,
        (unfold submit_tx fill_packet finished in e),
        (unfold submit_tx fill_packet finished in refl),
        sent_held i st n a s none,
      )
  tx_round-Advances i st n bytes a s (f ∷ fs) v h e (whole, w) bound =
      let (_, _, small, _) = come_back-Once i s.held v.once h in
      let (ring', p, q) = queue.pop_front s.ring f fs e in
      let step =
        tx_round-completed consumer i st n bytes a s small ∙ ap (sent_state i st n a s) p in
      subst (Advances i a (f ∷ fs) s) (sym step) (
        sent-IsTx i st n a s v h (some (f, ring')),
        packet_lem i st n a s v h (some (f, ring'))
            ∙ ap (λ b. if a then s.sent ++ b ∷ [] else s.sent)
                (frame_to_mono_lem f (get_or s.bufs i []) (v.sizes i small) whole),
        (unfold submit_tx fill_packet finished in q),
        (unfold submit_tx fill_packet finished in omega (arith, bound)),
        sent_held i st n a s (some (f, ring')),
      )

  drop_one_more : (n : ℕ) (fs : List AudioFrame) → drop n (drop 1 fs) ≡ drop (suc n) fs
  drop_one_more zero [] = refl
  drop_one_more (suc n) [] = refl
  drop_one_more n (f ∷ fs) = refl

  All-drop : (fs : List AudioFrame) → All Whole fs → All Whole (drop 1 fs)
  All-drop [] w = tt
  All-drop (f ∷ fs) (h, w) = w

  packets_sent :
      (i st n : ℕ) (bytes : List ℕ) (a : Bool) (rs : List Round) (fs : List AudioFrame)
      (before : List (List ℕ))
      → (if a then before ++ next_packet fs ∷ [] else before) ++ packets rs (drop 1 fs)
        ≡ before ++ packets ((completed i st n bytes, a) ∷ rs) fs
  packets_sent i st n bytes true rs fs before = append_assoc before _ _
  packets_sent i st n bytes false rs fs before = refl

  tx_run-IsTx :
      (rs : List Round) (s : TxState R) (fs : List AudioFrame)
      → IsTx s
      → Returned rs s.held
      → queue.waiting s.ring ≡ fs
      → All Whole fs
      → s.xruns < 2 ^ 64
      → let s' = tx_run consumer rs s in
        IsTx s'
        × (s'.sent ≡ s.sent ++ packets rs fs)
        × (queue.waiting s'.ring ≡ drop (reaped rs) fs)
        × (s'.xruns ≡ (s.xruns + (reaped rs - length fs)) % 2 ^ 64)
        × (s'.held ≡ held_after rs s.held)
  unfolding tx_run tx_round
  tx_run-IsTx [] s fs v g e w bound = (v, sym (append-nil s.sent), e, omega (arith, bound), refl)
  tx_run-IsTx ((completed i st n bytes, a) ∷ rs) s fs v (h, g) e w bound =
      let (v₁, sent₁, waits₁, counted₁, held₁) =
        tx_round-Advances i st n bytes a s fs v h e w bound in
      let s₁ : TxState R = tx_round consumer (completed i st n bytes, a) s in
      let (v', sent', waits', counted', held') =
        tx_run-IsTx rs s₁ (drop 1 fs) v₁ (subst (Returned rs) (sym held₁) g) waits₁ (All-drop fs w)
          (omega (arith, counted₁)) in
      (
        v',
        sent'
            ∙ ap (λ l. l ++ packets rs (drop 1 fs)) sent₁
            ∙ packets_sent i st n bytes a rs fs s.sent,
        waits' ∙ drop_one_more (reaped rs) fs,
        omega (arith, counted', counted₁, length-drop 1 fs),
        held' ∙ ap (held_after rs) held₁,
      )
  tx_run-IsTx ((would_block, a) ∷ rs) s fs v g e w bound = tx_run-IsTx rs s fs v g e w bound
  tx_run-IsTx ((fails, a) ∷ rs) s fs v g e w bound = tx_run-IsTx rs s fs v g e w bound

  -- While the kernel gives back blocks that it holds, each block that is reaped takes the oldest
  -- frame that waits, if there is one, and is submitted again with the left channel of it as
  -- little-endian bytes, whatever the block's buffer held before; with no frame it carries silence,
  -- and an xrun is counted. The packets go out in the order of the frames, less those of the blocks
  -- that the kernel refuses. This is for a run during which nothing is put into the ring, from frames
  -- of 96 samples; the kernel then holds no block twice, and as many as before less those it refused.
  pub tx_run-packets :
      (rs : List Round) (s : TxState R) (fs : List AudioFrame)
      → IsTx s
      → Returned rs s.held
      → queue.waiting s.ring ≡ fs
      → All Whole fs
      → s.xruns < 2 ^ 64
      → let s' = tx_run consumer rs s in
        IsTx s'
        × (s'.sent ≡ s.sent ++ packets rs fs)
        × (queue.waiting s'.ring ≡ drop (reaped rs) fs)
        × (s'.xruns ≡ (s.xruns + (reaped rs - length fs)) % 2 ^ 64)
        × (length s'.held + refused rs ≡ length s.held)
  tx_run-packets rs s fs v g e w bound =
      let (v', sent', waits', counted', held') = tx_run-IsTx rs s fs v g e w bound in
      let (_, total) = held_after-Once rs s.held g v.once in
      (v', sent', waits', counted', ap (λ (l : List ℕ). length l + refused rs) held' ∙ total)
