-- ===== src/Iso/Tx/Block.antt =====
-- What becomes of one block that the sending thread reaps.
use cm108_driver_rust.Base.{
  ℕ, ◌<◌, ◌≡◌, refl, sym, ap, ◌∙◌, subst, Bool, List, [], ◌∷◌, ◌++◌, Option, none, some, lt→ltb,
  if◌then◌else◌, if-true, Has, length, length-set, length-replicate, get_or, get_or-set_self,
  get_or-set_other, ℕ_discrete, set, replicate, arith,
}
use cm108_driver_rust.Types.{AudioFrame}
use cm108_driver_rust.Usbfs.{completed, come_back, submit_urb}
use cm108_driver_rust.Usbfs.Flight.{Once, come_back-Once, submit_urb-Once}
use cm108_driver_rust.Ring.{Consumer}
use cm108_driver_rust.Iso.Format.{frame_to_mono}
use cm108_driver_rust.Iso.Format.Laws.{length-frame_to_mono}
use cm108_driver_rust.Iso.Tx.{TxState, submit_tx, finished, fill_packet, tx_round}

-- The thread's eight blocks and eight buffers of 96 bytes, and what the kernel holds of them.
pub record IsTx {R : Type 0} (s : TxState R) : Type 0 where
  pub blocks : length s.urbs ≡ 8
  pub buffers : length s.bufs ≡ 8
  pub sizes : (i : ℕ) → i < 8 → length (get_or s.bufs i []) ≡ 96
  pub once : Once s.held

module _ {R : Type 0} where
  -- What a round writes into the buffer.
  abbrev pub written : Option (AudioFrame × R) → List ℕ → List ℕ
  written none buf = replicate 96 0
  written (some (f, ring')) buf = frame_to_mono f buf

  length-written :
      (o : Option (AudioFrame × R)) (buf : List ℕ) → length buf ≡ 96 → length (written o buf) ≡ 96
  length-written none buf size = length-replicate {A = ℕ} 96 0
  length-written (some (f, ring')) buf size = length-frame_to_mono f buf size

  module _ (i st n : ℕ) (a : Bool) (s : TxState R) where
    -- The thread after a block that is reaped.
    abbrev pub sent_state : Option (AudioFrame × R) → TxState R
    sent_state o = submit_tx a i (fill_packet o i (finished i st n s))

    sent_blocks : (o : Option (AudioFrame × R)) → length (sent_state o).urbs ≡ length s.urbs
    unfolding submit_tx fill_packet finished
    sent_blocks none = length-set _ i _ ∙ length-set s.urbs i _
    sent_blocks (some (f, ring')) = length-set _ i _ ∙ length-set s.urbs i _

    sent_bufs :
        (o : Option (AudioFrame × R))
        → (sent_state o).bufs ≡ set s.bufs i (written o (get_or s.bufs i []))
    unfolding submit_tx fill_packet finished
    sent_bufs none = refl
    sent_bufs (some (f, ring')) = refl

    pub sent_held :
        (o : Option (AudioFrame × R)) → (sent_state o).held ≡ submit_urb a i (come_back i s.held)
    unfolding submit_tx fill_packet finished
    sent_held none = refl
    sent_held (some (f, ring')) = refl

    sent_packets :
        (o : Option (AudioFrame × R))
        → (sent_state o).sent ≡ (
            if a
            then s.sent ++ get_or (set s.bufs i (written o (get_or s.bufs i []))) i [] ∷ []
            else s.sent)
    unfolding submit_tx fill_packet finished
    sent_packets none = refl
    sent_packets (some (f, ring')) = refl

    module _ (v : IsTx s) (h : Has i s.held) where
      pub sent-IsTx : (o : Option (AudioFrame × R)) → IsTx (sent_state o)
      sent-IsTx o =
          let (held, gone, small, count) = come_back-Once i s.held v.once h in
          record {
            blocks = sent_blocks o ∙ v.blocks;
            buffers = ap length (sent_bufs o) ∙ length-set s.bufs i _ ∙ v.buffers;
            sizes =
                λ j below. ap (λ bs. length (get_or bs j [])) (sent_bufs o) ∙ same_size o j below;
            once = subst Once (sym (sent_held o)) (submit_urb-Once a i _ held gone small);
          }
        where
          same_size :
              (o : Option (AudioFrame × R)) (j : ℕ)
              → j < 8
              → length (get_or (set s.bufs i (written o (get_or s.bufs i []))) j []) ≡ 96
          same_size o j below = elim (ℕ_discrete i j) [
            | yes here ↦
                ap (λ (k : ℕ). length (get_or (set s.bufs i (written o (get_or s.bufs i []))) k []))
                  (sym here)
                ∙ ap length (get_or-set_self s.bufs i _ [] (omega (arith, here, v.buffers)))
                ∙ length-written o (get_or s.bufs i []) (v.sizes i (omega (arith, here)))
            | no there ↦ ap length (get_or-set_other s.bufs i j _ [] there) ∙ v.sizes j below
          ]

      -- The packet of block `i`.
      pub packet_lem :
          (o : Option (AudioFrame × R))
          → (sent_state o).sent
            ≡ (if a then s.sent ++ written o (get_or s.bufs i []) ∷ [] else s.sent)
      packet_lem o =
          let (held, gone, small, count) = come_back-Once i s.held v.once h in
          sent_packets o
          ∙ ap (λ b. if a then s.sent ++ b ∷ [] else s.sent)
              (get_or-set_self s.bufs i _ [] (omega (arith, v.buffers)))

  pub tx_round-completed :
      (consumer : Consumer R) (i st n : ℕ) (bytes : List ℕ) (a : Bool) (s : TxState R)
      → i < 8
      → tx_round consumer (completed i st n bytes, a) s
        ≡ sent_state i st n a s (consumer.pop s.ring)
  unfolding tx_round finished
  tx_round-completed consumer i st n bytes a s small = if-true _ _ (lt→ltb i 8 small)
