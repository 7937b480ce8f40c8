-- ===== src/Ring.antt =====
-- The rings of frames between the threads, of the package rtrb: what the program calls of it, and what
-- is documented of these calls.
pub mod Laws
use cm108_driver_rust.Base.{
  ℕ, suc, ◌+◌, ◌%◌, ◌^◌, ◌<◌, ◌≡◌, List, [], ◌∷◌, ◌++◌, Option, none, some,
}
use cm108_driver_rust.Types.{AudioFrame}

-- `rtrb::Producer` for rings of type `R`: `push` gives the ring with the frame in it, or none if it
-- is full.
pub record Producer (R : Type 0) : Type 0 where
  pub push : R → AudioFrame → Option R

-- `rtrb::Consumer`: `pop` gives the oldest frame and the ring without it, or none if it is empty.
pub record Consumer (R : Type 0) : Type 0 where
  pub pop : R → Option (AudioFrame × R)

module _ {R : Type 0} (producer : Producer R) where
  -- A frame that does not fit is counted: `fetch_add` wraps around.
  abbrev pub pushed : Option R → R → ℕ → R × ℕ
  pushed none r xruns = (r, (xruns + 1) % 2 ^ 64)
  pushed (some r') r xruns = (r', xruns)

  -- The loop over the frames of an `AudioWrite`.
  unfoldable pub push_frames : List AudioFrame → R → ℕ → R × ℕ
  push_frames [] r xruns = (r, xruns)
  push_frames (f ∷ fs) r xruns =
      let (r', xruns') = pushed (producer.push r f) r xruns in push_frames fs r' xruns'

-- What is documented of rtrb's producer: the frames in a ring, oldest first, and the free slots. A
-- push takes a slot and puts the frame behind the others, and fails if there is none.
pub record IsRing {R : Type 0} (producer : Producer R) : Type 0 where
  pub queued : R → List AudioFrame
  pub slots : R → ℕ
  pub push_full : (r : R) (f : AudioFrame) → slots r ≡ 0 → producer.push r f ≡ none
  pub push_room :
      (r : R) (f : AudioFrame)
      → 0 < slots r
      → (r' : R) × (producer.push r f ≡ some r')
        × (queued r' ≡ queued r ++ f ∷ [])
        × (slots r ≡ suc (slots r'))

-- What is documented of rtrb's consumer: the frames in a ring, oldest first.
pub record IsQueue {R : Type 0} (consumer : Consumer R) : Type 0 where
  pub waiting : R → List AudioFrame
  pub pop_empty : (r : R) → waiting r ≡ [] → consumer.pop r ≡ none
  pub pop_front :
      (r : R) (f : AudioFrame) (fs : List AudioFrame)
      → waiting r ≡ f ∷ fs
      → (r' : R) × (consumer.pop r ≡ some (f, r')) × (waiting r' ≡ fs)

-- What is documented of the two ends of one ring: a pop takes the oldest frame and frees its slot.
pub record IsChannel {R : Type 0} (producer : Producer R) (consumer : Consumer R) : Type 0 where
  pub pushes : IsRing producer
  pub no_frame : (r : R) → pushes.queued r ≡ [] → consumer.pop r ≡ none
  pub one_frame :
      (r : R) (f : AudioFrame) (fs : List AudioFrame)
      → pushes.queued r ≡ f ∷ fs
      → (r' : R) × (consumer.pop r ≡ some (f, r'))
        × (pushes.queued r' ≡ fs)
        × (pushes.slots r' ≡ suc (pushes.slots r))
