-- ===== src/Usbfs/Flight.antt =====
-- The blocks that the kernel holds.
use cm108_driver_rust.Base.{
  ℕ, suc, ◌+◌, ◌<◌, ◌≡◌, ◌⊎◌, inl, inr, refl, sym, ap, Bool, true, false, List, [], ◌∷◌, ==_eq,
  ==_ne, length, Has, arith, ℕ_discrete, subst,
}
use cm108_driver_rust.Usbfs.{completed, would_block, fails, Round, come_back, submit_urb}

-- No block is held twice, and each is one of the first eight.
abbrev pub Once : List ℕ → Type 0
Once [] = Unit
Once (i ∷ is) = (i < 8) × ¬ Has i is × Once is

Has-come_back : (i j : ℕ) (held : List ℕ) → Has j (come_back i held) → Has j held
unfolding come_back
Has-come_back i j [] h = h
Has-come_back i j (k ∷ ks) h = elim (ℕ_discrete k i) [
  | yes same ↦ inr (rw (==_eq k i same) at h)
  | no other ↦
      let h' : (j ≡ k) ⊎ Has j (come_back i ks) = rw (==_ne k i other) at h in
      elim h' [ inl e ↦ inl e | inr r ↦ inr (Has-come_back i j ks r) ]
]

-- A block that is reaped is held no more, and the others are.
pub come_back-Once :
    (i : ℕ) (held : List ℕ)
    → Once held
    → Has i held
    → Once (come_back i held)
      × ¬ Has i (come_back i held)
      × (i < 8)
      × (length held ≡ suc (length (come_back i held)))
unfolding come_back
come_back-Once i [] o h = absurd h
come_back-Once i (k ∷ ks) (small, fresh, o) h = elim (ℕ_discrete k i) [
  | yes same ↦
      rw (==_eq k i same) (o, subst (λ m. ¬ Has m ks) same fresh, omega (arith, same), refl)
  | no other ↦
      let deeper : Has i ks = elim h [ inl e ↦ absurd (other (sym e)) | inr r ↦ r ] in
      let (o', gone, less, count) = come_back-Once i ks o deeper in
      rw (==_ne k i other) (
        (small, (λ r. fresh (Has-come_back i k ks r)), o'),
        (λ r. elim r [ inl e ↦ other (sym e) | inr s ↦ gone s ]),
        less,
        ap suc count,
      )
]

pub submit_urb-Once :
    (accepted : Bool) (i : ℕ) (held : List ℕ)
    → Once held
    → ¬ Has i held
    → i < 8
    → Once (submit_urb accepted i held)
submit_urb-Once true i held o fresh small = (small, fresh, o)
submit_urb-Once false i held o fresh small = o

-- The blocks that are refused in some rounds.
abbrev pub refused : List Round → ℕ
refused [] = 0
refused ((completed i st n bytes, true) ∷ rs) = refused rs
refused ((completed i st n bytes, false) ∷ rs) = suc (refused rs)
refused ((would_block, a) ∷ rs) = refused rs
refused ((fails, a) ∷ rs) = refused rs

-- What is documented of the kernel: it gives back blocks that it holds.
abbrev pub Returned : List Round → List ℕ → Type 0
Returned [] held = Unit
Returned ((completed i st n bytes, a) ∷ rs) held =
    Has i held × Returned rs (submit_urb a i (come_back i held))
Returned ((would_block, a) ∷ rs) held = Returned rs held
Returned ((fails, a) ∷ rs) held = Returned rs held

-- The blocks that the kernel holds after some rounds that submit each block again.
abbrev pub held_after : List Round → List ℕ → List ℕ
held_after [] held = held
held_after ((completed i st n bytes, a) ∷ rs) held =
    held_after rs (submit_urb a i (come_back i held))
held_after ((would_block, a) ∷ rs) held = held_after rs held
held_after ((fails, a) ∷ rs) held = held_after rs held

-- No block is ever held twice, and the blocks that the kernel holds less are those that it has
-- refused.
pub held_after-Once :
    (rs : List Round) (held : List ℕ)
    → Returned rs held
    → Once held
    → Once (held_after rs held) × (length (held_after rs held) + refused rs ≡ length held)
held_after-Once [] held g o = (o, omega arith)
held_after-Once ((completed i st n bytes, true) ∷ rs) held (h, g) o =
    let (o', gone, small, count) = come_back-Once i held o h in
    let (o'', total) =
      held_after-Once rs (i ∷ come_back i held) g (submit_urb-Once true i _ o' gone small) in
    (o'', omega (arith, total, count))
held_after-Once ((completed i st n bytes, false) ∷ rs) held (h, g) o =
    let (o', gone, small, count) = come_back-Once i held o h in
    let (o'', total) = held_after-Once rs (come_back i held) g o' in
    (o'', omega (arith, total, count))
held_after-Once ((would_block, a) ∷ rs) held g o = held_after-Once rs held g o
held_after-Once ((fails, a) ∷ rs) held g o = held_after-Once rs held g o
