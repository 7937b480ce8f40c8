-- ===== src/Usbfs/Start.antt =====
-- How a thread that streams starts.
use cm108_driver_rust.Base.{
  ℕ, zero, suc, ◌+◌, ◌≡◌, refl, Bool, true, false, ◌&&◌, ◌<◌, ap, List, get_or, arith, Option, some,
  none, Bool-cases, inl, inr, if◌then◌else◌,
}
use cm108_driver_rust.Usbfs.{submit_all, usbfs_path}

-- The kernel takes `n` blocks from `i` on.
abbrev pub all_accepted : (ℕ → Bool) → ℕ → ℕ → Bool
all_accepted accepts i zero = true
all_accepted accepts i (suc n) = accepts i && all_accepted accepts (i + 1) n

module _ {S : Type 0} (submit : ℕ → S → S) where
  -- Every block submitted.
  unfoldable pub submitted : ℕ → ℕ → S → S
  submitted zero i s = s
  submitted (suc n) i s = submitted n (i + 1) (submit i s)

  pub submit_all_lem :
      (n i : ℕ) (accepts : ℕ → Bool) (s : S)
      → submit_all submit n i accepts s
        ≡ (if all_accepted accepts i n then some (submitted n i s) else none)
  unfolding submit_all submitted
  submit_all_lem zero i accepts s = refl
  submit_all_lem (suc n) i accepts s = elim (Bool-cases (accepts i)) [
    | inl e ↦ rw e (submit_all_lem n (i + 1) accepts (submit i s))
    | inr e ↦ rw e refl
  ]

-- Two tests, one after the other.
pub both_tests :
    {S : Type 0} (first second : Bool) (o : Option S) (s : S)
    → o ≡ (if second then some s else none)
    → (if first then o else none) ≡ (if first && second then some s else none)
both_tests true second o s e = e
both_tests false second o s e = refl

-- Devices at different places are opened by different paths.
pub usbfs_path-injective :
    (bus addr bus' addr' : ℕ)
    → bus < 256
    → addr < 256
    → bus' < 256
    → addr' < 256
    → usbfs_path bus addr ≡ usbfs_path bus' addr'
    → (bus ≡ bus') × (addr ≡ addr')
unfolding usbfs_path
usbfs_path-injective bus addr bus' addr' h₁ h₂ h₃ h₄ e =
    let digit = λ (k : ℕ). ap (λ (l : List ℕ). get_or l k 0) e in
    omega (arith, digit 13, digit 14, digit 15, digit 17, digit 18, digit 19)
