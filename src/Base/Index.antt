-- ===== src/Base/Index.antt =====
-- Lists by their elements: writes elsewhere, reads past the end, and equality index by index.
use Prim.Native.Nat.{ℕ, zero, suc, ◌≤◌, ◌<◌}
use mathlib.Core.Path.{◌≡◌, refl, ap, ap₂}
use mathlib.Core.Logic.{◌≢◌, ◌⊎◌}
use mathlib.Core.List.{List, [], ◌∷◌}
use native.Mathlib.Omega.{arith}
use cm108_driver_rust.Base.Lists.{length, get_or, set, take, replicate, All}

module _ {ℓ} {A : Type ℓ} where
  pub get_or-set_other :
      (xs : List A) (i j : ℕ) (v d : A) → i ≢ j → get_or (set xs i v) j d ≡ get_or xs j d
  get_or-set_other [] i j v d ne = refl
  get_or-set_other (x ∷ xs) zero zero v d ne = absurd (ne refl)
  get_or-set_other (x ∷ xs) zero (suc j) v d ne = refl
  get_or-set_other (x ∷ xs) (suc i) zero v d ne = refl
  get_or-set_other (x ∷ xs) (suc i) (suc j) v d ne = get_or-set_other xs i j v d λ e. ne (ap suc e)

  pub get_or_past : (xs : List A) (i : ℕ) (d : A) → length xs ≤ i → get_or xs i d ≡ d
  get_or_past [] i d h = refl
  get_or_past (x ∷ xs) zero d h = absurd (omega arith)
  get_or_past (x ∷ xs) (suc i) d h = get_or_past xs i d (omega arith)

  pub get_or-take :
      (n : ℕ) (xs : List A) (i : ℕ) (d : A) → i < n → get_or (take n xs) i d ≡ get_or xs i d
  get_or-take zero xs i d h = absurd (omega arith)
  get_or-take (suc n) [] i d h = refl
  get_or-take (suc n) (x ∷ xs) zero d h = refl
  get_or-take (suc n) (x ∷ xs) (suc i) d h = get_or-take n xs i d (omega arith)

  pub get_or-replicate : (n : ℕ) (v : A) (i : ℕ) → get_or (replicate n v) i v ≡ v
  get_or-replicate zero v i = refl
  get_or-replicate (suc n) v zero = refl
  get_or-replicate (suc n) v (suc i) = get_or-replicate n v i

  pub get_or-replicate_below : (n i : ℕ) (v d : A) → i < n → get_or (replicate n v) i d ≡ v
  get_or-replicate_below zero i v d h = absurd (omega arith)
  get_or-replicate_below (suc n) zero v d h = refl
  get_or-replicate_below (suc n) (suc i) v d h = get_or-replicate_below n i v d (omega arith)

  -- Two lists of one length are equal if they have the same elements at each index below it.
  pub list_ext :
      (xs ys : List A) (d : A)
      → length xs ≡ length ys
      → ((i : ℕ) → i < length xs → get_or xs i d ≡ get_or ys i d)
      → xs ≡ ys
  list_ext [] [] d e h = refl
  list_ext [] (y ∷ ys) d e h = absurd (omega (arith, e))
  list_ext (x ∷ xs) [] d e h = absurd (omega (arith, e))
  list_ext (x ∷ xs) (y ∷ ys) d e h =
      ap₂ ◌∷◌ (h 0 (omega arith))
        (list_ext xs ys d (omega (arith, e)) λ i below. h (suc i) (omega arith))

  -- A predicate that holds of the element at each index holds of all elements.
  pub All-of_get {κ} :
      (P : A → Type κ) (xs : List A) (d : A)
      → ((i : ℕ) → i < length xs → P (get_or xs i d))
      → All P xs
  All-of_get P [] d h = tt
  All-of_get P (x ∷ xs) d h =
      (h 0 (omega arith), All-of_get P xs d λ i below. h (suc i) (omega arith))

-- `a` is one of the numbers.
abbrev pub Has : ℕ → List ℕ → Type 0
Has a [] = ⊥
Has a (x ∷ xs) = (a ≡ x) ⊎ Has a xs
