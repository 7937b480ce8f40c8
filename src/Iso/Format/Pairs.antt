-- ===== src/Iso/Format/Pairs.antt =====
-- A loop that writes two neighbours in each round.
use cm108_driver_rust.Base.{
  ℕ, zero, suc, ◌+◌, ◌*◌, ◌/◌, ◌≤◌, ◌<◌, ◌≡◌, ◌≢◌, refl, ◌∙◌, subst, List, length, get_or, set,
  length-set, get_or-set_self, get_or-set_other, arith, ℕ_discrete,
}

-- A write of two neighbours.
module _ (xs : List ℕ) (i v w : ℕ) where
  abbrev write_pair : List ℕ
  write_pair = set (set xs (i * 2) v) (i * 2 + 1) w

  length-write_pair : length write_pair ≡ length xs
  length-write_pair = length-set (set xs (i * 2) v) (i * 2 + 1) w ∙ length-set xs (i * 2) v

  pair_first : i * 2 + 1 < length xs → get_or write_pair (i * 2) 0 ≡ v
  pair_first h =
      get_or-set_other (set xs (i * 2) v) (i * 2 + 1) (i * 2) w 0 (λ e. omega (arith, e))
      ∙ get_or-set_self xs (i * 2) v 0 (omega arith)

  pair_second : i * 2 + 1 < length xs → get_or write_pair (i * 2 + 1) 0 ≡ w
  pair_second h =
      get_or-set_self (set xs (i * 2) v) (i * 2 + 1) w 0 (omega (arith, length-set xs (i * 2) v))

  pair_other : (k : ℕ) → k / 2 ≢ i → get_or write_pair k 0 ≡ get_or xs k 0
  pair_other k ne =
      get_or-set_other (set xs (i * 2) v) (i * 2 + 1) k w 0 (λ e. ne (omega (arith, e)))
      ∙ get_or-set_other xs (i * 2) k v 0 (λ e. ne (omega (arith, e)))

module _ (v w : ℕ → ℕ) where
  -- Rounds `i` to `i + n - 1`.
  unfoldable pub fill_pairs : ℕ → ℕ → List ℕ → List ℕ
  fill_pairs zero i xs = xs
  fill_pairs (suc n) i xs = fill_pairs n (i + 1) (write_pair xs i (v i) (w i))

  pub length-fill_pairs : (n i : ℕ) (xs : List ℕ) → length (fill_pairs n i xs) ≡ length xs
  unfolding fill_pairs
  length-fill_pairs zero i xs = refl
  length-fill_pairs (suc n) i xs =
      length-fill_pairs n (i + 1) (write_pair xs i (v i) (w i)) ∙ length-write_pair xs i (v i) (w i)

  -- What no round writes is left alone.
  pub fill_pairs_before :
      (n i : ℕ) (xs : List ℕ) (k : ℕ) → k / 2 < i → get_or (fill_pairs n i xs) k 0 ≡ get_or xs k 0
  unfolding fill_pairs
  fill_pairs_before zero i xs k h = refl
  fill_pairs_before (suc n) i xs k h =
      fill_pairs_before n (i + 1) (write_pair xs i (v i) (w i)) k (omega arith)
      ∙ pair_other xs i (v i) (w i) k (λ e. omega (arith, e))

  pub fill_pairs_past :
      (n i : ℕ) (xs : List ℕ) (k : ℕ)
      → i + n ≤ k / 2
      → get_or (fill_pairs n i xs) k 0 ≡ get_or xs k 0
  unfolding fill_pairs
  fill_pairs_past zero i xs k h = refl
  fill_pairs_past (suc n) i xs k h =
      fill_pairs_past n (i + 1) (write_pair xs i (v i) (w i)) k (omega arith)
      ∙ pair_other xs i (v i) (w i) k (λ e. omega (arith, e))

  -- Round `j` leaves its two values.
  pub fill_pairs_first :
      (n i : ℕ) (xs : List ℕ) (j : ℕ)
      → i ≤ j
      → j < i + n
      → (i + n) * 2 ≤ length xs
      → get_or (fill_pairs n i xs) (j * 2) 0 ≡ v j
  unfolding fill_pairs
  fill_pairs_first zero i xs j lo hi room = absurd (omega arith)
  fill_pairs_first (suc n) i xs j lo hi room = elim (ℕ_discrete i j) [
    | yes here ↦
        fill_pairs_before n (i + 1) (write_pair xs i (v i) (w i)) (j * 2) (omega (arith, here))
        ∙ subst (λ m. get_or (write_pair xs i (v i) (w i)) (m * 2) 0 ≡ v m) here
            (pair_first xs i (v i) (w i) (omega arith))
    | no later ↦
        fill_pairs_first n (i + 1) (write_pair xs i (v i) (w i)) j (omega arith) (omega arith)
          (omega (arith, length-write_pair xs i (v i) (w i)))
  ]

  pub fill_pairs_second :
      (n i : ℕ) (xs : List ℕ) (j : ℕ)
      → i ≤ j
      → j < i + n
      → (i + n) * 2 ≤ length xs
      → get_or (fill_pairs n i xs) (j * 2 + 1) 0 ≡ w j
  unfolding fill_pairs
  fill_pairs_second zero i xs j lo hi room = absurd (omega arith)
  fill_pairs_second (suc n) i xs j lo hi room = elim (ℕ_discrete i j) [
    | yes here ↦
        fill_pairs_before n (i + 1) (write_pair xs i (v i) (w i)) (j * 2 + 1) (omega (arith, here))
        ∙ subst (λ m. get_or (write_pair xs i (v i) (w i)) (m * 2 + 1) 0 ≡ w m) here
            (pair_second xs i (v i) (w i) (omega arith))
    | no later ↦
        fill_pairs_second n (i + 1) (write_pair xs i (v i) (w i)) j (omega arith) (omega arith)
          (omega (arith, length-write_pair xs i (v i) (w i)))
  ]
