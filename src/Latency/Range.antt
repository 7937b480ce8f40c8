-- ===== src/Latency/Range.antt =====
-- The least and the greatest sample.
use cm108_driver_rust.Base.{
  Has, ℕ, ◌<◌, ◌≤◌, ◌^◌, ◌≡◌, ◌⊎◌, inl, inr, refl, List, [], ◌∷◌, ltb, lt→ltb, le→ltb, length, All,
  arith, dec_lt, le_refl, false, if-true, if-false, subst, sym, if◌then◌else◌, ◌==◌,
}
use cm108_driver_rust.Types.{IsU32}
use cm108_driver_rust.Latency.{LatencyHistogram, new, u32_max, record_us, to_stats, recorded}
use cm108_driver_rust.Latency.Tally.{recorded-Counts}

All-le : (a b : ℕ) (xs : List ℕ) → b ≤ a → All (λ x. a ≤ x) xs → All (λ x. b ≤ x) xs
All-le a b [] k h = tt
All-le a b (x ∷ xs) k (hx, h) = (omega arith, All-le a b xs k h)

All-ge : (a b : ℕ) (xs : List ℕ) → a ≤ b → All (λ x. x ≤ a) xs → All (λ x. x ≤ b) xs
All-ge a b [] k h = tt
All-ge a b (x ∷ xs) k (hx, h) = (omega arith, All-ge a b xs k h)

-- `m` bounds the numbers from below, and is one of them or the value to start from.
abbrev IsLeast : ℕ → List ℕ → Type 0
IsLeast m xs = All (λ x. m ≤ x) xs × (Has m xs ⊎ (m ≡ u32_max))

abbrev IsGreatest : ℕ → List ℕ → Type 0
IsGreatest m xs = All (λ x. x ≤ m) xs × (Has m xs ⊎ (m ≡ 0))

IsLeast-cons : (m x : ℕ) (xs : List ℕ) → IsLeast m xs → IsLeast (if ltb x m then x else m) (x ∷ xs)
IsLeast-cons m x xs (h, k) = elim (dec_lt x m) [
  | yes below ↦
      subst (λ n. IsLeast n (x ∷ xs)) (sym (if-true x m (lt→ltb x m below)))
        ((le_refl x, All-le m x xs (omega arith) h), inl (inl refl))
  | no above ↦
      subst (λ n. IsLeast n (x ∷ xs)) (sym (if-false x m (le→ltb x m (omega arith))))
        ((omega arith, h), elim k [ inl i ↦ inl (inr i) | inr e ↦ inr e ])
]

IsGreatest-cons :
    (m x : ℕ) (xs : List ℕ) → IsGreatest m xs → IsGreatest (if ltb m x then x else m) (x ∷ xs)
IsGreatest-cons m x xs (h, k) = elim (dec_lt m x) [
  | yes above ↦
      subst (λ n. IsGreatest n (x ∷ xs)) (sym (if-true x m (lt→ltb m x above)))
        ((le_refl x, All-ge m x xs (omega arith) h), inl (inl refl))
  | no below ↦
      subst (λ n. IsGreatest n (x ∷ xs)) (sym (if-false x m (le→ltb m x (omega arith))))
        ((omega arith, h), elim k [ inl i ↦ inl (inr i) | inr e ↦ inr e ])
]

recorded-IsLeast : (xs : List ℕ) → IsLeast (recorded xs).min_us xs
unfolding recorded new record_us
recorded-IsLeast [] = (tt, inr refl)
recorded-IsLeast (x ∷ xs) = IsLeast-cons (recorded xs).min_us x xs (recorded-IsLeast xs)

recorded-IsGreatest : (xs : List ℕ) → IsGreatest (recorded xs).max_us xs
unfolding recorded new record_us
recorded-IsGreatest [] = (tt, inr refl)
recorded-IsGreatest (x ∷ xs) = IsGreatest-cons (recorded xs).max_us x xs (recorded-IsGreatest xs)

-- The starting values are samples too, if they are in the range of the samples.
Has-least :
    (m x : ℕ) (xs : List ℕ)
    → IsU32 x
    → All (λ y. m ≤ y) (x ∷ xs)
    → (Has m (x ∷ xs) ⊎ (m ≡ u32_max))
    → Has m (x ∷ xs)
Has-least m x xs h (k, _) (inl i) = i
Has-least m x xs h (k, _) (inr e) = inl (omega arith)

Has-greatest :
    (m x : ℕ) (xs : List ℕ)
    → All (λ y. y ≤ m) (x ∷ xs)
    → (Has m (x ∷ xs) ⊎ (m ≡ 0))
    → Has m (x ∷ xs)
Has-greatest m x xs (k, _) (inl i) = i
Has-greatest m x xs (k, _) (inr e) = inl (omega arith)

-- `min_us` and `max_us` of the statistics are the least and the greatest of the samples since the
-- last reset, if there is one at least, all are of 32 bits and there are fewer than 2 ^ 63.
pub to_stats-range :
    (x : ℕ) (xs : List ℕ)
    → All IsU32 (x ∷ xs)
    → length (x ∷ xs) < 2 ^ 63
    → let s = to_stats (recorded (x ∷ xs)) in
      (All (λ y. s.min_us ≤ y) (x ∷ xs) × Has s.min_us (x ∷ xs))
      × (All (λ y. y ≤ s.max_us) (x ∷ xs) × Has s.max_us (x ∷ xs))
unfolding to_stats
to_stats-range x xs h k =
    let h' : LatencyHistogram = recorded (x ∷ xs) in
    let (lo, lo_in) = recorded-IsLeast (x ∷ xs) in
    let (hi, hi_in) = recorded-IsGreatest (x ∷ xs) in
    let n : (h'.total == 0) ≡ false = ground (arith, (recorded-Counts (x ∷ xs) h k).total) in
    (
      subst (λ m. All (λ y. m ≤ y) (x ∷ xs) × Has m (x ∷ xs)) (sym (if-false 0 h'.min_us n))
          (lo, Has-least h'.min_us x xs h.0 lo lo_in),
      subst (λ m. All (λ y. y ≤ m) (x ∷ xs) × Has m (x ∷ xs)) (sym (if-false 0 h'.max_us n))
          (hi, Has-greatest h'.max_us x xs hi hi_in),
    )
