-- ===== src/Codec/Framed/Laws.antt =====
-- Packets of any message type that meets the codec's contract.
use cm108_driver_rust.Base.{
  ℕ, zero, suc, ◌+◌, ◌-◌, ◌^◌, ◌≤◌, ◌<◌, ◌≡◌, refl, ap, ◌∙◌, subst, List, [], ◌∷◌, ◌++◌, none, some,
  lt→ltb, le→ltb, length, length-append, take, take-append, drop-append, length-take, append_assoc,
  append-nil, arith, mod-eq_of_lt, dec_lt,
}
use cm108_driver_rust.Codec.Words.{to_le_bytes, read_u32}
use cm108_driver_rust.Codec.Words.Laws.{read_u32-push, length-to_le_bytes}
use cm108_driver_rust.Codec.Traits.{Encode, Decode, decode, to_vec, IsCodec}
use cm108_driver_rust.Codec.Framed.{to_framed, from_framed}

-- A payload whose length fits the prefix.
abbrev pub FitsPrefix : {A : Type 0} ⦃e : Encode A⦄ → A → Type 0
FitsPrefix m = length (to_vec m) < 2 ^ 32

pub to_framed-bytes :
    {A : Type 0} ⦃e : Encode A⦄ (m : A)
    → FitsPrefix m
    → to_framed m ≡ to_le_bytes 4 (length (to_vec m)) ++ to_vec m
unfolding to_framed
to_framed-bytes m h = rw (mod-eq_of_lt {n = length (to_vec m)} {m = 2 ^ 32} h)

module _ {A : Type 0} {IsValid : A → Type 0} ⦃e : Encode A⦄ ⦃d : Decode A⦄
    (c : IsCodec IsValid) where
  pub decode-to_vec : (m : A) → IsValid m → decode (to_vec m) ≡ some (m, [])
  decode-to_vec m v =
      subst (λ l. decode l ≡ some (m, [])) (append-nil (to_vec m)) (c.round_trip m [] v)

  -- For every message type with the codec's contract, a packet of a valid message comes back from
  -- the front of a buffer, and what follows is left,
  -- if the length of the payload fits 32 bits.
  pub from_framed-to_framed :
      (m : A) (rest : List ℕ)
      → IsValid m
      → FitsPrefix m
      → from_framed (to_framed m ++ rest) ≡ some (m, rest)
  unfolding from_framed
  from_framed-to_framed m rest v h =
      let n : ℕ = length (to_vec m) in
      rw (
        to_framed-bytes m h,
        append_assoc (to_le_bytes 4 n) (to_vec m) rest,
        read_u32-push n (to_vec m ++ rest) h,
        le→ltb (length (to_vec m ++ rest)) n (omega (arith, length-append (to_vec m) rest)),
        take-append n (to_vec m) rest refl,
        decode-to_vec m v,
        drop-append n (to_vec m) rest refl,
      )

-- A buffer that ends inside the prefix is refused, and so is one that ends inside the payload.
cut_in_prefix :
    {A : Type 0} ⦃d : Decode A⦄ (buf : List ℕ) → length buf < 4 → from_framed {A = A} buf ≡ none
unfolding from_framed read_u32
cut_in_prefix buf h = rw (lt→ltb (length buf) 4 h)

cut_in_payload :
    {A : Type 0} ⦃d : Decode A⦄ (n : ℕ) (buf : List ℕ)
    → n < 2 ^ 32
    → length buf < n
    → from_framed {A = A} (to_le_bytes 4 n ++ buf) ≡ none
unfolding from_framed
cut_in_payload n buf h k = rw (read_u32-push n buf h, lt→ltb (length buf) n k)

take-append_past {ℓ} :
    {B : Type ℓ} (k : ℕ) (xs ys : List B)
    → length xs ≤ k
    → take k (xs ++ ys) ≡ xs ++ take (k - length xs) ys
take-append_past k [] ys h = ap (λ (n : ℕ). take n ys) (omega arith)
take-append_past zero (x ∷ xs) ys h = absurd (omega arith)
take-append_past (suc k) (x ∷ xs) ys h =
    ap (λ l. x ∷ l)
      (take-append_past k xs ys (omega arith) ∙ ap (λ (n : ℕ). xs ++ take n ys) (omega arith))

-- The front of a packet, past its prefix.
pub take-framed :
    {A : Type 0} ⦃e : Encode A⦄ (m : A) (k : ℕ)
    → FitsPrefix m
    → 4 ≤ k
    → take k (to_framed m) ≡ to_le_bytes 4 (length (to_vec m)) ++ take (k - 4) (to_vec m)
take-framed m k h long =
    let n : ℕ = length (to_vec m) in
    ap (take k) (to_framed-bytes m h)
    ∙ take-append_past k (to_le_bytes 4 n) (to_vec m) (omega (arith, length-to_le_bytes 4 n))
    ∙ ap (λ (i : ℕ). to_le_bytes 4 n ++ take i (to_vec m)) (omega (arith, length-to_le_bytes 4 n))

pub length-framed :
    {A : Type 0} ⦃e : Encode A⦄ (m : A)
    → FitsPrefix m
    → length (to_framed m) ≡ 4 + length (to_vec m)
length-framed m h =
    let n : ℕ = length (to_vec m) in
    ap length (to_framed-bytes m h)
    ∙ omega (arith, length-append (to_le_bytes 4 n) (to_vec m), length-to_le_bytes 4 n)

-- Every proper prefix of a packet is refused, if the length of the payload fits 32 bits.
pub from_framed-prefix :
    {A : Type 0} ⦃e : Encode A⦄ ⦃d : Decode A⦄ (m : A) (k : ℕ)
    → FitsPrefix m
    → k < length (to_framed m)
    → from_framed {A = A} (take k (to_framed m)) ≡ none
from_framed-prefix {A} m k h below = elim (dec_lt k 4) [
  | yes short ↦ cut_in_prefix (take k (to_framed m)) (omega (arith, length-take k (to_framed m)))
  | no long ↦ rw (take-framed m k h (omega arith)) (
      cut_in_payload (length (to_vec m)) (take (k - 4) (to_vec m)) h
        (omega (arith, length-take (k - 4) (to_vec m), length-framed m h)))
]
