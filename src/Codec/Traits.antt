-- ===== src/Codec/Traits.antt =====
-- The traits `Encode` and `Decode` of crates/cm108-types/src/codec.rs, and what a message type's
-- instances of them promise one another.
use cm108_driver_rust.Base.{ℕ, ◌≡◌, subst₂, List, [], ◌++◌, Option, some, ◌>>=◌, All}
use cm108_driver_rust.Types.{IsU8}

pub record Encode (A : Type 0) : Type 0 where
  pub encode : A → List ℕ → List ℕ

pub record Decode (A : Type 0) : Type 0 where
  pub decode : List ℕ → Option (A × List ℕ)

abbrev pub encode : {A : Type 0} ⦃e : Encode A⦄ → A → List ℕ → List ℕ
encode ⦃e⦄ = e.encode

abbrev pub decode : {A : Type 0} ⦃d : Decode A⦄ → List ℕ → Option (A × List ℕ)
decode ⦃d⦄ = d.decode

unfoldable pub to_vec : {A : Type 0} ⦃e : Encode A⦄ → A → List ℕ
to_vec m = encode m []

unfoldable pub from_bytes : {A : Type 0} ⦃d : Decode A⦄ → List ℕ → Option A
from_bytes buf = do (val, _) ← decode buf; some val

-- The contract of a message type whose valid values are those of `IsValid`.
pub record IsCodec {A : Type 0} (IsValid : A → Type 0) ⦃e : Encode A⦄ ⦃d : Decode A⦄ : Type 0 where
  -- Encoding appends to the buffer, whatever it holds.
  pub appends : (a : A) (buf : List ℕ) → encode a buf ≡ buf ++ to_vec a
  -- It writes bytes.
  pub bytes : (a : A) → IsValid a → All IsU8 (to_vec a)
  -- Decoding gives the value back and leaves whatever follows it.
  pub round_trip : (a : A) (rest : List ℕ) → IsValid a → decode (to_vec a ++ rest) ≡ some (a, rest)

-- `buf` is the encoding of a valid value, before `rest`.
abbrev pub Encodes :
    {A : Type 0} (IsValid : A → Type 0) ⦃e : Encode A⦄ → List ℕ → A → List ℕ → Type 0
Encodes IsValid buf a rest = (buf ≡ to_vec a ++ rest) × IsValid a × All IsU8 rest

-- The other direction: what decodes, from bytes, is the encoding of a valid value.
abbrev pub Exact : {A : Type 0} (IsValid : A → Type 0) ⦃e : Encode A⦄ ⦃d : Decode A⦄ → Type 0
Exact {A} IsValid =
    (buf : List ℕ) (a : A) (rest : List ℕ)
    → All IsU8 buf
    → decode buf ≡ some (a, rest)
    → Encodes IsValid buf a rest

-- A decoder's result is the one that is known.
pub Encodes-result :
    {A : Type 0} (IsValid : A → Type 0) ⦃e : Encode A⦄ (buf : List ℕ) (b a : A) (l rest : List ℕ)
    → ◌≡◌ {A = Option (A × List ℕ)} (some (b, l)) (some (a, rest))
    → Encodes IsValid buf b l
    → Encodes IsValid buf a rest
Encodes-result IsValid buf b a l rest p h = subst₂ (λ x r. Encodes IsValid buf x r) (cc) (cc) h
