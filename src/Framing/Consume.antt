-- ===== src/Framing/Consume.antt =====
-- A read leaves a shorter input.
use cm108_driver_rust.Base.{
  ℕ, zero, suc, ◌+◌, ◌≤◌, ◌<◌, ◌≡◌, refl, false, List, [], ◌∷◌, Option, none, some, length, arith,
  ltb, Bool-cases, inl, inr,
}
use cm108_driver_rust.Types.{ClientMsg}
use cm108_driver_rust.Codec.Client.{client_encode, client_decode}
use cm108_driver_rust.Codec.Words.{from_le_bytes}
use cm108_driver_rust.Codec.Traits.{from_bytes}
use cm108_driver_rust.Io.{
  IoResult, ok, err, unexpected_eof, would_block, invalid_data, other, Input, byte, pause, fails,
  prepend, resume, read_exact,
}
use cm108_driver_rust.Framing.{payload_cap, decoded, read_msg, client_prefix, client_body}

-- Reading leaves an input that is shorter, by the bytes read at least where it succeeds.
abbrev Shorter : {A : Type 0} → ℕ → Input → IoResult A × Input → Type 0
Shorter n s (ok _, s') = n + length s' ≤ length s
Shorter n s (err _, s') = length s' ≤ length s

Shorter-prepend :
    (n b : ℕ) (s s' : Input) (r : IoResult (List ℕ) × Input)
    → Shorter n s r
    → length s' ≡ suc (length s)
    → Shorter (suc n) s' (prepend b r)
Shorter-prepend n b s s' (ok bs, rest) h e = omega arith
Shorter-prepend n b s s' (err k, rest) h e = omega arith

Shorter-longer :
    {A : Type 0} (n : ℕ) (s s' : Input) (r : IoResult A × Input)
    → Shorter n s r
    → length s ≤ length s'
    → Shorter n s' r
Shorter-longer n s s' (ok bs, rest) h e = omega arith
Shorter-longer n s s' (err k, rest) h e = omega arith

read_exact-Shorter : (n : ℕ) (s : Input) → Shorter n s (read_exact false n s)
unfolding read_exact
read_exact-Shorter zero s = omega arith
read_exact-Shorter (suc n) [] = omega arith
read_exact-Shorter (suc n) (byte b ∷ s) =
    Shorter-prepend n b s (byte b ∷ s) _ (read_exact-Shorter n s) refl
read_exact-Shorter (suc n) (pause ∷ s) =
    Shorter-longer (suc n) s (pause ∷ s) _ (read_exact-Shorter (suc n) s) (omega arith)
read_exact-Shorter (suc n) (fails ∷ s) = omega arith

-- What is behind the prefix takes nothing back.
decoded-Shorter :
    (o : Option ClientMsg) (s : Input) → Shorter {A = Option ClientMsg} 0 s (decoded o s)
decoded-Shorter none s = omega arith
decoded-Shorter (some m) s = omega arith

payload-Shorter :
    (s : Input) (n : ℕ) (r : IoResult (List ℕ) × Input)
    → Shorter n s r
    → Shorter {A = Option ClientMsg} 0 s (resume (λ buf. decoded (from_bytes buf)) r)
payload-Shorter s n (ok buf, s') h =
    Shorter-longer 0 s' s (decoded (from_bytes buf) s') (decoded-Shorter (from_bytes buf) s')
      (omega arith)
payload-Shorter s n (err e, s') h = h

body-Shorter :
    (len_buf : List ℕ) (s : Input)
    → Shorter {A = Option ClientMsg} 0 s (client_body false len_buf s)
unfolding client_body
body-Shorter len_buf s = elim (Bool-cases (ltb payload_cap (from_le_bytes len_buf))) [
  | inl above ↦ rw above (omega arith)
  | inr within ↦ rw within (payload-Shorter s _ _ (read_exact-Shorter (from_le_bytes len_buf) s))
]

-- What a message that is read leaves is shorter.
abbrev pub Reads : Input → IoResult (Option ClientMsg) × Input → Type 0
Reads s (ok (some msg), s') = length s' < length s
Reads s _ = Unit

prefix-Reads :
    (s : Input) (r : IoResult (List ℕ) × Input)
    → Shorter 4 s r
    → Reads s (client_prefix false r.0 r.1)
unfolding client_prefix
prefix-Reads s (ok len_buf, s') h = go (client_body false len_buf s') (body-Shorter len_buf s')
  where
    go : (r : IoResult (Option ClientMsg) × Input) → Shorter 0 s' r → Reads s r
    go (ok (some msg), s₂) k = omega arith
    go (ok none, s₂) k = tt
    go (err e, s₂) k = tt
prefix-Reads s (err unexpected_eof, s') h = tt
prefix-Reads s (err would_block, s') h = tt
prefix-Reads s (err invalid_data, s') h = tt
prefix-Reads s (err other, s') h = tt

pub read_msg-Reads : (s : Input) → Reads s (read_msg false s)
unfolding read_msg
read_msg-Reads s = prefix-Reads s (read_exact false 4 s) (read_exact-Shorter 4 s)
