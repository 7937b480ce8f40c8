-- ===== src/Io/Laws.antt =====
-- Reading from a socket that delivers bytes with pauses between them.
use cm108_driver_rust.Base.{
  ℕ, zero, suc, ◌<◌, ◌≡◌, refl, ap, subst, Bool, true, false, List, [], ◌∷◌, ◌++◌, map, length,
  arith,
}
use cm108_driver_rust.Io.{
  ok, err, unexpected_eof, would_block, byte, pause, Input, prepend, read_exact,
}

-- The input `s` brings the bytes `bs`, with pauses among them, and then `rest`.
pub data Delivers : List ℕ → Input → Input → Type 0 where
  done : {s : Input} → Delivers [] s s
  next :
      {b : ℕ} {bs : List ℕ} {s rest : Input}
      → Delivers bs s rest
      → Delivers (b ∷ bs) (byte b ∷ s) rest
  wait :
      {b : ℕ} {bs : List ℕ} {s rest : Input}
      → Delivers (b ∷ bs) s rest
      → Delivers (b ∷ bs) (pause ∷ s) rest

-- A blocking read of as many bytes waits for them and gets them.
pub read_exact-Delivers :
    {bs : List ℕ} {s rest : Input}
    → Delivers bs s rest
    → read_exact false (length bs) s ≡ (ok bs, rest)
unfolding read_exact
read_exact-Delivers done = refl
read_exact-Delivers (next {b} d) = ap (prepend b) (read_exact-Delivers d)
read_exact-Delivers (wait d) = read_exact-Delivers d

-- Delivery in two parts.
pub data Both (xs ys : List ℕ) (s rest : Input) : Type 0 where
  both : (mid : Input) → Delivers xs s mid → Delivers ys mid rest → Both xs ys s rest

Both-next :
    {b : ℕ} {xs ys : List ℕ} {s rest : Input}
    → Both xs ys s rest
    → Both (b ∷ xs) ys (byte b ∷ s) rest
Both-next (both mid d e) = both mid (next d) e

Both-wait :
    {b : ℕ} {xs ys : List ℕ} {s rest : Input}
    → Both (b ∷ xs) ys s rest
    → Both (b ∷ xs) ys (pause ∷ s) rest
Both-wait (both mid d e) = both mid (wait d) e

pub Delivers-split :
    (xs ys : List ℕ) {zs : List ℕ} {s rest : Input}
    → zs ≡ xs ++ ys
    → Delivers zs s rest
    → Both xs ys s rest
Delivers-split [] ys {s} {rest} e d = both s done (subst (λ l. Delivers l s rest) e d)
Delivers-split (x ∷ xs) ys e done = absurd (cc)
Delivers-split (x ∷ xs) ys e (next {b} {bs} {s} {rest} d) =
    let eb : b ≡ x = cc in
    let es : bs ≡ xs ++ ys = cc in
    subst (λ c. Both (c ∷ xs) ys (byte b ∷ s) rest) eb (Both-next (Delivers-split xs ys es d))
Delivers-split (x ∷ xs) ys e (wait d) = Both-wait (Delivers-split (x ∷ xs) ys e d)

-- A non-blocking read that meets a pause before it has all its bytes fails, and the bytes that it
-- took are gone.
pub read_exact-short :
    (bs : List ℕ) (n : ℕ) (s : Input)
    → length bs < n
    → read_exact true n (map byte bs ++ pause ∷ s) ≡ (err would_block, s)
unfolding read_exact
read_exact-short bs zero s h = absurd (omega arith)
read_exact-short [] (suc n) s h = refl
read_exact-short (b ∷ bs) (suc n) s h = ap (prepend b) (read_exact-short bs n s (omega arith))

-- So does any read at whose end the stream ends.
pub read_exact-eof :
    (nonblocking : Bool) (bs : List ℕ) (n : ℕ)
    → length bs < n
    → read_exact nonblocking n (map byte bs) ≡ (err unexpected_eof, [])
unfolding read_exact
read_exact-eof nb bs zero h = absurd (omega arith)
read_exact-eof nb [] (suc n) h = refl
read_exact-eof nb (b ∷ bs) (suc n) h = ap (prepend b) (read_exact-eof nb bs n (omega arith))

-- Bytes that are there are read in either mode.
pub read_exact-bytes :
    (nonblocking : Bool) (bs : List ℕ) (s : Input)
    → read_exact nonblocking (length bs) (map byte bs ++ s) ≡ (ok bs, s)
unfolding read_exact
read_exact-bytes nb [] s = refl
read_exact-bytes nb (b ∷ bs) s = ap (prepend b) (read_exact-bytes nb bs s)
