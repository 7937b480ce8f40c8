-- ===== src/Shmem/Reading.antt =====
-- The steps of the reader keep the invariant of the seqlock, and a read that ends has the whole frame.
use cm108_driver_rust.Base.{
  ℕ, suc, ◌%◌, ◌≤◌, ◌<◌, ◌≡◌, inl, inr, refl, sym, ap, ◌∙◌, subst, List, [], ◌∷◌, ◌++◌, Option,
  ◌==◌, if-true, if-false, lt→ltb, le→ltb, ==_iff, length, length-append, get_or, take, take-all,
  take-suc, arith, dec_lt, Bool-cases, le_refl,
}
use cm108_driver_rust.Types.{AudioFrame}
use cm108_driver_rust.Shmem.{
  Memory, raw_bytes, from_raw, Writer, idle, loaded, copying, Reader, starting, reading, Event,
  reader_step, System,
}
use cm108_driver_rust.Shmem.Raw.{from_raw-raw_bytes}
use cm108_driver_rust.Shmem.Seqlock.{WriterOk, ReaderOk, Inv, Next}

-- While the counter is even, the memory holds the last frame that was written whole.
stable :
    (cur : AudioFrame) (k : ℕ) (m : Memory) (w : Writer)
    → WriterOk cur k m w
    → m.seq % 2 ≡ 0
    → m.cells ≡ raw_bytes cur
stable cur k m idle ok e = ok.1
stable cur k m (loaded c f) ok e = ok.2
stable cur k m (copying c f i) (even, odd, _, _, _) e = absurd (omega arith)

-- The reader's test passes: what it has copied is that frame.
test_passes :
    (cur : AudioFrame) (k s1 : ℕ) (buf : List ℕ) (m : Memory) (w : Writer)
    → Inv cur k (record { mem = m; writer = w; reader = reading s1 buf })
    → 192 ≤ length buf
    → m.seq ≡ s1
    → from_raw buf ≡ cur
test_passes cur k s1 buf m w inv long e =
    let (even, below, short, same) = inv.reader in
    let n : length buf ≡ 192 = omega arith in
    let whole : buf ≡ m.cells =
      same e ∙ ap (λ (i : ℕ). take i m.cells) n ∙ take-all 192 m.cells inv.full in
    ap from_raw (whole ∙ stable cur k m w inv.writer (omega arith)) ∙ from_raw-raw_bytes cur

abbrev pub after_reader : Memory → Writer → Reader × Option Event → System
after_reader m w (r, e) = record { mem = m; writer = w; reader = r }

-- The reader changes nothing but its own part.
pub new_reader :
    (cur : AudioFrame) (k : ℕ) (m : Memory) (w : Writer) (r r' : Reader)
    → Inv cur k (record { mem = m; writer = w; reader = r })
    → ReaderOk m r'
    → Inv cur k (record { mem = m; writer = w; reader = r' })
new_reader cur k m w r r' inv ok = record { full = inv.full; writer = inv.writer; reader = ok }

one_more :
    (m : Memory) (s1 : ℕ) (buf : List ℕ)
    → length m.cells ≡ 192
    → length buf < 192
    → ReaderOk m (reading s1 buf)
    → ReaderOk m (reading s1 (buf ++ get_or m.cells (length buf) 0 ∷ []))
one_more m s1 buf full below (even, le, short, same) =
    let b : ℕ = get_or m.cells (length buf) 0 in
    let size : suc (length buf) ≡ length (buf ++ b ∷ []) =
      omega (arith, length-append buf (b ∷ [])) in
    (
      even,
      le,
      omega (arith, size),
      λ e.
          ap (λ l. l ++ b ∷ []) (same e)
          ∙ take-suc (length buf) m.cells 0 (omega arith)
          ∙ ap (λ (n : ℕ). take n m.cells) size,
    )

-- Any step of the reader.
pub reader-Next :
    (cur : AudioFrame) (k : ℕ) (m : Memory) (w : Writer) (r : Reader)
    → Inv cur k (record { mem = m; writer = w; reader = r })
    → Next cur k (after_reader m w (reader_step m r)) (reader_step m r).1
unfolding reader_step
reader-Next cur k m w starting inv = elim (Bool-cases (m.seq % 2 == 0)) [
  | inl even ↦ rw even (
      new_reader cur k m w starting (reading m.seq []) inv
        ((==_iff _ _).0 even, le_refl _, omega arith, λ _. refl))
  | inr odd ↦ rw odd inv
]
reader-Next cur k m w (reading s1 buf) inv = elim (dec_lt (length buf) 192) [
  | yes below ↦
      subst (λ x. Next cur k (after_reader m w x) x.1)
        (sym (if-true _ _ (lt→ltb (length buf) 192 below)))
        (new_reader cur k m w (reading s1 buf) _ inv (one_more m s1 buf inv.full below inv.reader))
  | no above ↦
      subst (λ x. Next cur k (after_reader m w x) x.1)
        (sym (if-false _ _ (le→ltb (length buf) 192 (omega arith))))
        (elim (Bool-cases (m.seq == s1)) [
          | inl same ↦ rw same (
            test_passes cur k s1 buf m w inv (omega arith) ((==_iff _ _).0 same),
            new_reader cur k m w (reading s1 buf) starting inv tt,
          )
          | inr moved ↦ rw moved (new_reader cur k m w (reading s1 buf) starting inv tt)
        ])
]
