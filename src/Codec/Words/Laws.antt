-- ===== src/Codec/Words/Laws.antt =====
-- Each reader gives back what its writer wrote, and reads nothing else.
use cm108_driver_rust.Base.{
  >>=-eq-some, Bool-cases, inl, inr, false, ℕ, zero, suc, ◌/◌, ◌^◌, ◌≤◌, ◌<◌, ◌≡◌, refl, sym, ap,
  ap₂, ◌∙◌, List, [], ◌∷◌, ◌++◌, subst, subst₂, Option, none, some, false, ltb, lt→ltb, le→ltb,
  length, take, drop, All, length-append, take-append, drop-append, take-append-drop, append_assoc,
  arith, All-take, All-drop, length-take, if◌then◌else◌, dec_lt, mod-eq_of_lt, pow-suc,
}
use cm108_driver_rust.Types.{IsU8, IsU16, IsU32, IsU64}
use cm108_driver_rust.Codec.Words.{
  to_le_bytes, from_le_bytes, push_u16, push_str, read_u8, read_u16, read_u32, read_u64, read_str,
}
use cm108_driver_rust.Codec.Words.Utf8.{is_utf8, from_utf8, IsText}

pub length-to_le_bytes : (n v : ℕ) → length (to_le_bytes n v) ≡ n
unfolding to_le_bytes
length-to_le_bytes zero v = refl
length-to_le_bytes (suc n) v = ap suc (length-to_le_bytes n (v / 256))

pub to_le_bytes-bytes : (n v : ℕ) → All IsU8 (to_le_bytes n v)
unfolding to_le_bytes
to_le_bytes-bytes zero v = tt
to_le_bytes-bytes (suc n) v = (omega arith, to_le_bytes-bytes n (v / 256))

pub from_le_bytes-to_le_bytes : (n v : ℕ) → v < 256 ^ n → from_le_bytes (to_le_bytes n v) ≡ v
unfolding from_le_bytes to_le_bytes
from_le_bytes-to_le_bytes zero v h = omega arith
from_le_bytes-to_le_bytes (suc n) v h =
    omega (arith, from_le_bytes-to_le_bytes n (v / 256) (omega (arith, pow-suc 256 n)))

from_le_bytes_lt : (bs : List ℕ) → All IsU8 bs → from_le_bytes bs < 256 ^ length bs
unfolding from_le_bytes
from_le_bytes_lt [] h = omega arith
from_le_bytes_lt (b ∷ bs) (hb, hs) = omega (arith, pow-suc 256 (length bs), from_le_bytes_lt bs hs)

to_le_bytes-from_le_bytes :
    (bs : List ℕ) → All IsU8 bs → to_le_bytes (length bs) (from_le_bytes bs) ≡ bs
unfolding from_le_bytes to_le_bytes
to_le_bytes-from_le_bytes [] h = refl
to_le_bytes-from_le_bytes (b ∷ bs) (hb, hs) =
    ap₂ ◌∷◌ (omega arith)
      (ap (to_le_bytes (length bs)) (omega arith) ∙ to_le_bytes-from_le_bytes bs hs)

-- What it means that the integer of `n` bytes at the front of `buf` is `v`, before `rest`.
pub record Reads (n : ℕ) (buf : List ℕ) (v : ℕ) (rest : List ℕ) : Type 0 where
  pub split : buf ≡ to_le_bytes n v ++ rest
  pub ranged : v < 256 ^ n
  pub bytes : All IsU8 rest

long_enough : (n v : ℕ) (rest : List ℕ) → ltb (length (to_le_bytes n v ++ rest)) n ≡ false
long_enough n v rest =
    le→ltb _ _ (omega (arith, length-append (to_le_bytes n v) rest, length-to_le_bytes n v))

-- One step of a reader of `n` bytes on what the writer wrote.
read_back :
    (n v : ℕ) (rest : List ℕ)
    → v < 256 ^ n
    → (from_le_bytes (take n (to_le_bytes n v ++ rest)) ≡ v)
      × (drop n (to_le_bytes n v ++ rest) ≡ rest)
read_back n v rest h = (
  ap from_le_bytes (take-append n (to_le_bytes n v) rest (length-to_le_bytes n v))
      ∙ from_le_bytes-to_le_bytes n v h,
  drop-append n (to_le_bytes n v) rest (length-to_le_bytes n v),
)

-- What a reader of `n` bytes takes from a buffer that is long enough.
taken :
    (n : ℕ) (buf : List ℕ)
    → All IsU8 buf
    → n ≤ length buf
    → Reads n buf (from_le_bytes (take n buf)) (drop n buf)
taken n buf h k = record {
  split = sym (ap (λ l. l ++ drop n buf) whole ∙ take-append-drop n buf);
  ranged = subst (λ m. from_le_bytes (take n buf) < 256 ^ m) exact (from_le_bytes_lt _ few);
  bytes = All-drop IsU8 n buf h;
}
  where
    few : All IsU8 (take n buf)
    few = All-take IsU8 n buf h

    exact : length (take n buf) ≡ n
    exact = omega (arith, length-take n buf)

    whole : to_le_bytes n (from_le_bytes (take n buf)) ≡ take n buf
    whole =
        ap (λ m. to_le_bytes m (from_le_bytes (take n buf))) (sym exact)
        ∙ to_le_bytes-from_le_bytes (take n buf) few

-- The common form of the readers of more than one byte.
abbrev take_int : ℕ → List ℕ → Option (ℕ × List ℕ)
take_int n buf = if ltb (length buf) n then none else some (from_le_bytes (take n buf), drop n buf)

-- A reader of `n` bytes that succeeds has taken the integer at the front.
taken_of_some :
    (n : ℕ) (buf : List ℕ) (v : ℕ) (rest : List ℕ)
    → All IsU8 buf
    → take_int n buf ≡ some (v, rest)
    → Reads n buf v rest
taken_of_some n buf v rest h e = elim (dec_lt (length buf) n) [
  | yes short ↦
      let never : ◌≡◌ {A = Option (ℕ × List ℕ)} none (some (v, rest)) =
        rw (lt→ltb (length buf) n short) at e in
      cc
  | no long ↦
      let same : ◌≡◌ {A = Option (ℕ × List ℕ)} (some (from_le_bytes (take n buf), drop n buf))
          (some (v, rest)) =
        rw (le→ltb (length buf) n (omega arith)) at e in
      subst₂ (λ w l. Reads n buf w l) (cc) (cc) (taken n buf h (omega arith))
]

pub read_u8-push : (v : ℕ) (rest : List ℕ) → read_u8 (v ∷ rest) ≡ some (v, rest)
unfolding read_u8
read_u8-push v rest = refl

pub read_u16-push :
    (v : ℕ) (rest : List ℕ) → IsU16 v → read_u16 (to_le_bytes 2 v ++ rest) ≡ some (v, rest)
unfolding read_u16
read_u16-push v rest h = let r = read_back 2 v rest h in rw (long_enough 2 v rest, r.0, r.1)

pub read_u32-push :
    (v : ℕ) (rest : List ℕ) → IsU32 v → read_u32 (to_le_bytes 4 v ++ rest) ≡ some (v, rest)
unfolding read_u32
read_u32-push v rest h = let r = read_back 4 v rest h in rw (long_enough 4 v rest, r.0, r.1)

pub read_u64-push :
    (v : ℕ) (rest : List ℕ) → IsU64 v → read_u64 (to_le_bytes 8 v ++ rest) ≡ some (v, rest)
unfolding read_u64
read_u64-push v rest h = let r = read_back 8 v rest h in rw (long_enough 8 v rest, r.0, r.1)

pub read_u8-Reads :
    (buf : List ℕ) {v : ℕ} {rest : List ℕ}
    → All IsU8 buf
    → read_u8 buf ≡ some (v, rest)
    → (buf ≡ v ∷ rest) × IsU8 v × All IsU8 rest
unfolding read_u8
read_u8-Reads [] h e = cc
read_u8-Reads (b ∷ bs) {v} {rest} (hb, hs) e =
    let head : b ≡ v = cc in
    let tail : bs ≡ rest = cc in (cc, subst IsU8 head hb, subst (All IsU8) tail hs)

pub read_u16-Reads :
    (buf : List ℕ) {v : ℕ} {rest : List ℕ}
    → All IsU8 buf
    → read_u16 buf ≡ some (v, rest)
    → Reads 2 buf v rest
unfolding read_u16
read_u16-Reads buf h e = taken_of_some 2 buf _ _ h e

pub read_u32-Reads :
    (buf : List ℕ) {v : ℕ} {rest : List ℕ}
    → All IsU8 buf
    → read_u32 buf ≡ some (v, rest)
    → Reads 4 buf v rest
unfolding read_u32
read_u32-Reads buf h e = taken_of_some 4 buf _ _ h e

pub read_u64-Reads :
    (buf : List ℕ) {v : ℕ} {rest : List ℕ}
    → All IsU8 buf
    → read_u64 buf ≡ some (v, rest)
    → Reads 8 buf v rest
unfolding read_u64
read_u64-Reads buf h e = taken_of_some 8 buf _ _ h e

-- A string of fewer than 2^16 bytes comes back from `read_str`; its length prefix is exact.
pub read_str-push :
    (s rest : List ℕ)
    → IsText s
    → length s < 2 ^ 16
    → read_str (push_str [] s ++ rest) ≡ some (s, rest)
unfolding read_str push_str push_u16 from_utf8
read_str-push s rest h k = rw (
  mod-eq_of_lt k,
  append_assoc (to_le_bytes 2 (length s)) s rest,
  read_u16-push (length s) (s ++ rest) k,
  le→ltb (length (s ++ rest)) (length s) (omega (arith, length-append s rest)),
  take-append (length s) s rest refl,
  h,
  drop-append (length s) s rest refl,
)

from_utf8-IsText : (bs s : List ℕ) → from_utf8 bs ≡ some s → (bs ≡ s) × IsText s
unfolding from_utf8
from_utf8-IsText bs s e = elim (Bool-cases (is_utf8 bs)) [
  | inl y ↦ let same : bs ≡ s = ground arith in (same, ap is_utf8 (sym same) ∙ y)
  | inr n ↦ absurd (ground arith)
]

push_str_lem :
    (n : ℕ) (s rest : List ℕ)
    → length s ≡ n
    → n < 2 ^ 16
    → push_str [] s ++ rest ≡ to_le_bytes 2 n ++ (s ++ rest)
unfolding push_str push_u16
push_str_lem n s rest e h =
    rw (e, mod-eq_of_lt {n = n} {m = 2 ^ 16} h) (append_assoc (to_le_bytes 2 n) s rest)

-- A string that is read is UTF-8, has fewer than 2^16 bytes, and stood in the buffer as written.
pub read_str-Reads :
    (buf s rest : List ℕ)
    → All IsU8 buf
    → read_str buf ≡ some (s, rest)
    → (buf ≡ push_str [] s ++ rest) × (IsText s × All IsU8 s × (length s < 2 ^ 16)) × All IsU8 rest
unfolding read_str
read_str-Reads buf s rest h e =
    let ((n, b), e₁, k₁) = >>=-eq-some (read_u16 buf) _ e in
    let r = read_u16-Reads buf h e₁ in
    elim (dec_lt (length b) n) [
      | yes short ↦
          let never : ◌≡◌ {A = Option (List ℕ × List ℕ)} none (some (s, rest)) =
            rw (lt→ltb (length b) n short) at k₁ in
          cc
      | no long ↦
          let k₂ = rw (le→ltb (length b) n (omega arith)) at k₁ in
          let (t, e₃, k₃) = >>=-eq-some (from_utf8 (take n b)) _ k₂ in
          let (same, text) = from_utf8-IsText (take n b) t e₃ in
          let es : take n b ≡ s = cc in
          let er : drop n b ≡ rest = cc in
          let size : length (take n b) ≡ n = omega (arith, length-take n b) in
          subst₂
            (λ x l.
              (buf ≡ push_str [] x ++ l)
              × (IsText x × All IsU8 x × (length x < 2 ^ 16))
              × All IsU8 l)
            es er
            (
              r.split
                  ∙ ap (λ l. to_le_bytes 2 n ++ l) (sym (take-append-drop n b))
                  ∙ sym (push_str_lem n (take n b) (drop n b) size r.ranged),
              (subst IsText (sym same) text, All-take IsU8 n b r.bytes, omega (arith, r.ranged)),
              All-drop IsU8 n b r.bytes,
            )
    ]
