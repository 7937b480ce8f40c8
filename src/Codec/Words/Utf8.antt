-- ===== src/Codec/Words/Utf8.antt =====
-- `std::str::from_utf8`: which byte sequences are UTF-8 (the table of well-formed sequences of the
-- Unicode standard, which the standard library documents).
use cm108_driver_rust.Base.{
  ℕ, zero, suc, ◌≡◌, refl, List, [], ◌∷◌, Option, none, some, Bool, true, false, ◌&&◌, ltb, leb,
  ◌==◌, if◌then◌else◌,
}
use cm108_driver_rust.Types.{Text}

-- What a first byte asks for: how many bytes follow, and the range of the first of these.
record Lead : Type 0 where
  more : ℕ
  low : ℕ
  high : ℕ

abbrev lead : ℕ → ℕ → ℕ → Option Lead
lead n l h = some (record { more = n; low = l; high = h })

first_byte : ℕ → Option Lead
first_byte b =
    if ltb b 0x80
    then lead 0 0x80 0xbf
    else if ltb b 0xc2
    then none
    else if ltb b 0xe0
    then lead 1 0x80 0xbf
    else if b == 0xe0
    then lead 2 0xa0 0xbf
    else if b == 0xed
    then lead 2 0x80 0x9f
    else if ltb b 0xf0
    then lead 2 0x80 0xbf
    else if b == 0xf0
    then lead 3 0x90 0xbf
    else if ltb b 0xf4
    then lead 3 0x80 0xbf
    else if b == 0xf4
    then lead 3 0x80 0x8f
    else none

-- `n` bytes of the current character are to come, the next of them between `low` and `high`.
utf8_from : ℕ → ℕ → ℕ → List ℕ → Bool
utf8_from zero low high [] = true
utf8_from zero low high (b ∷ bs) = elim (first_byte b) [
  | none ↦ false
  | some l ↦ utf8_from l.more l.low l.high bs
]
utf8_from (suc n) low high [] = false
utf8_from (suc n) low high (b ∷ bs) = elim (leb low b && leb b high) [
  | true ↦ utf8_from n 0x80 0xbf bs
  | false ↦ false
]

unfoldable pub is_utf8 : List ℕ → Bool
unfolding utf8_from first_byte
is_utf8 bs = utf8_from 0 0x80 0xbf bs

unfoldable pub from_utf8 : List ℕ → Option Text
from_utf8 bs = if is_utf8 bs then some bs else none

-- A value of type `String`.
abbrev pub IsText : Text → Type 0
IsText s = is_utf8 s ≡ true

-- "é€😀" is accepted, a surrogate, an overlong form and a cut character are not.
accepts_unicode : is_utf8 (0xc3 ∷ 0xa9 ∷ 0xe2 ∷ 0x82 ∷ 0xac ∷ 0xf0 ∷ 0x9f ∷ 0x98 ∷ 0x80 ∷ []) ≡ true
unfolding is_utf8
accepts_unicode = refl

rejects_surrogate : is_utf8 (0xed ∷ 0xa0 ∷ 0x80 ∷ []) ≡ false
unfolding is_utf8
rejects_surrogate = refl

rejects_overlong : is_utf8 (0xe0 ∷ 0x80 ∷ 0x80 ∷ []) ≡ false
unfolding is_utf8
rejects_overlong = refl

rejects_cut : is_utf8 (0xe2 ∷ 0x82 ∷ []) ≡ false
unfolding is_utf8
rejects_cut = refl
