-- ===== src/Codec/Words.antt =====
-- The helper readers and writers of crates/cm108-types/src/codec.rs. A byte buffer is a list of
-- numbers below 256; a writer returns the longer buffer.
pub mod Laws
pub mod Utf8
use cm108_driver_rust.Base.{
  ℕ, zero, suc, ◌+◌, ◌*◌, ◌/◌, ◌%◌, ◌^◌, List, [], ◌∷◌, ◌++◌, Option, none, some, ltb,
  if◌then◌else◌, length, take, drop, ◌>>=◌,
}
use cm108_driver_rust.Types.{Text}
use Utf8.{from_utf8}

-- The `n` bytes of `v`, the lowest first: `to_le_bytes` of an integer of `n` bytes.
unfoldable pub to_le_bytes : ℕ → ℕ → List ℕ
to_le_bytes zero v = []
to_le_bytes (suc n) v = (v % 256) ∷ to_le_bytes n (v / 256)

unfoldable pub from_le_bytes : List ℕ → ℕ
from_le_bytes [] = 0
from_le_bytes (b ∷ bs) = b + from_le_bytes bs * 256

unfoldable pub push_u8 : List ℕ → ℕ → List ℕ
push_u8 buf v = buf ++ v ∷ []

unfoldable pub push_u16 : List ℕ → ℕ → List ℕ
push_u16 buf v = buf ++ to_le_bytes 2 v

unfoldable pub push_u32 : List ℕ → ℕ → List ℕ
push_u32 buf v = buf ++ to_le_bytes 4 v

unfoldable pub push_u64 : List ℕ → ℕ → List ℕ
push_u64 buf v = buf ++ to_le_bytes 8 v

-- `bytes.len() as u16` drops the high bits of a longer length.
unfoldable pub push_str : List ℕ → Text → List ℕ
push_str buf s = push_u16 buf (length s % 2 ^ 16) ++ s

unfoldable pub read_u8 : List ℕ → Option (ℕ × List ℕ)
read_u8 [] = none
read_u8 (b ∷ rest) = some (b, rest)

unfoldable pub read_u16 : List ℕ → Option (ℕ × List ℕ)
read_u16 buf = if ltb (length buf) 2 then none else some (from_le_bytes (take 2 buf), drop 2 buf)

unfoldable pub read_u32 : List ℕ → Option (ℕ × List ℕ)
read_u32 buf = if ltb (length buf) 4 then none else some (from_le_bytes (take 4 buf), drop 4 buf)

unfoldable pub read_u64 : List ℕ → Option (ℕ × List ℕ)
read_u64 buf = if ltb (length buf) 8 then none else some (from_le_bytes (take 8 buf), drop 8 buf)

unfoldable pub read_str : List ℕ → Option (Text × List ℕ)
read_str buf = do
  (len, rest) ← read_u16 buf
  if ltb (length rest) len then none else do s ← from_utf8 (take len rest); some (s, drop len rest)
