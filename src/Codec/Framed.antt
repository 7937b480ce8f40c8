-- ===== src/Codec/Framed.antt =====
-- Length-prefixed packets, `to_framed` and `from_framed` of crates/cm108-types/src/codec.rs.
pub mod Laws
use cm108_driver_rust.Base.{
  ℕ, ◌%◌, ◌^◌, List, [], ◌++◌, Option, none, some, ltb, if◌then◌else◌, length, take, drop, ◌>>=◌,
}
use cm108_driver_rust.Codec.Words.{to_le_bytes, read_u32}
use cm108_driver_rust.Codec.Traits.{Encode, Decode, decode, to_vec}

unfoldable pub to_framed : {A : Type 0} ⦃e : Encode A⦄ → A → List ℕ
to_framed msg =
    let payload = to_vec msg in
    let out : List ℕ = [] in (out ++ to_le_bytes 4 (length payload % 2 ^ 32)) ++ payload

unfoldable pub from_framed : {A : Type 0} ⦃d : Decode A⦄ → List ℕ → Option (A × List ℕ)
from_framed buf = do
  (len, rest) ← read_u32 buf
  if ltb (length rest) len
      then none
      else do (val, _) ← decode (take len rest); some (val, drop len rest)
