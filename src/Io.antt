-- ===== src/Io.antt =====
-- What the program uses of `std::io`: results, `read_exact`, `write_all`. A socket's input is the
-- list of what arrives on it: bytes, moments at which nothing is there yet, and failures; its end is
-- the end of the stream.
pub mod Laws
use cm108_driver_rust.Base.{ℕ, zero, suc, Bool, List, [], ◌∷◌, ◌++◌, take, if◌then◌else◌}

pub data ErrorKind : Type 0 where
  unexpected_eof would_block invalid_data other : ErrorKind

pub data IoResult {ℓ} (A : Type ℓ) : Type ℓ where
  ok : A → IoResult A
  err : ErrorKind → IoResult A

pub data Arrival : Type 0 where
  byte : ℕ → Arrival
  pause : Arrival
  fails : Arrival

abbrev pub Input : Type 0
Input = List Arrival

-- A reader is a socket in blocking or in non-blocking mode; what it has read is gone from the input.
abbrev pub Io : Type 0 → Type 0
Io A = Input → IoResult A × Input

abbrev pub pure : {A : Type 0} → A → Io A
pure a s = (ok a, s)

abbrev pub raise : {A : Type 0} → ErrorKind → Io A
raise e s = (err e, s)

abbrev pub resume : {A B : Type 0} → (A → Io B) → IoResult A × Input → IoResult B × Input
resume f (ok a, s) = f a s
resume f (err e, s) = (err e, s)

-- The `?` operator.
infixl 5 ◌>>=◌
abbrev pub ◌>>=◌ : {A B : Type 0} → Io A → (A → Io B) → Io B
◌>>=◌ m f s = resume f (m s)

-- One more byte in front of those that follow.
abbrev pub prepend : ℕ → IoResult (List ℕ) × Input → IoResult (List ℕ) × Input
prepend b (ok bs, s) = (ok (b ∷ bs), s)
prepend b (err e, s) = (err e, s)

-- `read_exact` of `n` bytes: what it has taken when it fails is lost.
unfoldable pub read_exact : Bool → ℕ → Io (List ℕ)
read_exact nonblocking zero s = (ok [], s)
read_exact nonblocking (suc n) [] = (err unexpected_eof, [])
read_exact nonblocking (suc n) (byte b ∷ s) = prepend b (read_exact nonblocking n s)
read_exact nonblocking (suc n) (pause ∷ s) =
    let wait = read_exact nonblocking (suc n) s in
    if nonblocking then (err would_block, s) else wait
read_exact nonblocking (suc n) (fails ∷ s) = (err other, s)

-- What becomes of one `write_all`: all bytes go out, or some do before an error.
pub data Outcome : Type 0 where
  accepts : Outcome
  breaks : ℕ → Outcome

-- The bytes that have gone out, and the outcomes of the writes to come; after these all succeed.
pub record Sink : Type 0 where
  pub sent : List ℕ
  pub outcomes : List Outcome

abbrev write_as : Outcome → List ℕ → Sink → IoResult (Unit {0}) × Sink
write_as accepts bs w = (ok tt, record w { sent = w.sent ++ bs })
write_as (breaks n) bs w = (err other, record w { sent = w.sent ++ take n bs })

abbrev next_outcome : List Outcome → Outcome × List Outcome
next_outcome [] = (accepts, [])
next_outcome (o ∷ os) = (o, os)

unfoldable pub write_all : List ℕ → Sink → IoResult (Unit {0}) × Sink
write_all bs w = let (o, os) = next_outcome w.outcomes in write_as o bs (record w { outcomes = os })
