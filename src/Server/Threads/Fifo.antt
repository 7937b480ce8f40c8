-- ===== src/Server/Threads/Fifo.antt =====
-- What is offered to a client in a run of the interleaved threads, and what its socket carries.
pub mod Queue
pub mod Places
pub mod Steps
pub mod Early
pub mod Carries
pub mod Run
pub mod Drain
use cm108_driver_rust.Base.{
  ℕ, ◌≡◌, refl, sym, ap, ◌∙◌, subst, Bool, List, [], ◌∷◌, ◌++◌, Option, none, some, ◌==◌,
  if◌then◌else◌, append_assoc, append-nil,
}
use mathlib.Core.List.{Sublist}
use mathlib.Core.List.Sublist
use cm108_driver_rust.Types.{ClientMsg, ping, ServerMsg, pong, stats}
use cm108_driver_rust.Io.{IoResult, ok, err, Sink}
use cm108_driver_rust.Framing.{write_msg}
use cm108_driver_rust.Framing.Write.{Wrote, whole, part, write_msg-Wrote}
use cm108_driver_rust.Codec.Server.{server_encode}
use cm108_driver_rust.Codec.Framed.{to_framed}
use cm108_driver_rust.Gpio.{DeviceHandle}
use cm108_driver_rust.Ring.{Producer}
use cm108_driver_rust.Registry.{ClientHandle, ClientRegistry, get}
use cm108_driver_rust.Server.Writer.{stream, Streams, all_of_them, the_first}
use cm108_driver_rust.Server.Threads.{
  Pc, accepted, stored, has_tx, WriterPc, unspawned, waiting, ended, writing, Connection, id_of,
  queue_of, Broadcast, System, Move, connection, broadcasts, move,
}
use cm108_driver_rust.Server.Threads.Isolation.{hears}

-- What a thread is about to send to its own client.
abbrev pub replies : Pc → List ServerMsg
replies (stored id ping) = pong ∷ []
replies (has_tx id lat rx tx) = stats rx tx lat ∷ []
replies _ = []

-- What a client of the registry hears of a broadcast.
abbrev pub hears_by : Broadcast → Option ClientHandle → List ServerMsg
hears_by b none = []
hears_by b (some h) = hears h.streams b

abbrev pub hears_of : {D R : Type 0} → Move D R → Option ClientHandle → List ServerMsg
hears_of (broadcasts b) o = hears_by b o
hears_of _ o = []

abbrev pub replies_of : {D R : Type 0} → ℕ → Move D R → Pc → List ServerMsg
replies_of k (connection j now) p = if k == j then replies p else []
replies_of k _ p = []

-- What the move `m` sends to the client of the connection `k`: the replies of its own thread, and
-- the broadcasts that it is subscribed to then.
unfoldable pub offered : {D R : Type 0} → ℕ → Move D R → System D R → List ServerMsg
offered k m sys =
    let p = (sys.connections k).pc in
    replies_of k m p ++ hears_of m (get (id_of p) sys.ctx.registry.clients)

module _ {D R : Type 0} (handle : DeviceHandle D) (producer : Producer R) where
  unfoldable pub offered_in : ℕ → List (Move D R) → System D R → List ServerMsg
  offered_in k [] sys = []
  offered_in k (m ∷ ms) sys = offered k m sys ++ offered_in k ms (move handle producer m sys)

abbrev pub in_hand : WriterPc → List ServerMsg
in_hand (writing msg) = msg ∷ []
in_hand _ = []

-- The socket behind the messages `taken`, of which the last may have failed if the writer has ended.
abbrev pub Written : List ServerMsg → WriterPc → Sink → Type 0
Written taken ended w = Streams [] taken w
Written taken _ w = w.sent ≡ stream taken

pub stream-append :
    (ms : List ServerMsg) (m : ServerMsg) → stream (ms ++ m ∷ []) ≡ stream ms ++ to_framed m
stream-append [] m = append-nil (to_framed m)
stream-append (x ∷ ms) m =
    ap (λ l. to_framed x ++ l) (stream-append ms m)
    ∙ sym (append_assoc (to_framed x) (stream ms) (to_framed m))

-- Of the messages offered, those that the writer has written, the one that it has in hand and those
-- that are queued, in this order; some offered ones are missing where the queue was full.
pub record Fifo (history : List ServerMsg) (c : Connection) (queue : List ServerMsg) : Type 0 where
  pub taken : List ServerMsg
  pub written : Written taken c.writer c.sink
  pub order : Sublist (taken ++ (in_hand c.writer ++ queue)) history

-- A step that adds to the queue, or takes from it.
pub extends :
    (history off q q' : List ServerMsg) (c c' : Connection)
    → in_hand c'.writer ≡ in_hand c.writer
    → ((taken : List ServerMsg) → Written taken c.writer c.sink → Written taken c'.writer c'.sink)
    → Sublist q' (q ++ off)
    → Fifo history c q
    → Fifo (history ++ off) c' q'
extends history off q q' c c' hand keeps sub h =
    let t : List ServerMsg = h.taken in
    let i : List ServerMsg = in_hand c.writer in
    let longer : Sublist (t ++ (i ++ q')) (t ++ (i ++ (q ++ off))) =
      Sublist.append (Sublist.refl t) (Sublist.append (Sublist.refl i) sub) in
    let regroup : t ++ (i ++ (q ++ off)) ≡ (t ++ (i ++ q)) ++ off =
      ap (λ l. t ++ l) (sym (append_assoc i q off)) ∙ sym (append_assoc t (i ++ q) off) in
    record {
      taken = t;
      written = keeps t h.written;
      order =
          subst (λ l. Sublist (t ++ (l ++ q')) (history ++ off)) (sym hand)
            (Sublist.trans (subst (λ l. Sublist (t ++ (i ++ q')) l) regroup longer)
              (Sublist.append h.order (Sublist.refl off)));
    }
