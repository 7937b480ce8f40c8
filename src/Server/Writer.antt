-- ===== src/Server/Writer.antt =====
-- The writer thread of a connection, in `handle_client` of crates/cm108-server/src/ipc.rs, and the
-- client at the other end of its socket.
use cm108_driver_rust.Base.{
  ℕ, zero, suc, ◌≡◌, refl, sym, ap, ◌∙◌, subst, List, [], ◌∷◌, ◌++◌, Option, some, map, length,
  append_assoc, append-nil, All,
}
use cm108_driver_rust.Types.{ServerMsg}
use cm108_driver_rust.Codec.Server.{server_encode}
use cm108_driver_rust.Codec.Server.Laws.{IsServerMsg}
use cm108_driver_rust.Codec.Framed.{to_framed}
use cm108_driver_rust.Io.{IoResult, ok, err, Input, Sink}
use cm108_driver_rust.Io.Laws.{Delivers, done, Both, both, Delivers-split}
use cm108_driver_rust.Framing.{write_msg}
use cm108_driver_rust.Framing.Read.{FitsPayload, read_server_msg-Delivers}
use cm108_driver_rust.Framing.Write.{Wrote, whole, part, write_msg-Wrote}
use cm108_driver_rust.Client.{ClientResult, returns, as_client, wait_msg}

-- On with the next message, or the end.
abbrev pub on_written : (Sink → Sink) → IoResult (Unit {0}) × Sink → Sink
on_written go_on (ok _, w) = go_on w
on_written go_on (err e, w) = w

-- The thread, for the messages that it takes from its queue, up to the first that it cannot write.
unfoldable pub writer_loop : List ServerMsg → Sink → Sink
writer_loop [] w = w
writer_loop (msg ∷ msgs) w = on_written (writer_loop msgs) (write_msg msg w)

-- The packets of some messages.
abbrev pub stream : List ServerMsg → List ℕ
stream [] = []
stream (m ∷ ms) = to_framed m ++ stream ms

-- What the thread leaves on the socket: all packets, or those of the first messages and a front part
-- of the next one.
pub data Streams (before : List ℕ) (ms : List ServerMsg) (w : Sink) : Type 0 where
  all_of_them : w.sent ≡ before ++ stream ms → Streams before ms w
  the_first :
      (kept : List ServerMsg) (broken : ServerMsg) (lost : List ServerMsg) (front back : List ℕ)
      → ms ≡ kept ++ broken ∷ lost
      → to_framed broken ≡ front ++ back
      → w.sent ≡ before ++ (stream kept ++ front)
      → Streams before ms w

Streams-next :
    (before : List ℕ) (m : ServerMsg) (ms : List ServerMsg) (w : Sink)
    → Streams (before ++ to_framed m) ms w
    → Streams before (m ∷ ms) w
Streams-next before m ms w (all_of_them e) =
    all_of_them (e ∙ append_assoc before (to_framed m) (stream ms))
Streams-next before m ms w (the_first kept broken lost front back split cut e) =
    the_first (m ∷ kept) broken lost front back (ap (λ l. m ∷ l) split) cut (
      e
      ∙ append_assoc before (to_framed m) (stream kept ++ front)
      ∙ ap (λ l. before ++ l) (sym (append_assoc (to_framed m) (stream kept) front)))

-- The writer thread puts the packets of its messages on the socket in their order, whole and with
-- nothing between them, up to the first one that the socket does not take whole; behind a front part
-- of that it writes nothing more.
pub writer_loop-Streams : (ms : List ServerMsg) (w : Sink) → Streams w.sent ms (writer_loop ms w)
unfolding writer_loop
writer_loop-Streams [] w = all_of_them (sym (append-nil w.sent))
writer_loop-Streams (m ∷ ms) w =
    go (write_msg m w) (write_msg-Wrote m w) (λ v. writer_loop-Streams ms v)
  where
    go :
        (r : IoResult (Unit {0}) × Sink)
        → Wrote w.sent (to_framed m) r
        → ((v : Sink) → Streams v.sent ms (writer_loop ms v))
        → Streams w.sent (m ∷ ms) (on_written (writer_loop ms) r)
    go (r, v) (whole e sent) rest =
        subst (λ o. Streams w.sent (m ∷ ms) (on_written (writer_loop ms) (o, v))) (sym e)
          (Streams-next w.sent m ms (writer_loop ms v)
            (subst (λ l. Streams l ms (writer_loop ms v)) sent (rest v)))
    go (r, v) (part front back cut e sent) rest =
        subst (λ o. Streams w.sent (m ∷ ms) (on_written (writer_loop ms) (o, v))) (sym e)
          (the_first [] m ms front back refl cut sent)

-- So many calls of `wait_msg`, one after the other.
abbrev pub wait_all : ℕ → Input → List (ClientResult (Option ServerMsg)) × Input
wait_all zero s = ([], s)
wait_all (suc n) s = let (r, s') = wait_msg s in let (rs, s'') = wait_all n s' in (r ∷ rs, s'')

-- The client's end: from a socket that brings the packets of some valid messages, with whatever
-- pauses between the bytes, as many calls of `wait_msg` return these messages in their order, and what
-- follows is still to be read. Each payload is of 65,536 bytes at most.
pub wait_all-stream :
    (ms : List ServerMsg) (s rest : Input)
    → All IsServerMsg ms
    → All FitsPayload ms
    → Delivers (stream ms) s rest
    → wait_all (length ms) s ≡ (map (λ m. returns (some m)) ms, rest)
wait_all-stream [] s rest v fit d = ended d
  where
    ended :
        {s rest : Input}
        → Delivers [] s rest
        → ◌≡◌ {A = List (ClientResult (Option ServerMsg)) × Input} ([], s) ([], rest)
    ended done = refl
wait_all-stream (m ∷ ms) s rest (v, vs) (fit, fits) d =
    go (Delivers-split (to_framed m) (stream ms) refl d)
      (λ mid. wait_all-stream ms mid rest vs fits)
  where
    go :
        Both (to_framed m) (stream ms) s rest
        → ((mid : Input)
            → Delivers (stream ms) mid rest
            → wait_all (length ms) mid ≡ (map (λ m. returns (some m)) ms, rest))
        → wait_all (suc (length ms)) s ≡ (returns (some m) ∷ map (λ m. returns (some m)) ms, rest)
    go (both mid now later) ih =
        let first : wait_msg s ≡ (returns (some m), mid) =
          unfold wait_msg in ap as_client (read_server_msg-Delivers m v fit now) in
        ap
          (λ (p : ClientResult (Option ServerMsg) × Input).
            ((p.0 ∷ (wait_all (length ms) p.1).0), (wait_all (length ms) p.1).1))
          first
        ∙ ap (λ (p : List (ClientResult (Option ServerMsg)) × Input). (returns (some m) ∷ p.0, p.1))
            (ih mid later)
