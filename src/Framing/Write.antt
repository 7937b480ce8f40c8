-- ===== src/Framing/Write.antt =====
-- What the two message writers put on a socket.
use cm108_driver_rust.Base.{
  ℕ, ◌≡◌, refl, sym, ap, ◌∙◌, List, [], ◌∷◌, ◌++◌, take, drop, take-append-drop, append_assoc,
}
use cm108_driver_rust.Types.{ClientMsg, ServerMsg}
use cm108_driver_rust.Codec.Traits.{to_vec}
use cm108_driver_rust.Codec.Client.{client_encode}
use cm108_driver_rust.Codec.Server.{server_encode}
use cm108_driver_rust.Codec.Framed.{to_framed}
use cm108_driver_rust.Io.{IoResult, ok, err, other, Sink, Outcome, accepts, breaks, write_all}
use cm108_driver_rust.Framing.{and_then, write_msg, write_client_msg}

-- The result `r` of writing `bs` behind what had been sent: all of it and success, or some of it and
-- an error.
pub data Wrote (before bs : List ℕ) (r : IoResult (Unit {0}) × Sink) : Type 0 where
  whole : r.0 ≡ ok tt → r.1.sent ≡ before ++ bs → Wrote before bs r
  part :
      (front back : List ℕ)
      → bs ≡ front ++ back
      → r.0 ≡ err other
      → r.1.sent ≡ before ++ front
      → Wrote before bs r

-- One write.
write_all-Wrote :
    (bs before : List ℕ) (os : List Outcome)
    → Wrote before bs (write_all bs (record { sent = before; outcomes = os }))
unfolding write_all
write_all-Wrote bs before [] = whole refl refl
write_all-Wrote bs before (accepts ∷ os) = whole refl refl
write_all-Wrote bs before (breaks n ∷ os) =
    part (take n bs) (drop n bs) (sym (take-append-drop n bs)) refl refl

-- Behind a write that went well.
Wrote-append :
    (xs ys before : List ℕ) {r : IoResult (Unit {0}) × Sink}
    → Wrote (before ++ xs) ys r
    → Wrote before (xs ++ ys) r
Wrote-append xs ys before (whole ended e) = whole ended (e ∙ append_assoc before xs ys)
Wrote-append xs ys before (part front back split failed e) =
    part (xs ++ front) back (ap (λ l. xs ++ l) split ∙ sym (append_assoc xs front back)) failed
      (e ∙ append_assoc before xs front)

-- Two writes in a row, the second only after a success of the first.
two_writes :
    (xs ys before : List ℕ) (os : List Outcome)
    → Wrote before
        (xs ++ ys)
        (and_then (write_all xs (record { sent = before; outcomes = os })) (write_all ys))
two_writes xs ys before [] =
    unfold write_all in Wrote-append xs ys before (write_all-Wrote ys (before ++ xs) [])
two_writes xs ys before (accepts ∷ os) =
    unfold write_all in Wrote-append xs ys before (write_all-Wrote ys (before ++ xs) os)
two_writes xs ys before (breaks n ∷ os) =
    unfold write_all in
    part (take n xs) (drop n xs ++ ys)
      (ap (λ l. l ++ ys) (sym (take-append-drop n xs)) ∙ append_assoc (take n xs) _ ys) refl refl

-- `write_msg` puts the packet of the message on the socket, as `to_framed` makes it, and succeeds;
-- or it fails, after some front part of the packet.
pub write_msg-Wrote : (m : ServerMsg) (w : Sink) → Wrote w.sent (to_framed m) (write_msg m w)
unfolding write_msg to_framed
write_msg-Wrote m w = two_writes _ (to_vec m) w.sent w.outcomes

-- `write_client_msg` puts the packet of the message on the socket, as `to_framed` makes it, and
-- succeeds; or it fails, after some front part of the packet.
pub write_client_msg-Wrote :
    (m : ClientMsg) (w : Sink) → Wrote w.sent (to_framed m) (write_client_msg m w)
unfolding write_client_msg to_framed
write_client_msg-Wrote m w = two_writes _ (to_vec m) w.sent w.outcomes
