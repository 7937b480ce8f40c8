-- ===== src/Server/Threads/Fifo/Queue.antt =====
-- What a step of a connection, or of its writer thread, makes of its queue.
use cm108_driver_rust.Base.{
  ℕ, ◌≡◌, refl, sym, ap, ◌∙◌, subst, Bool, true, false, List, [], ◌∷◌, ◌++◌, Option, none, some,
  ltb, if◌then◌else◌, length, append_assoc,
}
use mathlib.Core.List.{Sublist, sublist-append_left, nil-sublist}
use mathlib.Core.List.Sublist
use cm108_driver_rust.Types.{ServerMsg}
use cm108_driver_rust.Io.{IoResult, ok, err, Sink}
use cm108_driver_rust.Framing.{write_msg}
use cm108_driver_rust.Framing.Write.{Wrote, whole, part, write_msg-Wrote}
use cm108_driver_rust.Codec.Server.{server_encode}
use cm108_driver_rust.Codec.Framed.{to_framed}
use cm108_driver_rust.Registry.{
  Channel, ClientHandle, ClientRegistry, get, modify, try_send, offer, received, hung_up,
  oldest_gone,
}
use cm108_driver_rust.Registry.Map.{on_some, get-modify_same}
use cm108_driver_rust.Registry.Inv.{offer-Keeps, received-Keeps, hung_up-Keeps}
use cm108_driver_rust.Registry.Deliver.{try_send_all}
use cm108_driver_rust.Server.Writer.{stream, all_of_them, the_first}
use cm108_driver_rust.Server.Threads.{
  WriterPc, unspawned, waiting, ended, writing, Connection, id_of, queue_in, queue_of, has_ended,
  take_next, written_by, write_next,
}
use cm108_driver_rust.Server.Threads.Fifo.{Fifo, Written, in_hand, stream-append}

pub try_send-sublist :
    (msg : ServerMsg) (c : Channel) → Sublist (try_send msg c).queued (c.queued ++ msg ∷ [])
unfolding try_send
try_send-sublist msg c = go c.connected (ltb (length c.queued) c.bound)
  where
    go :
        (up room : Bool)
        → let c' : Channel =
            if up then (if room then record c { queued = c.queued ++ msg ∷ [] } else c) else c in
          Sublist c'.queued (c.queued ++ msg ∷ [])
    go true true = Sublist.refl (c.queued ++ msg ∷ [])
    go true false = sublist-append_left c.queued (msg ∷ [])
    go false room = sublist-append_left c.queued (msg ∷ [])

pub try_send_all-sublist :
    (msgs : List ServerMsg) (c : Channel) → Sublist (try_send_all msgs c).queued (c.queued ++ msgs)
try_send_all-sublist [] c = sublist-append_left c.queued []
try_send_all-sublist (msg ∷ msgs) c = Sublist.trans (try_send_all-sublist msgs (try_send msg c)) (
    subst (λ l. Sublist ((try_send msg c).queued ++ msgs) l) (append_assoc c.queued (msg ∷ []) msgs)
      (Sublist.append (try_send-sublist msg c) (Sublist.refl msgs)))

-- A message to the client itself.
pub offer-sublist :
    (msg : ServerMsg) (left : List ServerMsg) (i : ℕ) (cs : List ClientHandle)
    → Sublist
        (queue_in left (get i (modify i (offer msg) cs)))
        (queue_in left (get i cs) ++ msg ∷ [])
offer-sublist msg left i cs =
    subst (λ o. Sublist (queue_in left o) (queue_in left (get i cs) ++ msg ∷ []))
      (sym (get-modify_same (offer msg) (offer-Keeps msg).same_id i cs)) (go (get i cs))
  where
    go :
        (o : Option ClientHandle)
        → Sublist (queue_in left (on_some (offer msg) o)) (queue_in left o ++ msg ∷ [])
    go none = sublist-append_left left (msg ∷ [])
    go (some h) = unfold offer in try_send-sublist msg h.sender

-- The oldest message leaves, or all do.
pub queue-received :
    (left : List ServerMsg) (i : ℕ) (cs : List ClientHandle)
    → queue_in (oldest_gone left) (get i (modify i received cs))
      ≡ oldest_gone (queue_in left (get i cs))
queue-received left i cs =
    ap (queue_in (oldest_gone left)) (get-modify_same received received-Keeps.same_id i cs)
    ∙ go (get i cs)
  where
    go :
        (o : Option ClientHandle)
        → queue_in (oldest_gone left) (on_some received o) ≡ oldest_gone (queue_in left o)
    go none = refl
    go (some h) = unfold received in refl

queue-hung_up : (i : ℕ) (cs : List ClientHandle) → queue_in [] (get i (modify i hung_up cs)) ≡ []
queue-hung_up i cs =
    ap (queue_in []) (get-modify_same hung_up hung_up-Keeps.same_id i cs) ∙ go (get i cs)
  where
    go : (o : Option ClientHandle) → queue_in [] (on_some hung_up o) ≡ []
    go none = refl
    go (some h) = unfold hung_up in refl

-- The writer thread.
take_next-Fifo :
    (history q : List ServerMsg) (c : Connection) (r : ClientRegistry)
    → c.writer ≡ waiting
    → queue_of c r ≡ q
    → Fifo history c q
    → let (c', r') = take_next q c r in Fifo history c' (queue_of c' r')
unfolding take_next queue_of
take_next-Fifo history [] c r w e h = go (has_ended c.pc)
  where
    sent : c.sink.sent ≡ stream h.taken
    sent = subst (λ p. Written h.taken p c.sink) w h.written

    go :
        (b : Bool)
        → let c' : Connection = if b then record c { writer = ended } else c in
          Fifo history c' (queue_in c'.left (get (id_of c'.pc) r.clients))
    go true = record {
      taken = h.taken;
      written = all_of_them sent;
      order =
          subst (λ l. Sublist (h.taken ++ l) history) (ap (λ p. in_hand p ++ []) w ∙ sym e) h.order;
    }
    go false = record {
      taken = h.taken;
      written = h.written;
      order = subst (λ l. Sublist (h.taken ++ (in_hand c.writer ++ l)) history) (sym e) h.order;
    }
take_next-Fifo history (msg ∷ msgs) c r w e h = record {
  taken = h.taken;
  written = subst (λ p. Written h.taken p c.sink) w h.written;
  order =
      subst (λ l. Sublist (h.taken ++ (msg ∷ l)) history)
        (sym (queue-received c.left (id_of c.pc) r.clients ∙ ap oldest_gone e))
        (subst (λ p. Sublist (h.taken ++ (in_hand p ++ (msg ∷ msgs))) history) w h.order);
}

written_by-Fifo :
    (history : List ServerMsg) (msg : ServerMsg) (c : Connection) (r : ClientRegistry)
    (o : IoResult (Unit {0}) × Sink)
    → c.writer ≡ writing msg
    → Wrote c.sink.sent (to_framed msg) o
    → Fifo history c (queue_of c r)
    → let (c', r') = written_by o c r in Fifo history c' (queue_of c' r')
unfolding written_by queue_of
written_by-Fifo history msg c r (o, v) w wrote h = go o wrote
  where
    q : List ServerMsg
    q = queue_in c.left (get (id_of c.pc) r.clients)

    sent : c.sink.sent ≡ stream h.taken
    sent = subst (λ p. Written h.taken p c.sink) w h.written

    order : Sublist ((h.taken ++ msg ∷ []) ++ q) history
    order =
        subst (λ l. Sublist l history)
          (ap (λ p. h.taken ++ (in_hand p ++ q)) w ∙ sym (append_assoc h.taken (msg ∷ []) q))
          h.order

    go :
        (o : IoResult (Unit {0}))
        → Wrote c.sink.sent (to_framed msg) (o, v)
        → let (c', r') = written_by (o, v) c r in
          Fifo history c' (queue_in c'.left (get (id_of c'.pc) r'.clients))
    go (ok _) (whole _ e) = record {
      taken = h.taken ++ msg ∷ [];
      written = e ∙ ap (λ l. l ++ to_framed msg) sent ∙ sym (stream-append h.taken msg);
      order = order;
    }
    go (ok _) (part front back split failed e) = absurd (cc)
    go (err k) (whole fine e) = absurd (cc)
    go (err k) (part front back split failed e) = record {
      taken = h.taken ++ msg ∷ [];
      written = the_first h.taken msg [] front back refl split (e ∙ ap (λ l. l ++ front) sent);
      order =
          subst (λ l. Sublist ((h.taken ++ msg ∷ []) ++ l) history)
            (sym (queue-hung_up (id_of c.pc) r.clients))
            (Sublist.trans (Sublist.append (Sublist.refl (h.taken ++ msg ∷ [])) (nil-sublist q))
              order);
    }

pub write_next-Fifo :
    (w : WriterPc) (history : List ServerMsg) (c : Connection) (r : ClientRegistry)
    → c.writer ≡ w
    → Fifo history c (queue_of c r)
    → let (c', r') = write_next w c r in Fifo history c' (queue_of c' r')
unfolding write_next
write_next-Fifo unspawned history c r e h = h
write_next-Fifo ended history c r e h = h
write_next-Fifo waiting history c r e h = take_next-Fifo history (queue_of c r) c r e refl h
write_next-Fifo (writing msg) history c r e h =
    written_by-Fifo history msg c r (write_msg msg c.sink) e (write_msg-Wrote msg c.sink) h
