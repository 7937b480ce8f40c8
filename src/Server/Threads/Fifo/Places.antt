-- ===== src/Server/Threads/Fifo/Places.antt =====
-- What becomes of the queue where a connection goes on to another place in the code.
use cm108_driver_rust.Base.{
  ℕ, ◌≡◌, refl, sym, ap, ◌∙◌, subst, false, List, [], ◌++◌, Option, none, some, if-true, ==_refl,
}
use mathlib.Core.List.{Sublist, sublist-append_left}
use cm108_driver_rust.Types.{StreamFlags, ServerMsg}
use cm108_driver_rust.Registry.{
  ClientHandle, ClientRegistry, get, modify, register, connected_client, sync_channel, set_streams,
}
use cm108_driver_rust.Registry.Map.{on_some, get-modify_same}
use cm108_driver_rust.Registry.Inv.{set_streams-Keeps}
use cm108_driver_rust.Server.Threads.{
  Pc, Connection, id_of, is_registered, queue_in, queue_of, update,
}
use cm108_driver_rust.Server.Threads.Update.{update-same}
use cm108_driver_rust.Server.Threads.Keys.{get-insert}
use cm108_driver_rust.Server.Threads.Owners.{Owned}
use cm108_driver_rust.Server.Threads.Owners.Run.{absent}
use cm108_driver_rust.Server.Threads.Fifo.{in_hand, Written, Fifo, extends}

-- The same queue, or an empty one.
pub same_queue : (q q' off : List ServerMsg) → q' ≡ q → Sublist q' (q ++ off)
same_queue q q' off e = subst (λ l. Sublist l (q ++ off)) (sym e) (sublist-append_left q off)

-- Outside the registry the queue is what the sender has left.
pub queue_left :
    (cs : ℕ → Connection) (r : ClientRegistry) (k : ℕ)
    → Owned cs r
    → is_registered (cs k).pc ≡ false
    → queue_of (cs k) r ≡ (cs k).left
unfolding queue_of
queue_left cs r k h out = ap (queue_in (cs k).left) (absent cs r k h out)

pub queue_left' :
    (cs : ℕ → Connection) (c : Connection) (r : ClientRegistry) (k : ℕ)
    → Owned (update cs k c) r
    → is_registered c.pc ≡ false
    → queue_of c r ≡ c.left
queue_left' cs c r k h out =
    subst (λ (d : Connection). is_registered d.pc ≡ false → queue_of d r ≡ d.left)
      (update-same cs k c) (queue_left (update cs k c) r k h) out

pub queue-set_streams :
    (s : StreamFlags) (left : List ServerMsg) (i : ℕ) (cs : List ClientHandle)
    → queue_in left (get i (modify i (set_streams s) cs)) ≡ queue_in left (get i cs)
queue-set_streams s left i cs =
    ap (queue_in left) (get-modify_same (set_streams s) (set_streams-Keeps s).same_id i cs)
    ∙ go (get i cs)
  where
    go : (o : Option ClientHandle) → queue_in left (on_some (set_streams s) o) ≡ queue_in left o
    go none = refl
    go (some h) = unfold set_streams in refl

pub queue-registered :
    (left : List ServerMsg) (i : ℕ) (r : ClientRegistry)
    → queue_in left (get i (register (connected_client i) r).clients) ≡ []
unfolding register connected_client sync_channel
queue-registered left i r = ap (queue_in left) (
    get-insert (connected_client i) i r.clients ∙ if-true (some (connected_client i)) _ (==_refl i))

-- The same identifier in another place.
pub same_id :
    (c : Connection) (r : ClientRegistry) (p : Pc)
    → c.pc ≡ p
    → Sublist (queue_in c.left (get (id_of p) r.clients)) (queue_of c r ++ [])
unfolding queue_of
same_id c r p e = same_queue _ _ [] (ap (λ q. queue_in c.left (get (id_of q) r.clients)) (sym e))

-- The writer thread is as before.
module _ (history off q q' : List ServerMsg) (c c' : Connection) (hand : c'.writer ≡ c.writer)
    (socket : c'.sink ≡ c.sink) where
  pub quiet-Fifo : Sublist q' (q ++ off) → Fifo history c q → Fifo (history ++ off) c' q'
  quiet-Fifo sub h =
      extends history off q q' c c' (ap in_hand hand)
        (λ taken w.
          subst (λ p. Written taken p c'.sink) (sym hand)
            (subst (λ s. Written taken c.writer s) (sym socket) w))
        sub h
