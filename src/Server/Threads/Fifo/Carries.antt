-- ===== src/Server/Threads/Fifo/Carries.antt =====
-- What is kept of a connection in a run, and the steps that leave it alone.
use cm108_driver_rust.Base.{
  ℕ, ◌≡◌, refl, sym, ap, ◌∙◌, subst, subst₂, true, false, List, [], ◌++◌, Option, none, some,
  Bool-cases, inl, inr,
}
use mathlib.Core.List.{Sublist, sublist-append_left, nil-sublist}
use cm108_driver_rust.Types.{ServerMsg}
use cm108_driver_rust.Io.{Sink}
use cm108_driver_rust.Registry.{ClientHandle, ClientRegistry, get}
use cm108_driver_rust.Registry.Map.{on_some}
use cm108_driver_rust.Server.{ClientContext}
use cm108_driver_rust.Server.Writer.{Streams, all_of_them}
use cm108_driver_rust.Server.Threads.{
  WriterPc, unspawned, waiting, ended, writing, Connection, id_of, is_registered, queue_in,
  queue_of, Broadcast, broadcast, System, fresh, nobody,
}
use cm108_driver_rust.Server.Threads.Owners.{Owned}
use cm108_driver_rust.Server.Threads.Owners.Run.{Runs}
use cm108_driver_rust.Server.Threads.Isolation.{hears, sent_to, broadcast-get}
use cm108_driver_rust.Server.Threads.Fifo.{hears_by, in_hand, Written, Fifo, extends}
use cm108_driver_rust.Server.Threads.Fifo.Queue.{try_send_all-sublist}
use cm108_driver_rust.Server.Threads.Fifo.Places.{queue_left}
use cm108_driver_rust.Server.Threads.Fifo.Steps.{early}

-- What holds of the connection `k`: the messages, and that its writer is spawned no earlier than in
-- `handle_client`.
pub record Carries {D R : Type 0} (k : ℕ) (history : List ServerMsg) (sys : System D R)
    : Type 0 where
  pub line : Fifo history (sys.connections k) (queue_of (sys.connections k) sys.ctx.registry)
  pub quiet : early (sys.connections k).pc ≡ true → (sys.connections k).writer ≡ unspawned

-- A step that leaves the connection `k` and its queue alone.
pub untouched :
    {D R : Type 0} (k : ℕ) (history off : List ServerMsg) (sys sys' : System D R)
    → sys'.connections k ≡ sys.connections k
    → Sublist
        (queue_of (sys.connections k) sys'.ctx.registry)
        (queue_of (sys.connections k) sys.ctx.registry ++ off)
    → Carries k history sys
    → Carries k (history ++ off) sys'
untouched k history off sys sys' same sub h =
    let c : Connection = sys.connections k in
    let line' : Fifo (history ++ off) c (queue_of c sys'.ctx.registry) =
      extends history off _ _ c c refl (λ taken w. w) sub h.line in
    record {
      line = subst (λ d. Fifo (history ++ off) d (queue_of d sys'.ctx.registry)) (sym same) line';
      quiet =
          subst (λ (d : Connection). early d.pc ≡ true → d.writer ≡ unspawned) (sym same) h.quiet;
    }

-- A step of another thread on the registry.
pub others_queue :
    (cs cs' : ℕ → Connection) (r r' : ClientRegistry) (k : ℕ) (off : List ServerMsg)
    → Owned cs r
    → Owned cs' r'
    → cs' k ≡ cs k
    → (is_registered (cs k).pc ≡ true
        → get (id_of (cs k).pc) r'.clients ≡ get (id_of (cs k).pc) r.clients)
    → Sublist (queue_of (cs k) r') (queue_of (cs k) r ++ off)
others_queue cs cs' r r' k off o o' same found = elim (Bool-cases (is_registered (cs k).pc)) [
  | inl reg ↦ from_eq (unfold queue_of in ap (queue_in (cs k).left) (found reg))
  | inr out ↦ from_eq (
      subst (λ (c : Connection). is_registered c.pc ≡ false → queue_of c r' ≡ c.left) same
        (queue_left cs' r' k o') out
      ∙ sym (queue_left cs r k o out))
]
  where
    from_eq :
        queue_of (cs k) r' ≡ queue_of (cs k) r
        → Sublist (queue_of (cs k) r') (queue_of (cs k) r ++ off)
    from_eq e =
        subst (λ l. Sublist l (queue_of (cs k) r ++ off)) (sym e) (sublist-append_left _ off)

pub broadcast_queue :
    (b : Broadcast) (c : Connection) (r : ClientRegistry)
    → Sublist (queue_of c (broadcast b r)) (queue_of c r ++ hears_by b (get (id_of c.pc) r.clients))
unfolding queue_of
broadcast_queue b c r =
    subst
      (λ o.
        Sublist (queue_in c.left o)
          (queue_in c.left (get (id_of c.pc) r.clients) ++ hears_by b (get (id_of c.pc) r.clients)))
      (sym (broadcast-get (id_of c.pc) b r)) (go (get (id_of c.pc) r.clients))
  where
    go :
        (o : Option ClientHandle)
        → Sublist
            (queue_in c.left (on_some (λ h. sent_to (hears h.streams b) h) o))
            (queue_in c.left o ++ hears_by b o)
    go none = sublist-append_left c.left []
    go (some h) = unfold sent_to in try_send_all-sublist (hears h.streams b) h.sender

pub no_queue :
    (c : Connection) (history : List ServerMsg)
    → c.sink.sent ≡ []
    → c.writer ≡ unspawned
    → (q : List ServerMsg) → q ≡ []
    → Fifo history c q
no_queue c history clean w q e = record {
  taken = [];
  written = subst (λ p. Written [] p c.sink) (sym w) clean;
  order = subst₂ (λ p l. Sublist (in_hand p ++ l) history) (sym w) (sym e) (nil-sublist history);
}

pub nobody-Carries :
    {D R : Type 0} (ctx : ClientContext D R) (k : ℕ)
    → Runs 2 (nobody ctx)
    → Carries k [] (nobody ctx)
unfolding nobody fresh is_registered
nobody-Carries ctx k r = record {
  line =
      no_queue (fresh [] [] false false) [] refl refl _
        (queue_left (λ j. fresh [] [] false false) ctx.registry k r.owned refl);
  quiet = λ _. refl;
}

pub Written-Streams :
    (w : WriterPc) (taken : List ServerMsg) (s : Sink) → Written taken w s → Streams [] taken s
Written-Streams unspawned taken s h = all_of_them h
Written-Streams waiting taken s h = all_of_them h
Written-Streams (writing msg) taken s h = all_of_them h
Written-Streams ended taken s h = h
