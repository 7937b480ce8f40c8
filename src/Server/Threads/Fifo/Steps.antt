-- ===== src/Server/Threads/Fifo/Steps.antt =====
-- What a step of the thread of a connection makes of its queue.
use cm108_driver_rust.Base.{
  ℕ, ◌≡◌, refl, sym, ap, ◌∙◌, subst, Bool, true, false, List, [], ◌∷◌, ◌++◌, Option, none, some,
  if◌then◌else◌,
}
use mathlib.Core.List.{Sublist, nil-sublist}
use cm108_driver_rust.Types.{
  ClientMsg, subscribe, set_gpio, audio_write, ping, get_stats, ServerMsg, pong, stats,
}
use cm108_driver_rust.Io.{IoResult, ok, err, Input}
use cm108_driver_rust.Framing.{read_msg}
use cm108_driver_rust.Gpio.{DeviceHandle}
use cm108_driver_rust.Ring.{Producer}
use cm108_driver_rust.Registry.{
  ClientRegistry, get, register, connected_client, update_streams, send_to,
}
use cm108_driver_rust.Server.{ClientContext, dispatch_match}
use cm108_driver_rust.Server.Threads.{
  Pc, accepted, allocated, registered, passed, serving, closing, gone, has_read, stored,
  has_latency, has_rx, has_tx, unspawned, waiting, Connection, id_of, is_registered, queue_in,
  queue_of, read_by, dispatch_next, advance, update,
}
use cm108_driver_rust.Server.Threads.Owners.{Owned}
use cm108_driver_rust.Server.Threads.Fifo.{replies, in_hand, Written, Fifo, extends}
use cm108_driver_rust.Server.Threads.Fifo.Queue.{offer-sublist}
use cm108_driver_rust.Server.Threads.Fifo.Places.{
  same_queue, queue_left, queue_left', queue-set_streams, queue-registered, same_id, quiet-Fifo,
}

-- The states of a connection before its writer thread.
abbrev pub early : Pc → Bool
early accepted = true
early (allocated id) = true
early (registered id) = true
early (passed id) = true
early _ = false

-- The connection goes on at another place.
goes_on :
    (history : List ServerMsg) (p q : Pc) (c : Connection) (r : ClientRegistry)
    → c.pc ≡ p
    → id_of q ≡ id_of p
    → Fifo history c (queue_of c r)
    → Fifo (history ++ []) (record c { pc = q }) (queue_of (record c { pc = q }) r)
unfolding queue_of
goes_on history p q c r e same h =
    quiet-Fifo history [] _ _ c _ refl refl
      (same_queue _ _ []
        (ap (λ (i : ℕ). queue_in c.left (get i r.clients)) (same ∙ ap id_of (sym e))))
      h

-- `register`.
entered-Fifo :
    (history : List ServerMsg) (id : ℕ) (c : Connection) (r : ClientRegistry)
    → let c' : Connection = record c { pc = registered id } in
      Fifo history c (queue_of c r)
      → Fifo (history ++ []) c' (queue_of c' (register (connected_client id) r))
unfolding queue_of id_of
entered-Fifo history id c r h =
    quiet-Fifo history [] _ _ c _ refl refl
      (subst (λ l. Sublist l (queue_of c r ++ [])) (sym (queue-registered c.left id r))
        (nil-sublist _))
      h

-- A reply.
replied-Fifo :
    (history : List ServerMsg) (id : ℕ) (p : Pc) (msg : ServerMsg) (c : Connection)
    (r : ClientRegistry)
    → c.pc ≡ p
    → id_of p ≡ id
    → let c' : Connection = record c { pc = serving id } in
      Fifo history c (queue_of c r) → Fifo (history ++ msg ∷ []) c' (queue_of c' (send_to id msg r))
unfolding queue_of send_to id_of
replied-Fifo history id p msg c r e same h =
    quiet-Fifo history (msg ∷ []) _ _ c _ refl refl
      (subst
        (λ (i : ℕ).
          Sublist (queue_in c.left (get id (send_to id msg r).clients))
            (queue_in c.left (get i r.clients) ++ msg ∷ []))
        (sym (ap id_of e ∙ same)) (offer-sublist msg c.left id r.clients))
      h

module _ {D R : Type 0} (handle : DeviceHandle D) (producer : Producer R) where
  dispatch_next-Fifo :
      (history : List ServerMsg) (id : ℕ) (msg : ClientMsg) (c : Connection)
      (ctx : ClientContext D R)
      → c.pc ≡ stored id msg
      → Fifo history c (queue_of c ctx.registry)
      → let (c', ctx') = dispatch_next handle producer id msg c ctx in
        Fifo (history ++ replies (stored id msg)) c' (queue_of c' ctx'.registry)
  unfolding dispatch_next dispatch_match queue_of id_of update_streams send_to
  dispatch_next-Fifo history id (subscribe s) c ctx e h =
      quiet-Fifo history [] _ _ c _ refl refl
        (same_queue _ _ [] (
          queue-set_streams s c.left id ctx.registry.clients
          ∙ ap (λ p. queue_in c.left (get (id_of p) ctx.registry.clients)) (sym e)))
        h
  dispatch_next-Fifo history id (set_gpio n high) c ctx e h =
      quiet-Fifo history [] _ _ c _ refl refl (same_id c ctx.registry _ e) h
  dispatch_next-Fifo history id (audio_write fs) c ctx e h =
      quiet-Fifo history [] _ _ c _ refl refl (same_id c ctx.registry _ e) h
  dispatch_next-Fifo history id ping c ctx e h =
      quiet-Fifo history (pong ∷ []) _ _ c _ refl refl
        (subst
          (λ p.
            Sublist (queue_in c.left (get id (send_to id pong ctx.registry).clients))
              (queue_in c.left (get (id_of p) ctx.registry.clients) ++ pong ∷ []))
          (sym e) (offer-sublist pong c.left id ctx.registry.clients))
        h
  dispatch_next-Fifo history id get_stats c ctx e h =
      quiet-Fifo history [] _ _ c _ refl refl (same_id c ctx.registry _ e) h

  read_by-Fifo :
      (history : List ServerMsg) (id : ℕ) (c : Connection) (r : ClientRegistry)
      (o : IoResult (Option ClientMsg) × Input)
      → c.pc ≡ serving id
      → Fifo history c (queue_of c r)
      → Fifo (history ++ []) (read_by id c o) (queue_of (read_by id c o) r)
  unfolding read_by queue_of id_of
  read_by-Fifo history id c r (ok (some msg), s) e h =
      quiet-Fifo history [] _ _ c _ refl refl (same_id c r _ e) h
  read_by-Fifo history id c r (ok none, s) e h =
      quiet-Fifo history [] _ _ c _ refl refl (same_id c r _ e) h
  read_by-Fifo history id c r (err k, s) e h =
      quiet-Fifo history [] _ _ c _ refl refl (same_id c r _ e) h

  -- Where the writer thread is spawned, its loop is at the start.
  spawned-Fifo :
      (history : List ServerMsg) (id : ℕ) (b : Bool) (c : Connection) (r : ClientRegistry)
      → c.pc ≡ passed id
      → c.writer ≡ unspawned
      → Fifo history c (queue_of c r)
      → let c' : Connection =
          if b
          then record c { pc = serving id; writer = waiting }
          else record c { pc = closing id } in
        Fifo (history ++ []) c' (queue_of c' r)
  unfolding queue_of id_of
  spawned-Fifo history id true c r e w h =
      extends history [] _ _ c _ (ap in_hand (sym w))
        (λ taken v. subst (λ p. Written taken p c.sink) w v) (same_id c r _ e) h
  spawned-Fifo history id false c r e w h =
      quiet-Fifo history [] _ _ c _ refl refl (same_id c r _ e) h

  passed_or_not :
      (history : List ServerMsg) (id : ℕ) (b : Bool) (c : Connection) (r : ClientRegistry)
      → c.pc ≡ registered id
      → Fifo history c (queue_of c r)
      → let c' : Connection = record c { pc = if b then passed id else closing id } in
        Fifo (history ++ []) c' (queue_of c' r)
  unfolding queue_of id_of
  passed_or_not history id true c r e h =
      quiet-Fifo history [] _ _ c _ refl refl (same_id c r _ e) h
  passed_or_not history id false c r e h =
      quiet-Fifo history [] _ _ c _ refl refl (same_id c r _ e) h

  pub advance-Fifo :
      (p : Pc) (now k : ℕ) (history : List ServerMsg) (cs : ℕ → Connection)
      (ctx : ClientContext D R)
      → (cs k).pc ≡ p
      → (early p ≡ true → (cs k).writer ≡ unspawned)
      → Owned cs ctx.registry
      → (let (c', ctx') = advance handle producer p now (cs k) ctx in
          Owned (update cs k c') ctx'.registry)
      → Fifo history (cs k) (queue_of (cs k) ctx.registry)
      → let (c', ctx') = advance handle producer p now (cs k) ctx in
        Fifo (history ++ replies p) c' (queue_of c' ctx'.registry)
  unfolding advance is_registered id_of
  advance-Fifo accepted now k history cs ctx e w o o' h =
      quiet-Fifo history [] _ _ (cs k) _ refl refl
        (same_queue _ _ [] (
          queue_left' cs _ _ k o' refl ∙ sym (queue_left cs ctx.registry k o (ap is_registered e))))
        h
  advance-Fifo (allocated id) now k history cs ctx e w o o' h =
      entered-Fifo history id (cs k) ctx.registry h
  advance-Fifo (registered id) now k history cs ctx e w o o' h =
      passed_or_not history id (cs k).fd_sent (cs k) ctx.registry e h
  advance-Fifo (passed id) now k history cs ctx e w o o' h =
      spawned-Fifo history id (cs k).cloned (cs k) ctx.registry e (w refl) h
  advance-Fifo (serving id) now k history cs ctx e w o o' h =
      read_by-Fifo history id (cs k) ctx.registry (read_msg false (cs k).input) e h
  advance-Fifo (has_read id msg) now k history cs ctx e w o o' h =
      goes_on history _ _ (cs k) ctx.registry e refl h
  advance-Fifo (stored id msg) now k history cs ctx e w o o' h =
      dispatch_next-Fifo history id msg (cs k) ctx e h
  advance-Fifo (has_latency id lat) now k history cs ctx e w o o' h =
      goes_on history _ _ (cs k) ctx.registry e refl h
  advance-Fifo (has_rx id lat rx) now k history cs ctx e w o o' h =
      goes_on history _ _ (cs k) ctx.registry e refl h
  advance-Fifo (has_tx id lat rx tx) now k history cs ctx e w o o' h =
      replied-Fifo history id _ (stats rx tx lat) (cs k) ctx.registry e refl h
  advance-Fifo (closing id) now k history cs ctx e w o o' h =
      quiet-Fifo history [] _ _ (cs k) _ refl refl
        (same_queue _ _ [] (queue_left' cs _ _ k o' refl)) h
  advance-Fifo (gone id) now k history cs ctx e w o o' h =
      quiet-Fifo history [] _ _ (cs k) _ refl refl (same_queue _ _ [] refl) h
