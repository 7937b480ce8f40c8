-- ===== src/Server/Threads/Owners/Steps.antt =====
-- Every move of the interleaved threads keeps who owns the entries of the registry.
use cm108_driver_rust.Base.{
  ℕ, ◌+◌, ◌%◌, ◌^◌, ◌<◌, ◌≡◌, refl, sym, subst, Bool, true, false, List, [], ◌∷◌, Option, none,
  some, if◌then◌else◌, arith, mod-eq_of_lt,
}
use cm108_driver_rust.Types.{
  ClientMsg, subscribe, set_gpio, audio_write, ping, get_stats, ServerMsg, stats,
}
use cm108_driver_rust.Io.{IoResult, ok, err, Input, Sink}
use cm108_driver_rust.Framing.{read_msg, write_msg}
use cm108_driver_rust.Gpio.{DeviceHandle}
use cm108_driver_rust.Ring.{Producer}
use cm108_driver_rust.Registry.{
  ClientRegistry, allocate_id, apply, register, unregister, connected_client, sync_channel, send_to,
  broadcast_radio_event, notify_audio_ready, broadcast_stats,
}
use cm108_driver_rust.Registry.Map.{All-insert, insert-Distinct}
use cm108_driver_rust.Registry.Inv.{
  IsClient, IsRegistry, IsClient-mono, offer-Keeps, offer_on-Keeps, received-Keeps, hung_up-Keeps,
  modify-IsRegistry, map-IsRegistry, disconnect-IsRegistry,
}
use cm108_driver_rust.Server.{ClientContext, dispatch_match, dispatch_client_msg}
use cm108_driver_rust.Server.Dispatch.{dispatch-IsRegistry}
use cm108_driver_rust.Server.Threads.{
  Pc, accepted, allocated, registered, passed, serving, closing, gone, has_read, stored,
  has_latency, has_rx, has_tx, Connection, WriterPc, unspawned, waiting, ended, writing, id_of,
  is_registered, update, read_by, dispatch_next, advance, take_next, written_by, write_next,
  queue_of, Broadcast, radio, audio, statistics, broadcast,
}
use cm108_driver_rust.Server.Threads.Keys.{
  SameKeys, same_keys, modify-SameKeys, send_to-SameKeys, dispatch_match-SameKeys,
}
use cm108_driver_rust.Server.Threads.Owners.{
  Owned, Alike, alike, quiet-Owned, near_update, allocate-Owned,
}
use cm108_driver_rust.Server.Threads.Owners.Entry.{register-Owned, unregister-Owned}

allocate-IsRegistry :
    (r : ClientRegistry) → r.next_id + 1 < 2 ^ 64 → IsRegistry r → IsRegistry (allocate_id r).1
unfolding allocate_id
allocate-IsRegistry r room h =
    let e : (r.next_id + 1) % 2 ^ 64 ≡ r.next_id + 1 = mod-eq_of_lt room in
    record {
      entries = IsClient-mono r.next_id _ r.clients (omega (arith, e)) h.entries;
      distinct = h.distinct;
      positive = omega (arith, e);
    }

register-IsRegistry :
    (id : ℕ) (r : ClientRegistry)
    → id < r.next_id
    → IsRegistry r
    → IsRegistry (register (connected_client id) r)
unfolding register connected_client sync_channel
register-IsRegistry id r given h = record {
  entries =
      All-insert (IsClient r.next_id) _ r.clients
        (record { given = given; bound = refl; queued = omega arith }) h.entries;
  distinct = insert-Distinct _ r.clients h.distinct;
  positive = h.positive;
}

-- A step that leaves its connection at a place alike.
stays-Owned :
    (cs : ℕ → Connection) (k : ℕ) (c : Connection) (p : Pc) (r r' : ClientRegistry)
    → (cs k).pc ≡ p
    → Alike p c.pc
    → SameKeys r r'
    → IsRegistry r'
    → Owned cs r
    → Owned (update cs k c) r'
stays-Owned cs k c p r r' from near same v h =
    quiet-Owned cs (update cs k c) r r'
      (near_update cs k c (subst (λ q. Alike q c.pc) (sym from) near)) same v h

if-Alike :
    (b : Bool) (p : Pc) (c d : Connection)
    → Alike p c.pc
    → Alike p d.pc
    → Alike p (if b then c else d).pc
if-Alike true p c d left right = left
if-Alike false p c d left right = right

read_by-Alike :
    (id : ℕ) (c : Connection) (o : IoResult (Option ClientMsg) × Input)
    → Alike (serving id) (read_by id c o).pc
unfolding read_by id_of is_registered
read_by-Alike id c (ok (some msg), s) = record { id = refl; in_it = refl; name = refl }
read_by-Alike id c (ok none, s) = record { id = refl; in_it = refl; name = refl }
read_by-Alike id c (err e, s) = record { id = refl; in_it = refl; name = refl }

module _ {D R : Type 0} (handle : DeviceHandle D) (producer : Producer R) where
  dispatch_next-Owned :
      (id : ℕ) (msg : ClientMsg) (cs : ℕ → Connection) (k : ℕ) (ctx : ClientContext D R)
      → (cs k).pc ≡ stored id msg
      → Owned cs ctx.registry
      → let (c', ctx') = dispatch_next handle producer id msg (cs k) ctx in
        Owned (update cs k c') ctx'.registry
  dispatch_next-Owned id msg cs k ctx from h = go msg from
    where
      back :
          (m : ClientMsg)
          → (cs k).pc ≡ stored id m
          → Owned
              (update cs k (record (cs k) { pc = serving id }))
              (dispatch_match handle producer id m ctx).registry
      back m e =
          stays-Owned cs k _ (stored id m) ctx.registry _ e
            (unfold id_of is_registered in record { id = refl; in_it = refl; name = refl })
            (dispatch_match-SameKeys handle producer id m ctx)
            (unfold dispatch_client_msg in
              dispatch-IsRegistry handle producer id m ctx.last_activity_ms ctx h.valid)
            h

      go :
          (m : ClientMsg)
          → (cs k).pc ≡ stored id m
          → let (c', ctx') = dispatch_next handle producer id m (cs k) ctx in
            Owned (update cs k c') ctx'.registry
      go (subscribe s) e = unfold dispatch_next in back (subscribe s) e
      go (set_gpio n high) e = unfold dispatch_next in back (set_gpio n high) e
      go (audio_write fs) e = unfold dispatch_next in back (audio_write fs) e
      go ping e = unfold dispatch_next in back ping e
      go get_stats e =
          unfold dispatch_next in
          stays-Owned cs k _ (stored id get_stats) ctx.registry _ e
            (unfold id_of is_registered in record { id = refl; in_it = refl; name = refl })
            (same_keys ctx.registry) h.valid h

  pub advance-Owned :
      (p : Pc) (now : ℕ) (cs : ℕ → Connection) (k : ℕ) (ctx : ClientContext D R)
      → (cs k).pc ≡ p
      → ctx.registry.next_id + 1 < 2 ^ 64
      → Owned cs ctx.registry
      → let (c', ctx') = advance handle producer p now (cs k) ctx in
        Owned (update cs k c') ctx'.registry
  unfolding advance id_of is_registered unregister apply
  advance-Owned accepted now cs k ctx from room h =
      allocate-Owned cs k _ ctx.registry from (unfold allocate_id in refl) room
        (allocate-IsRegistry ctx.registry room h.valid) h
  advance-Owned (allocated id) now cs k ctx from room h =
      register-Owned cs k id _ ctx.registry from refl
        (register-IsRegistry id ctx.registry
          (subst (λ p. id_of p < ctx.registry.next_id) from (h.given k)) h.valid)
        h
  advance-Owned (registered id) now cs k ctx from room h =
      stays-Owned cs k _ (registered id) ctx.registry _ from
        (go (cs k).fd_sent (record { id = refl; in_it = refl; name = refl })
          (record { id = refl; in_it = refl; name = refl }))
        (same_keys ctx.registry) h.valid h
    where
      go :
          (b : Bool)
          → Alike (registered id) (passed id)
          → Alike (registered id) (closing id)
          → Alike (registered id) (if b then passed id else closing id)
      go true there back = there
      go false there back = back
  advance-Owned (passed id) now cs k ctx from room h =
      stays-Owned cs k _ (passed id) ctx.registry _ from
        (if-Alike (cs k).cloned (passed id) _ _ (record { id = refl; in_it = refl; name = refl })
          (record { id = refl; in_it = refl; name = refl }))
        (same_keys ctx.registry) h.valid h
  advance-Owned (serving id) now cs k ctx from room h =
      stays-Owned cs k _ (serving id) ctx.registry _ from
        (read_by-Alike id (cs k) (read_msg false (cs k).input)) (same_keys ctx.registry) h.valid h
  advance-Owned (has_read id msg) now cs k ctx from room h =
      stays-Owned cs k _ _ ctx.registry _ from (record { id = refl; in_it = refl; name = refl })
        (same_keys ctx.registry) h.valid h
  advance-Owned (stored id msg) now cs k ctx from room h =
      dispatch_next-Owned id msg cs k ctx from h
  advance-Owned (has_latency id lat) now cs k ctx from room h =
      stays-Owned cs k _ _ ctx.registry _ from (record { id = refl; in_it = refl; name = refl })
        (same_keys ctx.registry) h.valid h
  advance-Owned (has_rx id lat rx) now cs k ctx from room h =
      stays-Owned cs k _ _ ctx.registry _ from (record { id = refl; in_it = refl; name = refl })
        (same_keys ctx.registry) h.valid h
  advance-Owned (has_tx id lat rx tx) now cs k ctx from room h =
      stays-Owned cs k _ _ ctx.registry _ from (record { id = refl; in_it = refl; name = refl })
        (send_to-SameKeys id (stats rx tx lat) ctx.registry)
        (unfold send_to in modify-IsRegistry _ id ctx.registry (offer-Keeps _) h.valid) h
  advance-Owned (closing id) now cs k ctx from room h =
      unregister-Owned cs k id _ ctx.registry from refl
        (disconnect-IsRegistry id ctx.registry h.valid) h
  advance-Owned (gone id) now cs k ctx from room h =
      stays-Owned cs k _ _ ctx.registry _ refl (alike (cs k).pc) (same_keys ctx.registry) h.valid h

pub write_next-Owned :
    (w : WriterPc) (cs : ℕ → Connection) (k : ℕ) (r : ClientRegistry)
    → Owned cs r
    → let (c', r') = write_next w (cs k) r in Owned (update cs k c') r'
unfolding write_next
write_next-Owned unspawned cs k r h =
    stays-Owned cs k _ _ r _ refl (alike (cs k).pc) (same_keys r) h.valid h
write_next-Owned ended cs k r h =
    stays-Owned cs k _ _ r _ refl (alike (cs k).pc) (same_keys r) h.valid h
write_next-Owned waiting cs k r h = go (queue_of (cs k) r)
  where
    go : (q : List ServerMsg) → let (c', r') = take_next q (cs k) r in Owned (update cs k c') r'
    go [] =
        unfold take_next in
        stays-Owned cs k _ (cs k).pc r _ refl
          (if-Alike _ (cs k).pc (record (cs k) { writer = ended }) (cs k) (alike (cs k).pc)
            (alike (cs k).pc))
          (same_keys r) h.valid h
    go (msg ∷ msgs) =
        unfold take_next in
        stays-Owned cs k _ (cs k).pc r _ refl (alike (cs k).pc)
          (modify-SameKeys _ received-Keeps r (id_of (cs k).pc))
          (modify-IsRegistry _ (id_of (cs k).pc) r received-Keeps h.valid) h
write_next-Owned (writing msg) cs k r h = go (write_msg msg (cs k).sink)
  where
    go :
        (o : IoResult (Unit {0}) × Sink)
        → let (c', r') = written_by o (cs k) r in Owned (update cs k c') r'
    go (ok _, w) =
        unfold written_by in
        stays-Owned cs k _ (cs k).pc r _ refl (alike (cs k).pc) (same_keys r) h.valid h
    go (err e, w) =
        unfold written_by in
        stays-Owned cs k _ (cs k).pc r _ refl (alike (cs k).pc)
          (modify-SameKeys _ hung_up-Keeps r (id_of (cs k).pc))
          (modify-IsRegistry _ (id_of (cs k).pc) r hung_up-Keeps h.valid) h

pub broadcast-IsRegistry :
    (b : Broadcast) (r : ClientRegistry) → IsRegistry r → IsRegistry (broadcast b r)
unfolding broadcast broadcast_radio_event notify_audio_ready broadcast_stats
broadcast-IsRegistry (radio ev) r h = map-IsRegistry _ r (offer_on-Keeps _ _) h
broadcast-IsRegistry (audio seq) r h = map-IsRegistry _ r (offer_on-Keeps _ _) h
broadcast-IsRegistry (statistics rx tx lat) r h = map-IsRegistry _ r (offer-Keeps _) h
