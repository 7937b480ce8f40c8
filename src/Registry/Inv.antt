-- ===== src/Registry/Inv.antt =====
-- The invariant of the registry.
use cm108_driver_rust.Base.{
  ℕ, ◌+◌, ◌%◌, ◌^◌, ◌≤◌, ◌<◌, ◌≡◌, refl, true, false, List, [], ◌∷◌, ◌++◌, ltb, if◌then◌else◌,
  length, length-append, map, All, arith, mod-eq_of_lt, ltb→lt, Bool,
}
use cm108_driver_rust.Types.{StreamFlags, ServerMsg, audio_in, gpio_events, contains}
use cm108_driver_rust.Registry.{
  Channel, sync_channel, try_send, ClientHandle, modify, ClientRegistry, new, allocate_id, register,
  unregister, set_streams, update_streams, offer, offer_on, broadcast_radio_event,
  notify_audio_ready, broadcast_stats, send_to, received, oldest_gone, hung_up, Op, connect,
  disconnect, subscribes, radio, audio, statistics, reply, receive, hang_up, connected_client,
  apply, apply_all,
}
use cm108_driver_rust.Registry.Map.{
  All-insert, All-remove, All-modify, All-map, Differs, Distinct, insert-Distinct, remove-Distinct,
  modify-Distinct, map-Distinct,
}

-- An entry: its identifier has been given out, and its queue is within the bound of 128 messages.
pub record IsClient (next : ℕ) (h : ClientHandle) : Type 0 where
  pub given : h.id < next
  pub bound : h.sender.bound ≡ 128
  pub queued : length h.sender.queued ≤ 128

-- The entries are such, their identifiers are distinct, and identifiers are from 1 on.
pub record IsRegistry (r : ClientRegistry) : Type 0 where
  pub entries : All (IsClient r.next_id) r.clients
  pub distinct : Distinct r.clients
  pub positive : 1 ≤ r.next_id

pub new-IsRegistry : IsRegistry new
unfolding new
new-IsRegistry = record { entries = tt; distinct = tt; positive = omega arith }

-- What a change of an entry keeps.
pub record Keeps (f : ClientHandle → ClientHandle) : Type 0 where
  pub same_id : (h : ClientHandle) → (f h).id ≡ h.id
  pub valid : (n : ℕ) (h : ClientHandle) → IsClient n h → IsClient n (f h)

pub modify-IsRegistry :
    (f : ClientHandle → ClientHandle) (i : ℕ) (r : ClientRegistry)
    → Keeps f
    → IsRegistry r
    → IsRegistry (record r { clients = modify i f r.clients })
modify-IsRegistry f i r k h = record {
  entries = All-modify (IsClient r.next_id) f (k.valid r.next_id) i r.clients h.entries;
  distinct = modify-Distinct f k.same_id i r.clients h.distinct;
  positive = h.positive;
}

pub map-IsRegistry :
    (f : ClientHandle → ClientHandle) (r : ClientRegistry)
    → Keeps f
    → IsRegistry r
    → IsRegistry (record r { clients = map f r.clients })
map-IsRegistry f r k h = record {
  entries = All-map (IsClient r.next_id) f (k.valid r.next_id) r.clients h.entries;
  distinct = map-Distinct f k.same_id r.clients h.distinct;
  positive = h.positive;
}

pub set_streams-Keeps : (s : StreamFlags) → Keeps (set_streams s)
unfolding set_streams
set_streams-Keeps s = record {
  same_id = λ h. refl;
  valid = λ n h v. record { given = v.given; bound = v.bound; queued = v.queued };
}

-- A queue that has room before a message has it is within the bound behind it.
try_send-bounded :
    (msg : ServerMsg) (c : Channel)
    → c.bound ≡ 128
    → length c.queued ≤ 128
    → ((try_send msg c).bound ≡ 128) × (length (try_send msg c).queued ≤ 128)
unfolding try_send
try_send-bounded msg c b q = go c.connected (ltb (length c.queued) c.bound) refl
  where
    go :
        (up room : Bool)
        → ltb (length c.queued) c.bound ≡ room
        → let c' : Channel =
            if up then (if room then record c { queued = c.queued ++ msg ∷ [] } else c) else c in
          (c'.bound ≡ 128) × (length c'.queued ≤ 128)
    go false room e = (b, q)
    go true false e = (b, q)
    go true true e =
        (b, omega (arith, length-append c.queued (msg ∷ []), ltb→lt (length c.queued) c.bound e))

pub offer-Keeps : (msg : ServerMsg) → Keeps (offer msg)
unfolding offer
offer-Keeps msg = record {
  same_id = λ h. refl;
  valid = λ n h v.
      let (b, q) = try_send-bounded msg h.sender v.bound v.queued in
      record { given = v.given; bound = b; queued = q };
}

pub if-Keeps :
    (p : ClientHandle → Bool) (f : ClientHandle → ClientHandle)
    → Keeps f
    → Keeps (λ h. if p h then f h else h)
if-Keeps p f k = record { same_id = λ h. go_id h (p h); valid = λ n h v. go n h (p h) v }
  where
    go_id : (h : ClientHandle) (b : Bool) → (if b then f h else h).id ≡ h.id
    go_id h true = k.same_id h
    go_id h false = refl

    go : (n : ℕ) (h : ClientHandle) (b : Bool) → IsClient n h → IsClient n (if b then f h else h)
    go n h true v = k.valid n h v
    go n h false v = v

pub offer_on-Keeps : (s : StreamFlags) (msg : ServerMsg) → Keeps (offer_on s msg)
unfolding offer_on
offer_on-Keeps s msg = if-Keeps (λ h. contains h.streams s) (offer msg) (offer-Keeps msg)

pub received-Keeps : Keeps received
unfolding received
received-Keeps = record {
  same_id = λ h. refl;
  valid =
      λ n h v. record { given = v.given; bound = v.bound; queued = go h.sender.queued v.queued };
}
  where
    go : (msgs : List ServerMsg) → length msgs ≤ 128 → length (oldest_gone msgs) ≤ 128
    go [] k = k
    go (msg ∷ msgs) k = omega arith

pub hung_up-Keeps : Keeps hung_up
unfolding hung_up
hung_up-Keeps = record {
  same_id = λ h. refl;
  valid = λ n h v. record { given = v.given; bound = v.bound; queued = omega arith };
}

-- More identifiers are given out.
pub IsClient-mono :
    (n m : ℕ) (cs : List ClientHandle) → n ≤ m → All (IsClient n) cs → All (IsClient m) cs
IsClient-mono n m [] le h = tt
IsClient-mono n m (c ∷ cs) le (v, h) = (
  record { given = omega (arith, v.given); bound = v.bound; queued = v.queued },
  IsClient-mono n m cs le h,
)

-- An identifier that has not been given out is nobody's.
pub next_id-absent : (n : ℕ) (cs : List ClientHandle) → All (IsClient n) cs → All (Differs n) cs
next_id-absent n [] h = tt
next_id-absent n (c ∷ cs) (v, h) = (λ e. omega (arith, v.given, e), next_id-absent n cs h)

connect-IsRegistry :
    (r : ClientRegistry) → r.next_id + 1 < 2 ^ 64 → IsRegistry r → IsRegistry (apply connect r)
unfolding apply allocate_id register connected_client sync_channel
connect-IsRegistry r room h =
    let e : (r.next_id + 1) % 2 ^ 64 ≡ r.next_id + 1 = mod-eq_of_lt room in
    record {
      entries =
          All-insert (IsClient ((r.next_id + 1) % 2 ^ 64)) _ r.clients
            (record { given = omega (arith, e); bound = refl; queued = omega arith })
            (IsClient-mono r.next_id _ r.clients (omega (arith, e)) h.entries);
      distinct = insert-Distinct _ r.clients h.distinct;
      positive = omega (arith, e);
    }

pub disconnect-IsRegistry :
    (i : ℕ) (r : ClientRegistry) → IsRegistry r → IsRegistry (apply (disconnect i) r)
unfolding apply unregister
disconnect-IsRegistry i r h = record {
  entries = All-remove (IsClient r.next_id) i r.clients h.entries;
  distinct = remove-Distinct i r.clients h.distinct;
  positive = h.positive;
}

pub apply-IsRegistry :
    (op : Op) (r : ClientRegistry) → r.next_id + 1 < 2 ^ 64 → IsRegistry r → IsRegistry (apply op r)
unfolding apply unregister update_streams broadcast_radio_event notify_audio_ready broadcast_stats
    send_to
apply-IsRegistry connect r room h = connect-IsRegistry r room h
apply-IsRegistry (disconnect i) r room h = disconnect-IsRegistry i r h
apply-IsRegistry (subscribes i s) r room h =
    modify-IsRegistry (set_streams s) i r (set_streams-Keeps s) h
apply-IsRegistry (radio ev) r room h = map-IsRegistry _ r (offer_on-Keeps gpio_events _) h
apply-IsRegistry (audio seq) r room h = map-IsRegistry _ r (offer_on-Keeps audio_in _) h
apply-IsRegistry (statistics rx tx lat) r room h = map-IsRegistry _ r (offer-Keeps _) h
apply-IsRegistry (reply i msg) r room h = modify-IsRegistry (offer msg) i r (offer-Keeps msg) h
apply-IsRegistry (receive i) r room h = modify-IsRegistry received i r received-Keeps h
apply-IsRegistry (hang_up i) r room h = modify-IsRegistry hung_up i r hung_up-Keeps h

apply-next_id : (op : Op) (r : ClientRegistry) → (apply op r).next_id ≤ r.next_id + 1
unfolding apply allocate_id register unregister update_streams broadcast_radio_event
    notify_audio_ready broadcast_stats send_to
apply-next_id connect r = omega arith
apply-next_id (disconnect i) r = omega arith
apply-next_id (subscribes i s) r = omega arith
apply-next_id (radio ev) r = omega arith
apply-next_id (audio seq) r = omega arith
apply-next_id (statistics rx tx lat) r = omega arith
apply-next_id (reply i msg) r = omega arith
apply-next_id (receive i) r = omega arith
apply-next_id (hang_up i) r = omega arith

apply_all-IsRegistry_from :
    (ops : List Op) (r : ClientRegistry)
    → r.next_id + length ops < 2 ^ 64
    → IsRegistry r
    → IsRegistry (apply_all ops r)
unfolding apply_all
apply_all-IsRegistry_from [] r room h = h
apply_all-IsRegistry_from (op ∷ ops) r room h =
    apply_all-IsRegistry_from ops (apply op r) (omega (arith, apply-next_id op r))
      (apply-IsRegistry op r (omega arith) h)

-- Whatever fewer than 2 ^ 63 steps the threads make on a new registry: no two clients have one
-- identifier, each identifier has been given out, none is 0, and no queue holds more than 128
-- messages.
pub apply_all-IsRegistry : (ops : List Op) → length ops < 2 ^ 63 → IsRegistry (apply_all ops new)
apply_all-IsRegistry ops room =
    apply_all-IsRegistry_from ops new (unfold new in omega arith) new-IsRegistry
