-- ===== src/Registry.antt =====
-- The registry of connected clients: `ClientHandle` and `ClientRegistry` of
-- crates/cm108-server/src/ipc.rs. Each operation holds the registry's lock from its first access to
-- its last, so it is one step. The hash map is the list of its values, in any order; `sync_channel`
-- is the queue behind its bound.
pub mod Map
pub mod Inv
pub mod Deliver
use cm108_driver_rust.Base.{
  ℕ, ◌+◌, ◌%◌, ◌^◌, Bool, true, false, List, [], ◌∷◌, ◌++◌, Option, none, some, ◌==◌, ltb,
  if◌then◌else◌, length, map,
}
use cm108_driver_rust.Types.{
  StreamFlags, audio_in, gpio_events, contains, RadioEvent, LatencyStats, ServerMsg, audio_ready,
  radio_event, stats,
}

-- A bounded channel: the messages sent and not yet received, and whether the receiver is alive.
pub record Channel : Type 0 where
  pub bound : ℕ
  pub queued : List ServerMsg
  pub connected : Bool

unfoldable pub sync_channel : ℕ → Channel
sync_channel n = record { bound = n; queued = []; connected = true }

-- `try_send`, whose error every caller drops: a message for a full channel, or for one without a
-- receiver, is lost.
unfoldable pub try_send : ServerMsg → Channel → Channel
try_send msg c =
    if c.connected
    then (if ltb (length c.queued) c.bound then record c { queued = c.queued ++ msg ∷ [] } else c)
    else c

pub record ClientHandle : Type 0 where
  pub id : ℕ
  pub streams : StreamFlags
  pub sender : Channel

-- The hash map from the identifiers.
unfoldable pub insert : ClientHandle → List ClientHandle → List ClientHandle
insert h [] = h ∷ []
insert h (c ∷ cs) = let rest = insert h cs in if c.id == h.id then h ∷ cs else c ∷ rest

unfoldable pub remove : ℕ → List ClientHandle → List ClientHandle
remove i [] = []
remove i (c ∷ cs) = let rest = remove i cs in if c.id == i then cs else c ∷ rest

unfoldable pub get : ℕ → List ClientHandle → Option ClientHandle
get i [] = none
get i (c ∷ cs) = let rest = get i cs in if c.id == i then some c else rest

-- `get_mut`, and the change `f` made through it.
unfoldable pub modify : ℕ → (ClientHandle → ClientHandle) → List ClientHandle → List ClientHandle
modify i f [] = []
modify i f (c ∷ cs) = let rest = modify i f cs in if c.id == i then f c ∷ cs else c ∷ rest

pub record ClientRegistry : Type 0 where
  pub clients : List ClientHandle
  pub next_id : ℕ

unfoldable pub new : ClientRegistry
new = record { clients = []; next_id = 1 }

-- `fetch_add` wraps around.
unfoldable pub allocate_id : ClientRegistry → ℕ × ClientRegistry
allocate_id r = (r.next_id, record r { next_id = (r.next_id + 1) % 2 ^ 64 })

unfoldable pub register : ClientHandle → ClientRegistry → ClientRegistry
register h r = record r { clients = insert h r.clients }

unfoldable pub unregister : ℕ → ClientRegistry → ClientRegistry
unregister i r = record r { clients = remove i r.clients }

unfoldable pub set_streams : StreamFlags → ClientHandle → ClientHandle
set_streams s h = record h { streams = s }

unfoldable pub update_streams : ℕ → StreamFlags → ClientRegistry → ClientRegistry
update_streams i s r = record r { clients = modify i (set_streams s) r.clients }

-- `h.sender.try_send(msg)`
unfoldable pub offer : ServerMsg → ClientHandle → ClientHandle
offer msg h = record h { sender = try_send msg h.sender }

-- The same if the client is subscribed to the stream.
unfoldable pub offer_on : StreamFlags → ServerMsg → ClientHandle → ClientHandle
offer_on s msg h = if contains h.streams s then offer msg h else h

unfoldable pub broadcast_radio_event : RadioEvent → ClientRegistry → ClientRegistry
broadcast_radio_event ev r = record r {
  clients = map (offer_on gpio_events (radio_event ev)) r.clients;
}

unfoldable pub notify_audio_ready : ℕ → ClientRegistry → ClientRegistry
notify_audio_ready seq r = record r {
  clients = map (offer_on audio_in (audio_ready seq)) r.clients;
}

unfoldable pub broadcast_stats : ℕ → ℕ → LatencyStats → ClientRegistry → ClientRegistry
broadcast_stats rx tx lat r = record r { clients = map (offer (stats rx tx lat)) r.clients }

unfoldable pub send_to : ℕ → ServerMsg → ClientRegistry → ClientRegistry
send_to i msg r = record r { clients = modify i (offer msg) r.clients }

-- `recv` in the writer thread of the client `i`: the oldest message leaves the queue.
abbrev pub oldest_gone : List ServerMsg → List ServerMsg
oldest_gone [] = []
oldest_gone (msg ∷ msgs) = msgs

unfoldable pub received : ClientHandle → ClientHandle
received h = record h { sender = record h.sender { queued = oldest_gone h.sender.queued } }

-- The writer thread ends, and with it the receiver.
unfoldable pub hung_up : ClientHandle → ClientHandle
hung_up h = record h { sender = record h.sender { queued = []; connected = false } }

-- The steps that the threads of the server make on the registry. A connection allocates its
-- identifier and registers itself with a channel of 128 messages.
pub data Op : Type 0 where
  connect : Op
  disconnect : ℕ → Op
  subscribes : ℕ → StreamFlags → Op
  radio : RadioEvent → Op
  audio : ℕ → Op
  statistics : ℕ → ℕ → LatencyStats → Op
  reply : ℕ → ServerMsg → Op
  receive : ℕ → Op
  hang_up : ℕ → Op

unfoldable pub connected_client : ℕ → ClientHandle
connected_client i = record { id = i; streams = record { bits = 0 }; sender = sync_channel 128 }

unfoldable pub apply : Op → ClientRegistry → ClientRegistry
apply connect r = let (i, r') = allocate_id r in register (connected_client i) r'
apply (disconnect i) r = unregister i r
apply (subscribes i s) r = update_streams i s r
apply (radio ev) r = broadcast_radio_event ev r
apply (audio seq) r = notify_audio_ready seq r
apply (statistics rx tx lat) r = broadcast_stats rx tx lat r
apply (reply i msg) r = send_to i msg r
apply (receive i) r = record r { clients = modify i received r.clients }
apply (hang_up i) r = record r { clients = modify i hung_up r.clients }

unfoldable pub apply_all : List Op → ClientRegistry → ClientRegistry
apply_all [] r = r
apply_all (op ∷ ops) r = apply_all ops (apply op r)
