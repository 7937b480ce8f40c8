-- ===== src/Server/Threads/Keys.antt =====
-- Which identifiers the registry has, and what a step of a thread does to them.
use cm108_driver_rust.Base.{
  ℕ, ◌≡◌, ◌≢◌, refl, sym, ap, ◌∙◌, Bool, true, false, List, [], ◌∷◌, Option, none, some, ◌==◌,
  ℕ_discrete, if◌then◌else◌, map, arith,
}
use cm108_driver_rust.Types.{
  ClientMsg, subscribe, set_gpio, audio_write, ping, get_stats, ServerMsg,
}
use cm108_driver_rust.Gpio.{DeviceHandle}
use cm108_driver_rust.Ring.{Producer}
use cm108_driver_rust.Registry.{
  ClientHandle, ClientRegistry, insert, remove, get, modify, send_to, update_streams,
  broadcast_radio_event, notify_audio_ready, broadcast_stats,
}
use cm108_driver_rust.Registry.Map.{
  on_some, get-map, get-modify_same, get-modify_other, get_absent, Distinct, remove-Differs,
  get-remove_other,
}
use cm108_driver_rust.Registry.Inv.{Keeps, set_streams-Keeps, offer-Keeps, offer_on-Keeps}
use cm108_driver_rust.Server.{ClientContext, dispatch_match}
use cm108_driver_rust.Server.Threads.{Broadcast, radio, audio, statistics, broadcast}

abbrev pub is_some : Option ClientHandle → Bool
is_some none = false
is_some (some h) = true

abbrev pub has : ℕ → ClientRegistry → Bool
has i r = is_some (get i r.clients)

is_some-on_some :
    (f : ClientHandle → ClientHandle) (o : Option ClientHandle) → is_some (on_some f o) ≡ is_some o
is_some-on_some f none = refl
is_some-on_some f (some h) = refl

pub is_some-found : (o : Option ClientHandle) → is_some o ≡ true → (h : ClientHandle) × (o ≡ some h)
is_some-found none e = cc
is_some-found (some h) e = (h, refl)

pub get-insert :
    (h : ClientHandle) (j : ℕ) (cs : List ClientHandle)
    → get j (insert h cs) ≡ (if h.id == j then some h else get j cs)
unfolding insert get
get-insert h j [] = ground arith
get-insert h j (c ∷ cs) = ground (arith, get-insert h j cs)

pub has-insert :
    (h : ClientHandle) (j : ℕ) (cs : List ClientHandle)
    → is_some (get j (insert h cs)) ≡ (if h.id == j then true else is_some (get j cs))
has-insert h j cs = ground (arith, get-insert h j cs)

pub has-remove_self :
    (i : ℕ) (cs : List ClientHandle) → Distinct cs → is_some (get i (remove i cs)) ≡ false
has-remove_self i cs d = ap is_some (get_absent i (remove i cs) (remove-Differs i cs d))

pub has-remove_other :
    (i j : ℕ) (cs : List ClientHandle) → j ≢ i → is_some (get j (remove i cs)) ≡ is_some (get j cs)
has-remove_other i j cs ne = ap is_some (get-remove_other i j cs ne)

-- Registries of the same identifiers, of which the same have been given out.
pub record SameKeys (r r' : ClientRegistry) : Type 0 where
  pub next : r'.next_id ≡ r.next_id
  pub keys : (i : ℕ) → has i r' ≡ has i r

pub same_keys : (r : ClientRegistry) → SameKeys r r
same_keys r = record { next = refl; keys = λ i. refl }

module _ (f : ClientHandle → ClientHandle) (k : Keeps f) (r : ClientRegistry) where
  pub modify-SameKeys : (i : ℕ) → SameKeys r (record r { clients = modify i f r.clients })
  modify-SameKeys i = record {
    next = refl;
    keys = λ j. elim (ℕ_discrete j i) [
      | yes e ↦
          ap (λ (n : ℕ). is_some (get n (modify i f r.clients))) e
          ∙ ap is_some (get-modify_same f k.same_id i r.clients)
          ∙ is_some-on_some f (get i r.clients)
          ∙ ap (λ (n : ℕ). is_some (get n r.clients)) (sym e)
      | no ne ↦ ap is_some (get-modify_other f k.same_id i j r.clients ne)
    ];
  }

  pub map-SameKeys : SameKeys r (record r { clients = map f r.clients })
  map-SameKeys = record {
    next = refl;
    keys = λ j. ap is_some (get-map f k.same_id j r.clients) ∙ is_some-on_some f (get j r.clients);
  }

pub send_to-SameKeys : (i : ℕ) (msg : ServerMsg) (r : ClientRegistry) → SameKeys r (send_to i msg r)
unfolding send_to
send_to-SameKeys i msg r = modify-SameKeys _ (offer-Keeps msg) r i

pub broadcast-SameKeys : (b : Broadcast) (r : ClientRegistry) → SameKeys r (broadcast b r)
unfolding broadcast broadcast_radio_event notify_audio_ready broadcast_stats
broadcast-SameKeys (radio ev) r = map-SameKeys _ (offer_on-Keeps _ _) r
broadcast-SameKeys (audio seq) r = map-SameKeys _ (offer_on-Keeps _ _) r
broadcast-SameKeys (statistics rx tx lat) r = map-SameKeys _ (offer-Keeps _) r

pub dispatch_match-SameKeys :
    {D R : Type 0} (handle : DeviceHandle D) (producer : Producer R) (id : ℕ) (msg : ClientMsg)
    (ctx : ClientContext D R)
    → SameKeys ctx.registry (dispatch_match handle producer id msg ctx).registry
unfolding dispatch_match update_streams
dispatch_match-SameKeys handle producer id (subscribe s) ctx =
    modify-SameKeys _ (set_streams-Keeps s) ctx.registry id
dispatch_match-SameKeys handle producer id (set_gpio n high) ctx = same_keys ctx.registry
dispatch_match-SameKeys handle producer id (audio_write fs) ctx = same_keys ctx.registry
dispatch_match-SameKeys handle producer id ping ctx = send_to-SameKeys id _ ctx.registry
dispatch_match-SameKeys handle producer id get_stats ctx = send_to-SameKeys id _ ctx.registry
