-- ===== src/Registry/Deliver.antt =====
-- Which client a message reaches, and what a full queue does to it.
use cm108_driver_rust.Base.{
  ℕ, zero, suc, mod-eq_of_lt, ◌+◌, ◌^◌, ◌≤◌, ◌<◌, ◌≡◌, ◌≢◌, refl, sym, ap, ◌∙◌, true, List, [], ◌∷◌,
  ◌++◌, none, some, if◌then◌else◌, length, length-append, take, take-append, arith, append_assoc,
  append-nil, lt→ltb, le→ltb, dec_lt, map,
}
use cm108_driver_rust.Types.{
  StreamFlags, ServerMsg, audio_ready, radio_event, RadioEvent, audio_in, gpio_events, contains,
}
use cm108_driver_rust.Registry.{
  Channel, try_send, ClientHandle, insert, get, modify, ClientRegistry, allocate_id, register,
  unregister, set_streams, update_streams, offer, offer_on, broadcast_radio_event,
  notify_audio_ready, connect, disconnect, connected_client, apply,
}
use cm108_driver_rust.Registry.Map.{
  on_some, get-map, get-modify_same, get_absent, insert_new, get-append_other, get-append_new,
  remove-Differs, get-remove_other,
}
use cm108_driver_rust.Registry.Inv.{IsRegistry, set_streams-Keeps, offer_on-Keeps, next_id-absent}

-- One message after the other.
abbrev pub try_send_all : List ServerMsg → Channel → Channel
try_send_all [] c = c
try_send_all (msg ∷ msgs) c = try_send_all msgs (try_send msg c)

take_within : (n : ℕ) (xs : List ServerMsg) → length xs ≤ n → take n xs ≡ xs
take_within zero [] h = refl
take_within zero (x ∷ xs) h = absurd (omega arith)
take_within (suc n) [] h = refl
take_within (suc n) (x ∷ xs) h = ap (λ l. x ∷ l) (take_within n xs (omega arith))

send_room :
    (msg : ServerMsg) (c : Channel)
    → c.connected ≡ true
    → length c.queued < c.bound
    → try_send msg c ≡ record c { queued = c.queued ++ msg ∷ [] }
unfolding try_send
send_room msg c up h = rw (up, lt→ltb (length c.queued) c.bound h) refl

send_full :
    (msg : ServerMsg) (c : Channel)
    → c.connected ≡ true
    → c.bound ≤ length c.queued
    → try_send msg c ≡ c
unfolding try_send
send_full msg c up h = rw (up, le→ltb (length c.queued) c.bound h) refl

-- While its receiver is alive and takes nothing, a channel keeps the oldest messages, as many as
-- its bound, in the order in which they were sent, and loses the later ones.
pub try_send_all-take :
    (msgs : List ServerMsg) (c : Channel)
    → c.connected ≡ true
    → length c.queued ≤ c.bound
    → try_send_all msgs c ≡ record c { queued = take c.bound (c.queued ++ msgs) }
try_send_all-take [] c up h =
    ap (λ (l : List ServerMsg). record c { queued = l })
      (sym (ap (take c.bound) (append-nil c.queued) ∙ take_within c.bound c.queued h))
try_send_all-take (msg ∷ msgs) c up h = elim (dec_lt (length c.queued) c.bound) [
  | yes room ↦
      let c' : Channel = record c { queued = c.queued ++ msg ∷ [] } in
      ap (try_send_all msgs) (send_room msg c up room)
      ∙ try_send_all-take msgs c' up (omega (arith, length-append c.queued (msg ∷ [])))
      ∙ ap (λ (l : List ServerMsg). record c { queued = take c.bound l })
          (append_assoc c.queued (msg ∷ []) msgs)
  | no full ↦
      let size : length c.queued ≡ c.bound = omega arith in
      ap (try_send_all msgs) (send_full msg c up (omega arith))
      ∙ try_send_all-take msgs c up h
      ∙ ap (λ (l : List ServerMsg). record c { queued = l })
          (take-append c.bound c.queued msgs size
            ∙ sym (take-append c.bound c.queued (msg ∷ msgs) size))
]

-- A connection gets an identifier that no client has: it is found under it, with no subscription and
-- an empty queue, and every other client is as it was. It holds for a valid registry that has given
-- out fewer than 2 ^ 64 - 2 identifiers.
pub connect-get :
    (r : ClientRegistry) (j : ℕ)
    → IsRegistry r
    → r.next_id + 1 < 2 ^ 64
    → j ≢ r.next_id
    → let r' = apply connect r in
      (get r.next_id r.clients ≡ none)
      × (get r.next_id r'.clients ≡ some (connected_client r.next_id))
      × (get j r'.clients ≡ get j r.clients)
      × (r'.next_id ≡ r.next_id + 1)
unfolding apply allocate_id register connected_client
connect-get r j h room ne =
    let c : ClientHandle = connected_client r.next_id in
    let new = next_id-absent r.next_id r.clients h.entries in
    let at_end : insert c r.clients ≡ r.clients ++ c ∷ [] = insert_new c r.clients new in
    (
      get_absent r.next_id r.clients new,
      ap (get r.next_id) at_end ∙ get-append_new c r.clients new,
      ap (get j) at_end ∙ get-append_other j c r.clients (λ e. ne (sym e)),
      mod-eq_of_lt room,
    )

-- Behind a disconnection its client is not found any more, so no message reaches it, and every other
-- client is as it was. It holds for a valid registry.
pub disconnect-get :
    (r : ClientRegistry) (i j : ℕ)
    → IsRegistry r
    → j ≢ i
    → let r' = apply (disconnect i) r in
      (get i r'.clients ≡ none) × (get j r'.clients ≡ get j r.clients)
unfolding apply unregister
disconnect-get r i j h ne =
    (get_absent i _ (remove-Differs i r.clients h.distinct), get-remove_other i j r.clients ne)

-- The client `i` behind its subscription and a broadcast.
subscribed_offers :
    (r : ClientRegistry) (i seq : ℕ) (ev : RadioEvent) (s : StreamFlags) (h : ClientHandle)
    → get i r.clients ≡ some h
    → let r' = update_streams i s r in
      let h' : ClientHandle = set_streams s h in
      (get i (notify_audio_ready seq r').clients ≡ some (offer_on audio_in (audio_ready seq) h'))
      × (get i (broadcast_radio_event ev r').clients
          ≡ some (offer_on gpio_events (radio_event ev) h'))
unfolding update_streams notify_audio_ready broadcast_radio_event
subscribed_offers r i seq ev s h found =
    (on audio_in (audio_ready seq), on gpio_events (radio_event ev))
  where
    at : get i (modify i (set_streams s) r.clients) ≡ some (set_streams s h)
    at =
        get-modify_same (set_streams s) (set_streams-Keeps s).same_id i r.clients
        ∙ ap (on_some (set_streams s)) found

    on :
        (t : StreamFlags) (msg : ServerMsg)
        → get i (map (offer_on t msg) (modify i (set_streams s) r.clients))
          ≡ some (offer_on t msg (set_streams s h))
    on t msg =
        get-map (offer_on t msg) (offer_on-Keeps t msg).same_id i
          (modify i (set_streams s) r.clients)
        ∙ ap (on_some (offer_on t msg)) at

-- A client that has subscribed to `s` is offered the notice of a new audio frame exactly if `s` has
-- the audio input, and it is offered a radio event exactly if `s` has the pin events, whatever it
-- was subscribed to before.
pub subscribe-offers :
    (r : ClientRegistry) (i seq : ℕ) (ev : RadioEvent) (s : StreamFlags) (h : ClientHandle)
    → get i r.clients ≡ some h
    → let r' = update_streams i s r in
      let h' : ClientHandle = set_streams s h in
      (get i (notify_audio_ready seq r').clients
        ≡ some (if contains s audio_in then offer (audio_ready seq) h' else h'))
      × (get i (broadcast_radio_event ev r').clients
          ≡ some (if contains s gpio_events then offer (radio_event ev) h' else h'))
unfolding offer_on set_streams
subscribe-offers r i seq ev s h found = subscribed_offers r i seq ev s h found
