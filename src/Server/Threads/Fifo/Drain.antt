-- ===== src/Server/Threads/Fifo/Drain.antt =====
-- The writer thread of a connection empties its queue.
use cm108_driver_rust.Base.{
  ℕ, ◌<◌, ◌≡◌, refl, sym, ap, ◌∙◌, subst, List, [], ◌∷◌, ◌++◌, append_assoc, append-nil, lt→ltb,
  if-true,
}
use cm108_driver_rust.Types.{ServerMsg}
use cm108_driver_rust.Codec.Traits.{to_vec}
use cm108_driver_rust.Codec.Server.{server_encode}
use cm108_driver_rust.Codec.Framed.{to_framed}
use cm108_driver_rust.Io.{ok, Sink, write_all}
use cm108_driver_rust.Framing.{write_msg}
use cm108_driver_rust.Gpio.{DeviceHandle}
use cm108_driver_rust.Ring.{Producer}
use cm108_driver_rust.Registry.{ClientRegistry, received, modify, oldest_gone}
use cm108_driver_rust.Server.Writer.{stream}
use cm108_driver_rust.Server.Threads.{
  waiting, writing, Connection, id_of, queue_of, take_next, written_by, write_next, update, System,
  Move, writer, move, run,
}
use cm108_driver_rust.Server.Threads.Update.{update-same}
use cm108_driver_rust.Server.Threads.Fifo.Queue.{queue-received}

-- Two moves of the writer thread for each message.
abbrev pub turns : {D R : Type 0} → ℕ → List ServerMsg → List (Move D R)
turns k [] = []
turns k (msg ∷ msgs) = writer k ∷ writer k ∷ turns k msgs

-- On a socket that takes everything.
write_msg-all :
    (msg : ServerMsg) (w : Sink)
    → w.outcomes ≡ []
    → write_msg msg w ≡ (ok tt, record { sent = w.sent ++ to_framed msg; outcomes = [] })
unfolding write_msg write_all to_framed
write_msg-all msg w e =
    subst
      (λ os.
        write_msg msg (record { sent = w.sent; outcomes = os })
        ≡ (ok tt, record { sent = w.sent ++ to_framed msg; outcomes = [] }))
      (sym e)
      (ap (λ (l : List ℕ). (ok tt, record { sent = l; outcomes = [] }))
        (append_assoc w.sent _ (to_vec msg)))

-- A connection with a waiting writer, on a socket that takes everything.
record Drains {D R : Type 0} (k : ℕ) (sent : List ℕ) (q : List ServerMsg) (sys : System D R)
    : Type 0 where
  within : k < sys.count
  idle : (sys.connections k).writer ≡ waiting
  bytes : (sys.connections k).sink.sent ≡ sent
  open_end : (sys.connections k).sink.outcomes ≡ []
  queue : queue_of (sys.connections k) sys.ctx.registry ≡ q

module _ {D R : Type 0} (handle : DeviceHandle D) (producer : Producer R) where
  abbrev stepped : ℕ → Connection → ClientRegistry → System D R → System D R
  stepped k c r sys = record sys {
    ctx = record sys.ctx { registry = r };
    connections = update sys.connections k c;
  }

  turn :
      (k : ℕ) (c : Connection) (r : ClientRegistry) (sys : System D R)
      → k < sys.count
      → write_next (sys.connections k).writer (sys.connections k) sys.ctx.registry ≡ (c, r)
      → move handle producer (writer k) sys ≡ stepped k c r sys
  unfolding move
  turn k c r sys lt e =
      if-true _ sys (lt→ltb k sys.count lt)
      ∙ ap (λ (p : Connection × ClientRegistry). stepped k p.0 p.1 sys) e

  two_turns :
      (k : ℕ) (sent : List ℕ) (msg : ServerMsg) (msgs : List ServerMsg) (sys : System D R)
      → Drains k sent (msg ∷ msgs) sys
      → Drains k
          (sent ++ to_framed msg)
          msgs
          (move handle producer (writer k) (move handle producer (writer k) sys))
  two_turns k sent msg msgs sys h =
      let c : Connection = sys.connections k in
      let r : ClientRegistry = sys.ctx.registry in
      let c₁ : Connection = record c { writer = writing msg; left = oldest_gone c.left } in
      let r₁ : ClientRegistry = record r { clients = modify (id_of c.pc) received r.clients } in
      let w₂ : Sink = record { sent = c.sink.sent ++ to_framed msg; outcomes = [] } in
      let c₂ : Connection = record c₁ { writer = waiting; sink = w₂ } in
      let took : write_next c.writer c r ≡ (c₁, r₁) =
        ap (λ w. write_next w c r) h.idle
        ∙ unfold write_next take_next in ap (λ q. take_next q c r) h.queue in
      let wrote : write_next (writing msg) c₁ r₁ ≡ (c₂, r₁) =
        unfold write_next written_by in
        ap (λ o. written_by o c₁ r₁) (write_msg-all msg c.sink h.open_end) in
      let sys₁ : System D R = stepped k c₁ r₁ sys in
      let here₁ : sys₁.connections k ≡ c₁ = update-same sys.connections k c₁ in
      let first : move handle producer (writer k) sys ≡ sys₁ = turn k c₁ r₁ sys h.within took in
      let second : move handle producer (writer k) sys₁ ≡ stepped k c₂ r₁ sys₁ =
        turn k c₂ r₁ sys₁ h.within
          (ap (λ (d : Connection). write_next d.writer d r₁) here₁ ∙ wrote) in
      let here₂ : (stepped k c₂ r₁ sys₁).connections k ≡ c₂ = update-same sys₁.connections k c₂ in
      subst (Drains k (sent ++ to_framed msg) msgs)
        (sym (ap (move handle producer (writer k)) first ∙ second))
        (record {
          within = h.within;
          idle = ap (λ (d : Connection). d.writer) here₂;
          bytes = ap (λ (d : Connection). d.sink.sent) here₂ ∙ ap (λ l. l ++ to_framed msg) h.bytes;
          open_end = ap (λ (d : Connection). d.sink.outcomes) here₂;
          queue =
              ap (λ (d : Connection). queue_of d r₁) here₂
              ∙ unfold queue_of in
                (queue-received c.left (id_of c.pc) r.clients ∙ ap oldest_gone h.queue);
        })

  drains :
      (k : ℕ) (sent : List ℕ) (q : List ServerMsg) (sys : System D R)
      → Drains k sent q sys
      → Drains k (sent ++ stream q) [] (run handle producer (turns k q) sys)
  unfolding run
  drains k sent [] sys h = subst (λ l. Drains k l [] sys) (sym (append-nil sent)) h
  drains k sent (msg ∷ msgs) sys h =
      subst (λ l. Drains k l [] (run handle producer (turns k (msg ∷ msgs)) sys))
        (append_assoc sent (to_framed msg) (stream msgs))
        (drains k (sent ++ to_framed msg) msgs _ (two_turns k sent msg msgs sys h))

  -- A writer thread that waits on its queue, on a socket that takes whole writes, has written every
  -- message of its queue after two moves for each, in their order, behind what it had written, and
  -- waits again on an empty queue. This holds also for what the client left behind when it was taken
  -- out of the registry, and for moves of this thread only.
  pub run-drains :
      (k : ℕ) (sys : System D R)
      → let c = sys.connections k in
        let q = queue_of c sys.ctx.registry in
        k < sys.count
        → c.writer ≡ waiting
        → c.sink.outcomes ≡ []
        → let sys' = run handle producer (turns k q) sys in
          let c' = sys'.connections k in
          (c'.sink.sent ≡ c.sink.sent ++ stream q)
          × (queue_of c' sys'.ctx.registry ≡ [])
          × (c'.writer ≡ waiting)
  run-drains k sys there idle ready =
      let end =
        drains k (sys.connections k).sink.sent _ sys
          (record { within = there; idle = idle; bytes = refl; open_end = ready; queue = refl }) in
      (end.bytes, end.queue, end.idle)
