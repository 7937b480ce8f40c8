-- ===== src/Server/Threads/Told.antt =====
-- From a broadcast in the daemon to the client at the other end of the socket.
use cm108_driver_rust.Base.{
  ℕ, ◌+◌, ◌^◌, ◌≤◌, ◌<◌, ◌≡◌, refl, sym, ap, ◌∙◌, Bool, true, false, List, [], ◌∷◌, ◌++◌, some, ltb,
  if◌then◌else◌, length, take, map, All, arith,
}
use cm108_driver_rust.Types.{ServerMsg}
use cm108_driver_rust.Codec.Server.{server_encode}
use cm108_driver_rust.Codec.Server.Laws.{IsServerMsg}
use cm108_driver_rust.Io.{Input}
use cm108_driver_rust.Io.Laws.{Delivers}
use cm108_driver_rust.Framing.Read.{FitsPayload}
use cm108_driver_rust.Gpio.{DeviceHandle}
use cm108_driver_rust.Ring.{Producer}
use cm108_driver_rust.Registry.{ClientHandle, new, get}
use cm108_driver_rust.Client.{returns}
use cm108_driver_rust.Server.{ClientContext}
use cm108_driver_rust.Server.Writer.{stream, wait_all, wait_all-stream}
use cm108_driver_rust.Server.Threads.{
  Connection, id_of, is_registered, queue_in, queue_of, waiting, System, Move, accept, connection,
  writer, broadcasts, elsewhere, move, run, nobody,
}
use cm108_driver_rust.Server.Threads.Isolation.Still.{Foreign, heard, run-heard}
use cm108_driver_rust.Server.Threads.Fifo.Drain.{turns, run-drains}

module _ {D R : Type 0} (handle : DeviceHandle D) (producer : Producer R) where
  run-append :
      (ms ns : List (Move D R)) (sys : System D R)
      → run handle producer (ms ++ ns) sys ≡ run handle producer ns (run handle producer ms sys)
  unfolding run
  run-append [] ns sys = refl
  run-append (m ∷ ms) ns sys = run-append ms ns (move handle producer m sys)

  if-count :
      (b : Bool) (s t : System D R) → s.count ≡ t.count → t.count ≤ (if b then s else t).count
  if-count true s t e = omega (arith, e)
  if-count false s t e = omega arith

  move-count : (m : Move D R) (sys : System D R) → sys.count ≤ (move handle producer m sys).count
  unfolding move
  move-count (accept s os fd_sent cloned) sys = omega arith
  move-count (connection j now) sys = if-count (ltb j sys.count) _ sys refl
  move-count (writer j) sys = if-count (ltb j sys.count) _ sys refl
  move-count (broadcasts b) sys = omega arith
  move-count (elsewhere gpio device tx rx_xruns tx_xruns lat) sys = omega arith

  run-count :
      (ms : List (Move D R)) (sys : System D R) → sys.count ≤ (run handle producer ms sys).count
  unfolding run
  run-count [] sys = omega arith
  run-count (m ∷ ms) sys =
      omega (arith, move-count m sys, run-count ms (move handle producer m sys))

  -- From the daemon's threads to the client: while the two threads of a registered client stand still,
  -- its writer waiting, all other threads make any moves, and then the writer makes two moves for each
  -- message. Then the packets of the first 128 of its queue and of the broadcasts that it has
  -- subscribed to have gone out on its socket, in order, behind what had been written; and a client to
  -- which these bytes come, with any pauses, reads those very messages by as many calls of `wait_msg`,
  -- and what follows them is still to be read. The messages are valid, of 65,536 bytes at most; the
  -- socket takes whole writes, the writer has not dropped the queue, and there are fewer than 2 ^ 63
  -- steps from the empty registry.
  pub run-told :
      (before ms : List (Move D R)) (ctx : ClientContext D R) (k : ℕ) (h : ClientHandle)
      (s rest : Input)
      → ctx.registry ≡ new
      → length before + length ms < 2 ^ 63
      → let sys = run handle producer before (nobody ctx) in
        let c = sys.connections k in
        let told = take 128 (h.sender.queued ++ heard h.streams ms) in
        k < sys.count
        → is_registered c.pc ≡ true
        → get (id_of c.pc) sys.ctx.registry.clients ≡ some h
        → h.sender.connected ≡ true
        → c.writer ≡ waiting
        → c.sink.outcomes ≡ []
        → All (Foreign k) ms
        → All IsServerMsg told
        → All FitsPayload told
        → Delivers (stream told) s rest
        → let c' = (run handle producer (ms ++ turns k told) sys).connections k in
          (c'.sink.sent ≡ c.sink.sent ++ stream told)
          × (wait_all (length told) s ≡ (map (λ m. returns (some m)) told, rest))
  run-told before ms ctx k h s rest empty few there reg at up idle ready foreign valid fits
        arrives =
      let sys : System D R = run handle producer before (nobody ctx) in
      let c : Connection = sys.connections k in
      let told : List ServerMsg = take 128 (h.sender.queued ++ heard h.streams ms) in
      let sys₁ : System D R = run handle producer ms sys in
      let (same, entry) =
        run-heard handle producer before ms ctx k h empty few there reg at up foreign in
      let queue : queue_of (sys₁.connections k) sys₁.ctx.registry ≡ told =
        ap (λ (d : Connection). queue_of d sys₁.ctx.registry) same
        ∙ unfold queue_of in ap (queue_in c.left) entry in
      let (sent, _, _) =
        run-drains handle producer k sys₁ (omega (arith, run-count ms sys))
          (ap (λ (d : Connection). d.writer) same ∙ idle)
          (ap (λ (d : Connection). d.sink.outcomes) same ∙ ready) in
      let moved : run handle producer (ms ++ turns k told) sys
          ≡ run handle producer (turns k (queue_of (sys₁.connections k) sys₁.ctx.registry)) sys₁ =
        run-append ms (turns k told) sys
        ∙ ap (λ q. run handle producer (turns k q) sys₁) (sym queue) in
      (
        ap (λ (t : System D R). (t.connections k).sink.sent) moved
            ∙ sent
            ∙ ap
                (λ (d : Connection).
                  d.sink.sent ++ stream (queue_of (sys₁.connections k) sys₁.ctx.registry))
                same
            ∙ ap (λ q. c.sink.sent ++ stream q) queue,
        wait_all-stream told s rest valid fits arrives,
      )
