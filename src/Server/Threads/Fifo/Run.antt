-- ===== src/Server/Threads/Fifo/Run.antt =====
-- Every socket carries what was offered to its client, in order, however the threads interleave.
use cm108_driver_rust.Base.{
  ℕ, ◌+◌, ◌^◌, ◌<◌, ◌≡◌, ◌≢◌, refl, sym, ap, ◌∙◌, subst, subst₂, Bool, true, false, List, [], ◌∷◌,
  ◌++◌, ltb, if◌then◌else◌, if-true, length, arith, append-nil, append_assoc, ==_refl, ℕ_discrete,
}
use mathlib.Core.List.{Sublist, sublist-append_left}
use cm108_driver_rust.Types.{ServerMsg}
use cm108_driver_rust.Gpio.{DeviceHandle}
use cm108_driver_rust.Ring.{Producer}
use cm108_driver_rust.Registry.{ClientRegistry, new, get}
use cm108_driver_rust.Server.{ClientContext}
use cm108_driver_rust.Server.Writer.{Streams}
use cm108_driver_rust.Server.Threads.{
  unspawned, Connection, id_of, is_registered, queue_of, advance, write_next, update, System, Move,
  accept, connection, writer, broadcasts, elsewhere, fresh, move, run, nobody,
}
use cm108_driver_rust.Server.Threads.Update.{update-same, update-other}
use cm108_driver_rust.Server.Threads.Owners.Run.{is_registered-named, Runs, move-Runs, nobody-Runs}
use cm108_driver_rust.Server.Threads.Isolation.{advance-get, write_next-get}
use cm108_driver_rust.Server.Threads.Fifo.{replies, replies_of, offered, offered_in, in_hand, Fifo}
use cm108_driver_rust.Server.Threads.Fifo.Queue.{write_next-Fifo}
use cm108_driver_rust.Server.Threads.Fifo.Places.{queue_left}
use cm108_driver_rust.Server.Threads.Fifo.Steps.{early, advance-Fifo}
use cm108_driver_rust.Server.Threads.Fifo.Early.{write_next-quiet, advance-quiet}
use cm108_driver_rust.Server.Threads.Fifo.Carries.{
  Carries, untouched, others_queue, broadcast_queue, no_queue, nobody-Carries, Written-Streams,
}

module _ {D R : Type 0} (handle : DeviceHandle D) (producer : Producer R) where
  -- The connection's own moves.
  own_step-Carries :
      (limit now k : ℕ) (history : List ServerMsg) (sys : System D R)
      → Runs limit sys
      → Runs (limit + 1) (move handle producer (connection k now) sys)
      → Carries k history sys
      → Carries k
          (history ++ offered k (connection k now) sys)
          (move handle producer (connection k now) sys)
  unfolding move offered
  own_step-Carries limit now k history sys r r' h = go (ltb k sys.count) r'
    where
      c : Connection
      c = sys.connections k

      stepped : Connection × ClientContext D R
      stepped = advance handle producer c.pc now c sys.ctx

      next : System D R
      next = record sys { ctx = stepped.1; connections = update sys.connections k stepped.0 }

      off : replies_of {D = D} {R = R} k (connection k now) c.pc ++ [] ≡ replies c.pc
      off = append-nil _ ∙ if-true (replies c.pc) [] (==_refl k)

      go :
          (b : Bool)
          → Runs (limit + 1) (if b then next else sys)
          → Carries k
              (history ++ (replies_of {D = D} {R = R} k (connection k now) c.pc ++ []))
              (if b then next else sys)
      go false _ = untouched k history _ sys sys refl (sublist-append_left _ _) h
      go true r' =
          let line : Fifo (history ++ replies c.pc) stepped.0
              (queue_of stepped.0 stepped.1.registry) =
            advance-Fifo handle producer c.pc now k history sys.connections sys.ctx refl h.quiet
              r.owned r'.owned h.line in
          let here : update sys.connections k stepped.0 k ≡ stepped.0 =
            update-same sys.connections k stepped.0 in
          record {
            line =
                subst₂ (λ l d. Fifo (history ++ l) d (queue_of d stepped.1.registry)) (sym off)
                  (sym here) line;
            quiet =
                subst (λ (d : Connection). early d.pc ≡ true → d.writer ≡ unspawned) (sym here)
                  (advance-quiet handle producer c.pc now c sys.ctx refl h.quiet);
          }

  own_write-Carries :
      (k : ℕ) (history : List ServerMsg) (sys : System D R)
      → Carries k history sys
      → Carries k (history ++ []) (move handle producer (writer k) sys)
  unfolding move
  own_write-Carries k history sys h = go (ltb k sys.count)
    where
      c : Connection
      c = sys.connections k

      stepped : Connection × ClientRegistry
      stepped = write_next c.writer c sys.ctx.registry

      next : System D R
      next = record sys {
        ctx = record sys.ctx { registry = stepped.1 };
        connections = update sys.connections k stepped.0;
      }

      go : (b : Bool) → Carries k (history ++ []) (if b then next else sys)
      go false = untouched k history [] sys sys refl (sublist-append_left _ []) h
      go true =
          let line : Fifo history stepped.0 (queue_of stepped.0 stepped.1) =
            write_next-Fifo c.writer history c sys.ctx.registry refl h.line in
          let here : update sys.connections k stepped.0 k ≡ stepped.0 =
            update-same sys.connections k stepped.0 in
          record {
            line =
                subst₂ (λ l d. Fifo l d (queue_of d stepped.1)) (sym (append-nil history))
                  (sym here) line;
            quiet =
                subst (λ (d : Connection). early d.pc ≡ true → d.writer ≡ unspawned) (sym here)
                  (write_next-quiet c.writer c sys.ctx.registry refl h.quiet);
          }

  -- The moves of another connection.
  other-Carries :
      (limit k j : ℕ) (history off : List ServerMsg) (sys : System D R) (c : Connection)
      (ctx : ClientContext D R) (b : Bool)
      → let next : System D R = record sys {
        ctx = ctx;
        connections = update sys.connections j c;
      } in
        k ≢ j
        → ((i : ℕ)
            → i ≢ id_of (sys.connections j).pc
            → get i ctx.registry.clients ≡ get i sys.ctx.registry.clients)
        → Runs limit sys
        → Runs (limit + 1) (if b then next else sys)
        → Carries k history sys
        → Carries k (history ++ off) (if b then next else sys)
  other-Carries limit k j history off sys c ctx false ne found r r' h =
      untouched k history off sys sys refl (sublist-append_left _ off) h
  other-Carries limit k j history off sys c ctx true ne found r r' h =
      let same : update sys.connections j c k ≡ sys.connections k =
        update-other sys.connections j c k ne in
      untouched k history off sys _ same
        (others_queue sys.connections (update sys.connections j c) sys.ctx.registry ctx.registry k
          off r.owned r'.owned same
          (λ reg. found (id_of (sys.connections k).pc) (λ e. ne (
            r.owned.distinct k j (r.owned.named k (is_registered-named (sys.connections k).pc reg))
              e))))
        h

  move-Carries :
      (m : Move D R) (limit k : ℕ) (history : List ServerMsg) (sys : System D R)
      → Runs limit sys
      → Runs (limit + 1) (move handle producer m sys)
      → Carries k history sys
      → Carries k (history ++ offered k m sys) (move handle producer m sys)
  unfolding move offered
  move-Carries (accept s os fd_sent cloned) limit k history sys r r' h =
      elim (ℕ_discrete k sys.count) [
        | yes e ↦
            let f : Connection = fresh s os fd_sent cloned in
            let at : update sys.connections sys.count f k ≡ f =
              ap (update sys.connections sys.count f) e ∙ update-same sys.connections sys.count f in
            let out : is_registered f.pc ≡ false = unfold fresh is_registered in refl in
            record {
              line =
                  no_queue _ (history ++ [])
                    (ap (λ (d : Connection). d.sink.sent) at ∙ unfold fresh in refl)
                    (ap (λ (d : Connection). d.writer) at ∙ unfold fresh in refl) _
                    (queue_left _ sys.ctx.registry k r'.owned
                        (ap (λ (d : Connection). is_registered d.pc) at ∙ out)
                      ∙ ap (λ (d : Connection). d.left) at
                      ∙ unfold fresh in refl);
              quiet = λ _. ap (λ (d : Connection). d.writer) at ∙ unfold fresh in refl;
            }
        | no ne ↦
            untouched k history [] sys _ (update-other sys.connections sys.count _ k ne)
              (sublist-append_left _ []) h
      ]
  move-Carries (connection j now) limit k history sys r r' h = elim (ℕ_discrete k j) [
    | yes e ↦
        subst
          (λ n.
            Runs (limit + 1) (move handle producer (connection n now) sys)
            → Carries k (history ++ offered k (connection n now) sys)
                (move handle producer (connection n now) sys))
          e (λ v. unfold offered move in own_step-Carries limit now k history sys r v h) r'
    | no ne ↦
        other-Carries limit k j history _ sys _ _ (ltb j sys.count) ne
          (λ i differs.
            advance-get handle producer i (sys.connections j).pc now (sys.connections j) sys.ctx
              differs)
          r r' h
  ]
  move-Carries (writer j) limit k history sys r r' h = elim (ℕ_discrete k j) [
    | yes e ↦
        subst (λ n. Carries k (history ++ []) (move handle producer (writer n) sys)) e
          (unfold move in own_write-Carries k history sys h)
    | no ne ↦
        other-Carries limit k j history _ sys _ _ (ltb j sys.count) ne
          (λ i differs.
            write_next-get i (sys.connections j).writer (sys.connections j) sys.ctx.registry
              differs)
          r r' h
  ]
  move-Carries (broadcasts b) limit k history sys r r' h =
      untouched k history _ sys _ refl (broadcast_queue b (sys.connections k) sys.ctx.registry) h
  move-Carries (elsewhere gpio device tx rx_xruns tx_xruns lat) limit k history sys r r' h =
      untouched k history _ sys _ refl (sublist-append_left _ []) h

  run-Carries :
      (ms : List (Move D R)) (limit k : ℕ) (history : List ServerMsg) (sys : System D R)
      → limit + length ms < 2 ^ 64
      → Runs limit sys
      → Carries k history sys
      → Carries k (history ++ offered_in handle producer k ms sys) (run handle producer ms sys)
  unfolding run offered_in
  run-Carries [] limit k history sys small r h =
      subst (λ l. Carries k l sys) (sym (append-nil history)) h
  run-Carries (m ∷ ms) limit k history sys small r h =
      let next : System D R = move handle producer m sys in
      let r' : Runs (limit + 1) next = move-Runs handle producer limit m sys (omega arith) r in
      subst (λ l. Carries k l (run handle producer ms next))
        (append_assoc history (offered k m sys) (offered_in handle producer k ms next))
        (run-Carries ms (limit + 1) k (history ++ offered k m sys) next (omega arith) r'
          (move-Carries m limit k history sys r r' h))

  -- In every state that fewer than 2 ^ 63 interleaved steps of all threads reach from the empty
  -- registry, the socket of every connection carries the packets of some messages, whole and in
  -- order, but that a write that fails ends it behind a front part of the last packet. These
  -- messages, that in the hands of the writer and those that wait in the queue are, in this order,
  -- some of the messages that the client was offered in the run: none is made up, doubled, or
  -- overtaken by another.
  pub run-Fifo :
      (ms : List (Move D R)) (ctx : ClientContext D R) (k : ℕ)
      → ctx.registry ≡ new
      → length ms < 2 ^ 63
      → let sys = run handle producer ms (nobody ctx) in
        let c = sys.connections k in
        (taken : List ServerMsg) × Streams [] taken c.sink
        × Sublist
            (taken ++ (in_hand c.writer ++ queue_of c sys.ctx.registry))
            (offered_in handle producer k ms (nobody ctx))
  run-Fifo ms ctx k empty few =
      let start : Runs 2 (nobody ctx) = nobody-Runs handle producer ctx empty in
      let end =
        run-Carries ms 2 k [] (nobody ctx) (omega arith) start (nobody-Carries ctx k start) in
      (
        end.line.taken,
        Written-Streams ((run handle producer ms (nobody ctx)).connections k).writer end.line.taken
            ((run handle producer ms (nobody ctx)).connections k).sink end.line.written,
        end.line.order,
      )
