-- ===== src/Server/Threads/Owners/Run.antt =====
-- Who owns the entries of the registry in every state that the interleaved threads reach.
use cm108_driver_rust.Base.{
  ℕ, ◌+◌, ◌^◌, ◌≤◌, ◌<◌, ◌≡◌, refl, sym, ap, ◌∙◌, subst, Bool, true, false, List, [], ◌∷◌, Option,
  none, some, if◌then◌else◌, ltb, ltb→lt, length, arith,
}
use cm108_driver_rust.Gpio.{DeviceHandle}
use cm108_driver_rust.Ring.{Producer}
use cm108_driver_rust.Registry.{ClientHandle, ClientRegistry, new, get}
use cm108_driver_rust.Registry.Inv.{new-IsRegistry}
use cm108_driver_rust.Server.{ClientContext}
use cm108_driver_rust.Server.Threads.{
  Pc, accepted, allocated, Connection, id_of, is_registered, update, System, Move, accept,
  connection, writer, broadcasts, elsewhere, fresh, move, run, nobody,
}
use cm108_driver_rust.Server.Threads.Update.{update-other}
use cm108_driver_rust.Server.Threads.Keys.{is_some, same_keys, broadcast-SameKeys}
use cm108_driver_rust.Server.Threads.Owners.{
  is_named, Owned, Alike, alike, quiet-Owned, near_update,
}
use cm108_driver_rust.Server.Threads.Owners.Steps.{
  advance-Owned, write_next-Owned, broadcast-IsRegistry,
}
use cm108_driver_rust.Server.Threads.Owners.Given.{advance-next_id, write_next-next_id}

-- The numbers that have not been accepted stand at the start.
pub record Runs {D R : Type 0} (limit : ℕ) (sys : System D R) : Type 0 where
  pub owned : Owned sys.connections sys.ctx.registry
  pub beyond : (k : ℕ) → sys.count ≤ k → (sys.connections k).pc ≡ accepted
  pub room : sys.ctx.registry.next_id < limit

beyond_update :
    {D R : Type 0} (sys : System D R) (k : ℕ) (c : Connection)
    → k < sys.count
    → ((j : ℕ) → sys.count ≤ j → (sys.connections j).pc ≡ accepted)
    → (j : ℕ) → sys.count ≤ j
    → (update sys.connections k c j).pc ≡ accepted
beyond_update sys k c lt b j le =
    ap (λ (d : Connection). d.pc) (update-other sys.connections k c j (λ e. omega (arith, e)))
    ∙ b j le

Runs-if :
    {D R : Type 0} (limit : ℕ) (b : Bool) (s t : System D R)
    → (b ≡ true → Runs limit s)
    → Runs limit t
    → Runs limit (if b then s else t)
Runs-if limit true s t yes' no' = yes' refl
Runs-if limit false s t yes' no' = no'

module _ {D R : Type 0} (handle : DeviceHandle D) (producer : Producer R) where
  pub move-Runs :
      (limit : ℕ) (m : Move D R) (sys : System D R)
      → limit < 2 ^ 64
      → Runs limit sys
      → Runs (limit + 1) (move handle producer m sys)
  unfolding move
  move-Runs limit (accept s os fd_sent cloned) sys small h = record {
    owned =
        quiet-Owned sys.connections _ sys.ctx.registry _
          (near_update sys.connections sys.count (fresh s os fd_sent cloned) (
            subst (λ p. Alike p (fresh s os fd_sent cloned).pc)
              (sym (h.beyond sys.count (omega arith))) (unfold fresh in alike accepted)))
          (same_keys sys.ctx.registry) h.owned.valid h.owned;
    beyond = λ j le.
        ap (λ (d : Connection). d.pc)
          (update-other sys.connections sys.count _ j (λ e. omega (arith, e)))
        ∙ h.beyond j (omega arith);
    room = omega (arith, h.room);
  }
  move-Runs limit (connection k now) sys small h =
      Runs-if (limit + 1) (ltb k sys.count) _ sys
        (λ e. record {
          owned =
              advance-Owned handle producer (sys.connections k).pc now sys.connections k sys.ctx
                refl (omega (arith, h.room)) h.owned;
          beyond = beyond_update sys k _ (ltb→lt k sys.count e) h.beyond;
          room = omega (
            arith,
            h.room,
            advance-next_id handle producer (sys.connections k).pc now (sys.connections k) sys.ctx,
          );
        })
        (record { owned = h.owned; beyond = h.beyond; room = omega (arith, h.room) })
  move-Runs limit (writer k) sys small h =
      Runs-if (limit + 1) (ltb k sys.count) _ sys
        (λ e. record {
          owned =
              write_next-Owned (sys.connections k).writer sys.connections k sys.ctx.registry
                h.owned;
          beyond = beyond_update sys k _ (ltb→lt k sys.count e) h.beyond;
          room = omega (
            arith,
            h.room,
            write_next-next_id (sys.connections k).writer (sys.connections k) sys.ctx.registry,
          );
        })
        (record { owned = h.owned; beyond = h.beyond; room = omega (arith, h.room) })
  move-Runs limit (broadcasts b) sys small h = record {
    owned =
        quiet-Owned sys.connections sys.connections sys.ctx.registry _
          (λ j. alike (sys.connections j).pc) (broadcast-SameKeys b sys.ctx.registry)
          (broadcast-IsRegistry b sys.ctx.registry h.owned.valid) h.owned;
    beyond = h.beyond;
    room = omega (arith, h.room, (broadcast-SameKeys b sys.ctx.registry).next);
  }
  move-Runs limit (elsewhere gpio device tx rx_xruns tx_xruns lat) sys small h = record {
    owned = h.owned;
    beyond = h.beyond;
    room = omega (arith, h.room);
  }

  pub run-Runs :
      (ms : List (Move D R)) (limit : ℕ) (sys : System D R)
      → limit + length ms < 2 ^ 64
      → Runs limit sys
      → Runs (limit + length ms) (run handle producer ms sys)
  unfolding run
  run-Runs [] limit sys small h = record {
    owned = h.owned;
    beyond = h.beyond;
    room = omega (arith, h.room);
  }
  run-Runs (m ∷ ms) limit sys small h =
      let rest =
        run-Runs ms (limit + 1) (move handle producer m sys) (omega arith)
          (move-Runs limit m sys (omega arith) h) in
      record { owned = rest.owned; beyond = rest.beyond; room = omega (arith, rest.room) }

  pub nobody-Runs : (ctx : ClientContext D R) → ctx.registry ≡ new → Runs 2 (nobody ctx)
  unfolding nobody fresh
  nobody-Runs ctx e = record {
    owned =
        subst (λ r. Owned (λ k. fresh [] [] false false) r) (sym e)
          (unfold id_of is_registered new get in
            record {
              valid = new-IsRegistry;
              given = λ k. omega arith;
              named = λ k e. cc;
              distinct = λ j k p e. absurd (omega arith);
              found = λ k e. cc;
              owner = λ i e. absurd (cc);
            });
    beyond = λ k le. refl;
    room = unfold new in omega (arith, ap (λ (r : ClientRegistry). r.next_id) e);
  }

  -- In every state that fewer than 2 ^ 63 interleaved steps of all threads reach from the empty
  -- registry: the registry is valid, no two connections have one identifier, and the registry has an
  -- entry exactly for the identifiers of the connections between `register` and `unregister`.
  pub run-Owned :
      (ms : List (Move D R)) (ctx : ClientContext D R)
      → ctx.registry ≡ new
      → length ms < 2 ^ 63
      → let sys = run handle producer ms (nobody ctx) in Owned sys.connections sys.ctx.registry
  run-Owned ms ctx empty few =
      (run-Runs ms 2 (nobody ctx) (omega arith) (nobody-Runs ctx empty)).owned

pub is_registered-named : (p : Pc) → is_registered p ≡ true → is_named p ≡ true
unfolding is_registered
is_registered-named accepted e = cc
is_registered-named (allocated id) e = refl
is_registered-named p e = refl

-- An identifier is not found outside the time between `register` and `unregister`.
pub absent :
    (cs : ℕ → Connection) (r : ClientRegistry) (k : ℕ)
    → Owned cs r
    → is_registered (cs k).pc ≡ false
    → get (id_of (cs k).pc) r.clients ≡ none
absent cs r k h out = go (get (id_of (cs k).pc) r.clients) refl
  where
    go : (o : Option ClientHandle) → get (id_of (cs k).pc) r.clients ≡ o → o ≡ none
    go none e = refl
    go (some c) e =
        let (l, reg, at) = h.owner (id_of (cs k).pc) (ap is_some e) in
        let pos : 1 ≤ id_of (cs l).pc = h.named l (is_registered-named (cs l).pc reg) in
        let same : k ≡ l = h.distinct k l (omega (arith, at, pos)) (sym at) in
        cc (sym out ∙ ap (λ (n : ℕ). is_registered (cs n).pc) same ∙ reg)
