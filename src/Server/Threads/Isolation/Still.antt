-- ===== src/Server/Threads/Isolation/Still.antt =====
-- A client whose own threads stand still hears the broadcasts, and nothing else changes for it.
use cm108_driver_rust.Base.{
  ℕ, ◌+◌, ◌^◌, ◌≤◌, ◌<◌, ◌≡◌, ◌≢◌, refl, sym, ap, ◌∙◌, subst, Bool, true, false, List, [], ◌∷◌,
  ◌++◌, some, ltb, if◌then◌else◌, length, take, All, arith, ==_eq, ==_ne, ℕ_discrete, if-true,
  if-false,
}
use cm108_driver_rust.Types.{StreamFlags, ServerMsg}
use cm108_driver_rust.Gpio.{DeviceHandle}
use cm108_driver_rust.Ring.{Producer}
use cm108_driver_rust.Registry.{Channel, ClientHandle, new, get, try_send}
use cm108_driver_rust.Registry.Map.{on_some}
use cm108_driver_rust.Registry.Inv.{IsClient}
use cm108_driver_rust.Registry.Deliver.{try_send_all, try_send_all-take}
use cm108_driver_rust.Server.{ClientContext}
use cm108_driver_rust.Server.Threads.{
  Connection, id_of, is_registered, System, Move, accept, connection, writer, broadcasts, elsewhere,
  move, run, nobody,
}
use cm108_driver_rust.Server.Threads.Update.{update-other}
use cm108_driver_rust.Server.Threads.Owners.Run.{
  is_registered-named, Runs, move-Runs, run-Runs, nobody-Runs,
}
use cm108_driver_rust.Server.Threads.Isolation.{
  advance-get, write_next-get, hears, sent_to, broadcast-get,
}

-- A move that is not one of the two threads of the connection `k`.
abbrev pub Foreign : {D R : Type 0} → ℕ → Move D R → Type 0
Foreign k (connection j now) = k ≢ j
Foreign k (writer j) = k ≢ j
Foreign k (accept s os fd_sent cloned) = Unit
Foreign k (broadcasts b) = Unit
Foreign k (elsewhere gpio device tx rx_xruns tx_xruns lat) = Unit

-- What a client with these streams hears during some moves.
abbrev hears_in : {D R : Type 0} → StreamFlags → Move D R → List ServerMsg
hears_in s (broadcasts b) = hears s b
hears_in s _ = []

abbrev pub heard : {D R : Type 0} → StreamFlags → List (Move D R) → List ServerMsg
heard s [] = []
heard s (m ∷ ms) = hears_in s m ++ heard s ms

try_send_all-append :
    (xs ys : List ServerMsg) (c : Channel)
    → try_send_all (xs ++ ys) c ≡ try_send_all ys (try_send_all xs c)
try_send_all-append [] ys c = refl
try_send_all-append (x ∷ xs) ys c = try_send_all-append xs ys (try_send x c)

sent_to-append :
    (xs ys : List ServerMsg) (h : ClientHandle) → sent_to ys (sent_to xs h) ≡ sent_to (xs ++ ys) h
unfolding sent_to
sent_to-append xs ys h =
    ap (λ (c : Channel). record h { sender = c }) (sym (try_send_all-append xs ys h.sender))

sent_to-nil : (h : ClientHandle) → h ≡ sent_to [] h
unfolding sent_to
sent_to-nil h = refl

-- The connection `k`, and its entry under the identifier `i`.
record Stands {D R : Type 0} (k i : ℕ) (c : Connection) (h : ClientHandle) (sys : System D R)
    : Type 0 where
  here : sys.connections k ≡ c
  entry : get i sys.ctx.registry.clients ≡ some h
  within : k < sys.count

Stands-if :
    {D R : Type 0} (k i : ℕ) (c : Connection) (h : ClientHandle) (b : Bool) (s t : System D R)
    → Stands k i c h s
    → Stands k i c h t
    → Stands k i c h (if b then s else t)
Stands-if k i c h true s t p q = p
Stands-if k i c h false s t p q = q

module _ {D R : Type 0} (handle : DeviceHandle D) (producer : Producer R) where
  move-Stands :
      (m : Move D R) (limit k i : ℕ) (c : Connection) (h : ClientHandle) (sys : System D R)
      → Runs limit sys
      → 1 ≤ i
      → id_of c.pc ≡ i
      → Foreign k m
      → Stands k i c h sys
      → Stands k i c (sent_to (hears_in h.streams m) h) (move handle producer m sys)
  unfolding move sent_to
  move-Stands (accept s os fd_sent cloned) limit k i c h sys r pos at f st = record {
    here = update-other sys.connections sys.count _ k (λ e. omega (arith, e, st.within)) ∙ st.here;
    entry = st.entry;
    within = omega (arith, st.within);
  }
  move-Stands (connection j now) limit k i c h sys r pos at f st =
      Stands-if k i c h (ltb j sys.count) _ sys
        (record {
          here = update-other sys.connections j _ k f ∙ st.here;
          entry =
              advance-get handle producer i (sys.connections j).pc now (sys.connections j) sys.ctx
                (λ e. f (
                  r.owned.distinct k j
                    (subst (λ d. 1 ≤ id_of d.pc) (sym st.here) (omega (arith, at)))
                    (ap (λ (d : Connection). id_of d.pc) st.here ∙ at ∙ e)))
              ∙ st.entry;
          within = st.within;
        })
        st
  move-Stands (writer j) limit k i c h sys r pos at f st =
      Stands-if k i c h (ltb j sys.count) _ sys
        (record {
          here = update-other sys.connections j _ k f ∙ st.here;
          entry =
              write_next-get i (sys.connections j).writer (sys.connections j) sys.ctx.registry (λ e.
                f (
                  r.owned.distinct k j
                    (subst (λ d. 1 ≤ id_of d.pc) (sym st.here) (omega (arith, at)))
                    (ap (λ (d : Connection). id_of d.pc) st.here ∙ at ∙ e)))
              ∙ st.entry;
          within = st.within;
        })
        st
  move-Stands (broadcasts b) limit k i c h sys r pos at f st = record {
    here = st.here;
    entry =
        broadcast-get i b sys.ctx.registry
        ∙ ap (on_some (λ d. sent_to (hears d.streams b) d)) st.entry;
    within = st.within;
  }
  move-Stands (elsewhere gpio device tx rx_xruns tx_xruns lat) limit k i c h sys r pos at f st =
      record { here = st.here; entry = st.entry; within = st.within }

  run-Stands :
      (ms : List (Move D R)) (limit k i : ℕ) (c : Connection) (h : ClientHandle) (sys : System D R)
      → limit + length ms < 2 ^ 64
      → Runs limit sys
      → 1 ≤ i
      → id_of c.pc ≡ i
      → All (Foreign k) ms
      → Stands k i c h sys
      → Stands k i c (sent_to (heard h.streams ms) h) (run handle producer ms sys)
  unfolding run sent_to
  run-Stands [] limit k i c h sys small r pos at f st = st
  run-Stands (m ∷ ms) limit k i c h sys small r pos at (f, fs) st =
      let next : System D R = move handle producer m sys in
      let st' : Stands k i c (sent_to (hears_in h.streams m) h) next =
        move-Stands m limit k i c h sys r pos at f st in
      subst (λ d. Stands k i c d (run handle producer ms next))
        (sent_to-append (hears_in h.streams m) (heard h.streams ms) h)
        (run-Stands ms (limit + 1) k i c (sent_to (hears_in h.streams m) h) next (omega arith)
          (move-Runs handle producer limit m sys (omega arith) r) pos at fs st')

All-get :
    (P : ClientHandle → Type 0) (i : ℕ) (cs : List ClientHandle) (h : ClientHandle)
    → All P cs
    → get i cs ≡ some h
    → P h
unfolding get
All-get P i [] h ps e = absurd (cc)
All-get P i (d ∷ cs) h (p, ps) e = elim (ℕ_discrete d.id i) [
  | yes same ↦ subst P (ground (arith, if-true (some d) (get i cs) (==_eq d.id i same))) p
  | no other ↦ All-get P i cs h ps (sym (if-false (some d) (get i cs) (==_ne d.id i other)) ∙ e)
]

module _ {D R : Type 0} (handle : DeviceHandle D) (producer : Producer R) where
  -- While the two threads of a registered client stand still, whatever all other threads do, and in
  -- whatever order: its connection stays as it is, and so does its entry of the registry, but for the
  -- queue. This gets the broadcasts that the client has subscribed to behind what it holds, in their
  -- order, of which the first 128 are kept. It holds in every state that is reached from the empty
  -- registry, for fewer than 2 ^ 63 steps in all, if the client's writer has not dropped the queue.
  pub run-heard :
      (before ms : List (Move D R)) (ctx : ClientContext D R) (k : ℕ) (h : ClientHandle)
      → ctx.registry ≡ new
      → length before + length ms < 2 ^ 63
      → let sys = run handle producer before (nobody ctx) in
        let c = sys.connections k in
        k < sys.count
        → is_registered c.pc ≡ true
        → get (id_of c.pc) sys.ctx.registry.clients ≡ some h
        → h.sender.connected ≡ true
        → All (Foreign k) ms
        → let sys' = run handle producer ms sys in
          (sys'.connections k ≡ c)
          × (get (id_of c.pc) sys'.ctx.registry.clients
              ≡ some (record h {
                sender = record h.sender {
                  queued = take 128 (h.sender.queued ++ heard h.streams ms);
                };
              }))
  unfolding sent_to
  run-heard before ms ctx k h empty few there reg at up foreign =
      let sys : System D R = run handle producer before (nobody ctx) in
      let c : Connection = sys.connections k in
      let r : Runs (2 + length before) sys =
        run-Runs handle producer before 2 (nobody ctx) (omega arith)
          (nobody-Runs handle producer ctx empty) in
      let mine : 1 ≤ id_of c.pc = r.owned.named k (is_registered-named c.pc reg) in
      let v : IsClient sys.ctx.registry.next_id h =
        All-get (IsClient sys.ctx.registry.next_id) (id_of c.pc) sys.ctx.registry.clients h
          r.owned.valid.entries at in
      let st =
        run-Stands handle producer ms (2 + length before) k (id_of c.pc) c h sys (omega arith) r
          mine refl foreign (record { here = refl; entry = at; within = there }) in
      let all : try_send_all (heard h.streams ms) h.sender
          ≡ record h.sender { queued = take 128 (h.sender.queued ++ heard h.streams ms) } =
        try_send_all-take (heard h.streams ms) h.sender up (omega (arith, v.bound, v.queued))
        ∙ ap
            (λ (n : ℕ). record h.sender { queued = take n (h.sender.queued ++ heard h.streams ms) })
            v.bound in
      (st.here, st.entry ∙ ap (λ (s : Channel). some (record h { sender = s })) all)
