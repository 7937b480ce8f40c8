-- ===== src/Server/Threads/Alone.antt =====
-- The thread of a connection when no other thread steps in between.
use cm108_driver_rust.Base.{
  ℕ, zero, suc, ◌<◌, ◌≡◌, refl, sym, ap, ◌∙◌, Bool, true, false, List, Option, none, some, length,
  arith,
}
use cm108_driver_rust.Types.{ClientMsg, subscribe, set_gpio, audio_write, ping, get_stats}
use cm108_driver_rust.Codec.Client.{client_encode, client_decode}
use cm108_driver_rust.Io.{IoResult, ok, err, Input, Outcome}
use cm108_driver_rust.Framing.{read_msg}
use cm108_driver_rust.Framing.Consume.{Reads, read_msg-Reads}
use cm108_driver_rust.Gpio.{DeviceHandle}
use cm108_driver_rust.Ring.{Producer}
use cm108_driver_rust.Registry.{allocate_id, register, connected_client, unregister}
use cm108_driver_rust.Server.{
  ClientContext, dispatch_match, dispatch_client_msg, on_read, leave, serve, handle_client,
}
use cm108_driver_rust.Server.Threads.{
  serving, closing, gone, stored, waiting, Connection, read_by, dispatch_next, advance, fresh,
}

module _ {D R : Type 0} (handle : DeviceHandle D) (producer : Producer R) (clock : Input → ℕ) where
  -- So many steps of the thread, each at the time that the clock has for the input left then.
  unfoldable pub steps : ℕ → Connection → ClientContext D R → Connection × ClientContext D R
  steps zero c ctx = (c, ctx)
  steps (suc n) c ctx =
      let (c', ctx') = advance handle producer c.pc (clock c.input) c ctx in steps n c' ctx'

  -- A thread at `c` gets to `c'`.
  abbrev Gets : Connection → ClientContext D R → Connection → ClientContext D R → Type 0
  Gets c ctx c' ctx' = (n : ℕ) × (steps n c ctx ≡ (c', ctx'))

  Gets-trans :
      (n : ℕ) (c : Connection) (ctx : ClientContext D R) {c' d : Connection}
      {ctx' last : ClientContext D R}
      → steps n c ctx ≡ (c', ctx')
      → Gets c' ctx' d last
      → Gets c ctx d last
  unfolding steps
  Gets-trans zero c ctx {d = d} {last = last} e (m, p) =
      (m, ap (λ (q : Connection × ClientContext D R). steps m q.0 q.1) e ∙ p)
  Gets-trans (suc n) c ctx e g = let (m, p) = Gets-trans n _ _ e g in (suc m, p)

  -- From the store of the time to the next round.
  dispatch-Gets :
      (id : ℕ) (msg : ClientMsg) (c : Connection) (ctx : ClientContext D R)
      → Gets
          (record c { pc = stored id msg })
          ctx
          (record c { pc = serving id })
          (dispatch_match handle producer id msg ctx)
  unfolding steps advance dispatch_next dispatch_match
  dispatch-Gets id (subscribe s) c ctx = (1, refl)
  dispatch-Gets id (set_gpio n high) c ctx = (1, refl)
  dispatch-Gets id (audio_write fs) c ctx = (1, refl)
  dispatch-Gets id ping c ctx = (1, refl)
  dispatch-Gets id get_stats c ctx = (4, refl)

  -- The loop, with the input `s`, ends with the context that `serve` gives.
  abbrev Serves : ℕ → ℕ → Input → Connection → ClientContext D R → Type 0
  Serves fuel id s c ctx =
      (rest : Input) × (last : ClientContext D R) × (serve handle producer fuel clock id s ctx
        ≡ some last)
      × Gets (record c { pc = serving id; input = s }) ctx
          (record c { pc = closing id; input = rest }) last

  served :
      (fuel id : ℕ) (s : Input) (c : Connection) (ctx : ClientContext D R)
      (r : IoResult (Option ClientMsg) × Input)
      → Reads s r
      → read_msg false s ≡ r
      → length s < suc fuel
      → ((t : Input) → length t < fuel → (ctx' : ClientContext D R) → Serves fuel id t c ctx')
      → Serves (suc fuel) id s c ctx
  unfolding serve steps advance read_by dispatch_client_msg
  served fuel id s c ctx (ok none, t) reads e enough ih = (
    t,
    ctx,
    ap (on_read handle producer _ ctx) e,
    (1, ap (λ r. (read_by id (record c { pc = serving id; input = s }) r, ctx)) e),
  )
  served fuel id s c ctx (err k, t) reads e enough ih = (
    t,
    ctx,
    ap (on_read handle producer _ ctx) e,
    (1, ap (λ r. (read_by id (record c { pc = serving id; input = s }) r, ctx)) e),
  )
  served fuel id s c ctx (ok (some msg), t) reads e enough ih =
      let ctx₁ : ClientContext D R = record ctx { last_activity_ms = clock t } in
      let (rest, last, done, g) =
        ih t (omega (arith, reads)) (dispatch_match handle producer id msg ctx₁) in
      let (n, p) = dispatch-Gets id msg (record c { input = t }) ctx₁ in
      let start : Connection = record c { pc = serving id; input = s } in
      let read : steps 2 start ctx ≡ (record c { pc = stored id msg; input = t }, ctx₁) =
        ap (λ r. steps 1 (read_by id start r) ctx) e in
      (
        rest,
        last,
        ap (on_read handle producer _ ctx) e ∙ done,
        Gets-trans 2 start ctx read (Gets-trans n _ ctx₁ p g),
      )

  serve-Serves :
      (fuel id : ℕ) (s : Input) (c : Connection) (ctx : ClientContext D R)
      → length s < fuel
      → Serves fuel id s c ctx
  serve-Serves zero id s c ctx enough = absurd (omega arith)
  serve-Serves (suc fuel) id s c ctx enough =
      served fuel id s c ctx (read_msg false s) (read_msg-Reads s) refl enough
        (λ t shorter ctx'. serve-Serves fuel id t c ctx' shorter)

  -- The last step.
  leaves :
      (id : ℕ) (c : Connection) (ctx : ClientContext D R)
      → let c' : Connection = record c { pc = closing id } in
        Gets c' ctx
          (advance handle producer (closing id) 0 c' ctx).0
          (record ctx { registry = unregister id ctx.registry })
  unfolding steps advance
  leaves id c ctx = (1, refl)

  -- A connection whose thread no other thread's step comes between: after some number of steps from
  -- its start it has ended, and the context is the one that `handle_client` gives, for rounds of its
  -- loop that are more than the input is long. So that function is what the steps of the thread add up
  -- to, also where the descriptor could not be sent or the socket not cloned.
  pub steps-handle_client :
      (fuel : ℕ) (fd_sent cloned : Bool) (s : Input) (os : List Outcome) (ctx : ClientContext D R)
      → length s < fuel
      → (n : ℕ) × (handle_client handle producer fuel fd_sent cloned clock s ctx
          ≡ some (steps n (fresh s os fd_sent cloned) ctx).1)
        × ((steps n (fresh s os fd_sent cloned) ctx).0.pc ≡ gone (allocate_id ctx.registry).0)
  unfolding handle_client steps advance fresh
  steps-handle_client fuel false cloned s os ctx enough = (4, refl, refl)
  steps-handle_client fuel true false s os ctx enough = (5, refl, refl)
  steps-handle_client fuel true true s os ctx enough =
      let (id, reg) = allocate_id ctx.registry in
      let ctx₁ : ClientContext D R = record ctx { registry = register (connected_client id) reg } in
      let c : Connection = record (fresh s os true true) { writer = waiting } in
      let (rest, last, done, (n, p)) = serve-Serves fuel id s c ctx₁ enough in
      let (m, q) =
        Gets-trans 4 (fresh s os true true) ctx refl
          (Gets-trans n _ ctx₁ p (leaves id (record c { input = rest }) last)) in
      (
        m,
        ap (leave handle producer id) done
            ∙ ap (λ (r : Connection × ClientContext D R). some r.1) (sym q),
        ap (λ (r : Connection × ClientContext D R). r.0.pc) q,
      )
