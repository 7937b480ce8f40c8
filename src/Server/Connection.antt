-- ===== src/Server/Connection.antt =====
-- The life of a connection.
use cm108_driver_rust.Base.{
  ℕ, zero, suc, ◌+◌, ◌^◌, ◌<◌, ◌≡◌, ◌≢◌, refl, ap, ◌∙◌, Bool, true, false, ◌&&◌, Option, none, some,
  if◌then◌else◌, length, arith,
}
use cm108_driver_rust.Types.{ClientMsg}
use cm108_driver_rust.Codec.Client.{client_encode, client_decode}
use cm108_driver_rust.Io.{IoResult, ok, err, Input}
use cm108_driver_rust.Framing.{read_msg}
use cm108_driver_rust.Gpio.{DeviceHandle}
use cm108_driver_rust.Registry.{allocate_id, get, unregister, connect, disconnect, apply}
use cm108_driver_rust.Registry.Inv.{IsRegistry, apply-IsRegistry, disconnect-IsRegistry}
use cm108_driver_rust.Registry.Deliver.{connect-get, disconnect-get}
use cm108_driver_rust.Ring.{Producer}
use cm108_driver_rust.Server.{
  ClientContext, dispatch_client_msg, on_read, leave, serve, handle_client,
}
use cm108_driver_rust.Server.Dispatch.{dispatch-IsRegistry, dispatch-get}
use cm108_driver_rust.Framing.Consume.{Reads, read_msg-Reads}

module _ {D R : Type 0} (handle : DeviceHandle D) (producer : Producer R) where
  -- A context that the loop ends with: the registry valid, the client `j` as before.
  abbrev Ends : ℕ → ClientContext D R → Option (ClientContext D R) → Type 0
  Ends j ctx o =
      (ctx' : ClientContext D R) × (o ≡ some ctx')
      × IsRegistry ctx'.registry
      × (get j ctx'.registry.clients ≡ get j ctx.registry.clients)

  on_read-Ends :
      (j : ℕ) (go_on : ClientMsg → Input → Option (ClientContext D R)) (ctx : ClientContext D R)
      (s : Input) (r : IoResult (Option ClientMsg) × Input)
      → IsRegistry ctx.registry
      → Reads s r
      → ((msg : ClientMsg) (s' : Input) → length s' < length s → Ends j ctx (go_on msg s'))
      → Ends j ctx (on_read handle producer go_on ctx r)
  on_read-Ends j go_on ctx s (ok (some msg), s') h shorter k = k msg s' shorter
  on_read-Ends j go_on ctx s (ok none, s') h shorter k = (ctx, refl, h, refl)
  on_read-Ends j go_on ctx s (err e, s') h shorter k = (ctx, refl, h, refl)

  serve-Ends :
      (fuel : ℕ) (clock : Input → ℕ) (id j : ℕ) (s : Input) (ctx : ClientContext D R)
      → length s < fuel
      → IsRegistry ctx.registry
      → j ≢ id
      → Ends j ctx (serve handle producer fuel clock id s ctx)
  unfolding serve
  serve-Ends zero clock id j s ctx enough h ne = absurd (omega arith)
  serve-Ends (suc fuel) clock id j s ctx enough h ne =
      on_read-Ends j _ ctx s (read_msg false s) h (read_msg-Reads s) λ msg s' shorter.
        let next : ClientContext D R = dispatch_client_msg handle producer id msg (clock s') ctx in
        let (ctx', e, h', same) =
          serve-Ends fuel clock id j s' next (omega arith)
            (dispatch-IsRegistry handle producer id msg (clock s') ctx h) ne in
        (ctx', e, h', same ∙ (dispatch-get handle producer id j msg (clock s') ctx ne).1)

  -- What unregistering makes of the registry.
  abbrev Left : ℕ → ℕ → ClientContext D R → Option (ClientContext D R) → Type 0
  Left id j ctx o =
      (ctx' : ClientContext D R) × (o ≡ some ctx')
      × IsRegistry ctx'.registry
      × (get id ctx'.registry.clients ≡ none)
      × (get j ctx'.registry.clients ≡ get j ctx.registry.clients)

  leave-Left :
      (id j : ℕ) (ctx : ClientContext D R) (o : Option (ClientContext D R))
      → j ≢ id
      → Ends j ctx o
      → Left id j ctx (leave handle producer id o)
  unfolding unregister apply
  leave-Left id j ctx o ne (ctx', e, h, same) =
      let (gone, others) = disconnect-get ctx'.registry id j h ne in
      (
        record ctx' { registry = apply (disconnect id) ctx'.registry },
        ap (leave handle producer id) e,
        disconnect-IsRegistry id ctx'.registry h,
        gone,
        others ∙ same,
      )

  -- Whatever arrives on its socket, a connection ends when its input does, and it leaves no trace
  -- in the registry: its identifier is found no more, every other client is found as before, and
  -- the registry is valid. This covers a descriptor that could not be sent and a socket that could
  -- not be cloned. It is stated for a valid registry with identifiers left, for rounds of the loop
  -- that are more than the input is long, and for a run that no other thread's step comes between.
  pub handle_client-leaves :
      (fuel : ℕ) (fd_sent cloned : Bool) (clock : Input → ℕ) (j : ℕ) (s : Input)
      (ctx : ClientContext D R)
      → length s < fuel
      → IsRegistry ctx.registry
      → ctx.registry.next_id + 1 < 2 ^ 64
      → j ≢ ctx.registry.next_id
      → (ctx' : ClientContext D R) × (handle_client handle producer fuel fd_sent cloned clock s ctx
          ≡ some ctx')
        × IsRegistry ctx'.registry
        × (get ctx.registry.next_id ctx'.registry.clients ≡ none)
        × (get j ctx'.registry.clients ≡ get j ctx.registry.clients)
  unfolding handle_client apply allocate_id unregister
  handle_client-leaves fuel fd_sent cloned clock j s ctx enough h room ne =
      let id : ℕ = ctx.registry.next_id in
      let ctx₁ : ClientContext D R = record ctx { registry = apply connect ctx.registry } in
      let h₁ : IsRegistry ctx₁.registry = apply-IsRegistry connect ctx.registry room h in
      let (_, _, kept, _) = connect-get ctx.registry j h room ne in
      let served = serve-Ends fuel clock id j s ctx₁ enough h₁ ne in
      go ctx₁ h₁ kept (leave-Left id j ctx₁ _ ne served) (fd_sent && cloned)
    where
      go :
          {left : Option (ClientContext D R)} (ctx₁ : ClientContext D R)
          → IsRegistry ctx₁.registry
          → get j ctx₁.registry.clients ≡ get j ctx.registry.clients
          → Left ctx.registry.next_id j ctx₁ left
          → (b : Bool)
          → Left ctx.registry.next_id j ctx (
              if b
              then left
              else some (record ctx₁ { registry = unregister ctx.registry.next_id ctx₁.registry }))
      go ctx₁ h₁ kept (ctx', e, v, gone, same) true = (ctx', e, v, gone, same ∙ kept)
      go ctx₁ h₁ kept left false =
          let (ctx', e, v, gone, same) =
            leave-Left ctx.registry.next_id j ctx₁ (some ctx₁) ne (ctx₁, refl, h₁, refl) in
          (ctx', e, v, gone, same ∙ kept)
