-- ===== src/Server/Session.antt =====
-- A whole session of a client.
use cm108_driver_rust.Base.{
  ℕ, zero, suc, ◌<◌, ◌≡◌, refl, ap, ◌∙◌, subst, true, false, List, [], ◌∷◌, some, length, arith,
}
use cm108_driver_rust.Types.{ClientMsg}
use cm108_driver_rust.Codec.Client.{client_encode, client_decode}
use cm108_driver_rust.Codec.Client.Laws.{IsClientMsg}
use cm108_driver_rust.Codec.Framed.{to_framed}
use cm108_driver_rust.Io.{ok, Input, read_exact}
use cm108_driver_rust.Io.Laws.{Delivers}
use cm108_driver_rust.Framing.{read_msg, client_prefix}
use cm108_driver_rust.Framing.Read.{FitsPayload, read_msg-Delivers}
use cm108_driver_rust.Gpio.{DeviceHandle}
use cm108_driver_rust.Registry.{allocate_id, register, connected_client, unregister}
use cm108_driver_rust.Ring.{Producer}
use cm108_driver_rust.Server.{
  ClientContext, dispatch_client_msg, on_read, leave, serve, handle_client,
}
use cm108_driver_rust.Framing.Consume.{Reads, read_msg-Reads}

-- The messages `ps`, each with the time of its dispatch, arrive on the input one behind the other,
-- whatever the pauses between their bytes, and then the input ends.
pub data Session (clock : Input → ℕ) : List (ClientMsg × ℕ) → Input → Type 0 where
  ended : Session clock [] []
  then_comes :
      {msg : ClientMsg} {s s' : Input} {ps : List (ClientMsg × ℕ)}
      → IsClientMsg msg
      → FitsPayload msg
      → Delivers (to_framed msg) s s'
      → Session clock ps s'
      → Session clock ((msg, clock s') ∷ ps) s

module _ {D R : Type 0} (handle : DeviceHandle D) (producer : Producer R) where
  abbrev pub dispatch_all : ℕ → List (ClientMsg × ℕ) → ClientContext D R → ClientContext D R
  dispatch_all id [] ctx = ctx
  dispatch_all id ((msg, now) ∷ ps) ctx =
      dispatch_all id ps (dispatch_client_msg handle producer id msg now ctx)

  serve-Session :
      (fuel : ℕ) (clock : Input → ℕ) (id : ℕ) (ps : List (ClientMsg × ℕ)) (s : Input)
      (ctx : ClientContext D R)
      → length s < fuel
      → Session clock ps s
      → serve handle producer fuel clock id s ctx ≡ some (dispatch_all id ps ctx)
  unfolding serve
  serve-Session zero clock id ps s ctx enough h = absurd (omega arith)
  serve-Session (suc fuel) clock id [] [] ctx enough ended =
      unfold read_msg read_exact client_prefix in refl
  serve-Session (suc fuel) clock id [] (_ ∷ _) ctx enough h = elim h [ ]
  serve-Session (suc fuel) clock id ((msg, _) ∷ ps) s ctx enough
        (then_comes {s' = s'} v fit d more) =
      let read : read_msg false s ≡ (ok (some msg), s') = read_msg-Delivers msg v fit d in
      let shorter : length s' < length s = subst (Reads s) read (read_msg-Reads s) in
      ap (on_read handle producer _ ctx) read
      ∙ serve-Session fuel clock id ps s'
          (dispatch_client_msg handle producer id msg (clock s') ctx) (omega arith) more

  -- A session of messages that the reader takes is dispatched message by message, in the order in
  -- which they were sent, for a client registered under the next identifier, which is taken out of
  -- the registry at the end of the input. It holds where the descriptor was sent and the socket
  -- cloned, for rounds of the loop that are more than the input is long, and for a run that no other
  -- thread's step comes between.
  pub handle_client-Session :
      (fuel : ℕ) (clock : Input → ℕ) (ps : List (ClientMsg × ℕ)) (s : Input)
      (ctx : ClientContext D R)
      → length s < fuel
      → Session clock ps s
      → let (id, reg) = allocate_id ctx.registry in
        let joined : ClientContext D R = record ctx {
          registry = register (connected_client id) reg;
        } in
        let last : ClientContext D R = dispatch_all id ps joined in
        handle_client handle producer fuel true true clock s ctx
        ≡ some (record last { registry = unregister id last.registry })
  unfolding handle_client
  handle_client-Session fuel clock ps s ctx enough h =
      ap (leave handle producer (allocate_id ctx.registry).0)
        (serve-Session fuel clock (allocate_id ctx.registry).0 ps s _ enough h)
