-- ===== src/Gpio/Poller.antt =====
-- What the events of the poller say of the reports it read.
use cm108_driver_rust.Base.{
  ℕ, zero, suc, ◌≡◌, ◌≢◌, refl, sym, ap, ◌∙◌, subst, Bool, true, false, List, [], ◌∷◌, ◌++◌, Option,
  none, some, ==_eq, ==_ne, ℕ_discrete,
}
use cm108_driver_rust.Types.{
  GpioState, pin, RadioEvent, ptt_assert, ptt_deassert, cos_active, cos_inactive, gpio_change,
}
use cm108_driver_rust.Gpio.{
  UsbResult, ok, err, DeviceHandle, read_state, pin_event, change_events, poll_round, poll_loop,
}

-- What a listener knows of the pins: PTT, COS and the mask.
pub record View : Type 0 where
  pub ptt : Bool
  pub cos : Bool
  pub mask : ℕ

unfoldable pub view_of : GpioState → View
view_of g = record { ptt = pin g 0; cos = pin g 1; mask = g.mask }

-- A listener that follows the events.
unfoldable pub heard : View → RadioEvent → View
heard v ptt_assert = record v { ptt = true }
heard v ptt_deassert = record v { ptt = false }
heard v cos_active = record v { cos = true }
heard v cos_inactive = record v { cos = false }
heard v (gpio_change g) = record v { mask = g.mask }

abbrev pub follow : View → List RadioEvent → View
follow v [] = v
follow v (e ∷ es) = follow (heard v e) es

abbrev pub Contradicts : View → RadioEvent → Type 0
Contradicts v ptt_assert = v.ptt ≡ false
Contradicts v ptt_deassert = v.ptt ≡ true
Contradicts v cos_active = v.cos ≡ false
Contradicts v cos_inactive = v.cos ≡ true
Contradicts v (gpio_change g) = g.mask ≢ v.mask

-- Each event is news to the listener: it contradicts what the listener knew.
abbrev pub IsNews : View → List RadioEvent → Type 0
IsNews v [] = Unit
IsNews v (e ∷ es) = Contradicts v e × IsNews (heard v e) es

follow-append : (v : View) (es fs : List RadioEvent) → follow v (es ++ fs) ≡ follow (follow v es) fs
follow-append v [] fs = refl
follow-append v (e ∷ es) fs = follow-append (heard v e) es fs

IsNews-append :
    (v : View) (es fs : List RadioEvent)
    → IsNews v es
    → IsNews (follow v es) fs
    → IsNews v (es ++ fs)
IsNews-append v [] fs h k = k
IsNews-append v (e ∷ es) fs (h₀, h) k = (h₀, IsNews-append (heard v e) es fs h k)

-- The events `es` take a listener from one view to another, each of them news.
abbrev Tells : View → List RadioEvent → View → Type 0
Tells v es w = (follow v es ≡ w) × IsNews v es

Tells-append :
    (v w x : View) (es fs : List RadioEvent) → Tells v es w → Tells w fs x → Tells v (es ++ fs) x
Tells-append v w x es fs (e, h) (f, k) = (
  follow-append v es fs ∙ (ap (λ u. follow u fs) e ∙ f),
  IsNews-append v es fs h (subst (λ u. IsNews u fs) (sym e) k),
)

ptt-Tells :
    (v : View) (high was : Bool)
    → v.ptt ≡ was
    → Tells v (pin_event high was ptt_assert ptt_deassert) (record v { ptt = high })
unfolding heard
ptt-Tells v true true e = (cc, tt)
ptt-Tells v true false e = (refl, (e, tt))
ptt-Tells v false true e = (refl, (e, tt))
ptt-Tells v false false e = (cc, tt)

cos-Tells :
    (v : View) (high was : Bool)
    → v.cos ≡ was
    → Tells v (pin_event high was cos_active cos_inactive) (record v { cos = high })
unfolding heard
cos-Tells v true true e = (cc, tt)
cos-Tells v true false e = (refl, (e, tt))
cos-Tells v false true e = (refl, (e, tt))
cos-Tells v false false e = (cc, tt)

change-Tells :
    (prev state : GpioState)
    → state.mask ≢ prev.mask
    → Tells (view_of prev) (change_events prev state) (view_of state)
unfolding change_events view_of heard
change-Tells prev state new =
    let v : View = view_of prev in
    let v₁ : View = record v { ptt = pin state 0 } in
    let v₂ : View = record v₁ { cos = pin state 1 } in
    Tells-append v v₁ (view_of state) _ _ (ptt-Tells v (pin state 0) (pin prev 0) refl) (
      Tells-append v₁ v₂ (view_of state) _ (gpio_change state ∷ [])
        (cos-Tells v₁ (pin state 1) (pin prev 1) refl) (refl, (new, tt)))

round-Tells :
    (prev : GpioState) (r : UsbResult (Option GpioState))
    → Tells (view_of prev) (poll_round prev r).1 (view_of (poll_round prev r).0)
unfolding poll_round
round-Tells prev (ok (some state)) = elim (ℕ_discrete state.mask prev.mask) [
  | yes same ↦ rw (==_eq state.mask prev.mask same) (refl, tt)
  | no new ↦ rw (==_ne state.mask prev.mask new) (change-Tells prev state new)
]
round-Tells prev (ok none) = (refl, tt)
round-Tells prev (err e) = (refl, tt)

-- The reports that the poller reads in `n` rounds.
unfoldable pub results :
    {D : Type 0} (handle : DeviceHandle D) → ℕ → D → List (UsbResult (Option GpioState))
results handle zero d = []
results handle (suc n) d = let (r, d') = read_state handle d in r ∷ results handle n d'

-- The state that the last report gives, or the one from before if there is none.
abbrev pub last_state : GpioState → List (UsbResult (Option GpioState)) → GpioState
last_state g [] = g
last_state g (ok (some state) ∷ rs) = last_state state rs
last_state g (ok none ∷ rs) = last_state g rs
last_state g (err e ∷ rs) = last_state g rs

round-last :
    (prev : GpioState) (r : UsbResult (Option GpioState)) (rs : List (UsbResult (Option GpioState)))
    → last_state (poll_round prev r).0 rs ≡ last_state prev (r ∷ rs)
unfolding poll_round
round-last prev (ok (some state)) rs = elim (ℕ_discrete state.mask prev.mask) [
  | yes same ↦
      rw (==_eq state.mask prev.mask same)
        (ap (λ (m : ℕ). last_state (record { mask = m }) rs) (sym same))
  | no new ↦ rw (==_ne state.mask prev.mask new) refl
]
round-last prev (ok none) rs = refl
round-last prev (err e) rs = refl

-- After any number of rounds, with timeouts and errors among them, the state that the poller keeps
-- is that of the last report, and a listener that knew the pins before and follows the events that
-- were sent knows PTT, COS and the mask of this state; each event is news to it: no event repeats
-- what the listener knows.
pub poll_loop-follow :
    {D : Type 0} (handle : DeviceHandle D) (n : ℕ) (prev : GpioState) (d : D)
    → let (last, events, d') = poll_loop handle n prev d in
      (last ≡ last_state prev (results handle n d))
      × (follow (view_of prev) events ≡ view_of last)
      × IsNews (view_of prev) events
unfolding poll_loop results
poll_loop-follow handle zero prev d = (refl, refl, tt)
poll_loop-follow handle (suc n) prev d =
    let (r, d₁) = read_state handle d in
    let (state, events) = poll_round prev r in
    let (e, told, news) = poll_loop-follow handle n state d₁ in
    let (told', news') =
      Tells-append (view_of prev) (view_of state) (view_of (poll_loop handle n state d₁).0) events
        (poll_loop handle n state d₁).1 (round-Tells prev r) (told, news) in
    (e ∙ round-last prev r (results handle n d₁), told', news')
