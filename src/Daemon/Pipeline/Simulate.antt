-- ===== src/Daemon/Pipeline/Simulate.antt =====
-- Each step of the path against a step of the queue.
use cm108_driver_rust.Base.{
  ℕ, ◌≡◌, refl, sym, ap, ap₂, ◌∙◌, subst, List, [], ◌∷◌, Option, none, some, length, arith,
}
use cm108_driver_rust.Types.{AudioFrame}
use cm108_driver_rust.Usbfs.{Round, completed, would_block, fails}
use cm108_driver_rust.Usbfs.Flight.{Returned, held_after}
use cm108_driver_rust.Ring.{Producer, Consumer, IsChannel}
use cm108_driver_rust.Iso.Rx.{RxState, rx_round, rx_run}
use cm108_driver_rust.Iso.Rx.Frames.{frames_of, Fits, IsRx, rx_run-IsRx}
use cm108_driver_rust.Daemon.Pipeline.{
  Dispatching, DispatchPc, idle, inside, has_frame, dispatch_step, change_registry, Pipeline, Step,
  receives, counts, dispatches, changes, dispatch_popped, dispatch_at, pipe_step, pipe_run,
}
use cm108_driver_rust.Daemon.Pipeline.Pushes.{Holds, push_frames-Holds}
use cm108_driver_rust.Daemon.Pipeline.Fifo.{
  Served, dispatch_oldest, serve_at, serve_step, serve_run,
}

-- The rounds of the receiving thread.
abbrev pub rounds_of : List Step → List Round
rounds_of [] = []
rounds_of (receives r ∷ ps) = r ∷ rounds_of ps
rounds_of (counts ∷ ps) = rounds_of ps
rounds_of (dispatches micros tx ∷ ps) = rounds_of ps
rounds_of (changes op ∷ ps) = rounds_of ps

-- The first round apart.
Returned-first :
    (r : Round) (rs : List Round) (held : List ℕ)
    → Returned (r ∷ rs) held
    → Returned (r ∷ []) held × Returned rs (held_after (r ∷ []) held)
Returned-first (completed i st n bytes, a) rs held (h, g) = ((h, tt), g)
Returned-first (would_block, a) rs held g = (tt, g)
Returned-first (fails, a) rs held g = (tt, g)

Fits-first : (r : Round) (rs : List Round) → Fits (r ∷ rs) → Fits (r ∷ []) × Fits rs
Fits-first (completed i st n bytes, a) rs (h, g) = ((h, tt), g)
Fits-first (would_block, a) rs g = (tt, g)
Fits-first (fails, a) rs g = (tt, g)

module _ {R : Type 0} (producer : Producer R) where
  plain : (o : Option (RxState R)) → (elim o [ none ↦ none | some s ↦ some s ]) ≡ o
  plain none = refl
  plain (some s) = refl

  one_round :
      (r : Round) (s s' : RxState R)
      → rx_run producer (r ∷ []) s ≡ some s'
      → rx_round producer r s ≡ some s'
  unfolding rx_run
  one_round r s s' e = sym (plain (rx_round producer r s)) ∙ e

module _ {R : Type 0} (producer : Producer R) (consumer : Consumer R)
    (channel : IsChannel producer consumer) (capacity : ℕ) where
  -- The path against the queue and the thread that it serves.
  pub record Implements (s : Pipeline R) (v : Served) : Type 0 where
    pub receiver : IsRx s.rx
    pub queue : Holds producer channel.pushes capacity s.rx.ring s.rx.xruns v.queue
    pub seen : s.counter ≡ v.counted
    pub served : s.thread ≡ v.thread

  receives-Implements :
      (r : Round) (s : Pipeline R) (v : Served)
      → Implements s v
      → Returned (r ∷ []) s.rx.held
      → Fits (r ∷ [])
      → (s' : Pipeline R) × (pipe_step producer consumer (receives r) s ≡ some s')
        × Implements s' (serve_step capacity (receives r) v)
        × (s'.rx.held ≡ held_after (r ∷ []) s.rx.held)
  unfolding pipe_step
  receives-Implements r s v h g f =
      let (rx', run, receiver, pushed, held) = rx_run-IsRx producer (r ∷ []) s.rx h.receiver g f in
      let (holds, _) =
        push_frames-Holds producer channel.pushes capacity (frames_of (r ∷ [])) s.rx.ring s.rx.xruns
          v.queue h.queue in
      (
        record s { rx = rx'; counter = s.rx.xruns },
        ap
            (λ (o : Option (RxState R)). elim o [
              | none ↦ none
              | some rx ↦
                  some (let s' : Pipeline R = record s { rx = rx; counter = s.rx.xruns } in s')
            ])
            (one_round producer r s.rx rx' run),
        record {
          receiver = receiver;
          queue =
              subst
                (λ (p : R × ℕ).
                  Holds producer channel.pushes capacity p.0 p.1
                    (serve_step capacity (receives r) v).queue)
                (sym pushed) holds;
          seen = h.queue.2;
          served = h.served;
        },
        held,
      )

  popped-Implements :
      (waits : List AudioFrame) (s : Pipeline R) (v : Served)
      → v.queue.waiting ≡ waits
      → Implements s v
      → Implements (dispatch_popped (consumer.pop s.rx.ring) s) (dispatch_oldest waits v)
  unfolding dispatch_popped
  popped-Implements [] s v e h =
      subst (λ o. Implements (dispatch_popped o s) v)
        (sym (channel.no_frame s.rx.ring (h.queue.0 ∙ e))) h
  popped-Implements (f ∷ fs) s v e h =
      let (queued, room, count) = h.queue in
      let (r', popped, behind, slots) = channel.one_frame s.rx.ring f fs (queued ∙ e) in
      subst (λ o. Implements (dispatch_popped o s) (dispatch_oldest (f ∷ fs) v)) (sym popped)
        (record {
          receiver = record {
            blocks = h.receiver.blocks;
            buffers = h.receiver.buffers;
            once = h.receiver.once;
          };
          queue = (behind, omega (arith, room, slots, ap length e), count);
          seen = h.seen;
          served =
              ap
                (λ (t : Dispatching).
                  (let t' : Dispatching = record t { pc = inside (has_frame f) } in t'))
                h.served;
        })

  dispatches-Implements :
      (pc : DispatchPc) (micros tx : ℕ) (s : Pipeline R) (v : Served)
      → Implements s v
      → Implements (dispatch_at producer consumer pc micros tx s) (serve_at pc micros tx v)
  unfolding dispatch_at
  dispatches-Implements idle micros tx s v h = popped-Implements v.queue.waiting s v refl h
  dispatches-Implements (inside stage) micros tx s v h = record {
    receiver = h.receiver;
    queue = h.queue;
    seen = h.seen;
    served =
        ap₂ (λ (n : ℕ) (t : Dispatching). dispatch_step stage micros n tx t.dispatcher) h.seen
          h.served;
  }

  popped_held :
      (o : Option (AudioFrame × R)) (s : Pipeline R) → (dispatch_popped o s).rx.held ≡ s.rx.held
  unfolding dispatch_popped
  popped_held none s = refl
  popped_held (some (f, r')) s = refl

  dispatch_held :
      (pc : DispatchPc) (micros tx : ℕ) (s : Pipeline R)
      → (dispatch_at producer consumer pc micros tx s).rx.held ≡ s.rx.held
  unfolding dispatch_at
  dispatch_held idle micros tx s = popped_held (consumer.pop s.rx.ring) s
  dispatch_held (inside stage) micros tx s = refl

  run_step :
      (p : Step) (ps : List Step) (s s₁ : Pipeline R)
      → pipe_step producer consumer p s ≡ some s₁
      → pipe_run producer consumer (p ∷ ps) s ≡ pipe_run producer consumer ps s₁
  unfolding pipe_run
  run_step p ps s s₁ e =
      ap
        (λ (o : Option (Pipeline R)). elim o [
          | none ↦ none
          | some s' ↦ pipe_run producer consumer ps s'
        ])
        e

  pub pipe_run-Implements :
      (ps : List Step) (s : Pipeline R) (v : Served)
      → Implements s v
      → Returned (rounds_of ps) s.rx.held
      → Fits (rounds_of ps)
      → (s' : Pipeline R) × (pipe_run producer consumer ps s ≡ some s')
        × Implements s' (serve_run capacity ps v)
  pipe_run-Implements [] s v h g f = (s, (unfold pipe_run in refl), h)
  pipe_run-Implements (receives r ∷ ps) s v h g f =
      let (now, later) = Returned-first r (rounds_of ps) s.rx.held g in
      let (fits, fit_later) = Fits-first r (rounds_of ps) f in
      let (s₁, step, h₁, held) = receives-Implements r s v h now fits in
      let (s', run, h') =
        pipe_run-Implements ps s₁ (serve_step capacity (receives r) v) h₁
          (subst (Returned (rounds_of ps)) (sym held) later) fit_later in
      (s', run_step (receives r) ps s s₁ step ∙ run, h')
  pipe_run-Implements (counts ∷ ps) s v h g f =
      let s₁ : Pipeline R = record s { counter = s.rx.xruns } in
      let (s', run, h') =
        pipe_run-Implements ps s₁ (serve_step capacity counts v)
          (record { receiver = h.receiver; queue = h.queue; seen = h.queue.2; served = h.served }) g
          f in
      (s', run_step counts ps s s₁ (unfold pipe_step in refl) ∙ run, h')
  pipe_run-Implements (dispatches micros tx ∷ ps) s v h g f =
      let s₁ : Pipeline R = dispatch_at producer consumer s.thread.pc micros tx s in
      let h₁ : Implements s₁ (serve_at v.thread.pc micros tx v) =
        subst (λ (t : Dispatching). Implements s₁ (serve_at t.pc micros tx v)) h.served
          (dispatches-Implements s.thread.pc micros tx s v h) in
      let (s', run, h') =
        pipe_run-Implements ps s₁ (serve_step capacity (dispatches micros tx) v) h₁
          (subst (Returned (rounds_of ps)) (sym (dispatch_held s.thread.pc micros tx s)) g) f in
      (s', run_step (dispatches micros tx) ps s s₁ (unfold pipe_step in refl) ∙ run, h')
  pipe_run-Implements (changes op ∷ ps) s v h g f =
      let s₁ : Pipeline R = record s { thread = change_registry op s.thread } in
      let (s', run, h') =
        pipe_run-Implements ps s₁ (serve_step capacity (changes op) v)
          (record {
            receiver = h.receiver;
            queue = h.queue;
            seen = h.seen;
            served = ap (change_registry op) h.served;
          })
          g f in
      (s', run_step (changes op) ps s s₁ (unfold pipe_step in refl) ∙ run, h')
