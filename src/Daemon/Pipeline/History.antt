-- ===== src/Daemon/Pipeline/History.antt =====
-- What the dispatch thread has done in a run of the path, among the steps of others on the registry.
use cm108_driver_rust.Base.{
  ℕ, ◌+◌, ◌%◌, ◌^◌, ◌≡◌, refl, sym, ap, ◌∙◌, subst, List, [], ◌∷◌, ◌++◌, append_assoc, append-nil,
  Bool, true, false, ltb, length, if◌then◌else◌,
}
use cm108_driver_rust.Types.{AudioFrame}
use cm108_driver_rust.Registry.{Op, apply, apply_all}
use cm108_driver_rust.Iso.Rx.Frames.{frames_of}
use cm108_driver_rust.Daemon.{Dispatcher, elsewhere, dispatch_moment, dispatch_run}
use cm108_driver_rust.Daemon.Pipeline.{
  Stage, DispatchPc, idle, inside, Dispatching, dispatch_step, Step, receives, counts, dispatches,
  changes, change_registry,
}
use cm108_driver_rust.Daemon.Pipeline.Fifo.{
  Fifo, offer_one, offer_all, Served, dispatch_oldest, serve_at, serve_step, serve_run,
}
use cm108_driver_rust.Daemon.Pipeline.Log.{
  Log, all_ops, owned, others, own_log, owned-own_log, others-own_log, owned-other, others-other,
  apply_all-own_log, apply_all-other,
}
use cm108_driver_rust.Daemon.Pipeline.Rounds.{
  Done, stage_ops, dispatch_step-Done, change-Done, dispatch_step-registry,
}

-- The steps of other threads on the registry.
abbrev pub changes_of : List Step → List Op
changes_of [] = []
changes_of (receives r ∷ ps) = changes_of ps
changes_of (counts ∷ ps) = changes_of ps
changes_of (dispatches micros tx ∷ ps) = changes_of ps
changes_of (changes op ∷ ps) = op ∷ changes_of ps

module _ (first : Dispatcher) where
  -- The registry has had the steps of a log, of which those by others are `elsewhere_ops`, and the
  -- thread has done what its own are part of.
  abbrev pub Told : List Op → List AudioFrame → Dispatching → Type 0
  Told elsewhere_ops fs t =
      (log : Log) × (t.dispatcher.registry ≡ apply_all (all_ops log) first.registry)
      × (others log ≡ elsewhere_ops)
      × Done first t.pc fs (owned log) t.dispatcher

  pub Told-first : (t : Dispatching) → t.dispatcher ≡ first → t.pc ≡ idle → Told [] [] t
  unfolding apply_all dispatch_run
  Told-first t same e = (
    [],
    ap (λ (d : Dispatcher). d.registry) same,
    refl,
    subst (λ pc. Done first pc [] [] t.dispatcher) (sym e)
        (
          [],
          refl,
          refl,
          (
            ap (λ (d : Dispatcher). d.shmem) same,
            ap (λ (d : Dispatcher). d.histogram) same,
            ap (λ (d : Dispatcher). d.ticker) same,
            ap (λ (d : Dispatcher). d.last_latency) same,
          ),
        ),
  )

  stage-Told :
      (stage : Stage) (micros rx tx : ℕ) (ops : List Op) (fs : List AudioFrame) (t : Dispatching)
      → t.pc ≡ inside stage
      → Told ops fs t
      → Told ops fs (dispatch_step stage micros rx tx t.dispatcher)
  stage-Told stage micros rx tx ops fs t e (log, reg, mine, done) =
      let t' : Dispatching = dispatch_step stage micros rx tx t.dispatcher in
      (
        log ++ own_log (stage_ops stage),
        dispatch_step-registry stage micros rx tx t.dispatcher
            ∙ ap (apply_all (stage_ops stage)) reg
            ∙ sym (apply_all-own_log log (stage_ops stage) first.registry),
        others-own_log log (stage_ops stage) ∙ mine,
        subst (λ own. Done first t'.pc fs own t'.dispatcher)
            (sym (owned-own_log log (stage_ops stage)))
            (dispatch_step-Done first stage micros rx tx fs (owned log) t.dispatcher
              (subst (λ pc. Done first pc fs (owned log) t.dispatcher) e done)),
      )

  change-Told :
      (op : Op) (ops : List Op) (fs : List AudioFrame) (t : Dispatching)
      → Told ops fs t
      → Told (ops ++ op ∷ []) fs (change_registry op t)
  unfolding change_registry dispatch_moment
  change-Told op ops fs t (log, reg, mine, done) = (
    log ++ (false, op) ∷ [],
    ap (apply op) reg ∙ sym (apply_all-other log op first.registry),
    others-other log op ∙ ap (λ l. l ++ op ∷ []) mine,
    subst (λ own. Done first t.pc fs own (dispatch_moment (elsewhere op) t.dispatcher))
        (sym (owned-other log op)) (change-Done first op t.pc fs (owned log) t.dispatcher done),
  )

  abbrev ToldBy : List Op → Served → Type 0
  ToldBy ops v = Told ops v.queue.dispatched v.thread

  oldest-Told :
      (waits : List AudioFrame) (ops : List Op) (v : Served)
      → v.thread.pc ≡ idle
      → ToldBy ops v
      → ToldBy ops (dispatch_oldest waits v)
  oldest-Told [] ops v e h = h
  oldest-Told (f ∷ fs) ops v e (log, reg, mine, done) =
      let (ts, same_frames, own, same) =
        subst (λ pc. Done first pc v.queue.dispatched (owned log) v.thread.dispatcher) e done in
      (
        log,
        reg,
        mine,
        (ts, f, ap (λ l. l ++ f ∷ []) same_frames, own ∙ sym (append-nil _), (refl, same)),
      )

  serve_at-Told :
      (pc : DispatchPc) (micros tx : ℕ) (ops : List Op) (v : Served)
      → v.thread.pc ≡ pc
      → ToldBy ops v
      → ToldBy ops (serve_at pc micros tx v)
  serve_at-Told idle micros tx ops v e h = oldest-Told v.queue.waiting ops v e h
  serve_at-Told (inside stage) micros tx ops v e h =
      stage-Told stage micros v.counted tx ops v.queue.dispatched v.thread e h

  offered-dispatched :
      (room : Bool) (f : AudioFrame) (q : Fifo)
      → (let q' : Fifo =
            if room
            then record q { waiting = q.waiting ++ f ∷ [] }
            else record q { xruns = (q.xruns + 1) % 2 ^ 64 } in
          q').dispatched
        ≡ q.dispatched
  offered-dispatched true f q = refl
  offered-dispatched false f q = refl

  offer_all-dispatched :
      (capacity : ℕ) (fs : List AudioFrame) (q : Fifo)
      → (offer_all capacity fs q).dispatched ≡ q.dispatched
  offer_all-dispatched capacity [] q = refl
  offer_all-dispatched capacity (f ∷ fs) q =
      offer_all-dispatched capacity fs (offer_one capacity f q)
      ∙ offered-dispatched (ltb (length q.waiting) capacity) f q

  pub serve_run-Told :
      (capacity : ℕ) (ps : List Step) (ops : List Op) (v : Served)
      → ToldBy ops v
      → ToldBy (ops ++ changes_of ps) (serve_run capacity ps v)
  serve_run-Told capacity [] ops v h = subst (λ l. ToldBy l v) (sym (append-nil ops)) h
  serve_run-Told capacity (receives r ∷ ps) ops v h =
      serve_run-Told capacity ps ops (serve_step capacity (receives r) v) (
        subst (λ fs. Told ops fs v.thread)
          (sym (offer_all-dispatched capacity (frames_of (r ∷ [])) v.queue)) h)
  serve_run-Told capacity (counts ∷ ps) ops v h =
      serve_run-Told capacity ps ops (serve_step capacity counts v) h
  serve_run-Told capacity (dispatches micros tx ∷ ps) ops v h =
      serve_run-Told capacity ps ops (serve_step capacity (dispatches micros tx) v)
        (serve_at-Told v.thread.pc micros tx ops v refl h)
  serve_run-Told capacity (changes op ∷ ps) ops v h =
      subst (λ l. ToldBy l (serve_run capacity ps (serve_step capacity (changes op) v)))
        (append_assoc ops (op ∷ []) (changes_of ps))
        (serve_run-Told capacity ps (ops ++ op ∷ []) (serve_step capacity (changes op) v)
          (change-Told op ops v.queue.dispatched v.thread h))
