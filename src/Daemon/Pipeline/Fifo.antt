-- ===== src/Daemon/Pipeline/Fifo.antt =====
-- The specification of the path: a bounded first-in first-out queue that drops what does not fit.
use mathlib.Core.List.{Sublistᴰ}
use mathlib.Core.List.Sublistᴰ
use cm108_driver_rust.Base.{
  ℕ, suc, ◌+◌, ◌%◌, ◌^◌, ◌≡◌, refl, sym, ap, ◌∙◌, subst, Bool-cases, inl, inr, List, [], ◌∷◌, ◌++◌,
  append_assoc, append-nil, ltb, if◌then◌else◌, length, length-append, arith,
}
use cm108_driver_rust.Types.{AudioFrame}
use cm108_driver_rust.Iso.Rx.Frames.{frames_of}
use cm108_driver_rust.Daemon.Pipeline.{
  Dispatching, DispatchPc, idle, inside, has_frame, dispatch_step, change_registry, Step, receives,
  counts, dispatches, changes,
}

-- The frames that wait, at most `capacity`, the frames lost, and the frames that the dispatch thread
-- has taken.
pub record Fifo : Type 0 where
  pub waiting : List AudioFrame
  pub xruns : ℕ
  pub dispatched : List AudioFrame

abbrev pub offer_one : ℕ → AudioFrame → Fifo → Fifo
offer_one capacity f q =
    if ltb (length q.waiting) capacity
    then record q { waiting = q.waiting ++ f ∷ [] }
    else record q { xruns = (q.xruns + 1) % 2 ^ 64 }

abbrev pub offer_all : ℕ → List AudioFrame → Fifo → Fifo
offer_all capacity [] q = q
offer_all capacity (f ∷ fs) q = offer_all capacity fs (offer_one capacity f q)

-- The queue, the count of the frames lost as others see it, and the dispatch thread.
pub record Served : Type 0 where
  pub queue : Fifo
  pub counted : ℕ
  pub thread : Dispatching

abbrev pub dispatch_oldest : List AudioFrame → Served → Served
dispatch_oldest [] v = v
dispatch_oldest (f ∷ fs) v = record v {
  queue = record v.queue { waiting = fs; dispatched = v.queue.dispatched ++ f ∷ [] };
  thread = record v.thread { pc = inside (has_frame f) };
}

abbrev pub serve_at : DispatchPc → ℕ → ℕ → Served → Served
serve_at idle micros tx v = dispatch_oldest v.queue.waiting v
serve_at (inside stage) micros tx v = record v {
  thread = dispatch_step stage micros v.counted tx v.thread.dispatcher;
}

abbrev pub serve_step : ℕ → Step → Served → Served
serve_step capacity (receives r) v = record v {
  queue = offer_all capacity (frames_of (r ∷ [])) v.queue;
  counted = v.queue.xruns;
}
serve_step capacity counts v = record v { counted = v.queue.xruns }
serve_step capacity (dispatches micros tx) v = serve_at v.thread.pc micros tx v
serve_step capacity (changes op) v = record v { thread = change_registry op v.thread }

abbrev pub serve_run : ℕ → List Step → Served → Served
serve_run capacity [] v = v
serve_run capacity (p ∷ ps) v = serve_run capacity ps (serve_step capacity p v)

-- The frames that arrive.
abbrev pub arrivals : List Step → List AudioFrame
arrivals [] = []
arrivals (receives r ∷ ps) = frames_of (r ∷ []) ++ arrivals ps
arrivals (counts ∷ ps) = arrivals ps
arrivals (dispatches micros tx ∷ ps) = arrivals ps
arrivals (changes op ∷ ps) = arrivals ps

-- What the queue still has of the frames `arrived`: those dispatched and then those that wait, in the
-- order of arrival; each frame that is missing is counted, from `before` on.
abbrev pub Kept : ℕ → List AudioFrame → Fifo → Type 0
Kept before arrived q =
    Sublistᴰ (q.dispatched ++ q.waiting) arrived
    × (lost : ℕ) × (length (q.dispatched ++ q.waiting) + lost ≡ length arrived)
    × (q.xruns ≡ (before + lost) % 2 ^ 64)

module _ (before : ℕ) where
  offer_one-Kept :
      (capacity : ℕ) (f : AudioFrame) (arrived : List AudioFrame) (q : Fifo)
      → Kept before arrived q
      → Kept before (arrived ++ f ∷ []) (offer_one capacity f q)
  offer_one-Kept capacity f arrived q (order, lost, count, counted) =
      let kept : List AudioFrame = q.dispatched ++ q.waiting in
      elim (Bool-cases (ltb (length q.waiting) capacity)) [
        | inl room ↦
            let longer = sym (append_assoc q.dispatched q.waiting (f ∷ [])) in
            rw room (
              subst (λ l. Sublistᴰ l (arrived ++ f ∷ [])) (sym longer)
                  (Sublistᴰ.append order (Sublistᴰ.cons-cons refl Sublistᴰ.slnil)),
              lost,
              omega (
                arith,
                ap length longer,
                length-append kept (f ∷ []),
                length-append arrived (f ∷ []),
                count,
              ),
              counted,
            )
        | inr full ↦ rw full (
          subst (λ l. Sublistᴰ l (arrived ++ f ∷ [])) (append-nil kept)
              (Sublistᴰ.append order (Sublistᴰ.cons Sublistᴰ.slnil)),
          suc lost,
          omega (arith, length-append arrived (f ∷ []), count),
          omega (arith, counted),
        )
      ]

  offer_all-Kept :
      (capacity : ℕ) (fs arrived : List AudioFrame) (q : Fifo)
      → Kept before arrived q
      → Kept before (arrived ++ fs) (offer_all capacity fs q)
  offer_all-Kept capacity [] arrived q h = subst (λ l. Kept before l q) (sym (append-nil arrived)) h
  offer_all-Kept capacity (f ∷ fs) arrived q h =
      subst (λ l. Kept before l (offer_all capacity fs (offer_one capacity f q)))
        (append_assoc arrived (f ∷ []) fs)
        (offer_all-Kept capacity fs (arrived ++ f ∷ []) (offer_one capacity f q)
          (offer_one-Kept capacity f arrived q h))

  dispatch_oldest-Kept :
      (arrived waits : List AudioFrame) (v : Served)
      → v.queue.waiting ≡ waits
      → Kept before arrived v.queue
      → Kept before arrived (dispatch_oldest waits v).queue
  dispatch_oldest-Kept arrived [] v e h = h
  dispatch_oldest-Kept arrived (f ∷ fs) v e (order, lost, total, counted) =
      let same =
        ap (λ l. v.queue.dispatched ++ l) e ∙ sym (append_assoc v.queue.dispatched (f ∷ []) fs) in
      (
        subst (λ l. Sublistᴰ l arrived) same order,
        lost,
        omega (arith, ap length same, total),
        counted,
      )

  serve_at-Kept :
      (pc : DispatchPc) (micros tx : ℕ) (arrived : List AudioFrame) (v : Served)
      → Kept before arrived v.queue
      → Kept before arrived (serve_at pc micros tx v).queue
  serve_at-Kept idle micros tx arrived v h = dispatch_oldest-Kept arrived v.queue.waiting v refl h
  serve_at-Kept (inside stage) micros tx arrived v h = h

  serve_step-Kept :
      (capacity : ℕ) (p : Step) (arrived : List AudioFrame) (v : Served)
      → Kept before arrived v.queue
      → Kept before (arrived ++ arrivals (p ∷ [])) (serve_step capacity p v).queue
  serve_step-Kept capacity (receives r) arrived v h =
      subst (λ l. Kept before (arrived ++ l) (serve_step capacity (receives r) v).queue)
        (sym (append-nil (frames_of (r ∷ []))))
        (offer_all-Kept capacity (frames_of (r ∷ [])) arrived v.queue h)
  serve_step-Kept capacity counts arrived v h =
      subst (λ l. Kept before l v.queue) (sym (append-nil arrived)) h
  serve_step-Kept capacity (dispatches micros tx) arrived v h =
      subst (λ l. Kept before l (serve_at v.thread.pc micros tx v).queue) (sym (append-nil arrived))
        (serve_at-Kept v.thread.pc micros tx arrived v h)
  serve_step-Kept capacity (changes op) arrived v h =
      subst (λ l. Kept before l v.queue) (sym (append-nil arrived)) h

  arrivals-cons : (p : Step) (ps : List Step) → arrivals (p ∷ ps) ≡ arrivals (p ∷ []) ++ arrivals ps
  arrivals-cons (receives r) ps = ap (λ l. l ++ arrivals ps) (sym (append-nil (frames_of (r ∷ []))))
  arrivals-cons counts ps = refl
  arrivals-cons (dispatches micros tx) ps = refl
  arrivals-cons (changes op) ps = refl

  pub serve_run-Kept :
      (capacity : ℕ) (ps : List Step) (arrived : List AudioFrame) (v : Served)
      → Kept before arrived v.queue
      → Kept before (arrived ++ arrivals ps) (serve_run capacity ps v).queue
  serve_run-Kept capacity [] arrived v h =
      subst (λ l. Kept before l v.queue) (sym (append-nil arrived)) h
  serve_run-Kept capacity (p ∷ ps) arrived v h =
      subst (λ l. Kept before l (serve_run capacity ps (serve_step capacity p v)).queue)
        (append_assoc arrived (arrivals (p ∷ [])) (arrivals ps)
          ∙ ap (λ l. arrived ++ l) (sym (arrivals-cons p ps)))
        (serve_run-Kept capacity ps (arrived ++ arrivals (p ∷ [])) (serve_step capacity p v)
          (serve_step-Kept capacity p arrived v h))
