-- ===== src/Daemon/Pipeline/Rounds.antt =====
-- What the dispatch thread has done by itself, wherever other threads step in.
use cm108_driver_rust.Base.{
  ℕ, ◌+◌, ◌%◌, ◌^◌, ◌≡◌, refl, sym, ap, ap₂, ◌∙◌, subst, List, [], ◌∷◌, ◌++◌, Bool, true, false,
  ◌==◌, Bool-cases, inl, inr, append_assoc, append-nil, if◌then◌else◌,
}
use cm108_driver_rust.Types.{AudioFrame, LatencyStats}
use cm108_driver_rust.Shmem.{write_frame}
use cm108_driver_rust.Latency.{LatencyHistogram, record_us, to_stats, reset}
use cm108_driver_rust.Registry.{Op, audio, statistics, apply, apply_all}
use cm108_driver_rust.Daemon.{
  Dispatcher, Moment, takes, elsewhere, publish, dispatch_frame, dispatch_moment, dispatch_run,
}
use cm108_driver_rust.Daemon.Pipeline.{
  Stage, has_frame, has_seq, has_notified, has_snap, has_xruns, DispatchPc, idle, inside,
  Dispatching, count_up, dispatch_step,
}

-- The same but for the registry.
abbrev pub Same : Dispatcher → Dispatcher → Type 0
Same d e =
    (d.shmem ≡ e.shmem)
    × (d.histogram ≡ e.histogram)
    × (d.ticker ≡ e.ticker)
    × (d.last_latency ≡ e.last_latency)

-- A whole round: its frame, the microseconds that it measures, and the counters that it loads.
pub data Turn : Type 0 where
  turn : AudioFrame → ℕ → ℕ → ℕ → Turn

abbrev pub whole_rounds : List Turn → List Moment
whole_rounds [] = []
whole_rounds (turn f micros rx tx ∷ ts) = takes f micros rx tx ∷ whole_rounds ts

abbrev pub taken : List Turn → List AudioFrame
taken [] = []
taken (turn f micros rx tx ∷ ts) = f ∷ taken ts

-- What a whole round of a thread `e` does on the registry: the notice of the frame, and the statistics
-- every 5,000 frames.
abbrev pub notice : AudioFrame → Dispatcher → Op
notice f e = audio (write_frame f e.shmem).1

abbrev pub turn_ops : Turn → Dispatcher → List Op
turn_ops (turn f micros rx tx) e =
    notice f e
    ∷ (if (e.ticker + 1) % 2 ^ 64 % 5000 == 0
        then statistics rx tx (to_stats (record_us e.histogram (micros % 2 ^ 32))) ∷ []
        else [])

abbrev pub turned : Turn → Dispatcher → Dispatcher
turned (turn f micros rx tx) e = dispatch_frame f micros rx tx e

abbrev pub turns_ops : List Turn → Dispatcher → List Op
turns_ops [] e = []
turns_ops (t ∷ ts) e = turn_ops t e ++ turns_ops ts (turned t e)

-- The thread behind the write of `f`, and behind the count.
abbrev with_frame : AudioFrame → Dispatcher → Dispatcher
with_frame f e = record e { shmem = (write_frame f e.shmem).0 }

abbrev with_count : AudioFrame → ℕ → Dispatcher → Dispatcher
with_count f micros e = record (with_frame f e) {
  histogram = record_us e.histogram (micros % 2 ^ 32);
  ticker = (e.ticker + 1) % 2 ^ 64;
}

abbrev with_latency : Dispatcher → Dispatcher
with_latency e = record e { last_latency = to_stats e.histogram }

-- A thread `d` in the round of `f`, against `e` before this round.
abbrev pub Part : Stage → AudioFrame → Dispatcher → Dispatcher → Type 0
Part (has_frame g) f d e = (g ≡ f) × Same d e
Part (has_seq seq) f d e = (seq ≡ (write_frame f e.shmem).1) × Same d (with_frame f e)
Part has_notified f d e = Same d (with_frame f e)
Part (has_snap snap) f d e =
    (micros : ℕ) × (snap ≡ d.last_latency)
    × (((e.ticker + 1) % 2 ^ 64 % 5000 == 0) ≡ true)
    × Same d (with_latency (with_count f micros e))
Part (has_xruns snap rx tx) f d e =
    (micros : ℕ) × (snap ≡ d.last_latency)
    × (((e.ticker + 1) % 2 ^ 64 % 5000 == 0) ≡ true)
    × Same d (with_latency (with_count f micros e))

-- What the part of the round of `f` has done on the registry.
abbrev pub begun : Stage → AudioFrame → Dispatcher → List Op
begun (has_frame g) f e = []
begun (has_seq seq) f e = []
begun has_notified f e = notice f e ∷ []
begun (has_snap snap) f e = notice f e ∷ []
begun (has_xruns snap rx tx) f e = notice f e ∷ []

-- What a step of the dispatch thread does on the registry.
abbrev pub stage_ops : Stage → List Op
stage_ops (has_frame g) = []
stage_ops (has_seq seq) = audio seq ∷ []
stage_ops has_notified = []
stage_ops (has_snap snap) = []
stage_ops (has_xruns snap rx tx) = statistics rx tx snap ∷ []

counted-registry : (d : Dispatcher) → (count_up d).dispatcher.registry ≡ d.registry
unfolding count_up
counted-registry d = elim (Bool-cases (d.ticker % 5000 == 0)) [
  | inl loud ↦ rw loud refl
  | inr quiet ↦ rw quiet refl
]

module _ (first : Dispatcher) where
  -- The thread has done the whole rounds of the frames `fs` that it has taken, or of all but the last
  -- and then a part of a round; `own` is what it has done on the registry.
  abbrev pub Done : DispatchPc → List AudioFrame → List Op → Dispatcher → Type 0
  Done idle fs own d =
      (ts : List Turn) × (taken ts ≡ fs)
      × (own ≡ turns_ops ts first)
      × Same d (dispatch_run (whole_rounds ts) first)
  Done (inside stage) fs own d =
      (ts : List Turn) × (f : AudioFrame) × (taken ts ++ f ∷ [] ≡ fs)
      × (own ≡ turns_ops ts first ++ begun stage f (dispatch_run (whole_rounds ts) first))
      × Part stage f d (dispatch_run (whole_rounds ts) first)

  taken-append :
      (ts : List Turn) (f : AudioFrame) (micros rx tx : ℕ)
      → taken (ts ++ turn f micros rx tx ∷ []) ≡ taken ts ++ f ∷ []
  taken-append [] f micros rx tx = refl
  taken-append (turn g n a b ∷ ts) f micros rx tx = ap (λ l. g ∷ l) (taken-append ts f micros rx tx)

  dispatch_run-last :
      (ts : List Turn) (t : Turn) (d : Dispatcher)
      → dispatch_run (whole_rounds (ts ++ t ∷ [])) d ≡ turned t (dispatch_run (whole_rounds ts) d)
  unfolding dispatch_run dispatch_moment
  dispatch_run-last [] (turn f micros rx tx) d = refl
  dispatch_run-last (turn g n a b ∷ ts) t d = dispatch_run-last ts t (dispatch_frame g n a b d)

  turns_ops-last :
      (ts : List Turn) (t : Turn) (d : Dispatcher)
      → turns_ops (ts ++ t ∷ []) d ≡ turns_ops ts d ++ turn_ops t (dispatch_run (whole_rounds ts) d)
  unfolding dispatch_run dispatch_moment
  turns_ops-last [] t d = append-nil (turn_ops t d)
  turns_ops-last (turn g n a b ∷ ts) t d =
      ap (λ l. turn_ops (turn g n a b) d ++ l) (turns_ops-last ts t (dispatch_frame g n a b d))
      ∙ sym (append_assoc (turn_ops (turn g n a b) d) (turns_ops ts (dispatch_frame g n a b d)) _)

  -- The end of a round.
  round-Done :
      (ts : List Turn) (f : AudioFrame) (micros rx tx : ℕ) (fs : List AudioFrame) (own : List Op)
      (d : Dispatcher)
      → taken ts ++ f ∷ [] ≡ fs
      → let e = dispatch_run (whole_rounds ts) first in
        own ≡ turns_ops ts first ++ turn_ops (turn f micros rx tx) e
        → Same d (dispatch_frame f micros rx tx e)
        → Done idle fs own d
  round-Done ts f micros rx tx fs own d e ops same = (
    ts ++ turn f micros rx tx ∷ [],
    taken-append ts f micros rx tx ∙ e,
    ops ∙ sym (turns_ops-last ts (turn f micros rx tx) first),
    subst (Same d) (sym (dispatch_run-last ts (turn f micros rx tx) first)) same,
  )

  -- The dispatcher of a whole round, with no statistics due and with some due.
  quiet_round :
      (f : AudioFrame) (micros : ℕ) (d e : Dispatcher)
      → ((e.ticker + 1) % 2 ^ 64 % 5000 == 0) ≡ false
      → Same d (with_count f micros e)
      → Same d (dispatch_frame f micros 0 0 e) × (turn_ops (turn f micros 0 0) e ≡ notice f e ∷ [])
  unfolding dispatch_frame publish
  quiet_round f micros d e quiet same = (rw quiet same, rw quiet refl)

  loud_round :
      (f : AudioFrame) (micros rx tx : ℕ) (d e : Dispatcher)
      → ((e.ticker + 1) % 2 ^ 64 % 5000 == 0) ≡ true
      → Same d (with_latency (with_count f micros e))
      → Same (record d { histogram = reset d.histogram }) (dispatch_frame f micros rx tx e)
        × (turn_ops (turn f micros rx tx) e ≡ notice f e ∷ statistics rx tx d.last_latency ∷ [])
  unfolding dispatch_frame publish reset
  loud_round f micros rx tx d e loud (m, h, t, l) =
      (rw loud (m, refl, t, l), rw loud (ap (λ x. notice f e ∷ statistics rx tx x ∷ []) (sym l)))

  if-Done :
      (b : Bool) (fs : List AudioFrame) (own : List Op) (x y : Dispatching)
      → (b ≡ true → Done x.pc fs own x.dispatcher)
      → (b ≡ false → Done y.pc fs own y.dispatcher)
      → let t = if b then x else y in Done t.pc fs own t.dispatcher
  if-Done true fs own x y loud quiet = loud refl
  if-Done false fs own x y loud quiet = quiet refl

  count_up-Done :
      (ts : List Turn) (f : AudioFrame) (micros : ℕ) (fs : List AudioFrame) (own : List Op)
      (d : Dispatcher)
      → taken ts ++ f ∷ [] ≡ fs
      → let e = dispatch_run (whole_rounds ts) first in
        own ≡ turns_ops ts first ++ notice f e ∷ []
        → Same d (with_frame f e)
        → let t = dispatch_step has_notified micros 0 0 d in Done t.pc fs own t.dispatcher
  unfolding dispatch_step count_up
  count_up-Done ts f micros fs own d eq ops (m, h, t, l) =
      let e : Dispatcher = dispatch_run (whole_rounds ts) first in
      let d' : Dispatcher = record d {
        histogram = record_us d.histogram (micros % 2 ^ 32);
        ticker = (d.ticker + 1) % 2 ^ 64;
      } in
      let hist = ap (λ (x : LatencyHistogram). record_us x (micros % 2 ^ 32)) h in
      let tick = ap (λ (n : ℕ). (n + 1) % 2 ^ 64) t in
      let same_test = ap (λ (n : ℕ). n % 5000 == 0) tick in
      if-Done ((d.ticker + 1) % 2 ^ 64 % 5000 == 0) fs own _ _
        (λ loud.
          (ts, f, eq, ops, (micros, refl, sym same_test ∙ loud, (m, hist, tick, ap to_stats hist))))
        (λ quiet.
          let (same, one) = quiet_round f micros d' e (sym same_test ∙ quiet) (m, hist, tick, l) in
          round-Done ts f micros 0 0 fs own d' eq
            (ops ∙ ap (λ l. turns_ops ts first ++ l) (sym one)) same)

  pub dispatch_step-Done :
      (stage : Stage) (micros rx tx : ℕ) (fs : List AudioFrame) (own : List Op) (d : Dispatcher)
      → Done (inside stage) fs own d
      → let t = dispatch_step stage micros rx tx d in
        Done t.pc fs (own ++ stage_ops stage) t.dispatcher
  unfolding dispatch_step
  dispatch_step-Done (has_frame g) micros rx tx fs own d
        (ts, f, eq, ops, (same_frame, (m, h, t, l))) =
      (
        ts,
        f,
        eq,
        append-nil own ∙ ops,
        (
          ap₂ (λ (x : AudioFrame) y. (write_frame x y).1) same_frame m,
          (ap₂ (λ (x : AudioFrame) y. (write_frame x y).0) same_frame m, h, t, l),
        ),
      )
  dispatch_step-Done (has_seq seq) micros rx tx fs own d (ts, f, eq, ops, (same_seq, same)) = (
    ts,
    f,
    eq,
    ap₂ (λ (l : List Op) (n : ℕ). l ++ audio n ∷ []) (ops ∙ append-nil (turns_ops ts first))
        same_seq,
    same,
  )
  dispatch_step-Done has_notified micros rx tx fs own d (ts, f, eq, ops, same) =
      count_up-Done ts f micros fs (own ++ []) d eq (append-nil own ∙ ops) same
  dispatch_step-Done (has_snap snap) micros rx tx fs own d (ts, f, eq, ops, part) =
      (ts, f, eq, append-nil own ∙ ops, part)
  dispatch_step-Done (has_xruns snap rx' tx') micros rx tx fs own d
        (ts, f, eq, ops, (n, same_snap, loud, same)) =
      let e : Dispatcher = dispatch_run (whole_rounds ts) first in
      let (same', two) = loud_round f n rx' tx' d e loud same in
      round-Done ts f n rx' tx' fs _ (record d { histogram = reset d.histogram }) eq
        (ap₂ (λ (l : List Op) (x : LatencyStats). l ++ statistics rx' tx' x ∷ []) ops same_snap
          ∙ append_assoc (turns_ops ts first) (notice f e ∷ []) _
          ∙ ap (λ l. turns_ops ts first ++ l) (sym two))
        same'

  -- What is done does not depend on the registry.
  pub change-Done :
      (op : Op) (pc : DispatchPc) (fs : List AudioFrame) (own : List Op) (d : Dispatcher)
      → Done pc fs own d
      → Done pc fs own (dispatch_moment (elsewhere op) d)
  unfolding dispatch_moment
  change-Done op idle fs own d h = h
  change-Done op (inside (has_frame g)) fs own d h = h
  change-Done op (inside (has_seq seq)) fs own d h = h
  change-Done op (inside has_notified) fs own d h = h
  change-Done op (inside (has_snap snap)) fs own d h = h
  change-Done op (inside (has_xruns snap rx tx)) fs own d h = h

-- The registry behind a step.
pub dispatch_step-registry :
    (stage : Stage) (micros rx tx : ℕ) (d : Dispatcher)
    → (dispatch_step stage micros rx tx d).dispatcher.registry
      ≡ apply_all (stage_ops stage) d.registry
unfolding dispatch_step apply_all apply
dispatch_step-registry (has_frame g) micros rx tx d = refl
dispatch_step-registry (has_seq seq) micros rx tx d = refl
dispatch_step-registry has_notified micros rx tx d = counted-registry _
dispatch_step-registry (has_snap snap) micros rx tx d = refl
dispatch_step-registry (has_xruns snap rx' tx') micros rx tx d = refl
