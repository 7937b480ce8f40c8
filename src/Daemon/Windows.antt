-- ===== src/Daemon/Windows.antt =====
-- What the dispatch thread knows after some frames.
use cm108_driver_rust.Base.{
  ℕ, suc, ◌+◌, ◌*◌, ◌%◌, ◌^◌, ◌<◌, ◌≡◌, ◌≢◌, refl, sym, ap, ap₂, ◌∙◌, subst, List, [], ◌∷◌, ltb,
  lt→ltb, le→ltb, if-true, if-false, ◌==◌, ==_eq, ==_ne, if◌then◌else◌, length, take, drop, arith,
  ℕ_discrete, dec_lt,
}
use cm108_driver_rust.Types.{AudioFrame, LatencyStats, default_stats}
use cm108_driver_rust.Shmem.{raw_bytes, write_frame}
use cm108_driver_rust.Latency.{LatencyHistogram, record_us, to_stats, reset, recorded}
use cm108_driver_rust.Registry.{
  ClientRegistry, notify_audio_ready, broadcast_stats, Op, audio, statistics, apply, apply_all,
}
use cm108_driver_rust.Daemon.{Dispatcher, publish, dispatch_frame}

-- The statistics of the last full window of 5,000 frames, from all latencies, the last at the head.
abbrev pub latest : List ℕ → LatencyStats
latest us =
    if ltb (length us) 5000
    then default_stats
    else to_stats (recorded (take 5000 (drop (length us % 5000) us)))

-- The thread after the frames whose latencies are `us`, the last of them `cur`.
pub record Knows (cur : AudioFrame) (us : List ℕ) (s : Dispatcher) : Type 0 where
  pub ticks : s.ticker ≡ length us
  pub window : s.histogram ≡ recorded (take (length us % 5000) us)
  pub published : s.last_latency ≡ latest us
  pub counter : s.shmem.seq ≡ 2 * length us
  pub frame : s.shmem.cells ≡ raw_bytes cur

-- What one frame changes in the registry.
abbrev pub frame_ops : List ℕ → ℕ → ℕ → List Op
frame_ops us rx tx =
    audio (2 * length us)
    ∷ (if length us % 5000 == 0 then statistics rx tx (latest us) ∷ [] else [])

latest_full :
    (us : List ℕ)
    → 0 < length us
    → length us % 5000 ≡ 0
    → latest us ≡ to_stats (recorded (take 5000 us))
latest_full us some_frame full =
    if-false _ _ (le→ltb (length us) 5000 (omega (arith, full)))
    ∙ ap (λ (k : ℕ). to_stats (recorded (take 5000 (drop k us)))) full

latest_kept : (u : ℕ) (us : List ℕ) → length (u ∷ us) % 5000 ≢ 0 → latest (u ∷ us) ≡ latest us
latest_kept u us part = elim (dec_lt (suc (length us)) 5000) [
  | yes first ↦
      if-true _ _ (lt→ltb (suc (length us)) 5000 first)
      ∙ sym (if-true _ _ (lt→ltb (length us) 5000 (omega arith)))
  | no later ↦
      if-false _ _ (le→ltb (suc (length us)) 5000 (omega arith))
      ∙ ap (λ (k : ℕ). to_stats (recorded (take 5000 (drop k (u ∷ us)))))
          (let more : suc (length us) % 5000 ≡ suc (length us % 5000) = omega (arith, part) in more)
      ∙ sym (if-false _ _ (le→ltb (length us) 5000 (omega (arith, part))))
]

publish_due :
    (rx tx : ℕ) (s : Dispatcher)
    → s.ticker % 5000 ≡ 0
    → publish rx tx s ≡ record s {
      last_latency = to_stats s.histogram;
      registry = broadcast_stats rx tx (to_stats s.histogram) s.registry;
      histogram = reset s.histogram;
    }
unfolding publish
publish_due rx tx s due = if-true _ _ (==_eq (s.ticker % 5000) 0 due)

publish_early : (rx tx : ℕ) (s : Dispatcher) → s.ticker % 5000 ≢ 0 → publish rx tx s ≡ s
unfolding publish
publish_early rx tx s early = if-false _ _ (==_ne (s.ticker % 5000) 0 early)

reset_window : (w : LatencyHistogram) → reset w ≡ recorded []
unfolding reset recorded
reset_window w = refl

notice_lem :
    (n : ℕ) (reg : ClientRegistry) → notify_audio_ready n reg ≡ apply_all (audio n ∷ []) reg
unfolding apply_all apply
notice_lem n reg = refl

notice_and_figures :
    (n rx tx : ℕ) (l : LatencyStats) (reg : ClientRegistry)
    → broadcast_stats rx tx l (notify_audio_ready n reg)
      ≡ apply_all (audio n ∷ statistics rx tx l ∷ []) reg
unfolding apply_all apply
notice_and_figures n rx tx l reg = refl

module _ (cur f : AudioFrame) (us : List ℕ) (micros rx tx : ℕ) (s : Dispatcher)
    (room : suc (length us) < 2 ^ 63) (h : Knows cur us s) where
  abbrev us' : List ℕ
  us' = micros % 2 ^ 32 ∷ us

  -- The thread before the end of the round.
  abbrev counted : Dispatcher
  counted = record {
    shmem = (write_frame f s.shmem).0;
    registry = notify_audio_ready (write_frame f s.shmem).1 s.registry;
    histogram = record_us s.histogram (micros % 2 ^ 32);
    ticker = (s.ticker + 1) % 2 ^ 64;
    last_latency = s.last_latency;
  }

  counted_ticks : counted.ticker ≡ length us'
  counted_ticks = omega (arith, h.ticks)

  counted_window : counted.histogram ≡ recorded (take (suc (length us % 5000)) us')
  unfolding recorded
  counted_window = ap (λ w. record_us w (micros % 2 ^ 32)) h.window

  counted_counter : (write_frame f s.shmem).1 ≡ 2 * length us'
  unfolding write_frame
  counted_counter = omega (arith, h.counter)

  -- What the end of a round that publishes, or one that does not, leaves.
  abbrev Dispatched : Dispatcher → Type 0
  Dispatched s' = Knows f us' s' × (s'.registry ≡ apply_all (frame_ops us' rx tx) s.registry)

  due_Dispatched : length us' % 5000 ≡ 0 → Dispatched (publish rx tx counted)
  due_Dispatched due =
      let window : counted.histogram ≡ recorded (take 5000 us') =
        counted_window
        ∙ ap (λ (k : ℕ). recorded (take k us'))
            (let full : suc (length us % 5000) ≡ 5000 = omega (arith, due) in full) in
      let snap = ap to_stats window ∙ sym (latest_full us' (omega arith) due) in
      subst Dispatched
        (sym (publish_due rx tx counted (ap (λ (n : ℕ). n % 5000) counted_ticks ∙ due)))
        (
          record {
            ticks = counted_ticks;
            window =
                reset_window counted.histogram ∙ ap (λ (k : ℕ). recorded (take k us')) (sym due);
            published = snap;
            counter = (unfold write_frame in counted_counter);
            frame = (unfold write_frame in refl);
          },
          ap₂
                (λ (n : ℕ) (l : LatencyStats).
                  broadcast_stats rx tx l (notify_audio_ready n s.registry))
                counted_counter snap
              ∙ notice_and_figures (2 * length us') rx tx (latest us') s.registry
              ∙ sym (
                  ap (λ ops. apply_all (audio (2 * length us') ∷ ops) s.registry)
                    (if-true (statistics rx tx (latest us') ∷ []) []
                      (==_eq (length us' % 5000) 0 due))),
        )

  early_Dispatched : length us' % 5000 ≢ 0 → Dispatched (publish rx tx counted)
  early_Dispatched early =
      subst Dispatched
        (sym (
          publish_early rx tx counted
            (λ e. early (ap (λ (n : ℕ). n % 5000) (sym counted_ticks) ∙ e))))
        (
          record {
            ticks = counted_ticks;
            window =
                counted_window
                ∙ ap (λ (k : ℕ). recorded (take k us'))
                    (let more : suc (length us % 5000) ≡ length us' % 5000 = omega (arith, early) in
                      more);
            published = h.published ∙ sym (latest_kept (micros % 2 ^ 32) us early);
            counter = (unfold write_frame in counted_counter);
            frame = (unfold write_frame in refl);
          },
          ap (λ (n : ℕ). notify_audio_ready n s.registry) counted_counter
              ∙ notice_lem (2 * length us') s.registry
              ∙ sym (
                  ap (λ ops. apply_all (audio (2 * length us') ∷ ops) s.registry)
                    (if-false (statistics rx tx (latest us') ∷ []) []
                      (==_ne (length us' % 5000) 0 early))),
        )

  pub dispatch_frame-Knows : Dispatched (dispatch_frame f micros rx tx s)
  unfolding dispatch_frame
  dispatch_frame-Knows = elim (ℕ_discrete (length us' % 5000) 0) [
    | yes due ↦ due_Dispatched due
    | no early ↦ early_Dispatched early
  ]
