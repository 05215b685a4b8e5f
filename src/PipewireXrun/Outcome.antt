-- ===== src/PipewireXrun/Outcome.antt =====
-- pipewire-xrun/main.c: the exit status after errors of the stream.
use overthinkin.Base.{
  u64, ℕ, suc, ◌+◌, ◌-◌, ◌%◌, ◌^◌, ◌<◌, ltb, ◌==◌, Bool, true, false, List, ◌∷◌, [], Option, none,
  some, inl, inr, Bool-cases, Option-cases, ◌≡◌, refl, subst, arith, if◌then◌else◌,
}
use overthinkin.PipewireXrun.Config.{Real, Spa, BenchConfig}
use overthinkin.PipewireXrun.Stats.{
  RtStats, count_interval, raise_max, count_over, count_bucket, store_raw, stats_record_interval,
  stats_alloc, stored, stats_compute_percentiles,
}
use overthinkin.PipewireXrun.Process.{
  Buffer, BenchContext, stride_of, format_of, with_stats, fill_frames, fill_buffer, use_buffer,
  record_callback, on_process, on_signal, on_duration_timeout, on_stream_state_changed,
  on_param_changed,
}
use overthinkin.PipewireXrun.Bench.{
  LoopEvent, process, state_changed, param_changed, signalled, timed_out, ticked, init_context,
  on_event, run_loop, exit_status,
}

-- The errors of the stream among what happens while the loop runs.
abbrev pub errors : List LoopEvent → ℕ
errors [] = 0
errors (state_changed true ∷ es) = suc (errors es)
errors (e ∷ es) = errors es

module _ (real : Real) (spa : Spa) where
  abbrev Context : Type 0
  Context = BenchContext real.Double

  -- A step that leaves the count of errors as it was, or ends by a fault.
  abbrev Same : ℕ → Option Context → Type 0
  Same n none = Unit
  Same n (some ctx) = ctx.stats.state_errors ≡ n

  abbrev SameStats : ℕ → Option RtStats → Type 0
  SameStats n none = Unit
  SameStats n (some s) = s.state_errors ≡ n

  store_raw-SameStats : (i : ℕ) (s : RtStats) → SameStats s.state_errors (store_raw i s)
  unfolding store_raw
  store_raw-SameStats i s = elim (Bool-cases (ltb s.raw_count s.raw_capacity)) [
    | inr h ↦ rw h refl
    | inl h ↦ elim (Option-cases s.raw_intervals) [
      | inl e ↦ rw (h, e) tt
      | inr (xs, e) ↦ rw (h, e) refl
    ]
  ]

  counts-same :
      (cfg : BenchConfig real.Double) (i : ℕ) (s : RtStats)
      → (count_bucket real cfg i
          (count_over real cfg i (raise_max i (count_interval i s)))).state_errors
        ≡ s.state_errors
  unfolding count_bucket count_over raise_max count_interval
  counts-same cfg i s = ground arith

  Same-if :
      (n : ℕ) (b : Bool) (m k : Option Context) → Same n m → Same n k → Same n (if b then m else k)
  Same-if n true m k p q = p
  Same-if n false m k p q = q

  with_stats-Same :
      (n : ℕ) (ctx : Context) (o : Option RtStats) → SameStats n o → Same n (with_stats real ctx o)
  with_stats-Same n ctx none h = tt
  with_stats-Same n ctx (some s) h = h

  use_buffer-Same :
      (b : Option Buffer) (ctx : Context) → Same ctx.stats.state_errors (use_buffer real spa b ctx)
  unfolding use_buffer fill_buffer fill_frames
  use_buffer-Same none ctx = refl
  use_buffer-Same (some b) ctx = Same-if ctx.stats.state_errors b.data_null _ _ refl (
      Same-if ctx.stats.state_errors
        (stride_of real spa (format_of real ctx) ctx.config.channels == 0) _ _ tt refl)

  record_callback-Same :
      (now : ℕ) (ctx : Context) → Same ctx.stats.state_errors (record_callback real now ctx)
  unfolding record_callback stats_record_interval
  record_callback-Same now ctx =
      let s = record (ctx.stats) { last_callback_ns = now } in
      let i = u64 (now + 2 ^ 64 - ctx.stats.last_callback_ns) in
      let s' =
        count_bucket real ctx.config i
          (count_over real ctx.config i (raise_max i (count_interval i s))) in
      let kept : SameStats ctx.stats.state_errors (store_raw i s') =
        subst (λ n. SameStats n (store_raw i s')) (counts-same ctx.config i s)
          (store_raw-SameStats i s') in
      Same-if ctx.stats.state_errors (ctx.stats.last_callback_ns == 0) _ _ refl
        (with_stats-Same ctx.stats.state_errors ctx (store_raw i s') kept)

  then-Same :
      (now n : ℕ) (o : Option Context)
      → Same n o
      → Same n (elim o [ none ↦ none | some ctx ↦ record_callback real now ctx ])
  then-Same now n none h = tt
  then-Same now n (some ctx) h =
      subst (λ m. Same m (record_callback real now ctx)) h (record_callback-Same now ctx)

  on_process-Same :
      (now : ℕ) (b : Option Buffer) (ctx : Context)
      → Same ctx.stats.state_errors (on_process real spa now b ctx)
  unfolding on_process
  on_process-Same now b ctx =
      then-Same now ctx.stats.state_errors (use_buffer real spa b ctx) (use_buffer-Same b ctx)

  goes_on :
      (es : List LoopEvent) (n m : ℕ) (o : Option Context)
      → ((ctx : Context) → ctx.stats.state_errors ≡ n → Same m (run_loop real spa es ctx))
      → Same n o
      → Same m (elim o [ none ↦ none | some ctx ↦ run_loop real spa es ctx ])
  goes_on es n m none k h = tt
  goes_on es n m (some ctx) k h = k ctx h

  -- run_loop counts the errors of the stream, one for each.
  run_loop-errors :
      (es : List LoopEvent) (ctx : Context)
      → ctx.stats.state_errors < 2 ^ 64
      → Same ((ctx.stats.state_errors + errors es) % 2 ^ 64) (run_loop real spa es ctx)
  unfolding run_loop on_event on_stream_state_changed on_param_changed on_signal on_duration_timeout
  run_loop-errors [] ctx l = omega arith
  run_loop-errors (process ns b ∷ es) ctx l =
      goes_on es ctx.stats.state_errors _ (on_process real spa ns b ctx)
        (λ ctx' h.
          subst (λ n. Same ((n + errors es) % 2 ^ 64) (run_loop real spa es ctx')) h
            (run_loop-errors es ctx' (rw h l)))
        (on_process-Same ns b ctx)
  run_loop-errors (state_changed true ∷ es) ctx l =
      let n = ctx.stats.state_errors in
      let e : (u64 (n + 1) + errors es) % 2 ^ 64 ≡ (n + suc (errors es)) % 2 ^ 64 = omega arith in
      subst (λ m. Same m (run_loop real spa es (on_stream_state_changed true ctx))) e
        (run_loop-errors es (on_stream_state_changed true ctx) (omega arith))
  run_loop-errors (state_changed false ∷ es) ctx l = run_loop-errors es ctx l
  run_loop-errors (param_changed none ∷ es) ctx l = run_loop-errors es ctx l
  run_loop-errors (param_changed (some x) ∷ es) ctx l = run_loop-errors es _ l
  run_loop-errors (signalled ∷ es) ctx l = run_loop-errors es _ l
  run_loop-errors (timed_out ∷ es) ctx l = run_loop-errors es _ l
  run_loop-errors (ticked ∷ es) ctx l = run_loop-errors es ctx l

  of-Same :
      (n : ℕ) (o : Option Context) (ctx : Context)
      → o ≡ some ctx
      → Same n o
      → ctx.stats.state_errors ≡ n
  of-Same n none ctx e h = cc
  of-Same n (some c) ctx e h = cc

  percentiles-same :
      (qsort : List ℕ → List ℕ) (s : RtStats)
      → (stats_compute_percentiles qsort s).state_errors ≡ s.state_errors
  unfolding stats_compute_percentiles
  percentiles-same qsort s = same_either _ _ (stored s == 0) refl refl
    where
      same_either :
          (a b : RtStats) (c : Bool)
          → a.state_errors ≡ s.state_errors
          → b.state_errors ≡ s.state_errors
          → (if c then a else b).state_errors ≡ s.state_errors
      same_either a b true p q = p
      same_either a b false p q = q

  failing : (s : RtStats) → 0 < s.state_errors → exit_status real spa s ≡ 1
  unfolding exit_status
  failing s p = ground arith

  -- If the loop has run without a fault from a fresh context, with at least one and less than 2 ^ 64
  -- errors of the stream among all that happened, in any order, then the exit status is 1,
  -- whatever the percentiles are set to.
  pub exit_status-errors :
      (null : Bool) (cfg : BenchConfig real.Double) (qsort : List ℕ → List ℕ) (es : List LoopEvent)
      (ctx : Context)
      → run_loop real spa es (init_context real spa null cfg) ≡ some ctx
      → 0 < errors es
      → errors es < 2 ^ 64
      → exit_status real spa (stats_compute_percentiles qsort ctx.stats) ≡ 1
  unfolding init_context stats_alloc
  exit_status-errors null cfg qsort es ctx h p l =
      let c =
        of-Same _ _ ctx h (run_loop-errors es (init_context real spa null cfg) (omega arith)) in
      failing (stats_compute_percentiles qsort ctx.stats)
        (omega (arith, percentiles-same qsort ctx.stats, c))
