-- ===== src/PipewireXrun/Bench.antt =====
-- pipewire-xrun/main.c: the stream, the run of the loop, and main, over the calls of libpipewire.
use overthinkin.Base.{
  ℕ, zero, suc, ltb, Bool, true, false, ◌||◌, List, ◌∷◌, [], Option, none, some, Bytes, ℤ, pos,
  negsuc, is_neg, if◌then◌else◌, Trace, Action, pure, call, ◌>>=◌, ◌>>◌,
}
use overthinkin.PipewireXrun.Config.{
  Real, Spa, BenchConfig, Opt, parsed, refused, helped, parse_args, validate_config,
}
use overthinkin.PipewireXrun.Stats.{RtStats, no_stats, stats_alloc, stats_compute_percentiles}
use overthinkin.PipewireXrun.Process.{
  Buffer, BenchContext, synth_init, on_process, on_signal, on_duration_timeout,
  on_stream_state_changed, on_param_changed,
}

-- What the loop calls back for while it runs.
pub data LoopEvent : Type 0 where
  process : ℕ → Option Buffer → LoopEvent
  state_changed : Bool → LoopEvent
  param_changed : Option (ℕ × ℕ) → LoopEvent
  signalled timed_out ticked : LoopEvent

pub data Call : Type 0 where
  calloc pw_init loop_new add_signal stream_new stream_connect : Call
  now add_timer destroy_source update_timer run : Call
  stream_destroy loop_destroy pw_deinit : Call

-- A null pointer, a result, errno, the time, and what happened while the loop ran.
pub record Answer : Type 0 where
  pub null : Bool
  pub ret : ℤ
  pub errno : ℕ
  pub ns : ℕ
  pub happened : List LoopEvent

abbrev pub History : Type 0
History = Trace Call Answer

abbrev pub M : Type 0 → Type 0
M = Action Call Answer

-- `-errno`
abbrev pub neg_errno : ℕ → ℤ
neg_errno zero = pos 0
neg_errno (suc e) = negsuc e

-- stream_create: the result, and whether there is a stream.
unfoldable pub stream_create : M (ℤ × Bool)
stream_create = call stream_new >>= λ s.
    if s.null
    then pure (neg_errno s.errno, false)
    else call stream_connect >>= λ c. pure (c.ret, true)

-- The loop and the stream of a context, as far as they are not NULL.
pub record Held : Type 0 where
  pub loop : Bool
  pub stream : Bool

-- errno as the latest call has left it.
abbrev pub errno_of : History → ℕ
errno_of [] = 0
errno_of ((c, a) ∷ t) = a.errno

abbrev read_errno : M ℕ
read_errno os t = (errno_of t, t)

-- The end of bench_init: it returns errno once stream_create has failed, and not its result.
unfoldable pub init_stream : M (ℤ × Held)
init_stream = call add_signal >> call add_signal >> stream_create >>= λ r. read_errno >>= λ e.
    pure (if is_neg r.0 then neg_errno e else pos 0, record { loop = true; stream = r.1 })

-- bench_init, but for the context that it fills.
unfoldable pub bench_init : M (ℤ × Held)
bench_init = call loop_new >>= λ l.
    if l.null
    then pure (neg_errno l.errno, record { loop = false; stream = false })
    else init_stream

unfoldable pub bench_fini : Held → M (Unit {0})
bench_fini h =
    (if h.stream then call stream_destroy >> pure tt else pure tt)
    >> (if h.loop then call loop_destroy >> pure tt else pure tt)
    >> call pw_deinit
    >> pure tt

module _ (real : Real) (spa : Spa) where
  -- The context that bench_init fills; `null` says whether calloc failed.
  unfoldable pub init_context : Bool → BenchConfig real.Double → BenchContext real.Double
  init_context null cfg = record {
    config = cfg;
    stats = stats_alloc null cfg no_stats;
    synth = synth_init real cfg.rate (real.of_ℕ 440);
    should_stop = false;
    run_start_ns = 0;
    given_back = [];
    has_quit = false;
  }

  -- One callback; `none` is the end of the program by a fault.
  unfoldable pub on_event : LoopEvent → BenchContext real.Double → Option (BenchContext real.Double)
  on_event (process ns b) ctx = on_process real spa ns b ctx
  on_event (state_changed e) ctx = some (on_stream_state_changed e ctx)
  on_event (param_changed p) ctx = some (on_param_changed p ctx)
  on_event signalled ctx = some (on_signal ctx)
  on_event timed_out ctx = some (on_duration_timeout ctx)
  on_event ticked ctx = some ctx

  unfoldable pub run_loop :
      List LoopEvent → BenchContext real.Double → Option (BenchContext real.Double)
  run_loop [] ctx = some ctx
  run_loop (e ∷ es) ctx = elim (on_event e ctx) [ none ↦ none | some ctx' ↦ run_loop es ctx' ]

  abbrev ended_at : ℕ → Option (BenchContext real.Double) → Option (BenchContext real.Double)
  ended_at ns none = none
  ended_at ns (some ctx) = some (record ctx { stats = record (ctx.stats) { test_end_ns = ns } })

  -- bench_run from the loop on.
  unfoldable pub run_timed : BenchContext real.Double → M (ℤ × Option (BenchContext real.Double))
  run_timed ctx = call update_timer >> call update_timer >> call run >>= λ r. call now >>= λ n.
      call destroy_source
      >> call destroy_source
      >> pure (pos 0, ended_at n.ns (run_loop r.happened ctx))

  unfoldable pub bench_run : BenchContext real.Double → M (ℤ × Option (BenchContext real.Double))
  bench_run ctx = call now >>= λ n. call add_timer >>= λ d.
      if d.null
      then pure (neg_errno d.errno, some (record ctx { run_start_ns = n.ns }))
      else call add_timer >>= λ p.
          if p.null
          then (call destroy_source >>= λ x.
              pure (neg_errno x.errno, some (record ctx { run_start_ns = n.ns })))
          else run_timed (record ctx { run_start_ns = n.ns })

  -- The exit status once the loop has run; `none` is the end by a fault.
  unfoldable pub exit_status : RtStats → ℕ
  exit_status s = if ltb 0 s.state_errors || ltb 0 s.over_threshold_3 then 1 else 0

  module _ (qsort : List ℕ → List ℕ) where
    unfoldable pub finish : Held → ℤ × Option (BenchContext real.Double) → M (Option ℕ)
    finish h (r, none) = pure none
    finish h (r, some ctx) =
        bench_fini h
        >> pure
            (some (if is_neg r then 1 else exit_status (stats_compute_percentiles qsort ctx.stats)))

    unfoldable pub run_main : BenchConfig real.Double → M (Option ℕ)
    run_main cfg = call pw_init >> call calloc >>= λ c. bench_init >>= λ i.
        if is_neg i.0 then pure (some 1) else bench_run (init_context c.null cfg) >>= finish i.1

    -- The exit status of main; atoi is given, and what getopt returns.
    unfoldable pub main : (Bytes → ℤ) → List Opt → M (Option ℕ)
    main atoi os = elim (parse_args real spa atoi os) [
      | helped ↦ pure (some 0)
      | refused ↦ pure (some 1)
      | parsed cfg ↦ if validate_config spa cfg then run_main cfg else pure (some 1)
    ]
