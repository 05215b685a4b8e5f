-- ===== src/PipewireXrun/Process.antt =====
-- pipewire-xrun/main.c: the tone, and the callbacks of the stream and of the loop.
use overthinkin.Base.{
  u64, ℕ, zero, suc, ◌+◌, ◌-◌, ◌*◌, ◌/◌, ◌%◌, ◌^◌, ltb, ◌==◌, Bool, true, not, ◌&&◌, List, ◌∷◌, [],
  ◌++◌, Option, none, some, length, if◌then◌else◌,
}
use overthinkin.PipewireXrun.Config.{Real, Spa, BenchConfig, one_of, format_sample_size}
use overthinkin.PipewireXrun.Stats.{RtStats, stats_record_interval}

-- struct synth_state
pub record SynthState (D : Type 0) : Type 0 where
  pub phase : D
  pub phase_increment : D
  pub freq : D

-- A buffer of the stream: whether its memory is missing, its size, and the frames asked for.
pub record Buffer : Type 0 where
  pub data_null : Bool
  pub maxsize : ℕ
  pub requested : ℕ

-- A buffer that is given back, its chunk filled or not: the bytes that were written to its memory,
-- and its size.
pub record Chunk : Type 0 where
  pub offset : ℕ
  pub stride : ℕ
  pub size : ℕ
  pub written : ℕ
  pub room : ℕ

-- struct bench_context, with the buffers that were given back, the latest first, and whether the
-- loop was asked to quit. The pointers are left out.
pub record BenchContext (D : Type 0) : Type 0 where
  pub config : BenchConfig D
  pub stats : RtStats
  pub synth : SynthState D
  pub should_stop : Bool
  pub run_start_ns : ℕ
  pub given_back : List (Option Chunk)
  pub has_quit : Bool

-- A sample for each channel.
abbrev pub repeated : {S : Type 0} → ℕ → S → List S
repeated zero x = []
repeated (suc n) x = x ∷ repeated n x

module _ (real : Real) where
  open real use {Double, of_ℕ, add, sub, mul, quot, at_least, sin, two_pi}

  unfoldable pub synth_init : ℕ → Double → SynthState Double
  synth_init rate freq = record {
    phase = of_ℕ 0;
    freq = freq;
    phase_increment = quot (mul two_pi freq) (of_ℕ rate);
  }

  abbrev pub next_phase : SynthState Double → SynthState Double
  next_phase s =
      let p = add s.phase s.phase_increment in
      record s { phase = if at_least p two_pi then sub p two_pi else p }

  -- The loop of synth_fill_f32 and synth_fill_s16: the samples in the order of their addresses.
  unfoldable pub synth_fill :
      {S : Type 0} → (Double → S) → ℕ → ℕ → SynthState Double → SynthState Double × List S
  synth_fill to_sample zero channels s = (s, [])
  synth_fill to_sample (suc n) channels s =
      let (s', rest) = synth_fill to_sample n channels (next_phase s) in
      (s', repeated channels (to_sample (sin s.phase)) ++ rest)

  -- stride, which is a uint32_t.
  unfoldable pub stride_of : Spa → ℕ → ℕ → ℕ
  stride_of spa format channels =
      (if format_sample_size spa format == 0 then 4 else format_sample_size spa format)
      * channels
      % 2 ^ 32

  unfoldable pub frames_of : Buffer → ℕ → ℕ
  frames_of b stride =
      if not (b.requested == 0) && ltb b.requested (b.maxsize / stride)
      then b.requested
      else b.maxsize / stride

  -- The bytes of a sample that the fill writes.
  abbrev pub sample_bytes : Spa → ℕ → ℕ
  sample_bytes spa format = if one_of format spa.s16 then 2 else 4

  unfoldable pub format_of : BenchContext Double → ℕ
  format_of ctx =
      if ctx.stats.actual_format == 0 then ctx.config.format else ctx.stats.actual_format

  -- The buffer is filled and given back.
  unfoldable pub fill_frames : Spa → Buffer → ℕ → BenchContext Double → BenchContext Double
  fill_frames spa b stride ctx =
      let n = frames_of b stride in
      let filled = synth_fill (λ x. x) n ctx.config.channels ctx.synth in
      record ctx {
        synth = filled.0;
        given_back =
            some (record {
              offset = 0;
              stride = stride;
              size = n * stride % 2 ^ 32;
              written = length filled.1 * sample_bytes spa (format_of ctx);
              room = b.maxsize;
            })
            ∷ ctx.given_back;
      }

  -- From the format on; `none` is a division by 0.
  unfoldable pub fill_buffer : Spa → Buffer → BenchContext Double → Option (BenchContext Double)
  fill_buffer spa b ctx =
      let stride = stride_of spa (format_of ctx) ctx.config.channels in
      if stride == 0 then none else some (fill_frames spa b stride ctx)

  -- on_process up to the label record.
  unfoldable pub use_buffer :
      Spa → Option Buffer → BenchContext Double → Option (BenchContext Double)
  use_buffer spa none ctx = some (record ctx {
    stats = record (ctx.stats) { dequeue_fail = u64 (ctx.stats.dequeue_fail + 1) };
  })
  use_buffer spa (some b) ctx =
      if b.data_null
      then some (record ctx {
        stats = record (ctx.stats) { null_buffer = u64 (ctx.stats.null_buffer + 1) };
        given_back = none ∷ ctx.given_back;
      })
      else fill_buffer spa b ctx

  abbrev pub with_stats : BenchContext Double → Option RtStats → Option (BenchContext Double)
  with_stats ctx none = none
  with_stats ctx (some s) = some (record ctx { stats = s })

  -- From the label record on.
  unfoldable pub record_callback : ℕ → BenchContext Double → Option (BenchContext Double)
  record_callback now ctx =
      let last = ctx.stats.last_callback_ns in
      let s = record (ctx.stats) { last_callback_ns = now } in
      if last == 0
      then some (record ctx { stats = record s { test_start_ns = now } })
      else with_stats ctx (stats_record_interval real ctx.config (u64 (now + 2 ^ 64 - last)) s)

  unfoldable pub on_process :
      Spa → ℕ → Option Buffer → BenchContext Double → Option (BenchContext Double)
  on_process spa now b ctx = elim (use_buffer spa b ctx) [
    | none ↦ none
    | some ctx' ↦ record_callback now ctx'
  ]

module _ {D : Type 0} where
  unfoldable pub on_signal : BenchContext D → BenchContext D
  on_signal ctx = record ctx { should_stop = true; has_quit = true }

  unfoldable pub on_duration_timeout : BenchContext D → BenchContext D
  on_duration_timeout ctx = record ctx { should_stop = true; has_quit = true }

  -- remaining_sec of on_progress_tick, which changes nothing.
  unfoldable pub remaining_sec : ℕ → BenchContext D → ℕ
  remaining_sec now ctx =
      let elapsed = u64 (now + 2 ^ 64 - ctx.run_start_ns) in
      let total = u64 (ctx.config.duration_sec * 1000000000) in
      (if ltb elapsed total then total - elapsed else 0) / 1000000000

  -- The state is PW_STREAM_STATE_ERROR or not.
  unfoldable pub on_stream_state_changed : Bool → BenchContext D → BenchContext D
  on_stream_state_changed is_error ctx =
      if is_error
      then record ctx {
        stats = record (ctx.stats) { state_errors = u64 (ctx.stats.state_errors + 1) };
        has_quit = true;
      }
      else ctx

  -- The rate and the format of a parameter of format, if it is there and can be parsed.
  unfoldable pub on_param_changed : Option (ℕ × ℕ) → BenchContext D → BenchContext D
  on_param_changed none ctx = ctx
  on_param_changed (some (rate, format)) ctx = record ctx {
    stats = record (ctx.stats) { actual_rate = rate; actual_format = format };
  }
