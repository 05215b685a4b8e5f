-- ===== src/AlsaPcm/Cycle.antt =====
-- From alsa_write_sync to spa_alsa_close of check-my-alsa/alsa-pcm.c, and alsa-pcm-sink.c: the timer
-- wakeups, and the life of a stream.
use overthinkin.Base.{
  u32, u64, ℕ, ◌+◌, true, false, not, ◌&&◌, ◌||◌, take, Bytes, ltb, ◌==◌, if◌then◌else◌, ℤ, pos,
  is_neg, ◌==ℤ◌,
}
use overthinkin.AlsaPcm.Doubles.{Doubles}
use overthinkin.AlsaPcm.State.{
  snd_pcm_close, close_timer, read_timer, clock_gettime, mmap_begin, areas_silence, mmap_commit,
  poll_timer, cycle_cb, neg_eio, neg_eagain, neg_epipe, neg_estrpipe, neg_etimedout, neg_errno, M,
  pure, call, get, modify, check_res, ◌>>=◌, ◌>>◌,
}
use overthinkin.AlsaPcm.Setup.{spa_alsa_set_format}
use overthinkin.AlsaPcm.Stream.{
  set_timeout, do_drop, do_start, do_prepare, alsa_recover, get_status,
}
use overthinkin.AlsaPcm.Clock.{later, update_time, period_ns, early_time, check_time}

module _ (d : Doubles) where
  open d use {
    Double, of_ℕ, of_ℤ, to_u64, bw_min, bw_max, add, sub, mul, quot, neg, fabs, sqrt, less, is_zero,
  }

  unfoldable pub alsa_write_sync : ℕ → M Double ℤ
  alsa_write_sync current_time = do
    r ← get_status d current_time
    s ← get
    if is_neg r.res
        then modify (later d (period_ns d s)) >> pure r.res
        else if not s.following
            && s.alsa_started
            && less (add (of_ℕ r.target) s.max_error) (of_ℕ r.delay)
        then modify (λ s'. record s' { next_time = early_time d current_time r s'.rate })
          >> pure neg_eagain
        else modify (update_time d current_time r.delay r.target) >> pure (pos 0)

  -- The end of alsa_write_frames: what was written is counted, and the stream started.
  unfoldable pub count_frames : ℕ → ℕ → M Double ℤ
  count_frames frames written = do
    modify (λ s. record s { sample_count = u64 (s.sample_count + written) })
    s ← get
    if not s.alsa_started && (ltb 0 written || frames == 0)
        then do_start >> pure (pos 0)
        else pure (pos 0)

  -- The commit: an xrun is reported here, and found by the next alsa_avail.
  unfoldable pub commit_frames : ℕ → ℕ → M Double ℤ
  unfolding count_frames
  commit_frames offset written =
      if written == 0
      then count_frames written written
      else call (mmap_commit offset written) >>= λ c.
          if is_neg c.ret && not (c.ret ==ℤ neg_epipe || c.ret ==ℤ neg_estrpipe)
          then pure c.ret
          else count_frames written written

  unfoldable pub alsa_write_frames : M Double ℤ
  alsa_write_frames = do
    s ← get
    if s.use_mmap && ltb 0 s.buffer_frames
        then (call (mmap_begin s.buffer_frames) >>= λ b.
            if is_neg b.ret
            then alsa_recover d >> pure b.ret
            else call (areas_silence b.offset b.value) >> commit_frames b.offset b.value)
        else count_frames s.buffer_frames 0

  -- playback_ready calls the hook.
  unfoldable pub alsa_do_wakeup_work : ℕ → M Double ℤ
  alsa_do_wakeup_work current_time = do
    res ← alsa_write_sync current_time
    s ← get
    if res ==ℤ neg_eagain
        then pure res
        else if s.has_cycle_cb
        then call cycle_cb >> pure (pos 0)
        else pure (pos 0)

  -- alsa_timer_wakeup behind the read of the timer.
  unfoldable pub wake : M Double ℤ
  unfolding check_time
  wake = do
    s ← get
    res ← alsa_do_wakeup_work s.next_time
    modify (check_time d s.next_time)
    s' ← get
    timeout_res ← set_timeout s'.next_time
    pure (if is_neg timeout_res then timeout_res else res)

  unfoldable pub alsa_timer_wakeup : M Double ℤ
  alsa_timer_wakeup = do
    s ← get
    if s.started
        then (call read_timer >>= λ r.
            if is_neg r.ret && not (r.errno == 11) then pure (neg_errno r.errno) else wake)
        else wake

  unfoldable pub spa_alsa_pause : M Double ℤ
  spa_alsa_pause = do
    s ← get
    if s.started
        then modify (λ s'. record s' { started = false })
          >> set_timeout 0
          >> do_drop
          >> modify (λ s'. record s' { prepared = false })
          >> pure (pos 0)
        else pure (pos 0)

  unfoldable pub spa_alsa_prepare : M Double ℤ
  unfolding spa_alsa_pause
  spa_alsa_prepare = do
    s ← get
    if not s.opened
        then pure neg_eio
        else spa_alsa_pause
          >> (get >>= λ s'.
              if s'.prepared
              then pure (pos 0)
              else check_res (do_prepare d)
                  (modify (λ s''. record s'' { prepared = true }) >> pure (pos 0)))

  -- spa_alsa_start, once the stream is prepared and, with a start delay, running.
  unfoldable pub arm : M Double ℤ
  arm = do
    modify (λ s. record s { started = true })
    now ← call clock_gettime
    modify (λ s. record s { next_time = now.now_ns })
    check_res (set_timeout now.now_ns) (pure (pos 0))

  unfoldable pub spa_alsa_start : M Double ℤ
  unfolding spa_alsa_prepare arm
  spa_alsa_start = do
    s ← get
    if s.started
        then pure (pos 0)
        else if not s.opened
        then pure neg_eio
        else check_res spa_alsa_prepare
            (get >>= λ s'. if ltb 0 s'.start_delay then check_res do_start arm else arm)

  unfoldable pub spa_alsa_close : M Double ℤ
  unfolding spa_alsa_pause
  spa_alsa_close = do
    s ← get
    if not s.opened
        then pure (pos 0)
        else spa_alsa_pause
          >> (call snd_pcm_close >>= λ c.
              call close_timer >> modify (λ s'. record s' { opened = false }) >> pure c.ret)

  unfoldable pub pcm_sink_open : Bytes → ℕ → ℕ → ℤ → ℕ → M Double ℤ
  pcm_sink_open dev rate channels format period = do
    modify (λ s. record s {
      name = take 63 dev;
      rate = rate;
      channels = channels;
      format = format;
      threshold = u32 period;
      default_period_size = u32 period;
      driver_duration = u32 period;
      driver_rate_denom = rate;
    })
    spa_alsa_set_format rate channels format (u32 period)

  unfoldable pub pcm_sink_iterate : ℕ → M Double ℤ
  pcm_sink_iterate timeout_ms = do
    p ← call (poll_timer timeout_ms)
    if is_neg p.ret
        then pure (neg_errno p.errno)
        else if p.ret ==ℤ pos 0
        then pure neg_etimedout
        else check_res alsa_timer_wakeup alsa_write_frames

  unfoldable pub pcm_sink_stop : M Double ℤ
  pcm_sink_stop = do _ ← spa_alsa_pause; _ ← spa_alsa_close; pure (pos 0)
