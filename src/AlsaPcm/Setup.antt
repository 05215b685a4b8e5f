-- ===== src/AlsaPcm/Setup.antt =====
-- spa_alsa_open, recalc_headroom, spa_alsa_set_format and set_swparams of
-- check-my-alsa/alsa-pcm.c. The period that flp2 rounds is not used by the sources, and left out.
use overthinkin.Base.{
  u32, ℕ, ◌+◌, ◌-◌, ◌*◌, ◌/◌, true, false, not, ◌&&◌, ◌||◌, [], ◌∷◌, ◌++◌, length, take, ltb, leb,
  ◌==◌, if◌then◌else◌, ℤ, pos, minus_one, is_neg, ◌==ℤ◌, min_of,
}
use overthinkin.AlsaPcm.State.{
  State, snd_pcm_open, snd_pcm_close, timerfd_create, hw_params_any, set_rate_resample,
  set_access_mmap, set_access_rw, set_channels_near, set_rate_near, set_format, physical_width,
  is_batch, can_disable_period_wakeup, set_period_wakeup, get_period_size_min, set_period_size_near,
  set_buffer_size_min, set_buffer_size_near, get_buffer_size_max, hw_params, sw_params_current,
  set_tstamp_mode, set_tstamp_type, set_start_threshold, sw_params, Answer, neg_eio, neg_einval,
  neg_errno, M, pure, call, get, modify, check, check_res, ◌>>=◌, ◌>>◌,
}

module _ {D : Type 0} where
  -- The label error_exit_close.
  abbrev error_exit_close : ℕ → M D ℤ
  error_exit_close errno = do _ ← call snd_pcm_close; pure (neg_errno errno)

  -- The timer of spa_alsa_open.
  unfoldable pub open_timer : M D ℤ
  open_timer = do
    t ← call timerfd_create
    modify (λ s. record s { timerfd = t.ret })
    if is_neg t.ret
        then error_exit_close t.errno
        else do modify (λ s. record s { opened = true; sample_count = 0 }); pure (pos 0)

  -- fill_device_name takes 63 bytes, and `p` is put behind them if there is room.
  unfoldable pub spa_alsa_open : M D ℤ
  unfolding open_timer
  spa_alsa_open = do
    s ← get
    if s.opened then pure (pos 0) else do
      let device_name = take 63 s.name
      modify (λ s'. record s' {
        name = if ltb (length device_name) 63 then device_name ++ b'p' ∷ [] else device_name;
      })
      check (snd_pcm_open device_name) (λ _. open_timer)

  -- `state->headroom` is a uint32_t.
  unfoldable pub recalc_headroom : State D → State D
  recalc_headroom s =
      let base = if s.use_period_size_min_as_headroom then u32 s.period_size_min else 0 in
      let wanted = if s.is_batch then u32 (base + s.period_frames) else base in
      record s {
        headroom =
            if leb s.threshold s.buffer_frames
            then min_of wanted (s.buffer_frames - s.threshold)
            else 0;
      }

  -- What the state takes from the limits of the buffer.
  abbrev pub with_largest : ℕ → State D → State D
  with_largest largest s = record s {
    buffer_frames = min_of largest (u32 (s.quantum_limit * 4 * s.frame_scale));
  }

  abbrev pub with_buffer : ℕ → State D → State D
  with_buffer frames s = record s { buffer_frames = frames }

  abbrev pub with_delays : ℕ → State D → State D
  with_delays frames s =
      recalc_headroom
        (record s { max_delay = frames / 2; min_delay = 0; start_delay = s.default_start_delay })

  -- The buffer size that the device has chosen, and the end of spa_alsa_set_format.
  unfoldable pub take_buffer : ℕ → M D ℤ
  unfolding recalc_headroom
  take_buffer frames =
      if frames == 0
      then pure neg_eio
      else modify (with_delays frames) >> check hw_params (λ _. pure (pos 0))

  unfoldable pub near_buffer : ℕ → M D ℤ
  near_buffer least =
      check (set_buffer_size_near least)
        (λ near. modify (with_buffer near.value) >> take_buffer near.value)

  unfoldable pub least_buffer : State D → M D ℤ
  least_buffer s =
      check (set_buffer_size_min s.buffer_frames)
        (λ least. modify (with_buffer least.value) >> near_buffer least.value)

  -- From the buffer size on.
  unfoldable pub set_buffer : M D ℤ
  set_buffer =
      check get_buffer_size_max
        (λ largest. modify (with_largest largest.value) >> (get >>= least_buffer))

  abbrev pub with_period : ℕ → State D → State D
  with_period frames s = record s { period_frames = frames; duration = u32 frames }

  unfoldable pub take_period : ℕ → M D ℤ
  take_period frames =
      if frames == 0 then pure neg_eio else modify (with_period frames) >> set_buffer

  unfoldable pub near_period : ℕ → M D ℤ
  near_period period_size =
      check (set_period_size_near period_size) (λ near. take_period near.value)

  -- The period, with period_scale 1.
  unfoldable pub set_period : ℕ → M D ℤ
  set_period period_size =
      check get_period_size_min (λ least.
        modify (λ s. record s { period_size_min = least.value }) >> near_period period_size)

  abbrev pub with_format : ℤ → ℕ → ℕ → Answer → Answer → State D → State D
  with_format format channels rate width batch s = record s {
    format = format;
    channels = channels;
    rate = rate;
    frame_size = width.value / 8 * channels;
    frame_scale = 1;
    planar = false;
    have_format = true;
    is_batch = not (batch.ret ==ℤ pos 0) && not s.disable_batch;
  }

  unfoldable pub no_wakeups : ℕ → M D ℤ
  no_wakeups period_size = call can_disable_period_wakeup >>= λ can.
      if can.ret ==ℤ pos 0
      then set_period period_size
      else check set_period_wakeup (λ _. set_period period_size)

  -- Once the channels and the rate are known.
  unfoldable pub keep_format : ℤ → ℕ → ℕ → ℕ → M D ℤ
  keep_format format channels rate period_size = call (physical_width format) >>= λ width.
      call is_batch >>= λ batch.
      modify (with_format format channels rate width batch) >> no_wakeups period_size

  unfoldable pub negotiated : ℤ → ℕ → ℕ → ℕ → M D ℤ
  negotiated format channels rate period_size =
      if channels == 0 || rate == 0
      then pure neg_eio
      else keep_format format channels rate period_size

  -- The sample format, the channels and the rate.
  unfoldable pub negotiate : ℕ → ℕ → ℤ → ℕ → M D ℤ
  negotiate rate channels format period_size = check (set_format format) (λ _.
      check (set_channels_near channels)
        (λ c. check (set_rate_near rate) (λ r. negotiated format c.value r.value period_size)))

  -- Without MMAP, read/write access must be there.
  unfoldable pub fall_back : M D ℤ → State D → M D ℤ
  fall_back rest s = if s.use_mmap then rest else check set_access_rw (λ _. rest)

  unfoldable pub set_access : M D ℤ → M D ℤ
  set_access rest = call set_access_mmap >>= λ mmap.
      modify (λ s. if is_neg mmap.ret then record s { use_mmap = false } else s)
      >> (get >>= fall_back rest)

  unfoldable pub spa_alsa_set_format : ℕ → ℕ → ℤ → ℕ → M D ℤ
  spa_alsa_set_format rate channels format period_size =
      if format ==ℤ minus_one
      then pure neg_einval
      else check_res spa_alsa_open (
          check hw_params_any (λ _.
            check set_rate_resample (λ _. set_access (negotiate rate channels format period_size))))

  unfoldable pub set_swparams : M D ℤ
  set_swparams = check sw_params_current (λ _. check set_tstamp_mode (λ _.
      check set_tstamp_type
        (λ _. check set_start_threshold (λ _. check sw_params (λ _. pure (pos 0))))))
