-- ===== src/AlsaPcm/Init.antt =====
-- alsa_state_init of check-my-alsa/alsa-pcm.c, with the defaults of alsa-pcm.h.
use overthinkin.Base.{true, false, [], pos, minus_one}
use overthinkin.AlsaPcm.Doubles.{Doubles}
use overthinkin.AlsaPcm.State.{State}

module _ (d : Doubles) where
  open d use {Double, of_ℕ, bw_max}

  unfoldable pub alsa_state_init : State Double
  alsa_state_init = record {
    name = [];
    timerfd = minus_one;
    rate = 0;
    channels = 0;
    format = pos 0;
    frame_size = 0;
    frame_scale = 1;
    planar = false;
    use_mmap = true;
    buffer_frames = 0;
    period_frames = 0;
    period_size_min = 0;
    max_delay = 0;
    min_delay = 0;
    threshold = 0;
    headroom = 0;
    start_delay = 0;
    default_start_delay = 0;
    duration = 0;
    driver_duration = 0;
    driver_rate_denom = 0;
    quantum_limit = 8192;
    default_period_size = 0;
    use_period_size_min_as_headroom = false;
    dll = record {
      bw = of_ℕ 0;
      z1 = of_ℕ 0;
      z2 = of_ℕ 0;
      z3 = of_ℕ 0;
      w0 = of_ℕ 0;
      w1 = of_ℕ 0;
      w2 = of_ℕ 0;
    };
    dll_bw_max = bw_max;
    max_error = of_ℕ 0;
    max_resync = of_ℕ 0;
    err_avg = of_ℕ 0;
    err_var = of_ℕ 0;
    err_wdw = of_ℕ 0;
    next_time = 0;
    base_time = 0;
    sample_count = 0;
    last_threshold = 0;
    alsa_sync = false;
    alsa_sync_warning = false;
    htimestamp = false;
    htimestamp_error = 0;
    htimestamp_max_errors = 64;
    opened = false;
    prepared = false;
    started = false;
    alsa_started = false;
    is_batch = false;
    disable_batch = false;
    matching = false;
    resample = false;
    disable_tsched = false;
    have_format = false;
    following = false;
    xrun = 0;
    recoveries = 0;
    recover_fails = 0;
    last_avail = 0;
    last_delay = 0;
    last_target = 0;
    has_cycle_cb = false;
    has_xrun_cb = false;
  }
