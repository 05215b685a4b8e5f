-- ===== src/AlsaPcm/Stream.antt =====
-- From set_timeout to get_status of check-my-alsa/alsa-pcm.c: preparing, starting and recovering
-- the stream, and reading how much room there is.
use overthinkin.Base.{
  u32, u64, ℕ, zero, suc, ◌+◌, ◌-◌, ◌*◌, ◌/◌, ◌%◌, ◌^◌, Bool, true, false, not, ◌&&◌, ltb, ◌==◌,
  if◌then◌else◌, ℤ, pos, negsuc, is_neg, ◌==ℤ◌, min_of,
}
use overthinkin.AlsaPcm.Doubles.{Doubles, spa_dll_init}
use overthinkin.AlsaPcm.State.{
  State, PcmState, pcm_xrun, pcm_suspended, pcm_other, timerfd_settime, mmap_begin, areas_silence,
  mmap_commit, snd_pcm_prepare, snd_pcm_drop, snd_pcm_start, snd_pcm_status, snd_pcm_resume,
  snd_pcm_avail, snd_pcm_avail_update, snd_pcm_htimestamp, wait_second, xrun_cb, Answer, neg_eio,
  neg_eagain, neg_ebusy, neg_errno, M, pure, call, get, modify, check, check_res, ◌>>=◌, ◌>>◌,
}
use overthinkin.AlsaPcm.Setup.{set_swparams}

abbrev pub nsec_per_sec : ℕ
nsec_per_sec = 1_000_000_000

abbrev pub usec_per_sec : ℕ
usec_per_sec = 1_000_000

-- `threshold + headroom`, a uint32_t.
abbrev pub target_of : {D : Type 0} → State D → ℕ
target_of s = u32 (s.threshold + s.headroom)

-- `start_delay + threshold + headroom`, a uint32_t.
abbrev pub lead_of : {D : Type 0} → State D → ℕ
lead_of s = u32 (s.start_delay + s.threshold + s.headroom)

module _ {D : Type 0} where
  unfoldable pub set_timeout : ℕ → M D ℤ
  set_timeout time = do
    a ← call (timerfd_settime (time / nsec_per_sec) (time % nsec_per_sec))
    if is_neg a.ret then pure (neg_errno a.errno) else pure (pos 0)

  unfoldable pub spa_alsa_silence : ℕ → M D ℤ
  spa_alsa_silence silence = do
    s ← get
    if s.use_mmap
        then check (mmap_begin s.buffer_frames) (λ a. do
          _ ← call (areas_silence a.offset (min_of silence a.value))
          check (mmap_commit a.offset (min_of silence a.value)) (λ _. pure (pos 0)))
        else pure neg_eio

  unfoldable pub do_drop : M D ℤ
  do_drop = check snd_pcm_drop (λ _. pure (pos 0))

  unfoldable pub do_start : M D ℤ
  do_start = do
    s ← get
    if s.alsa_started
        then pure (pos 0)
        else check snd_pcm_start
            (λ _. do modify (λ s'. record s' { alsa_started = true }); pure (pos 0))

  unfoldable pub alsa_avail : M D Answer
  alsa_avail = do
    s ← get
    call (
        if not s.matching && s.disable_tsched && not s.resample
        then snd_pcm_avail_update
        else snd_pcm_avail)

  -- At most five tries to resume, a second apart; `res` is the last result.
  unfoldable pub resume_loop : ℕ → ℤ → M D ℤ
  resume_loop zero res = pure res
  resume_loop (suc tries) res = do
    a ← call snd_pcm_resume
    if a.ret ==ℤ neg_eagain then call wait_second >> resume_loop tries a.ret else pure a.ret

  -- The frames that an xrun has cost, modulo 2 ^ 64.
  unfoldable pub missing_of : State D → ℕ → ℕ
  missing_of s delay = u64 (u64 (delay * s.rate) / usec_per_sec + lead_of s)

  -- The case SND_PCM_STATE_XRUN.
  unfoldable pub count_xrun : ℕ → M D (Unit {0})
  unfolding missing_of
  count_xrun delay = do
    s ← get
    modify (λ s'. record s' { xrun = u64 (s'.xrun + missing_of s delay) })
    if s.has_xrun_cb then call (xrun_cb (missing_of s delay)) >> pure tt else pure tt

-- The offset of the hardware time stamp, in frames. The product is an int64_t, and NSEC_PER_SEC is
-- unsigned, so the quotient is that of the product's bit pattern, and never negative.
unfoldable pub diff_of : ℕ → ℕ → ℕ → ℕ
diff_of rate current_time then_ns =
    if ltb then_ns current_time
    then u64 ((current_time - then_ns) * rate) / nsec_per_sec
    else u64 (2 ^ 64 - u64 ((then_ns - current_time) * rate)) / nsec_per_sec

-- `(int) n`
abbrev pub int_of : ℕ → ℤ
int_of n = if ltb (u32 n) (2 ^ 31) then pos (u32 n) else negsuc (2 ^ 32 - u32 n - 1)

-- The conversion of an int to an unsigned long.
abbrev pub unsigned_of : ℤ → ℕ
unsigned_of (pos n) = n
unsigned_of (negsuc n) = 2 ^ 64 - n - 1

abbrev pub ltb_ℤ : ℤ → ℤ → Bool
ltb_ℤ (pos a) (pos b) = ltb a b
ltb_ℤ (pos a) (negsuc b) = false
ltb_ℤ (negsuc a) (pos b) = true
ltb_ℤ (negsuc a) (negsuc b) = ltb b a

abbrev pub non_negative : ℤ → ℕ
non_negative (pos n) = n
non_negative (negsuc n) = 0

module _ {D : Type 0} where
  -- What the time stamp adds to the delay: both bounds of the test are met where the upper one is,
  -- since `diff` is not negative, and CLAMP keeps it below the threshold.
  unfoldable pub use_htimestamp : ℕ → ℕ → M D ℕ
  use_htimestamp diff havail = do
    s ← get
    if ltb diff (s.threshold * 3)
        then modify (λ s'. record s' { htimestamp_error = 0 })
          >> pure (u64 (havail + min_of diff s.threshold))
        else if s.htimestamp_max_errors == 0
        then pure havail
        else if ltb s.htimestamp_max_errors (u32 (s.htimestamp_error + 1))
        then modify (λ s'. record s' { htimestamp_error = 0; htimestamp = false }) >> pure havail
        else modify (λ s'. record s' { htimestamp_error = u32 (s'.htimestamp_error + 1) })
          >> pure havail

  -- The part of get_avail under `htimestamp`: the result, and the delay.
  unfoldable pub with_htimestamp : ℕ → ℕ → M D (ℤ × ℕ)
  unfolding use_htimestamp diff_of
  with_htimestamp current_time avail = do
    s ← get
    if not s.htimestamp then pure (int_of avail, avail) else do
      h ← call snd_pcm_htimestamp
      if is_neg h.ret
          then pure (int_of avail, avail)
          else if h.tstamp_ns == 0
          then pure (int_of h.value, h.value)
          else do
            delay ← use_htimestamp (diff_of s.rate current_time h.tstamp_ns) h.value
            pure (int_of h.value, delay)

-- What get_status reads: its result, and avail, delay and target.
pub record Status : Type 0 where
  pub res : ℤ
  pub avail : ℕ
  pub delay : ℕ
  pub target : ℕ

abbrev pub min_ℤ : ℤ → ℤ → ℤ
min_ℤ a b = if ltb_ℤ a b then a else b

-- `avail`, `delay` and `target` of a buffer, from the result and the delay of get_avail.
unfoldable pub status_of : {D : Type 0} → State D → ℤ → ℕ → Status
status_of s res delayed =
    let a = unsigned_of (min_ℤ res (int_of s.buffer_frames)) in
    let target = target_of s in
    record {
      res = pos 0;
      avail = u64 (s.buffer_frames + 2 ^ 64 - a);
      delay = s.buffer_frames - min_of delayed s.buffer_frames;
      target =
          if ltb target s.min_delay
          then s.min_delay
          else if ltb s.max_delay target
          then s.max_delay
          else target;
    }

module _ (d : Doubles) where
  open d use {Double, of_ℕ, quot, less}

  -- The end of do_prepare.
  unfoldable pub prepared_state : State Double → State Double
  prepared_state s =
      let target = of_ℕ (target_of s) in
      let half = quot target (of_ℕ 2) in
      let max_error = if less half (of_ℕ 256) then of_ℕ 256 else half in
      record s {
        alsa_sync = true;
        alsa_sync_warning = false;
        alsa_started = false;
        dll = spa_dll_init d s.dll;
        max_error = max_error;
        max_resync = if less target max_error then target else max_error;
        err_wdw = quot (of_ℕ s.driver_rate_denom) (of_ℕ s.driver_duration);
      }

  unfoldable pub do_prepare : M Double ℤ
  unfolding prepared_state
  do_prepare = do
    modify (λ s. record s { last_threshold = s.threshold })
    check_res set_swparams (do
      p ← call snd_pcm_prepare
      if is_neg p.ret && not (p.ret ==ℤ neg_ebusy)
          then pure p.ret
          else do s ← get; _ ← spa_alsa_silence (lead_of s); modify prepared_state; pure (pos 0))

  -- The label recover.
  unfoldable pub restart : M Double ℤ
  restart = do _ ← do_drop; _ ← do_prepare; _ ← do_start; pure (pos 0)

  -- The switch over the state of the device.
  unfoldable pub recover_from : PcmState → Answer → M Double ℤ
  recover_from pcm_xrun a = do count_xrun a.delay_us; restart
  recover_from pcm_suspended a = do r ← resume_loop 5 a.ret; if is_neg r then restart else pure r
  recover_from pcm_other a = restart

  unfoldable pub alsa_recover : M Double ℤ
  unfolding recover_from
  alsa_recover = do
    modify (λ s. record s { recoveries = u32 (s.recoveries + 1) })
    a ← call snd_pcm_status
    if is_neg a.ret then restart else recover_from a.pcm_state a

  -- The second try of alsa_avail, with the value that stands in for it.
  unfoldable pub avail_again : M Double ℕ
  avail_again = do
    a ← alsa_avail
    s ← get
    if is_neg a.ret
        then modify (λ s'. record s' { recover_fails = u32 (s'.recover_fails + 1) })
          >> pure (u32 (s.threshold * 2))
        else pure (non_negative a.ret)

  -- get_avail, where the first alsa_avail has failed.
  unfoldable pub avail_recovered : ℕ → M Double (ℤ × ℕ)
  avail_recovered current_time = do
    r ← alsa_recover
    if is_neg r then pure (r, 0) else avail_again >>= with_htimestamp current_time

  -- The result of get_avail, and the delay.
  unfoldable pub get_avail : ℕ → M Double (ℤ × ℕ)
  get_avail current_time = do
    a ← alsa_avail
    if is_neg a.ret
        then avail_recovered current_time
        else with_htimestamp current_time (non_negative a.ret)

  unfoldable pub get_status : ℕ → M Double Status
  unfolding status_of
  get_status current_time = do
    (res, delayed) ← get_avail current_time
    s ← get
    if is_neg res then pure (record { res = res; avail = 0; delay = 0; target = 0 }) else do
      let r = status_of s res delayed
      modify
          (λ s'. record s' { last_avail = r.avail; last_delay = r.delay; last_target = r.target })
      pure r
