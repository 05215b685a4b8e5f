-- ===== src/AlsaPcm/Clock.antt =====
-- The clock of check-my-alsa/alsa-pcm.c: update_time, and the times of early and late wakeups.
use overthinkin.Base.{
  u32, u64, ℕ, ◌+◌, ◌-◌, ◌*◌, ◌/◌, ◌^◌, Bool, true, false, ◌||◌, ltb, if◌then◌else◌, ℤ, pos, negsuc,
  sub_ℕ, is_neg, ◌==ℤ◌,
}
use overthinkin.AlsaPcm.Doubles.{Doubles, spa_dll_set_bw, spa_dll_update}
use overthinkin.AlsaPcm.State.{State}
use overthinkin.AlsaPcm.Stream.{nsec_per_sec, Status}

module _ (d : Doubles) where
  open d use {
    Double, of_ℕ, of_ℤ, to_u64, bw_min, bw_max, add, sub, mul, quot, neg, fabs, sqrt, less, is_zero,
  }

  -- `(int32_t) (last_threshold - threshold)`
  abbrev pub signed_diff : ℕ → ℕ → ℤ
  signed_diff a b =
      let w = u32 (a + 2 ^ 32 - b) in if ltb w (2 ^ 31) then pos w else negsuc (2 ^ 32 - w - 1)

  -- The first lines of update_time: the filter is started at the first wakeup.
  unfoldable pub start_dll : ℕ → State Double → State Double
  start_dll current_time s =
      if is_zero s.dll.bw
      then record s {
        dll = spa_dll_set_bw d s.dll s.dll_bw_max s.threshold s.rate;
        next_time = current_time;
        base_time = current_time;
      }
      else s

  -- A changed period.
  unfoldable pub note_threshold : ℤ → State Double → State Double
  note_threshold diff s =
      if diff ==ℤ pos 0
      then s
      else record s { last_threshold = s.threshold; alsa_sync = true; alsa_sync_warning = false }

  -- The timing error, kept between -max_error and max_error where it is beyond max_resync.
  unfoldable pub bounded_error : State Double → Double → Double
  bounded_error s err =
      if less s.max_resync err
      then (if less s.max_error err then s.max_error else err)
      else if less err (neg s.max_resync)
      then (if less err (neg s.max_error) then neg s.max_error else err)
      else err

  abbrev pub out_of_sync : State Double → Double → Bool
  out_of_sync s err = less s.max_resync err || less err (neg s.max_resync)

  -- err_avg and err_var.
  unfoldable pub averages : Double → State Double → State Double
  averages err s =
      let weight = add s.err_wdw (of_ℕ 1) in
      let avg = quot (add (mul s.err_avg s.err_wdw) (sub err s.err_avg)) weight in
      record s {
        err_var =
            quot (add (mul s.err_var s.err_wdw) (mul (sub err s.err_avg) (sub err avg))) weight;
        err_avg = avg;
      }

  -- `(uint64_t) (frames / corr * 1e9 / rate)`
  abbrev pub nsec_of : Double → Double → ℕ → ℕ
  nsec_of frames corr rate = to_u64 (quot (mul (quot frames corr) (of_ℕ nsec_per_sec)) (of_ℕ rate))

  -- The bandwidth is set anew every three seconds.
  unfoldable pub adjust_bw : State Double → State Double
  adjust_bw s =
      if ltb (3 * nsec_per_sec) (u64 (s.next_time + 2 ^ 64 - s.base_time))
      then (let bw = quot (add (fabs s.err_avg) (sqrt (fabs s.err_var))) (of_ℕ 1000) in
          let kept =
            if less bw bw_min then bw_min else if less s.dll_bw_max bw then s.dll_bw_max else bw in
          record s {
            base_time = s.next_time;
            dll = spa_dll_set_bw d s.dll kept s.threshold s.rate;
          })
      else s

  abbrev pub later : ℕ → State Double → State Double
  later nsec s = record s { next_time = u64 (s.next_time + nsec) }

  -- The error is marked if it is out of sync, bounded, and filtered: the correction, and the state.
  unfoldable pub filter_error : Double → State Double → Double × State Double
  unfolding bounded_error averages
  filter_error err s =
      let marked = if out_of_sync s err then record s { alsa_sync = true } else s in
      let err' = bounded_error marked err in
      let (corr, dll) = spa_dll_update d marked.dll err' in
      (corr, averages err' (record marked { dll = dll }))

  -- The next time: a period that has grown by `- diff` comes first.
  unfoldable pub advance : ℤ → Double → State Double → State Double
  unfolding adjust_bw
  advance diff corr s =
      let grown = if is_neg diff then later (nsec_of (of_ℤ diff) corr s.rate) s else s in
      let adjusted = adjust_bw grown in
      later (nsec_of (of_ℕ adjusted.threshold) corr adjusted.rate) adjusted

  -- update_time on the state; it returns 0 always.
  unfoldable pub update_time : ℕ → ℕ → ℕ → State Double → State Double
  unfolding start_dll note_threshold filter_error advance
  update_time current_time delay target s =
      let started = start_dll current_time s in
      let diff = signed_diff started.last_threshold started.threshold in
      let raw = of_ℤ (sub_ℕ delay target) in
      let err = if diff ==ℤ pos 0 then raw else sub raw (of_ℤ diff) in
      let (corr, filtered) = filter_error err (note_threshold diff started) in
      advance diff corr filtered

  -- `(uint64_t) (threshold * 1e9 / rate)`
  abbrev pub period_ns : State Double → ℕ
  period_ns s = to_u64 (quot (mul (of_ℕ s.threshold) (of_ℕ nsec_per_sec)) (of_ℕ s.rate))

  -- The early wakeup of alsa_write_sync: the next time from the delay, at most three targets of it.
  unfoldable pub early_time : ℕ → Status → ℕ → ℕ
  early_time current_time r rate =
      let delay = if ltb (u64 (r.target * 3)) r.delay then u64 (r.target * 3) else r.delay in
      u64 (current_time + u64 (u64 (delay + 2 ^ 64 - r.target) * nsec_per_sec) / rate)

  -- A next time that is more than a second away, before or after, is set to one period.
  unfoldable pub check_time : ℕ → State Double → State Double
  check_time current_time s =
      if ltb (u64 (current_time + nsec_per_sec)) s.next_time
        || ltb (u64 (s.next_time + nsec_per_sec)) current_time
      then record s {
        next_time = to_u64 (
            add (of_ℕ current_time)
              (quot (mul (of_ℕ s.threshold) (of_ℕ nsec_per_sec)) (of_ℕ s.rate)));
      }
      else s
