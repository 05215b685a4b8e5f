-- ===== src/AlsaPcm/Quiet.antt =====
-- The functions of check-my-alsa/alsa-pcm.c that open and close nothing.
use overthinkin.Base.{u32, ℕ, zero, suc, ◌+◌, [], ◌∷◌, if◌then◌else◌, ℤ, is_neg, Os, ◌≡◌, arith}
use overthinkin.AlsaPcm.Doubles.{Doubles}
use overthinkin.AlsaPcm.State.{
  State, PcmState, pcm_xrun, pcm_suspended, pcm_other, Call, snd_pcm_open, snd_pcm_close,
  timerfd_create, close_timer, snd_pcm_status, Answer, History, pure, ◌>>=◌,
}
use overthinkin.AlsaPcm.Programs.{on_branch}
use overthinkin.AlsaPcm.Setup.{set_swparams}
use overthinkin.AlsaPcm.Stream.{
  set_timeout, spa_alsa_silence, do_drop, do_start, alsa_avail, resume_loop, count_xrun,
  non_negative, use_htimestamp, with_htimestamp, prepared_state, do_prepare, restart, recover_from,
  alsa_recover, avail_again, avail_recovered, get_avail, get_status,
}

-- The device and the timer, as the calls have left them; `broken` if one of them was opened twice,
-- or closed when it was not open.
pub data Holding : Type 0 where
  free pcm_only both timer_only broken : Holding

abbrev pcm_got : Holding → Holding
pcm_got free = pcm_only
pcm_got _ = broken

abbrev timer_got : Holding → Holding
timer_got pcm_only = both
timer_got _ = broken

abbrev pcm_gone : Holding → Holding
pcm_gone pcm_only = free
pcm_gone both = timer_only
pcm_gone _ = broken

abbrev timer_gone : Holding → Holding
timer_gone timer_only = free
timer_gone _ = broken

unfoldable pub holding : History → Holding
holding [] = free
holding ((snd_pcm_open name, a) ∷ t) = if is_neg a.ret then holding t else pcm_got (holding t)
holding ((timerfd_create, a) ∷ t) = if is_neg a.ret then holding t else timer_got (holding t)
holding ((snd_pcm_close, a) ∷ t) = pcm_gone (holding t)
holding ((close_timer, a) ∷ t) = timer_gone (holding t)
holding (_ ∷ t) = holding t

-- Nothing was opened or closed, and the stream is as ready as before.
abbrev pub Quiet : {D A : Type 0} → State D → History → A × State D × History → Type 0
Quiet s t (r, s', t') =
    (holding t' ≡ holding t)
    × (s'.opened ≡ s.opened)
    × (s'.started ≡ s.started)
    × (s'.prepared ≡ s.prepared)

resume_loop-Quiet :
    {D : Type 0} (n : ℕ) (res : ℤ) (os : Os Call Answer) (s : State D) (t : History)
    → Quiet s t (resume_loop n res os s t)
unfolding resume_loop holding
resume_loop-Quiet zero res os s t = ground arith
resume_loop-Quiet {D} (suc n) res os s t = grind (arith, resume_loop-Quiet {D = D} n)

module _ {D : Type 0} (os : Os Call Answer) where
  pub set_timeout-Quiet :
      (time : ℕ) (s : State D) (t : History) → Quiet s t (set_timeout time os s t)
  unfolding set_timeout holding
  set_timeout-Quiet time s t = ground arith

  pub do_drop-Quiet : (s : State D) (t : History) → Quiet s t (do_drop os s t)
  unfolding do_drop holding
  do_drop-Quiet s t = ground arith

  pub do_start-Quiet : (s : State D) (t : History) → Quiet s t (do_start os s t)
  unfolding do_start holding
  do_start-Quiet s t = ground arith

  swparams-Quiet : (s : State D) (t : History) → Quiet s t (set_swparams os s t)
  unfolding set_swparams holding
  swparams-Quiet s t = ground arith

  silence-Quiet : (n : ℕ) (s : State D) (t : History) → Quiet s t (spa_alsa_silence n os s t)
  unfolding spa_alsa_silence holding
  silence-Quiet n s t = ground arith

  count_xrun-Quiet : (n : ℕ) (s : State D) (t : History) → Quiet s t (count_xrun n os s t)
  unfolding count_xrun holding
  count_xrun-Quiet n s t = ground arith

  with_htimestamp-Quiet :
      (now n : ℕ) (s : State D) (t : History) → Quiet s t (with_htimestamp now n os s t)
  unfolding with_htimestamp use_htimestamp holding
  with_htimestamp-Quiet now n s t = ground arith

module _ (d : Doubles) (os : Os Call Answer) where
  open d use {Double}

  pub do_prepare-Quiet : (s : State Double) (t : History) → Quiet s t (do_prepare d os s t)
  unfolding do_prepare prepared_state holding
  do_prepare-Quiet s t = grind (arith, swparams-Quiet, silence-Quiet)

  restart-Quiet : (s : State Double) (t : History) → Quiet s t (restart d os s t)
  unfolding restart
  restart-Quiet s t = grind (arith, do_drop-Quiet, do_prepare-Quiet, do_start-Quiet)

  recover_from-Quiet :
      (p : PcmState) (a : Answer) (s : State Double) (t : History)
      → Quiet s t (recover_from d p a os s t)
  unfolding recover_from
  recover_from-Quiet pcm_xrun a s t = grind (arith, count_xrun-Quiet, restart-Quiet)
  recover_from-Quiet pcm_suspended a s t =
      let r = resume_loop 5 a.ret os s t in
      let k = resume_loop-Quiet 5 a.ret os s t in
      let h = restart-Quiet r.1 r.2 in
      on_branch (Quiet s t) (is_neg r.0) (restart d) (pure r.0) os r.1 r.2 (ground arith) k
  recover_from-Quiet pcm_other a s t = restart-Quiet s t

  pub alsa_recover-Quiet : (s : State Double) (t : History) → Quiet s t (alsa_recover d os s t)
  unfolding alsa_recover holding
  alsa_recover-Quiet s t =
      let s₁ : State Double = record s { recoveries = u32 (s.recoveries + 1) } in
      let a = os t snd_pcm_status in
      on_branch (Quiet s t) (is_neg a.ret) (restart d) (recover_from d a.pcm_state a) os s₁
        ((snd_pcm_status, a) ∷ t) (restart-Quiet s₁ _) (recover_from-Quiet a.pcm_state a s₁ _)

  avail_again-Quiet : (s : State Double) (t : History) → Quiet s t (avail_again d os s t)
  unfolding avail_again alsa_avail holding
  avail_again-Quiet s t = ground arith

  avail_recovered-Quiet :
      (now : ℕ) (s : State Double) (t : History) → Quiet s t (avail_recovered d now os s t)
  unfolding avail_recovered
  avail_recovered-Quiet now s t =
      let r = alsa_recover d os s t in
      let h = alsa_recover-Quiet s t in
      let q = avail_again d os r.1 r.2 in
      let h' = avail_again-Quiet r.1 r.2 in
      let h'' = with_htimestamp-Quiet os now q.0 q.1 q.2 in
      on_branch (Quiet s t) (is_neg r.0) (pure (r.0, 0)) (avail_again d >>= with_htimestamp now) os
        r.1 r.2 h (ground arith)

  get_avail-Quiet : (now : ℕ) (s : State Double) (t : History) → Quiet s t (get_avail d now os s t)
  unfolding get_avail alsa_avail holding
  get_avail-Quiet now s t =
      let q = alsa_avail os s t in
      let e : holding q.2 ≡ holding t = ground arith in
      let h = avail_recovered-Quiet now s q.2 in
      let k = with_htimestamp-Quiet os now (non_negative q.0.ret) s q.2 in
      on_branch (Quiet s t) (is_neg q.0.ret) (avail_recovered d now)
        (with_htimestamp now (non_negative q.0.ret)) os s q.2 (ground arith) (ground arith)

  pub get_status-Quiet :
      (now : ℕ) (s : State Double) (t : History) → Quiet s t (get_status d now os s t)
  unfolding get_status
  get_status-Quiet now s t = grind (arith, get_avail-Quiet)
