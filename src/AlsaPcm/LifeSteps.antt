-- ===== src/AlsaPcm/LifeSteps.antt =====
-- Every operation of check-my-alsa/alsa-pcm.c and alsa-pcm-sink.c keeps a stream sound.
use overthinkin.Base.{
  true, false, not, ltb, if◌then◌else◌, ℤ, pos, is_neg, Os, ◌≡◌, ◌∙◌, refl, arith, ◌⊎◌, inl, inr,
  Bool-cases,
}
use overthinkin.AlsaPcm.Doubles.{Doubles}
use overthinkin.AlsaPcm.State.{
  State, Call, snd_pcm_close, close_timer, Answer, History, M, pure, call, get, modify, check_res,
  neg_eio, ◌>>=◌, ◌>>◌,
}
use overthinkin.AlsaPcm.Programs.{on_branch, on_test}
use overthinkin.AlsaPcm.Setup.{open_timer, spa_alsa_open}
use overthinkin.AlsaPcm.Stream.{do_start, do_prepare}
use overthinkin.AlsaPcm.Cycle.{
  spa_alsa_pause, spa_alsa_prepare, arm, spa_alsa_start, spa_alsa_close, pcm_sink_stop,
}
use overthinkin.AlsaPcm.Quiet.{
  free, both, holding, set_timeout-Quiet, do_drop-Quiet, do_start-Quiet, do_prepare-Quiet,
}
use overthinkin.AlsaPcm.Life.{Sound, SoundAfter, Quiet-Sound}

pub open-Sound :
    {D : Type 0} (os : Os Call Answer) (s : State D) (t : History)
    → Sound s t
    → SoundAfter (spa_alsa_open os s t)
unfolding spa_alsa_open open_timer holding
open-Sound os s t h = ground arith

module _ (d : Doubles) (os : Os Call Answer) where
  open d use {Double}

  pub pause-Sound :
      (s : State Double) (t : History) → Sound s t → SoundAfter (spa_alsa_pause d os s t)
  unfolding spa_alsa_pause
  pause-Sound s t h = grind (arith, set_timeout-Quiet, do_drop-Quiet)

  -- A pause leaves the stream stopped.
  pub pause_stopped :
      (s : State Double) (t : History)
      → ((spa_alsa_pause d os s t).1.started ≡ false)
        × ((spa_alsa_pause d os s t).1.opened ≡ s.opened)
  unfolding spa_alsa_pause
  pause_stopped s t = grind (arith, set_timeout-Quiet, do_drop-Quiet)

  -- What a stopped stream is like, once it has been asked to prepare.
  abbrev Ready : ℤ × State Double × History → Type 0
  Ready (r, s, t) =
      Sound s t
      × (s.started ≡ false)
      × ((is_neg r ≡ true) ⊎ (s.opened ≡ true) × (s.prepared ≡ true))

  prepared-Ready :
      (s : State Double) (t : History)
      → Sound s t
      → s.started ≡ false
      → s.opened ≡ true
      → Ready (
          check_res
            (do_prepare d)
            (modify (λ s'. record s' { prepared = true }) >> pure (pos 0))
            os
            s
            t)
  prepared-Ready s t h e o =
      let q = do_prepare d os s t in
      let (a, b, c, f) = do_prepare-Quiet d os s t in
      let i : holding q.2 ≡ (if q.1.opened then both else free) = rw (a, b) (h.0) in
      let st : q.1.started ≡ false = c ∙ e in
      on_test Ready (is_neg q.0) (pure q.0)
        (modify (λ s'. record s' { prepared = true }) >> pure (pos 0)) os q.1 q.2
        (λ bad. ((i, inl st), st, inl bad)) (λ good. ((i, inl st), st, inr (b ∙ o, refl)))

  -- spa_alsa_prepare, of a stream that is open.
  paused-Ready :
      (s : State Double) (t : History)
      → Sound s t
      → s.started ≡ false
      → s.opened ≡ true
      → Ready (
          (get >>= λ s'.
          if s'.prepared
          then pure (pos 0)
          else check_res
              (do_prepare d)
              (modify (λ s''. record s'' { prepared = true }) >> pure (pos 0)))
            os s t)
  paused-Ready s t h e o =
      on_test Ready s.prepared (pure (pos 0))
        (check_res (do_prepare d) (modify (λ s'. record s' { prepared = true }) >> pure (pos 0))) os
        s t (λ p. (h, e, inr (o, p))) (λ _. prepared-Ready s t h e o)

  pub prepare-Ready :
      (s : State Double) (t : History)
      → Sound s t
      → s.opened ≡ true
      → Ready (spa_alsa_prepare d os s t)
  unfolding spa_alsa_prepare
  prepare-Ready s t h o =
      let p = spa_alsa_pause d os s t in
      let k = pause_stopped s t in
      let ask : M Double ℤ = get >>= λ s'.
      if s'.prepared
      then pure (pos 0)
      else check_res (do_prepare d)
          (modify (λ s''. record s'' { prepared = true }) >> pure (pos 0)) in
      on_test Ready (not s.opened) (pure neg_eio) (spa_alsa_pause d >> ask) os s t
        (λ shut. absurd (ground arith))
        (λ _. paused-Ready p.1 p.2 (pause-Sound s t h) (k.0) (k.1 ∙ o))

  unopened-Sound :
      (s : State Double) (t : History)
      → Sound s t
      → s.opened ≡ false
      → SoundAfter (spa_alsa_prepare d os s t)
  unfolding spa_alsa_prepare
  unopened-Sound s t h shut =
      let ask : M Double ℤ = get >>= λ s'.
      if s'.prepared
      then pure (pos 0)
      else check_res (do_prepare d)
          (modify (λ s''. record s'' { prepared = true }) >> pure (pos 0)) in
      on_test SoundAfter (not s.opened) (pure neg_eio) (spa_alsa_pause d >> ask) os s t (λ _. h)
        (λ o. absurd (ground arith))

  pub prepare-Sound :
      (s : State Double) (t : History) → Sound s t → SoundAfter (spa_alsa_prepare d os s t)
  prepare-Sound s t h = elim (Bool-cases s.opened) [
    | inl o ↦ (prepare-Ready s t h o).0
    | inr shut ↦ unopened-Sound s t h shut
  ]

  arm-Sound :
      (s : State Double) (t : History)
      → Sound s t
      → s.opened ≡ true
      → s.prepared ≡ true
      → SoundAfter (arm d os s t)
  unfolding arm holding
  arm-Sound s t h o p = grind (arith, set_timeout-Quiet)

  started-Sound :
      (s : State Double) (t : History)
      → Sound s t
      → s.opened ≡ true
      → s.prepared ≡ true
      → SoundAfter (
          (get >>= λ s'. if ltb 0 s'.start_delay then check_res do_start (arm d) else arm d) os s t)
  started-Sound s t h o p =
      let q = do_start os s t in
      let k = do_start-Quiet os s t in
      let i = Quiet-Sound s t q k h in
      on_branch SoundAfter (ltb 0 s.start_delay) (check_res do_start (arm d)) (arm d) os s t
        (on_branch SoundAfter (is_neg q.0) (pure q.0) (arm d) os q.1 q.2 i
          (arm-Sound q.1 q.2 i (k.1 ∙ o) (k.3 ∙ p)))
        (arm-Sound s t h o p)

  Ready-Sound :
      (r : ℤ × State Double × History)
      → Ready r
      → is_neg r.0 ≡ false
      → SoundAfter (
          (get >>= λ s'. if ltb 0 s'.start_delay then check_res do_start (arm d) else arm d) os r.1
            r.2)
  Ready-Sound r (h, e, inl bad) good = absurd (ground arith)
  Ready-Sound r (h, e, inr (o, p)) good = started-Sound r.1 r.2 h o p

  pub start-Sound :
      (s : State Double) (t : History) → Sound s t → SoundAfter (spa_alsa_start d os s t)
  unfolding spa_alsa_start
  start-Sound s t h =
      let r = spa_alsa_prepare d os s t in
      let run : M Double ℤ =
        get >>= λ s'. if ltb 0 s'.start_delay then check_res do_start (arm d) else arm d in
      let ready = check_res (spa_alsa_prepare d) run in
      on_branch SoundAfter s.started (pure (pos 0)) (if not s.opened then pure neg_eio else ready)
        os s t h
        (on_test SoundAfter (not s.opened) (pure neg_eio) ready os s t (λ _. h)
          (λ o.
            let k = prepare-Ready s t h (ground arith) in
            on_test SoundAfter (is_neg r.0) (pure r.0) run os r.1 r.2 (λ _. k.0)
              (λ good. Ready-Sound r k good)))

  closed-Sound :
      (s : State Double) (t : History)
      → Sound s t
      → s.started ≡ false
      → s.opened ≡ true
      → SoundAfter (
          (call snd_pcm_close >>= λ c.
          call close_timer >> modify (λ s'. record s' { opened = false }) >> pure c.ret)
            os s t)
  unfolding holding
  closed-Sound s t h e o = ground arith

  pub close-Sound :
      (s : State Double) (t : History) → Sound s t → SoundAfter (spa_alsa_close d os s t)
  unfolding spa_alsa_close
  close-Sound s t h =
      let p = spa_alsa_pause d os s t in
      let k = pause_stopped s t in
      on_test SoundAfter (not s.opened) (pure (pos 0))
        (spa_alsa_pause d
          >> (call snd_pcm_close >>= λ c.
              call close_timer >> modify (λ s'. record s' { opened = false }) >> pure c.ret))
        os s t (λ _. h) (λ o. closed-Sound p.1 p.2 (pause-Sound s t h) (k.0) (k.1 ∙ ground arith))

  pub stop-Sound :
      (s : State Double) (t : History) → Sound s t → SoundAfter (pcm_sink_stop d os s t)
  unfolding pcm_sink_stop
  stop-Sound s t h = let p = spa_alsa_pause d os s t in close-Sound p.1 p.2 (pause-Sound s t h)

  close_shut :
      (s : State Double) (t : History)
      → s.started ≡ false
      → ((spa_alsa_close d os s t).1.opened ≡ false) × ((spa_alsa_close d os s t).1.started ≡ false)
  unfolding spa_alsa_close
  close_shut s t still =
      let k = pause_stopped s t in
      on_test (λ r. (r.1.opened ≡ false) × (r.1.started ≡ false)) (not s.opened) (pure (pos 0))
        (spa_alsa_pause d
          >> (call snd_pcm_close >>= λ c.
              call close_timer >> modify (λ s'. record s' { opened = false }) >> pure c.ret))
        os s t (λ shut. (ground arith, still)) (λ _. (refl, k.0))

  pub stop_shut :
      (s : State Double) (t : History)
      → ((pcm_sink_stop d os s t).1.opened ≡ false) × ((pcm_sink_stop d os s t).1.started ≡ false)
  unfolding pcm_sink_stop
  stop_shut s t = let p = spa_alsa_pause d os s t in close_shut p.1 p.2 ((pause_stopped s t).0)
