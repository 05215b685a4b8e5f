-- ===== src/AlsaPcm/Reach.antt =====
-- The life of a stream as a sequence of operations of check-my-alsa/alsa-pcm.c and
-- alsa-pcm-sink.c, in any order.
use overthinkin.Base.{
  u32, ℕ, ◌<◌, true, false, [], ◌∷◌, take, Bytes, ℤ, is_neg, ◌==ℤ◌, minus_one, Os, ◌≡◌, ◌∙◌, refl,
  arith, inl,
}
use overthinkin.AlsaPcm.Doubles.{Doubles}
use overthinkin.AlsaPcm.State.{
  State, Call, hw_params_any, set_rate_resample, snd_pcm_open, timerfd_create, Answer, History, M,
  pure, check, check_res, neg_einval,
}
use overthinkin.AlsaPcm.Programs.{Ends-check, on_test}
use overthinkin.AlsaPcm.Setup.{
  open_timer, spa_alsa_open, negotiate, set_access, spa_alsa_set_format,
}
use overthinkin.AlsaPcm.Init.{alsa_state_init}
use overthinkin.AlsaPcm.Cycle.{
  spa_alsa_pause, spa_alsa_prepare, spa_alsa_start, spa_alsa_close, pcm_sink_open, pcm_sink_iterate,
  pcm_sink_stop,
}
use overthinkin.AlsaPcm.Quiet.{free, holding}
use overthinkin.AlsaPcm.Life.{Sound, SoundAfter, Quiet-Sound, iterate-Quiet}
use overthinkin.AlsaPcm.LifeSteps.{
  open-Sound, pause-Sound, prepare-Sound, start-Sound, close-Sound, stop-Sound, stop_shut,
}
use overthinkin.AlsaPcm.Format.{Opened, Formatted, negotiate-Formatted, access-Formatted, failed}

-- timerfd_create sets errno when it fails.
abbrev pub SetsErrno : Os Call Answer → Type 0
SetsErrno os =
    (t : History) → is_neg (os t timerfd_create).ret ≡ true → 0 < (os t timerfd_create).errno

module _ {D : Type 0} (os : Os Call Answer) (errnos : SetsErrno os) where
  open_opened :
      (s : State D) (t : History)
      → Sound s t
      → is_neg (spa_alsa_open os s t).0 ≡ false
      → (spa_alsa_open os s t).1.opened ≡ true
  unfolding spa_alsa_open open_timer
  open_opened s t h e =
      let o = os t (snd_pcm_open (take 63 s.name)) in
      let f = errnos ((snd_pcm_open (take 63 s.name), o) ∷ t) in grind arith

  rest-Formatted :
      (r c : ℕ) (f : ℤ) (n : ℕ) (s : State D) (t : History)
      → Opened s t
      → Formatted (
          check hw_params_any
            (λ _. check set_rate_resample (λ _. set_access (negotiate r c f n)))
            os
            s
            t)
  unfolding holding
  rest-Formatted r c f n s t h =
      (Ends-check Opened Formatted hw_params_any
          (λ _. check set_rate_resample (λ _. set_access (negotiate r c f n))) (λ a s' t' k. k)
          (λ a s' t' k e. failed a s' t' (k.0) e)
          (λ _.
            Ends-check Opened Formatted set_rate_resample (λ _. set_access (negotiate r c f n))
              (λ a s' t' k. k) (λ a s' t' k e. failed a s' t' (k.0) e)
              (λ _. access-Formatted (negotiate r c f n) (negotiate-Formatted r c f n)))).run
        os s t h

-- From a sound stream, and whatever the device answers, spa_alsa_set_format ends with a stream that
-- is sound; and where it gives no error the device is open, with channels, a rate, a period and a
-- buffer of at least one frame each, delays bounded by half of the buffer, and a headroom that
-- leaves room for a period wherever the buffer has room for one. timerfd_create is to set errno
-- when it fails.
pub set_format-Formatted :
    {D : Type 0} (os : Os Call Answer) (r c : ℕ) (f : ℤ) (n : ℕ) (s : State D) (t : History)
    → SetsErrno os
    → Sound s t
    → Formatted (spa_alsa_set_format r c f n os s t)
unfolding spa_alsa_set_format
set_format-Formatted {D} os r c f n s t errnos h =
    let o = spa_alsa_open os s t in
    let k : SoundAfter o = open-Sound os s t h in
    let rest : M D ℤ =
      check hw_params_any (λ _. check set_rate_resample (λ _. set_access (negotiate r c f n))) in
    on_test Formatted (f ==ℤ minus_one) (pure neg_einval) (check_res spa_alsa_open rest) os s t
      (λ _. (h, inl refl))
      (λ _.
        on_test Formatted (is_neg o.0) (pure o.0) rest os o.1 o.2 (λ e. (k, inl e))
          (λ e. rest-Formatted os errnos r c f n o.1 o.2 (k, open_opened os errnos s t h e)))

module _ (d : Doubles) (os : Os Call Answer) where
  open d use {Double}

  -- One operation, of whatever result, from one state and history to the next.
  pub data Step : State Double → History → State Double → History → Type 0 where
    opening :
        (dev : Bytes) (r c : ℕ) (f : ℤ) (n : ℕ) (s : State Double) (t : History)
        → Step s t (pcm_sink_open d dev r c f n os s t).1 (pcm_sink_open d dev r c f n os s t).2
    preparing :
        (s : State Double) (t : History)
        → Step s t (spa_alsa_prepare d os s t).1 (spa_alsa_prepare d os s t).2
    starting :
        (s : State Double) (t : History)
        → Step s t (spa_alsa_start d os s t).1 (spa_alsa_start d os s t).2
    iterating :
        (ms : ℕ) (s : State Double) (t : History)
        → Step s t (pcm_sink_iterate d ms os s t).1 (pcm_sink_iterate d ms os s t).2
    pausing :
        (s : State Double) (t : History)
        → Step s t (spa_alsa_pause d os s t).1 (spa_alsa_pause d os s t).2
    closing :
        (s : State Double) (t : History)
        → Step s t (spa_alsa_close d os s t).1 (spa_alsa_close d os s t).2
    stopping :
        (s : State Double) (t : History)
        → Step s t (pcm_sink_stop d os s t).1 (pcm_sink_stop d os s t).2

  -- Any number of operations.
  pub data Steps : State Double → History → State Double → History → Type 0 where
    rest : (s : State Double) (t : History) → Steps s t s t
    then_step :
        (s : State Double) (t : History) (s₁ : State Double) (t₁ : History) (s₂ : State Double)
        (t₂ : History)
        → Steps s t s₁ t₁
        → Step s₁ t₁ s₂ t₂
        → Steps s t s₂ t₂

  opening-Sound :
      (dev : Bytes) (r c : ℕ) (f : ℤ) (n : ℕ) (s : State Double) (t : History)
      → SetsErrno os
      → Sound s t
      → SoundAfter (pcm_sink_open d dev r c f n os s t)
  unfolding pcm_sink_open
  opening-Sound dev r c f n s t errnos h = (set_format-Formatted os r c f (u32 n) _ t errnos h).0

  Step-Sound :
      (s : State Double) (t : History) (s' : State Double) (t' : History)
      → SetsErrno os
      → Step s t s' t'
      → Sound s t
      → Sound s' t'
  Step-Sound _ _ _ _ errnos (opening dev r c f n s t) h = opening-Sound dev r c f n s t errnos h
  Step-Sound _ _ _ _ errnos (preparing s t) h = prepare-Sound d os s t h
  Step-Sound _ _ _ _ errnos (starting s t) h = start-Sound d os s t h
  Step-Sound _ _ _ _ errnos (iterating ms s t) h =
      Quiet-Sound s t (pcm_sink_iterate d ms os s t) (iterate-Quiet d os ms s t) h
  Step-Sound _ _ _ _ errnos (pausing s t) h = pause-Sound d os s t h
  Step-Sound _ _ _ _ errnos (closing s t) h = close-Sound d os s t h
  Step-Sound _ _ _ _ errnos (stopping s t) h = stop-Sound d os s t h

-- In whatever order the operations of a stream are run, and whatever they answer, a stream that was
-- sound is sound after them: the device and the timer are held if it is open, both of them once,
-- and neither if it is not, nothing is closed that was not open, and what is started is open and
-- prepared. timerfd_create is to set errno when it fails.
pub Steps-Sound :
    (d : Doubles) (os : Os Call Answer) (s : State d.Double) (t : History) (s' : State d.Double)
    (t' : History)
    → SetsErrno os
    → Steps d os s t s' t'
    → Sound s t
    → Sound s' t'
Steps-Sound d os _ _ _ _ errnos (rest s t) h = h
Steps-Sound d os _ _ _ _ errnos (then_step s t s₁ t₁ s₂ t₂ steps step) h =
    Step-Sound d os s₁ t₁ s₂ t₂ errnos step (Steps-Sound d os s t s₁ t₁ errnos steps h)

fresh-Sound : {D : Type 0} (s : State D) → s.opened ≡ false → s.started ≡ false → Sound s []
unfolding holding
fresh-Sound s shut still = (rw shut refl, inl still)

free_if : {D : Type 0} (s : State D) (t : History) → Sound s t → s.opened ≡ false → holding t ≡ free
free_if s t h shut = h.0 ∙ rw shut refl

-- From alsa_state_init on, and after any operations in any order, pcm_sink_stop leaves nothing
-- behind: neither the device nor the timer is held, and the stream is neither open nor started.
-- timerfd_create is to set errno when it fails.
pub Steps-stop :
    (d : Doubles) (os : Os Call Answer) (s' : State d.Double) (t' : History)
    → SetsErrno os
    → Steps d os (alsa_state_init d) [] s' t'
    → let r = pcm_sink_stop d os s' t' in
      (holding r.2 ≡ free) × (r.1.opened ≡ false) × (r.1.started ≡ false)
unfolding alsa_state_init
Steps-stop d os s' t' errnos steps =
    let s = alsa_state_init d in
    let h : Sound s [] = fresh-Sound s refl refl in
    let k = stop-Sound d os s' t' (Steps-Sound d os s [] s' t' errnos steps h) in
    let e = stop_shut d os s' t' in
    (free_if (pcm_sink_stop d os s' t').1 (pcm_sink_stop d os s' t').2 k (e.0), e.0, e.1)
