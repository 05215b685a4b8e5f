-- ===== src/AlsaPcm/Format.antt =====
-- What spa_alsa_set_format of check-my-alsa/alsa-pcm.c has set up when it succeeds.
use overthinkin.Base.{
  ℕ, ◌+◌, ◌/◌, ◌≤◌, ◌<◌, Bool, true, false, ◌||◌, ◌==◌, if◌then◌else◌, ℤ, pos, is_neg, ◌==ℤ◌, ◌≡◌,
  refl, arith, ◌⊎◌, inl, inr,
}
use overthinkin.AlsaPcm.State.{
  State, set_access_mmap, set_access_rw, set_channels_near, set_rate_near, set_format,
  physical_width, is_batch, can_disable_period_wakeup, set_period_wakeup, get_period_size_min,
  set_period_size_near, set_buffer_size_min, set_buffer_size_near, get_buffer_size_max, hw_params,
  Answer, History, M, pure, call, get, modify, check, neg_eio, ◌>>=◌, ◌>>◌,
}
use overthinkin.AlsaPcm.Programs.{
  Ends, Ends-test, Ends-modify, Ends-call, Ends-get, Ends-check, Ends-pure,
}
use overthinkin.AlsaPcm.Setup.{
  recalc_headroom, with_largest, with_buffer, with_delays, take_buffer, near_buffer, least_buffer,
  set_buffer, with_period, take_period, near_period, set_period, with_format, no_wakeups,
  keep_format, negotiated, negotiate, fall_back, set_access,
}
use overthinkin.AlsaPcm.Quiet.{holding}
use overthinkin.AlsaPcm.Life.{Sound}

module _ {D : Type 0} where
  -- The device is open; then with channels and a rate; then with a period too.
  abbrev pub Opened : State D → History → Type 0
  Opened s t = Sound s t × (s.opened ≡ true)

  abbrev Tuned : State D → History → Type 0
  Tuned s t = Opened s t × (0 < s.channels) × (0 < s.rate) × (s.have_format ≡ true)

  abbrev Timed : State D → History → Type 0
  Timed s t = Tuned s t × (0 < s.period_frames)

  -- The buffer has frames, the delays are bounded by half of it, and the headroom leaves room for a
  -- period, or is 0 if the buffer has none.
  abbrev pub Buffered : State D → Type 0
  Buffered s =
      (0 < s.buffer_frames)
      × (s.min_delay ≡ 0)
      × (s.max_delay ≡ s.buffer_frames / 2)
      × ((s.headroom + s.threshold ≤ s.buffer_frames)
          ⊎ (s.headroom ≡ 0) × (s.buffer_frames < s.threshold))

  -- All that a format needs.
  abbrev pub WellSet : State D → Type 0
  WellSet s =
      (s.opened ≡ true)
      × (s.have_format ≡ true)
      × (0 < s.channels)
      × (0 < s.rate)
      × (0 < s.period_frames)
      × Buffered s

  -- At the end: sound, and well set if there was no error.
  abbrev pub Formatted : ℤ × State D × History → Type 0
  Formatted (r, s, t) = Sound s t × ((is_neg r ≡ true) ⊎ WellSet s)

  -- An error ends a program where the stream is sound.
  pub failed :
      (a : Answer) (s : State D) (t : History)
      → Sound s t
      → is_neg a.ret ≡ true
      → Formatted (a.ret, s, t)
  failed a s t h e = (h, inl e)

  abbrev Ended : State D → History → Type 0
  Ended s t = Sound s t × WellSet s

  Measured : ℕ → State D → History → Type 0
  Measured n s t = Timed s t × (s.buffer_frames ≡ n)

  headroom-Buffered :
      (s : State D) (n : ℕ)
      → 0 < n
      → s.buffer_frames ≡ n
      → Buffered (
          recalc_headroom
            (record s { max_delay = n / 2; min_delay = 0; start_delay = s.default_start_delay }))
  unfolding recalc_headroom
  headroom-Buffered s n p e = ground arith

  limits-Ended :
      (n : ℕ)
      → (n == 0) ≡ false
      → (s : State D) (t : History) → Measured n s t
      → Ended
          (recalc_headroom
            (record s { max_delay = n / 2; min_delay = 0; start_delay = s.default_start_delay }))
          t
  unfolding recalc_headroom Measured
  limits-Ended n e s t h =
      let b = headroom-Buffered s n (ground arith) (h.1) in
      let q : Tuned s t = h.0.0 in (q.0.0, (q.0.1, q.3, q.1, q.2, h.0.1, b))

  take_buffer-Formatted : (n : ℕ) → Ends (Measured n) Formatted (take_buffer n)
  unfolding take_buffer holding Measured
  take_buffer-Formatted n =
      Ends-test (Measured n) Formatted (n == 0) (pure neg_eio)
        (modify (with_delays n) >> check hw_params (λ _. pure (pos 0)))
        (λ _. Ends-pure (Measured n) Formatted neg_eio (λ s t h. (h.0.0.0.0, inl refl)))
        (λ e.
          Ends-modify (Measured n) Formatted Ended (with_delays n)
            (check hw_params (λ _. pure (pos 0))) (limits-Ended n e)
            (Ends-check Ended Formatted hw_params (λ _. pure (pos 0)) (λ a s t h. h)
              (λ a s t h f. failed a s t (h.0) f)
              (λ _. Ends-pure Ended Formatted (pos 0) (λ s t h. (h.0, inr (h.1))))))

  near_buffer-Formatted : (n : ℕ) → Ends Timed Formatted (near_buffer n)
  unfolding near_buffer holding Measured
  near_buffer-Formatted n =
      Ends-check Timed Formatted (set_buffer_size_near n)
        (λ a. modify (with_buffer a.value) >> take_buffer a.value) (λ a s t h. h)
        (λ a s t h e. failed a s t (h.0.0.0) e)
        (λ a.
          Ends-modify Timed Formatted (Measured a.value) (with_buffer a.value) (take_buffer a.value)
            (λ s t h. (h, refl)) (take_buffer-Formatted a.value))

  least_buffer-Formatted : (s : State D) → Ends Timed Formatted (least_buffer s)
  unfolding least_buffer holding
  least_buffer-Formatted s =
      Ends-check Timed Formatted (set_buffer_size_min s.buffer_frames)
        (λ a. modify (with_buffer a.value) >> near_buffer a.value) (λ a s t h. h)
        (λ a s t h e. failed a s t (h.0.0.0) e)
        (λ a.
          Ends-modify Timed Formatted Timed (with_buffer a.value) (near_buffer a.value) (λ s t h. h)
            (near_buffer-Formatted a.value))

  buffer-Formatted : Ends Timed Formatted set_buffer
  unfolding set_buffer holding
  buffer-Formatted =
      Ends-check Timed Formatted get_buffer_size_max
        (λ a. modify (with_largest a.value) >> (get >>= least_buffer)) (λ a s t h. h)
        (λ a s t h e. failed a s t (h.0.0.0) e)
        (λ a.
          Ends-modify Timed Formatted Timed (with_largest a.value) (get >>= least_buffer)
            (λ s t h. h) (Ends-get Timed Formatted least_buffer least_buffer-Formatted))

  take_period-Formatted : (n : ℕ) → Ends Tuned Formatted (take_period n)
  unfolding take_period
  take_period-Formatted n =
      Ends-test Tuned Formatted (n == 0) (pure neg_eio) (modify (with_period n) >> set_buffer)
        (λ _. Ends-pure Tuned Formatted neg_eio (λ s t h. (h.0.0, inl refl)))
        (λ e.
          Ends-modify Tuned Formatted Timed (with_period n) set_buffer (λ s t h. (h, ground arith))
            buffer-Formatted)

  near_period-Formatted : (n : ℕ) → Ends Tuned Formatted (near_period n)
  unfolding near_period holding
  near_period-Formatted n =
      Ends-check Tuned Formatted (set_period_size_near n) (λ a. take_period a.value) (λ a s t h. h)
        (λ a s t h e. failed a s t (h.0.0) e) (λ a. take_period-Formatted a.value)

  period-Formatted : (n : ℕ) → Ends Tuned Formatted (set_period n)
  unfolding set_period holding
  period-Formatted n =
      Ends-check Tuned Formatted get_period_size_min
        (λ a. modify (λ s. record s { period_size_min = a.value }) >> near_period n) (λ a s t h. h)
        (λ a s t h e. failed a s t (h.0.0) e)
        (λ a.
          Ends-modify Tuned Formatted Tuned (λ s. record s { period_size_min = a.value })
            (near_period n) (λ s t h. h) (near_period-Formatted n))

  no_wakeups-Formatted : (n : ℕ) → Ends Tuned Formatted (no_wakeups n)
  unfolding no_wakeups holding
  no_wakeups-Formatted n =
      Ends-call Tuned Formatted can_disable_period_wakeup
        (λ a. if a.ret ==ℤ pos 0 then set_period n else check set_period_wakeup (λ _. set_period n))
        (λ a s t h. h)
        (λ a.
          Ends-test Tuned Formatted (a.ret ==ℤ pos 0) (set_period n)
            (check set_period_wakeup (λ _. set_period n)) (λ _. period-Formatted n)
            (λ _.
              Ends-check Tuned Formatted set_period_wakeup (λ _. set_period n) (λ b s t h. h)
                (λ b s t h e. failed b s t (h.0.0) e) (λ _. period-Formatted n)))

  keep-Formatted : (f : ℤ) (c r n : ℕ) → 0 < c → 0 < r → Ends Opened Formatted (keep_format f c r n)
  unfolding keep_format holding
  keep-Formatted f c r n p q =
      Ends-call Opened Formatted (physical_width f)
        (λ w. call is_batch >>= λ b. modify (with_format f c r w b) >> no_wakeups n) (λ a s t h. h)
        (λ w.
          Ends-call Opened Formatted is_batch (λ b. modify (with_format f c r w b) >> no_wakeups n)
            (λ a s t h. h)
            (λ b.
              Ends-modify Opened Formatted Tuned (with_format f c r w b) (no_wakeups n)
                (λ s t h. (h, p, q, refl)) (no_wakeups-Formatted n)))

  negotiated-Formatted : (f : ℤ) (c r n : ℕ) → Ends Opened Formatted (negotiated f c r n)
  unfolding negotiated
  negotiated-Formatted f c r n =
      Ends-test Opened Formatted (c == 0 || r == 0) (pure neg_eio) (keep_format f c r n)
        (λ _. Ends-pure Opened Formatted neg_eio (λ s t h. (h.0, inl refl)))
        (λ e. keep-Formatted f c r n (ground arith) (ground arith))

  pub negotiate-Formatted : (r c : ℕ) (f : ℤ) (n : ℕ) → Ends Opened Formatted (negotiate r c f n)
  unfolding negotiate holding
  negotiate-Formatted r c f n =
      Ends-check Opened Formatted (set_format f)
        (λ _.
          check (set_channels_near c)
            (λ a. check (set_rate_near r) (λ b. negotiated f a.value b.value n)))
        (λ a s t h. h) (λ a s t h e. failed a s t (h.0) e)
        (λ _.
          Ends-check Opened Formatted (set_channels_near c)
            (λ a. check (set_rate_near r) (λ b. negotiated f a.value b.value n)) (λ a s t h. h)
            (λ a s t h e. failed a s t (h.0) e)
            (λ a.
              Ends-check Opened Formatted (set_rate_near r) (λ b. negotiated f a.value b.value n)
                (λ b s t h. h) (λ b s t h e. failed b s t (h.0) e)
                (λ b. negotiated-Formatted f a.value b.value n)))

  mmap_flags :
      (b : Bool) (s : State D) (t : History)
      → Opened s t
      → Opened (if b then record s { use_mmap = false } else s) t
  mmap_flags true s t h = h
  mmap_flags false s t h = h

  fall_back-Formatted :
      (m : M D ℤ) → Ends Opened Formatted m → (s : State D) → Ends Opened Formatted (fall_back m s)
  unfolding fall_back holding
  fall_back-Formatted m p s =
      Ends-test Opened Formatted s.use_mmap m (check set_access_rw (λ _. m)) (λ _. p)
        (λ _.
          Ends-check Opened Formatted set_access_rw (λ _. m) (λ a s' t h. h)
            (λ a s' t h e. failed a s' t (h.0) e) (λ _. p))

  pub access-Formatted :
      (m : M D ℤ) → Ends Opened Formatted m → Ends Opened Formatted (set_access m)
  unfolding set_access holding
  access-Formatted m p =
      Ends-call Opened Formatted set_access_mmap
        (λ a.
          modify (λ s. if is_neg a.ret then record s { use_mmap = false } else s)
          >> (get >>= fall_back m))
        (λ a s t h. h)
        (λ a.
          Ends-modify Opened Formatted Opened
            (λ s. if is_neg a.ret then record s { use_mmap = false } else s) (get >>= fall_back m)
            (mmap_flags (is_neg a.ret))
            (Ends-get Opened Formatted (fall_back m) (fall_back-Formatted m p)))
