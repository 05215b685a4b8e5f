-- ===== src/AlsaPcm/Room.antt =====
-- How much room get_avail and get_status of check-my-alsa/alsa-pcm.c report.
use overthinkin.Base.{
  u32, ℕ, zero, suc, ◌+◌, ◌*◌, ◌^◌, ◌≤◌, ◌<◌, false, not, ◌&&◌, ◌∷◌, if◌then◌else◌, ℤ, pos, is_neg,
  Os, ◌≡◌, refl, arith,
}
use overthinkin.AlsaPcm.Doubles.{Doubles}
use overthinkin.AlsaPcm.State.{
  State, PcmState, pcm_xrun, pcm_suspended, pcm_other, Call, snd_pcm_htimestamp, snd_pcm_status,
  Answer, History, pure, modify, snd_pcm_avail, snd_pcm_avail_update, ◌>>=◌, ◌>>◌,
}
use overthinkin.AlsaPcm.Programs.{on_branch}
use overthinkin.AlsaPcm.Setup.{set_swparams}
use overthinkin.AlsaPcm.Stream.{
  spa_alsa_silence, do_drop, do_start, alsa_avail, resume_loop, count_xrun, non_negative,
  use_htimestamp, with_htimestamp, Status, status_of, prepared_state, do_prepare, restart,
  recover_from, alsa_recover, avail_again, avail_recovered, get_avail, get_status,
}
use overthinkin.AlsaPcm.Recovery.{alsa_recover-Tries}

-- What the bounds of get_status rest on is the same in both states.
abbrev pub SameShape : {D : Type 0} → State D → State D → Type 0
SameShape s s' =
    (s'.threshold ≡ s.threshold)
    × (s'.headroom ≡ s.headroom)
    × (s'.min_delay ≡ s.min_delay)
    × (s'.max_delay ≡ s.max_delay)
    × (s'.buffer_frames ≡ s.buffer_frames)

resume_loop-SameShape :
    {D : Type 0} (n : ℕ) (res : ℤ) (os : Os Call Answer) (s : State D) (t : History)
    → (resume_loop n res os s t).1 ≡ s
unfolding resume_loop
resume_loop-SameShape zero res os s t = refl
resume_loop-SameShape {D} (suc n) res os s t = grind (arith, resume_loop-SameShape {D = D} n)

module _ (d : Doubles) (os : Os Call Answer) where
  open d use {Double}

  swparams_state : (s : State Double) (t : History) → (set_swparams os s t).1 ≡ s
  unfolding set_swparams
  swparams_state s t = ground arith

  silence_state : (n : ℕ) (s : State Double) (t : History) → (spa_alsa_silence n os s t).1 ≡ s
  unfolding spa_alsa_silence
  silence_state n s t = ground arith

  do_prepare-SameShape : (s : State Double) (t : History) → SameShape s (do_prepare d os s t).1
  unfolding do_prepare prepared_state
  do_prepare-SameShape s t = grind (arith, swparams_state, silence_state)

  restart-SameShape : (s : State Double) (t : History) → SameShape s (restart d os s t).1
  unfolding restart do_drop do_start
  restart-SameShape s t = grind (arith, do_prepare-SameShape)

  recover_from-SameShape :
      (p : PcmState) (a : Answer) (s : State Double) (t : History)
      → SameShape s (recover_from d p a os s t).1
  unfolding recover_from count_xrun
  recover_from-SameShape pcm_xrun a s t = grind (arith, restart-SameShape)
  recover_from-SameShape pcm_suspended a s t =
      let r = resume_loop 5 a.ret os s t in
      let e = resume_loop-SameShape 5 a.ret os s t in
      let k : SameShape s r.1 = rw e (refl, refl, refl, refl, refl) in
      let h = restart-SameShape r.1 r.2 in
      on_branch (λ x. SameShape s x.1) (is_neg r.0) (restart d) (pure r.0) os r.1 r.2 (ground arith)
        k
  recover_from-SameShape pcm_other a s t = restart-SameShape s t

  alsa_recover-SameShape : (s : State Double) (t : History) → SameShape s (alsa_recover d os s t).1
  unfolding alsa_recover
  alsa_recover-SameShape s t =
      let s₁ : State Double = record s { recoveries = u32 (s.recoveries + 1) } in
      let a = os t snd_pcm_status in
      on_branch (λ x. SameShape s x.1) (is_neg a.ret) (restart d) (recover_from d a.pcm_state a) os
        s₁ ((snd_pcm_status, a) ∷ t) (restart-SameShape s₁ _)
        (recover_from-SameShape a.pcm_state a s₁ _)

  with_htimestamp-SameShape :
      (now n : ℕ) (s : State Double) (t : History) → SameShape s (with_htimestamp now n os s t).1
  unfolding with_htimestamp use_htimestamp
  with_htimestamp-SameShape now n s t = ground arith

  avail_again-SameShape : (s : State Double) (t : History) → SameShape s (avail_again d os s t).1
  unfolding avail_again alsa_avail
  avail_again-SameShape s t = ground arith

  avail_recovered-SameShape :
      (now : ℕ) (s : State Double) (t : History) → SameShape s (avail_recovered d now os s t).1
  unfolding avail_recovered
  avail_recovered-SameShape now s t =
      let r = alsa_recover d os s t in
      let h = alsa_recover-SameShape s t in
      let q = avail_again d os r.1 r.2 in
      let h' = avail_again-SameShape r.1 r.2 in
      let h'' = with_htimestamp-SameShape now q.0 q.1 q.2 in
      on_branch (λ x. SameShape s x.1) (is_neg r.0) (pure (r.0, 0))
        (avail_again d >>= with_htimestamp now) os r.1 r.2 h (ground arith)

  get_avail-SameShape :
      (now : ℕ) (s : State Double) (t : History) → SameShape s (get_avail d now os s t).1
  unfolding get_avail alsa_avail
  get_avail-SameShape now s t =
      let q = alsa_avail os s t in
      on_branch (λ x. SameShape s x.1) (is_neg q.0.ret) (avail_recovered d now)
        (with_htimestamp now (non_negative q.0.ret)) os s q.2 (avail_recovered-SameShape now s _)
        (with_htimestamp-SameShape now _ s _)

  -- The counts of frames that the device gives fit an int.
  abbrev pub FitsInt : Type 0
  FitsInt =
      (t : History) (c : Call) → (non_negative (os t c).ret < 2 ^ 31) × ((os t c).value < 2 ^ 31)

  with_htimestamp_res :
      FitsInt
      → (now n : ℕ) (s : State Double) (t : History) → n < 2 ^ 31
      → is_neg (with_htimestamp now n os s t).0.0 ≡ false
  unfolding with_htimestamp use_htimestamp
  with_htimestamp_res fits now n s t small = let f = fits t snd_pcm_htimestamp in ground arith

  avail_again_small :
      FitsInt
      → (s : State Double) (t : History) → s.threshold < 2 ^ 30
      → (avail_again d os s t).0 < 2 ^ 31
  unfolding avail_again alsa_avail
  avail_again_small fits s t small =
      let q = alsa_avail os s t in
      let f = fits t (
        if not s.matching && s.disable_tsched && not s.resample
        then snd_pcm_avail_update
        else snd_pcm_avail) in
      on_branch (λ x. x.0 < 2 ^ 31) (is_neg q.0.ret)
        (modify (λ s'. record s' { recover_fails = u32 (s'.recover_fails + 1) })
          >> pure (u32 (s.threshold * 2)))
        (pure (non_negative q.0.ret)) os s q.2 (ground arith) (f.0)

  avail_recovered_res :
      FitsInt
      → (now : ℕ) (s : State Double) (t : History) → s.threshold < 2 ^ 30
      → is_neg (avail_recovered d now os s t).0.0 ≡ false
  unfolding avail_recovered
  avail_recovered_res fits now s t small =
      let r = alsa_recover d os s t in
      let h = alsa_recover-SameShape s t in
      let k = alsa_recover-Tries d os s t in
      let q = avail_again d os r.1 r.2 in
      let few : r.1.threshold < 2 ^ 30 = rw (h.0) small in
      let w = with_htimestamp_res fits now q.0 q.1 q.2 (avail_again_small fits r.1 r.2 few) in
      on_branch (λ x. is_neg x.0.0 ≡ false) (is_neg r.0) (pure (r.0, 0))
        (avail_again d >>= with_htimestamp now) os r.1 r.2 (k.0) w

  get_avail_res :
      FitsInt
      → (now : ℕ) (s : State Double) (t : History) → s.threshold < 2 ^ 30
      → is_neg (get_avail d now os s t).0.0 ≡ false
  unfolding get_avail alsa_avail
  get_avail_res fits now s t small =
      let q = alsa_avail os s t in
      on_branch (λ x. is_neg x.0.0 ≡ false) (is_neg q.0.ret) (avail_recovered d now)
        (with_htimestamp now (non_negative q.0.ret)) os s q.2
        (avail_recovered_res fits now s _ small) (with_htimestamp_res fits now _ s _ (fits t _).0)

-- What get_status promises of its result and of the state that it leaves.
abbrev pub Reports : {D : Type 0} → State D → Status × State D × History → Type 0
Reports s (r, s', t') =
    (r.res ≡ pos 0)
    × (r.delay ≤ s.buffer_frames)
    × (s.min_delay ≤ r.target)
    × (r.target ≤ s.max_delay)
    × (s'.last_avail ≡ r.avail)
    × (s'.last_delay ≡ r.delay)
    × (s'.last_target ≡ r.target)

status_of-Bounds :
    {D : Type 0} (s : State D) (res : ℤ) (n : ℕ)
    → s.min_delay ≤ s.max_delay
    → let r = status_of s res n in
      (r.res ≡ pos 0)
      × (r.delay ≤ s.buffer_frames)
      × (s.min_delay ≤ r.target)
      × (r.target ≤ s.max_delay)
unfolding status_of
status_of-Bounds s res n ordered = ground arith

-- As long as the device counts frames in numbers that fit an int, and the period is below 2 ^ 30
-- frames, get_status never fails: where the first question fails the stream is recovered, and where
-- the second one fails too a number stands in for the answer. The delay is within the buffer, the
-- target is between the least and the largest delay, and both are noted in the state.
pub get_status-Reports :
    (d : Doubles) (os : Os Call Answer) (now : ℕ) (s : State d.Double) (t : History)
    → FitsInt d os
    → s.threshold < 2 ^ 30
    → s.min_delay ≤ s.max_delay
    → Reports s (get_status d now os s t)
unfolding get_status
get_status-Reports d os now s t fits small ordered =
    let q = get_avail d now os s t in
    let h = get_avail-SameShape d os now s t in
    let b = status_of-Bounds q.1 q.0.0 q.0.1 (rw (h.2, h.3) ordered) in
    rw (get_avail_res d os fits now s t small) ground arith
