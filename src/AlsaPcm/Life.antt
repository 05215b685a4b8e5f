-- ===== src/AlsaPcm/Life.antt =====
-- The life of a stream: the operations of check-my-alsa/alsa-pcm.c and alsa-pcm-sink.c as steps.
use overthinkin.Base.{
  ℕ, true, false, not, ◌&&◌, ◌∷◌, ltb, ◌==◌, if◌then◌else◌, ℤ, pos, is_neg, ◌==ℤ◌, sub_ℕ, ◌∙◌, Os,
  ◌≡◌, refl, arith, ◌⊎◌, inl, inr,
}
use overthinkin.AlsaPcm.Doubles.{Doubles}
use overthinkin.AlsaPcm.State.{
  State, Call, poll_timer, read_timer, mmap_begin, areas_silence, neg_errno, neg_etimedout,
  check_res, Answer, History, M, pure, call, ◌>>=◌, ◌>>◌,
}
use overthinkin.AlsaPcm.Programs.{on_branch}
use overthinkin.AlsaPcm.Stream.{alsa_recover}
use overthinkin.AlsaPcm.Clock.{
  update_time, start_dll, signed_diff, note_threshold, averages, adjust_bw, filter_error, advance,
  check_time,
}
use overthinkin.AlsaPcm.Cycle.{
  alsa_write_sync, count_frames, commit_frames, alsa_write_frames, alsa_do_wakeup_work, wake,
  alsa_timer_wakeup, pcm_sink_iterate,
}
use overthinkin.AlsaPcm.Quiet.{
  free, both, holding, Quiet, set_timeout-Quiet, do_start-Quiet, alsa_recover-Quiet,
  get_status-Quiet,
}

-- A stream that is open holds the device and the timer, and one that is not holds nothing; a stream
-- that was started is open and prepared.
abbrev pub Sound : {D : Type 0} → State D → History → Type 0
Sound s t =
    (holding t ≡ (if s.opened then both else free))
    × ((s.started ≡ false) ⊎ (s.opened ≡ true) × (s.prepared ≡ true))

abbrev pub SoundAfter : {D A : Type 0} → A × State D × History → Type 0
SoundAfter (r, s, t) = Sound s t

pub Quiet-Sound :
    {D A : Type 0} (s : State D) (t : History) (r : A × State D × History)
    → Quiet s t r
    → Sound s t
    → SoundAfter r
Quiet-Sound s t r (h, o, b, p) (i, inl e) = (rw (h, o) i, inl (rw b e))
Quiet-Sound s t r (h, o, b, p) (i, inr (e, f)) = (rw (h, o) i, inr (rw o e, rw p f))

module _ (d : Doubles) (os : Os Call Answer) where
  open d use {Double}

  abbrev Flags : State Double → State Double → Type 0
  Flags s s' = (s'.opened ≡ s.opened) × (s'.started ≡ s.started) × (s'.prepared ≡ s.prepared)

  start_dll-Flags : (now : ℕ) (s : State Double) → Flags s (start_dll d now s)
  unfolding start_dll
  start_dll-Flags now s = ground arith

  note_threshold-Flags : (diff : ℤ) (s : State Double) → Flags s (note_threshold d diff s)
  unfolding note_threshold
  note_threshold-Flags diff s = ground arith

  filter_error-Flags : (err : Double) (s : State Double) → Flags s (filter_error d err s).1
  unfolding filter_error averages
  filter_error-Flags err s = ground arith

  advance-Flags : (diff : ℤ) (corr : Double) (s : State Double) → Flags s (advance d diff corr s)
  unfolding advance adjust_bw
  advance-Flags diff corr s = ground arith

  update_time-Flags :
      (now delay target : ℕ) (s : State Double) → Flags s (update_time d now delay target s)
  unfolding update_time
  update_time-Flags now delay target s =
      let started = start_dll d now s in
      let f = start_dll-Flags now s in
      let diff = signed_diff d started.last_threshold started.threshold in
      let raw = d.of_ℤ (sub_ℕ delay target) in
      let err = if diff ==ℤ pos 0 then raw else d.sub raw (d.of_ℤ diff) in
      let noted = note_threshold d diff started in
      let g = note_threshold-Flags diff started in
      let r = filter_error d err noted in
      let h = filter_error-Flags err noted in
      let k = advance-Flags diff r.0 r.1 in
      (k.0 ∙ h.0 ∙ g.0 ∙ f.0, k.1 ∙ h.1 ∙ g.1 ∙ f.1, k.2 ∙ h.2 ∙ g.2 ∙ f.2)

  write_sync-Quiet :
      (now : ℕ) (s : State Double) (t : History) → Quiet s t (alsa_write_sync d now os s t)
  unfolding alsa_write_sync
  write_sync-Quiet now s t = grind (arith, get_status-Quiet, update_time-Flags)

  count_frames-Quiet :
      (n k : ℕ) (s : State Double) (t : History) → Quiet s t (count_frames d n k os s t)
  unfolding count_frames
  count_frames-Quiet n k s t = grind (arith, do_start-Quiet)

  commit_frames-Quiet :
      (n k : ℕ) (s : State Double) (t : History) → Quiet s t (commit_frames d n k os s t)
  unfolding commit_frames holding
  commit_frames-Quiet n k s t = grind (arith, count_frames-Quiet)

  pub write_frames-Quiet : (s : State Double) (t : History) → Quiet s t (alsa_write_frames d os s t)
  unfolding alsa_write_frames holding
  write_frames-Quiet s t =
      let b = os t (mmap_begin s.buffer_frames) in
      let t₁ : History = (mmap_begin s.buffer_frames, b) ∷ t in
      let fill : M Double ℤ =
        call (areas_silence b.offset b.value) >> commit_frames d b.offset b.value in
      on_branch (Quiet s t) (s.use_mmap && ltb 0 s.buffer_frames)
        (call (mmap_begin s.buffer_frames) >>= λ b'.
          if is_neg b'.ret
          then alsa_recover d >> pure b'.ret
          else call (areas_silence b'.offset b'.value) >> commit_frames d b'.offset b'.value)
        (count_frames d s.buffer_frames 0) os s t
        (on_branch (Quiet s t) (is_neg b.ret) (alsa_recover d >> pure b.ret) fill os s t₁
          (alsa_recover-Quiet d os s t₁) (commit_frames-Quiet b.offset b.value s _))
        (count_frames-Quiet s.buffer_frames 0 s t)

  wakeup_work-Quiet :
      (now : ℕ) (s : State Double) (t : History) → Quiet s t (alsa_do_wakeup_work d now os s t)
  unfolding alsa_do_wakeup_work holding
  wakeup_work-Quiet now s t = grind (arith, write_sync-Quiet)

  wake-Quiet : (s : State Double) (t : History) → Quiet s t (wake d os s t)
  unfolding wake check_time
  wake-Quiet s t = grind (arith, wakeup_work-Quiet, set_timeout-Quiet)

  pub timer_wakeup-Quiet : (s : State Double) (t : History) → Quiet s t (alsa_timer_wakeup d os s t)
  unfolding alsa_timer_wakeup holding
  timer_wakeup-Quiet s t =
      let r = os t read_timer in
      let t₁ : History = (read_timer, r) ∷ t in
      on_branch (Quiet s t) s.started
        (call read_timer >>= λ r'.
          if is_neg r'.ret && not (r'.errno == 11) then pure (neg_errno r'.errno) else wake d)
        (wake d) os s t
        (on_branch (Quiet s t) (is_neg r.ret && not (r.errno == 11)) (pure (neg_errno r.errno))
          (wake d) os s t₁ (refl, refl, refl, refl) (wake-Quiet s t₁))
        (wake-Quiet s t)

  pub iterate-Quiet :
      (ms : ℕ) (s : State Double) (t : History) → Quiet s t (pcm_sink_iterate d ms os s t)
  unfolding pcm_sink_iterate holding
  iterate-Quiet ms s t =
      let p = os t (poll_timer ms) in
      let t₁ : History = (poll_timer ms, p) ∷ t in
      let w = timer_wakeup-Quiet s t₁ in
      let r = alsa_timer_wakeup d os s t₁ in
      let f = write_frames-Quiet r.1 r.2 in
      let work : M Double ℤ = check_res (alsa_timer_wakeup d) (alsa_write_frames d) in
      let q : Quiet s t (work os s t₁) =
        on_branch (Quiet s t) (is_neg r.0) (pure r.0) (alsa_write_frames d) os r.1 r.2 w
          (ground arith) in
      on_branch (Quiet s t) (is_neg p.ret) (pure (neg_errno p.errno))
        (if p.ret ==ℤ pos 0 then pure neg_etimedout else work) os s t₁ (refl, refl, refl, refl)
        (on_branch (Quiet s t) (p.ret ==ℤ pos 0) (pure neg_etimedout) work os s t₁
          (refl, refl, refl, refl) q)
