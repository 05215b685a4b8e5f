-- ===== src/AlsaPcm/Frames.antt =====
-- The frames that alsa_write_frames of check-my-alsa/alsa-pcm.c writes, and the timer that a wakeup
-- sets.
use overthinkin.Base.{
  min_of, Bool, negsuc, pos, u64, ℕ, suc, ◌+◌, ◌*◌, ◌≤◌, true, false, not, ◌&&◌, ◌||◌, [], ◌∷◌, ltb,
  ◌==◌, if◌then◌else◌, ℤ, is_neg, ◌==ℤ◌, Os, ◌≡◌, subst, refl, arith, ◌⊎◌, inl,
}
use overthinkin.AlsaPcm.Doubles.{Doubles}
use overthinkin.AlsaPcm.State.{
  State, Call, mmap_begin, mmap_commit, areas_silence, snd_pcm_start, timerfd_settime, Answer,
  History, M, pure, call, neg_epipe, neg_estrpipe, ◌>>=◌, ◌>>◌,
}
use overthinkin.AlsaPcm.Programs.{on_test}
use overthinkin.AlsaPcm.Stream.{nsec_per_sec, set_timeout, do_start, alsa_recover}
use overthinkin.AlsaPcm.Cycle.{count_frames, commit_frames, alsa_write_frames, wake}

-- Of the frames of a commit, those that the device took by its answer.
abbrev pub took : ℕ → ℤ → ℕ
took frames (pos n) = min_of frames n
took frames (negsuc n) = 0

-- The frames that the device has taken, and how often it was started.
unfoldable pub taken : History → ℕ
taken [] = 0
taken ((mmap_commit offset frames, a) ∷ t) = taken t + took frames a.ret
taken (_ ∷ t) = taken t

unfoldable pub starts : History → ℕ
starts [] = 0
starts ((snd_pcm_start, a) ∷ t) = suc (starts t)
starts (_ ∷ t) = starts t

-- The time that the timer was last set to, in nanoseconds; 0 stands for a timer that is off.
unfoldable pub armed : History → ℕ
armed [] = 0
armed ((timerfd_settime seconds nanoseconds, a) ∷ t) = seconds * nsec_per_sec + nanoseconds
armed (_ ∷ t) = armed t

-- The device is asked for room, and the answer to that and to the commit of that room.
abbrev pub asks : {D : Type 0} → State D → Bool
asks s = s.use_mmap && ltb 0 s.buffer_frames

abbrev pub offered : {D : Type 0} → Os Call Answer → State D → History → Answer
offered os s t = os t (mmap_begin s.buffer_frames)

abbrev silenced : {D : Type 0} → Os Call Answer → State D → History → History
silenced os s t =
    let b = offered os s t in
    let t₁ : History = (mmap_begin s.buffer_frames, b) ∷ t in
    (areas_silence b.offset b.value, os t₁ (areas_silence b.offset b.value)) ∷ t₁

abbrev pub answered : {D : Type 0} → Os Call Answer → State D → History → Answer
answered os s t = os (silenced os s t) (mmap_commit (offered os s t).offset (offered os s t).value)

-- An error of a commit that is no xrun.
abbrev pub is_bad : ℤ → Bool
is_bad r = is_neg r && not (r ==ℤ neg_epipe || r ==ℤ neg_estrpipe)

-- The device gives an error: for the room, or for frames that are committed, other than an xrun.
abbrev pub refuses : {D : Type 0} → Os Call Answer → State D → History → Bool
refuses os s t =
    asks s
    && (is_neg (offered os s t).ret
        || not ((offered os s t).value == 0) && is_bad (answered os s t).ret)

-- The frames that are written, and those of them that the device takes.
abbrev pub room : {D : Type 0} → Os Call Answer → State D → History → ℕ
room os s t = if asks s then (offered os s t).value else 0

abbrev pub took_of : {D : Type 0} → Os Call Answer → State D → History → ℕ
took_of os s t = if asks s then took (offered os s t).value (answered os s t).ret else 0

-- From `s`, `n` frames were written: they are in the count of frames, and the device took `k`; it
-- was started once at most, and not where it was running.
abbrev pub Wrote : {D : Type 0} → ℕ → ℕ → State D → History → ℤ × State D × History → Type 0
Wrote n k s t (r, s', t') =
    (s'.sample_count ≡ u64 (s.sample_count + n))
    × (taken t' ≡ taken t + k)
    × (starts t' ≤ starts t + 1)
    × ((s.alsa_started ≡ false) ⊎ (starts t' ≡ starts t))

-- There is an error if and only if `bad`, and else `n` frames were written.
abbrev pub WroteUnless :
    {D : Type 0} → Bool → ℕ → ℕ → State D → History → ℤ × State D × History → Type 0
WroteUnless bad n k s t r = (is_neg r.0 ≡ bad) × ((bad ≡ true) ⊎ Wrote n k s t r)

took-none : (n : ℕ) (r : ℤ) → (n == 0) ≡ true → took n r ≡ 0
took-none n (pos k) h = ground arith
took-none n (negsuc k) h = refl

unless_as :
    {D : Type 0} {bad bad' : Bool} (n k : ℕ) (s : State D) (t : History) (r : ℤ × State D × History)
    → bad ≡ bad'
    → WroteUnless bad n k s t r
    → WroteUnless bad' n k s t r
unless_as n k s t r e h = subst (λ b. WroteUnless b n k s t r) e h

module _ (d : Doubles) (os : Os Call Answer) where
  open d use {Double}

  count_frames-Wrote :
      (frames n k : ℕ) (s : State Double) (t t₀ : History)
      → taken t ≡ taken t₀ + k
      → starts t ≡ starts t₀
      → WroteUnless false n k s t₀ (count_frames d frames n os s t)
  unfolding count_frames do_start taken starts
  count_frames-Wrote frames n k s t t₀ c e = ground arith

  commit_frames-Wrote :
      (offset n : ℕ) (s : State Double) (t t₀ : History)
      → taken t ≡ taken t₀
      → starts t ≡ starts t₀
      → let c = os t (mmap_commit offset n) in
        WroteUnless
          (not (n == 0) && is_bad c.ret)
          n
          (took n c.ret)
          s
          t₀
          (commit_frames d offset n os s t)
  unfolding commit_frames taken starts
  commit_frames-Wrote offset n s t t₀ c e =
      let c' = os t (mmap_commit offset n) in
      let t₁ : History = (mmap_commit offset n, c') ∷ t in
      let bad = is_bad c'.ret in
      let k = took n c'.ret in
      let P = WroteUnless (not (n == 0) && bad) n k s t₀ in
      on_test P (n == 0) (count_frames d n n)
        (call (mmap_commit offset n) >>= λ a.
          if is_neg a.ret && not (a.ret ==ℤ neg_epipe || a.ret ==ℤ neg_estrpipe)
          then pure a.ret
          else count_frames d n n)
        os s t
        (λ none.
          let none_taken : k ≡ 0 = took-none n c'.ret none in
          unless_as n k s t₀ (count_frames d n n os s t) (ground arith)
            (count_frames-Wrote n n k s t t₀ (omega arith) e))
        (λ some.
          on_test P bad (pure c'.ret) (count_frames d n n) os s t₁
            (λ b. (ground arith, inl (ground arith)))
            (λ b.
              unless_as n k s t₀ (count_frames d n n os s t₁) (ground arith)
                (count_frames-Wrote n n k s t₁ t₀ (omega arith) e)))

  set_timeout-armed :
      (time : ℕ) (s : State Double) (t : History)
      → (armed (set_timeout time os s t).2 ≡ time) × ((set_timeout time os s t).1 ≡ s)
  unfolding set_timeout armed
  set_timeout-armed time s t = ground arith

-- Where the device gives an error for the room, or one for the commit that is no xrun, and only
-- there, alsa_write_frames gives an error. Else all the frames that the device has offered are
-- counted, and none where there is no MMAP access or no buffer, though the device took only those
-- that its answer to the commit says, and none in an xrun; and the device is started once at most,
-- and never where it is running.
pub write_frames-Wrote :
    (d : Doubles) (os : Os Call Answer) (s : State d.Double) (t : History)
    → WroteUnless (refuses os s t) (room os s t) (took_of os s t) s t (alsa_write_frames d os s t)
unfolding alsa_write_frames taken starts
write_frames-Wrote d os s t =
    let b = offered os s t in
    let t₁ : History = (mmap_begin s.buffer_frames, b) ∷ t in
    let fill : M d.Double ℤ =
      call (areas_silence b.offset b.value) >> commit_frames d b.offset b.value in
    let P = WroteUnless (refuses os s t) (room os s t) (took_of os s t) s t in
    on_test P (asks s)
      (call (mmap_begin s.buffer_frames) >>= λ b'.
        if is_neg b'.ret
        then alsa_recover d >> pure b'.ret
        else call (areas_silence b'.offset b'.value) >> commit_frames d b'.offset b'.value)
      (count_frames d s.buffer_frames 0) os s t
      (λ a.
        on_test P (is_neg b.ret) (alsa_recover d >> pure b.ret) fill os s t₁
          (λ n. rw (a, n) (refl, inl refl))
          (λ n.
            rw (a, n) (commit_frames-Wrote d os b.offset b.value s (silenced os s t) t refl refl)))
      (λ a. rw a (count_frames-Wrote d os s.buffer_frames 0 0 s t t (omega arith) refl))

-- A wakeup ends with the timer set to the next time of the state, to the nanosecond.
wake-Armed :
    (d : Doubles) (os : Os Call Answer) (s : State d.Double) (t : History)
    → let r = wake d os s t in armed r.2 ≡ r.1.next_time
unfolding wake
wake-Armed d os s t = grind (arith, set_timeout-armed d os)
