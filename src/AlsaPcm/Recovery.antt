-- ===== src/AlsaPcm/Recovery.antt =====
-- What alsa_recover and get_status of check-my-alsa/alsa-pcm.c leave, for every behaviour of the
-- device.
use overthinkin.Base.{
  ℕ, zero, suc, ◌+◌, ◌≤◌, Bool, true, false, [], ◌∷◌, if◌then◌else◌, ℤ, pos, is_neg, Os, ◌≡◌, refl,
  ap, arith,
}
use overthinkin.AlsaPcm.Doubles.{Doubles}
use overthinkin.AlsaPcm.State.{
  State, PcmState, pcm_xrun, pcm_suspended, pcm_other, Call, snd_pcm_resume, snd_pcm_status,
  wait_second, Answer, History,
}
use overthinkin.AlsaPcm.Setup.{set_swparams}
use overthinkin.AlsaPcm.Stream.{
  spa_alsa_silence, do_drop, do_start, resume_loop, count_xrun, do_prepare, restart, recover_from,
  alsa_recover,
}

-- How often the device was asked to resume, and how many seconds were waited for it.
unfoldable pub resumes : History → ℕ
resumes [] = 0
resumes ((snd_pcm_resume, a) ∷ t) = suc (resumes t)
resumes (_ ∷ t) = resumes t

unfoldable pub waits : History → ℕ
waits [] = 0
waits ((wait_second, a) ∷ t) = suc (waits t)
waits (_ ∷ t) = waits t

-- Between two histories there were at most `n` tries to resume, and no more seconds than tries.
abbrev pub Tries : ℕ → History → History → Type 0
Tries n t t' = (resumes t' ≤ resumes t + n) × (waits t' + resumes t ≤ waits t + resumes t')

resume_loop-Tries :
    {D : Type 0} (n : ℕ) (res : ℤ) (os : Os Call Answer) (s : State D) (t : History)
    → Tries n t (resume_loop n res os s t).2
unfolding resume_loop resumes waits
resume_loop-Tries zero res os s t = ground arith
resume_loop-Tries (suc n) res os s t =
    let h = resume_loop-Tries n (os t snd_pcm_resume).ret os s (
      (wait_second, os ((snd_pcm_resume, os t snd_pcm_resume) ∷ t) wait_second)
      ∷ (snd_pcm_resume, os t snd_pcm_resume)
      ∷ t) in
    ground arith

module _ (d : Doubles) (os : Os Call Answer) where
  open d use {Double}

  set_swparams_quiet :
      (s : State Double) (t : History)
      → (resumes (set_swparams os s t).2 ≡ resumes t) × (waits (set_swparams os s t).2 ≡ waits t)
  unfolding set_swparams resumes waits
  set_swparams_quiet s t = ground arith

  silence_quiet :
      (n : ℕ) (s : State Double) (t : History)
      → (resumes (spa_alsa_silence n os s t).2 ≡ resumes t)
        × (waits (spa_alsa_silence n os s t).2 ≡ waits t)
  unfolding spa_alsa_silence resumes waits
  silence_quiet n s t = ground arith

  do_prepare_quiet :
      (s : State Double) (t : History)
      → (resumes (do_prepare d os s t).2 ≡ resumes t) × (waits (do_prepare d os s t).2 ≡ waits t)
  unfolding do_prepare resumes waits
  do_prepare_quiet s t = grind (arith, set_swparams_quiet, silence_quiet)

  restart_quiet :
      (s : State Double) (t : History)
      → (resumes (restart d os s t).2 ≡ resumes t) × (waits (restart d os s t).2 ≡ waits t)
  unfolding restart do_drop do_start resumes waits
  restart_quiet s t = grind (arith, do_prepare_quiet)

  recover_from-Tries :
      (p : PcmState) (a : Answer) (s : State Double) (t : History)
      → Tries 5 t (recover_from d p a os s t).2
  unfolding recover_from count_xrun resumes waits
  recover_from-Tries pcm_xrun a s t = grind (arith, restart_quiet)
  recover_from-Tries pcm_suspended a s t =
      let h = resume_loop-Tries 5 a.ret os s t in grind (arith, restart_quiet)
  recover_from-Tries pcm_other a s t = grind (arith, restart_quiet)

  restart_res : (s : State Double) (t : History) → (restart d os s t).0 ≡ pos 0
  unfolding restart
  restart_res s t = refl

  recover_from_res :
      (p : PcmState) (a : Answer) (s : State Double) (t : History)
      → is_neg (recover_from d p a os s t).0 ≡ false
  unfolding recover_from count_xrun restart
  recover_from_res pcm_xrun a s t = refl
  recover_from_res pcm_suspended a s t = ground arith
  recover_from_res pcm_other a s t = refl

  recover_tail :
      (b : Bool) (a : Answer) (s : State Double) (t : History)
      → let r = (if b then restart d else recover_from d a.pcm_state a) os s t in
        (is_neg r.0 ≡ false) × Tries 5 t r.2
  recover_tail true a s t =
      let q = restart_quiet s t in (ap is_neg (restart_res s t), (omega arith, omega arith))
  recover_tail false a s t =
      (recover_from_res a.pcm_state a s t, recover_from-Tries a.pcm_state a s t)

-- alsa_recover never fails, whatever the device does, and it ends: it asks the device to resume
-- five times at most, and waits no more seconds than that.
pub alsa_recover-Tries :
    (d : Doubles) (os : Os Call Answer) (s : State d.Double) (t : History)
    → (is_neg (alsa_recover d os s t).0 ≡ false) × Tries 5 t (alsa_recover d os s t).2
unfolding alsa_recover resumes waits
alsa_recover-Tries d os s t =
    recover_tail d os (is_neg (os t snd_pcm_status).ret) (os t snd_pcm_status) _ _
