-- ===== src/AlsaPcm/Tests.antt =====
-- Runs of check-my-alsa/alsa-pcm.c on small inputs, and its theorems at them.
use overthinkin.Base.{
  ℕ, zero, suc, ◌+◌, ◌*◌, ◌/◌, true, false, [], codes, ℤ, pos, negsuc, is_neg, ◌==ℤ◌, sub_ℕ, Os,
  ◌≡◌, refl, arith, inl,
}
use overthinkin.AlsaPcm.Doubles.{Doubles}
use overthinkin.AlsaPcm.State.{
  State, pcm_suspended, Call, set_channels_near, set_rate_near, get_buffer_size_max,
  set_period_size_near, set_buffer_size_near, mmap_begin, snd_pcm_resume, Answer, neg_eagain,
  History,
}
use overthinkin.AlsaPcm.Setup.{spa_alsa_set_format}
use overthinkin.AlsaPcm.Stream.{ltb_ℤ, non_negative, Status, alsa_recover, get_status}
use overthinkin.AlsaPcm.Cycle.{alsa_write_frames, pcm_sink_open, pcm_sink_stop, spa_alsa_start}
use overthinkin.AlsaPcm.Init.{alsa_state_init}
use overthinkin.AlsaPcm.Recovery.{Tries, alsa_recover-Tries}
use overthinkin.AlsaPcm.Room.{Reports, get_status-Reports}
use overthinkin.AlsaPcm.Quiet.{free, holding}
use overthinkin.AlsaPcm.Life.{Sound}
use overthinkin.AlsaPcm.Format.{Formatted}
use overthinkin.AlsaPcm.Reach.{
  Steps, rest, then_step, opening, starting, set_format-Formatted, Steps-Sound, Steps-stop,
}
use overthinkin.AlsaPcm.Frames.{refuses, room, took_of, WroteUnless, write_frames-Wrote}

-- Whole numbers in place of doubles.
abbrev opposite : ℤ → ℤ
opposite (pos zero) = pos 0
opposite (pos (suc n)) = negsuc n
opposite (negsuc n) = pos (suc n)

abbrev plus : ℤ → ℤ → ℤ
plus (pos a) (pos b) = pos (a + b)
plus (pos a) (negsuc b) = sub_ℕ a (suc b)
plus (negsuc a) (pos b) = sub_ℕ b (suc a)
plus (negsuc a) (negsuc b) = negsuc (a + b + 1)

abbrev on_signs : (ℕ → ℕ → ℕ) → ℤ → ℤ → ℤ
on_signs f (pos a) (pos b) = pos (f a b)
on_signs f (pos a) (negsuc b) = opposite (pos (f a (suc b)))
on_signs f (negsuc a) (pos b) = opposite (pos (f (suc a) b))
on_signs f (negsuc a) (negsuc b) = pos (f (suc a) (suc b))

abbrev magnitude : ℤ → ℤ
magnitude (pos n) = pos n
magnitude (negsuc n) = pos (suc n)

abbrev whole : Doubles
whole = record {
  Double = ℤ;
  of_ℕ = pos;
  of_ℤ = λ z. z;
  to_u64 = non_negative;
  two_pi = pos 6;
  minus_20 = negsuc 19;
  one_and_half = pos 1;
  bw_min = pos 0;
  bw_max = pos 1;
  add = plus;
  sub = λ a b. plus a (opposite b);
  mul = on_signs (λ a b. a * b);
  quot = on_signs (λ a b. a / b);
  neg = opposite;
  fabs = magnitude;
  sqrt = λ z. z;
  exp = λ z. pos 1;
  less = ltb_ℤ;
  is_zero = λ z. z ==ℤ pos 0;
}

abbrev answer : ℤ → ℕ → Answer
answer ret value = record {
  ret = ret;
  errno = 0;
  value = value;
  offset = 0;
  pcm_state = pcm_suspended;
  delay_us = 0;
  tstamp_ns = 2_000_000_000;
  now_ns = 1_000_000_000;
}

-- A device that agrees to what it is asked, and is ready for 512 frames.
abbrev agreed : Call → ℕ
agreed (set_channels_near n) = n
agreed (set_rate_near n) = n
agreed (set_period_size_near n) = n
agreed (set_buffer_size_near n) = n
agreed get_buffer_size_max = 8192
agreed (mmap_begin n) = 512
agreed _ = 64

abbrev device : Os Call Answer
device t c = answer (pos 0) (agreed c)

-- A device that gives the same answer to every call; one that is suspended for good.
abbrev steady : Os Call Answer
steady t c = answer (pos 0) 64

abbrev stuck_answer : Call → Answer
stuck_answer snd_pcm_resume = answer neg_eagain 0
stuck_answer _ = answer (pos 0) 0

abbrev stuck : Os Call Answer
stuck t c = stuck_answer c

abbrev new_state : State ℤ
new_state = alsa_state_init whole

-- A stream with a period of 512 frames and a buffer of 2048.
abbrev stream : State ℤ
stream = record new_state {
  rate = 48000;
  threshold = 512;
  period_frames = 512;
  buffer_frames = 2048;
  max_delay = 1024;
  htimestamp = true;
}

alsa_recover-Tries_example :
    (is_neg (alsa_recover whole stuck stream []).0 ≡ false)
    × Tries 5 [] (alsa_recover whole stuck stream []).2
alsa_recover-Tries_example = alsa_recover-Tries whole stuck stream []

get_status-Reports_example : Reports stream (get_status whole 1_000_000_000 steady stream [])
unfolding alsa_state_init
get_status-Reports_example =
    get_status-Reports whole steady 1_000_000_000 stream [] (λ t c. (omega arith, omega arith))
      (omega arith) (omega arith)

abbrev late : Status
late = record { res = pos 0; avail = 48; delay = 2000; target = 512 }

less_irrefl : (x : ℤ) → ltb_ℤ x x ≡ false
less_irrefl (pos n) = ground arith
less_irrefl (negsuc n) = ground arith

less_trans : (x y z : ℤ) → ltb_ℤ x y ≡ true → ltb_ℤ y z ≡ true → ltb_ℤ x z ≡ true
less_trans (pos a) (pos b) (pos c) p q = ground arith
less_trans (pos a) (pos b) (negsuc c) p q = ground arith
less_trans (pos a) (negsuc b) z p q = absurd (ground arith)
less_trans (negsuc a) (pos b) (pos c) p q = refl
less_trans (negsuc a) (pos b) (negsuc c) p q = absurd (ground arith)
less_trans (negsuc a) (negsuc b) (pos c) p q = refl
less_trans (negsuc a) (negsuc b) (negsuc c) p q = ground arith

less_opposite : (x y : ℤ) → ltb_ℤ x y ≡ true → ltb_ℤ (opposite y) (opposite x) ≡ true
less_opposite (pos zero) (pos zero) p = p
less_opposite (pos zero) (pos (suc b)) p = ground arith
less_opposite (pos (suc a)) (pos zero) p = absurd (ground arith)
less_opposite (pos (suc a)) (pos (suc b)) p = ground arith
less_opposite (pos a) (negsuc b) p = absurd (ground arith)
less_opposite (negsuc a) (pos zero) p = ground arith
less_opposite (negsuc a) (pos (suc b)) p = refl
less_opposite (negsuc a) (negsuc b) p = ground arith

set_format-Formatted_example :
    Formatted (spa_alsa_set_format 48000 2 (pos 2) 512 device new_state [])
unfolding alsa_state_init holding
set_format-Formatted_example =
    set_format-Formatted device 48000 2 (pos 2) 512 new_state [] (λ t e. absurd (ground arith))
      (refl, inl refl)

-- An open, and a start after it.
abbrev after_open : ℤ × State ℤ × History
after_open = pcm_sink_open whole (codes "hw:0") 48000 2 (pos 2) 512 device new_state []

abbrev after_start : ℤ × State ℤ × History
after_start = spa_alsa_start whole device after_open.1 after_open.2

opened_and_started : Steps whole device new_state [] after_start.1 after_start.2
opened_and_started =
    then_step new_state [] after_open.1 after_open.2 after_start.1 after_start.2
      (then_step new_state [] new_state [] after_open.1 after_open.2 (rest new_state [])
        (opening (codes "hw:0") 48000 2 (pos 2) 512 new_state []))
      (starting after_open.1 after_open.2)

Steps-Sound_example : Sound after_start.1 after_start.2
unfolding alsa_state_init holding
Steps-Sound_example =
    Steps-Sound whole device new_state [] after_start.1 after_start.2 (λ t e. absurd (ground arith))
      opened_and_started (refl, inl refl)

Steps-stop_example :
    let r = pcm_sink_stop whole device after_start.1 after_start.2 in
    (holding r.2 ≡ free) × (r.1.opened ≡ false) × (r.1.started ≡ false)
Steps-stop_example =
    Steps-stop whole device after_start.1 after_start.2 (λ t e. absurd (ground arith))
      opened_and_started

-- A device that offers 512 frames and takes 400 of them.
abbrev taking : Os Call Answer
taking t c = answer (pos 400) (agreed c)

write_frames-Wrote_example :
    WroteUnless
      (refuses taking stream [])
      (room taking stream [])
      (took_of taking stream [])
      stream
      []
      (alsa_write_frames whole taking stream [])
write_frames-Wrote_example = write_frames-Wrote whole taking stream []

some_taken :
    (refuses taking stream [] ≡ false)
    × (room taking stream [] ≡ 512)
    × (took_of taking stream [] ≡ 400)
unfolding alsa_state_init
some_taken = (refl, refl, refl)
