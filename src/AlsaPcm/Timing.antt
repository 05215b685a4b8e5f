-- ===== src/AlsaPcm/Timing.antt =====
-- The arithmetic of check-my-alsa/alsa-pcm.c: headroom, time stamps, timeouts and the timing error.
use native.Mathlib.Nat.{div-le_self, div-mul-le_self, le-div_iff_mul-le}
use overthinkin.Base.{
  u32, u64, ℕ, zero, suc, ◌+◌, ◌-◌, ◌*◌, ◌/◌, ◌^◌, ◌≤◌, ◌<◌, true, false, ltb, if◌then◌else◌,
  is_neg, Os, ◌≡◌, arith, inl, inr, ◌⊎◌, min_of,
}
use overthinkin.AlsaPcm.Doubles.{Doubles}
use overthinkin.AlsaPcm.State.{State, Call, Answer, History, snd_pcm_htimestamp}
use overthinkin.AlsaPcm.Setup.{recalc_headroom}
use overthinkin.AlsaPcm.Stream.{nsec_per_sec, diff_of, use_htimestamp, with_htimestamp, Status}
use overthinkin.AlsaPcm.Clock.{bounded_error, early_time, out_of_sync}

-- Where a period fits the buffer, the headroom leaves room for it, is never more than what is wanted
-- of it, and falls short of that only by filling the buffer.
recalc_headroom-Fits :
    {D : Type 0} (s : State D)
    → s.threshold ≤ s.buffer_frames
    → let h = (recalc_headroom s).headroom in
      let base = if s.use_period_size_min_as_headroom then u32 s.period_size_min else 0 in
      let wanted = if s.is_batch then u32 (base + s.period_frames) else base in
      (h + s.threshold ≤ s.buffer_frames)
      × (h ≤ wanted)
      × ((h ≡ wanted) ⊎ (h + s.threshold ≡ s.buffer_frames))
unfolding recalc_headroom
recalc_headroom-Fits s fits = ground arith

-- The quotient of a small negative product, taken as unsigned.
wrapped_quotient :
    (x : ℕ) → 0 < x → x < 2 ^ 63 → 2 ^ 63 / nsec_per_sec ≤ u64 (2 ^ 64 - u64 x) / nsec_per_sec
wrapped_quotient x p f = omega arith

product_pos : (a b : ℕ) → 0 < a → 0 < b → 0 < a * b
product_pos zero b p q = absurd (omega arith)
product_pos (suc a) zero p q = absurd (omega arith)
product_pos (suc a) (suc b) p q = omega arith

future_diff :
    (rate now stamp : ℕ)
    → now < stamp
    → 0 < rate
    → (stamp - now) * rate < 2 ^ 63
    → 2 ^ 63 / nsec_per_sec ≤ diff_of rate now stamp
unfolding diff_of
future_diff rate now stamp l p f =
    let w =
      wrapped_quotient ((stamp - now) * rate) (product_pos (stamp - now) rate (omega arith) p) f in
    ground arith

past_diff :
    (rate now stamp : ℕ)
    → stamp < now
    → (now - stamp) * rate < 2 ^ 63
    → diff_of rate now stamp ≡ (now - stamp) * rate / nsec_per_sec
unfolding diff_of
past_diff rate now stamp l f = ground arith

-- Where hardware time stamps are in use and one was read, that is not 0, before the wakeup, and less
-- than three periods of frames away, and the products and sums do not wrap around, those frames are
-- added to the delay, a period at most, and the count of errors is cleared.
with_htimestamp_past :
    {D : Type 0} (os : Os Call Answer) (now avail : ℕ) (s : State D) (t : History)
    → let a = os t snd_pcm_htimestamp in
      let frames = (now - a.tstamp_ns) * s.rate in
      let r = with_htimestamp now avail os s t in
      s.htimestamp ≡ true
      → is_neg a.ret ≡ false
      → 0 < a.tstamp_ns
      → a.tstamp_ns < now
      → frames < 2 ^ 63
      → frames / nsec_per_sec < s.threshold * 3
      → a.value + s.threshold < 2 ^ 64
      → (r.0.1 ≡ a.value + min_of (frames / nsec_per_sec) s.threshold)
        × (a.value ≤ r.0.1)
        × (r.1.htimestamp_error ≡ 0)
unfolding with_htimestamp use_htimestamp
with_htimestamp_past os now avail s t on ok some_time l f near room =
    let e = past_diff s.rate now (os t snd_pcm_htimestamp).tstamp_ns l f in ground arith

-- Where hardware time stamps are in use and one was read, that is behind the wakeup, by whatever time
-- whose product with the rate, not 0, fits 63 bits, it does not correct the delay: with a period
-- below 2 ^ 31 frames and errors allowed at all, it counts as an error of the driver, and with more
-- errors than are allowed, time stamps are given up. The sign of the difference is lost in the
-- division by NSEC_PER_SEC, which is unsigned.
with_htimestamp_future :
    {D : Type 0} (os : Os Call Answer) (now avail : ℕ) (s : State D) (t : History)
    → let a = os t snd_pcm_htimestamp in
      let r = with_htimestamp now avail os s t in
      s.htimestamp ≡ true
      → is_neg a.ret ≡ false
      → now < a.tstamp_ns
      → 0 < s.rate
      → (a.tstamp_ns - now) * s.rate < 2 ^ 63
      → s.threshold < 2 ^ 31
      → 0 < s.htimestamp_max_errors
      → s.htimestamp_error + 1 < 2 ^ 32
      → (r.0.1 ≡ a.value)
        × ((r.1.htimestamp_error ≡ s.htimestamp_error + 1) × (r.1.htimestamp ≡ true)
            ⊎ (s.htimestamp_max_errors ≤ s.htimestamp_error) × (r.1.htimestamp ≡ false))
unfolding with_htimestamp use_htimestamp
with_htimestamp_future os now avail s t on ok l p f small allowed room =
    let h = future_diff s.rate now (os t snd_pcm_htimestamp).tstamp_ns l p f in ground arith

div_mono : (a b k : ℕ) → 0 < k → a ≤ b → a / k ≤ b / k
div_mono a b k p h =
    let q : a / k * k ≤ a = div-mul-le_self a k in
    (le-div_iff_mul-le {k = k} {x = a / k} {y = b} p).1 (omega arith)

next_time-Bounds :
    (now x y : ℕ) → now + x < 2 ^ 64 → x ≤ y → (now ≤ u64 (now + x)) × (u64 (now + x) ≤ now + y)
next_time-Bounds now x y room l = omega arith

-- With a delay beyond the target, a rate that is not 0 and no wrap-around, an early wakeup sets the
-- next time between the current time and the time that two targets of frames take from it.
early_time-Bounds :
    (d : Doubles) (now rate : ℕ) (r : Status)
    → r.target < r.delay
    → 2 * r.target * nsec_per_sec + now < 2 ^ 64
    → 0 < rate
    → (now ≤ early_time d now r rate)
      × (early_time d now r rate ≤ now + 2 * r.target * nsec_per_sec / rate)
unfolding early_time
early_time-Bounds d now rate r beyond room p =
    let delay = if ltb (u64 (r.target * 3)) r.delay then u64 (r.target * 3) else r.delay in
    let x = u64 (u64 (delay + 2 ^ 64 - r.target) * nsec_per_sec) in
    let hx : x ≤ 2 * r.target * nsec_per_sec = ground arith in
    let small : x / rate ≤ x = div-le_self x rate in
    let mono : x / rate ≤ 2 * r.target * nsec_per_sec / rate =
      div_mono x (2 * r.target * nsec_per_sec) rate p hx in
    next_time-Bounds now (x / rate) (2 * r.target * nsec_per_sec / rate) (omega arith) mono

module _ (d : Doubles) where
  open d use {Double, neg, less}

  -- The bound for a new start is the bound of the error, or below it.
  abbrev pub Sorted : State Double → Type 0
  Sorted s = (s.max_resync ≡ s.max_error) ⊎ (less s.max_resync s.max_error ≡ true)

  -- Where max_resync is max_error or below it, and above its own opposite, the timing error that the
  -- filter gets is neither above max_error nor below its opposite, and an error that is not out of sync
  -- is left as it is. Of the order of the doubles this needs what holds for NaN too: nothing is less
  -- than itself, less is transitive, and the opposites are in the opposite order.
  bounded_error-Bounds :
      (s : State Double) (err : Double)
      → ((x : Double) → less x x ≡ false)
      → ((x y z : Double) → less x y ≡ true → less y z ≡ true → less x z ≡ true)
      → ((x y : Double) → less x y ≡ true → less (neg y) (neg x) ≡ true)
      → Sorted s
      → less (neg s.max_resync) s.max_resync ≡ true
      → (less s.max_error (bounded_error d s err) ≡ false)
        × (less (bounded_error d s err) (neg s.max_error) ≡ false)
        × ((out_of_sync d s err ≡ true) ⊎ (bounded_error d s err ≡ err))
  unfolding bounded_error
  bounded_error-Bounds s err irrefl trans anti (inl e) positive = grind (arith, irrefl, trans, anti)
  bounded_error-Bounds s err irrefl trans anti (inr l) positive = grind (arith, irrefl, trans, anti)
