-- ===== src/Applets/Bounds.antt =====
-- check-my-alsa/app-common.c: what the options leave in the configuration of a test.
use overthinkin.Base.{
  ◌*◌, ◌++◌, ℕ, ◌%◌, ◌^◌, ◌<◌, ◌≤◌, Bool, true, false, List, ◌∷◌, [], Option, none, some, Bytes,
  codes, same, ℤ, pos, negsuc, ◌==ℤ◌, if◌then◌else◌, ◌≡◌, refl, ap, ◌∙◌, arith,
}
use overthinkin.Applets.Options.{
  PcmSetup, PcmOpt, opt_dev, opt_rate, opt_channels, opt_format, opt_period, opt_duration,
  opt_other, Library, pcm_setup_defaults, parse_long, in_range, at_least, with_ℕ,
  pcm_setup_parse_opt, parse_all,
}

-- A device that is not the default one.
abbrev pub IsHardware : Option Bytes → Type 0
IsHardware none = Unit
IsHardware (some d) = same d (codes "default") ≡ false

-- A configuration that the options may have given.
pub record Sane (s : PcmSetup) : Type 0 where
  pub hardware : IsHardware s.dev
  pub rate_low : 2000 ≤ s.rate
  pub rate_high : s.rate ≤ 768000
  pub channels_low : 1 ≤ s.channels
  pub channels_high : s.channels ≤ 256
  pub period_low : 1 ≤ s.period
  pub duration_high : s.duration_sec < 2 ^ 32

sane :
    {s : PcmSetup}
    → IsHardware s.dev
    → 2000 ≤ s.rate
    → s.rate ≤ 768000
    → 1 ≤ s.channels
    → s.channels ≤ 256
    → 1 ≤ s.period
    → s.duration_sec < 2 ^ 32
    → Sane s
sane a b c d e f g = record {
  hardware = a;
  rate_low = b;
  rate_high = c;
  channels_low = d;
  channels_high = e;
  period_low = f;
  duration_high = g;
}

abbrev pub EveryOption {ℓ} : {A : Type ℓ} → (A → Type 0) → Option A → Type 0
EveryOption P none = Unit
EveryOption P (some a) = P a

in_range-Within :
    (low high : ℕ) (v : Option ℤ) → EveryOption (λ n. low ≤ n × n ≤ high) (in_range low high v)
in_range-Within low high none = _
in_range-Within low high (some (negsuc n)) = _
in_range-Within low high (some (pos n)) = ground arith

at_least-Within : (low : ℕ) (v : Option ℤ) → EveryOption (λ n. low ≤ n) (at_least low v)
at_least-Within low none = _
at_least-Within low (some (negsuc n)) = _
at_least-Within low (some (pos n)) = ground arith

with_ℕ-Every :
    (P : ℕ → Type 0) (f : ℕ → PcmSetup) (v : Option ℕ)
    → ((n : ℕ) → P n → Sane (f n))
    → EveryOption P v
    → EveryOption Sane (with_ℕ f v)
with_ℕ-Every P f none h p = p
with_ℕ-Every P f (some n) h p = h n p

if-Every :
    (b : Bool) (s : PcmSetup) → (b ≡ false → Sane s) → EveryOption Sane (if b then none else some s)
if-Every true s h = _
if-Every false s h = h refl

at_least-zero : (n : ℕ) → at_least 0 (some (pos n)) ≡ some n
at_least-zero n = ground arith

elim-Every :
    {P : PcmSetup → Type 0} (r : Option PcmSetup) (f : PcmSetup → Option PcmSetup)
    → EveryOption P r
    → ((s : PcmSetup) → P s → EveryOption P (f s))
    → EveryOption P (elim r [ none ↦ none | some s ↦ f s ])
elim-Every none f p h = _
elim-Every (some s) f p h = h s p

elim-some :
    (r : Option PcmSetup) (f g : PcmSetup → Option PcmSetup) (t : PcmSetup) (l : Option PcmSetup)
    → elim r [ none ↦ none | some s ↦ f s ] ≡ some t
    → ((s : PcmSetup) → f s ≡ some t → g s ≡ l)
    → elim r [ none ↦ none | some s ↦ g s ] ≡ l
elim-some none f g t l k h = cc
elim-some (some s) f g t l k h = h s k

module _ (lib : Library) where
  pcm_setup_parse_opt-Sane :
      (o : PcmOpt) (s : PcmSetup) → Sane s → EveryOption Sane (pcm_setup_parse_opt lib o s)
  unfolding pcm_setup_parse_opt
  pcm_setup_parse_opt-Sane (opt_dev arg) s h =
      if-Every (same arg (codes "default")) (record s { dev = some arg })
        (λ e.
          sane e h.rate_low h.rate_high h.channels_low h.channels_high h.period_low h.duration_high)
  pcm_setup_parse_opt-Sane (opt_rate arg) s h =
      with_ℕ-Every (λ n. 2000 ≤ n × n ≤ 768000) (λ n. record s { rate = n })
        (in_range 2000 768000 (parse_long lib arg))
        (λ n b. sane h.hardware b.0 b.1 h.channels_low h.channels_high h.period_low h.duration_high)
        (in_range-Within 2000 768000 (parse_long lib arg))
  pcm_setup_parse_opt-Sane (opt_channels arg) s h =
      with_ℕ-Every (λ n. 1 ≤ n × n ≤ 256) (λ n. record s { channels = n })
        (in_range 1 256 (parse_long lib arg))
        (λ n b. sane h.hardware h.rate_low h.rate_high b.0 b.1 h.period_low h.duration_high)
        (in_range-Within 1 256 (parse_long lib arg))
  pcm_setup_parse_opt-Sane (opt_format arg) s h =
      if-Every (lib.snd_pcm_format_value arg ==ℤ lib.format_unknown)
        (record s { format = lib.snd_pcm_format_value arg })
        (λ e.
          sane h.hardware h.rate_low h.rate_high h.channels_low h.channels_high h.period_low
            h.duration_high)
  pcm_setup_parse_opt-Sane (opt_period arg) s h =
      with_ℕ-Every (λ n. 1 ≤ n) (λ n. record s { period = n }) (at_least 1 (parse_long lib arg))
        (λ n b.
          sane h.hardware h.rate_low h.rate_high h.channels_low h.channels_high b h.duration_high)
        (at_least-Within 1 (parse_long lib arg))
  pcm_setup_parse_opt-Sane (opt_duration arg) s h =
      with_ℕ-Every (λ n. 0 ≤ n) (λ n. record s { duration_sec = n % 2 ^ 32 })
        (at_least 0 (parse_long lib arg))
        (λ n b.
          sane h.hardware h.rate_low h.rate_high h.channels_low h.channels_high h.period_low
            (omega arith))
        (at_least-Within 0 (parse_long lib arg))
  pcm_setup_parse_opt-Sane opt_other s h = _

  parse_all-keep :
      (os : List PcmOpt) (s : PcmSetup) → Sane s → EveryOption Sane (parse_all lib os s)
  unfolding parse_all
  parse_all-keep [] s h = h
  parse_all-keep (o ∷ os) s h =
      elim-Every (pcm_setup_parse_opt lib o s) (parse_all lib os) (pcm_setup_parse_opt-Sane o s h)
        (parse_all-keep os)

  pcm_setup_defaults-Sane : Sane (pcm_setup_defaults lib)
  unfolding pcm_setup_defaults
  pcm_setup_defaults-Sane =
      sane _ (omega arith) (omega arith) (omega arith) (omega arith) (omega arith) (omega arith)

  -- Whatever options are given, and whatever the C library and alsa-lib make of their arguments,
  -- where none is refused the configuration has a rate from 2000 to 768000, 1 to 256 channels, a
  -- period of at least one frame, a duration of 32 bits, and no device by the name of "default".
  pub parse_all-Sane :
      (os : List PcmOpt) → EveryOption Sane (parse_all lib os (pcm_setup_defaults lib))
  parse_all-Sane os = parse_all-keep os (pcm_setup_defaults lib) pcm_setup_defaults-Sane

  -- The last option is read when all before it have been.
  parse_all-snoc :
      (os : List PcmOpt) (o : PcmOpt) (s t : PcmSetup)
      → parse_all lib os s ≡ some t
      → parse_all lib (os ++ o ∷ []) s ≡ parse_all lib (o ∷ []) t
  unfolding parse_all
  parse_all-snoc [] o s t h =
      ap (λ r. elim r [ none ↦ none | some s' ↦ parse_all lib (o ∷ []) s' ]) h
  parse_all-snoc (o' ∷ os) o s t h =
      elim-some (pcm_setup_parse_opt lib o' s) (parse_all lib os) (parse_all lib (os ++ o ∷ [])) t
        (parse_all lib (o ∷ []) t) h (λ s' k. parse_all-snoc os o s' t k)

  duration-zero :
      (t : PcmSetup) (arg : Bytes) (k : ℕ)
      → parse_long lib arg ≡ some (pos (k * 2 ^ 32))
      → parse_all lib (opt_duration arg ∷ []) t ≡ some (record t { duration_sec = 0 })
  unfolding parse_all pcm_setup_parse_opt
  duration-zero t arg k e =
      let then_some : Option ℕ → Option PcmSetup = λ v.
        elim (with_ℕ (λ n. record t { duration_sec = n % 2 ^ 32 }) v) [
          | none ↦ none
          | some s' ↦ some s'
        ] in
      let z : (k * 2 ^ 32) % 2 ^ 32 ≡ 0 = omega arith in
      ap (λ v. then_some (at_least 0 v)) e
      ∙ ap then_some (at_least-zero (k * 2 ^ 32))
      ∙ ap (λ n. some (record t { duration_sec = n })) z

  -- The last option -d decides how long a test runs. Where its argument is a whole number of 2 ^ 32
  -- seconds, as 4294967296 is, nothing refuses it and the duration is 0, which is without end.
  pub parse_all-endless :
      (os : List PcmOpt) (s t : PcmSetup) (arg : Bytes) (k : ℕ)
      → parse_all lib os s ≡ some t
      → parse_long lib arg ≡ some (pos (k * 2 ^ 32))
      → parse_all lib (os ++ opt_duration arg ∷ []) s ≡ some (record t { duration_sec = 0 })
  parse_all-endless os s t arg k h e =
      parse_all-snoc os (opt_duration arg) s t h ∙ duration-zero t arg k e
