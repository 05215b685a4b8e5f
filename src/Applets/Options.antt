-- ===== src/Applets/Options.antt =====
-- check-my-alsa/app-common.c: the configuration of a test, its options, and the level of the log.
use overthinkin.Base.{
  ℕ, zero, suc, ◌%◌, ◌^◌, ltb, Bool, true, false, not, ◌||◌, List, ◌∷◌, [], Option, none, some,
  Bytes, codes, same, ℤ, pos, negsuc, ◌==ℤ◌, if◌then◌else◌,
}

-- struct pcm_setup; `format` is a snd_pcm_format_t.
pub record PcmSetup : Type 0 where
  pub dev : Option Bytes
  pub rate : ℕ
  pub channels : ℕ
  pub format : ℤ
  pub period : ℕ
  pub duration_sec : ℕ

-- What strtol gives, with base 0: the value, what is left of its argument, and whether errno is set.
pub record Parsed : Type 0 where
  pub value : ℤ
  pub left : Bytes
  pub has_errno : Bool

-- An option of PCM_OPTSTRING with its argument, or another.
pub data PcmOpt : Type 0 where
  opt_dev opt_rate opt_channels opt_format opt_period opt_duration : Bytes → PcmOpt
  opt_other : PcmOpt

-- What the C library and alsa-lib give.
pub record Library : Type 0 where
  pub strtol : Bytes → Parsed
  pub snd_pcm_format_value : Bytes → ℤ
  pub format_s16_le : ℤ
  pub format_unknown : ℤ

-- A value from `low` to `high`, as a natural number.
abbrev pub in_range : ℕ → ℕ → Option ℤ → Option ℕ
in_range low high none = none
in_range low high (some (negsuc n)) = none
in_range low high (some (pos n)) = if ltb n low || ltb high n then none else some n

-- A value from `low` on.
abbrev pub at_least : ℕ → Option ℤ → Option ℕ
at_least low none = none
at_least low (some (negsuc n)) = none
at_least low (some (pos n)) = if ltb n low then none else some n

abbrev pub with_ℕ : (ℕ → PcmSetup) → Option ℕ → Option PcmSetup
with_ℕ f none = none
with_ℕ f (some n) = some (f n)

module _ (lib : Library) where
  unfoldable pub pcm_setup_defaults : PcmSetup
  pcm_setup_defaults = record {
    dev = none;
    rate = 48000;
    channels = 2;
    format = lib.format_s16_le;
    period = 1024;
    duration_sec = 30;
  }

  -- parse_long; `none` is an error.
  unfoldable pub parse_long : Bytes → Option ℤ
  parse_long str =
      if (lib.strtol str).has_errno || not (same (lib.strtol str).left [])
      then none
      else some (lib.strtol str).value

  -- parse_card; `none` is -1.
  unfoldable pub parse_card : Bytes → Option ℕ
  parse_card arg = in_range 0 31 (parse_long arg)

  -- pcm_setup_parse_opt; `none` is false, and what has been set of `s` is not used then.
  unfoldable pub pcm_setup_parse_opt : PcmOpt → PcmSetup → Option PcmSetup
  pcm_setup_parse_opt (opt_dev arg) s =
      if same arg (codes "default") then none else some (record s { dev = some arg })
  pcm_setup_parse_opt (opt_rate arg) s =
      with_ℕ (λ n. record s { rate = n }) (in_range 2000 768000 (parse_long arg))
  pcm_setup_parse_opt (opt_channels arg) s =
      with_ℕ (λ n. record s { channels = n }) (in_range 1 256 (parse_long arg))
  pcm_setup_parse_opt (opt_format arg) s =
      if lib.snd_pcm_format_value arg ==ℤ lib.format_unknown
      then none
      else some (record s { format = lib.snd_pcm_format_value arg })
  pcm_setup_parse_opt (opt_period arg) s =
      with_ℕ (λ n. record s { period = n }) (at_least 1 (parse_long arg))
  pcm_setup_parse_opt (opt_duration arg) s =
      with_ℕ (λ n. record s { duration_sec = n % 2 ^ 32 }) (at_least 0 (parse_long arg))
  pcm_setup_parse_opt opt_other s = none

  -- The loop of an applet over its options, but for -v and -h.
  unfoldable pub parse_all : List PcmOpt → PcmSetup → Option PcmSetup
  parse_all [] s = some s
  parse_all (o ∷ os) s = elim (pcm_setup_parse_opt o s) [ none ↦ none | some s' ↦ parse_all os s' ]

-- pcm_setup_check
unfoldable pub pcm_setup_check : PcmSetup → Bool
pcm_setup_check s = elim s.dev [ none ↦ false | some d ↦ true ]

-- log_set_verbose: the level, from LOG_WARN to LOG_TRACE.
unfoldable pub log_set_verbose : ℕ → ℕ
log_set_verbose zero = 2
log_set_verbose (suc zero) = 3
log_set_verbose (suc (suc zero)) = 4
log_set_verbose n = 5
