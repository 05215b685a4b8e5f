-- ===== src/PipewireXrun/Config.antt =====
-- pipewire-xrun/main.c: the options, their check, and the formats.
use overthinkin.Base.{
  ℕ, zero, suc, ◌+◌, ◌-◌, ◌*◌, ◌/◌, ◌%◌, ◌^◌, ◌==◌, Bool, false, not, ◌&&◌, ◌||◌, List, ◌∷◌, [],
  take, map, Bytes, ℤ, pos, negsuc, if◌then◌else◌,
}

-- Floating point, which the language of the model lacks, with the constants of the source. No law
-- of it is assumed.
pub record Real : Type 1 where
  pub Double : Type 0
  pub of_ℕ : ℕ → Double
  pub add : Double → Double → Double
  pub sub : Double → Double → Double
  pub mul : Double → Double → Double
  pub quot : Double → Double → Double
  pub to_u64 : Double → ℕ
  pub at_least : Double → Double → Bool
  pub sin : Double → Double
  pub two_pi : Double
  pub threshold_1 : Double
  pub threshold_2 : Double
  pub threshold_3 : Double

-- What the headers of libspa give: its formats, and their names.
pub record Spa : Type 0 where
  pub unknown : ℕ
  pub f32 : ℕ
  pub s16 : List ℕ
  pub u16 : List ℕ
  pub four_bytes : List ℕ
  pub f64 : List ℕ
  pub one_byte : List ℕ
  pub from_short_name : Bytes → ℕ
  pub toupper : ℕ → ℕ

-- struct bench_config
pub record BenchConfig (D : Type 0) : Type 0 where
  pub rate : ℕ
  pub channels : ℕ
  pub quantum : ℕ
  pub duration_sec : ℕ
  pub format : ℕ
  pub threshold_1 : D
  pub threshold_2 : D
  pub threshold_3 : D

-- Whether a case label is among those of a branch.
abbrev pub one_of : ℕ → List ℕ → Bool
one_of f [] = false
one_of f (c ∷ cs) = (f == c) || one_of f cs

unfoldable pub format_sample_size : Spa → ℕ → ℕ
format_sample_size spa f =
    if one_of f spa.s16 || one_of f spa.u16
    then 2
    else if one_of f spa.four_bytes
    then 4
    else if one_of f spa.f64
    then 8
    else if one_of f spa.one_byte
    then 1
    else 0

-- `x & y` of numbers of n bits.
unfoldable pub bit_and : ℕ → ℕ → ℕ → ℕ
bit_and zero x y = 0
bit_and (suc n) x y = x % 2 * (y % 2) + 2 * bit_and n (x / 2) (y / 2)

unfoldable pub is_power_of_two : ℕ → Bool
is_power_of_two x = not (x == 0) && bit_and 32 x (x - 1) == 0

unfoldable pub parse_format : Spa → Bytes → ℕ
parse_format spa name = spa.from_short_name (map spa.toupper (take 31 name))

-- The options that getopt gives, with their arguments.
pub data Opt : Type 0 where
  opt_r opt_c opt_q opt_d opt_f : Bytes → Opt
  opt_h opt_unknown : Opt

-- What parse_args comes to: a configuration, -1, or the exit of -h.
pub data Parsed (D : Type 0) : Type 0 where
  parsed : BenchConfig D → Parsed D
  refused : Parsed D
  helped : Parsed D

-- `(uint32_t) atoi(optarg)`, of a value in the range of int.
abbrev pub to_u32 : ℤ → ℕ
to_u32 (pos n) = n % 2 ^ 32
to_u32 (negsuc n) = 2 ^ 32 - 1 - n % 2 ^ 32

module _ (real : Real) (spa : Spa) (atoi : Bytes → ℤ) where
  unfoldable pub parse_opts : List Opt → BenchConfig real.Double → Parsed real.Double
  parse_opts [] cfg = parsed cfg
  parse_opts (opt_r arg ∷ os) cfg = parse_opts os (record cfg { rate = to_u32 (atoi arg) })
  parse_opts (opt_c arg ∷ os) cfg = parse_opts os (record cfg { channels = to_u32 (atoi arg) })
  parse_opts (opt_q arg ∷ os) cfg = parse_opts os (record cfg { quantum = to_u32 (atoi arg) })
  parse_opts (opt_d arg ∷ os) cfg = parse_opts os (record cfg { duration_sec = to_u32 (atoi arg) })
  parse_opts (opt_f arg ∷ os) cfg =
      let rest = parse_opts os (record cfg { format = parse_format spa arg }) in
      if parse_format spa arg == spa.unknown then refused else rest
  parse_opts (opt_h ∷ os) cfg = helped
  parse_opts (opt_unknown ∷ os) cfg = refused

  unfoldable pub parse_args : List Opt → Parsed real.Double
  parse_args os = parse_opts os (record {
    rate = 48000;
    channels = 2;
    quantum = 1024;
    duration_sec = 30;
    format = spa.f32;
    threshold_1 = real.threshold_1;
    threshold_2 = real.threshold_2;
    threshold_3 = real.threshold_3;
  })

-- Whether validate_config returns 0.
unfoldable pub validate_config : {D : Type 0} → Spa → BenchConfig D → Bool
validate_config spa cfg =
    if cfg.rate == 0 || cfg.channels == 0 || cfg.quantum == 0 || cfg.duration_sec == 0
    then false
    else if not (is_power_of_two cfg.quantum)
    then false
    else not (format_sample_size spa cfg.format == 0)
