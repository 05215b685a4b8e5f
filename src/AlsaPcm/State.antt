-- ===== src/AlsaPcm/State.antt =====
-- struct alsa_state of check-my-alsa/alsa-pcm.h, the calls of alsa-lib and of the system that
-- alsa-pcm.c makes, and programs over them. `D` is the type of a C double.
use overthinkin.Base.{ℕ, zero, suc, Bool, ◌∷◌, Bytes, ℤ, pos, negsuc, Trace, is_neg, if◌then◌else◌}
use overthinkin.AlsaPcm.Doubles.{Dll}

-- The handle of the device stands in the calls alone; the hooks are here by whether they are set,
-- and a call of one is an event of the trace, since the hooks of the applets do not touch the
-- state. The fields that nothing reads are left out.
pub record State (D : Type 0) : Type 0 where
  pub name : Bytes
  pub timerfd : ℤ
  pub rate : ℕ
  pub channels : ℕ
  pub format : ℤ
  pub frame_size : ℕ
  pub frame_scale : ℕ
  pub planar : Bool
  pub use_mmap : Bool
  pub buffer_frames : ℕ
  pub period_frames : ℕ
  pub period_size_min : ℕ
  pub max_delay : ℕ
  pub min_delay : ℕ
  pub threshold : ℕ
  pub headroom : ℕ
  pub start_delay : ℕ
  pub default_start_delay : ℕ
  pub duration : ℕ
  pub driver_duration : ℕ
  pub driver_rate_denom : ℕ
  pub quantum_limit : ℕ
  pub default_period_size : ℕ
  pub use_period_size_min_as_headroom : Bool
  pub dll : Dll D
  pub dll_bw_max : D
  pub max_error : D
  pub max_resync : D
  pub err_avg : D
  pub err_var : D
  pub err_wdw : D
  pub next_time : ℕ
  pub base_time : ℕ
  pub sample_count : ℕ
  pub last_threshold : ℕ
  pub alsa_sync : Bool
  pub alsa_sync_warning : Bool
  pub htimestamp : Bool
  pub htimestamp_error : ℕ
  pub htimestamp_max_errors : ℕ
  pub opened : Bool
  pub prepared : Bool
  pub started : Bool
  pub alsa_started : Bool
  pub is_batch : Bool
  pub disable_batch : Bool
  pub matching : Bool
  pub resample : Bool
  pub disable_tsched : Bool
  pub have_format : Bool
  pub following : Bool
  pub xrun : ℕ
  pub recoveries : ℕ
  pub recover_fails : ℕ
  pub last_avail : ℕ
  pub last_delay : ℕ
  pub last_target : ℕ
  pub has_cycle_cb : Bool
  pub has_xrun_cb : Bool

pub data PcmState : Type 0 where
  pcm_xrun pcm_suspended pcm_other : PcmState

-- The calls, by their names; what a call is given stands behind it where the program computes it.
pub data Call : Type 0 where
  snd_pcm_open : Bytes → Call
  snd_pcm_close timerfd_create close_timer read_timer clock_gettime : Call
  hw_params_any set_rate_resample set_access_mmap set_access_rw : Call
  set_channels_near set_rate_near : ℕ → Call
  set_format physical_width : ℤ → Call
  is_batch can_disable_period_wakeup set_period_wakeup get_period_size_min : Call
  set_period_size_near set_buffer_size_min set_buffer_size_near : ℕ → Call
  get_buffer_size_max hw_params : Call
  sw_params_current set_tstamp_mode set_tstamp_type set_start_threshold sw_params : Call
  timerfd_settime : ℕ → ℕ → Call
  mmap_begin : ℕ → Call
  areas_silence : ℕ → ℕ → Call
  mmap_commit : ℕ → ℕ → Call
  snd_pcm_prepare snd_pcm_drop snd_pcm_start snd_pcm_status snd_pcm_resume : Call
  snd_pcm_avail snd_pcm_avail_update snd_pcm_htimestamp : Call
  wait_second : Call
  poll_timer : ℕ → Call
  xrun_cb : ℕ → Call
  cycle_cb : Call

-- What a call gives back: its result, errno where it keeps one, and what it writes through its
-- pointers.
pub record Answer : Type 0 where
  pub ret : ℤ
  pub errno : ℕ
  pub value : ℕ
  pub offset : ℕ
  pub pcm_state : PcmState
  -- microseconds from the trigger to the status, as the subtraction of the sources gives them
  pub delay_us : ℕ
  pub tstamp_ns : ℕ
  pub now_ns : ℕ

-- Error codes of Linux, negated.
abbrev pub neg_eio : ℤ
neg_eio = negsuc 4

abbrev pub neg_eagain : ℤ
neg_eagain = negsuc 10

abbrev pub neg_ebusy : ℤ
neg_ebusy = negsuc 15

abbrev pub neg_einval : ℤ
neg_einval = negsuc 21

abbrev pub neg_epipe : ℤ
neg_epipe = negsuc 31

abbrev pub neg_estrpipe : ℤ
neg_estrpipe = negsuc 85

abbrev pub neg_etimedout : ℤ
neg_etimedout = negsuc 109

-- `-errno`
abbrev pub neg_errno : ℕ → ℤ
neg_errno zero = pos 0
neg_errno (suc n) = negsuc n

abbrev pub History : Type 0
History = Trace Call Answer

-- A function of the sources: it changes the state, and makes calls.
abbrev pub M : Type 0 → Type 0 → Type 0
M D A = (History → Call → Answer) → State D → History → A × State D × History

module _ {D : Type 0} where
  abbrev pub pure : {A : Type 0} → A → M D A
  pure a os s t = (a, s, t)

  infixl 5 ◌>>=◌ ◌>>◌
  abbrev pub ◌>>=◌ : {A B : Type 0} → M D A → (A → M D B) → M D B
  ◌>>=◌ m f os s t = let (a, s', t') = m os s t in f a os s' t'

  abbrev pub ◌>>◌ : {A B : Type 0} → M D A → M D B → M D B
  ◌>>◌ m k os s t = let (a, s', t') = m os s t in k os s' t'

  abbrev pub call : Call → M D Answer
  call c os s t = let r = os t c in (r, s, (c, r) ∷ t)

  abbrev pub get : M D (State D)
  get os s t = (s, s, t)

  abbrev pub modify : (State D → State D) → M D (Unit {0})
  modify f os s t = (tt, f s, t)

  -- The macro CHECK: a negative result is returned, else the rest goes on with the answer.
  abbrev pub check : Call → (Answer → M D ℤ) → M D ℤ
  check c rest = do a ← call c; if is_neg a.ret then pure a.ret else rest a

  -- The same, for a function of the sources.
  abbrev pub check_res : M D ℤ → M D ℤ → M D ℤ
  check_res m rest = do r ← m; if is_neg r then pure r else rest
