-- ===== src/PulseMonitor/Calls.antt =====
-- pulse-monitor/main.c: the calls of libpulse and of the output, and programs over them. libpulse
-- is no part of the program: its constants are a record, and its answers are the system's.
use overthinkin.Base.{ℕ, Bool, List, ◌∷◌, Option, none, some, Bytes, ℤ, Trace, Os, Action}
use overthinkin.PulseMonitor.Queue.{Timespec}

-- Constants of the header, and pa_cvolume_avg.
pub record PulseAudio : Type 0 where
  pub event_sink : ℕ
  pub event_source : ℕ
  pub event_sink_input : ℕ
  pub event_source_output : ℕ
  pub event_module : ℕ
  pub event_client : ℕ
  pub event_sample_cache : ℕ
  pub event_server : ℕ
  pub event_card : ℕ
  pub event_new : ℕ
  pub event_change : ℕ
  pub event_remove : ℕ
  pub sink_running : ℤ
  pub sink_idle : ℤ
  pub sink_suspended : ℤ
  pub source_running : ℤ
  pub source_idle : ℤ
  pub source_suspended : ℤ
  pub invalid_index : ℕ
  pub cvolume_avg : List ℕ → ℕ

-- pa_sink_info and the like: the fields that are read. A string may be NULL.
pub record SinkInfo : Type 0 where
  pub name : Option Bytes
  pub description : Option Bytes
  pub volume : List ℕ
  pub mute : ℤ
  pub state : ℤ
  pub active_port : Option (Option Bytes)

-- pa_sink_input_info, with `sink` as its owner, and pa_source_output_info, with `source` as its owner.
pub record StreamInfo : Type 0 where
  pub name : Option Bytes
  pub owner : ℕ
  pub client : ℕ
  pub volume : List ℕ
  pub mute : ℤ
  pub corked : ℤ

pub record Profile : Type 0 where
  pub name : Bytes
  pub available : ℤ

pub record CardInfo : Type 0 where
  pub name : Option Bytes
  pub active_profile2 : Option (Option Bytes)
  pub profiles2 : Option (List Profile)

pub record ServerInfo : Type 0 where
  pub default_sink_name : Option Bytes
  pub default_source_name : Option Bytes

pub record ClientInfo : Type 0 where
  pub name : Option Bytes

pub record ModuleInfo : Type 0 where
  pub name : Option Bytes
  pub argument : Option Bytes

-- One call of the callback of a query: `eol`, and the pointer of the kind that was asked for.
pub record Reply : Type 0 where
  pub eol : ℤ
  pub sink : Option SinkInfo
  pub source : Option SinkInfo
  pub sink_input : Option StreamInfo
  pub source_output : Option StreamInfo
  pub card : Option CardInfo
  pub server : Option ServerInfo
  pub client : Option ClientInfo
  pub module_info : Option ModuleInfo

-- pa_context_get_state, as far as state_cb tells them apart.
pub data ContextState : Type 0 where
  ready failed other : ContextState

-- What printf is given, conversion by conversion.
pub data Piece : Type 0 where
  clock : Timespec → Piece
  text : Bytes → Piece
  padded : ℕ → Bytes → Piece
  number : ℕ → Piece
  percent : ℕ → Piece
  newline : Piece

pub data Call : Type 0 where
  mainloop_new context_new set_state_callback connect start set_subscribe_callback subscribe : Call
  lock unlock wait unref disconnect context_unref stop free : Call
  get_sink_info get_source_info get_sink_input_info get_source_output_info : ℕ → Call
  get_card_info get_client_info get_module_info : ℕ → Call
  get_server_info fflush : Call
  print : Piece → Call

-- What a call gives: a pointer may be null, and a number negative. A wait is answered by the
-- callbacks that are called meanwhile.
pub record Answer : Type 0 where
  pub null : Bool
  pub ret : ℤ
  pub states : List ContextState
  pub syncs : List Bool
  pub replies : List Reply

abbrev pub History : Type 0
History = Trace Call Answer

-- A program; `none` is one that still waits.
abbrev pub M : Type 0 → Type 0
M A = Action Call Answer (Option A)

abbrev pub pure : {A : Type 0} → A → M A
pure a os t = (some a, t)

abbrev pub stuck : {A : Type 0} → M A
stuck os t = (none, t)

abbrev pub go_on :
    {A B : Type 0} → (A → M B) → Os Call Answer → Option A × History → Option B × History
go_on f os (none, t) = (none, t)
go_on f os (some a, t) = f a os t

infixl 5 ◌>>=◌ ◌>>◌
abbrev pub ◌>>=◌ : {A B : Type 0} → M A → (A → M B) → M B
◌>>=◌ m f os t = go_on f os (m os t)

abbrev pub ◌>>◌ : {A B : Type 0} → M A → M B → M B
m >> k = m >>= λ _. k

abbrev pub call : Call → M Answer
call c os t = let r = os t c in (some r, (c, r) ∷ t)

abbrev pub printf : Piece → M Answer
printf p = call (print p)
