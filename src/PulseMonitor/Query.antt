-- ===== src/PulseMonitor/Query.antt =====
-- pulse-monitor/main.c: the queries. The callback of a query fills what the query is about, and the
-- thread of main waits until the callback says that it is done.
use overthinkin.Base.{
  ℕ, zero, suc, ◌+◌, ◌%◌, ◌^◌, Bool, true, false, ◌||◌, List, ◌∷◌, [], Option, none, some, take,
  Bytes, codes, same, ℤ, pos, negsuc, ◌==ℤ◌, if◌then◌else◌,
}
use overthinkin.PulseMonitor.Calls.{
  PulseAudio, SinkInfo, StreamInfo, Profile, CardInfo, ClientInfo, ModuleInfo, Reply, Call, lock,
  unlock, wait, unref, get_sink_info, get_source_info, get_sink_input_info, get_source_output_info,
  get_card_info, get_client_info, get_module_info, get_server_info, M, pure, stuck, ◌>>=◌, ◌>>◌,
  call,
}

-- set_str, into a field of STR_SIZE bytes.
unfoldable pub set_str : Option Bytes → Bytes
set_str none = []
set_str (some s) = take 255 s

-- A pointer that may be NULL to something with a name.
abbrev pub name_of : Option (Option Bytes) → Option Bytes
name_of none = none
name_of (some s) = s

-- sink_data, and source_data.
pub record SinkData : Type 0 where
  pub name : Bytes
  pub desc : Bytes
  pub port : Bytes
  pub volume : ℕ
  pub mute : ℤ
  pub state : ℤ

-- si_data, and so_data; the owner is the sink of the one and the source of the other.
pub record StreamData : Type 0 where
  pub name : Bytes
  pub owner : ℕ
  pub client : ℕ
  pub volume : ℕ
  pub mute : ℤ
  pub corked : ℤ

pub record CardData : Type 0 where
  pub name : Bytes
  pub profile : Bytes
  pub n_profiles : ℕ

pub record ServerData : Type 0 where
  pub default_sink : Bytes
  pub default_source : Bytes

pub record ModuleData : Type 0 where
  pub name : Bytes
  pub argument : Bytes

-- struct sync, and the data.
pub record Query (D : Type 0) : Type 0 where
  pub done : Bool
  pub success : Bool
  pub d : D

-- The order of the tests of a callback: an error, the end, and no pointer.
unfoldable pub on_reply : {I D : Type 0} → (I → D) → ℤ → Option I → Query D → Query D
on_reply fill (negsuc n) i q = record q { success = false; done = true }
on_reply fill (pos (suc n)) i q = record q { done = true }
on_reply fill (pos zero) none q = q
on_reply fill (pos zero) (some i) q = record q { success = true; d = fill i }

-- What sk_cb takes from the information.
unfoldable pub sink_data : PulseAudio → SinkInfo → SinkData
sink_data pa i = record {
  name = set_str i.name;
  desc = set_str i.description;
  volume = pa.cvolume_avg i.volume;
  mute = i.mute;
  state = i.state;
  port = set_str (name_of i.active_port);
}

unfoldable pub sk_cb : PulseAudio → Reply → Query SinkData → Query SinkData
sk_cb pa r = on_reply (sink_data pa) r.eol r.sink

unfoldable pub source_cb : PulseAudio → Reply → Query SinkData → Query SinkData
source_cb pa r =
    on_reply
      (λ (i : SinkInfo). record {
        name = set_str i.name;
        desc = set_str i.description;
        volume = pa.cvolume_avg i.volume;
        mute = i.mute;
        state = i.state;
        port = set_str (name_of i.active_port);
      })
      r.eol r.source

unfoldable pub si_cb : PulseAudio → Reply → Query StreamData → Query StreamData
si_cb pa r =
    on_reply
      (λ (i : StreamInfo). record {
        name = set_str i.name;
        owner = i.owner;
        client = i.client;
        volume = pa.cvolume_avg i.volume;
        mute = i.mute;
        corked = i.corked;
      })
      r.eol r.sink_input

unfoldable pub so_cb : PulseAudio → Reply → Query StreamData → Query StreamData
so_cb pa r =
    on_reply
      (λ (i : StreamInfo). record {
        name = set_str i.name;
        owner = i.owner;
        client = i.client;
        volume = pa.cvolume_avg i.volume;
        mute = i.mute;
        corked = i.corked;
      })
      r.eol r.source_output

-- A round of the loop over the profiles of a card; `n` is a uint32_t.
unfoldable pub count_one : Profile → ℕ → ℕ
count_one p n =
    if p.available ==ℤ pos 0
    then n
    else if same p.name (codes "off") || same p.name (codes "pro-audio")
    then n
    else (n + 1) % 2 ^ 32

unfoldable pub count_profiles : List Profile → ℕ → ℕ
count_profiles [] n = n
count_profiles (p ∷ ps) n = count_profiles ps (count_one p n)

abbrev pub profiles_of : Option (List Profile) → List Profile
profiles_of none = []
profiles_of (some ps) = ps

unfoldable pub card_cb : Reply → Query CardData → Query CardData
card_cb r =
    on_reply
      (λ (i : CardInfo). record {
        name = set_str i.name;
        profile = set_str (name_of i.active_profile2);
        n_profiles = count_profiles (profiles_of i.profiles2) 0;
      })
      r.eol r.card

-- The server answers once, without `eol`.
unfoldable pub server_cb2 : Reply → Query ServerData → Query ServerData
server_cb2 r q = elim r.server [
  | none ↦ record q { success = false; done = true }
  | some i ↦ record {
    success = true;
    d = record {
      default_sink = set_str i.default_sink_name;
      default_source = set_str i.default_source_name;
    };
    done = true;
  }
]

unfoldable pub client_cb : Reply → Query Bytes → Query Bytes
client_cb r = on_reply (λ (i : ClientInfo). set_str i.name) r.eol r.client

unfoldable pub module_cb : Reply → Query ModuleData → Query ModuleData
module_cb r =
    on_reply (λ (i : ModuleInfo). record { name = set_str i.name; argument = set_str i.argument })
      r.eol r.module_info

-- The callbacks that are called while main waits.
unfoldable pub deliver : {D : Type 0} → (Reply → Query D → Query D) → List Reply → Query D → Query D
deliver cb [] q = q
deliver cb (r ∷ rs) q = deliver cb rs (cb r q)

-- The wait until `done`, for a number of rounds.
unfoldable pub await : {D : Type 0} → ℕ → (Reply → Query D → Query D) → Query D → M (Query D)
await zero cb q = stuck
await (suc f) cb q =
    let rest = await f cb in
    if q.done then pure q else call wait >>= λ a. rest (deliver cb a.replies q)

-- A query, from lock to the result; `blank` is what `= {0}` gives, and `get` the call that asks.
unfoldable pub run_query : {D : Type 0} → ℕ → Call → D → (Reply → Query D → Query D) → M (Option D)
run_query f get blank cb = call lock >> call get >>= λ op.
    if op.null
    then call unlock >> pure none
    else await f cb (record { done = false; success = false; d = blank }) >>= λ q.
        call unlock >> call unref >> pure (if q.success then some q.d else none)

abbrev pub no_sink : SinkData
no_sink = record { name = []; desc = []; port = []; volume = 0; mute = pos 0; state = pos 0 }

abbrev no_stream : StreamData
no_stream = record { name = []; owner = 0; client = 0; volume = 0; mute = pos 0; corked = pos 0 }

-- The queries; `none` is false.
module _ (pa : PulseAudio) (f : ℕ) where
  unfoldable pub query_sink : ℕ → M (Option SinkData)
  query_sink idx = run_query f (get_sink_info idx) no_sink (sk_cb pa)

  unfoldable pub query_source : ℕ → M (Option SinkData)
  query_source idx = run_query f (get_source_info idx) no_sink (source_cb pa)

  unfoldable pub query_si : ℕ → M (Option StreamData)
  query_si idx = run_query f (get_sink_input_info idx) no_stream (si_cb pa)

  unfoldable pub query_so : ℕ → M (Option StreamData)
  query_so idx = run_query f (get_source_output_info idx) no_stream (so_cb pa)

unfoldable pub query_card : ℕ → ℕ → M (Option CardData)
query_card f idx =
    run_query f (get_card_info idx) (record { name = []; profile = []; n_profiles = 0 }) card_cb

unfoldable pub query_server : ℕ → M (Option ServerData)
query_server f =
    run_query f get_server_info (record { default_sink = []; default_source = [] }) server_cb2

unfoldable pub query_client : ℕ → ℕ → M (Option Bytes)
query_client f idx = run_query f (get_client_info idx) [] client_cb

unfoldable pub query_module : ℕ → ℕ → M (Option ModuleData)
query_module f idx =
    run_query f (get_module_info idx) (record { name = []; argument = [] }) module_cb
