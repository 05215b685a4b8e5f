-- ===== src/PulseMonitor/Tests.antt =====
-- Runs of pulse-monitor/main.c on small inputs, and its theorems at them.
use overthinkin.Base.{
  ℕ, true, false, List, [], ◌∷◌, ◌++◌, none, some, length, codes, pos, Os, ◌≡◌, ◌≢◌, refl, arith,
}
use overthinkin.PulseMonitor.Queue.{Event, append, sub_cb, take_first, use_up}
use overthinkin.PulseMonitor.Loop.{
  asleep, ended, faulted, Monitor, step_at, arrive, sighandler, started, event_comes, signal_comes,
  Reach, start, later, main_runs, Promised,
}
use overthinkin.PulseMonitor.Safety.{Reach-Promised, Reach-faulted, sighandler-lost}
use overthinkin.PulseMonitor.Alive.{main_runs-sleeps, main_runs-ends}
use overthinkin.PulseMonitor.Calls.{PulseAudio, SinkInfo, Profile, Reply, Call, Answer, ready}
use overthinkin.PulseMonitor.Query.{sink_data, query_sink}
use overthinkin.PulseMonitor.Output.{process_event}
use overthinkin.PulseMonitor.Lines.{Calm}
use overthinkin.PulseMonitor.Prints.{process_event-lines}
use overthinkin.PulseMonitor.Results.{query_sink-result}

abbrev new_sink : Event
new_sink = record {
  next = 0;
  facility = 0;
  type = 0;
  idx = 4;
  ts = record { tv_sec = 1; tv_nsec = 0 };
}

abbrev new_card : Event
new_card = record new_sink { facility = 9; idx = 2 }

-- Two events come, at addresses 7 and 8, before main has looked.
abbrev one_came : Monitor
one_came = arrive 7 new_sink started

abbrev two_came : Monitor
two_came = arrive 8 new_card one_came

one_came-Reach : Reach one_came
one_came-Reach = later start (event_comes started 7 new_sink refl refl)

two_came-Reach : Reach two_came
unfolding arrive sub_cb append
two_came-Reach = later one_came-Reach (event_comes one_came 8 new_card refl refl)

both_handled : ((main_runs 11 two_came).handled ≡ new_sink ∷ new_card ∷ [])
unfolding arrive sub_cb append step_at take_first use_up
both_handled = refl

Reach-Promised_example :
    (waiting : List Event) × Promised waiting two_came.handled two_came.dropped two_came.quit
    × (two_came.arrived ≡ (two_came.handled ++ two_came.dropped) ++ waiting)
Reach-Promised_example = Reach-Promised two_came-Reach

Reach-faulted_example : two_came.at ≢ faulted
Reach-faulted_example = Reach-faulted two_came-Reach

main_runs-sleeps_example :
    (k : ℕ) × ((main_runs k two_came).at ≡ asleep)
    × ((main_runs k two_came).handled ≡ two_came.arrived)
unfolding arrive sub_cb append
main_runs-sleeps_example = main_runs-sleeps two_came-Reach refl

abbrev asked_to_stop : Monitor
asked_to_stop = sighandler two_came

main_runs-ends_example :
    (k : ℕ) × ((main_runs k asked_to_stop).at ≡ ended)
    × ((p : ℕ) → (main_runs k asked_to_stop).store.allocated p ≡ false)
unfolding arrive sub_cb append sighandler
main_runs-ends_example = main_runs-ends (later two_came-Reach (signal_comes two_came)) refl refl

-- main has found nothing, and is about to wait.
abbrev about_to_wait : Monitor
about_to_wait = main_runs 2 started

sighandler-lost_example :
    ((main_runs 6 (sighandler about_to_wait)).at ≡ asleep)
    × ((main_runs 6 (sighandler about_to_wait)).quit ≡ true)
unfolding step_at
sighandler-lost_example = sighandler-lost about_to_wait 5 refl

-- The numbers of pulse/def.h, but for what is not used here.
abbrev pa : PulseAudio
pa = record {
  event_sink = 0;
  event_source = 1;
  event_sink_input = 2;
  event_source_output = 3;
  event_module = 4;
  event_client = 5;
  event_sample_cache = 6;
  event_server = 7;
  event_card = 9;
  event_new = 0;
  event_change = 16;
  event_remove = 32;
  sink_running = pos 0;
  sink_idle = pos 1;
  sink_suspended = pos 2;
  source_running = pos 0;
  source_idle = pos 1;
  source_suspended = pos 2;
  invalid_index = 4294967295;
  cvolume_avg = length;
}

abbrev speaker : SinkInfo
speaker = record {
  name = some (codes "alsa");
  description = some (codes "Speaker");
  volume = 0 ∷ 0 ∷ [];
  mute = pos 0;
  state = pos 1;
  active_port = none;
}

abbrev reply : Reply
reply = record {
  eol = pos 0;
  sink = some speaker;
  source = none;
  sink_input = none;
  source_output = none;
  card = none;
  server = none;
  client = none;
  module_info = none;
}

abbrev the_end : Reply
the_end = record reply { eol = pos 1; sink = none }

-- A server that answers everything at once.
abbrev server : Os Call Answer
server t c = record {
  null = false;
  ret = pos 0;
  states = ready ∷ [];
  syncs = true ∷ [];
  replies = reply ∷ the_end ∷ [];
}

process_event-lines_example : Calm 1 false (process_event pa 2 new_sink server [])
process_event-lines_example =
    process_event-lines server 0 2 pa new_sink [] (λ t h. refl) (omega arith) refl

query_sink-result_example : (query_sink pa 2 4 server []).0 ≡ some (some (sink_data pa speaker))
query_sink-result_example =
    query_sink-result server [] pa 0 4 (reply ∷ []) the_end refl refl (refl, tt) (λ h. cc)

abbrev profiles : List Profile
profiles =
    record { name = codes "off"; available = pos 1 }
    ∷ record { name = codes "hifi"; available = pos 1 }
    ∷ record { name = codes "voice"; available = pos 0 }
    ∷ []
