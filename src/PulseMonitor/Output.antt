-- ===== src/PulseMonitor/Output.antt =====
-- pulse-monitor/main.c: what is printed of an event.
use overthinkin.Base.{
  ℕ, ◌+◌, ◌*◌, ◌/◌, ◌==◌, ◌∷◌, [], Option, none, some, Bytes, codes, ℤ, pos, ◌==ℤ◌, if◌then◌else◌,
}
use overthinkin.PulseMonitor.Queue.{Event, Timespec}
use overthinkin.PulseMonitor.Calls.{
  PulseAudio, clock, text, padded, number, percent, newline, fflush, M, pure, ◌>>=◌, ◌>>◌, call,
  printf,
}
use overthinkin.PulseMonitor.Query.{
  SinkData, StreamData, CardData, ServerData, ModuleData, query_sink, query_source, query_si,
  query_so, query_card, query_server, query_client, query_module,
}

-- (int) (v * 100.0 / PA_VOLUME_NORM + 0.5), which is exact: PA_VOLUME_NORM is 2 ^ 16.
unfoldable pub vol_pct : ℕ → ℕ
vol_pct v = (v * 200 + 65536) / 131072

-- A literal.
abbrev pub say : Bytes → M (Unit {0})
say s = printf (text s) >> pure tt

unfoldable pub print_time : Timespec → M (Unit {0})
print_time ts = printf (clock ts) >> pure tt

-- The muted or corked half of a line.
abbrev either_of : ℤ → Bytes → Bytes → Bytes
either_of flag yes_text no_text = if flag ==ℤ pos 0 then no_text else yes_text

abbrev muted : ℤ → Bytes
muted flag = either_of flag (codes "  muted") (codes "unmuted")

abbrev corked_text : ℤ → Bytes
corked_text flag = either_of flag (codes "  corked") (codes "uncorked")

abbrev pub say_unless_empty : Bytes → M (Unit {0}) → M (Unit {0})
say_unless_empty [] m = pure tt
say_unless_empty (c ∷ s) m = m

abbrev deleted : M (Unit {0})
deleted = say (codes " (deleted)")

-- The end of a line.
unfoldable pub end_line : M (Unit {0})
end_line = printf newline >> call fflush >> pure tt

module _ (pa : PulseAudio) where
  unfoldable pub facility_str : ℕ → Bytes
  facility_str f =
      if f == pa.event_sink
      then codes "sink"
      else if f == pa.event_source
      then codes "source"
      else if f == pa.event_sink_input
      then codes "sink-input"
      else if f == pa.event_source_output
      then codes "source-output"
      else if f == pa.event_module
      then codes "module"
      else if f == pa.event_client
      then codes "client"
      else if f == pa.event_sample_cache
      then codes "sample-cache"
      else if f == pa.event_server
      then codes "server"
      else if f == pa.event_card
      then codes "card"
      else codes "?"

  unfoldable pub type_str : ℕ → Bytes
  type_str t =
      if t == pa.event_new
      then codes "new"
      else if t == pa.event_change
      then codes "change"
      else if t == pa.event_remove
      then codes "remove"
      else codes "?"

  unfoldable pub sink_state_name : ℤ → Bytes
  sink_state_name s =
      if s ==ℤ pa.sink_running
      then codes "RUNNING"
      else if s ==ℤ pa.sink_idle
      then codes "IDLE"
      else if s ==ℤ pa.sink_suspended
      then codes "SUSPENDED"
      else codes "?"

  unfoldable pub source_state_name : ℤ → Bytes
  source_state_name s =
      if s ==ℤ pa.source_running
      then codes "RUNNING"
      else if s ==ℤ pa.source_idle
      then codes "IDLE"
      else if s ==ℤ pa.source_suspended
      then codes "SUSPENDED"
      else codes "?"

  unfoldable pub print_idx : ℕ → M (Unit {0})
  print_idx idx =
      if idx == pa.invalid_index
      then say (codes "#-    ")
      else say (codes "#") >> printf (number idx) >> pure tt

  -- The cases of the switch of process_event.
  unfoldable pub show_sink : Option SinkData → M (Unit {0})
  show_sink none = deleted
  show_sink (some d) =
      say (codes " [")
      >> say d.desc
      >> say (codes "] ")
      >> printf (percent (vol_pct d.volume))
      >> say (codes " ")
      >> say (muted d.mute)
      >> say_unless_empty d.port (say (codes " port:") >> say d.port)
      >> say (codes " state:")
      >> say (sink_state_name d.state)

  unfoldable pub show_source : Option SinkData → M (Unit {0})
  show_source none = deleted
  show_source (some d) =
      say (codes " [")
      >> say d.desc
      >> say (codes "]")
      >> say_unless_empty d.port (say (codes " port:") >> say d.port)
      >> say (codes " ")
      >> printf (percent (vol_pct d.volume))
      >> say (codes " ")
      >> say (muted d.mute)
      >> say (codes " state:")
      >> say (source_state_name d.state)

  unfoldable pub show_stream : Bytes → Option StreamData → M (Unit {0})
  show_stream owner none = deleted
  show_stream owner (some d) =
      say (codes " [")
      >> say d.name
      >> say (codes "] ")
      >> printf (percent (vol_pct d.volume))
      >> say (codes " ")
      >> say (muted d.mute)
      >> say (codes " ")
      >> say (corked_text d.corked)
      >> say (codes " client")
      >> print_idx d.client
      >> say owner
      >> print_idx d.owner

  unfoldable pub show_card : Option CardData → M (Unit {0})
  show_card none = deleted
  show_card (some d) =
      say (codes " [")
      >> say d.name
      >> say (codes "]")
      >> say_unless_empty d.profile (
          say (codes " profile:")
          >> say d.profile
          >> say (codes " (")
          >> printf (number d.n_profiles)
          >> say (codes ")"))

  unfoldable pub show_server : Option ServerData → M (Unit {0})
  show_server none = say (codes " (query failed)")
  show_server (some d) =
      say (codes " (default)")
      >> say (codes " sink:")
      >> say d.default_sink
      >> say (codes " source:")
      >> say d.default_source

  unfoldable pub show_client : Option Bytes → M (Unit {0})
  show_client none = deleted
  show_client (some name) = say (codes " [") >> say name >> say (codes "]")

  unfoldable pub show_module : Option ModuleData → M (Unit {0})
  show_module none = deleted
  show_module (some d) =
      say (codes " [")
      >> say d.name
      >> say (codes "]")
      >> say_unless_empty d.argument (say (codes " ") >> say d.argument)

  -- The switch of process_event.
  unfoldable pub show_facility : ℕ → ℕ → ℕ → M (Unit {0})
  show_facility f fac idx =
      if fac == pa.event_sink
      then query_sink pa f idx >>= show_sink
      else if fac == pa.event_source
      then query_source pa f idx >>= show_source
      else if fac == pa.event_sink_input
      then query_si pa f idx >>= show_stream (codes " sink")
      else if fac == pa.event_source_output
      then query_so pa f idx >>= show_stream (codes " source")
      else if fac == pa.event_card
      then query_card f idx >>= show_card
      else if fac == pa.event_server
      then query_server f >>= show_server
      else if fac == pa.event_client
      then query_client f idx >>= show_client
      else if fac == pa.event_module
      then query_module f idx >>= show_module
      else pure tt

  -- The rest of a line.
  unfoldable pub show_rest : ℕ → Event → M (Unit {0})
  show_rest f ev =
      if ev.type == pa.event_remove then deleted else show_facility f ev.facility ev.idx

  -- The beginning of a line.
  unfoldable pub begin_line : Event → M (Unit {0})
  begin_line ev =
      print_time ev.ts
      >> say (codes " ")
      >> printf (padded 6 (type_str ev.type))
      >> say (codes " ")
      >> printf (padded 13 (facility_str ev.facility))
      >> say (codes " ")
      >> print_idx ev.idx

  -- process_event, with the number of waits that a query may take.
  unfoldable pub process_event : ℕ → Event → M (Unit {0})
  process_event f ev = begin_line ev >> show_rest f ev >> end_line
