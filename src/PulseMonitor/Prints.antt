-- ===== src/PulseMonitor/Prints.antt =====
-- pulse-monitor/main.c: process_event prints one line, whatever the event, and asks nothing of the
-- server about what was removed.
use overthinkin.Base.{
  ℕ, suc, ◌+◌, ◌≤◌, ◌==◌, true, false, ◌∷◌, [], Option, none, some, Bytes, codes, Os, inl, inr,
  Option-cases, Bool-cases, ==_iff, take, map, ap, ◌≡◌, refl,
}
use overthinkin.PulseMonitor.Queue.{Event}
use overthinkin.PulseMonitor.Calls.{
  PulseAudio, Reply, Call, Answer, clock, text, padded, number, percent, newline, fflush, print,
  History, M, printf,
}
use overthinkin.PulseMonitor.Query.{
  Query, SinkData, StreamData, CardData, ServerData, ModuleData, sk_cb, source_cb, si_cb, so_cb,
  card_cb, server_cb2, client_cb, module_cb, query_sink, query_source, query_si, query_so,
  query_card, query_server, query_client, query_module,
}
use overthinkin.PulseMonitor.Output.{
  say, say_unless_empty, print_time, print_idx, begin_line, show_sink, show_source, show_stream,
  show_card, show_server, show_client, show_module, show_facility, show_rest, end_line,
  process_event, type_str, facility_str,
}
use overthinkin.PulseMonitor.Lines.{
  Usage, needs, usage, lines, lock_state, Answers, Calm, Quiet, also, Quiet-bind, Quiet-if,
  Quiet-pure, Quiet-printf, run_query-Quiet, on_reply-done, go-Calm,
}

module _ {os : Os Call Answer} where
  say-Quiet : (s : Bytes) → Quiet os (say s)
  say-Quiet s = also (Quiet-printf (text s) (λ n. refl)) (Quiet-pure tt)

  unless-Quiet : (s : Bytes) {m : M (Unit {0})} → Quiet os m → Quiet os (say_unless_empty s m)
  unless-Quiet [] h = Quiet-pure tt
  unless-Quiet (c ∷ s) h = h

  print_idx-Quiet : (pa : PulseAudio) (i : ℕ) → Quiet os (print_idx pa i)
  unfolding print_idx
  print_idx-Quiet pa i =
      Quiet-if (i == pa.invalid_index) (say-Quiet _)
        (also (also (say-Quiet _) (Quiet-printf (number i) (λ n. refl))) (Quiet-pure tt))

  percent-Quiet : (v : ℕ) → Quiet os (printf (percent v))
  percent-Quiet v = Quiet-printf (percent v) (λ n. refl)

  number-Quiet : (n : ℕ) → Quiet os (printf (number n))
  number-Quiet n = Quiet-printf (number n) (λ m. refl)

ruleset calm = (also, say-Quiet, percent-Quiet, number-Quiet, unless-Quiet, print_idx-Quiet)

module _ {os : Os Call Answer} where
  show_sink-Quiet : (pa : PulseAudio) (d : Option SinkData) → Quiet os (show_sink pa d)
  unfolding show_sink
  show_sink-Quiet pa none = say-Quiet _
  show_sink-Quiet pa (some d) = search calm depth 16

  show_source-Quiet : (pa : PulseAudio) (d : Option SinkData) → Quiet os (show_source pa d)
  unfolding show_source
  show_source-Quiet pa none = say-Quiet _
  show_source-Quiet pa (some d) = search calm depth 16

  show_stream-Quiet :
      (pa : PulseAudio) (o : Bytes) (d : Option StreamData) → Quiet os (show_stream pa o d)
  unfolding show_stream
  show_stream-Quiet pa o none = say-Quiet _
  show_stream-Quiet pa o (some d) = search calm depth 16

  show_card-Quiet : (pa : PulseAudio) (d : Option CardData) → Quiet os (show_card pa d)
  unfolding show_card
  show_card-Quiet pa none = say-Quiet _
  show_card-Quiet pa (some d) = search calm depth 16

  show_server-Quiet : (pa : PulseAudio) (d : Option ServerData) → Quiet os (show_server pa d)
  unfolding show_server
  show_server-Quiet pa none = say-Quiet _
  show_server-Quiet pa (some d) = search calm depth 16

  show_client-Quiet : (pa : PulseAudio) (d : Option Bytes) → Quiet os (show_client pa d)
  unfolding show_client
  show_client-Quiet pa none = say-Quiet _
  show_client-Quiet pa (some d) = search calm depth 16

  show_module-Quiet : (pa : PulseAudio) (d : Option ModuleData) → Quiet os (show_module pa d)
  unfolding show_module
  show_module-Quiet pa none = say-Quiet _
  show_module-Quiet pa (some d) = search calm depth 16

module _ (os : Os Call Answer) (n : ℕ) (answers : Answers n os) (pa : PulseAudio) (f : ℕ)
    (le : n + 2 ≤ f) where
  query_sink-Quiet : (idx : ℕ) → Quiet os (query_sink pa f idx)
  unfolding query_sink sk_cb
  query_sink-Quiet idx =
      run_query-Quiet os (sk_cb pa) n answers (λ r q h. on_reply-done _ r.eol _ q h) f _ _ le refl
        (λ m. refl)

  query_source-Quiet : (idx : ℕ) → Quiet os (query_source pa f idx)
  unfolding query_source source_cb
  query_source-Quiet idx =
      run_query-Quiet os (source_cb pa) n answers (λ r q h. on_reply-done _ r.eol _ q h) f _ _ le
        refl (λ m. refl)

  query_si-Quiet : (idx : ℕ) → Quiet os (query_si pa f idx)
  unfolding query_si si_cb
  query_si-Quiet idx =
      run_query-Quiet os (si_cb pa) n answers (λ r q h. on_reply-done _ r.eol _ q h) f _ _ le refl
        (λ m. refl)

  query_so-Quiet : (idx : ℕ) → Quiet os (query_so pa f idx)
  unfolding query_so so_cb
  query_so-Quiet idx =
      run_query-Quiet os (so_cb pa) n answers (λ r q h. on_reply-done _ r.eol _ q h) f _ _ le refl
        (λ m. refl)

  query_card-Quiet : (idx : ℕ) → Quiet os (query_card f idx)
  unfolding query_card card_cb
  query_card-Quiet idx =
      run_query-Quiet os card_cb n answers (λ r q h. on_reply-done _ r.eol _ q h) f _ _ le refl
        (λ m. refl)

  query_client-Quiet : (idx : ℕ) → Quiet os (query_client f idx)
  unfolding query_client client_cb
  query_client-Quiet idx =
      run_query-Quiet os client_cb n answers (λ r q h. on_reply-done _ r.eol _ q h) f _ _ le refl
        (λ m. refl)

  query_module-Quiet : (idx : ℕ) → Quiet os (query_module f idx)
  unfolding query_module module_cb
  query_module-Quiet idx =
      run_query-Quiet os module_cb n answers (λ r q h. on_reply-done _ r.eol _ q h) f _ _ le refl
        (λ m. refl)

  server-done : (r : Reply) (q : Query ServerData) → (server_cb2 r q).done ≡ true
  unfolding server_cb2
  server-done r q = elim (Option-cases r.server) [ inl h ↦ rw h | inr (i, h) ↦ rw h ]

  query_server-Quiet : Quiet os (query_server f)
  unfolding query_server
  query_server-Quiet =
      run_query-Quiet os server_cb2 n answers (λ r q h. server-done r q) f _ _ le refl (λ m. refl)

  show_facility-Quiet : (fac idx : ℕ) → Quiet os (show_facility pa f fac idx)
  unfolding show_facility
  show_facility-Quiet fac idx =
      Quiet-if (fac == pa.event_sink) (Quiet-bind (query_sink-Quiet idx) (show_sink-Quiet pa)) (
        Quiet-if (fac == pa.event_source)
          (Quiet-bind (query_source-Quiet idx) (show_source-Quiet pa))
          (Quiet-if (fac == pa.event_sink_input)
            (Quiet-bind (query_si-Quiet idx) (show_stream-Quiet pa _))
            (Quiet-if (fac == pa.event_source_output)
              (Quiet-bind (query_so-Quiet idx) (show_stream-Quiet pa _))
              (Quiet-if (fac == pa.event_card)
                (Quiet-bind (query_card-Quiet idx) (show_card-Quiet pa))
                (Quiet-if (fac == pa.event_server)
                  (Quiet-bind query_server-Quiet (show_server-Quiet pa))
                  (Quiet-if (fac == pa.event_client)
                    (Quiet-bind (query_client-Quiet idx) (show_client-Quiet pa))
                    (Quiet-if (fac == pa.event_module)
                      (Quiet-bind (query_module-Quiet idx) (show_module-Quiet pa))
                      (Quiet-pure tt))))))))

  show_rest-Quiet : (ev : Event) → Quiet os (show_rest pa f ev)
  unfolding show_rest
  show_rest-Quiet ev =
      Quiet-if (ev.type == pa.event_remove) (say-Quiet _) (show_facility-Quiet ev.facility ev.idx)

begin_line-Quiet :
    {os : Os Call Answer} (pa : PulseAudio) (ev : Event) → Quiet os (begin_line pa ev)
unfolding begin_line print_time
begin_line-Quiet pa ev =
    let time = Quiet-printf (clock ev.ts) (λ n. refl) in
    let kind = Quiet-printf (padded 6 (type_str pa ev.type)) (λ n. refl) in
    let facility = Quiet-printf (padded 13 (facility_str pa ev.facility)) (λ n. refl) in
    also
      (also
        (also (also (also (also (also time (Quiet-pure tt)) (say-Quiet _)) kind) (say-Quiet _))
          facility)
        (say-Quiet _))
      (print_idx-Quiet pa ev.idx)

-- If each query ends after at most n waits that do not end it, and the model allows for n + 2,
-- process_event comes to an end on every event and has printed one line more. The lock of the main
-- loop, which was not held, is taken and given back in turn, and is held at each query and wait.
pub process_event-lines :
    (os : Os Call Answer) (n f : ℕ) (pa : PulseAudio) (ev : Event) (t : History)
    → Answers n os
    → n + 2 ≤ f
    → lock_state t ≡ some false
    → Calm (suc (lines t)) false (process_event pa f ev os t)
unfolding process_event end_line
process_event-lines os n f pa ev t answers le l =
    go-Calm os (λ u. end_line) (lines t) (suc (lines t)) false false _
      ((also (begin_line-Quiet pa ev) (show_rest-Quiet os n answers pa f le ev)).runs _ t refl l)
      (λ u t' e l'. (tt, refl, ap suc e, l'))

abbrev plus_need : Usage → ℕ → ℕ
plus_need needs n = suc n
plus_need u n = n

-- The queries that are asked, and the waits for them.
abbrev pub asks : History → ℕ
asks [] = 0
asks ((c, a) ∷ t) = plus_need (usage c) (asks t)

-- Of what was removed nothing is asked: process_event ends on such an event, without a query and
-- without a wait, whatever the system answers, and prints that it is deleted, and the end of the line.
pub process_event-removed :
    (os : Os Call Answer) (f : ℕ) (pa : PulseAudio) (ev : Event) (t : History)
    → ev.type ≡ pa.event_remove
    → ((process_event pa f ev os t).0 ≡ some tt)
      × (asks (process_event pa f ev os t).1 ≡ asks t)
      × (map (λ c. c.0) (take 3 (process_event pa f ev os t).1)
          ≡ fflush ∷ print newline ∷ print (text (codes " (deleted)")) ∷ [])
unfolding process_event end_line show_rest begin_line print_time print_idx
process_event-removed os f pa ev t h =
    let same : (ev.type == pa.event_remove) ≡ true = (==_iff ev.type pa.event_remove).1 h in
    elim (Bool-cases (ev.idx == pa.invalid_index)) [
      | inl i ↦ rw (same, i) (refl, refl, refl)
      | inr i ↦ rw (same, i) (refl, refl, refl)
    ]
