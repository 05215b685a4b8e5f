-- ===== src/Applets/Printed.antt =====
-- check-my-alsa/app-jack.c: what is printed of the controls, and what they say.
use overthinkin.Base.{
  ℕ, Bool, true, false, not, List, ◌∷◌, [], Option, none, some, Bytes, same, same_comm, All,
  if◌then◌else◌, ◌≡◌, refl, ◌∙◌, ap, sym, ℤ,
}
use overthinkin.Applets.Jack.{
  Slot, Values, Read, failed, got, Bound, Line, CtlEvent, Outcome, Poll, interrupted, timeout,
  no_event, other_event, poll_failed, undecoded, readable, print_jack_baseline, refresh,
  handle_jack_events, run_jack_event_loop, watch_jacks,
}
use overthinkin.Applets.Current.{Current, heard_rounds, first_readings, watch_jacks-Current}
use overthinkin.Applets.Plugged.{Compares, Fresh, watch_jacks-Fresh}
use overthinkin.Applets.Lines.{Known, say, after, Chained, say-same, say-other, Apart}
use overthinkin.Applets.Refreshed.{names, Heard, Orderly, refresh-Orderly, then-Orderly}

module _ (values : Values) where
  open values use {Value}

  handle-Orderly :
      (evs : List (CtlEvent Value)) (z : ℤ) (bs : List (Bound Value)) (k : Known)
      → Apart (names values bs)
      → All (Heard values k) bs
      → Orderly values k (handle_jack_events values evs z bs)
  unfolding handle_jack_events
  handle-Orderly [] z bs k a h = ((tt, h), a)
  handle-Orderly (ev ∷ evs) z bs k a h =
      let now = refresh values ev bs in
      let p = refresh-Orderly values ev bs k a h in
      let q = handle-Orderly evs z now.bound (after now.lines k) p.1 p.0.1 in
      by_kind (not ev.is_elem) _ _ (handle-Orderly evs z bs k a h)
        (then-Orderly values k now (handle_jack_events values evs z now.bound) p q)
    where
      by_kind :
          (b : Bool) (o o' : Outcome Value)
          → Orderly values k o
          → Orderly values k o'
          → Orderly values k (if b then o else o')
      by_kind true o o' p q = p
      by_kind false o o' p q = q

  run-Orderly :
      (ps : List (Poll Value)) (bs : List (Bound Value)) (k : Known)
      → Apart (names values bs)
      → All (Heard values k) bs
      → Orderly values k (run_jack_event_loop values ps bs)
  unfolding run_jack_event_loop
  run-Orderly [] bs k a h = ((tt, h), a)
  run-Orderly (poll_failed e ∷ ps) bs k a h = ((tt, h), a)
  run-Orderly (undecoded e ∷ ps) bs k a h = ((tt, h), a)
  run-Orderly (readable evs z ∷ ps) bs k a h =
      let now = handle_jack_events values evs z bs in
      let p = handle-Orderly evs z bs k a h in
      then-Orderly values k now (run_jack_event_loop values ps now.bound) p
        (run-Orderly ps now.bound (after now.lines k) p.1 p.0.1)
  run-Orderly (interrupted ∷ ps) bs k a h = run-Orderly ps bs k a h
  run-Orderly (timeout ∷ ps) bs k a h = run-Orderly ps bs k a h
  run-Orderly (no_event ∷ ps) bs k a h = run-Orderly ps bs k a h
  run-Orderly (other_event ∷ ps) bs k a h = run-Orderly ps bs k a h

abbrev pub slot_names : List Slot → List Bytes
slot_names [] = []
slot_names (s ∷ ss) = s.name ∷ slot_names ss

none-say :
    (l : Line) (k : Known) (ns : List Bytes)
    → All (λ m. same l.name m ≡ false) ns
    → All (λ m. k m ≡ none) ns
    → All (λ m. say l k m ≡ none) ns
none-say l k [] a h = _
none-say l k (n ∷ ns) a h = (say-other l k n a.0 ∙ h.0, none-say l k ns a.1 h.1)

module _ (values : Values) (reads : ℕ → Read values.Value) where
  open values use {Value, differs, plugged}

  -- The line and the control of a slot whose value was read.
  abbrev first_line : Slot → Value → Line
  first_line s v = record { name = s.name; was = none; is = plugged v }

  baseline-split :
      (P : Outcome Value → Type 0) (s : Slot) (ss : List Slot)
      → ((e : ℤ) → P (record { error = some e; lines = []; bound = [] }))
      → ((v : Value)
          → P (record {
            error = (print_jack_baseline values reads ss).error;
            lines = first_line s v ∷ (print_jack_baseline values reads ss).lines;
            bound =
                record { name = s.name; numid = s.numid; value = v; prev_plugged = plugged v }
                ∷ (print_jack_baseline values reads ss).bound;
          }))
      → P (print_jack_baseline values reads (s ∷ ss))
  unfolding print_jack_baseline
  baseline-split P s ss p q = by_read (reads s.numid)
    where
      by_read :
          (r : Read Value)
          → P (elim r [
            | failed e ↦ record { error = some e; lines = []; bound = [] }
            | got v ↦ record {
              error = (print_jack_baseline values reads ss).error;
              lines = first_line s v ∷ (print_jack_baseline values reads ss).lines;
              bound =
                  record { name = s.name; numid = s.numid; value = v; prev_plugged = plugged v }
                  ∷ (print_jack_baseline values reads ss).bound;
            }
          ])
      by_read (failed e) = p e
      by_read (got v) = q v

  baseline-silent :
      (n : Bytes) (ss : List Slot) (k : Known)
      → All (λ m. same n m ≡ false) (slot_names ss)
      → after (print_jack_baseline values reads ss).lines k n ≡ k n
  unfolding print_jack_baseline
  baseline-silent n [] k h = refl
  baseline-silent n (s ∷ ss) k h =
      baseline-split (λ o. after o.lines k n ≡ k n) s ss (λ e. refl)
        (λ v.
          let l = first_line s v in
          baseline-silent n ss (say l k) h.1 ∙ say-other l k n (same_comm s.name n ∙ h.0))

  baseline-names :
      (Q : Bytes → Type 0) (ss : List Slot)
      → All Q (slot_names ss)
      → All Q (names values (print_jack_baseline values reads ss).bound)
  unfolding print_jack_baseline
  baseline-names Q [] h = _
  baseline-names Q (s ∷ ss) h =
      baseline-split (λ o. All Q (names values o.bound)) s ss (λ e. tt)
        (λ v. (h.0, baseline-names Q ss h.1))

  baseline-Orderly :
      (ss : List Slot) (k : Known)
      → Apart (slot_names ss)
      → All (λ m. k m ≡ none) (slot_names ss)
      → Orderly values k (print_jack_baseline values reads ss)
  unfolding print_jack_baseline
  baseline-Orderly [] k a h = ((tt, tt), tt)
  baseline-Orderly (s ∷ ss) k a h =
      baseline-split (Orderly values k) s ss (λ e. ((tt, tt), tt))
        (λ v.
          let l = first_line s v in
          let rest = baseline-Orderly ss (say l k) a.1 (none-say l k (slot_names ss) a.0 h.1) in
          (
            (
              (sym h.0, rest.0.0),
              (baseline-silent s.name ss (say l k) a.0 ∙ say-same l k, rest.0.1),
            ),
            (baseline-names (λ m. same s.name m ≡ false) ss a.0, rest.1),
          ))

  nothing_known : (ns : List Bytes) → All (λ m. ◌≡◌ {A = Option Bool} none none) ns
  nothing_known [] = _
  nothing_known (n ∷ ns) = (refl, nothing_known ns)

  watch_jacks-Orderly :
      (ss : List Slot) (ps : List (Poll Value))
      → Apart (slot_names ss)
      → Orderly values (λ n. none) (watch_jacks values reads ss ps)
  unfolding watch_jacks
  watch_jacks-Orderly [] ps a = ((tt, tt), tt)
  watch_jacks-Orderly (s ∷ ss) ps a =
      let now = print_jack_baseline values reads (s ∷ ss) in
      let p = baseline-Orderly (s ∷ ss) (λ n. none) a (nothing_known (slot_names (s ∷ ss))) in
      then-Orderly values (λ n. none) now (run_jack_event_loop values ps now.bound) p
        (run-Orderly values ps now.bound (after now.lines (λ n. none)) p.1 p.0.1)

  -- What a control says is what was printed last under its name.
  abbrev pub Shown : List Line → Bound Value → Type 0
  Shown ls b = after ls (λ n. none) b.name ≡ some (plugged b.value)

  Shown-All :
      (ls : List Line) (bs : List (Bound Value))
      → All (Heard values (after ls (λ n. none))) bs
      → All (Fresh values) bs
      → All (Shown ls) bs
  Shown-All ls [] p q = _
  Shown-All ls (b ∷ bs) p q = (p.0 ∙ ap some q.0, Shown-All ls bs p.1 q.1)

  -- Where the controls that are bound have different names, and alsa-lib finds values equal only if
  -- they say the same: after the baseline and any rounds of events, and also when an error ends
  -- them, what was printed last of each control is what its value says; and each line that is
  -- printed starts from what was printed before of its control, and one of the baseline from
  -- nothing. Where no error has ended them, the values are those of the baseline, changed by each
  -- event to what was read of the controls that it matches.
  pub watch_jacks-Shown :
      (ss : List Slot) (ps : List (Poll Value))
      → Compares values
      → Apart (slot_names ss)
      → let o = watch_jacks values reads ss ps in
        Chained (λ n. none) o.lines
        × All (Shown o.lines) o.bound
        × Current values (heard_rounds values ps (first_readings values reads ss)) o
  watch_jacks-Shown ss ps c a =
      let o = watch_jacks values reads ss ps in
      let p = watch_jacks-Orderly ss ps a in
      (
        p.0.0,
        Shown-All o.lines o.bound p.0.1 (watch_jacks-Fresh values c reads ss ps),
        watch_jacks-Current values reads ss ps,
      )
