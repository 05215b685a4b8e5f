-- ===== src/Applets/Current.antt =====
-- check-my-alsa/app-jack.c: the values of the controls are the ones that were read last.
use overthinkin.Base.{
  sym, Bool-cases, ◌++◌, ℕ, Bool, true, false, not, List, ◌∷◌, [], Option, none, some,
  if◌then◌else◌, inl, inr, ◌⊎◌, ◌≡◌, refl, ◌∙◌, ap, ℤ,
}
use overthinkin.Applets.Jack.{
  Slot, Values, Read, failed, got, Bound, Line, CtlEvent, Outcome, Poll, interrupted, timeout,
  no_event, other_event, poll_failed, undecoded, readable, print_jack_baseline, refresh,
  handle_jack_events, run_jack_event_loop, watch_jacks,
}
use overthinkin.Applets.Refreshed.{heard_of, refresh-split, read-split}

module _ (values : Values) where
  open values use {Value, differs, plugged}

  -- The controls with their values.
  abbrev pub Readings : Type 0
  Readings = List (ℕ × Value)

  abbrev pub readings : List (Bound Value) → Readings
  readings [] = []
  readings (b ∷ bs) = (b.numid, b.value) ∷ readings bs

  -- The values after an event, after the events of a round, and after rounds, where no read fails.
  abbrev pub heard : CtlEvent Value → Readings → Readings
  heard ev [] = []
  heard ev ((n, v) ∷ rs) = (n, heard_of values ev n v) ∷ heard ev rs

  abbrev pub heard_all : List (CtlEvent Value) → Readings → Readings
  heard_all [] rs = rs
  heard_all (ev ∷ evs) rs =
      let skip = heard_all evs rs in
      let next = heard_all evs (heard ev rs) in if not ev.is_elem then skip else next

  abbrev pub heard_rounds : List (Poll Value) → Readings → Readings
  heard_rounds [] rs = rs
  heard_rounds (readable evs z ∷ ps) rs = heard_rounds ps (heard_all evs rs)
  heard_rounds (p ∷ ps) rs = heard_rounds ps rs

  -- There was an error, or the values are those.
  abbrev pub Current : Readings → Outcome Value → Type 0
  Current rs o = ((e : ℤ) × (o.error ≡ some e)) ⊎ (readings o.bound ≡ rs)

  refresh-Current :
      (ev : CtlEvent Value) (bs : List (Bound Value))
      → Current (heard ev (readings bs)) (refresh values ev bs)
  unfolding refresh
  refresh-Current ev [] = inr refl
  refresh-Current ev (b ∷ bs) =
      refresh-split values (λ o w. Current ((b.numid, w) ∷ heard ev (readings bs)) o) ev b bs
        (with_one b.value b refl (refresh values ev bs).lines (refresh-Current ev bs))
        (λ e. inl (e, refl))
        (λ v.
          read-split values
            (λ ls b'. Current ((b.numid, v) ∷ heard ev (readings bs)) (record {
              error = (refresh values ev bs).error;
              lines = ls ++ (refresh values ev bs).lines;
              bound = b' ∷ (refresh values ev bs).bound;
            }))
            v b
            (with_one v (record b { value = v; prev_plugged = plugged v }) refl
              (record { name = b.name; was = some b.prev_plugged; is = plugged v }
                ∷ (refresh values ev bs).lines)
              (refresh-Current ev bs))
            (with_one v (record b { value = v }) refl (refresh values ev bs).lines
              (refresh-Current ev bs)))
    where
      with_one :
          (v : Value) (b' : Bound Value)
          → ◌≡◌ {A = ℕ × Value} (b'.numid, b'.value) (b.numid, v)
          → (ls : List Line) → Current (heard ev (readings bs)) (refresh values ev bs)
          → Current ((b.numid, v) ∷ heard ev (readings bs)) (record {
            error = (refresh values ev bs).error;
            lines = ls;
            bound = b' ∷ (refresh values ev bs).bound;
          })
      with_one v b' e ls (inl h) = inl h
      with_one v b' e ls (inr h) =
          inr
            (ap (λ p. p ∷ readings (refresh values ev bs).bound) e ∙ ap (λ rs. (b.numid, v) ∷ rs) h)

  -- One part behind another: what the second makes of the values that the first leaves.
  then-Current :
      (rs rs' : Readings) (now rest : Outcome Value)
      → Current rs now
      → (readings now.bound ≡ rs → Current rs' rest)
      → Current rs'
          (elim now.error [ some e ↦ now | none ↦ record rest { lines = now.lines ++ rest.lines } ])
  then-Current rs rs' now rest p q = by_error now.error refl p
    where
      rest_of :
          now.error ≡ none
          → Current rs now
          → Current rs' (record rest { lines = now.lines ++ rest.lines })
      rest_of n (inl (e, h)) = cc
      rest_of n (inr h) = q h

      by_error :
          (e : Option ℤ)
          → now.error ≡ e
          → Current rs now
          → Current rs'
              (elim e [ some z ↦ now | none ↦ record rest { lines = now.lines ++ rest.lines } ])
      by_error none n p = rest_of n p
      by_error (some z) n p = inl (z, n)

  handle-Current :
      (evs : List (CtlEvent Value)) (z : ℤ) (bs : List (Bound Value)) (rs : Readings)
      → readings bs ≡ rs
      → Current (heard_all evs rs) (handle_jack_events values evs z bs)
  unfolding handle_jack_events
  handle-Current [] z bs rs h = inr h
  handle-Current (ev ∷ evs) z bs rs h =
      let now = refresh values ev bs in
      let rest = handle_jack_events values evs z now.bound in
      by_kind (not ev.is_elem) _ _ (handle-Current evs z bs rs h) (
        then-Current (heard ev (readings bs)) (heard_all evs (heard ev rs)) now rest
          (refresh-Current ev bs)
          (λ e. handle-Current evs z now.bound (heard ev rs) (e ∙ ap (heard ev) h)))
    where
      by_kind :
          (b : Bool) (o o' : Outcome Value)
          → Current (heard_all evs rs) o
          → Current (heard_all evs (heard ev rs)) o'
          → Current
              (if b then heard_all evs rs else heard_all evs (heard ev rs))
              (if b then o else o')
      by_kind true o o' p q = p
      by_kind false o o' p q = q

  run-Current :
      (ps : List (Poll Value)) (bs : List (Bound Value)) (rs : Readings)
      → readings bs ≡ rs
      → Current (heard_rounds ps rs) (run_jack_event_loop values ps bs)
  unfolding run_jack_event_loop
  run-Current [] bs rs h = inr h
  run-Current (poll_failed e ∷ ps) bs rs h = inl (e, refl)
  run-Current (undecoded e ∷ ps) bs rs h = inl (e, refl)
  run-Current (readable evs z ∷ ps) bs rs h =
      let now = handle_jack_events values evs z bs in
      then-Current (heard_all evs rs) (heard_rounds ps (heard_all evs rs)) now
        (run_jack_event_loop values ps now.bound) (handle-Current evs z bs rs h)
        (run-Current ps now.bound (heard_all evs rs))
  run-Current (interrupted ∷ ps) bs rs h = run-Current ps bs rs h
  run-Current (timeout ∷ ps) bs rs h = run-Current ps bs rs h
  run-Current (no_event ∷ ps) bs rs h = run-Current ps bs rs h
  run-Current (other_event ∷ ps) bs rs h = run-Current ps bs rs h

  -- The first values, where no read fails.
  abbrev pub first_readings : (ℕ → Read Value) → List Slot → Readings
  first_readings reads [] = []
  first_readings reads (s ∷ ss) =
      let rest = first_readings reads ss in
      elim (reads s.numid) [ failed e ↦ rest | got v ↦ (s.numid, v) ∷ rest ]

  baseline-Current :
      (reads : ℕ → Read Value) (ss : List Slot)
      → Current (first_readings reads ss) (print_jack_baseline values reads ss)
  unfolding print_jack_baseline
  baseline-Current reads [] = inr refl
  baseline-Current reads (s ∷ ss) = by_read (reads s.numid) (baseline-Current reads ss)
    where
      by_read :
          (r : Read Value)
          → Current (first_readings reads ss) (print_jack_baseline values reads ss)
          → Current
              (elim r as (λ _. Readings) [
                | failed e ↦ first_readings reads ss
                | got v ↦ (s.numid, v) ∷ first_readings reads ss
              ])
              (elim r as (λ _. Outcome Value) [
                | failed e ↦ record { error = some e; lines = []; bound = [] }
                | got v ↦ record {
                  error = (print_jack_baseline values reads ss).error;
                  lines =
                      record { name = s.name; was = none; is = plugged v }
                      ∷ (print_jack_baseline values reads ss).lines;
                  bound =
                      record { name = s.name; numid = s.numid; value = v; prev_plugged = plugged v }
                      ∷ (print_jack_baseline values reads ss).bound;
                }
              ])
      by_read (failed e) h = inl (e, refl)
      by_read (got v) (inl h) = inl h
      by_read (got v) (inr h) = inr (ap (λ rs. (s.numid, v) ∷ rs) h)

  heard_all-nil : (evs : List (CtlEvent Value)) → heard_all evs [] ≡ []
  heard_all-nil [] = refl
  heard_all-nil (ev ∷ evs) = elim (Bool-cases (not ev.is_elem)) [
    | inl e ↦ rw e (heard_all-nil evs)
    | inr e ↦ rw e (heard_all-nil evs)
  ]

  heard_rounds-nil : (ps : List (Poll Value)) → heard_rounds ps [] ≡ []
  heard_rounds-nil [] = refl
  heard_rounds-nil (readable evs z ∷ ps) =
      ap (heard_rounds ps) (heard_all-nil evs) ∙ heard_rounds-nil ps
  heard_rounds-nil (interrupted ∷ ps) = heard_rounds-nil ps
  heard_rounds-nil (timeout ∷ ps) = heard_rounds-nil ps
  heard_rounds-nil (no_event ∷ ps) = heard_rounds-nil ps
  heard_rounds-nil (other_event ∷ ps) = heard_rounds-nil ps
  heard_rounds-nil (poll_failed e ∷ ps) = heard_rounds-nil ps
  heard_rounds-nil (undecoded e ∷ ps) = heard_rounds-nil ps

  pub watch_jacks-Current :
      (reads : ℕ → Read Value) (ss : List Slot) (ps : List (Poll Value))
      → Current (heard_rounds ps (first_readings reads ss)) (watch_jacks values reads ss ps)
  unfolding watch_jacks
  watch_jacks-Current reads [] ps = inr (sym (heard_rounds-nil ps))
  watch_jacks-Current reads (s ∷ ss) ps =
      let now = print_jack_baseline values reads (s ∷ ss) in
      then-Current (first_readings reads (s ∷ ss)) (heard_rounds ps (first_readings reads (s ∷ ss)))
        now (run_jack_event_loop values ps now.bound) (baseline-Current reads (s ∷ ss))
        (run-Current ps now.bound (first_readings reads (s ∷ ss)))
