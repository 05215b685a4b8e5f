-- ===== src/Applets/Plugged.antt =====
-- check-my-alsa/app-jack.c: what the controls say after any events.
use overthinkin.Base.{
  ◌++◌, ℕ, Bool, true, false, not, List, ◌∷◌, [], Option, none, some, All, if◌then◌else◌, ◌≡◌, refl,
  ◌∙◌, ℤ,
}
use overthinkin.Applets.Jack.{
  Slot, Values, Read, failed, got, Bound, Line, CtlEvent, Outcome, Poll, interrupted, timeout,
  no_event, other_event, poll_failed, undecoded, readable, print_jack_baseline, refreshed, told,
  refresh, handle_jack_events, run_jack_event_loop, watch_jacks,
}

if-cases {ℓ ℓ'} :
    {A : Type ℓ} (P : A → Type ℓ') (b : Bool) {x y : A}
    → (b ≡ true → P x)
    → (b ≡ false → P y)
    → P (if b then x else y)
if-cases P true h k = h refl
if-cases P false h k = k refl

module _ (values : Values) where
  open values use {Value, differs, plugged}

  -- snd_ctl_elem_value_compare finds no difference between values only if they say the same.
  abbrev pub Compares : Type 0
  Compares = (v w : Value) → differs v w ≡ false → plugged v ≡ plugged w

  -- The state that is kept of a control is the one of its value.
  abbrev pub Fresh : Bound Value → Type 0
  Fresh b = b.prev_plugged ≡ plugged b.value

  abbrev pub AllFresh : Outcome Value → Type 0
  AllFresh o = All Fresh o.bound

  module _ (compares : Compares) where
    refreshed-Fresh : (v : Value) (b : Bound Value) → Fresh b → Fresh (refreshed values v b)
    refreshed-Fresh v b h =
        if-cases Fresh (differs b.value v) (λ e. refl) (λ e. h ∙ compares b.value v e)

    read-Fresh :
        (r : Read Value) (b : Bound Value) (bs : List (Bound Value)) (rest : Outcome Value)
        → All Fresh (b ∷ bs)
        → AllFresh rest
        → AllFresh (elim r [
          | failed e ↦ record { error = some e; lines = []; bound = b ∷ bs }
          | got v ↦ record {
            error = rest.error;
            lines = told values v b ++ rest.lines;
            bound = refreshed values v b ∷ rest.bound;
          }
        ])
    read-Fresh (failed e) b bs rest h k = h
    read-Fresh (got v) b bs rest h k = (refreshed-Fresh v b h.0, k)

    refresh-Fresh :
        (ev : CtlEvent Value) (bs : List (Bound Value))
        → All Fresh bs
        → AllFresh (refresh values ev bs)
    unfolding refresh
    refresh-Fresh ev [] h = _
    refresh-Fresh ev (b ∷ bs) h =
        let rest = refresh-Fresh ev bs h.1 in
        if-cases AllFresh (not (ev.matches b.numid)) (λ e. (h.0, rest))
          (λ e. read-Fresh (ev.reads b.numid) b bs (refresh values ev bs) h rest)

    -- What follows, unless there was an error.
    unless-Fresh :
        (now rest : Outcome Value) (ls : List Line)
        → AllFresh now
        → AllFresh rest
        → AllFresh (elim now.error [ some e ↦ now | none ↦ record rest { lines = ls } ])
    unless-Fresh now rest ls h k = go now.error
      where
        go :
            (e : Option ℤ) → AllFresh (elim e [ some e' ↦ now | none ↦ record rest { lines = ls } ])
        go none = k
        go (some e) = h

    handle-Fresh :
        (evs : List (CtlEvent Value)) (read_res : ℤ) (bs : List (Bound Value))
        → All Fresh bs
        → AllFresh (handle_jack_events values evs read_res bs)
    unfolding handle_jack_events
    handle-Fresh [] read_res bs h = h
    handle-Fresh (ev ∷ evs) read_res bs h =
        let now = refresh values ev bs in
        let k = refresh-Fresh ev bs h in
        let rest = handle_jack_events values evs read_res now.bound in
        if-cases AllFresh (not ev.is_elem) (λ e. handle-Fresh evs read_res bs h)
          (λ e.
            unless-Fresh now rest (now.lines ++ rest.lines) k
              (handle-Fresh evs read_res now.bound k))

    run-Fresh :
        (ps : List (Poll Value)) (bs : List (Bound Value))
        → All Fresh bs
        → AllFresh (run_jack_event_loop values ps bs)
    unfolding run_jack_event_loop
    run-Fresh [] bs h = h
    run-Fresh (poll_failed e ∷ ps) bs h = h
    run-Fresh (undecoded e ∷ ps) bs h = h
    run-Fresh (readable evs read_res ∷ ps) bs h =
        let now = handle_jack_events values evs read_res bs in
        let k = handle-Fresh evs read_res bs h in
        let rest = run_jack_event_loop values ps now.bound in
        unless-Fresh now rest (now.lines ++ rest.lines) k (run-Fresh ps now.bound k)
    run-Fresh (interrupted ∷ ps) bs h = run-Fresh ps bs h
    run-Fresh (timeout ∷ ps) bs h = run-Fresh ps bs h
    run-Fresh (no_event ∷ ps) bs h = run-Fresh ps bs h
    run-Fresh (other_event ∷ ps) bs h = run-Fresh ps bs h

    baseline-Fresh :
        (reads : ℕ → Read Value) (ss : List Slot) → AllFresh (print_jack_baseline values reads ss)
    unfolding print_jack_baseline
    baseline-Fresh reads [] = _
    baseline-Fresh reads (s ∷ ss) =
        go (reads s.numid) (print_jack_baseline values reads ss) (baseline-Fresh reads ss)
      where
        go :
            (r : Read Value) (rest : Outcome Value)
            → AllFresh rest
            → AllFresh (elim r [
              | failed e ↦ record { error = some e; lines = []; bound = [] }
              | got v ↦ record {
                error = rest.error;
                lines = record { name = s.name; was = none; is = plugged v } ∷ rest.lines;
                bound =
                    record { name = s.name; numid = s.numid; value = v; prev_plugged = plugged v }
                    ∷ rest.bound;
              }
            ])
        go (failed e) rest h = _
        go (got v) rest h = (refl, h)

    -- The state that is kept of each control is the one of its value, after the baseline and any
    -- rounds of events, and also when an error ends them.
    pub watch_jacks-Fresh :
        (reads : ℕ → Read Value) (ss : List Slot) (ps : List (Poll Value))
        → AllFresh (watch_jacks values reads ss ps)
    unfolding watch_jacks
    watch_jacks-Fresh reads [] ps = _
    watch_jacks-Fresh reads (s ∷ ss) ps =
        let now = print_jack_baseline values reads (s ∷ ss) in
        let rest = run_jack_event_loop values ps now.bound in
        unless-Fresh now rest (now.lines ++ rest.lines) (baseline-Fresh reads (s ∷ ss))
          (run-Fresh ps now.bound (baseline-Fresh reads (s ∷ ss)))
