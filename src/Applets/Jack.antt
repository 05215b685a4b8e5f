-- ===== src/Applets/Jack.antt =====
-- check-my-alsa/app-jack.c: the jack controls that are bound, and the events that change them. The
-- calls that list the controls succeed, and what is printed is kept as data.
use overthinkin.Base.{
  ℕ, suc, leb, ◌==◌, Bool, true, false, not, ◌&&◌, ◌||◌, List, ◌∷◌, [], ◌++◌, Option, none, some,
  Bytes, codes, take, ℤ, negsuc, is_neg, ◌==ℤ◌, if◌then◌else◌,
}

-- A control of the card: its name, which may be NULL, and what snd_ctl_elem_info says of it, which
-- is whether it is a boolean one, or nothing in case of an error.
pub record Control : Type 0 where
  pub name : Option Bytes
  pub numid : ℕ
  pub is_boolean : Option Bool

abbrev pub starts_with : Bytes → Bytes → Bool
starts_with s [] = true
starts_with [] (p ∷ ps) = false
starts_with (x ∷ xs) (p ∷ ps) = x == p && starts_with xs ps

-- `strstr (s, p) != NULL`
abbrev pub contains : Bytes → Bytes → Bool
contains [] p = starts_with [] p
contains (x ∷ xs) p = starts_with (x ∷ xs) p || contains xs p

-- The filter on the name.
abbrev pub has_jack : Option Bytes → Bool
has_jack none = false
has_jack (some name) = contains name (codes "Jack")

-- struct bound_ctl before its value is read; the name has room for 63 bytes.
pub record Slot : Type 0 where
  pub name : Bytes
  pub numid : ℕ

abbrev pub slot_of : Control → Slot
slot_of c = record { name = elim c.name [ none ↦ [] | some name ↦ take 63 name ]; numid = c.numid }

-- The loop of fetch_jack_ctls, with n controls bound: those it binds, and `truncated`.
unfoldable pub fetch_jack_ctls : ℕ → ℕ → List Control → List Slot × Bool
fetch_jack_ctls max n [] = ([], false)
fetch_jack_ctls max n (c ∷ cs) =
    let skip = fetch_jack_ctls max n cs in
    let next = fetch_jack_ctls max (suc n) cs in
    if not (has_jack c.name) then skip else elim c.is_boolean [
      | none ↦ skip
      | some false ↦ skip
      | some true ↦ if leb max n then (skip.0, true) else (slot_of c ∷ next.0, next.1)
    ]

-- A value of a control, as alsa-lib has it.
pub record Values : Type 1 where
  pub Value : Type 0
  pub differs : Value → Value → Bool
  pub plugged : Value → Bool

-- What snd_ctl_elem_read gives.
pub data Read (V : Type 0) : Type 0 where
  failed : ℤ → Read V
  got : V → Read V

-- struct bound_ctl
pub record Bound (V : Type 0) : Type 0 where
  pub name : Bytes
  pub numid : ℕ
  pub value : V
  pub prev_plugged : Bool

-- A line of the output: a control, what it was, and what it is; there is no former state in the
-- baseline.
pub record Line : Type 0 where
  pub name : Bytes
  pub was : Option Bool
  pub is : Bool

-- An event of the card: whether it is one of a control, for which numids the ids match, and what a
-- read of a control gives while it is handled.
pub record CtlEvent (V : Type 0) : Type 0 where
  pub is_elem : Bool
  pub matches : ℕ → Bool
  pub reads : ℕ → Read V

-- An error, what is printed, and the controls.
pub record Outcome (V : Type 0) : Type 0 where
  pub error : Option ℤ
  pub lines : List Line
  pub bound : List (Bound V)

-- What poll and the calls behind it give in a round of the loop.
pub data Poll (V : Type 0) : Type 0 where
  interrupted timeout no_event other_event : Poll V
  poll_failed undecoded : ℤ → Poll V
  readable : List (CtlEvent V) → ℤ → Poll V

module _ (values : Values) where
  open values use {Value, differs, plugged}

  -- print_jack_baseline: what is printed and the controls, or the error.
  unfoldable pub print_jack_baseline : (ℕ → Read Value) → List Slot → Outcome Value
  print_jack_baseline reads [] = record { error = none; lines = []; bound = [] }
  print_jack_baseline reads (s ∷ ss) =
      let rest = print_jack_baseline reads ss in
      elim (reads s.numid) [
        | failed e ↦ record { error = some e; lines = []; bound = [] }
        | got v ↦ record {
          error = rest.error;
          lines = record { name = s.name; was = none; is = plugged v } ∷ rest.lines;
          bound =
              record { name = s.name; numid = s.numid; value = v; prev_plugged = plugged v }
              ∷ rest.bound;
        }
      ]

  -- A control whose value was read.
  abbrev pub refreshed : Value → Bound Value → Bound Value
  refreshed v b =
      if differs b.value v
      then record b { value = v; prev_plugged = plugged v }
      else record b { value = v }

  abbrev pub told : Value → Bound Value → List Line
  told v b =
      if differs b.value v
      then record { name = b.name; was = some b.prev_plugged; is = plugged v } ∷ []
      else []

  -- The controls under one event.
  unfoldable pub refresh : CtlEvent Value → List (Bound Value) → Outcome Value
  refresh ev [] = record { error = none; lines = []; bound = [] }
  refresh ev (b ∷ bs) =
      let rest = refresh ev bs in
      if not (ev.matches b.numid)
      then record rest { bound = b ∷ rest.bound }
      else elim (ev.reads b.numid) [
        | failed e ↦ record { error = some e; lines = []; bound = b ∷ bs }
        | got v ↦ record {
          error = rest.error;
          lines = told v b ++ rest.lines;
          bound = refreshed v b ∷ rest.bound;
        }
      ]

  -- handle_jack_events: the events that snd_ctl_read gives, and what it returns at last.
  unfoldable pub handle_jack_events : List (CtlEvent Value) → ℤ → List (Bound Value) → Outcome Value
  handle_jack_events [] read_res bs = record {
    error = if is_neg read_res && not (read_res ==ℤ negsuc 10) then some read_res else none;
    lines = [];
    bound = bs;
  }
  handle_jack_events (ev ∷ evs) read_res bs =
      let skip = handle_jack_events evs read_res bs in
      let now = refresh ev bs in
      let rest = handle_jack_events evs read_res now.bound in
      if not ev.is_elem
      then skip
      else elim now.error [ some e ↦ now | none ↦ record rest { lines = now.lines ++ rest.lines } ]

  -- run_jack_event_loop, until a signal stops it behind the rounds given.
  unfoldable pub run_jack_event_loop : List (Poll Value) → List (Bound Value) → Outcome Value
  run_jack_event_loop [] bs = record { error = none; lines = []; bound = bs }
  run_jack_event_loop (poll_failed e ∷ ps) bs = record { error = some e; lines = []; bound = bs }
  run_jack_event_loop (undecoded e ∷ ps) bs = record { error = some e; lines = []; bound = bs }
  run_jack_event_loop (readable evs read_res ∷ ps) bs =
      let now = handle_jack_events evs read_res bs in
      let rest = run_jack_event_loop ps now.bound in
      elim now.error [ some e ↦ now | none ↦ record rest { lines = now.lines ++ rest.lines } ]
  run_jack_event_loop (interrupted ∷ ps) bs = run_jack_event_loop ps bs
  run_jack_event_loop (timeout ∷ ps) bs = run_jack_event_loop ps bs
  run_jack_event_loop (no_event ∷ ps) bs = run_jack_event_loop ps bs
  run_jack_event_loop (other_event ∷ ps) bs = run_jack_event_loop ps bs

  -- The middle of jack_run, for the controls that are bound: the baseline, and the loop behind it.
  unfoldable pub watch_jacks : (ℕ → Read Value) → List Slot → List (Poll Value) → Outcome Value
  watch_jacks reads [] ps = record { error = none; lines = []; bound = [] }
  watch_jacks reads (s ∷ ss) ps =
      let now = print_jack_baseline reads (s ∷ ss) in
      let rest = run_jack_event_loop ps now.bound in
      elim now.error [ some e ↦ now | none ↦ record rest { lines = now.lines ++ rest.lines } ]
