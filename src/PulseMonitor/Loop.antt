-- ===== src/PulseMonitor/Loop.antt =====
-- pulse-monitor/main.c: the main loop, the callback of the other thread and the signal handler, as
-- steps of one machine. A step is what a thread does with ev_mtx held, or a single test without it.
use overthinkin.Base.{
  ℕ, zero, suc, ◌==◌, Bool, true, false, not, ◌&&◌, List, ◌∷◌, [], ◌++◌, none, some, if◌then◌else◌,
  ◌≡◌,
}
use overthinkin.PulseMonitor.Queue.{Event, Store, unlinked, sub_cb, take_first, use_up}

-- Where main stands: at the outer test; at the inner test, with ev_mtx; before pthread_cond_wait,
-- with ev_mtx; in it; woken up, and in need of ev_mtx; past the inner loop, with ev_mtx; in
-- process_event; past the outer loop; with the other thread stopped, at the loop that frees; at
-- the end; and where memory was used that is not allocated.
pub data Where : Type 0 where
  outer locked to_wait asleep woken tested stopping ended faulted : Where
  handling freeing : ℕ → Where

-- The events are those that got a node, those that process_event was given, and those freed at the
-- end, the oldest first.
pub record Monitor : Type 0 where
  pub store : Store
  pub quit : Bool
  pub at : Where
  pub arrived : List Event
  pub handled : List Event
  pub dropped : List Event

-- pthread_cond_signal
abbrev pub signal : Where → Where
signal asleep = woken
signal w = w

-- Whether sub_cb can have ev_mtx, and the thread that calls it runs.
abbrev pub lets_in : Where → Bool
lets_in locked = false
lets_in to_wait = false
lets_in tested = false
lets_in (freeing p) = false
lets_in ended = false
lets_in w = true

abbrev pub fault : Monitor → Monitor
fault m = record m { at = faulted }

-- A step of main that stands at `w`.
unfoldable pub step_at : Where → Monitor → Monitor
unfolding take_first use_up
step_at outer m = record m { at = if m.quit then stopping else locked }
step_at locked m = record m { at = if m.store.ev_head == 0 && not m.quit then to_wait else tested }
step_at to_wait m = record m { at = asleep }
step_at asleep m = record m { at = asleep }
step_at woken m = record m { at = locked }
step_at tested m = if m.quit then record m { at = stopping } else elim (take_first m.store) [
  | none ↦ fault m
  | some (ev, s) ↦ record m { store = s; at = handling ev }
]
step_at (handling ev) m = elim (use_up ev m.store) [
  | none ↦ fault m
  | some (e, s) ↦ record m { store = s; at = outer; handled = m.handled ++ e ∷ [] }
]
step_at stopping m = record m { at = freeing m.store.ev_head }
step_at (freeing ev) m = if ev == 0 then record m { at = ended } else elim (use_up ev m.store) [
  | none ↦ fault m
  | some (e, s) ↦ record m {
    store = s;
    at = freeing e.next;
    dropped = m.dropped ++ unlinked e ∷ [];
  }
]
step_at ended m = record m { at = ended }
step_at faulted m = fault m

abbrev pub main_step : Monitor → Monitor
main_step m = step_at m.at m

-- sub_cb in the other thread; calloc has given `ev`.
unfoldable pub arrive : ℕ → Event → Monitor → Monitor
arrive ev e m = elim (sub_cb ev e m.store) [
  | none ↦ fault m
  | some s ↦ record m {
    store = s;
    at = if ev == 0 then m.at else signal m.at;
    arrived = if ev == 0 then m.arrived else m.arrived ++ unlinked e ∷ [];
  }
]

-- A signal comes at any time.
unfoldable pub sighandler : Monitor → Monitor
sighandler m = record m { quit = true; at = signal m.at }

abbrev pub empty : Store
empty = record {
  cells = λ _. record {
    next = 0;
    facility = 0;
    type = 0;
    idx = 0;
    ts = record { tv_sec = 0; tv_nsec = 0 };
  };
  allocated = λ _. false;
  ev_head = 0;
  ev_tail = 0;
}

-- Once the server has accepted the subscription.
abbrev pub started : Monitor
started = record {
  store = empty;
  quit = false;
  at = outer;
  arrived = [];
  handled = [];
  dropped = [];
}

-- calloc gives NULL or memory that is not in use; pthread_cond_wait may return for no reason.
pub data Step : Monitor → Monitor → Type 0 where
  main_moves : (m : Monitor) → Step m (main_step m)
  event_comes :
      (m : Monitor) (ev : ℕ) (e : Event)
      → lets_in m.at ≡ true
      → m.store.allocated ev ≡ false
      → Step m (arrive ev e m)
  signal_comes : (m : Monitor) → Step m (sighandler m)
  wakes_up : (m : Monitor) → m.at ≡ asleep → Step m (record m { at = woken })

pub data Reach : Monitor → Type 0 where
  start : Reach started
  later : {m n : Monitor} → Reach m → Step m n → Reach n

-- main alone, for a number of steps.
abbrev pub main_runs : ℕ → Monitor → Monitor
main_runs zero m = m
main_runs (suc k) m = main_runs k (main_step m)

-- What the monitor promises of the events that it has memory for: those that wait, those that are
-- served, those that are dropped, and whether it is asked to stop. They are served in the order in
-- which they come, and dropped only once it is asked to stop.
pub data Promised : List Event → List Event → List Event → Bool → Type 0 where
  nothing : Promised [] [] [] false
  comes :
      {w s d : List Event} {q : Bool} (e : Event) → Promised w s d q → Promised (w ++ e ∷ []) s d q
  is_served :
      {w s d : List Event} {q : Bool} (e : Event)
      → Promised (e ∷ w) s d q
      → Promised w (s ++ e ∷ []) d q
  is_asked : {w s d : List Event} {q : Bool} → Promised w s d q → Promised w s d true
  is_dropped :
      {w s d : List Event} (e : Event) → Promised (e ∷ w) s d true → Promised w s (d ++ e ∷ []) true
