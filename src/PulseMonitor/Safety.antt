-- ===== src/PulseMonitor/Safety.antt =====
-- pulse-monitor/main.c: what no interleaving of the callback, the signal handler and main can break.
use mathlib.Core.List.{append-nil}
use overthinkin.Base.{ℕ, zero, suc, true, false, List, ◌++◌, ◌≡◌, ◌≢◌, subst, ◌∙◌}
use overthinkin.PulseMonitor.Queue.{Event}
use overthinkin.PulseMonitor.Fifo.{Inv, current, events}
use overthinkin.PulseMonitor.Kept.{Reach-Sound}
use overthinkin.PulseMonitor.Loop.{
  asleep, ended, faulted, to_wait, Monitor, main_runs, main_step, sighandler, step_at, Reach,
  Promised,
}

-- In every reachable state, the events that process_event was given are those that came and had
-- memory, in the order in which they came, followed by those that wait; none is dropped before a
-- signal asks to stop; and each step keeps to that.
pub Reach-Promised :
    {m : Monitor}
    → Reach m
    → (waiting : List Event) × Promised waiting m.handled m.dropped m.quit
      × (m.arrived ≡ (m.handled ++ m.dropped) ++ waiting)
Reach-Promised {m} r =
    let (ns, i) = Reach-Sound r in (events (current m.at m.store ++ ns), i.promised, i.history)

-- No reachable state has used NULL, or memory that is not allocated or given back already.
pub Reach-faulted : {m : Monitor} → Reach m → m.at ≢ faulted
Reach-faulted {m} r h = let (ns, i) = Reach-Sound r in (subst (λ w. Inv w m ns) h i).fits

-- Where main is asleep in pthread_cond_wait, every event that came and had memory has been given to
-- process_event, once and in order.
pub asleep-handled : {m : Monitor} → Reach m → m.at ≡ asleep → m.arrived ≡ m.handled
asleep-handled {m} r h =
    let (ns, i) = Reach-Sound r in
    let j = subst (λ w. Inv w m ns) h i in j.history ∙ rw (j.fits, j.keeps) (simp append-nil)

-- Where main has ended, no memory of an event is left allocated.
pub ended-freed : {m : Monitor} → Reach m → m.at ≡ ended → (p : ℕ) → m.store.allocated p ≡ false
ended-freed {m} r h p =
    let (ns, i) = Reach-Sound r in let j = subst (λ w. Inv w m ns) h i in j.owns p ∙ rw j.fits.1

asleep-stays :
    (k : ℕ) (m : Monitor)
    → m.at ≡ asleep
    → m.quit ≡ true
    → ((main_runs k m).at ≡ asleep) × ((main_runs k m).quit ≡ true)
unfolding step_at
asleep-stays zero m h q = (h, q)
asleep-stays (suc k) m h q = asleep-stays k (main_step m) (rw h) (rw (h) q)

-- A signal that comes between the test of quit and pthread_cond_wait is lost: however long main
-- runs on, it sleeps, with quit set.
pub sighandler-lost :
    (m : Monitor) (k : ℕ)
    → m.at ≡ to_wait
    → ((main_runs (suc k) (sighandler m)).at ≡ asleep)
      × ((main_runs (suc k) (sighandler m)).quit ≡ true)
unfolding sighandler step_at
sighandler-lost m k h = asleep-stays k (main_step (sighandler m)) (rw h) (rw h)
