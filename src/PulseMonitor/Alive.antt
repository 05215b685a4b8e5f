-- ===== src/PulseMonitor/Alive.antt =====
-- pulse-monitor/main.c: main gets on. Each of its steps lessens a measure, so it handles what has
-- come, and ends when it is asked to.
use overthinkin.Base.{
  ℕ, zero, suc, ◌+◌, ◌-◌, ◌*◌, ◌≤◌, ◌<◌, ◌==◌, Bool, true, false, List, ◌∷◌, [], ◌++◌, length,
  length-append, inl, inr, Bool-cases, ◌⊎◌, ◌≡◌, ◌≢◌, refl, sym, ◌∙◌, arith,
}
use overthinkin.PulseMonitor.Queue.{Event, unlinked}
use overthinkin.PulseMonitor.Linked.{Nodes}
use overthinkin.PulseMonitor.Fifo.{Inv, Sound, step-Sound}
use overthinkin.PulseMonitor.Loop.{
  Where, outer, locked, to_wait, asleep, woken, tested, stopping, ended, faulted, handling, freeing,
  Monitor, step_at, main_step, main_runs, Reach, later, main_moves,
}
use overthinkin.PulseMonitor.Kept.{Reach-Sound}
use overthinkin.PulseMonitor.Safety.{asleep-handled, ended-freed}

abbrev rank : Where → ℕ
rank outer = 3
rank woken = 3
rank locked = 2
rank tested = 1
rank to_wait = 1
rank w = 0

-- Four steps for each event that is not handled yet, and a few to the next wait.
abbrev to_sleep : Where → Monitor → ℕ
to_sleep w m = 4 * (length m.arrived - length m.handled) + rank w

count-history : (a h d w : List Event) → a ≡ (h ++ d) ++ w → d ≡ [] → length a ≡ length h + length w
count-history a h d w e x = rw (e, x) (omega (arith, length-append (h ++ []) w, length-append h []))

-- main, awake and not asked to stop: nothing is lost, and the measure falls.
abbrev Nearer : Monitor → Monitor → Type 0
Nearer m n = (n.quit ≡ false) × (n.arrived ≡ m.arrived) × (to_sleep n.at n < to_sleep m.at m)

step-awake :
    (w : Where) (m : Monitor) (ns : Nodes)
    → Inv w m ns
    → m.quit ≡ false
    → w ≢ asleep
    → Nearer (record m { at = w }) (step_at w m)
unfolding step_at
step-awake outer m ns i q a = rw q (refl, refl, omega arith)
step-awake locked m ns i q a = elim (Bool-cases (m.store.ev_head == 0)) [
  | inl h ↦ rw (h, q) (refl, refl, omega arith)
  | inr h ↦ rw h (q, refl, omega arith)
]
step-awake to_wait m ns i q a = (q, refl, omega arith)
step-awake asleep m ns i q a = absurd (a refl)
step-awake woken m ns i q a = (q, refl, omega arith)
step-awake tested m [] i q a = absurd (i.fits q i.linked)
step-awake tested m (n ∷ ns) i q a =
    let own : m.store.allocated m.store.ev_head ≡ true =
      rw i.linked.0 (i.owns n.0 ∙ ground arith) in
    rw (q, own) (q, refl, omega arith)
step-awake (handling p) m ns i q a =
    let own : m.store.allocated p ≡ true = i.owns p ∙ ground arith in
    let count = count-history m.arrived m.handled m.dropped _ i.history i.keeps in
    rw (step_at, own)
      (q, refl, omega (arith, count, length-append m.handled (m.store.cells p ∷ [])))
step-awake stopping m ns i q a = cc
step-awake (freeing p) m ns i q a = cc
step-awake ended m ns i q a = cc (i.fits.0)
step-awake faulted m ns i q a = absurd i.fits

Where-asleep : (w : Where) → (w ≡ asleep) ⊎ (w ≢ asleep)
Where-asleep asleep = inl refl
Where-asleep w = inr (λ h. cc)

sleeps_within :
    (f : ℕ) (m : Monitor)
    → Sound m
    → m.quit ≡ false
    → to_sleep m.at m ≤ f
    → (k : ℕ) × ((main_runs k m).at ≡ asleep)
      × ((main_runs k m).arrived ≡ m.arrived)
      × Sound (main_runs k m)
sleeps_within zero m (ns, i) q h = elim (Where-asleep m.at) [
  | inl e ↦ (0, e, refl, (ns, i))
  | inr e ↦ absurd (omega (arith, (step-awake m.at m ns i q e).2))
]
sleeps_within (suc f) m (ns, i) q h = elim (Where-asleep m.at) [
  | inl e ↦ (0, e, refl, (ns, i))
  | inr e ↦
      let n = step-awake m.at m ns i q e in
      let r = sleeps_within f (main_step m) (step-Sound m.at m ns i) n.0 (omega (arith, n.2)) in
      (suc r.0, r.1, r.2 ∙ n.1, r.3)
]

main_runs-Reach : (k : ℕ) (m : Monitor) → Reach m → Reach (main_runs k m)
main_runs-Reach zero m r = r
main_runs-Reach (suc k) m r = main_runs-Reach k (main_step m) (later r (main_moves m))

-- From every reachable state in which main is not asked to stop, main alone comes to sleep, after
-- some number of steps, and has then handled every event that had come.
pub main_runs-sleeps :
    {m : Monitor}
    → Reach m
    → m.quit ≡ false
    → (k : ℕ) × ((main_runs k m).at ≡ asleep) × ((main_runs k m).handled ≡ m.arrived)
main_runs-sleeps {m} r q =
    let (k, e, a, s) = sleeps_within (to_sleep m.at m) m (Reach-Sound r) q (omega arith) in
    (k, e, sym (asleep-handled (main_runs-Reach k m r) e) ∙ a)

-- Whether main is neither in pthread_cond_wait nor about to call it.
abbrev pub is_up : Where → Bool
is_up asleep = false
is_up to_wait = false
is_up w = true

abbrev rank_end : Where → ℕ
rank_end woken = 5
rank_end locked = 4
rank_end outer = 3
rank_end tested = 3
rank_end (handling p) = 2
rank_end stopping = 2
rank_end (freeing p) = 1
rank_end w = 0

-- Two steps for each event that is left, and a few to the loop that frees.
abbrev to_end : Where → Monitor → ℕ
to_end w m = 2 * (length m.arrived - length m.handled - length m.dropped) + rank_end w

count-dropped :
    (a h d w : List Event) → a ≡ (h ++ d) ++ w → length a ≡ length h + length d + length w
count-dropped a h d w e = rw e (omega (arith, length-append (h ++ d) w, length-append h d))

abbrev Ending : Monitor → Monitor → Type 0
Ending m n = (n.quit ≡ true) × (is_up n.at ≡ true) × (to_end n.at n < to_end m.at m)

step-Ending :
    (w : Where) (m : Monitor) (ns : Nodes)
    → Inv w m ns
    → m.quit ≡ true
    → is_up w ≡ true
    → w ≢ ended
    → Ending (record m { at = w }) (step_at w m)
unfolding step_at
step-Ending outer m ns i q u a = rw q (refl, refl, omega arith)
step-Ending locked m ns i q u a = elim (Bool-cases (m.store.ev_head == 0)) [
  | inl h ↦ rw (h, q) (refl, refl, omega arith)
  | inr h ↦ rw h (q, refl, omega arith)
]
step-Ending to_wait m ns i q u a = cc
step-Ending asleep m ns i q u a = cc
step-Ending woken m ns i q u a = (q, refl, omega arith)
step-Ending tested m ns i q u a = rw q (refl, refl, omega arith)
step-Ending (handling p) m ns i q u a =
    let own : m.store.allocated p ≡ true = i.owns p ∙ ground arith in
    let count = count-dropped m.arrived m.handled m.dropped _ i.history in
    rw (step_at, own)
      (q, refl, omega (arith, count, length-append m.handled (m.store.cells p ∷ [])))
step-Ending stopping m ns i q u a = (q, refl, omega arith)
step-Ending (freeing p) m [] i q u a = rw i.linked (q, refl, omega arith)
step-Ending (freeing p) m (n ∷ ns) i q u a =
    let off : (p == 0) ≡ false = rw i.linked.0 (ground arith) in
    let own : m.store.allocated p ≡ true = rw i.linked.0 (i.owns n.0 ∙ ground arith) in
    let count = count-dropped m.arrived m.handled m.dropped _ i.history in
    rw (off, own)
      (q, refl, omega (arith, count, length-append m.dropped (unlinked (m.store.cells p) ∷ [])))
step-Ending ended m ns i q u a = absurd (a refl)
step-Ending faulted m ns i q u a = absurd i.fits

Where-ended : (w : Where) → (w ≡ ended) ⊎ (w ≢ ended)
Where-ended ended = inl refl
Where-ended w = inr (λ h. cc)

ends_within :
    (f : ℕ) (m : Monitor)
    → Sound m
    → m.quit ≡ true
    → is_up m.at ≡ true
    → to_end m.at m ≤ f
    → (k : ℕ) × ((main_runs k m).at ≡ ended)
ends_within zero m (ns, i) q u h = elim (Where-ended m.at) [
  | inl e ↦ (0, e)
  | inr e ↦ absurd (omega (arith, (step-Ending m.at m ns i q u e).2))
]
ends_within (suc f) m (ns, i) q u h = elim (Where-ended m.at) [
  | inl e ↦ (0, e)
  | inr e ↦
      let n = step-Ending m.at m ns i q u e in
      let r = ends_within f (main_step m) (step-Sound m.at m ns i) n.0 n.1 (omega (arith, n.2)) in
      (suc r.0, r.1)
]

-- From every reachable state in which main is asked to stop, and is neither in pthread_cond_wait nor
-- about to call it, main alone comes to its end after some number of steps, and then no memory of
-- an event is allocated.
pub main_runs-ends :
    {m : Monitor}
    → Reach m
    → m.quit ≡ true
    → is_up m.at ≡ true
    → (k : ℕ) × ((main_runs k m).at ≡ ended) × ((p : ℕ) → (main_runs k m).store.allocated p ≡ false)
main_runs-ends {m} r q u =
    let (k, e) = ends_within (to_end m.at m) m (Reach-Sound r) q u (omega arith) in
    (k, e, ended-freed (main_runs-Reach k m r) e)
