-- ===== src/PulseMonitor/Told.antt =====
-- pulse-monitor/main.c: what libpulse has told main before its loop, and what main makes of it.
use overthinkin.Base.{
  ℕ, Bool, true, false, ◌||◌, List, ◌∷◌, [], Option, none, some, is_neg, ◌≡◌, ◌⊎◌,
}
use overthinkin.PulseMonitor.Calls.{
  ContextState, ready, failed, Call, mainloop_new, context_new, set_state_callback, connect, start,
  set_subscribe_callback, subscribe, lock, unlock, wait, unref, Answer, History,
}
use overthinkin.PulseMonitor.Main.{}

-- The calls but for waits, the latest first.
abbrev pub unless_wait : Call → List Call → List Call
unless_wait wait cs = cs
unless_wait c cs = c ∷ cs

abbrev pub reports_ready : List ContextState → Bool
reports_ready [] = false
reports_ready (ready ∷ cs) = true
reports_ready (c ∷ cs) = reports_ready cs

abbrev pub reports_failed : List ContextState → Bool
reports_failed [] = false
reports_failed (failed ∷ cs) = true
reports_failed (c ∷ cs) = reports_failed cs

-- The last verdict on the subscription, if there is one.
abbrev pub verdict : List Bool → Option Bool → Option Bool
verdict [] o = o
verdict (b ∷ bs) o = verdict bs (some b)

-- What libpulse has told main so far: the calls made, whether one of them gave NULL or a negative
-- number, whether the context was reported ready, and failed, in a wait before the subscription, and
-- the last verdict in a wait behind it.
pub record Told : Type 0 where
  pub steps : List Call
  pub is_faulty : Bool
  pub is_ready : Bool
  pub is_failed : Bool
  pub accepted : Option Bool

abbrev pub nothing_told : Told
nothing_told = record {
  steps = [];
  is_faulty = false;
  is_ready = false;
  is_failed = false;
  accepted = none;
}

-- Whether the subscription was the last step.
abbrev pub is_asked : List Call → Bool
is_asked (subscribe ∷ cs) = true
is_asked _ = false

abbrev pub wait_told : Bool → Answer → Told → Told
wait_told true a s = record s { accepted = verdict a.syncs s.accepted }
wait_told false a s = record s {
  is_ready = s.is_ready || reports_ready a.states;
  is_failed = s.is_failed || reports_failed a.states;
}

-- A call with its answer.
abbrev pub note : Call → Answer → Told → Told
note wait a s = wait_told (is_asked s.steps) a s
note mainloop_new a s = record s {
  steps = mainloop_new ∷ s.steps;
  is_faulty = s.is_faulty || a.null;
}
note context_new a s = record s { steps = context_new ∷ s.steps; is_faulty = s.is_faulty || a.null }
note connect a s = record s { steps = connect ∷ s.steps; is_faulty = s.is_faulty || is_neg a.ret }
note start a s = record s { steps = start ∷ s.steps; is_faulty = s.is_faulty || is_neg a.ret }
note subscribe a s = record s { steps = subscribe ∷ s.steps; is_faulty = s.is_faulty || a.null }
note c a s = record s { steps = c ∷ s.steps }

abbrev pub told : History → Told
told [] = nothing_told
told ((c, a) ∷ t) = note c a (told t)

-- How far main has come.
abbrev pub connected : List Call
connected = start ∷ connect ∷ set_state_callback ∷ context_new ∷ mainloop_new ∷ []

abbrev pub asking : List Call
asking = subscribe ∷ lock ∷ set_subscribe_callback ∷ unlock ∷ lock ∷ connected

-- What main was told where nothing went wrong.
abbrev pub waits_for_server : Told
waits_for_server = record nothing_told { steps = lock ∷ connected }

abbrev pub waits_for_verdict : Told
waits_for_verdict = record nothing_told { steps = asking; is_ready = true }

abbrev pub accepts : Told
accepts = record nothing_told {
  steps = unref ∷ unlock ∷ asking;
  is_ready = true;
  accepted = some true;
}

-- A reason to give up.
abbrev pub IsRefused : Told → Type 0
IsRefused s = (s.is_faulty ≡ true) ⊎ ((s.is_failed ≡ true) ⊎ (s.accepted ≡ some false))

-- What set_up may come to: it waits, for the server or for the verdict; it gives up with 1, for a
-- reason; or it has been through all of it.
abbrev pub SetUp : Option (Option ℕ) × History → Type 0
SetUp (none, t) = (told t ≡ waits_for_server) ⊎ (told t ≡ waits_for_verdict)
SetUp (some (some code), t) = (code ≡ 1) × IsRefused (told t)
SetUp (some none, t) = told t ≡ accepts
