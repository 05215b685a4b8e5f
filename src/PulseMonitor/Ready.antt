-- ===== src/PulseMonitor/Ready.antt =====
-- pulse-monitor/main.c: how main comes to its loop, waits before it, or gives up.
use overthinkin.Base.{ℕ, Option, none, some, Os, ◌≡◌, refl}
use overthinkin.PulseMonitor.Calls.{Call, Answer, History, M, go_on}
use overthinkin.PulseMonitor.Told.{SetUp}

module _ (os : Os Call Answer) where
  go-SetUp :
      {A : Type 0} (k : A → M (Option ℕ)) (o : Option A × History)
      → (o.0 ≡ none → SetUp (none, o.1))
      → ((a : A) → o.0 ≡ some a → SetUp (k a os o.1))
      → SetUp (go_on k os o)
  go-SetUp k (none, t) p q = p refl
  go-SetUp k (some a, t) p q = q a refl
