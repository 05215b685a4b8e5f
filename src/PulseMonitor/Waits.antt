-- ===== src/PulseMonitor/Waits.antt =====
-- pulse-monitor/main.c: the waits for the server and for its verdict on the subscription.
use overthinkin.Base.{
  arith, sym, ℕ, zero, suc, Bool, true, false, not, ◌&&◌, ◌||◌, List, ◌∷◌, [], Option, none, some,
  Os, after_if, ap, ◌∙◌, ◌≡◌, refl, if◌then◌else◌,
}
use overthinkin.PulseMonitor.Calls.{
  ContextState, ready, failed, other, Call, wait, Answer, History, pure, stuck, ◌>>=◌, call,
}
use overthinkin.PulseMonitor.Main.{
  Flags, Sync, state_cb, sync_cb, report, settle, await_ready, await_sync,
}
use overthinkin.PulseMonitor.Told.{
  reports_ready, reports_failed, verdict, Told, note, told, waits_for_server, waits_for_verdict,
}

report_lem :
    (cs : List ContextState) (s : Flags)
    → report cs s ≡ record {
      is_ready = s.is_ready || reports_ready cs;
      has_failed = s.has_failed || reports_failed cs;
    }
unfolding report state_cb
report_lem [] s = ground arith
report_lem (ready ∷ cs) s = let h = report_lem cs (record s { is_ready = true }) in ground arith
report_lem (failed ∷ cs) s = let h = report_lem cs (record s { has_failed = true }) in ground arith
report_lem (other ∷ cs) s = report_lem cs s

-- The verdict that sync_cb has noted.
abbrev pub noted : Sync → Option Bool
noted q = if q.done then some q.success else none

noted-settle : (bs : List Bool) (q : Sync) → noted (settle bs q) ≡ verdict bs (noted q)
unfolding settle sync_cb
noted-settle [] q = refl
noted-settle (b ∷ bs) q = noted-settle bs (record { success = b; done = true })

done_noted : (q : Sync) → q.done ≡ true → noted q ≡ some q.success
done_noted q h = rw h

not_noted : (q : Sync) → q.done ≡ false → noted q ≡ none
not_noted q h = rw h

-- In the wait for the server, with the flags as they are.
abbrev pub in_server_wait : Flags → Told
in_server_wait s = record waits_for_server { is_ready = s.is_ready; is_failed = s.has_failed }

not_flagged :
    (s : Flags) → (not s.is_ready && not s.has_failed) ≡ true → in_server_wait s ≡ waits_for_server
not_flagged s h =
    let r : s.is_ready ≡ false = ground arith in
    let e : s.has_failed ≡ false = ground arith in
    ap (λ b. record waits_for_server { is_ready = b; is_failed = s.has_failed }) r
    ∙ ap (λ b. record waits_for_server { is_failed = b }) e

abbrev pub in_verdict_wait : Option Bool → Told
in_verdict_wait o = record waits_for_verdict { accepted = o }

abbrev pub AfterReady : Option Flags × History → Type 0
AfterReady (none, t) = told t ≡ waits_for_server
AfterReady (some s, t) = (told t ≡ in_server_wait s) × ((s.is_ready || s.has_failed) ≡ true)

abbrev pub AfterSync : Option Sync × History → Type 0
AfterSync (none, t) = told t ≡ waits_for_verdict
AfterSync (some q, t) = told t ≡ in_verdict_wait (some q.success)

module _ (os : Os Call Answer) where
  pub await_ready-AfterReady :
      (f : ℕ) (s : Flags) (t : History)
      → told t ≡ in_server_wait s
      → AfterReady (await_ready f s os t)
  unfolding await_ready
  await_ready-AfterReady zero s t h =
      after_if AfterReady os t (not s.is_ready && not s.has_failed) stuck (pure s)
        (λ e. h ∙ not_flagged s e) (λ e. (h, ground arith))
  await_ready-AfterReady (suc f) s t h =
      after_if AfterReady os t (not s.is_ready && not s.has_failed)
        (call wait >>= λ a. await_ready f (report a.states s)) (pure s)
        (λ e.
          let a = os t wait in
          await_ready-AfterReady f (report a.states s) ((wait, a) ∷ t)
            (ap (note wait a) h ∙ ap in_server_wait (sym (report_lem a.states s))))
        (λ e. (h, ground arith))

  pub await_sync-AfterSync :
      (f : ℕ) (q : Sync) (t : History)
      → told t ≡ in_verdict_wait (noted q)
      → AfterSync (await_sync f q os t)
  unfolding await_sync
  await_sync-AfterSync zero q t h =
      after_if AfterSync os t q.done (pure q) stuck (λ e. h ∙ ap in_verdict_wait (done_noted q e))
        (λ e. h ∙ ap in_verdict_wait (not_noted q e))
  await_sync-AfterSync (suc f) q t h =
      after_if AfterSync os t q.done (pure q) (call wait >>= λ a. await_sync f (settle a.syncs q))
        (λ e. h ∙ ap in_verdict_wait (done_noted q e))
        (λ e.
          let a = os t wait in
          await_sync-AfterSync f (settle a.syncs q) ((wait, a) ∷ t)
            (ap (note wait a) h ∙ ap in_verdict_wait (sym (noted-settle a.syncs q))))
