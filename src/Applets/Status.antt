-- ===== src/Applets/Status.antt =====
-- check-my-alsa/app-xrun.c: the exit status of a run whose duration is too long.
use overthinkin.Base.{
  ℕ, ◌+◌, ◌-◌, ◌*◌, ◌/◌, ◌^◌, ◌≤◌, ◌<◌, ltb, ◌==◌, Bool, true, false, not, ◌&&◌, List, ◌∷◌, pos,
  u64, length, ◌≡◌, ◌↔◌, ap, ◌∙◌, arith,
}
use overthinkin.Applets.Options.{PcmSetup, pcm_setup_check}
use overthinkin.Applets.Xrun.{
  XrunStats, no_xruns, on_hooks, Round, to_int, forever, end_of, remaining_ms, has_time, iterate,
  exit_status, Sink, xrun_run,
}
use overthinkin.Applets.Tally.{xruns, on_hooks-counts}

-- A run that has its device, that opens and starts.
pub record Runs (sink : Sink) (cfg : PcmSetup) : Type 0 where
  pub checked : pcm_setup_check cfg ≡ true
  pub opened : sink.opens ≡ true
  pub started : sink.starts ≡ true

pub xrun_run-Runs :
    (sink : Sink) (cfg : PcmSetup)
    → Runs sink cfg
    → xrun_run sink cfg
      ≡ exit_status (
          iterate
            (end_of cfg.duration_sec sink.now_started)
            sink.rounds
            (on_hooks sink.hooks (no_xruns sink.now_created)))
unfolding xrun_run
xrun_run-Runs sink cfg r = rw (r.checked, r.opened, r.started)

exit_status-zero : (s : XrunStats) → (exit_status (pos 0, s) ≡ 0) ↔ (s.xrun_count ≡ 0)
unfolding exit_status
exit_status-zero s = ground arith

has_time-large : (m : ℕ) → 2 ^ 31 ≤ m → m < 2 ^ 32 → has_time (to_int m) ≡ false
has_time-large m a b = ground arith

end_of-timed :
    (d now : ℕ) → 1 ≤ d → d ≤ 4294967 → now < 2 ^ 63 → end_of d now ≡ now + d * 1000000000
unfolding end_of
end_of-timed d now a b c = ground arith

remaining_ms-timed :
    (end_ns now : ℕ)
    → end_ns < forever
    → now ≤ end_ns
    → remaining_ms end_ns now ≡ to_int ((end_ns - now) / 1000000)
unfolding remaining_ms
remaining_ms-timed end_ns now a b =
    let test : (end_ns == forever) ≡ false = ground arith in
    let wrap : u64 (end_ns + 2 ^ 64 - now) ≡ end_ns - now = omega arith in
    rw test (ap (λ n. to_int (n / 1000000)) wrap)

no_time :
    (d now now_left : ℕ)
    → 2147485 ≤ d
    → d ≤ 4294967
    → now < 2 ^ 63
    → now ≤ now_left
    → now_left ≤ now + 1000000000
    → has_time (remaining_ms (end_of d now) now_left) ≡ false
no_time d now now_left a b c e f =
    let n = end_of-timed d now (omega arith) b c in
    ap (λ k. has_time (remaining_ms k now_left)) n
    ∙ ap has_time (remaining_ms-timed (now + d * 1000000000) now_left (omega arith) (omega arith))
    ∙ has_time-large ((now + d * 1000000000 - now_left) / 1000000) (omega arith) (omega arith)

and-false : (a b : Bool) {c : Bool} → c ≡ false → (a && b && c) ≡ false
and-false a b h = ground arith

iterate-no_time :
    (end_ns : ℕ) (r : Round) (rs : List Round) (s : XrunStats)
    → has_time (remaining_ms end_ns r.now_left) ≡ false
    → iterate end_ns (r ∷ rs) s ≡ (pos 0, s)
unfolding iterate
iterate-no_time end_ns r rs s h =
    let test : (not r.stops && ltb r.now end_ns && has_time (remaining_ms end_ns r.now_left))
        ≡ false =
      and-false (not r.stops) (ltb r.now end_ns) h in
    rw test

-- With a duration from 2147485 to 4294967 seconds, the rest of it in milliseconds does not fit an
-- int, and is negative. The loop is left at once, in its first round, whatever the sink would do;
-- and with no xrun before it, the exit status is 0.
pub xrun_run-long :
    (sink : Sink) (cfg : PcmSetup) (r : Round) (rs : List Round)
    → Runs sink cfg
    → sink.rounds ≡ r ∷ rs
    → 2147485 ≤ cfg.duration_sec
    → cfg.duration_sec ≤ 4294967
    → sink.now_started < 2 ^ 63
    → sink.now_started ≤ r.now_left
    → r.now_left ≤ sink.now_started + 1000000000
    → length sink.hooks < 2 ^ 64
    → xruns sink.hooks ≡ 0
    → xrun_run sink cfg ≡ 0
xrun_run-long sink cfg r rs runs e a b c f g l z =
    let s = on_hooks sink.hooks (no_xruns sink.now_created) in
    let end_ns = end_of cfg.duration_sec sink.now_started in
    xrun_run-Runs sink cfg runs
    ∙ ap (λ x. exit_status (iterate end_ns x s)) e
    ∙ ap exit_status (
        iterate-no_time end_ns r rs s
          (no_time cfg.duration_sec sink.now_started r.now_left a b c f g))
    ∙ (exit_status-zero s).1 ((on_hooks-counts sink.now_created sink.hooks l).counted ∙ z)
