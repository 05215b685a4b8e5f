-- ===== src/Applets/Course.antt =====
-- check-my-alsa/app-xrun.c: how the loop goes, and what the exit status says of it.
use overthinkin.Base.{
  ℕ, ◌+◌, ◌^◌, ◌≤◌, ◌<◌, ltb, ◌==◌, Bool, true, false, not, ◌&&◌, ◌||◌, List, ◌∷◌, [], ◌++◌, ℤ, pos,
  negsuc, is_neg, ◌==ℤ◌, length, inl, inr, Bool-cases, ◌≡◌, ◌↔◌, ◌⊎◌, refl, sym, ap, ◌∙◌, arith,
}
use overthinkin.Applets.Options.{PcmSetup}
use overthinkin.Applets.Xrun.{
  XrunStats, no_xruns, Hook, on_hook, on_hooks, Round, forever, end_of, remaining_ms, has_time,
  go_on, leave, broken, after_iterate, iterate, exit_status, Sink, xrun_run,
}
use overthinkin.Applets.Tally.{xruns, on_hooks-counts}
use overthinkin.Applets.Status.{Runs, xrun_run-Runs}

abbrev pub hooks_of : List Round → List Hook
hooks_of [] = []
hooks_of (r ∷ rs) = r.hooks ++ hooks_of rs

on_hooks-++ :
    (hs hs' : List Hook) (s : XrunStats) → on_hooks (hs ++ hs') s ≡ on_hooks hs' (on_hooks hs s)
unfolding on_hooks
on_hooks-++ [] hs' s = refl
on_hooks-++ (h ∷ hs) hs' s = on_hooks-++ hs hs' (on_hook h s)

-- What pcm_sink_iterate returns: -EINTR or -ETIMEDOUT, or an error other than those and -EAGAIN.
abbrev pub is_timeout : ℤ → Bool
is_timeout r = r ==ℤ negsuc 3 || r ==ℤ negsuc 109

abbrev pub is_error : ℤ → Bool
is_error r = is_neg r && not (is_timeout r) && not (r ==ℤ negsuc 10)

-- A round is entered: no signal has come, and the end is at least a millisecond away.
abbrev pub is_entered : ℕ → Round → Bool
is_entered end_ns r = not r.stops && ltb r.now end_ns && has_time (remaining_ms end_ns r.now_left)

-- After a timeout the loop goes on only if the test is endless and no signal has come.
abbrev pub is_patient : ℕ → Round → Bool
is_patient end_ns r = end_ns == forever && not r.stops_later

-- How the loop goes through its rounds: which hooks are called, and whether an error ends it.
pub data Course (end_ns : ℕ) : List Round → List Hook → Bool → Type 0 where
  signalled : Course end_ns [] [] false
  over :
      (r : Round) (rs : List Round) → is_entered end_ns r ≡ false → Course end_ns (r ∷ rs) [] false
  timed_out :
      (r : Round) (rs : List Round)
      → is_entered end_ns r ≡ true
      → is_timeout r.result ≡ true
      → is_patient end_ns r ≡ false
      → Course end_ns (r ∷ rs) r.hooks false
  failing :
      (r : Round) (rs : List Round)
      → is_entered end_ns r ≡ true
      → is_error r.result ≡ true
      → Course end_ns (r ∷ rs) r.hooks true
  going_on :
      (r : Round) (rs : List Round) (hs : List Hook) (b : Bool)
      → is_entered end_ns r ≡ true
      → is_error r.result ≡ false
      → (is_timeout r.result ≡ false) ⊎ (is_patient end_ns r ≡ true)
      → Course end_ns rs hs b
      → Course end_ns (r ∷ rs) (r.hooks ++ hs) b

-- The loop has a course, and ends as that says.
record RunCourse (end_ns : ℕ) (rs : List Round) (s : XrunStats) : Type 0 where
  hooks : List Hook
  breaks : Bool
  course : Course end_ns rs hooks breaks
  error : ℤ
  ends : iterate end_ns rs s ≡ (error, on_hooks hooks s)
  code : (error ==ℤ pos 0) ≡ not breaks
  few : length hooks ≤ length (hooks_of rs)

length-++ : (hs hs' : List Hook) → length (hs ++ hs') ≡ length hs + length hs'
length-++ [] hs' = omega arith
length-++ (h ∷ hs) hs' = omega (arith, length-++ hs hs')

module _ (end_ns : ℕ) (r : Round) where
  after-leave :
      is_timeout r.result ≡ true → is_patient end_ns r ≡ false → after_iterate end_ns r ≡ leave
  unfolding after_iterate
  after-leave e p = rw (e, p)

  after-broken :
      is_timeout r.result ≡ false
      → is_error r.result ≡ true
      → after_iterate end_ns r ≡ broken r.result
  unfolding after_iterate
  after-broken e f =
      let fails : (is_neg r.result && not (r.result ==ℤ negsuc 10)) ≡ true = ground arith in
      rw (e, fails)

  after-patient :
      is_timeout r.result ≡ true → is_patient end_ns r ≡ true → after_iterate end_ns r ≡ go_on
  unfolding after_iterate
  after-patient e p = rw (e, p)

  after-fine :
      is_timeout r.result ≡ false → is_error r.result ≡ false → after_iterate end_ns r ≡ go_on
  unfolding after_iterate
  after-fine e f =
      let fine : (is_neg r.result && not (r.result ==ℤ negsuc 10)) ≡ false = ground arith in
      rw (e, fine)

no_error : (z : ℤ) → is_error z ≡ true → (z ==ℤ pos 0) ≡ false
no_error (pos n) h = cc
no_error (negsuc n) h = refl

timeout_no_error : (z : ℤ) → is_timeout z ≡ true → is_error z ≡ false
timeout_no_error z h = ground arith

module _ (end_ns : ℕ) (r : Round) (rs : List Round) (s : XrunStats) where
  iterate-over : is_entered end_ns r ≡ false → iterate end_ns (r ∷ rs) s ≡ (pos 0, s)
  unfolding iterate
  iterate-over h = rw h

  module _ (h : is_entered end_ns r ≡ true) where
    iterate-leave :
        after_iterate end_ns r ≡ leave → iterate end_ns (r ∷ rs) s ≡ (pos 0, on_hooks r.hooks s)
    unfolding iterate
    iterate-leave e = rw (h, e)

    iterate-broken :
        (z : ℤ)
        → after_iterate end_ns r ≡ broken z
        → iterate end_ns (r ∷ rs) s ≡ (z, on_hooks r.hooks s)
    unfolding iterate
    iterate-broken z e = rw (h, e)

    iterate-go_on :
        after_iterate end_ns r ≡ go_on
        → iterate end_ns (r ∷ rs) s ≡ iterate end_ns rs (on_hooks r.hooks s)
    unfolding iterate
    iterate-go_on e = rw (h, e)

    few_hooks : length r.hooks ≤ length (r.hooks ++ hooks_of rs)
    few_hooks = omega (arith, length-++ r.hooks (hooks_of rs))

    goes_on :
        is_error r.result ≡ false
        → (is_timeout r.result ≡ false) ⊎ (is_patient end_ns r ≡ true)
        → after_iterate end_ns r ≡ go_on
        → RunCourse end_ns rs (on_hooks r.hooks s)
        → RunCourse end_ns (r ∷ rs) s
    goes_on f p e c = record {
      hooks = r.hooks ++ c.hooks;
      breaks = c.breaks;
      course = going_on r rs c.hooks c.breaks h f p c.course;
      error = c.error;
      ends =
          iterate-go_on e ∙ c.ends ∙ ap (λ x. (c.error, x)) (sym (on_hooks-++ r.hooks c.hooks s));
      code = c.code;
      few =
          let n = c.few in
          omega (arith, length-++ r.hooks c.hooks, length-++ r.hooks (hooks_of rs));
    }

iterate-RunCourse : (end_ns : ℕ) (rs : List Round) (s : XrunStats) → RunCourse end_ns rs s
unfolding iterate on_hooks
iterate-RunCourse end_ns [] s = record {
  hooks = [];
  breaks = false;
  course = signalled;
  error = pos 0;
  ends = refl;
  code = refl;
  few = omega arith;
}
iterate-RunCourse end_ns (r ∷ rs) s =
    let rest = iterate-RunCourse end_ns rs (on_hooks r.hooks s) in
    elim (Bool-cases (is_entered end_ns r)) [
      | inr h ↦ record {
        hooks = [];
        breaks = false;
        course = over r rs h;
        error = pos 0;
        ends = iterate-over end_ns r rs s h;
        code = refl;
        few = omega arith;
      }
      | inl h ↦ elim (Bool-cases (is_timeout r.result)) [
        | inl t ↦ elim (Bool-cases (is_patient end_ns r)) [
          | inl p ↦
              goes_on end_ns r rs s h (timeout_no_error r.result t) (inr p)
                (after-patient end_ns r t p) rest
          | inr p ↦ record {
            hooks = r.hooks;
            breaks = false;
            course = timed_out r rs h t p;
            error = pos 0;
            ends = iterate-leave end_ns r rs s h (after-leave end_ns r t p);
            code = refl;
            few = few_hooks end_ns r rs s h;
          }
        ]
        | inr t ↦ elim (Bool-cases (is_error r.result)) [
          | inl f ↦ record {
            hooks = r.hooks;
            breaks = true;
            course = failing r rs h f;
            error = r.result;
            ends = iterate-broken end_ns r rs s h r.result (after-broken end_ns r t f);
            code = no_error r.result f;
            few = few_hooks end_ns r rs s h;
          }
          | inr f ↦ goes_on end_ns r rs s h f (inl t) (after-fine end_ns r t f) rest
        ]
      ]
    ]

exit_status-zero :
    (e : ℤ) (b : Bool) (s : XrunStats)
    → (e ==ℤ pos 0) ≡ not b
    → (exit_status (e, s) ≡ 0) ↔ ((b ≡ false) × (s.xrun_count ≡ 0))
unfolding exit_status
exit_status-zero e b s h = ground arith

-- A run that has its device, opens and starts, with less than 2 ^ 64 hooks in its rounds and before
-- them: its loop takes a course, which a signal, the end of the duration, a timeout or an error ends;
-- and the exit status is 0 if and only if no error ended it and no xrun was told of, before the loop
-- or in the rounds of the course.
pub xrun_run-status :
    (sink : Sink) (cfg : PcmSetup)
    → Runs sink cfg
    → length (sink.hooks ++ hooks_of sink.rounds) < 2 ^ 64
    → (hs : List Hook) × (b : Bool) × Course
        (end_of cfg.duration_sec sink.now_started)
        sink.rounds
        hs
        b
      × ((xrun_run sink cfg ≡ 0) ↔ ((b ≡ false) × (xruns (sink.hooks ++ hs) ≡ 0)))
xrun_run-status sink cfg r l =
    let s = on_hooks sink.hooks (no_xruns sink.now_created) in
    let c = iterate-RunCourse (end_of cfg.duration_sec sink.now_started) sink.rounds s in
    let few = c.few in
    let all_hooks = sink.hooks ++ c.hooks in
    let counts =
      on_hooks-counts sink.now_created all_hooks (
        omega (arith, length-++ sink.hooks c.hooks, length-++ sink.hooks (hooks_of sink.rounds))) in
    let same = on_hooks-++ sink.hooks c.hooks (no_xruns sink.now_created) in
    let e : xrun_run sink cfg
        ≡ exit_status (c.error, on_hooks all_hooks (no_xruns sink.now_created)) =
      xrun_run-Runs sink cfg r ∙ ap exit_status (c.ends ∙ ap (λ x. (c.error, x)) (sym same)) in
    let z =
      exit_status-zero c.error c.breaks (on_hooks all_hooks (no_xruns sink.now_created)) c.code in
    (
      c.hooks,
      c.breaks,
      c.course,
      (
        λ h. ((z.0 (sym e ∙ h)).0, sym counts.counted ∙ (z.0 (sym e ∙ h)).1),
        λ h. e ∙ z.1 (h.0, counts.counted ∙ h.1),
      ),
    )
