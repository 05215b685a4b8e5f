-- ===== src/Applets/Xrun.antt =====
-- check-my-alsa/app-xrun.c: the counters of xruns, the loop of the applet, and its exit status.
-- The report is left out.
use overthinkin.Base.{
  ℕ, ◌+◌, ◌-◌, ◌*◌, ◌/◌, ◌%◌, ◌^◌, ltb, leb, ◌==◌, Bool, false, not, ◌&&◌, ◌||◌, List, ◌∷◌, [], ℤ,
  pos, negsuc, is_neg, ◌==ℤ◌, u64, replicate, bump, if◌then◌else◌,
}
use overthinkin.Applets.Options.{PcmSetup, pcm_setup_check}

-- struct xrun_stats
pub record XrunStats : Type 0 where
  pub callback_count : ℕ
  pub xrun_count : ℕ
  pub xrun_frames : ℕ
  pub sum_ns : ℕ
  pub max_ns : ℕ
  pub last_callback_ns : ℕ
  pub histogram : List ℕ
  pub first_xrun_ns : ℕ
  pub last_xrun_ns : ℕ
  pub start_ns : ℕ

-- The counters when the stream starts, at `now`.
unfoldable pub no_xruns : ℕ → XrunStats
no_xruns now = record {
  callback_count = 0;
  xrun_count = 0;
  xrun_frames = 0;
  sum_ns = 0;
  max_ns = 0;
  last_callback_ns = 0;
  histogram = replicate 128 0;
  first_xrun_ns = 0;
  last_xrun_ns = 0;
  start_ns = now;
}

-- A call of a hook: what it is given and what it reads. `expected` is expected_period_ns, a double
-- cut to 64 bits, and `now` the clock.
pub data Hook : Type 0 where
  cycle : (now expected : ℕ) → Hook
  xrun : (now missing : ℕ) → Hook

abbrev pub bucket_of : ℕ → ℕ → ℕ
bucket_of interval expected =
    let bucket = if ltb 0 expected then u64 (interval * 16) / expected else 0 in
    if leb 128 bucket then 127 else bucket

-- What on_cycle counts of an interval.
unfoldable pub count_interval : ℕ → ℕ → XrunStats → XrunStats
count_interval interval expected s = record s {
  callback_count = u64 (s.callback_count + 1);
  sum_ns = u64 (s.sum_ns + interval);
  max_ns = if ltb s.max_ns interval then interval else s.max_ns;
  histogram = bump (bucket_of interval expected) s.histogram;
}

unfoldable pub on_cycle : ℕ → ℕ → XrunStats → XrunStats
on_cycle now expected s =
    if s.last_callback_ns == 0
    then record s { last_callback_ns = now }
    else count_interval (u64 (now + 2 ^ 64 - s.last_callback_ns)) expected
        (record s { last_callback_ns = now })

unfoldable pub on_xrun : ℕ → ℕ → XrunStats → XrunStats
on_xrun now missing s =
    let elapsed = u64 (now + 2 ^ 64 - s.start_ns) in
    let n = u64 (s.xrun_count + 1) in
    record s {
      xrun_count = n;
      xrun_frames = u64 (s.xrun_frames + missing);
      first_xrun_ns = if n == 1 then elapsed else s.first_xrun_ns;
      last_xrun_ns = elapsed;
    }

unfoldable pub on_hook : Hook → XrunStats → XrunStats
on_hook (cycle now expected) s = on_cycle now expected s
on_hook (xrun now missing) s = on_xrun now missing s

-- The hooks of some rounds, in the order in which they are called.
unfoldable pub on_hooks : List Hook → XrunStats → XrunStats
on_hooks [] s = s
on_hooks (h ∷ hs) s = on_hooks hs (on_hook h s)

-- One round of the loop: whether stop_requested is set when it is tested, first and last, what the
-- clock says, first and when the rest is computed, the hooks that pcm_sink_iterate calls, and what
-- it returns.
pub record Round : Type 0 where
  pub stops : Bool
  pub now : ℕ
  pub now_left : ℕ
  pub hooks : List Hook
  pub result : ℤ
  pub stops_later : Bool

-- A conversion of 64 bits to int.
abbrev pub to_int : ℕ → ℤ
to_int n = let low = n % 2 ^ 32 in if ltb low (2 ^ 31) then pos low else negsuc (2 ^ 32 - 1 - low)

-- UINT64_MAX
abbrev pub forever : ℕ
forever = 2 ^ 64 - 1

unfoldable pub end_of : ℕ → ℕ → ℕ
end_of duration_sec now =
    if duration_sec == 0 then forever else u64 (now + duration_sec * 1000000000)

-- remaining_ms
unfoldable pub remaining_ms : ℕ → ℕ → ℤ
remaining_ms end_ns now =
    if end_ns == forever then pos 500 else to_int (u64 (end_ns + 2 ^ 64 - now) / 1000000)

-- `remaining_ms > 0`
abbrev pub has_time : ℤ → Bool
has_time (pos n) = ltb 0 n
has_time (negsuc n) = false

-- What follows a round: the loop goes on, is left, or is left with runtime_error.
pub data Next : Type 0 where
  go_on leave : Next
  broken : ℤ → Next

-- The rest of a round: -4 is -EINTR, -110 -ETIMEDOUT and -11 -EAGAIN.
unfoldable pub after_iterate : ℕ → Round → Next
after_iterate end_ns r =
    if r.result ==ℤ negsuc 3 || r.result ==ℤ negsuc 109
    then if end_ns == forever && not r.stops_later then go_on else leave
    else if is_neg r.result && not (r.result ==ℤ negsuc 10)
    then broken r.result
    else go_on

-- The rounds of the loop, with the counters; after those given, stop_requested is set.
unfoldable pub iterate : ℕ → List Round → XrunStats → ℤ × XrunStats
iterate end_ns [] s = (pos 0, s)
iterate end_ns (r ∷ rs) s =
    let s' = on_hooks r.hooks s in
    let rest = iterate end_ns rs s' in
    if not r.stops && ltb r.now end_ns && has_time (remaining_ms end_ns r.now_left)
    then elim (after_iterate end_ns r) [ go_on ↦ rest | leave ↦ (pos 0, s') | broken e ↦ (e, s') ]
    else (pos 0, s)

-- What the applet returns.
unfoldable pub exit_status : ℤ × XrunStats → ℕ
exit_status (error, s) = if not (error ==ℤ pos 0) || ltb 0 s.xrun_count then 1 else 0

-- What alsa-pcm.c answers to the applet: whether pcm_sink_open and pcm_sink_start succeed, the hooks
-- before the loop, the clock, and the rounds.
pub record Sink : Type 0 where
  pub opens : Bool
  pub now_created : ℕ
  pub hooks : List Hook
  pub starts : Bool
  pub now_started : ℕ
  pub rounds : List Round

-- xrun_run behind its options.
unfoldable pub xrun_run : Sink → PcmSetup → ℕ
xrun_run sink cfg =
    if not (pcm_setup_check cfg)
    then 2
    else if not sink.opens
    then 1
    else if not sink.starts
    then 1
    else exit_status (
        iterate (end_of cfg.duration_sec sink.now_started) sink.rounds
          (on_hooks sink.hooks (no_xruns sink.now_created)))
