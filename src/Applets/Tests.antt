-- ===== src/Applets/Tests.antt =====
-- Runs of the model of the applets.
use overthinkin.Base.{
  Bool, inl, List, ◌++◌, length, ◌↔◌, arith, ℕ, ◌+◌, ◌*◌, ◌-◌, ◌^◌, leb, ◌&&◌, true, false, ◌∷◌, [],
  none, some, Bytes, codes, pos, minus_one, if◌then◌else◌, ◌≡◌, refl,
}
use overthinkin.Applets.Registry.{Applet, applet_register, applet_find, register_all}
use overthinkin.Applets.Order.{register_all_swap}
use overthinkin.Applets.Options.{
  PcmSetup, Parsed, opt_dev, opt_rate, opt_duration, Library, pcm_setup_defaults, parse_long,
  parse_card, pcm_setup_parse_opt, parse_all, pcm_setup_check, log_set_verbose,
}
use overthinkin.Applets.Dispatch.{run_help, run_found, run_wanted, main}
use overthinkin.Applets.Lookup.{main-registered}
use overthinkin.Applets.Xrun.{
  Hook, cycle, xrun, Round, Sink, no_xruns, on_hooks, end_of, xrun_run, remaining_ms, after_iterate,
  on_hook, on_cycle, on_xrun, count_interval, iterate, exit_status,
}
use overthinkin.Applets.Tally.{xruns, missing_of, Tally, on_hooks-counts}
use overthinkin.Applets.Course.{Course, going_on, over, xrun_run-status}
use overthinkin.Applets.Status.{Runs, xrun_run-long}
use overthinkin.Applets.Bounds.{EveryOption, Sane, parse_all-Sane, parse_all-endless}

abbrev monitor : Applet
monitor = record { name = codes "xrun"; main = λ args. minus_one }

abbrev play : Applet
play = record { name = codes "play"; main = λ args. pos 2 }

abbrev caps : Applet
caps = record { name = codes "caps"; main = λ args. pos 0 }

-- Digits, as strtol reads them.
abbrev decimal : Bytes → ℕ → Parsed
decimal [] n = record { value = pos n; left = []; has_errno = false }
decimal (c ∷ cs) n =
    let rest = decimal cs (n * 10 + (c - 48)) in
    if leb 48 c && leb c 57
    then rest
    else record { value = pos n; left = c ∷ cs; has_errno = false }

abbrev library : Library
library = record {
  strtol = λ s. decimal s 0;
  snd_pcm_format_value = λ s. minus_one;
  format_s16_le = pos 2;
  format_unknown = minus_one;
}

register_all_swap_example :
    register_all (monitor ∷ play ∷ caps ∷ []) [] ≡ register_all (monitor ∷ caps ∷ play ∷ []) []
register_all_swap_example = register_all_swap (monitor ∷ []) [] play caps [] refl

main-registered_example :
    main
      (register_all (play ∷ monitor ∷ caps ∷ []) [])
      (codes "check-my-alsa" ∷ monitor.name ∷ codes "-D" ∷ codes "hw:0" ∷ [])
    ≡ 1
main-registered_example =
    main-registered (play ∷ []) (caps ∷ []) monitor (codes "check-my-alsa") (codes "-D")
      (codes "hw:0" ∷ []) (refl, _) refl refl

-- One applet and no argument of it: the usage is printed.
no_argument : main (register_all (play ∷ []) []) (codes "check-my-alsa" ∷ codes "play" ∷ []) ≡ 2
unfolding main run_wanted run_found applet_find register_all applet_register
no_argument = refl

help_of :
    main (register_all (play ∷ []) []) (codes "check-my-alsa" ∷ codes "help" ∷ codes "play" ∷ [])
    ≡ 0
unfolding main run_help applet_find register_all applet_register
help_of = refl

parse_all-Sane_example : EveryOption Sane (
    parse_all library
      (opt_dev (codes "hw:1") ∷ opt_rate (codes "96000") ∷ [])
      (pcm_setup_defaults library))
parse_all-Sane_example =
    parse_all-Sane library (opt_dev (codes "hw:1") ∷ opt_rate (codes "96000") ∷ [])

abbrev chosen : PcmSetup
chosen = record {
  dev = some (codes "hw:1");
  rate = 96000;
  channels = 2;
  format = pos 2;
  period = 1024;
  duration_sec = 30;
}

two_options :
    parse_all library
      (opt_dev (codes "hw:1") ∷ opt_rate (codes "96000") ∷ [])
      (pcm_setup_defaults library)
    ≡ some chosen
unfolding parse_all pcm_setup_parse_opt parse_long pcm_setup_defaults
two_options = refl

bad_rate : parse_all library (opt_rate (codes "1999") ∷ []) (pcm_setup_defaults library) ≡ none
unfolding parse_all pcm_setup_parse_opt parse_long pcm_setup_defaults
bad_rate = refl

no_default : parse_all library (opt_dev (codes "default") ∷ []) (pcm_setup_defaults library) ≡ none
unfolding parse_all pcm_setup_parse_opt
no_default = refl

long_duration : parse_long library (codes "4294967296") ≡ some (pos (1 * 2 ^ 32))
unfolding parse_long
long_duration = refl

parse_all-endless_example :
    parse_all library
      (opt_dev (codes "hw:1") ∷ opt_rate (codes "96000") ∷ opt_duration (codes "4294967296") ∷ [])
      (pcm_setup_defaults library)
    ≡ some (record chosen { duration_sec = 0 })
parse_all-endless_example =
    parse_all-endless library (opt_dev (codes "hw:1") ∷ opt_rate (codes "96000") ∷ [])
      (pcm_setup_defaults library) chosen (codes "4294967296") 1 two_options long_duration

a_card : parse_card library (codes "31") ≡ some 31
unfolding parse_card parse_long
a_card = refl

no_card : parse_card library (codes "32") ≡ none
unfolding parse_card parse_long
no_card = refl

needs_device : pcm_setup_check chosen ≡ true
unfolding pcm_setup_check
needs_device = refl

verbose : log_set_verbose 2 ≡ 4
unfolding log_set_verbose
verbose = refl

abbrev some_hooks : List Hook
some_hooks = cycle 1000 20 ∷ cycle 1025 20 ∷ xrun 1040 96 ∷ cycle 1060 20 ∷ []

on_hooks-counts_example :
    Tally
      (length some_hooks)
      (xruns some_hooks)
      (missing_of some_hooks)
      (on_hooks some_hooks (no_xruns 990))
on_hooks-counts_example = on_hooks-counts 990 some_hooks (omega arith)

abbrev a_round : Round
a_round = record {
  stops = false;
  now = 5000;
  now_left = 5010;
  hooks = some_hooks;
  result = pos 0;
  stops_later = false;
}

abbrev a_sink : Sink
a_sink = record {
  opens = true;
  now_created = 990;
  hooks = [];
  starts = true;
  now_started = 995;
  rounds = a_round ∷ [];
}

-- A second round, behind the end of 30 seconds.
abbrev a_late_sink : Sink
a_late_sink = record a_sink { rounds = a_round ∷ record a_round { now = 30000000996 } ∷ [] }

a_sink-Runs : (d : ℕ) → Runs a_sink (record chosen { duration_sec = d })
unfolding pcm_setup_check
a_sink-Runs d = record { checked = refl; opened = refl; started = refl }

a_late_sink-Runs : Runs a_late_sink chosen
unfolding pcm_setup_check
a_late_sink-Runs = record { checked = refl; opened = refl; started = refl }

xrun_run-status_example :
    (hs : List Hook) × (b : Bool) × Course (end_of 30 995) a_late_sink.rounds hs b
    × ((xrun_run a_late_sink chosen ≡ 0) ↔ ((b ≡ false) × (xruns hs ≡ 0)))
xrun_run-status_example = xrun_run-status a_late_sink chosen a_late_sink-Runs (omega arith)

-- The loop goes on after the first round, and the second is over.
a_late_sink-Course : Course (end_of 30 995) a_late_sink.rounds (some_hooks ++ []) false
unfolding remaining_ms end_of
a_late_sink-Course =
    going_on a_round (record a_round { now = 30000000996 } ∷ []) [] false refl refl (inl refl)
      (over (record a_round { now = 30000000996 }) [] refl)

-- 30 days.
xrun_run-long_example : xrun_run a_sink (record chosen { duration_sec = 2592000 }) ≡ 0
xrun_run-long_example =
    xrun_run-long a_sink (record chosen { duration_sec = 2592000 }) a_round [] (a_sink-Runs 2592000)
      refl (omega arith) (omega arith) (omega arith) (omega arith) (omega arith) (omega arith) refl

an_xrun : xrun_run a_sink chosen ≡ 1
unfolding xrun_run iterate exit_status on_hooks on_hook on_cycle on_xrun count_interval remaining_ms
    end_of after_iterate pcm_setup_check no_xruns
an_xrun = refl
