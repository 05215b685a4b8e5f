-- ===== src/JumpOrExec/Tests.antt =====
-- Runs of jump-or-exec/jump-or-exec.c on small inputs, and its theorems at them.
use overthinkin.Base.{
  Bool, true, List, [], ◌∷◌, Option, none, some, Bytes, codes, starts, ◌≡◌, refl,
}
use overthinkin.JumpOrExec.Windows.{
  Window, Event, toplevel, titled, identified, stated, closed, on_window, window_destroy,
  manager_toplevel, toplevel_title, toplevel_app_id, toplevel_state, set_optional_string,
  any_activated, handle_event, dispatch, window_matches, select_from, select_window,
}
use overthinkin.JumpOrExec.Main.{
  opt_j, jumped, Compositor, parse_opts, run, jump, connect, act, main,
}
use overthinkin.JumpOrExec.Jumps.{act-active}
use overthinkin.JumpOrExec.Select.{
  first, or_else, matching, matching_active, select_window_lem, handles, dispatch-live,
}

-- Two windows of one program, of which the older one is active, and one that is closed again.
abbrev session : List Event
session =
    toplevel 1 true
    ∷ identified 1 (codes "term") true
    ∷ stated 1 (0 ∷ 2 ∷ [])
    ∷ toplevel 2 true
    ∷ identified 2 (codes "term") true
    ∷ titled 2 (codes "log") true
    ∷ toplevel 3 true
    ∷ closed 3
    ∷ []

-- A pattern that matches the strings that begin with it.
abbrev begins : Bytes → Option (Bytes → Bool)
begins pattern = some (starts pattern)

abbrev desktop : Compositor
desktop = record {
  connected = true;
  has_registry = true;
  synced = true;
  has_seat = true;
  has_manager = true;
  events = session;
  regcomp = begins;
}

active_term : Window
active_term = record { handle = 1; title = none; app_id = some (codes "term"); activated = true }

jumps_to_term : main desktop (opt_j (codes "term") ∷ []) (codes "xterm" ∷ []) ≡ jumped active_term
unfolding main parse_opts run jump connect act dispatch handle_event manager_toplevel on_window
    window_destroy toplevel_title toplevel_app_id toplevel_state set_optional_string any_activated
    select_window select_from window_matches active_term
jumps_to_term = refl

select_window_lem_example :
    let windows = dispatch session [] in
    select_window (starts (codes "term")) windows
    ≡ or_else
        (first (matching_active (starts (codes "term"))) windows)
        (first (matching (starts (codes "term"))) windows)
select_window_lem_example = select_window_lem (starts (codes "term")) (dispatch session [])

dispatch-live_example : handles (dispatch session []) ≡ 2 ∷ 1 ∷ []
dispatch-live_example = dispatch-live session []

term_is_active :
    first (matching_active (starts (codes "term"))) (dispatch session []) ≡ some active_term
unfolding first dispatch handle_event manager_toplevel on_window window_destroy toplevel_title
    toplevel_app_id toplevel_state set_optional_string any_activated window_matches active_term
term_is_active = refl

act-active_example :
    act (some (starts (codes "term"))) (codes "foot" ∷ []) (dispatch session [])
    ≡ jumped active_term
act-active_example =
    act-active (starts (codes "term")) (codes "foot" ∷ []) (dispatch session []) active_term
      term_is_active
