-- ===== src/JumpOrExec/Windows.antt =====
-- The windows of jump-or-exec/jump-or-exec.c under the events of the compositor, and the choice among
-- them. A wl_list is a list, and wl_list_insert at its head puts a window first.
use overthinkin.Base.{
  ℕ, Bool, true, false, List, [], ◌∷◌, ◌++◌, Option, none, some, take, Bytes, ◌==◌, if◌then◌else◌,
}

-- The handle stands for the protocol object of the window, and for the pointer to it that the
-- listener is given.
pub record Window : Type 0 where
  pub handle : ℕ
  pub title : Option Bytes
  pub app_id : Option Bytes
  pub activated : Bool

-- The events; where one of them takes memory, whether there was any. The other events of a window
-- change nothing.
pub data Event : Type 0 where
  toplevel : ℕ → Bool → Event
  titled identified : ℕ → Bytes → Bool → Event
  stated : ℕ → List ℕ → Event
  closed : ℕ → Event
  other : ℕ → Event

unfoldable pub set_optional_string : Bool → Bytes → Option Bytes
set_optional_string memory [] = none
set_optional_string memory (c ∷ src) = if memory then some (c ∷ src) else none

-- ZWLR_FOREIGN_TOPLEVEL_HANDLE_V1_STATE_ACTIVATED
abbrev pub state_activated : ℕ
state_activated = 2

-- The loop of toplevel_state.
unfoldable pub any_activated : List ℕ → Bool
any_activated [] = false
any_activated (entry ∷ states) = if entry == state_activated then true else any_activated states

unfoldable pub toplevel_title : Bool → Bytes → Window → Window
toplevel_title memory title win = record win { title = set_optional_string memory title }

unfoldable pub toplevel_app_id : Bool → Bytes → Window → Window
toplevel_app_id memory app_id win = record win { app_id = set_optional_string memory app_id }

unfoldable pub toplevel_state : List ℕ → Window → Window
toplevel_state states win = record win { activated = any_activated states }

-- A window, as manager_toplevel makes it.
abbrev pub new_window : ℕ → Window
new_window handle = record { handle = handle; title = none; app_id = none; activated = false }

unfoldable pub manager_toplevel : ℕ → Bool → List Window → List Window
manager_toplevel handle memory windows = if memory then new_window handle ∷ windows else windows

-- A listener of the window `handle`.
unfoldable pub on_window : ℕ → (Window → Window) → List Window → List Window
on_window handle f [] = []
on_window handle f (win ∷ windows) =
    let rest = on_window handle f windows in
    if win.handle == handle then f win ∷ windows else win ∷ rest

-- window_destroy takes the window from the list.
unfoldable pub window_destroy : ℕ → List Window → List Window
window_destroy handle [] = []
window_destroy handle (win ∷ windows) =
    let rest = window_destroy handle windows in if win.handle == handle then windows else win ∷ rest

unfoldable pub handle_event : Event → List Window → List Window
handle_event (toplevel h memory) windows = manager_toplevel h memory windows
handle_event (titled h title memory) windows = on_window h (toplevel_title memory title) windows
handle_event (identified h app_id memory) windows =
    on_window h (toplevel_app_id memory app_id) windows
handle_event (stated h states) windows = on_window h (toplevel_state states) windows
handle_event (closed h) windows = window_destroy h windows
handle_event (other h) windows = windows

-- The events of the round trips, the first one first.
unfoldable pub dispatch : List Event → List Window → List Window
dispatch [] windows = windows
dispatch (e ∷ events) windows = dispatch events (handle_event e windows)

abbrev text : Option Bytes → Bytes
text none = []
text (some s) = s

-- `joined` has room for 511 bytes.
abbrev pub joined : Window → Bytes
joined win = take 511 (text win.app_id ++ 10 ∷ text win.title)

-- regexec with the compiled pattern is given.
module _ (regexec : Bytes → Bool) where
  unfoldable pub window_matches : Window → Bool
  window_matches win = regexec (joined win)

  -- The loop of select_window, with its candidate.
  unfoldable pub select_from : Option Window → List Window → Option Window
  select_from candidate [] = candidate
  select_from none (win ∷ windows) =
      let rest = select_from none windows in
      let kept = select_from (some win) windows in
      if window_matches win then (if win.activated then some win else kept) else rest
  select_from (some c) (win ∷ windows) =
      let rest = select_from (some c) windows in
      if window_matches win then (if win.activated then some win else rest) else rest

  unfoldable pub select_window : List Window → Option Window
  select_window windows = select_from none windows
