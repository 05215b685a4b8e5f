-- ===== src/JumpOrExec/Select.antt =====
-- Which window jump-or-exec/jump-or-exec.c chooses, and how the events keep its list.
use overthinkin.Base.{
  ℕ, Bool, true, false, ◌&&◌, List, [], ◌∷◌, Option, none, some, Bytes, ◌==◌, if◌then◌else◌, ◌≡◌,
  refl, arith, ap, ◌∙◌,
}
use overthinkin.JumpOrExec.Windows.{
  Window, Event, toplevel, titled, identified, stated, closed, other, toplevel_title,
  toplevel_app_id, toplevel_state, new_window, manager_toplevel, on_window, window_destroy,
  handle_event, dispatch, window_matches, select_from, select_window,
}

-- The first window of a list that passes a test.
unfoldable pub first : (Window → Bool) → List Window → Option Window
first p [] = none
first p (win ∷ windows) = let rest = first p windows in if p win then some win else rest

abbrev pub or_else : Option Window → Option Window → Option Window
or_else none o = o
or_else (some w) o = some w

module _ (regexec : Bytes → Bool) where
  abbrev pub matching : Window → Bool
  matching w = window_matches regexec w

  abbrev pub matching_active : Window → Bool
  matching_active w = window_matches regexec w && w.activated

  select_kept :
      (c : Window) (windows : List Window)
      → select_from regexec (some c) windows ≡ or_else (first matching_active windows) (some c)
  unfolding select_from first
  select_kept c [] = refl
  select_kept c (w ∷ windows) = let h = select_kept c windows in ground arith

  select_first :
      (windows : List Window)
      → select_from regexec none windows
        ≡ or_else (first matching_active windows) (first matching windows)
  unfolding select_from first
  select_first [] = refl
  select_first (w ∷ windows) =
      let h = select_first windows in let k = select_kept w windows in ground arith

-- select_window chooses the first active window that matches, and if there is none, the first window
-- that matches.
pub select_window_lem :
    (regexec : Bytes → Bool) (windows : List Window)
    → select_window regexec windows
      ≡ or_else (first (matching_active regexec) windows) (first (matching regexec) windows)
unfolding select_window
select_window_lem regexec windows = select_first regexec windows

abbrev pub handles : List Window → List ℕ
handles [] = []
handles (w ∷ windows) = w.handle ∷ handles windows

abbrev pub erase : ℕ → List ℕ → List ℕ
erase h [] = []
erase h (x ∷ xs) = if x == h then xs else x ∷ erase h xs

-- The windows that are open after events, the newest first.
abbrev pub live : List Event → List ℕ → List ℕ
live [] hs = hs
live (toplevel h memory ∷ events) hs = live events (if memory then h ∷ hs else hs)
live (closed h ∷ events) hs = live events (erase h hs)
live (_ ∷ events) hs = live events hs

handles-on_window :
    (h : ℕ) (f : Window → Window) (windows : List Window)
    → ((w : Window) → (f w).handle ≡ w.handle)
    → handles (on_window h f windows) ≡ handles windows
unfolding on_window
handles-on_window h f [] keeps = refl
handles-on_window h f (w ∷ windows) keeps =
    let k = handles-on_window h f windows keeps in let e = keeps w in ground arith

handles-window_destroy :
    (h : ℕ) (windows : List Window) → handles (window_destroy h windows) ≡ erase h (handles windows)
unfolding window_destroy
handles-window_destroy h [] = refl
handles-window_destroy h (w ∷ windows) = let k = handles-window_destroy h windows in ground arith

-- The list of windows is the windows that have appeared, and for which there was memory, without
-- those that were closed, the newest first.
pub dispatch-live :
    (events : List Event) (windows : List Window)
    → handles (dispatch events windows) ≡ live events (handles windows)
unfolding dispatch handle_event manager_toplevel toplevel_title toplevel_app_id toplevel_state
dispatch-live [] windows = refl
dispatch-live (toplevel h true ∷ events) windows = dispatch-live events (new_window h ∷ windows)
dispatch-live (toplevel h false ∷ events) windows = dispatch-live events windows
dispatch-live (titled h title memory ∷ events) windows =
    dispatch-live events (on_window h (toplevel_title memory title) windows)
    ∙ ap (live events) (handles-on_window h (toplevel_title memory title) windows (λ w. refl))
dispatch-live (identified h app_id memory ∷ events) windows =
    dispatch-live events (on_window h (toplevel_app_id memory app_id) windows)
    ∙ ap (live events) (handles-on_window h (toplevel_app_id memory app_id) windows (λ w. refl))
dispatch-live (stated h states ∷ events) windows =
    dispatch-live events (on_window h (toplevel_state states) windows)
    ∙ ap (live events) (handles-on_window h (toplevel_state states) windows (λ w. refl))
dispatch-live (closed h ∷ events) windows =
    dispatch-live events (window_destroy h windows)
    ∙ ap (live events) (handles-window_destroy h windows)
dispatch-live (other h ∷ events) windows = dispatch-live events windows

-- The window that an event is about.
abbrev pub about : Event → ℕ
about (toplevel h memory) = h
about (titled h title memory) = h
about (identified h app_id memory) = h
about (stated h states) = h
about (closed h) = h
about (other h) = h

abbrev pub find : ℕ → List Window → Option Window
find h windows = first (λ w. w.handle == h) windows

find-on_window :
    (h k : ℕ) (f : Window → Window) (windows : List Window)
    → (h == k) ≡ false
    → ((w : Window) → (f w).handle ≡ w.handle)
    → find k (on_window h f windows) ≡ find k windows
unfolding on_window first
find-on_window h k f [] e keeps = refl
find-on_window h k f (w ∷ windows) e keeps =
    let q = find-on_window h k f windows e keeps in let l = keeps w in ground arith

find-window_destroy :
    (h k : ℕ) (windows : List Window)
    → (h == k) ≡ false
    → find k (window_destroy h windows) ≡ find k windows
unfolding window_destroy first
find-window_destroy h k [] e = refl
find-window_destroy h k (w ∷ windows) e = let q = find-window_destroy h k windows e in ground arith

-- An event leaves every other window as it is.
find-handle_event :
    (e : Event) (k : ℕ) (windows : List Window)
    → (about e == k) ≡ false
    → find k (handle_event e windows) ≡ find k windows
unfolding handle_event manager_toplevel first toplevel_title toplevel_app_id toplevel_state
find-handle_event (toplevel h true) k windows d = ground arith
find-handle_event (toplevel h false) k windows d = refl
find-handle_event (titled h title memory) k windows d =
    find-on_window h k (toplevel_title memory title) windows d (λ w. refl)
find-handle_event (identified h app_id memory) k windows d =
    find-on_window h k (toplevel_app_id memory app_id) windows d (λ w. refl)
find-handle_event (stated h states) k windows d =
    find-on_window h k (toplevel_state states) windows d (λ w. refl)
find-handle_event (closed h) k windows d = find-window_destroy h k windows d
find-handle_event (other h) k windows d = refl
