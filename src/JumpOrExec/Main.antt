-- ===== src/JumpOrExec/Main.antt =====
-- main of jump-or-exec/jump-or-exec.c: options, and what it does with the windows.
use overthinkin.Base.{
  Bool, true, false, ◌&&◌, List, [], ◌∷◌, Option, none, some, Bytes, if◌then◌else◌,
}
use overthinkin.JumpOrExec.Windows.{Window, Event, dispatch, select_window}

-- What getopt gives for "j:hvl", in order.
pub data Opt : Type 0 where
  opt_h opt_v opt_l opt_unknown : Opt
  opt_j : Bytes → Opt

pub record Options : Type 0 where
  pub pattern : Option Bytes
  pub list_only : Bool

-- How the program ends: with an exit status, the windows listed, a window made active, or a command
-- started.
pub data Outcome : Type 0 where
  exit_with : Bool → Outcome
  listed : List Window → Outcome
  jumped : Window → Outcome
  spawned : List Bytes → Outcome

unfoldable pub parse_opts : List Opt → (Options → Outcome) → Options → Outcome
parse_opts [] rest o = rest o
parse_opts (opt_h ∷ opts) rest o = exit_with true
parse_opts (opt_v ∷ opts) rest o = exit_with true
parse_opts (opt_unknown ∷ opts) rest o = exit_with false
parse_opts (opt_l ∷ opts) rest o = parse_opts opts rest (record o { list_only = true })
parse_opts (opt_j arg ∷ opts) rest o = parse_opts opts rest (record o { pattern = some arg })

-- What the compositor is like; regcomp and regexec are given, as a test of a pattern and of a string.
pub record Compositor : Type 0 where
  pub connected : Bool
  pub has_registry : Bool
  pub synced : Bool
  pub has_seat : Bool
  pub has_manager : Bool
  pub events : List Event
  pub regcomp : Bytes → Option (Bytes → Bool)

-- The windows are there; without a pattern they are listed.
unfoldable pub act : Option (Bytes → Bool) → List Bytes → List Window → Outcome
act none operands windows = listed windows
act (some regexec) operands windows = elim (select_window regexec windows) [
  | none ↦ spawned operands
  | some win ↦ jumped win
]

unfoldable pub connect : Compositor → Option (Bytes → Bool) → List Bytes → Outcome
connect c regex operands =
    if c.connected && c.has_registry && c.synced && c.has_seat && c.has_manager
    then act regex operands (dispatch c.events [])
    else exit_with false

-- Without -l there must be a pattern and a command.
unfoldable pub jump : Compositor → Option Bytes → List Bytes → Outcome
jump c none operands = exit_with false
jump c (some pattern) [] = exit_with false
jump c (some pattern) (command ∷ arguments) = elim (c.regcomp pattern) [
  | none ↦ exit_with false
  | some regexec ↦ connect c (some regexec) (command ∷ arguments)
]

-- The part of main behind the options, for the operands behind them.
unfoldable pub run : Compositor → List Bytes → Options → Outcome
run c operands o = if o.list_only then connect c none operands else jump c o.pattern operands

unfoldable pub main : Compositor → List Opt → List Bytes → Outcome
main c opts operands =
    parse_opts opts (run c operands) (record { pattern = none; list_only = false })
