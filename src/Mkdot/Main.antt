-- ===== src/Mkdot/Main.antt =====
-- install_topic and main of mkdot/mkdot.c. What getopt returns is given: its options in order, and
-- the operands that it leaves.
use overthinkin.Base.{
  ℕ, Bool, true, false, not, List, [], ◌∷◌, Option, none, some, length, Bytes, if◌then◌else◌, pos,
  ◌==ℤ◌, pure, call, ◌>>=◌,
}
use overthinkin.Mkdot.Target.{Outcome, done, out_of_bounds, overflow, aborted}
use overthinkin.Mkdot.Install.{
  Entry, stat, ftw, realpath, M, Mode, mode_null, mode_force, mode_prompt, mode_skip, Config,
  install_handle,
}

-- A step of a program that may have died.
abbrev after : {A B : Type 0} → Outcome A → (A → M (Outcome B)) → M (Outcome B)
after (done a) k = k a
after out_of_bounds k = pure out_of_bounds
after overflow k = pure overflow
after aborted k = pure aborted

-- ftw calls the handler for each entry; it goes on, since the handler returns 0 each time.
unfoldable pub install_walk : Config → List Entry → M (Outcome (Unit {0}))
install_walk cfg [] = pure (done tt)
install_walk cfg (e ∷ es) = do r ← install_handle cfg e; after r (λ _. install_walk cfg es)

-- install_topic; `topic_prefix` is set before the walk.
unfoldable pub install_topic : Config → Bytes → M (Outcome Bool)
unfolding install_walk
install_topic cfg name = do
  s ← call (stat name)
  if not (s.ret ==ℤ pos 0)
      then pure (done false)
      else if not s.is_dir
      then pure (done false)
      else do
        w ← call (ftw name)
        r ← install_walk (record cfg { topic_prefix = length name }) w.walk
        after r (λ _. pure (done true))

-- `for (int i = 0; topics[i]; i++)`; what install_topic returns is not looked at.
unfoldable pub install_topics : Config → List Bytes → M (Outcome (Unit {0}))
install_topics cfg [] = pure (done tt)
install_topics cfg (t ∷ ts) = do r ← install_topic cfg t; after r (λ _. install_topics cfg ts)

pub data Opt : Type 0 where
  opt_f opt_i opt_n opt_s opt_v opt_h opt_unknown : Opt
  opt_t : Bytes → Opt

pub record Options : Type 0 where
  pub mode : Mode
  pub use_symlink : Bool
  pub base : Option Bytes

pub data Parsed : Type 0 where
  go : Options → Parsed
  exit : ℕ → Parsed

-- `if (mode != MODE_NULL) return 1;` before a mode is set.
abbrev set_mode : Options → Mode → Parsed
set_mode o m = elim o.mode [ mode_null ↦ go (record o { mode = m }) | _ ↦ exit 1 ]

-- One turn of the getopt loop.
unfoldable pub parse_opt : Options → Opt → Parsed
parse_opt o opt_f = set_mode o mode_force
parse_opt o opt_i = set_mode o mode_prompt
parse_opt o opt_n = set_mode o mode_skip
parse_opt o opt_s = go (record o { use_symlink = true })
parse_opt o opt_v = go o
parse_opt o (opt_t b) = go (record o { base = some b })
parse_opt o opt_h = exit 0
parse_opt o opt_unknown = exit 1

unfoldable pub parse_opts : Options → List Opt → Parsed
parse_opts o [] = go o
parse_opts o (x ∷ xs) = elim (parse_opt o x) [ go o' ↦ parse_opts o' xs | exit n ↦ exit n ]

abbrev pub initial : Options
initial = record { mode = mode_null; use_symlink = false; base = none }

abbrev pub init_last : Bytes → List Bytes → List Bytes × Bytes
init_last x [] = ([], x)
init_last x (y ∷ ys) = let (ts, b) = init_last y ys in (x ∷ ts, b)

-- The topics and the base: with -t every operand is a topic, without it the last one is the base.
-- `none` is the exit with the usage.
unfoldable pub operands_of : Option Bytes → List Bytes → Option (List Bytes × Bytes)
operands_of (some b) [] = none
operands_of (some b) (x ∷ xs) = some (x ∷ xs, b)
operands_of none [] = none
operands_of none (x ∷ []) = none
operands_of none (x ∷ y ∷ ys) = some (init_last x (y ∷ ys))

abbrev default_mode : Mode → Mode
default_mode mode_null = mode_force
default_mode m = m

-- main from the operands on; it returns the exit status.
unfoldable pub run : Options → List Bytes → M (Outcome ℕ)
unfolding operands_of
run o operands = elim (operands_of o.base operands) [
  | none ↦ pure (done 1)
  | some (topics, base) ↦ do
    a ← call (realpath base)
    elim a.resolved [
      | none ↦ pure (done 1)
      | some path ↦ do
        r ←
            install_topics
              (record {
                mode = default_mode o.mode;
                use_symlink = o.use_symlink;
                base = path;
                topic_prefix = 0;
              })
              topics
        after r (λ _. pure (done 0))
    ]
]

unfoldable pub main : List Opt → List Bytes → M (Outcome ℕ)
unfolding run
main opts operands = elim (parse_opts initial opts) [
  | exit n ↦ pure (done n)
  | go o ↦ run o operands
]
