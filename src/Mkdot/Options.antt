-- ===== src/Mkdot/Options.antt =====
-- What the command line of mkdot/mkdot.c means.
use overthinkin.Base.{
  Bool, true, false, ◌||◌, List, [], ◌∷◌, ◌++◌, Option, none, some, Bytes, ◌≡◌, ◌≢◌, refl, arith,
  ap, ◌⊎◌,
}
use mathlib.Core.List.{append-nil}
use overthinkin.Mkdot.Install.{Mode, mode_null, mode_force, mode_prompt, mode_skip}
use overthinkin.Mkdot.Main.{
  Opt, opt_f, opt_i, opt_n, opt_s, opt_v, opt_h, opt_unknown, opt_t, Options, go, parse_opt,
  parse_opts, initial, init_last, operands_of,
}

-- The modes that the options name, in order.
abbrev pub modes : List Opt → List Mode
modes [] = []
modes (opt_f ∷ xs) = mode_force ∷ modes xs
modes (opt_i ∷ xs) = mode_prompt ∷ modes xs
modes (opt_n ∷ xs) = mode_skip ∷ modes xs
modes (_ ∷ xs) = modes xs

-- The argument of the last -t, or `b` if there is none.
abbrev pub last_base : Option Bytes → List Opt → Option Bytes
last_base b [] = b
last_base b (opt_t c ∷ xs) = last_base (some c) xs
last_base b (_ ∷ xs) = last_base b xs

abbrev pub asks_symlink : List Opt → Bool
asks_symlink [] = false
asks_symlink (opt_s ∷ xs) = true
asks_symlink (_ ∷ xs) = asks_symlink xs

-- The modes that a value of the static variable has behind it.
abbrev pub chosen : Mode → List Mode
chosen mode_null = []
chosen m = m ∷ []

-- From the state `s` the options `xs` lead to `o`.
pub record Means (s o : Options) (xs : List Opt) : Type 0 where
  pub mode : chosen s.mode ++ modes xs ≡ chosen o.mode
  pub base : o.base ≡ last_base s.base xs
  pub use_symlink : o.use_symlink ≡ (s.use_symlink || asks_symlink xs)

parse_opts-Means :
    (xs : List Opt) (s : Options) {o : Options} → parse_opts s xs ≡ go o → Means s o xs
unfolding parse_opts parse_opt
parse_opts-Means [] s h = ground (arith, append-nil (chosen s.mode))
parse_opts-Means (opt_f ∷ xs) s {o} h =
    ground (arith, parse_opts-Means xs (record s { mode = mode_force }) {o = o})
parse_opts-Means (opt_i ∷ xs) s {o} h =
    ground (arith, parse_opts-Means xs (record s { mode = mode_prompt }) {o = o})
parse_opts-Means (opt_n ∷ xs) s {o} h =
    ground (arith, parse_opts-Means xs (record s { mode = mode_skip }) {o = o})
parse_opts-Means (opt_s ∷ xs) s h =
    ground (arith, parse_opts-Means xs (record s { use_symlink = true }) h)
parse_opts-Means (opt_v ∷ xs) s h = ground (arith, parse_opts-Means xs s h)
parse_opts-Means (opt_h ∷ xs) s h = cc
parse_opts-Means (opt_unknown ∷ xs) s h = cc
parse_opts-Means (opt_t b ∷ xs) s h =
    ground (arith, parse_opts-Means xs (record s { base = some b }) h)

-- What the option loop accepts: at most one of -f, -i and -n, and each once, decides the mode, the
-- last -t gives the base, and links are made if there is a -s.
parse_opts-initial :
    (xs : List Opt) {o : Options} → parse_opts initial xs ≡ go o → Means initial o xs
parse_opts-initial xs h = parse_opts-Means xs initial h

init_last-append :
    (x : Bytes) (ys : List Bytes) → (init_last x ys).0 ++ (init_last x ys).1 ∷ [] ≡ x ∷ ys
init_last-append x [] = refl
init_last-append x (y ∷ ys) = ap (◌∷◌ x) (init_last-append y ys)

-- No operand is lost: with -t all of them are topics below its base, without it the topics and
-- the base are the operands in order. There is always a topic.
pub operands_of_lem :
    (t : Option Bytes) (operands topics : List Bytes) (base : Bytes)
    → operands_of t operands ≡ some (topics, base)
    → (topics ≢ [])
      × (((t ≡ some base) × (topics ≡ operands)) ⊎ ((t ≡ none) × (topics ++ base ∷ [] ≡ operands)))
unfolding operands_of
operands_of_lem (some b) [] ts base h = cc
operands_of_lem (some b) (x ∷ xs) ts base h = ground arith
operands_of_lem none [] ts base h = cc
operands_of_lem none (x ∷ []) ts base h = cc
operands_of_lem none (x ∷ y ∷ ys) ts base h = ground (arith, init_last-append y ys)
