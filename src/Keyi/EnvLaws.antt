-- ===== src/Keyi/EnvLaws.antt =====
-- What the environment of a command holds: laws of env_root, env_opts and env_editor.
use overthinkin.Base.{
  ℕ, ◌+◌, Bool, true, false, List, [], ◌∷◌, ◌++◌, Option, none, some, length, Bytes, codes, same,
  same_comm, same-eq, ◌==◌, if◌then◌else◌, ◌≡◌, ◌≢◌, refl, arith, All, Bool-cases, inl, inr, sym,
  ap, ◌⊎◌, Option-cases, ==_iff, ==_ne, ◌∙◌,
}
use overthinkin.Keyi.Env.{
  Environment, getenv, put, setenv, Passwd, secure_path, editor_of, env_root, split_equal,
  env_opts_from, env_opts,
}

getenv-put :
    (j v k : Bytes) (env : Environment)
    → getenv k (put j v env) ≡ (if same j k then some v else getenv k env)
getenv-put j v k [] = refl
getenv-put j v k ((i, w) ∷ env) = elim (Bool-cases (same i j)) [
  | inl e ↦ let p : i ≡ j = same-eq i j e in rw e (rw p (ground arith))
  | inr n ↦ rw n (elim (Bool-cases (same i k)) [
    | inl e ↦ ground (arith, same_comm i j, ap (λ t. same j t) (same-eq i k e), e, n)
    | inr m ↦ rw m (getenv-put j v k env)
  ])
]

getenv-setenv :
    (j v k : Bytes) (env : Environment)
    → k ≢ []
    → getenv k (setenv j v env) ≡ (if same j k then some v else getenv k env)
getenv-setenv [] v [] env h = absurd (h refl)
getenv-setenv [] v (c ∷ k) env h = refl
getenv-setenv (c ∷ j) v k env h = getenv-put (c ∷ j) v k env

-- The assignments in front of the command, in order.
abbrev pub leading : List Bytes → List (Bytes × Bytes)
leading [] = []
leading (arg ∷ args) = elim (split_equal arg) [ none ↦ [] | some p ↦ p ∷ leading args ]

-- The last value that the assignments give to `k`, or `d`.
abbrev pub last_value : Bytes → List (Bytes × Bytes) → Option Bytes → Option Bytes
last_value k [] d = d
last_value k ((j, v) ∷ ps) d = last_value k ps (if same j k then some v else d)

-- An assignment is the text in front of the first equals sign and the text behind it; an argument
-- that is none has no equals sign.
abbrev pub Splits : Bytes → Option (Bytes × Bytes) → Type 0
Splits arg none = All (λ c. c ≢ b'=') arg
Splits arg (some (key, value)) = All (λ c. c ≢ b'=') key × (arg ≡ key ++ b'=' ∷ value)

Splits-cons :
    (c : ℕ) (cs : Bytes) (o : Option (Bytes × Bytes))
    → c ≢ b'='
    → Splits cs o
    → Splits (c ∷ cs) (elim o [ none ↦ none | some (key, value) ↦ some (c ∷ key, value) ])
Splits-cons c cs none n h = (n, h)
Splits-cons c cs (some (key, value)) n h = ((n, h.0), ap (◌∷◌ c) h.1)

split_equal-Splits : (arg : Bytes) → Splits arg (split_equal arg)
unfolding split_equal
split_equal-Splits [] = tt
split_equal-Splits (c ∷ cs) = elim (Bool-cases (c == b'=')) [
  | inl e ↦ rw e (tt, ap (λ t. t ∷ cs) ((==_iff c b'=').0 e))
  | inr n ↦ rw n (Splits-cons c cs (split_equal cs) ((==_ne c b'=').0 n) (split_equal-Splits cs))
]

env_opts_from-getenv :
    (args : List Bytes) (i : ℕ) (env : Environment) (k : Bytes)
    → k ≢ []
    → getenv k (env_opts_from i args true env).1 ≡ last_value k (leading args) (getenv k env)
unfolding env_opts_from
env_opts_from-getenv [] i env k h = refl
env_opts_from-getenv (arg ∷ args) i env k h = elim (Option-cases (split_equal arg)) [
  | inl e ↦ ground arith
  | inr ((key, value), e) ↦ ground (
    arith,
    env_opts_from-getenv args (i + 1) (setenv key value env) k h,
    getenv-setenv key value k env h,
  )
]

-- After env_opts each variable has the last value that the leading NAME=VALUE arguments give it,
-- and else its old one.
env_opts-getenv :
    (args : List Bytes) (env : Environment) (k : Bytes)
    → k ≢ []
    → getenv k (env_opts args true env).1 ≡ last_value k (leading args) (getenv k env)
unfolding env_opts
env_opts-getenv args env k h = env_opts_from-getenv args 1 env k h

env_opts_from-index :
    (args : List Bytes) (i : ℕ) (write : Bool) (env : Environment)
    → (env_opts_from i args write env).0 ≡ i + length (leading args)
unfolding env_opts_from
env_opts_from-index [] i write env = ground arith
env_opts_from-index (arg ∷ args) i write env = elim (Option-cases (split_equal arg)) [
  | inl e ↦ ground arith
  | inr ((key, value), e) ↦
      ground (
        arith,
        env_opts_from-index args (i + 1) write (if write then setenv key value env else env),
      )
]

env_opts_from-dry :
    (args : List Bytes) (i : ℕ) (env : Environment) → (env_opts_from i args false env).1 ≡ env
unfolding env_opts_from
env_opts_from-dry [] i env = refl
env_opts_from-dry (arg ∷ args) i env = elim (Option-cases (split_equal arg)) [
  | inl e ↦ ground arith
  | inr ((key, value), e) ↦ ground (arith, env_opts_from-dry args (i + 1) env)
]

-- The dry run that main makes and the later run that writes stop at the same argument, the first
-- one without an equals sign, and the dry run changes no variable.
env_opts-index :
    (args : List Bytes) (env env' : Environment)
    → ((env_opts args false env).0 ≡ 1 + length (leading args))
      × ((env_opts args true env').0 ≡ (env_opts args false env).0)
      × ((env_opts args false env).1 ≡ env)
unfolding env_opts
env_opts-index args env env' = (
  env_opts_from-index args 1 false env,
  env_opts_from-index args 1 true env' ∙ sym (env_opts_from-index args 1 false env),
  env_opts_from-dry args 1 env,
)

-- The names that env_root sets.
abbrev root_names : List Bytes
root_names =
    codes "USER" ∷ codes "LOGNAME" ∷ codes "HOME" ∷ codes "PATH" ∷ codes "LANG" ∷ codes "TERM" ∷ []

-- The environment of a command does not come from the caller: five variables have values of the
-- target user or fixed ones, TERM is kept, and no other variable is left.
pub env_root-getenv :
    (epw : Passwd) (env : Environment) (k : Bytes)
    → All (λ name. same name k ≡ false) root_names
    → (getenv (codes "USER") (env_root epw env) ≡ some epw.pw_name)
      × (getenv (codes "LOGNAME") (env_root epw env) ≡ some epw.pw_name)
      × (getenv (codes "HOME") (env_root epw env) ≡ some epw.pw_dir)
      × (getenv (codes "PATH") (env_root epw env) ≡ some secure_path)
      × (getenv (codes "LANG") (env_root epw env) ≡ some (codes "C.UTF-8"))
      × (getenv (codes "TERM") (env_root epw env) ≡ getenv (codes "TERM") env)
      × (getenv k (env_root epw env) ≡ none)
unfolding env_root
env_root-getenv epw env k h = ground arith

-- A variable that the loop of env_editor passes over.
abbrev pub IsUnset : Environment → Bytes → Type 0
IsUnset env name = (getenv name env ≡ none) ⊎ (getenv name env ≡ some [])

editor_of-passes :
    (xs ys : List Bytes) (env : Environment)
    → All (IsUnset env) xs
    → editor_of (xs ++ ys) env ≡ editor_of ys env
unfolding editor_of
editor_of-passes [] ys env h = refl
editor_of-passes (x ∷ xs) ys env h = ground (arith, editor_of-passes xs ys env h.1)

-- env_editor takes the first of its names that is set and not empty, whatever stands behind it,
-- and vi if all of them are unset or empty.
editor_of_first :
    (xs ys : List Bytes) (name : Bytes) (c : ℕ) (cs : Bytes) (env : Environment)
    → All (IsUnset env) xs
    → ((getenv name env ≡ some (c ∷ cs)) → editor_of (xs ++ name ∷ ys) env ≡ c ∷ cs)
      × (editor_of (xs ++ []) env ≡ codes "vi")
unfolding editor_of
editor_of_first xs ys name c cs env h =
    (λ e. editor_of-passes xs (name ∷ ys) env h ∙ ground arith, editor_of-passes xs [] env h)
