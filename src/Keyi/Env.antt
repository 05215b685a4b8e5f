-- ===== src/Keyi/Env.antt =====
-- env_editor, env_root and env_opts of keyi-sudo/keyi.c over the environment of the process, which
-- getenv, setenv and clearenv of the C library keep.
use overthinkin.Base.{
  ℕ, ◌+◌, Bool, List, [], ◌∷◌, Option, none, some, Bytes, codes, same, ◌==◌, if◌then◌else◌,
}

abbrev pub Environment : Type 0
Environment = List (Bytes × Bytes)

abbrev pub getenv : Bytes → Environment → Option Bytes
getenv k [] = none
getenv k ((j, v) ∷ env) = if same j k then some v else getenv k env

abbrev pub put : Bytes → Bytes → Environment → Environment
put k v [] = (k, v) ∷ []
put k v ((j, w) ∷ env) = if same j k then (j, v) ∷ env else (j, w) ∷ put k v env

-- `setenv (k, v, true)`, which refuses an empty name.
abbrev pub setenv : Bytes → Bytes → Environment → Environment
setenv [] v env = env
setenv (c ∷ k) v env = put (c ∷ k) v env

-- The fields of `struct passwd` that the program reads.
pub record Passwd : Type 0 where
  pub pw_name : Bytes
  pub pw_dir : Bytes
  pub pw_shell : Bytes

abbrev pub secure_path : Bytes
secure_path = codes "/usr/local/sbin:/usr/local/bin:/usr/sbin:/usr/bin:/sbin:/bin"

-- The loop over the names, with the test `value && *value`.
unfoldable pub editor_of : List Bytes → Environment → Bytes
editor_of [] env = codes "vi"
editor_of (name ∷ names) env = elim (getenv name env) [
  | none ↦ editor_of names env
  | some value ↦ elim value [ [] ↦ editor_of names env | c ∷ cs ↦ c ∷ cs ]
]

unfoldable pub env_editor : Environment → Bytes
unfolding editor_of
env_editor env = editor_of (codes "EDITOR" ∷ codes "VISUAL" ∷ codes "SUDO_EDITOR" ∷ []) env

unfoldable pub env_root : Passwd → Environment → Environment
env_root epw env =
    let cleared : Environment = [] in
    let named = setenv (codes "LOGNAME") epw.pw_name (setenv (codes "USER") epw.pw_name cleared) in
    let homed = setenv (codes "HOME") epw.pw_dir named in
    let clean = setenv (codes "LANG") (codes "C.UTF-8") (setenv (codes "PATH") secure_path homed) in
    elim (getenv (codes "TERM") env) [ none ↦ clean | some term ↦ setenv (codes "TERM") term clean ]

-- `strchr (arg, '=')`: what stands in front of the first equals sign, and what behind it.
unfoldable pub split_equal : Bytes → Option (Bytes × Bytes)
split_equal [] = none
split_equal (c ∷ cs) =
    let rest = split_equal cs in
    if c == b'='
    then some ([], cs)
    else elim rest [ none ↦ none | some (key, value) ↦ some (c ∷ key, value) ]

-- The loop of env_opts from the argument `i` on: where it stops, and the environment.
unfoldable pub env_opts_from : ℕ → List Bytes → Bool → Environment → ℕ × Environment
env_opts_from i [] write env = (i, env)
env_opts_from i (arg ∷ args) write env = elim (split_equal arg) [
  | none ↦ (i, env)
  | some (key, value) ↦
      env_opts_from (i + 1) args write (if write then setenv key value env else env)
]

-- The arguments behind the name of the program are handed over.
unfoldable pub env_opts : List Bytes → Bool → Environment → ℕ × Environment
unfolding env_opts_from
env_opts args write env = env_opts_from 1 args write env
