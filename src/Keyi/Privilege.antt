-- ===== src/Keyi/Privilege.antt =====
-- As whom keyi-sudo/keyi.c starts programs, and with which environment.
use overthinkin.Base.{
  ℕ, Bool, true, false, List, [], ◌∷◌, Option, none, some, length, ◌+◌, drop, Bytes, codes, leb,
  ◌==◌, if◌then◌else◌, ℤ, pos, ◌==ℤ◌, Os, ◌≡◌, All, arith, Bool-cases, inl, inr,
}
use overthinkin.Keyi.Env.{Environment, env_root, env_opts, env_editor}
use overthinkin.Keyi.System.{
  Call, setgid, setuid, initgroups, exec, fork, Answer, M, ◌>>=◌, stop, History, Flow, next, exit,
  replaced, failed,
}
use overthinkin.Keyi.Edit.{KeyiFile, copy_one, copy_from, fill_tmp, save_one, write_back}
use overthinkin.Keyi.Run.{
  Ids, run_cmd, run_shell, run_editor, Mode, keyi_cmd, keyi_shell, keyi_edit, dispatch, run_edit,
  run_fork, finish_edit,
}

-- What the calls that went well have made of the process.
pub record Credentials : Type 0 where
  pub gid : Option ℕ
  pub uid : Option ℕ
  pub groups : Option ℕ

abbrev none_set : Credentials
none_set = record { gid = none; uid = none; groups = none }

unfoldable pub credentials : History → Credentials
credentials [] = none_set
credentials ((setgid g, a) ∷ t) =
    if failed a then credentials t else record (credentials t) { gid = some g }
credentials ((setuid u, a) ∷ t) =
    if failed a then credentials t else record (credentials t) { uid = some u }
credentials ((initgroups p g, a) ∷ t) =
    if failed a then credentials t else record (credentials t) { groups = some g }
credentials (_ ∷ t) = credentials t

-- What each started program was given: the credentials of the process, and the environment.
unfoldable pub execs : History → List (Credentials × Environment)
execs [] = []
execs ((exec path args env, a) ∷ t) = (credentials t, env) ∷ execs t
execs (_ ∷ t) = execs t

-- The target user, with its groups; and the caller.
abbrev pub IsTarget : Ids → Credentials → Type 0
IsTarget s c = (c.gid ≡ some s.euid) × (c.uid ≡ some s.euid) × (c.groups ≡ some s.euid)

abbrev pub IsCaller : Ids → Credentials → Type 0
IsCaller s c = (c.gid ≡ some s.rgid) × (c.uid ≡ some s.ruid)

-- The environment of a command or a shell.
abbrev pub root_environment : Ids → List Bytes → Environment → Environment
root_environment s argv env = (env_opts (drop 1 argv) true (env_root s.epw env)).1

-- Every program was started with credentials as `P` says, in the environment `env`.
abbrev pub Execs : (Credentials → Type 0) → Environment → History → Type 0
Execs P env t = All (λ (c, e). P c × (e ≡ env)) (execs t)

run_cmd-Execs :
    (s : Ids) (argv : List Bytes) (optind : ℕ) (env : Environment) (os : Os Call Answer)
    (t : History)
    → Execs (IsTarget s) (root_environment s argv env) t
    → Execs (IsTarget s) (root_environment s argv env) (run_cmd s argv optind env os t).1
unfolding run_cmd execs credentials
run_cmd-Execs s argv optind env os t h = ground arith

run_shell-Execs :
    (s : Ids) (argv : List Bytes) (env : Environment) (os : Os Call Answer) (t : History)
    → Execs (IsTarget s) (root_environment s argv env) t
    → Execs (IsTarget s) (root_environment s argv env) (run_shell s argv env os t).1
unfolding run_shell execs credentials
run_shell-Execs s argv env os t h = ground arith

-- The file operations start no program.
module _ (os : Os Call Answer) where
  execs-fill_tmp :
      (f : KeyiFile) (tmp_fd : ℤ) (count ruid rgid : ℕ) (t : History)
      → execs (fill_tmp f tmp_fd count ruid rgid os t).1 ≡ execs t
  unfolding fill_tmp execs
  execs-fill_tmp f tmp_fd count ruid rgid t = ground arith

  execs-copy_from :
      (f : KeyiFile) (prefix : Bytes) (ruid rgid : ℕ) (t : History)
      → execs (copy_from f prefix ruid rgid os t).1 ≡ execs t
  unfolding copy_from execs
  execs-copy_from f prefix ruid rgid t = grind (arith, execs-fill_tmp)

  execs-copy_one :
      (f : KeyiFile) (prefix : Bytes) (ruid rgid : ℕ) (t : History)
      → execs (copy_one f prefix ruid rgid os t).1 ≡ execs t
  unfolding copy_one execs
  execs-copy_one f prefix ruid rgid t = grind (arith, execs-copy_from)

  execs-write_back :
      (f : KeyiFile) (tmp_fd : ℤ) (count : ℕ) (t : History)
      → execs (write_back f tmp_fd count os t).1 ≡ execs t
  unfolding write_back execs
  execs-write_back f tmp_fd count t = ground arith

  execs-save_one : (f : KeyiFile) (t : History) → execs (save_one f os t).1 ≡ execs t
  unfolding save_one execs
  execs-save_one f t = grind (arith, execs-write_back)

  execs-finish_edit :
      (ndebug : Bool) (s : Ids) (editor : Bytes) (f : KeyiFile) (wstatus : ℕ) (t : History)
      → execs (finish_edit ndebug s editor f wstatus os t).1 ≡ execs t
  unfolding finish_edit execs
  execs-finish_edit ndebug s editor f wstatus t = ground (arith, execs-save_one f t)

run_editor-Execs :
    (s : Ids) (editor tmp_path : Bytes) (env : Environment) (os : Os Call Answer) (t : History)
    → Execs (IsCaller s) env t
    → Execs (IsCaller s) env (run_editor s editor tmp_path env os t).1
unfolding run_editor execs credentials
run_editor-Execs s editor tmp_path env os t h = ground arith

run_fork-Execs :
    (ndebug : Bool) (garbage : ℕ) (s : Ids) (editor : Bytes) (f : KeyiFile) (env : Environment)
    (os : Os Call Answer) (t : History)
    → Execs (IsCaller s) env t
    → Execs (IsCaller s) env (run_fork ndebug garbage s editor f env os t).1
unfolding run_fork execs
run_fork-Execs ndebug garbage s editor f env os t h =
    let pid = os t fork in
    let t₁ = (fork, pid) ∷ t in
    elim (Bool-cases (pid.ret ==ℤ pos 0)) [
      | inl child ↦ rw child (run_editor-Execs s editor f.tmp_path env os t₁ h)
      | inr parent ↦ rw parent (rw (execs-finish_edit os ndebug s editor f _ _) h)
    ]

-- A part that starts no program, before one that keeps to the rule.
bind-Execs :
    {A : Type 0} (P : Credentials → Type 0) (e : Environment) (m : M A) (k : A → M ℕ)
    (os : Os Call Answer) (t : History)
    → execs (m os t).1 ≡ execs t
    → ((a : A) (t' : History) → Execs P e t' → Execs P e (k a os t').1)
    → Execs P e t
    → Execs P e ((m >>= k) os t).1
bind-Execs {A} P e m k os t same_execs rest h = go (m os t).0
  where
    kept : Execs P e (m os t).1
    kept = rw same_execs h

    go :
        (r : Flow A)
        → Execs P e
            (let x : Flow ℕ × History = elim r [
              | next a ↦ k a os (m os t).1
              | exit n ↦ (exit n, (m os t).1)
              | replaced ↦ (replaced, (m os t).1)
            ] in
              x).1
    go (next a) = rest a (m os t).1 kept
    go (exit n) = kept
    go replaced = kept

run_copied-Execs :
    (ndebug : Bool) (garbage : ℕ) (s : Ids) (editor : Bytes) (env : Environment)
    (os : Os Call Answer) (r : Bool × KeyiFile) (t : History)
    → Execs (IsCaller s) env t
    → Execs
        (IsCaller s)
        env
        ((if r.0 then run_fork ndebug garbage s editor r.1 env else stop 1) os t).1
run_copied-Execs ndebug garbage s editor env os (true, f) t h =
    run_fork-Execs ndebug garbage s editor f env os t h
run_copied-Execs ndebug garbage s editor env os (false, f) t h = h

run_edit-Execs :
    (ndebug : Bool) (garbage : ℕ) (s : Ids) (argv : List Bytes) (optind : ℕ) (env : Environment)
    (os : Os Call Answer) (t : History)
    → Execs (IsCaller s) (env_opts (drop 1 argv) true env).1 t
    → Execs
        (IsCaller s)
        (env_opts (drop 1 argv) true env).1
        (run_edit ndebug garbage s argv optind env os t).1
unfolding run_edit
run_edit-Execs ndebug garbage s argv optind env os t h =
    let made = (env_opts (drop 1 argv) true env).1 in
    elim (Bool-cases (leb 256 (length (env_editor made) + 5))) [
      | inl long ↦ rw long h
      | inr short ↦ rw short (
          bind-Execs (IsCaller s) made (copy_one _ (codes "/tmp") s.ruid s.rgid)
            (λ r. if r.0 then run_fork ndebug garbage s (env_editor made) r.1 made else stop 1) os t
            (execs-copy_one os _ (codes "/tmp") s.ruid s.rgid t)
            (run_copied-Execs ndebug garbage s (env_editor made) made os) h)
    ]

-- The credentials, and the environment, of a mode.
abbrev pub For : Mode → Ids → List Bytes → Environment → History → Type 0
For keyi_cmd s argv env t = Execs (IsTarget s) (root_environment s argv env) t
For keyi_shell s argv env t = Execs (IsTarget s) (root_environment s argv env) t
For keyi_edit s argv env t = Execs (IsCaller s) (env_opts (drop 1 argv) true env).1 t

-- Whatever the system answers, a command and a shell are started only after setgid, setuid and
-- initgroups for the target user have all gone well, in the environment of env_root with the
-- NAME=VALUE arguments; the editor only after setgid and setuid back to the caller have, in the
-- environment of the caller with those arguments. A failed step ends the program before.
pub dispatch-For :
    (ndebug : Bool) (garbage : ℕ) (mode : Mode) (s : Ids) (argv : List Bytes) (optind : ℕ)
    (env : Environment) (os : Os Call Answer) (t : History)
    → For mode s argv env t
    → For mode s argv env (dispatch ndebug garbage mode s argv optind env os t).1
unfolding dispatch
dispatch-For ndebug garbage keyi_cmd s argv optind env os t h =
    elim (Bool-cases (length argv == optind)) [
      | inl none_left ↦ rw none_left h
      | inr some_left ↦ rw some_left (run_cmd-Execs s argv optind env os t h)
    ]
dispatch-For ndebug garbage keyi_shell s argv optind env os t h =
    elim (Bool-cases (length argv == optind)) [
      | inl none_left ↦ rw none_left (run_shell-Execs s argv env os t h)
      | inr some_left ↦ rw some_left h
    ]
dispatch-For ndebug garbage keyi_edit s argv optind env os t h =
    elim (Bool-cases (length argv == optind + 1)) [
      | inl one_left ↦ rw one_left (run_edit-Execs ndebug garbage s argv optind env os t h)
      | inr others ↦ rw others h
    ]
