-- ===== src/Keyi/Run.antt =====
-- set_root, set_user, run_cmd, run_shell and main of keyi-sudo/keyi.c. Messages are left out, but
-- not the lines of the system log.
use overthinkin.Base.{
  ℕ, ◌+◌, ◌/◌, ◌%◌, Bool, true, false, not, ◌&&◌, List, [], ◌∷◌, ◌++◌, none, some, length, take,
  drop, get_elem?, Bytes, codes, leb, ◌==◌, if◌then◌else◌, pos, is_neg, ◌==ℤ◌,
}
use overthinkin.Keyi.Env.{Environment, getenv, Passwd, env_editor, env_root, env_opts}
use overthinkin.Keyi.System.{
  Call, close, unlink, stat, setgid, setuid, getpwuid, initgroups, chdir, getcwd, readlink,
  getresuid, getresgid, fork, usleep, waitpid, syslog, Answer, M, pure, stop, call, ◌>>=◌, ◌>>◌,
  failed, exec_or_die,
}
use overthinkin.Keyi.Edit.{KeyiFile, base_of, copy_one, save_one}

-- The global variables that hold who calls and who is to be.
pub record Ids : Type 0 where
  pub ruid : ℕ
  pub euid : ℕ
  pub rgid : ℕ
  pub rpw_name : Bytes
  pub epw : Passwd

-- A call that the program does not survive if it fails.
abbrev must : Call → M (Unit {0})
must c = do a ← call c; if failed a then stop 1 else pure tt

unfoldable pub set_root : Ids → M (Unit {0})
set_root s = do must (setgid s.euid); must (setuid s.euid); must (initgroups s.epw.pw_name s.euid)

unfoldable pub set_user : Ids → M (Unit {0})
set_user s = do must (setgid s.rgid); must (setuid s.ruid)

-- `argv[i]`, where argv[argc] is NULL.
abbrev argument : List Bytes → ℕ → Bytes
argument argv i = elim (get_elem? argv i) [ none ↦ [] | some a ↦ a ]

-- The directory for the log, "(failed)" where getcwd fails.
abbrev cwd_of : Answer → Bytes
cwd_of a = if failed a then codes "(failed)" else a.name

-- run_cmd; `argv` begins with the name of the program.
unfoldable pub run_cmd : Ids → List Bytes → ℕ → Environment → M ℕ
unfolding set_root
run_cmd s argv optind env = do
  let made = (env_opts (drop 1 argv) true (env_root s.epw env)).1
  cwd ← call getcwd
  set_root s
  _ ← call (syslog (s.rpw_name ∷ argument argv optind ∷ s.epw.pw_name ∷ cwd_of cwd ∷ []))
  exec_or_die (argument argv optind) (drop optind argv) made

abbrev path_max : ℕ
path_max = 4096

unfoldable pub run_shell : Ids → List Bytes → Environment → M ℕ
unfolding set_root base_of
run_shell s argv env = do
  let made = (env_opts (drop 1 argv) true (env_root s.epw env)).1
  let shell : Bytes = elim (getenv (codes "SHELL") made) [ none ↦ s.epw.pw_shell | some v ↦ v ]
  _ ← call (chdir s.epw.pw_dir)
  set_root s
  _ ← call (syslog (s.rpw_name ∷ shell ∷ s.epw.pw_name ∷ s.epw.pw_dir ∷ []))
  exec_or_die shell (take 4095 (b'-' ∷ base_of shell) ∷ []) made

-- WIFEXITED and WEXITSTATUS of the C library.
abbrev pub exited_well : ℕ → Bool
exited_well wstatus = wstatus % 128 == 0 && wstatus / 256 % 256 == 0

-- The child: the editor runs as the caller.
unfoldable pub run_editor : Ids → Bytes → Bytes → Environment → M ℕ
unfolding set_user
run_editor s editor tmp_path env = do
  set_user s
  exec_or_die (codes "sh")
      (codes "sh" ∷ codes "-c" ∷ (editor ++ codes " \"$@\"") ∷ editor ∷ tmp_path ∷ []) env

-- The temporary file is removed by a release build alone.
abbrev remove_tmp : Bool → KeyiFile → M ℕ
remove_tmp true f = do _ ← call (unlink f.tmp_path); stop 0
remove_tmp false f = stop 0

-- The parent, after the wait. `wstatus` is what the variable holds, and `ndebug` how the program
-- was built.
unfoldable pub finish_edit : Bool → Ids → Bytes → KeyiFile → ℕ → M ℕ
finish_edit ndebug s editor f wstatus = do
  is_ok ← if exited_well wstatus then save_one f else pure false
  _ ← call (
      syslog (
        s.rpw_name
        ∷ f.src_path
        ∷ s.epw.pw_name
        ∷ editor
        ∷ (if is_ok then codes "success" else codes "failure")
        ∷ []))
  _ ← call (close f.src_fd)
  if is_ok then remove_tmp ndebug f else stop 1

-- main from fork on. waitpid leaves `wstatus` as it is where it fails, and it was never set:
-- `garbage` is what the stack held.
unfoldable pub run_fork : Bool → ℕ → Ids → Bytes → KeyiFile → Environment → M ℕ
unfolding run_editor
run_fork ndebug garbage s editor f env = do
  pid ← call fork
  if pid.ret ==ℤ pos 0 then run_editor s editor f.tmp_path env else do
    w ← call (waitpid pid.ret)
    _ ← call usleep
    finish_edit ndebug s editor f (if failed w then garbage else w.wstatus)

-- main in the mode KEYI_EDIT, once the arguments are counted.
unfoldable pub run_edit : Bool → ℕ → Ids → List Bytes → ℕ → Environment → M ℕ
run_edit ndebug garbage s argv optind env = do
  let made = (env_opts (drop 1 argv) true env).1
  let editor = env_editor made
  if leb 256 (length editor + 5) then stop 1 else do
    let file : KeyiFile = record {
      src_path = argument argv optind;
      tmp_path = [];
      src_fd = pos 0;
      ino = 0;
      tv_sec = 0;
      tv_nsec = 0;
    }
    (is_ok, f) ← copy_one file (codes "/tmp") s.ruid s.rgid
    if is_ok then run_fork ndebug garbage s editor f made else stop 1

pub data Mode : Type 0 where
  keyi_cmd keyi_shell keyi_edit : Mode

pub data Opt : Type 0 where
  opt_e opt_i opt_h opt_v opt_unknown : Opt

-- The loop over what getopt returns.
unfoldable pub parse_opts : Mode → List Opt → M Mode
parse_opts mode [] = pure mode
parse_opts mode (opt_e ∷ opts) = parse_opts keyi_edit opts
parse_opts mode (opt_i ∷ opts) = parse_opts keyi_shell opts
parse_opts mode (opt_h ∷ opts) = stop 0
parse_opts mode (opt_v ∷ opts) = stop 0
parse_opts mode (opt_unknown ∷ opts) = stop 1

-- The calls by which main learns who it is.
unfoldable pub identify : Bool → M Ids
identify ndebug = do
  uids ← call getresuid
  if failed uids then stop 1 else do
    gids ← call getresgid
    if failed gids then stop 1 else do
      rpw ← call (getpwuid uids.real)
      elim rpw.passwd [
        | none ↦ stop 1
        | some r ↦ do
          epw ← call (getpwuid uids.effective)
          elim epw.passwd [
            | none ↦ stop 1
            | some e ↦
                if not (uids.effective == 0) && ndebug
                then stop 1
                else pure (record {
                  ruid = uids.real;
                  euid = uids.effective;
                  rgid = gids.real;
                  rpw_name = take 255 r.pw_name;
                  epw = e;
                })
          ]
      ]

-- The check that others have no permissions on the program. stat is not checked: where it fails
-- the mode is what the stack held.
unfoldable pub check_exe : ℕ → M (Unit {0})
check_exe garbage = do
  link ← call readlink
  if is_neg link.ret then stop 1 else do
    st ← call (stat link.name)
    if (if failed st then garbage else st.info.st_mode) % 8 == 0 then pure tt else stop 1

-- The switch over the mode; `argc - optind` arguments are left.
unfoldable pub dispatch : Bool → ℕ → Mode → Ids → List Bytes → ℕ → Environment → M ℕ
dispatch ndebug garbage keyi_cmd s argv optind env =
    if length argv == optind then stop 1 else run_cmd s argv optind env
dispatch ndebug garbage keyi_shell s argv optind env =
    if length argv == optind then run_shell s argv env else stop 1
dispatch ndebug garbage keyi_edit s argv optind env =
    if length argv == optind + 1 then run_edit ndebug garbage s argv optind env else stop 1

-- getopt of the C library, from the argument at which it is started: the options, and `optind`.
abbrev pub Getopt : Type 0
Getopt = ℕ → List Bytes → List Opt × ℕ

unfoldable pub main : Bool → ℕ → ℕ → Getopt → List Bytes → Environment → M ℕ
unfolding parse_opts identify check_exe dispatch
main ndebug exe_garbage wait_garbage getopt argv env = do
  let (opts, optind) = getopt (env_opts (drop 1 argv) false env).0 argv
  mode ← parse_opts keyi_cmd opts
  s ← identify ndebug
  check_exe exe_garbage
  dispatch ndebug wait_garbage mode s argv optind env
