-- ===== src/Keyi/Tests.antt =====
-- Runs of keyi-sudo/keyi.c on small inputs, and its theorems at them.
use overthinkin.Base.{true, List, [], ◌∷◌, none, some, Bytes, codes, pos, minus_one, Os, ◌≡◌, refl}
use overthinkin.Keyi.Env.{Environment, getenv, Passwd, secure_path, env_root, env_opts, split_equal}
use overthinkin.Keyi.EnvLaws.{env_root-getenv}
use overthinkin.Keyi.System.{Stat, Call, fork, waitpid, Answer}
use overthinkin.Keyi.Edit.{KeyiFile, copy_one, save_one}
use overthinkin.Keyi.EditLaws.{
  OwnsFrom, held, temps, Saves, tmp_info, tmp_fd_of, copy_one-OwnsFrom, save_one-Saves,
}
use overthinkin.Keyi.Run.{Ids, keyi_cmd, dispatch, finish_edit}
use overthinkin.Keyi.Privilege.{For, execs, dispatch-For}
use overthinkin.Keyi.Outcome.{Finishes, finish_edit-Finishes}

abbrev root : Passwd
root = record { pw_name = codes "root"; pw_dir = codes "/root"; pw_shell = codes "/bin/sh" }

abbrev args : List Bytes
args = codes "FOO=BAR" ∷ codes "A=b=c" ∷ codes "id" ∷ []

args_run : env_opts args true [] ≡ (3, (codes "FOO", codes "BAR") ∷ (codes "A", codes "b=c") ∷ [])
unfolding env_opts split_equal
args_run = refl

abbrev dirty : Environment
dirty = (codes "LD_PRELOAD", codes "/tmp/evil.so") ∷ (codes "TERM", codes "xterm") ∷ []

env_root-getenv_example :
    (getenv (codes "USER") (env_root root dirty) ≡ some (codes "root"))
    × (getenv (codes "LOGNAME") (env_root root dirty) ≡ some (codes "root"))
    × (getenv (codes "HOME") (env_root root dirty) ≡ some (codes "/root"))
    × (getenv (codes "PATH") (env_root root dirty) ≡ some secure_path)
    × (getenv (codes "LANG") (env_root root dirty) ≡ some (codes "C.UTF-8"))
    × (getenv (codes "TERM") (env_root root dirty) ≡ some (codes "xterm"))
    × (getenv (codes "LD_PRELOAD") (env_root root dirty) ≡ none)
env_root-getenv_example =
    env_root-getenv root dirty (codes "LD_PRELOAD")
      (refl, (refl, (refl, (refl, (refl, (refl, tt))))))

abbrev plain_stat : Stat
plain_stat = record {
  is_reg = true;
  st_mode = 488;
  st_size = 5;
  st_ino = 7;
  tv_sec = 1;
  tv_nsec = 2;
}

-- A system where each call returns 5, and one where the process cannot be forked.
abbrev grants : Os Call Answer
grants t c = record {
  ret = pos 5;
  info = plain_stat;
  name = codes "/tmp/keyi.a";
  real = 1000;
  effective = 0;
  passwd = some root;
  wstatus = 0;
}

abbrev refuses : Os Call Answer
refuses t fork = record (grants t fork) { ret = minus_one }
refuses t (waitpid pid) = record (grants t (waitpid pid)) { ret = minus_one }
refuses t c = grants t c

abbrev file : KeyiFile
file = record {
  src_path = codes "/etc/motd";
  tmp_path = codes "/tmp/keyi.a";
  src_fd = pos 4;
  ino = 7;
  tv_sec = 1;
  tv_nsec = 2;
}

copy_one-OwnsFrom_example :
    OwnsFrom (held []) (temps []) (copy_one file (codes "/tmp") 1000 1000 grants [])
copy_one-OwnsFrom_example = copy_one-OwnsFrom file (codes "/tmp") 1000 1000 grants []

save_one-Saves_example :
    Saves file (tmp_fd_of file grants []) (tmp_info file grants []) [] (save_one file grants [])
save_one-Saves_example = save_one-Saves file grants []

abbrev ids : Ids
ids = record { ruid = 1000; euid = 0; rgid = 1000; rpw_name = codes "u"; epw = root }

dispatch-For_example :
    For keyi_cmd ids
      (codes "keyi" ∷ codes "id" ∷ [])
      dirty
      (dispatch true 0 keyi_cmd ids (codes "keyi" ∷ codes "id" ∷ []) 1 dirty grants []).1
unfolding execs
dispatch-For_example =
    dispatch-For true 0 keyi_cmd ids (codes "keyi" ∷ codes "id" ∷ []) 1 dirty grants [] tt

finish_edit-Finishes_example :
    Finishes true file
      (tmp_fd_of file grants [])
      (tmp_info file grants [])
      0
      []
      (finish_edit true ids (codes "vi") file 0 grants [])
finish_edit-Finishes_example = finish_edit-Finishes true ids (codes "vi") file 0 grants []
