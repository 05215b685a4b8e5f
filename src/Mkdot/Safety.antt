-- ===== src/Mkdot/Safety.antt =====
-- What install_handle may do to the files under the base, for every behaviour of the system.
use overthinkin.Base.{
  ◌&&◌, ℕ, suc, ◌+◌, List, [], ◌∷◌, ◌++◌, some, Bytes, ◌==◌, if◌then◌else◌, ℤ, pos, is_neg, ◌==ℤ◌,
  Os, Trace, ◌≡◌, refl, arith, same, same_refl, ◌⊎◌, ◌≢◌,
}
use overthinkin.Mkdot.Target.{Outcome, done, out_of_bounds, overflow, aborted, target_dst}
use overthinkin.Mkdot.Install.{
  Call, open_read, open_write, close, symlink, mkdir, access, unlink, scanf, TypeFlag, ftw_f, ftw_d,
  ftw_other, Entry, Answer, fd_of, copy_file, link_file, Mode, mode_prompt, mode_skip, Config,
  with_target, install_to, install_handle, user_skip, ensure_dir,
}

abbrev pub History : Type 0
History = Trace Call Answer

-- The descriptors that are open: each open that went well adds one, and a close takes its own away.
abbrev erase_fd : ℕ → List ℕ → List ℕ
erase_fd fd [] = []
erase_fd fd (x ∷ xs) = if x == fd then xs else x ∷ erase_fd fd xs

abbrev opened : ℤ → List ℕ → List ℕ
opened r fds = if is_neg r then fds else fd_of r ∷ fds

unfoldable pub held : History → List ℕ
held [] = []
held ((open_read p, a) ∷ t) = opened a.ret (held t)
held ((open_write p m, a) ∷ t) = opened a.ret (held t)
held ((close fd, a) ∷ t) = erase_fd fd (held t)
held ((_, a) ∷ t) = held t

-- copy_file closes what it opened, on every path, and nothing else.
copy_file-held :
    (src dst : Bytes) (os : Os Call Answer) (t : History) → held (copy_file src dst os t).1 ≡ held t
unfolding copy_file held
copy_file-held src dst os t = ground arith

-- The changes of the file system that a call asks for, by the path that is changed.
abbrev strays_call : Bytes → Call → ℕ
strays_call dst (open_write p m) = if same p dst then 0 else 1
strays_call dst (symlink s p) = if same p dst then 0 else 1
strays_call dst (mkdir p m) = if same p dst then 0 else 1
strays_call dst (unlink p) = if same p dst then 0 else 1
strays_call dst _ = 0

-- How many calls asked for a change of another path than `dst`.
unfoldable pub strays : Bytes → History → ℕ
strays dst [] = 0
strays dst ((c, a) ∷ t) = strays_call dst c + strays dst t

-- The calls that make a file.
unfoldable pub created : History → ℕ
created [] = 0
created ((open_write p m, a) ∷ t) = suc (created t)
created ((symlink s p, a) ∷ t) = suc (created t)
created (_ ∷ t) = created t

-- How many times `dst` was taken away.
unfoldable pub removed : Bytes → History → ℕ
removed dst [] = 0
removed dst ((unlink p, a) ∷ t) =
    let rest = removed dst t in if same p dst && a.ret ==ℤ pos 0 then suc rest else rest
removed dst (_ ∷ t) = removed dst t

install_to-strays :
    (cfg : Config) (e : Entry) (dst : Bytes) (f : TypeFlag) (os : Os Call Answer) (t : History)
    → strays dst (install_to cfg e dst f os t).1 ≡ strays dst t
unfolding install_to copy_file link_file ensure_dir user_skip strays
install_to-strays cfg e dst ftw_d os t = ground (arith, same_refl dst)
install_to-strays cfg e dst ftw_other os t = ground (arith, same_refl dst)
install_to-strays cfg e dst ftw_f os t = ground (arith, same_refl dst)

-- From `t` to `t'` no path but the target has been changed, and nothing at all was called if there
-- is no target.
abbrev pub Confined : Outcome Bytes → History → History → Type 0
Confined (done dst) t t' = strays dst t' ≡ strays dst t
Confined _ t t' = t' ≡ t

with_target-Confined :
    (o : Outcome Bytes) (cfg : Config) (e : Entry) (os : Os Call Answer) (t : History)
    → Confined o t (with_target o (λ d. install_to cfg e d e.typeflag) os t).1
with_target-Confined (done dst) cfg e os t = install_to-strays cfg e dst e.typeflag os t
with_target-Confined out_of_bounds cfg e os t = refl
with_target-Confined overflow cfg e os t = refl
with_target-Confined aborted cfg e os t = refl

-- The handler changes no path but the one that target_dst gives, whatever kind of file it is
-- handed, in every mode; and where target_dst dies it makes no call at all.
install_handle-strays :
    (cfg : Config) (e : Entry) (os : Os Call Answer) (t : History)
    → Confined
        (target_dst cfg.base cfg.topic_prefix (e.fpath ++ 0 ∷ e.stale))
        t
        (install_handle cfg e os t).1
unfolding install_handle
install_handle-strays cfg e os t =
    with_target-Confined (target_dst cfg.base cfg.topic_prefix (e.fpath ++ 0 ∷ e.stale)) cfg e os t

-- A file is never written over: where `access` finds one at the target, nothing is created unless
-- an `unlink` of the target itself went well.
pub install_to-created :
    (cfg : Config) (e : Entry) (dst : Bytes) (os : Os Call Answer) (t : History)
    → (os t (access dst)).ret ≡ pos 0
    → removed dst (install_to cfg e dst ftw_f os t).1 ≡ removed dst t
    → created (install_to cfg e dst ftw_f os t).1 ≡ created t
unfolding install_to copy_file link_file user_skip created removed
install_to-created cfg e dst os t found kept = ground (arith, same_refl dst)

-- The calls that end the handler on a file that it keeps: with -i the user has been asked.
abbrev pub asked : Mode → Os Call Answer → History → History
asked mode_prompt os t = (scanf, os t scanf) ∷ t
asked _ os t = t

-- With -n, and with -i where the user does not answer y or Y, a file that is there stays: the
-- handler asks whether it is there, and then perhaps the user, and does nothing more.
install_to_keeps :
    (cfg : Config) (e : Entry) (dst : Bytes) (os : Os Call Answer) (t : History)
    → (os t (access dst)).ret ≡ pos 0
    → (cfg.mode ≡ mode_skip)
      ⊎ ((cfg.mode ≡ mode_prompt)
          × ((os ((access dst, os t (access dst)) ∷ t) scanf).letter ≢ some b'y')
          × ((os ((access dst, os t (access dst)) ∷ t) scanf).letter ≢ some b'Y'))
    → let t' = (access dst, os t (access dst)) ∷ t in
      (install_to cfg e dst ftw_f os t).1 ≡ asked cfg.mode os t'
unfolding install_to user_skip
install_to_keeps cfg e dst os t found how = ground arith
