-- ===== src/Mkdot/Install.antt =====
-- copy_file, link_file, ensure_dir, user_skip, install_handle, install_topic and main of
-- mkdot/mkdot.c, as programs over the system calls that they make. What is printed is left out.
use overthinkin.Base.{
  ℕ, ◌+◌, Bool, false, not, ◌&&◌, ◌||◌, List, ◌∷◌, ◌++◌, Option, none, some, Bytes, leb, ◌==◌,
  if◌then◌else◌, ℤ, pos, negsuc, is_neg, ◌==ℤ◌, Action, pure, call, ◌>>=◌,
}
use overthinkin.Mkdot.Target.{Outcome, done, out_of_bounds, overflow, aborted, target_dst}

pub data TypeFlag : Type 0 where
  ftw_f ftw_d ftw_other : TypeFlag

-- One file that ftw hands over; `stale` is the memory behind the terminator of its path.
pub record Entry : Type 0 where
  pub fpath : Bytes
  pub stale : Bytes
  pub st_mode : ℕ
  pub typeflag : TypeFlag

-- The calls that matter. `transfer` stands for the read and write loop (Copy), `scanf` for the
-- answer of the user, `ftw` for the walk.
pub data Call : Type 0 where
  open_read : Bytes → Call
  open_write : Bytes → ℕ → Call
  fstat close : ℕ → Call
  transfer fchmod : ℕ → ℕ → Call
  symlink : Bytes → Bytes → Call
  mkdir : Bytes → ℕ → Call
  access unlink stat ftw realpath : Bytes → Call
  scanf : Call

-- What a call gives back; each call fills the fields that belong to it.
pub record Answer : Type 0 where
  pub ret : ℤ
  pub eexist : Bool
  pub mode : ℕ
  pub is_dir : Bool
  pub letter : Option ℕ
  pub resolved : Option Bytes
  pub walk : List Entry

abbrev pub M : Type 0 → Type 0
M A = Action Call Answer A

abbrev pub fd_of : ℤ → ℕ
fd_of (pos n) = n
fd_of (negsuc n) = 0

abbrev ok : ℤ → Bool
ok r = r ==ℤ pos 0

-- `AUTO_FD`: a descriptor is closed where its variable goes out of scope.
abbrev closing : ℕ → Bool → M Bool
closing fd result = do _ ← call (close fd); pure result

-- copy_file, from the descriptor of the new file on.
copy_into : ℕ → ℕ → ℕ → M Bool
copy_into src_fd dst_fd mode = do
  t ← call (transfer src_fd dst_fd)
  if is_neg t.ret
      then closing dst_fd false
      else do c ← call (fchmod dst_fd mode); closing dst_fd (ok c.ret)

unfoldable pub copy_file : Bytes → Bytes → M Bool
unfolding copy_into
copy_file src dst = do
  s ← call (open_read src)
  if is_neg s.ret then pure false else do
    st ← call (fstat (fd_of s.ret))
    if not (ok st.ret) then closing (fd_of s.ret) false else do
      d ← call (open_write dst st.mode)
      if is_neg d.ret then closing (fd_of s.ret) false else do
        result ← copy_into (fd_of s.ret) (fd_of d.ret) st.mode
        closing (fd_of s.ret) result

unfoldable pub link_file : Bytes → Bytes → M Bool
link_file src dst = do a ← call (symlink src dst); pure (ok a.ret)

unfoldable pub ensure_dir : Bytes → ℕ → M Bool
ensure_dir path mode = do a ← call (mkdir path mode); pure (ok a.ret || a.eexist)

-- tolower in the C locale.
abbrev tolower : ℕ → ℕ
tolower c = if leb b'A' c && leb c b'Z' then c + 32 else c

-- `response` stays EOF, the byte 255, where there is no answer.
unfoldable pub user_skip : M Bool
user_skip = do
  a ← call scanf
  pure (not (tolower (elim a.letter [ none ↦ 255 | some c ↦ c ]) == b'y'))

pub data Mode : Type 0 where
  mode_null mode_force mode_prompt mode_skip : Mode

-- The static variables.
pub record Config : Type 0 where
  pub mode : Mode
  pub use_symlink : Bool
  pub base : Bytes
  pub topic_prefix : ℕ

-- The label `write`.
unfoldable pub write_file : Bool → Bytes → Bytes → M (Outcome (Unit {0}))
write_file use_symlink src dst = do
  _ ← if use_symlink then link_file src dst else copy_file src dst
  pure (done tt)

-- `unlink`, and the label `write` if that went well.
unfoldable pub replace_file : Bool → Bytes → Bytes → M (Outcome (Unit {0}))
unfolding write_file
replace_file use_symlink src dst = do
  u ← call (unlink dst)
  if not (ok u.ret) then pure (done tt) else write_file use_symlink src dst

-- What happens to a file that is there already.
unfoldable pub existing_file : Mode → Bool → Bytes → Bytes → M (Outcome (Unit {0}))
unfolding replace_file
existing_file mode_skip use_symlink src dst = pure (done tt)
existing_file mode_prompt use_symlink src dst = do
  skip ← user_skip
  if skip then pure (done tt) else replace_file use_symlink src dst
existing_file _ use_symlink src dst = replace_file use_symlink src dst

-- install_handle behind the call of target_dst.
unfoldable pub install_to : Config → Entry → Bytes → TypeFlag → M (Outcome (Unit {0}))
unfolding existing_file
install_to cfg e dst ftw_d = do _ ← ensure_dir dst e.st_mode; pure (done tt)
install_to cfg e dst ftw_other = pure (done tt)
install_to cfg e dst ftw_f = do
  a ← call (access dst)
  if not (ok a.ret)
      then write_file cfg.use_symlink e.fpath dst
      else existing_file cfg.mode cfg.use_symlink e.fpath dst

abbrev pub with_target : Outcome Bytes → (Bytes → M (Outcome (Unit {0}))) → M (Outcome (Unit {0}))
with_target (done dst) k = k dst
with_target out_of_bounds k = pure out_of_bounds
with_target overflow k = pure overflow
with_target aborted k = pure aborted

unfoldable pub install_handle : Config → Entry → M (Outcome (Unit {0}))
unfolding install_to
install_handle cfg e =
    with_target (target_dst cfg.base cfg.topic_prefix (e.fpath ++ 0 ∷ e.stale))
      (λ dst. install_to cfg e dst e.typeflag)
