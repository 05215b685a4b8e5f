-- ===== src/Keyi/Edit.antt =====
-- copy_one and save_one of keyi-sudo/keyi.c: the file that is edited, out and back.
use overthinkin.Base.{
  ℕ, Bool, true, false, not, ◌&&◌, [], ◌∷◌, ◌++◌, length, Bytes, codes, ltb, leb, ◌==◌,
  if◌then◌else◌, ℤ, pos, ◌==ℤ◌,
}
use overthinkin.Keyi.System.{
  Stat, open_rdwr, open_rdonly, unlink, fstat, close, lseek, ftruncate, fsync, mkostemps, sendfile,
  fchown, Answer, M, pure, call, ◌>>=◌, failed,
}

-- sendfile moves no more than this at once.
abbrev pub max_file_size : ℕ
max_file_size = 0x7fff_f000

abbrev path_max : ℕ
path_max = 4096

pub record KeyiFile : Type 0 where
  pub src_path : Bytes
  pub tmp_path : Bytes
  pub src_fd : ℤ
  pub ino : ℕ
  pub tv_sec : ℕ
  pub tv_nsec : ℕ

-- strrchr (path, '/'), and the text behind it; a text with no slash is its own base.
unfoldable pub base_from : Bytes → Bytes → Bytes
base_from base [] = base
base_from base (c ∷ cs) = base_from (if c == b'/' then cs else base) cs

unfoldable pub base_of : Bytes → Bytes
unfolding base_from
base_of path = base_from path path

-- `struct stat tmp_stat = {0}`, which a failing fstat leaves.
abbrev filled : Answer → Stat
filled a =
    if failed a
    then record { is_reg = false; st_mode = 0; st_size = 0; st_ino = 0; tv_sec = 0; tv_nsec = 0 }
    else a.info

-- The label clean_src.
abbrev clean_src : KeyiFile → M (Bool × KeyiFile)
clean_src f = do _ ← call (close f.src_fd); pure (false, f)

-- The label clean_tmp.
abbrev clean_tmp : KeyiFile → ℤ → M (Bool × KeyiFile)
clean_tmp f tmp_fd = do _ ← call (close tmp_fd); _ ← call (unlink f.tmp_path); clean_src f

-- copy_one, from the temporary file on.
unfoldable pub fill_tmp : KeyiFile → ℤ → ℕ → ℕ → ℕ → M (Bool × KeyiFile)
fill_tmp f tmp_fd count ruid rgid = if ltb max_file_size count then clean_tmp f tmp_fd else do
  sent ← call (sendfile tmp_fd f.src_fd count)
  if not (sent.ret ==ℤ pos count) then clean_tmp f tmp_fd else do
    owned ← call (fchown tmp_fd ruid rgid)
    if failed owned then clean_tmp f tmp_fd else do
      st ← call (fstat tmp_fd)
      _ ← call (close tmp_fd)
      pure (
        true,
        record f {
          ino = (filled st).st_ino;
          tv_sec = (filled st).tv_sec;
          tv_nsec = (filled st).tv_nsec;
        },
      )

-- The name of the temporary file, by snprintf.
abbrev template : Bytes → Bytes → Bytes
template prefix base = prefix ++ (codes "/keyi.XXXXXX" ++ base)

-- copy_one, once the source is open.
unfoldable pub copy_from : KeyiFile → Bytes → ℕ → ℕ → M (Bool × KeyiFile)
unfolding base_of
copy_from f prefix ruid rgid = do
  st ← call (fstat f.src_fd)
  if failed st
      then clean_src f
      else if not st.info.is_reg
      then clean_src f
      else if leb path_max (length (template prefix (base_of f.src_path)))
      then clean_src f
      else do
        tmp ← call (mkostemps (template prefix (base_of f.src_path)) (length (base_of f.src_path)))
        if failed tmp
            then clean_src f
            else fill_tmp (record f { tmp_path = tmp.name }) tmp.ret st.info.st_size ruid rgid

unfoldable pub copy_one : KeyiFile → Bytes → ℕ → ℕ → M (Bool × KeyiFile)
copy_one f prefix ruid rgid = do
  src ← call (open_rdwr f.src_path)
  if failed src
      then pure (false, record f { src_fd = src.ret })
      else copy_from (record f { src_fd = src.ret }) prefix ruid rgid

-- The label out of save_one.
abbrev out : ℤ → Bool → M Bool
out tmp_fd ret = do _ ← call (close tmp_fd); pure ret

-- save_one, once the temporary file is known to differ.
unfoldable pub write_back : KeyiFile → ℤ → ℕ → M Bool
write_back f tmp_fd count = do
  sought ← call (lseek f.src_fd)
  if failed sought then out tmp_fd false else do
    cut ← call (ftruncate f.src_fd)
    if failed cut then out tmp_fd false else do
      sent ← call (sendfile f.src_fd tmp_fd count)
      if not (sent.ret ==ℤ pos count) then out tmp_fd false else do
        synced ← call (fsync f.src_fd)
        if failed synced then out tmp_fd false else out tmp_fd true

-- Whether the editor left the temporary file as it was: the same inode, with the same time.
abbrev pub unchanged : KeyiFile → Stat → Bool
unchanged f st = f.tv_sec == st.tv_sec && f.tv_nsec == st.tv_nsec && f.ino == st.st_ino

unfoldable pub save_one : KeyiFile → M Bool
save_one f = do
  tmp ← call (open_rdonly f.tmp_path)
  if failed tmp then out tmp.ret false else do
    st ← call (fstat tmp.ret)
    if failed st
        then out tmp.ret false
        else if ltb max_file_size st.info.st_size
        then out tmp.ret false
        else if unchanged f st.info
        then out tmp.ret true
        else write_back f tmp.ret st.info.st_size
