-- ===== src/Keyi/EditLaws.antt =====
-- What copy_one and save_one leave behind, for every behaviour of the system.
use overthinkin.Base.{
  suc, ◌<◌, ℕ, Bool, true, false, not, ◌&&◌, List, [], ◌∷◌, Bytes, if◌then◌else◌, ℤ, pos, negsuc,
  ◌==ℤ◌, ==ℤ_refl, Os, same, same_refl, ◌≡◌, ◌≤◌, ◌⊎◌, inl, inr, refl, arith, Bool-cases,
}
use overthinkin.Keyi.System.{
  Stat, Call, open_rdwr, open_rdonly, unlink, fstat, close, lseek, ftruncate, fsync, mkostemps,
  sendfile, Answer, History, Flow, next, failed,
}
use overthinkin.Keyi.Edit.{
  KeyiFile, max_file_size, copy_one, copy_from, fill_tmp, save_one, write_back, unchanged,
}

abbrev erase_fd : ℤ → List ℤ → List ℤ
erase_fd fd [] = []
erase_fd fd (x ∷ xs) = if x ==ℤ fd then xs else x ∷ erase_fd fd xs

-- The descriptors that are open.
unfoldable pub held : History → List ℤ
held [] = []
held ((open_rdwr p, a) ∷ t) = if failed a then held t else a.ret ∷ held t
held ((open_rdonly p, a) ∷ t) = if failed a then held t else a.ret ∷ held t
held ((mkostemps p n, a) ∷ t) = if failed a then held t else a.ret ∷ held t
held ((close fd, a) ∷ t) = erase_fd fd (held t)
held (_ ∷ t) = held t

abbrev pub erase_name : Bytes → List Bytes → List Bytes
erase_name p [] = []
erase_name p (x ∷ xs) = if same x p then xs else x ∷ erase_name p xs

-- The temporary files that are there.
unfoldable pub temps : History → List Bytes
temps [] = []
temps ((mkostemps p n, a) ∷ t) = if failed a then temps t else a.name ∷ temps t
temps ((unlink p, a) ∷ t) = erase_name p (temps t)
temps (_ ∷ t) = temps t

-- What a call has kept beside the descriptors `h` and the temporary files `ts`.
abbrev pub OwnsFrom : List ℤ → List Bytes → Flow (Bool × KeyiFile) × History → Type 0
OwnsFrom h ts (next (true, f), t') = (held t' ≡ f.src_fd ∷ h) × (temps t' ≡ f.tmp_path ∷ ts)
OwnsFrom h ts (next (false, f), t') = (held t' ≡ h) × (temps t' ≡ ts)
OwnsFrom h ts (_, t') = ⊥

fill_tmp-OwnsFrom :
    (f : KeyiFile) (tmp_fd : ℤ) (count ruid rgid : ℕ) (h : List ℤ) (ts : List Bytes)
    (os : Os Call Answer) (t : History)
    → held t ≡ tmp_fd ∷ f.src_fd ∷ h
    → temps t ≡ f.tmp_path ∷ ts
    → OwnsFrom h ts (fill_tmp f tmp_fd count ruid rgid os t)
unfolding fill_tmp held temps
fill_tmp-OwnsFrom f tmp_fd count ruid rgid h ts os t p q =
    ground (arith, same_refl f.tmp_path, ==ℤ_refl tmp_fd, ==ℤ_refl f.src_fd)

copy_from-OwnsFrom :
    (f : KeyiFile) (prefix : Bytes) (ruid rgid : ℕ) (h : List ℤ) (ts : List Bytes)
    (os : Os Call Answer) (t : History)
    → held t ≡ f.src_fd ∷ h
    → temps t ≡ ts
    → OwnsFrom h ts (copy_from f prefix ruid rgid os t)
unfolding copy_from held temps
copy_from-OwnsFrom f prefix ruid rgid h ts os t p q = grind (arith, fill_tmp-OwnsFrom, ==ℤ_refl)

-- If copy_one succeeds then it keeps the source open and the temporary file, and nothing else; if
-- it fails then it has closed what it opened and removed what it made. It always returns.
pub copy_one-OwnsFrom :
    (f : KeyiFile) (prefix : Bytes) (ruid rgid : ℕ) (os : Os Call Answer) (t : History)
    → OwnsFrom (held t) (temps t) (copy_one f prefix ruid rgid os t)
unfolding copy_one held temps
copy_one-OwnsFrom f prefix ruid rgid os t =
    elim (Bool-cases (failed (os t (open_rdwr f.src_path)))) [
      | inl bad ↦ rw bad (rw bad refl, refl)
      | inr fine ↦
          let src = os t (open_rdwr f.src_path) in
          rw fine (
            copy_from-OwnsFrom (record f { src_fd = src.ret }) prefix ruid rgid (held t) (temps t)
              os ((open_rdwr f.src_path, src) ∷ t) (rw fine refl) refl)
    ]

-- What a file holds: what it held before, nothing, the first n bytes of the temporary file, synced or
-- not, or something else.
pub data Content : Type 0 where
  untouched empty mixed : Content
  holds saved : ℕ → Content

-- The file of a descriptor, as far as the program has changed it, and whether it is at its start.
pub record Source : Type 0 where
  pub content : Content
  pub at_start : Bool

abbrev amount : ℤ → ℕ
amount (pos n) = n
amount (negsuc n) = 0

-- n bytes of the temporary file are written: they are all that the file holds only if it was empty
-- and at its start.
abbrev written : ℕ → Content → Bool → Content
written n empty true = holds n
written n _ _ = mixed

abbrev synced : Content → Content
synced empty = saved 0
synced (holds n) = saved n
synced c = c

-- The file of `fd` after the calls so far, where `tmp` is the descriptor of the temporary file.
unfoldable pub source : ℤ → ℤ → History → Source
source fd tmp [] = record { content = untouched; at_start = false }
source fd tmp ((lseek d, a) ∷ t) =
    let s = source fd tmp t in
    if d ==ℤ fd && not (failed a) then record s { at_start = true } else s
source fd tmp ((ftruncate d, a) ∷ t) =
    let s = source fd tmp t in
    if d ==ℤ fd && not (failed a) then record s { content = empty } else s
source fd tmp ((sendfile d from n, a) ∷ t) =
    let s = source fd tmp t in
    if d ==ℤ fd
    then record {
      content = if from ==ℤ tmp then written (amount a.ret) s.content s.at_start else mixed;
      at_start = false;
    }
    else if from ==ℤ fd
    then record s { at_start = false }
    else s
source fd tmp ((fsync d, a) ∷ t) =
    let s = source fd tmp t in
    if d ==ℤ fd && not (failed a) then record s { content = synced s.content } else s
source fd tmp (_ ∷ t) = source fd tmp t

-- The calls that went wrong, but for those that clean up: a sendfile does so if it moves less or
-- more than it was asked for.
unfoldable pub troubles : History → ℕ
troubles [] = 0
troubles ((open_rdonly p, a) ∷ t) = let n = troubles t in if failed a then suc n else n
troubles ((fstat d, a) ∷ t) = let n = troubles t in if failed a then suc n else n
troubles ((lseek d, a) ∷ t) = let n = troubles t in if failed a then suc n else n
troubles ((ftruncate d, a) ∷ t) = let n = troubles t in if failed a then suc n else n
troubles ((fsync d, a) ∷ t) = let n = troubles t in if failed a then suc n else n
troubles ((sendfile d from c, a) ∷ t) = let n = troubles t in if a.ret ==ℤ pos c then n else suc n
troubles (_ ∷ t) = troubles t

-- What fstat says of the temporary file that the editor left.
abbrev pub tmp_info : KeyiFile → Os Call Answer → History → Stat
tmp_info f os t =
    let tmp = os t (open_rdonly f.tmp_path) in
    (os ((open_rdonly f.tmp_path, tmp) ∷ t) (fstat tmp.ret)).info

abbrev pub tmp_fd_of : KeyiFile → Os Call Answer → History → ℤ
tmp_fd_of f os t = (os t (open_rdonly f.tmp_path)).ret

abbrev pub IsPartial : Content → Type 0
IsPartial (saved n) = ⊥
IsPartial _ = Unit {0}

-- What the source holds, with `fd` for the temporary file.
abbrev pub content : KeyiFile → ℤ → History → Content
content f fd t = (source f.src_fd fd t).content

-- An edit that is saved.
abbrev pub IsSaved : KeyiFile → ℤ → Stat → History → History → Type 0
IsSaved f fd st t t' =
    (unchanged f st ≡ true) × (content f fd t' ≡ content f fd t)
    ⊎ (unchanged f st ≡ false) × (content f fd t' ≡ saved st.st_size)

-- An edit that is not, with a reason.
abbrev pub IsUnsaved : KeyiFile → ℤ → Stat → History → History → Type 0
IsUnsaved f fd st t t' =
    ((max_file_size < st.st_size) ⊎ (troubles t < troubles t'))
    × ((content f fd t' ≡ content f fd t) ⊎ IsPartial (content f fd t'))

-- What save_one has done to the source, by what it returns.
abbrev pub Saves : KeyiFile → ℤ → Stat → History → Flow Bool × History → Type 0
Saves f fd st t (next true, t') =
    (st.st_size ≤ max_file_size) × (troubles t' ≡ troubles t) × IsSaved f fd st t t'
Saves f fd st t (next false, t') = IsUnsaved f fd st t t'
Saves f fd st t (_, t') = ⊥

write_back-Saves :
    (f : KeyiFile) (tmp_fd : ℤ) (st : Stat) (os : Os Call Answer) (t : History)
    → st.st_size ≤ max_file_size
    → unchanged f st ≡ false
    → Saves f tmp_fd st t (write_back f tmp_fd st.st_size os t)
unfolding write_back source troubles
write_back-Saves f tmp_fd st os t h n = ground (arith, ==ℤ_refl f.src_fd, ==ℤ_refl tmp_fd)

-- save_one returns true only if no call went wrong, for a file of at most max_file_size bytes, and in
-- two ways: the temporary file has its old inode and time, and the source is not touched; or it has
-- not, and the source holds all of its bytes and no other, synced: it was emptied, and they were
-- written from its start. Where save_one returns false, the temporary file is larger than that or
-- a call went wrong, and the source is as it was, or not synced since it was changed. It always
-- returns.
pub save_one-Saves :
    (f : KeyiFile) (os : Os Call Answer) (t : History)
    → Saves f (tmp_fd_of f os t) (tmp_info f os t) t (save_one f os t)
unfolding save_one source troubles
save_one-Saves f os t =
    let tmp = os t (open_rdonly f.tmp_path) in
    let t₁ = (open_rdonly f.tmp_path, tmp) ∷ t in
    let st = os t₁ (fstat tmp.ret) in
    ground (arith, write_back-Saves f tmp.ret st.info os ((fstat tmp.ret, st) ∷ t₁))
