-- ===== src/Keyi/Outcome.antt =====
-- How an edit of keyi-sudo/keyi.c ends.
use overthinkin.Base.{
  ℕ, zero, suc, Bool, true, false, ◌∷◌, Bytes, if◌then◌else◌, ℤ, Os, ◌≡◌, ◌⊎◌, inl, inr, refl,
  arith, Bool-cases,
}
use overthinkin.Keyi.Env.{Environment}
use overthinkin.Keyi.System.{
  Stat, Call, fork, usleep, waitpid, Answer, History, Flow, next, exit, replaced, failed,
}
use overthinkin.Keyi.Edit.{KeyiFile, save_one, write_back}
use overthinkin.Keyi.EditLaws.{
  temps, erase_name, source, troubles, content, IsSaved, IsUnsaved, Saves, tmp_info, tmp_fd_of,
  save_one-Saves,
}
use overthinkin.Keyi.Run.{Ids, exited_well, finish_edit, run_fork}

module _ (os : Os Call Answer) where
  temps-write_back :
      (f : KeyiFile) (tmp_fd : ℤ) (count : ℕ) (t : History)
      → temps (write_back f tmp_fd count os t).1 ≡ temps t
  unfolding write_back temps
  temps-write_back f tmp_fd count t = ground arith

  temps-save_one : (f : KeyiFile) (t : History) → temps (save_one f os t).1 ≡ temps t
  unfolding save_one temps
  temps-save_one f t = grind (arith, temps-write_back)

-- What the parent leaves, by its exit status.
abbrev pub Finishes : Bool → KeyiFile → ℤ → Stat → ℕ → History → Flow ℕ × History → Type 0
Finishes ndebug f fd st w t (exit zero, t') =
    (exited_well w ≡ true)
    × (troubles t' ≡ troubles t)
    × (temps t' ≡ (if ndebug then erase_name f.tmp_path (temps t) else temps t))
    × IsSaved f fd st t t'
Finishes ndebug f fd st w t (exit (suc n), t') =
    (n ≡ 0)
    × (temps t' ≡ temps t)
    × ((exited_well w ≡ false) × (content f fd t' ≡ content f fd t)
        ⊎ (exited_well w ≡ true) × IsUnsaved f fd st t t')
Finishes ndebug f fd st w t (_, t') = ⊥

-- The rest of the parent, behind save_one.
finish_saved :
    (ndebug : Bool) (s : Ids) (editor : Bytes) (f : KeyiFile) (w : ℕ) (os : Os Call Answer)
    (t : History)
    → exited_well w ≡ true
    → (r : Flow Bool × History) → Saves f (tmp_fd_of f os t) (tmp_info f os t) t r
    → temps r.1 ≡ temps t
    → save_one f os t ≡ r
    → Finishes ndebug f
        (tmp_fd_of f os t)
        (tmp_info f os t)
        w
        t
        (finish_edit ndebug s editor f w os t)
unfolding finish_edit temps source troubles
finish_saved true s editor f w os t well (next true, t') h k e = ground arith
finish_saved false s editor f w os t well (next true, t') h k e = ground arith
finish_saved true s editor f w os t well (next false, t') h k e = ground arith
finish_saved false s editor f w os t well (next false, t') h k e = ground arith
finish_saved ndebug s editor f w os t well (exit n, t') h k e = absurd h
finish_saved ndebug s editor f w os t well (replaced, t') h k e = absurd h

-- The exit status is 0 or 1. It is 1 only if the editor did not exit with 0, and then the
-- source is as it was; or if the temporary file is too large or a call that saves it went wrong, and then the
-- source is as it was, or not synced since it was changed. The temporary file is then kept as a
-- backup. It is 0 only if the editor exited with 0 and no call of save_one went wrong: the source is
-- as it was if the editor left the file alone, and else holds all of it and no more, synced; the
-- temporary file is removed in a release build, and only there.
pub finish_edit-Finishes :
    (ndebug : Bool) (s : Ids) (editor : Bytes) (f : KeyiFile) (w : ℕ) (os : Os Call Answer)
    (t : History)
    → Finishes ndebug f
        (tmp_fd_of f os t)
        (tmp_info f os t)
        w
        t
        (finish_edit ndebug s editor f w os t)
unfolding finish_edit temps source
finish_edit-Finishes ndebug s editor f w os t = elim (Bool-cases (exited_well w)) [
  | inl well ↦
      finish_saved ndebug s editor f w os t well (save_one f os t) (save_one-Saves f os t)
        (temps-save_one os f t) refl
  | inr bad ↦ rw bad (refl, refl, inl (bad, refl))
]

-- Where fork fails and waitpid has no child to wait for, the status that is tested was never set.
-- Whether the edit is a success then rests on what the stack held: with a status that reads as a
-- clean exit, and a temporary file that nobody has changed, the program reports success.
run_fork_unforked :
    (ndebug : Bool) (garbage : ℕ) (s : Ids) (editor : Bytes) (f : KeyiFile) (env : Environment)
    (os : Os Call Answer) (t : History)
    → let pid = os t fork in
      let t₁ = (fork, pid) ∷ t in
      let w = os t₁ (waitpid pid.ret) in
      let t₂ = (waitpid pid.ret, w) ∷ t₁ in
      let t₃ = (usleep, os t₂ usleep) ∷ t₂ in
      failed pid ≡ true
      → failed w ≡ true
      → (save_one f os t₃).0 ≡ next true
      → (run_fork ndebug garbage s editor f env os t).0
        ≡ exit (if exited_well garbage then 0 else 1)
unfolding run_fork finish_edit
run_fork_unforked true garbage s editor f env os t nofork nowait saves = ground arith
run_fork_unforked false garbage s editor f env os t nofork nowait saves = ground arith
