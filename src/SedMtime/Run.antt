-- ===== src/SedMtime/Run.antt =====
-- check-sed-mtime/check_sed_mtime.c, from get_file_mtime to main. What is printed is left out.
use overthinkin.Base.{
  ℕ, zero, suc, ◌/◌, ◌%◌, ◌^◌, Bool, false, not, ◌&&◌, List, [], ◌∷◌, Option, none, some, Bytes,
  ltb, ◌==◌, same, if◌then◌else◌, ℤ, pos, minus_one, ◌==ℤ◌, Trace, Action, pure, call, ◌>>=◌, ◌>>◌,
}

-- file_time_t
pub record FileTime : Type 0 where
  pub sec : ℕ
  pub nsec : ℕ

-- test_result_t; the counts are of type int, and no larger than the number of rounds, an int too.
pub record TestResult : Type 0 where
  pub total_iterations : ℕ
  pub failed_iterations : ℕ
  pub same_mtime_count : ℕ

-- The calls; stat is asked twice, for the time and for the inode. The child that fork makes runs sed
-- or exits, and is not this program any more.
pub data Call : Type 0 where
  strdup mkdtemp fopen_write fopen_read fgets fclose stat_mtime stat_inode fork remove_dir : Call
  waitpid : ℤ → Call

pub record Answer : Type 0 where
  pub ret : ℤ
  pub mtime : FileTime
  pub wstatus : ℕ

abbrev pub History : Type 0
History = Trace Call Answer

abbrev pub M : Type 0 → Type 0
M = Action Call Answer

-- -1, or a NULL where the call gives a pointer.
abbrev pub failed : Answer → Bool
failed a = a.ret ==ℤ minus_one

unfoldable pub get_file_mtime : M (Option FileTime)
get_file_mtime = call stat_mtime >>= λ st. if failed st then pure none else pure (some st.mtime)

abbrev pub is_same_mtime : FileTime → FileTime → Bool
is_same_mtime t₁ t₂ = t₁.sec == t₂.sec && t₁.nsec == t₂.nsec

-- WIFEXITED and WEXITSTATUS; a signal is a failure too.
abbrev pub exited_well : ℕ → Bool
exited_well status = status % 128 == 0 && status / 256 % 256 == 0

-- The result is whether it is 0, in the parent. The command is written from the number of the
-- round, which nothing else depends on.
unfoldable pub run_sed_command : M Bool
run_sed_command = call fork >>= λ pid.
    if failed pid
    then pure false
    else call (waitpid pid.ret) >>= λ w.
        if failed w then pure false else pure (exited_well w.wstatus)

unfoldable pub create_temp_dir : M Bool
create_temp_dir = call strdup >>= λ template.
    if failed template then pure false else call mkdtemp >>= λ dir. pure (not (failed dir))

-- The content of the file, for the report.
unfoldable pub show_content : M (Unit {0})
show_content =
    call fopen_read >>= λ fp. if failed fp then pure tt else call fgets >> call fclose >> pure tt

abbrev pub with_failed : TestResult → TestResult
with_failed r = record r { failed_iterations = suc r.failed_iterations }

abbrev pub with_round : Bool → TestResult → TestResult
with_round unchanged r = record r {
  same_mtime_count = if unchanged then suc r.same_mtime_count else r.same_mtime_count;
  total_iterations = suc r.total_iterations;
}

-- The end of a round, from the comparison on.
unfoldable pub compare_times :
    FileTime
    → FileTime
    → (FileTime → TestResult → M (Option TestResult))
    → TestResult
    → M (Option TestResult)
compare_times prev curr rest r =
    (if is_same_mtime prev curr then show_content else pure tt)
    >> rest curr (with_round (is_same_mtime prev curr) r)

-- What a round does where sed went well.
unfoldable pub observe :
    FileTime → (FileTime → TestResult → M (Option TestResult)) → TestResult → M (Option TestResult)
unfolding compare_times
observe prev rest r = get_file_mtime >>= λ m. elim m [
  | none ↦ pure none
  | some curr ↦
      call stat_inode >>= λ st. if failed st then pure none else compare_times prev curr rest r
]

-- The loop of run_test, for as many rounds as are left; `none` is the result -1.
unfoldable pub run_rounds : ℕ → FileTime → TestResult → M (Option TestResult)
run_rounds zero prev r = pure (some r)
run_rounds (suc n) prev r =
    let rest = run_rounds n in
    run_sed_command >>= λ ok. if ok then observe prev rest r else rest prev (with_failed r)

abbrev pub no_result : TestResult
no_result = record { total_iterations = 0; failed_iterations = 0; same_mtime_count = 0 }

-- The end of run_test: the directory is removed.
unfoldable pub clean_up : Option TestResult → M (Option TestResult)
clean_up none = pure none
clean_up (some r) = call remove_dir >> pure (some r)

-- run_test, once there is a file.
unfoldable pub start_rounds : ℕ → M (Option TestResult)
unfolding clean_up
start_rounds n = get_file_mtime >>= λ m. elim m [
  | none ↦ pure none
  | some first ↦ call stat_inode >>= λ st.
      if failed st then pure none else run_rounds n first no_result >>= clean_up
]

unfoldable pub run_test : ℕ → M (Option TestResult)
run_test iterations = create_temp_dir >>= λ made.
    if not made
    then pure none
    else call fopen_write >>= λ fp.
        if failed fp then pure none else call fclose >> start_rounds iterations

-- The rounds of `for (i = 1; i <= iterations; i++)` with `iterations = (int) val`.
unfoldable pub rounds_of : ℕ → ℕ
rounds_of val = if ltb (val % 2 ^ 32) (2 ^ 31) then val % 2 ^ 32 else 0

-- The value that strtol gives, and what is left of its argument.
unfoldable pub accepted : Bytes → ℤ × Bytes → Option ℕ
accepted arg (pos (suc n), []) = if same arg [] then none else some (suc n)
accepted arg _ = none

-- DEFAULT_ITERATIONS, or what the first argument says.
abbrev iterations_of : (Bytes → ℤ × Bytes) → List Bytes → Option ℕ
iterations_of strtol (name ∷ arg ∷ rest) = accepted arg (strtol arg)
iterations_of strtol _ = some 1000

-- The exit status, once the argument is read.
unfoldable pub run_main : Option ℕ → M ℕ
run_main none = pure 1
run_main (some val) = run_test (rounds_of val) >>= λ r. elim r [ none ↦ pure 1 | some _ ↦ pure 0 ]

-- The exit status; strtol is given, with its base 10.
unfoldable pub main : (Bytes → ℤ × Bytes) → List Bytes → M ℕ
main strtol argv = run_main (iterations_of strtol argv)
