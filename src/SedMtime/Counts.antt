-- ===== src/SedMtime/Counts.antt =====
-- What the counters of check-sed-mtime/check_sed_mtime.c mean.
use overthinkin.Base.{
  ℕ, zero, suc, ◌+◌, ◌≤◌, ◌<◌, ◌^◌, Bool, true, false, not, List, [], ◌∷◌, Option, none, some,
  length, Bytes, if◌then◌else◌, ℤ, Os, ◌≡◌, refl, ◌∙◌, sym, ap, subst, call, ◌>>=◌, ◌>>◌, pure,
  after_if, after_elim, arith,
}
use overthinkin.SedMtime.Run.{
  FileTime, TestResult, Call, stat_mtime, stat_inode, fork, fopen_write, fclose, Answer, History, M,
  with_round, with_failed, failed, is_same_mtime, run_sed_command, show_content, compare_times,
  observe, run_rounds, no_result, clean_up, start_rounds, create_temp_dir, run_test, get_file_mtime,
  rounds_of, accepted, run_main, main,
}

-- The times that were seen, the latest first.
unfoldable pub seen : History → List FileTime
seen [] = []
seen ((stat_mtime, a) ∷ t) = if failed a then seen t else a.mtime ∷ seen t
seen (_ ∷ t) = seen t

-- How many times in a row are the same as the one before.
unfoldable pub repeats : List FileTime → ℕ
repeats [] = 0
repeats (t ∷ []) = 0
repeats (t ∷ before ∷ times) =
    let rest = repeats (before ∷ times) in if is_same_mtime before t then suc rest else rest

-- How often sed was started.
unfoldable pub forks : History → ℕ
forks [] = 0
forks ((fork, a) ∷ t) = suc (forks t)
forks (_ ∷ t) = forks t

-- What a result says of the history, after `n` rounds: each round is counted once, and started sed
-- once; each round that went well has seen a time after the first one; and the same times are those
-- that repeat the time before them.
abbrev pub Counts : ℕ → ℕ → TestResult → History → Type 0
Counts n started r t =
    (r.total_iterations + r.failed_iterations ≡ n)
    × (forks t ≡ started)
    × (length (seen t) ≡ r.total_iterations + 1)
    × (r.same_mtime_count ≡ repeats (seen t))

abbrev pub CountsIf : ℕ → ℕ → Option TestResult × History → Type 0
CountsIf n started (none, t) = Unit {0}
CountsIf n started (some r, t) = Counts n started r t

module _ (os : Os Call Answer) where
  sed_seen :
      (t : History)
      → (seen (run_sed_command os t).1 ≡ seen t) × (forks (run_sed_command os t).1 ≡ suc (forks t))
  unfolding run_sed_command seen forks
  sed_seen t = ground arith

  show_seen :
      (b : Bool) (t : History)
      → let t' = ((if b then show_content else pure tt) os t).1 in
        (seen t' ≡ seen t) × (forks t' ≡ forks t)
  unfolding show_content seen forks
  show_seen true t = ground arith
  show_seen false t = (refl, refl)

-- The latest time that was seen.
abbrev Latest : FileTime → List FileTime → Type 0
Latest prev [] = ⊥
Latest prev (x ∷ times) = x ≡ prev

-- The state of the rounds: as Counts says, and `prev` is the latest time.
abbrev Going : ℕ → ℕ → FileTime → TestResult → History → Type 0
Going n started prev r t = Counts n started r t × Latest prev (seen t)

repeats_next :
    (prev curr : FileTime) (times : List FileTime)
    → Latest prev times
    → repeats (curr ∷ times)
      ≡ (if is_same_mtime prev curr then suc (repeats times) else repeats times)
unfolding repeats
repeats_next prev curr [] e = absurd e
repeats_next prev curr (x ∷ times) e = rw e refl

same_count :
    (b : Bool) (n m k : ℕ) → n ≡ m → k ≡ (if b then suc m else m) → (if b then suc n else n) ≡ k
same_count true n m k e q = omega arith
same_count false n m k e q = omega arith

-- A time that is seen after `prev`, and the result that counts it.
with_round-Going :
    (n started : ℕ) (prev curr : FileTime) (r : TestResult) (t t' : History)
    → Going n started prev r t
    → seen t' ≡ curr ∷ seen t
    → forks t' ≡ suc (forks t)
    → Going (suc n) (suc started) curr (with_round (is_same_mtime prev curr) r) t'
with_round-Going n started prev curr r t t' ((a, b, c, e), l) s f =
    let q = repeats_next prev curr (seen t) l in
    let k : repeats (seen t')
        ≡ (if is_same_mtime prev curr then suc (repeats (seen t)) else repeats (seen t)) =
      rw s q in
    let m : length (seen t') ≡ suc (length (seen t)) = rw s refl in
    let h : Latest curr (seen t') = rw s refl in
    (
      (
        omega arith,
        omega arith,
        omega arith,
        same_count (is_same_mtime prev curr) r.same_mtime_count _ _ e k,
      ),
      h,
    )

one_seen : (first : FileTime) → 0 ≡ repeats (first ∷ [])
unfolding repeats
one_seen first = refl

-- A round whose sed has failed.
with_failed-Going :
    (n started : ℕ) (prev : FileTime) (r : TestResult) (t t' : History)
    → Going n started prev r t
    → seen t' ≡ seen t
    → forks t' ≡ suc (forks t)
    → Going (suc n) (suc started) prev (with_failed r) t'
with_failed-Going n started prev r t t' ((a, b, c, e), l) s f =
    let m : length (seen t') ≡ r.total_iterations + 1 = rw s c in
    let k : r.same_mtime_count ≡ repeats (seen t') = rw s e in
    let h : Latest prev (seen t') = rw s l in ((omega arith, omega arith, m, k), h)

module _ (os : Os Call Answer) where
  mtime_seen :
      (t : History) (curr : FileTime)
      → (get_file_mtime os t).0 ≡ some curr
      → let t' = (get_file_mtime os t).1 in (seen t' ≡ curr ∷ seen t) × (forks t' ≡ forks t)
  unfolding get_file_mtime seen forks
  mtime_seen t curr e = ground arith

  observe-CountsIf :
      (n started : ℕ) (prev : FileTime) (rest : FileTime → TestResult → M (Option TestResult))
      (r : TestResult) (k s : ℕ) (t₀ t : History)
      → Going k s prev r t₀
      → seen t ≡ seen t₀
      → forks t ≡ suc (forks t₀)
      → ((curr : FileTime) (r' : TestResult) (t' : History)
          → Going (suc k) (suc s) curr r' t'
          → CountsIf n started (rest curr r' os t'))
      → CountsIf n started (observe prev rest r os t)
  unfolding observe compare_times seen forks
  observe-CountsIf n started prev rest r k s t₀ t g e f go =
      let m = get_file_mtime os t in
      let st = os m.1 stat_inode in
      let t₁ : History = (stat_inode, st) ∷ m.1 in
      after_elim (CountsIf n started) os m.1 m.0 (pure none)
        (λ curr. call stat_inode >>= λ st'.
          if failed st' then pure none else compare_times prev curr rest r)
        (λ _. tt)
        (λ curr found.
          let h = mtime_seen t curr found in
          let same = is_same_mtime prev curr in
          let w = show_seen os same t₁ in
          let t₂ = ((if same then show_content else pure tt) os t₁).1 in
          after_if (CountsIf n started) os t₁ (failed st) (pure none)
            (compare_times prev curr rest r) (λ _. tt)
            (λ _. go curr (with_round same r) t₂ (
              with_round-Going k s prev curr r t₀ t₂ g (w.0 ∙ h.0 ∙ ap (λ x. curr ∷ x) e)
                (w.1 ∙ h.1 ∙ f))))

  run_rounds-CountsIf :
      (n k s : ℕ) (prev : FileTime) (r : TestResult) (t : History) (total started : ℕ)
      → Going k s prev r t
      → n + k ≡ total
      → n + s ≡ started
      → CountsIf total started (run_rounds n prev r os t)
  unfolding run_rounds
  run_rounds-CountsIf zero k s prev r t total started ((a, b, c, e), l) p q =
      (omega arith, omega arith, c, e)
  run_rounds-CountsIf (suc n) k s prev r t total started g p q =
      let rest = run_rounds n in
      let sed = run_sed_command os t in
      let h = sed_seen os t in
      after_if (CountsIf total started) os sed.1 sed.0 (observe prev rest r)
        (rest prev (with_failed r))
        (λ _. observe-CountsIf total started prev rest r k s t sed.1 g (h.0) (h.1) (λ curr r' t' g'.
          run_rounds-CountsIf n (suc k) (suc s) curr r' t' total started g' (omega arith)
            (omega arith)))
        (λ _.
          run_rounds-CountsIf n (suc k) (suc s) prev (with_failed r) sed.1 total started
            (with_failed-Going k s prev r t sed.1 g (h.0) (h.1)) (omega arith) (omega arith))

  clean_up-CountsIf :
      (n started : ℕ) (o : Option TestResult) (t : History)
      → CountsIf n started (o, t)
      → CountsIf n started (clean_up o os t)
  unfolding clean_up seen forks
  clean_up-CountsIf n started none t h = tt
  clean_up-CountsIf n started (some r) t h = h

  first-Going :
      (t : History) (first : FileTime)
      → seen t ≡ first ∷ []
      → forks t ≡ 0
      → Going 0 0 first no_result t
  first-Going t first s f =
      let m : length (seen t) ≡ 1 = rw s refl in
      let k : 0 ≡ repeats (seen t) = rw s (one_seen first) in
      let h : Latest first (seen t) = rw s refl in ((refl, f, m, k), h)

  start_rounds-CountsIf :
      (n : ℕ) (t : History) → seen t ≡ [] → forks t ≡ 0 → CountsIf n n (start_rounds n os t)
  unfolding start_rounds seen forks
  start_rounds-CountsIf n t s f =
      let m = get_file_mtime os t in
      let st = os m.1 stat_inode in
      let t₁ : History = (stat_inode, st) ∷ m.1 in
      after_elim (CountsIf n n) os m.1 m.0 (pure none)
        (λ first. call stat_inode >>= λ st'.
          if failed st' then pure none else run_rounds n first no_result >>= clean_up)
        (λ _. tt)
        (λ first found.
          let h = mtime_seen t first found in
          let r = run_rounds n first no_result os t₁ in
          let g = first-Going t₁ first (h.0 ∙ ap (λ x. first ∷ x) s) (h.1 ∙ f) in
          after_if (CountsIf n n) os t₁ (failed st) (pure none)
            (run_rounds n first no_result >>= clean_up) (λ _. tt)
            (λ _.
              clean_up-CountsIf n n r.0 r.1
                (run_rounds-CountsIf n 0 0 first no_result t₁ n n g (omega arith) (omega arith))))

  temp_dir_seen : (seen (create_temp_dir os []).1 ≡ []) × (forks (create_temp_dir os []).1 ≡ 0)
  unfolding create_temp_dir seen forks
  temp_dir_seen = ground arith

-- Where run_test ends with a result, each of its rounds is counted, as one that went well or as one
-- that failed, and has started sed once; there is one time more than rounds that went well; and the
-- rounds with the same time are those whose time is that of the round before, with no failed round
-- taken for one. An error has no result.
pub run_test-CountsIf : (n : ℕ) (os : Os Call Answer) → CountsIf n n (run_test n os [])
unfolding run_test seen forks
run_test-CountsIf n os =
    let made_dir = create_temp_dir os [] in
    let h = temp_dir_seen os in
    let fp = os made_dir.1 fopen_write in
    let t₁ : History = (fopen_write, fp) ∷ made_dir.1 in
    let t₂ : History = (fclose, os t₁ fclose) ∷ t₁ in
    after_if (CountsIf n n) os made_dir.1 (not made_dir.0) (pure none)
      (call fopen_write >>= λ fp'. if failed fp' then pure none else call fclose >> start_rounds n)
      (λ _. tt)
      (λ _.
        after_if (CountsIf n n) os t₁ (failed fp) (pure none) (call fclose >> start_rounds n)
          (λ _. tt) (λ _. start_rounds-CountsIf os n t₂ (h.0) (h.1)))

-- The exit status 0 says that sed was started as often as the loop was to run.
abbrev pub Started : ℕ → ℕ × History → Type 0
Started n (zero, t) = forks t ≡ n
Started n (suc k, t) = k ≡ 0

result-Started :
    (n : ℕ) (os : Os Call Answer) (o : Option TestResult) (t : History)
    → CountsIf n n (o, t)
    → Started n ((elim o as (λ _. M ℕ) [ none ↦ pure 1 | some _ ↦ pure 0 ]) os t)
result-Started n os none t h = refl
result-Started n os (some r) t h = h.1

run_main-Started :
    (o : Option ℕ) (val : ℕ) (os : Os Call Answer)
    → o ≡ some val
    → Started (rounds_of val) (run_main o os [])
unfolding run_main
run_main-Started o val os e =
    let r = run_test (rounds_of val) os [] in
    let h : Started (rounds_of val) (run_main (some val) os []) =
      result-Started (rounds_of val) os r.0 r.1 (run_test-CountsIf (rounds_of val) os) in
    subst (λ o'. Started (rounds_of val) (run_main o' os [])) (sym e) h

-- With an argument that strtol reads as a whole as the positive number `val`, the exit status of
-- main is 0 or 1, and where it is 0, sed was started as often as `(int) val` says.
main-Started :
    (strtol : Bytes → ℤ × Bytes) (name arg : Bytes) (val : ℕ) (os : Os Call Answer)
    → accepted arg (strtol arg) ≡ some val
    → Started (rounds_of val) (main strtol (name ∷ arg ∷ []) os [])
unfolding main
main-Started strtol name arg val os e = run_main-Started (accepted arg (strtol arg)) val os e

-- A number from 2 ^ 31 to 2 ^ 32 is accepted, and negative as an int: where main then exits with 0,
-- it has never started sed.
main_wraps :
    (strtol : Bytes → ℤ × Bytes) (name arg : Bytes) (val : ℕ) (os : Os Call Answer)
    → accepted arg (strtol arg) ≡ some val
    → 2 ^ 31 ≤ val
    → val < 2 ^ 32
    → Started 0 (main strtol (name ∷ arg ∷ []) os [])
unfolding rounds_of
main_wraps strtol name arg val os e least most =
    let none_left : rounds_of val ≡ 0 = ground arith in
    subst (λ n. Started n (main strtol (name ∷ arg ∷ []) os [])) none_left
      (main-Started strtol name arg val os e)
