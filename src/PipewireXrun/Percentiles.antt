-- ===== src/PipewireXrun/Percentiles.antt =====
-- pipewire-xrun/main.c: stats_compute_percentiles, for any qsort that sorts.
use overthinkin.Base.{
  u64, ℕ, zero, suc, ◌-◌, ◌*◌, ◌/◌, ◌^◌, ◌≤◌, ◌<◌, leb, ◌==◌, Bool, true, false, List, ◌∷◌, [],
  ◌++◌, length, take, drop, All, ==_ne, ◌≡◌, refl, sym, ap, subst, ◌∙◌, arith,
}
use overthinkin.PipewireXrun.Stats.{RtStats, get_or, intervals, stored, stats_compute_percentiles}
use overthinkin.PipewireXrun.Counts.{count}

abbrev pub Ordered : List ℕ → Type 0
Ordered [] = Unit
Ordered (x ∷ xs) = All (λ y. x ≤ y) xs × Ordered xs

-- What qsort is documented to do, with cmp_u64: the result is in order, and has the same elements
-- as often, so that as many of them pass any test.
pub record Sorts (qsort : List ℕ → List ℕ) : Type 0 where
  pub ordered : (xs : List ℕ) → Ordered (qsort xs)
  pub kept : (f : ℕ → Bool) (xs : List ℕ) → count f (qsort xs) ≡ count f xs

count-all : (xs : List ℕ) → count (λ x. true) xs ≡ length xs
count-all [] = refl
count-all (x ∷ xs) = ap suc (count-all xs)

All-get_or : (x : ℕ) (xs : List ℕ) (i : ℕ) → All (λ y. x ≤ y) xs → i < length xs → x ≤ get_or xs i
All-get_or x [] i a l = absurd (omega arith)
All-get_or x (y ∷ ys) zero a l = a.0
All-get_or x (y ∷ ys) (suc i) a l = All-get_or x ys i a.1 (omega arith)

get_or-le : (xs : List ℕ) (i j : ℕ) → Ordered xs → i ≤ j → j < length xs → get_or xs i ≤ get_or xs j
get_or-le [] i j o h l = absurd (omega arith)
get_or-le (x ∷ xs) zero zero o h l = omega arith
get_or-le (x ∷ xs) zero (suc j) o h l = All-get_or x xs j o.0 (omega arith)
get_or-le (x ∷ xs) (suc i) zero o h l = absurd (omega arith)
get_or-le (x ∷ xs) (suc i) (suc j) o h l = get_or-le xs i j o.1 (omega arith) (omega arith)

-- Of an ordered list, the first elements up to one are no larger than it.
count-get_or :
    (xs : List ℕ) (i : ℕ) → Ordered xs → i < length xs → suc i ≤ count (λ y. leb y (get_or xs i)) xs
count-get_or [] i o l = absurd (omega arith)
count-get_or (x ∷ xs) zero o l = ground arith
count-get_or (x ∷ xs) (suc i) o l =
    let r = count-get_or xs i o.1 (omega arith) in
    let le = All-get_or x xs i o.0 (omega arith) in ground arith

get_or-append : (xs ys : List ℕ) (i : ℕ) → i < length xs → get_or (xs ++ ys) i ≡ get_or xs i
get_or-append [] ys i l = absurd (omega arith)
get_or-append (x ∷ xs) ys zero l = refl
get_or-append (x ∷ xs) ys (suc i) l = get_or-append xs ys i (omega arith)

length-take : (n : ℕ) (xs : List ℕ) → n ≤ length xs → length (take n xs) ≡ n
length-take zero xs h = refl
length-take (suc n) [] h = absurd (omega arith)
length-take (suc n) (x ∷ xs) h = ap suc (length-take n xs (omega arith))

-- The index of a percentile below 100.
abbrev pub index_of : ℕ → ℕ → ℕ
index_of p n = (n - 1) * p / 100

module _ (qsort : List ℕ → List ℕ) (sorts : Sorts qsort) (s : RtStats) (some_stored : 0 < stored s)
    (room : stored s ≤ length (intervals s)) (few : stored s < 2 ^ 57) where
  abbrev samples : List ℕ
  samples = take (stored s) (intervals s)

  sorted-length : length (qsort samples) ≡ stored s
  sorted-length =
      sym (count-all (qsort samples))
      ∙ sorts.kept (λ x. true) samples
      ∙ count-all samples
      ∙ length-take (stored s) (intervals s) room

  nth :
      (i : ℕ)
      → i < stored s
      → get_or (qsort samples ++ drop (stored s) (intervals s)) i ≡ get_or (qsort samples) i
  nth i l =
      get_or-append (qsort samples) (drop (stored s) (intervals s)) i (omega (arith, sorted-length))

  p95-eq :
      (stats_compute_percentiles qsort s).p95_ns ≡ get_or (qsort samples) (index_of 95 (stored s))
  unfolding stats_compute_percentiles
  p95-eq =
      let nz : (stored s == 0) ≡ false =
        (==_ne (stored s) 0).1 (λ z. omega (arith, some_stored, z)) in
      let i : u64 ((stored s - 1) * 95) / 100 ≡ index_of 95 (stored s) = omega (arith, few) in
      rw (nz, i) (nth (index_of 95 (stored s)) (omega (arith, some_stored)))

  p99-eq :
      (stats_compute_percentiles qsort s).p99_ns ≡ get_or (qsort samples) (index_of 99 (stored s))
  unfolding stats_compute_percentiles
  p99-eq =
      let nz : (stored s == 0) ≡ false =
        (==_ne (stored s) 0).1 (λ z. omega (arith, some_stored, z)) in
      let i : u64 ((stored s - 1) * 99) / 100 ≡ index_of 99 (stored s) = omega (arith, few) in
      rw (nz, i) (nth (index_of 99 (stored s)) (omega (arith, some_stored)))

  at-least :
      (i v : ℕ) → i < stored s → v ≡ get_or (qsort samples) i → suc i ≤ count (λ x. leb x v) samples
  at-least i v l e =
      let r =
        count-get_or (qsort samples) i (sorts.ordered samples) (omega (arith, sorted-length)) in
      subst (λ n. suc i ≤ n) (sorts.kept (λ x. leb x v) samples)
        (subst (λ w. suc i ≤ count (λ x. leb x w) (qsort samples)) (sym e) r)

  -- If qsort sorts, and from 1 to less than 2 ^ 57 intervals are stored, all of them within the
  -- array: p95_ns is no larger than p99_ns, and each of the two is no smaller than as many of the
  -- stored intervals as its index says, and one more.
  pub compute_percentiles_lem :
      let s' = stats_compute_percentiles qsort s in
      (s'.p95_ns ≤ s'.p99_ns)
      × (suc (index_of 95 (stored s))
          ≤ count (λ i. leb i s'.p95_ns) (take (stored s) (intervals s)))
      × (suc (index_of 99 (stored s))
          ≤ count (λ i. leb i s'.p99_ns) (take (stored s) (intervals s)))
  compute_percentiles_lem =
      let i = index_of 95 (stored s) in
      let j = index_of 99 (stored s) in
      let lt : j < stored s = omega (arith, some_stored) in
      let le =
        get_or-le (qsort samples) i j (sorts.ordered samples) (omega arith)
          (omega (arith, sorted-length)) in
      (
        omega (arith, p95-eq, p99-eq, le),
        at-least i _ (omega (arith, some_stored)) p95-eq,
        at-least j _ lt p99-eq,
      )
