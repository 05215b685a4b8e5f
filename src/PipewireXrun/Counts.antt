-- ===== src/PipewireXrun/Counts.antt =====
-- pipewire-xrun/main.c: what the counters of struct rt_stats say of the intervals that were recorded.
use native.Mathlib.Nat.{mul-le-mul, div-le_self}
use overthinkin.Base.{
  u64, total, total-bump, length-bump, ℕ, suc, ◌+◌, ◌-◌, ◌*◌, ◌^◌, ◌≤◌, ◌<◌, ltb, ◌==◌, Bool, true,
  false, List, ◌∷◌, [], Option, none, some, length, if◌then◌else◌, inl, inr, Bool-cases,
  Option-cases, ◌≡◌, refl, ap, subst, ◌∙◌, arith,
}
use overthinkin.PipewireXrun.Config.{Real, BenchConfig}
use overthinkin.PipewireXrun.Stats.{
  RtStats, no_stats, stats_alloc, set, max_callbacks, limit_3, bucket_of, count_interval, raise_max,
  count_over, count_bucket, store_raw, stats_record_interval,
}

-- How many of a list pass a test.
abbrev pub count : (ℕ → Bool) → List ℕ → ℕ
count f [] = 0
count f (x ∷ xs) = if f x then suc (count f xs) else count f xs

abbrev pub biggest : List ℕ → ℕ
biggest [] = 0
biggest (x ∷ xs) = if ltb (biggest xs) x then x else biggest xs

module _ (real : Real) (cfg : BenchConfig real.Double) where
  -- A sequence of intervals, the latest first.
  unfoldable pub record_all : List ℕ → RtStats → Option RtStats
  record_all [] s = some s
  record_all (i ∷ is) s = elim (record_all is s) [
    | none ↦ none
    | some s' ↦ stats_record_interval real cfg i s'
  ]

  -- What the counters are to say once the intervals `is` were recorded; there are less than 2 ^ 64.
  pub record Counted (is : List ℕ) (s : RtStats) : Type 0 where
    pub callbacks : s.callback_count ≡ length is
    pub zeros : s.zero_interval ≡ count (λ i. i == 0) is
    pub max : s.max_ns ≡ biggest is
    pub over_3 : s.over_threshold_3 ≡ count (λ i. ltb (limit_3 real cfg) i) is
    pub histogram : total s.histogram ≡ length is
    pub buckets : length s.histogram ≡ 128
    pub raw : s.raw_count ≡ length is
    pub overs : s.over_threshold_1 + s.over_threshold_2 + s.over_threshold_3 ≤ length is

  count-le : (f : ℕ → Bool) (is : List ℕ) → count f is ≤ length is
  count-le f [] = omega arith
  count-le f (x ∷ xs) = ground (arith, count-le f xs)

  bucket-lt : (i : ℕ) → bucket_of real cfg i < 128
  unfolding bucket_of
  bucket-lt i = ground arith

  -- store_raw changes what it is about.
  store_raw-changes :
      (i : ℕ) (s s' : RtStats)
      → store_raw i s ≡ some s'
      → (raw : Option (List ℕ)) × (record s {
        raw_intervals = raw;
        raw_count = u64 (s.raw_count + 1);
      }
          ≡ s')
  unfolding store_raw
  store_raw-changes i s s' h = elim (Bool-cases (ltb s.raw_count s.raw_capacity)) [
    | inr e ↦ (s.raw_intervals, ground arith)
    | inl e ↦ elim (Option-cases s.raw_intervals) [
      | inl n ↦ absurd (ground arith)
      | inr (xs, r) ↦ (some (set xs s.raw_count i), ground arith)
    ]
  ]

  counted :
      (i : ℕ) (is : List ℕ) (s : RtStats) (raw : Option (List ℕ))
      → length is < 2 ^ 64 - 1
      → Counted is s
      → let s' =
          count_bucket real cfg i (count_over real cfg i (raise_max i (count_interval i s))) in
        Counted (i ∷ is) (record s' { raw_intervals = raw; raw_count = u64 (s'.raw_count + 1) })
  unfolding count_bucket count_over raise_max count_interval
  counted i is s raw n c =
      let zeros_le = count-le (λ j. j == 0) is in
      let over_le = count-le (λ j. ltb (limit_3 real cfg) j) is in
      let same : (count_over real cfg i (raise_max i (count_interval i s))).histogram
          ≡ s.histogram =
        ground arith in
      record {
        callbacks = ground arith;
        zeros = ground arith;
        max = ground arith;
        over_3 = ground arith;
        histogram = rw same (
            total-bump (bucket_of real cfg i) s.histogram (rw c.buckets (bucket-lt i))
              (rw c.histogram n)
            ∙ ap suc c.histogram);
        buckets = rw same (length-bump (bucket_of real cfg i) s.histogram ∙ c.buckets);
        raw = ground arith;
        overs = ground arith;
      }

  recorded-Counted :
      (i : ℕ) (is : List ℕ) (s s' : RtStats)
      → length is < 2 ^ 64 - 1
      → Counted is s
      → stats_record_interval real cfg i s ≡ some s'
      → Counted (i ∷ is) s'
  unfolding stats_record_interval
  recorded-Counted i is s s' n c h =
      let (raw, e) = store_raw-changes i _ s' h in
      subst (Counted (i ∷ is)) e (counted i is s raw n c)

  -- Where there is memory for the intervals, recording one does not fail.
  abbrev Alloced : RtStats → Type 0
  Alloced s = (xs : List ℕ) × (s.raw_intervals ≡ some xs)

  store_raw-total :
      (i : ℕ) (s : RtStats) → Alloced s → (s' : RtStats) × (store_raw i s ≡ some s') × Alloced s'
  unfolding store_raw
  store_raw-total i s (xs, e) = elim (Bool-cases (ltb s.raw_count s.raw_capacity)) [
    | inr h ↦ (record s { raw_count = u64 (s.raw_count + 1) }, rw h, (xs, e))
    | inl h ↦ (
      record s { raw_intervals = some (set xs s.raw_count i); raw_count = u64 (s.raw_count + 1) },
      rw (h, e),
      (_, refl),
    )
  ]

  raw-kept :
      (i : ℕ) (s : RtStats)
      → (count_bucket real cfg i
          (count_over real cfg i (raise_max i (count_interval i s)))).raw_intervals
        ≡ s.raw_intervals
  unfolding count_bucket count_over raise_max count_interval
  raw-kept i s = ground arith

  recorded-total :
      (i : ℕ) (s : RtStats)
      → Alloced s
      → (s' : RtStats) × (stats_record_interval real cfg i s ≡ some s') × Alloced s'
  unfolding stats_record_interval
  recorded-total i s (xs, e) =
      store_raw-total i
        (count_bucket real cfg i (count_over real cfg i (raise_max i (count_interval i s))))
        (xs, raw-kept i s ∙ e)

  recorded :
      (is : List ℕ)
      → length is < 2 ^ 64
      → (s : RtStats) × (record_all is (stats_alloc false cfg no_stats) ≡ some s)
        × Counted is s
        × Alloced s
  unfolding record_all stats_alloc
  recorded [] n = (
    _,
    refl,
    record {
      callbacks = refl;
      zeros = refl;
      max = refl;
      over_3 = refl;
      histogram = refl;
      buckets = refl;
      raw = refl;
      overs = omega arith;
    },
    (_, refl),
  )
  recorded (i ∷ is) n =
      let (s, e, c, a) = recorded is (omega arith) in
      let (s', e', a') = recorded-total i s a in
      (s', rw e e', recorded-Counted i is s s' (omega arith) c e', a')

  -- From a fresh start with memory for the intervals, fewer than 2 ^ 64 intervals are recorded
  -- without a fault. The counters of callbacks, of intervals of 0 and of those above the third
  -- threshold are exact, max_ns is the largest interval, the buckets of the histogram add up to the
  -- callbacks, and no interval is counted above two thresholds.
  pub record_all-Counted :
      (is : List ℕ)
      → length is < 2 ^ 64
      → (s : RtStats) × (record_all is (stats_alloc false cfg no_stats) ≡ some s) × Counted is s
  record_all-Counted is n = let (s, e, c, a) = recorded is n in (s, e, c)

  same-count :
      (i : ℕ) (s : RtStats)
      → let s' =
          count_bucket real cfg i (count_over real cfg i (raise_max i (count_interval i s))) in
        (s'.raw_count ≡ s.raw_count) × (s'.raw_capacity ≡ s.raw_capacity)
  unfolding count_bucket count_over raise_max count_interval
  same-count i s = (ground arith, ground arith)

  store_raw-null :
      (i : ℕ) (s : RtStats)
      → s.raw_intervals ≡ none
      → ltb s.raw_count s.raw_capacity ≡ true
      → store_raw i s ≡ none
  unfolding store_raw
  store_raw-null i s n l = rw (l, n)

  max_callbacks-pos : cfg.rate < 2 ^ 32 → cfg.duration_sec < 2 ^ 32 → 0 < max_callbacks cfg
  unfolding max_callbacks
  max_callbacks-pos r d =
      let b : cfg.duration_sec * cfg.rate ≤ (2 ^ 32 - 1) * (2 ^ 32 - 1) =
        mul-le-mul {n₂ = 2 ^ 32 - 1} {m₂ = 2 ^ 32 - 1} (omega arith) (omega arith) in
      let e : u64 (cfg.duration_sec * cfg.rate) ≤ (2 ^ 32 - 1) * (2 ^ 32 - 1) = omega arith in
      let q = div-le_self (u64 (cfg.duration_sec * cfg.rate)) cfg.quantum in omega arith

  -- If calloc fails, which is not looked at, the first interval that is recorded is written
  -- through NULL, for every rate and duration that are 32 bits wide.
  stats_alloc-null :
      (i : ℕ)
      → cfg.rate < 2 ^ 32
      → cfg.duration_sec < 2 ^ 32
      → stats_record_interval real cfg i (stats_alloc true cfg no_stats) ≡ none
  unfolding stats_record_interval stats_alloc
  stats_alloc-null i r d =
      let s = stats_alloc true cfg no_stats in
      let k = same-count i s in
      let p = max_callbacks-pos r d in
      store_raw-null i _ (raw-kept i s) (rw (k.0, k.1) (ground arith))
