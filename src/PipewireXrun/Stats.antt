-- ===== src/PipewireXrun/Stats.antt =====
-- pipewire-xrun/main.c: struct rt_stats, and what is recorded of an interval. The counters are
-- written by one thread, so that an atomic step is a plain one.
use overthinkin.Base.{
  u64, replicate, bump, ℕ, zero, suc, ◌+◌, ◌-◌, ◌*◌, ◌/◌, ltb, leb, ◌==◌, Bool, List, ◌∷◌, [], ◌++◌,
  Option, none, some, take, drop, if◌then◌else◌,
}
use overthinkin.PipewireXrun.Config.{Real, BenchConfig}

-- struct rt_stats; raw_intervals may be NULL, and what the bench does not write is left out.
pub record RtStats : Type 0 where
  pub callback_count : ℕ
  pub last_callback_ns : ℕ
  pub sum_ns : ℕ
  pub sum_sq_ns : ℕ
  pub max_ns : ℕ
  pub p95_ns : ℕ
  pub p99_ns : ℕ
  pub over_threshold_1 : ℕ
  pub over_threshold_2 : ℕ
  pub over_threshold_3 : ℕ
  pub dequeue_fail : ℕ
  pub null_buffer : ℕ
  pub state_errors : ℕ
  pub zero_interval : ℕ
  pub histogram : List ℕ
  pub raw_intervals : Option (List ℕ)
  pub raw_capacity : ℕ
  pub raw_count : ℕ
  pub test_start_ns : ℕ
  pub test_end_ns : ℕ
  pub actual_rate : ℕ
  pub actual_format : ℕ

-- `struct bench_context ctx = {0}`
abbrev pub no_stats : RtStats
no_stats = record {
  callback_count = 0;
  last_callback_ns = 0;
  sum_ns = 0;
  sum_sq_ns = 0;
  max_ns = 0;
  p95_ns = 0;
  p99_ns = 0;
  over_threshold_1 = 0;
  over_threshold_2 = 0;
  over_threshold_3 = 0;
  dequeue_fail = 0;
  null_buffer = 0;
  state_errors = 0;
  zero_interval = 0;
  histogram = replicate 128 0;
  raw_intervals = none;
  raw_capacity = 0;
  raw_count = 0;
  test_start_ns = 0;
  test_end_ns = 0;
  actual_rate = 0;
  actual_format = 0;
}

-- max_callbacks of stats_alloc
unfoldable pub max_callbacks : {D : Type 0} → BenchConfig D → ℕ
max_callbacks cfg = u64 (u64 (cfg.duration_sec * cfg.rate) / cfg.quantum + 4096)

-- stats_alloc; `null` says whether calloc failed, which is not looked at.
unfoldable pub stats_alloc : {D : Type 0} → Bool → BenchConfig D → RtStats → RtStats
stats_alloc null cfg s = record s {
  raw_intervals = if null then none else some (replicate (max_callbacks cfg) 0);
  raw_capacity = max_callbacks cfg;
}

unfoldable pub stats_free : RtStats → RtStats
stats_free s = record s { raw_intervals = none; raw_capacity = 0 }

-- The counts and sums of an interval.
unfoldable pub count_interval : ℕ → RtStats → RtStats
count_interval i s = record s {
  callback_count = u64 (s.callback_count + 1);
  sum_ns = u64 (s.sum_ns + i);
  sum_sq_ns = u64 (s.sum_sq_ns + u64 (i * i));
  zero_interval = if i == 0 then u64 (s.zero_interval + 1) else s.zero_interval;
}

unfoldable pub raise_max : ℕ → RtStats → RtStats
raise_max i s = record s { max_ns = if ltb s.max_ns i then i else s.max_ns }

abbrev pub set : List ℕ → ℕ → ℕ → List ℕ
set [] i v = []
set (x ∷ xs) zero v = v ∷ xs
set (x ∷ xs) (suc i) v = x ∷ set xs i v

-- raw_count and raw_intervals; `none` is a write through NULL.
unfoldable pub store_raw : ℕ → RtStats → Option RtStats
store_raw i s =
    if ltb s.raw_count s.raw_capacity
    then elim s.raw_intervals [
      | none ↦ none
      | some xs ↦ some (record s {
        raw_intervals = some (set xs s.raw_count i);
        raw_count = u64 (s.raw_count + 1);
      })
    ]
    else some (record s { raw_count = u64 (s.raw_count + 1) })

module _ (real : Real) (cfg : BenchConfig real.Double) where
  open real use {Double, of_ℕ, mul, quot, to_u64}

  -- expected_period_ns
  abbrev pub period : Double
  period = quot (mul (of_ℕ 1000000000) (of_ℕ cfg.quantum)) (of_ℕ cfg.rate)

  abbrev pub limit_1 : ℕ
  limit_1 = to_u64 (mul period cfg.threshold_1)

  abbrev pub limit_2 : ℕ
  limit_2 = to_u64 (mul period cfg.threshold_2)

  abbrev pub limit_3 : ℕ
  limit_3 = to_u64 (mul period cfg.threshold_3)

  unfoldable pub count_over : ℕ → RtStats → RtStats
  count_over i s =
      if ltb limit_3 i
      then record s { over_threshold_3 = u64 (s.over_threshold_3 + 1) }
      else if ltb limit_2 i
      then record s { over_threshold_2 = u64 (s.over_threshold_2 + 1) }
      else if ltb limit_1 i
      then record s { over_threshold_1 = u64 (s.over_threshold_1 + 1) }
      else s

  -- The bucket of an interval, of MAX_HISTOGRAM_BUCKETS.
  unfoldable pub bucket_of : ℕ → ℕ
  bucket_of i =
      let bucket = to_u64 (quot (mul (of_ℕ i) (of_ℕ 16)) period) in
      if leb 128 bucket then 127 else bucket

  unfoldable pub count_bucket : ℕ → RtStats → RtStats
  count_bucket i s = record s { histogram = bump (bucket_of i) s.histogram }

  unfoldable pub stats_record_interval : ℕ → RtStats → Option RtStats
  stats_record_interval i s =
      store_raw i (count_bucket i (count_over i (raise_max i (count_interval i s))))

-- An element of an array, with what stands outside of it written as 0; no access is outside.
abbrev pub get_or : List ℕ → ℕ → ℕ
get_or [] i = 0
get_or (x ∷ xs) zero = x
get_or (x ∷ xs) (suc i) = get_or xs i

abbrev pub intervals : RtStats → List ℕ
intervals s = elim s.raw_intervals [ none ↦ [] | some xs ↦ xs ]

-- The number of intervals that were stored.
abbrev pub stored : RtStats → ℕ
stored s = if ltb s.raw_capacity s.raw_count then s.raw_capacity else s.raw_count

-- stats_compute_percentiles; qsort is given, with cmp_u64 for its order.
unfoldable pub stats_compute_percentiles : (List ℕ → List ℕ) → RtStats → RtStats
stats_compute_percentiles qsort s =
    if stored s == 0
    then record s { p95_ns = 0; p99_ns = 0 }
    else let xs = qsort (take (stored s) (intervals s)) ++ drop (stored s) (intervals s) in
      record s {
        raw_intervals = some xs;
        p95_ns = get_or xs (u64 ((stored s - 1) * 95) / 100);
        p99_ns = get_or xs (u64 ((stored s - 1) * 99) / 100);
      }
