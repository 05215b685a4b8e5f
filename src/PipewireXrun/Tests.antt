-- ===== src/PipewireXrun/Tests.antt =====
-- Runs of pipewire-xrun/main.c on small inputs, and its theorems at them.
use overthinkin.Base.{
  ℕ, suc, ◌+◌, ◌-◌, ◌*◌, ◌/◌, ◌≤◌, ◌<◌, leb, if◌then◌else◌, true, false, List, [], ◌∷◌, some,
  length, take, All, Bool, Bool-cases, inl, inr, negsuc, Os, ◌≡◌, refl, arith,
}
use overthinkin.PipewireXrun.Config.{
  Real, Spa, BenchConfig, is_power_of_two, format_sample_size, bit_and, validate_config,
}
use overthinkin.PipewireXrun.Stats.{
  RtStats, no_stats, stats_alloc, stored, intervals, stats_compute_percentiles,
}
use overthinkin.PipewireXrun.Process.{
  Buffer, Chunk, BenchContext, fill_buffer, format_of, on_stream_state_changed,
}
use overthinkin.PipewireXrun.Bench.{
  state_changed, ticked, Call, Answer, init_context, run_loop, on_event, exit_status,
}
use overthinkin.PipewireXrun.Counts.{count, record_all, Counted, record_all-Counted}
use overthinkin.PipewireXrun.Percentiles.{Ordered, Sorts, index_of, compute_percentiles_lem}
use overthinkin.PipewireXrun.Fits.{fill_buffer-fits, fill_buffer-overruns}
use overthinkin.PipewireXrun.Outcome.{exit_status-errors}

-- Whole numbers in place of doubles.
abbrev whole : Real
whole = record {
  Double = ℕ;
  of_ℕ = λ n. n;
  add = λ a b. a + b;
  sub = λ a b. a - b;
  mul = λ a b. a * b;
  quot = λ a b. a / b;
  to_u64 = λ a. a;
  at_least = λ a b. leb b a;
  sin = λ a. a;
  two_pi = 6;
  threshold_1 = 1;
  threshold_2 = 2;
  threshold_3 = 3;
}

-- Some formats, with numbers of their own.
abbrev spa : Spa
spa = record {
  unknown = 0;
  f32 = 10;
  s16 = 1 ∷ 2 ∷ [];
  u16 = 3 ∷ 4 ∷ [];
  four_bytes = 10 ∷ 11 ∷ [];
  f64 = 12 ∷ [];
  one_byte = 13 ∷ 14 ∷ [];
  from_short_name = length;
  toupper = λ c. c;
}

abbrev config : BenchConfig ℕ
config = record {
  rate = 48000;
  channels = 2;
  quantum = 1024;
  duration_sec = 30;
  format = 10;
  threshold_1 = 1;
  threshold_2 = 2;
  threshold_3 = 3;
}

accepted : validate_config spa config ≡ true
unfolding validate_config is_power_of_two bit_and format_sample_size
accepted = refl

record_all-Counted_example :
    (s : RtStats) × (record_all whole config (90000000 ∷ 0 ∷ []) (stats_alloc false config no_stats)
      ≡ some s)
    × Counted whole config (90000000 ∷ 0 ∷ []) s
record_all-Counted_example = record_all-Counted whole config (90000000 ∷ 0 ∷ []) (omega arith)

abbrev context : BenchContext ℕ
context = init_context whole spa false config

abbrev buffer : Buffer
buffer = record { data_null = false; maxsize = 8192; requested = 256 }

fill_buffer-fits_example :
    (ctx : BenchContext ℕ) × (c : Chunk) × (fill_buffer whole spa buffer context ≡ some ctx)
    × (ctx.given_back ≡ some c ∷ [])
    × (c.written ≤ c.size)
    × (c.size ≤ 8192)
unfolding init_context format_of format_sample_size stats_alloc
fill_buffer-fits_example =
    fill_buffer-fits whole spa buffer context (omega arith) (omega arith) (omega arith)
      (omega arith)

-- The same with samples of one byte, in a memory of four frames.
abbrev narrow : BenchContext ℕ
narrow = init_context whole spa false (record config { format = 13 })

fill_buffer-overruns_example :
    (ctx : BenchContext ℕ) × (c : Chunk) × (fill_buffer whole spa
        (record { data_null = false; maxsize = 8; requested = 0 })
        narrow
      ≡ some ctx)
    × (ctx.given_back ≡ some c ∷ [])
    × (c.written ≡ 32)
    × (8 < c.written)
unfolding init_context format_of format_sample_size stats_alloc
fill_buffer-overruns_example =
    fill_buffer-overruns whole spa (record { data_null = false; maxsize = 8; requested = 0 }) narrow
      3 refl (omega arith) (omega arith) refl refl

exit_status-errors_example :
    exit_status whole spa
      (stats_compute_percentiles (λ xs. xs) (on_stream_state_changed true context).stats)
    ≡ 1
unfolding run_loop on_event
exit_status-errors_example =
    exit_status-errors whole spa false config (λ xs. xs) (ticked ∷ state_changed true ∷ [])
      (on_stream_state_changed true context) refl (omega arith) (omega arith)

-- A server that cannot be reached, with errno at 0.
abbrev unreachable : Os Call Answer
unreachable t c = record { null = false; ret = negsuc 111; errno = 0; ns = 0; happened = [] }

-- A sort, to stand for qsort.
abbrev insert : ℕ → List ℕ → List ℕ
insert x [] = x ∷ []
insert x (y ∷ ys) = if leb x y then x ∷ y ∷ ys else y ∷ insert x ys

abbrev sort : List ℕ → List ℕ
sort [] = []
sort (x ∷ xs) = insert x (sort xs)

All-le : (x y : ℕ) (xs : List ℕ) → x ≤ y → All (λ z. y ≤ z) xs → All (λ z. x ≤ z) xs
All-le x y [] h a = tt
All-le x y (z ∷ zs) h a = (omega (arith, a.0), All-le x y zs h a.1)

All-insert : (z x : ℕ) (xs : List ℕ) → z ≤ x → All (λ y. z ≤ y) xs → All (λ y. z ≤ y) (insert x xs)
All-insert z x [] h a = (h, tt)
All-insert z x (y ∷ ys) h a = elim (Bool-cases (leb x y)) [
  | inl e ↦ rw e (h, a)
  | inr e ↦ rw e (a.0, All-insert z x ys h a.1)
]

insert-Ordered : (x : ℕ) (xs : List ℕ) → Ordered xs → Ordered (insert x xs)
insert-Ordered x [] o = (tt, tt)
insert-Ordered x (y ∷ ys) o = elim (Bool-cases (leb x y)) [
  | inl e ↦ rw e ((ground arith, All-le x y ys (ground arith) o.0), o)
  | inr e ↦ rw e (All-insert y x ys (ground arith) o.0, insert-Ordered x ys o.1)
]

sort-Ordered : (xs : List ℕ) → Ordered (sort xs)
sort-Ordered [] = tt
sort-Ordered (x ∷ xs) = insert-Ordered x (sort xs) (sort-Ordered xs)

count-insert : (f : ℕ → Bool) (x : ℕ) (xs : List ℕ) → count f (insert x xs) ≡ count f (x ∷ xs)
count-insert f x [] = refl
count-insert f x (y ∷ ys) = ground (arith, count-insert f x ys)

count-sort : (f : ℕ → Bool) (xs : List ℕ) → count f (sort xs) ≡ count f xs
count-sort f [] = refl
count-sort f (x ∷ xs) = ground (arith, count-insert f x (sort xs), count-sort f xs)

sort-Sorts : Sorts sort
sort-Sorts = record { ordered = sort-Ordered; kept = count-sort }

-- Three intervals that were stored, of room for four.
abbrev three : RtStats
three = record no_stats {
  raw_intervals = some (30 ∷ 10 ∷ 20 ∷ 0 ∷ []);
  raw_capacity = 4;
  raw_count = 3;
}

compute_percentiles_example :
    ((stats_compute_percentiles sort three).p95_ns ≤ (stats_compute_percentiles sort three).p99_ns)
    × (suc (index_of 95 (stored three))
        ≤ count
            (λ i. leb i (stats_compute_percentiles sort three).p95_ns)
            (take (stored three) (intervals three)))
    × (suc (index_of 99 (stored three))
        ≤ count
            (λ i. leb i (stats_compute_percentiles sort three).p99_ns)
            (take (stored three) (intervals three)))
compute_percentiles_example =
    compute_percentiles_lem sort sort-Sorts three (omega arith) (omega arith) (omega arith)
