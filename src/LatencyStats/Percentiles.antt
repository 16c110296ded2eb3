-- ===== src/LatencyStats/Percentiles.antt =====
-- What `getBucketBounds` picks after a history of recorded latencies.
use metric_bench.Prelude.{
  ℕ, zero, suc, ◌+◌, ◌<◌, ◌≡◌, fun_ext, Bool, true, false, refl, ap, ◌∙◌, some, List, if◌then◌else◌,
  arith, sum_below, sum_below-zero, lt→ltb,
}
use metric_bench.Prelude.Double.{Double}
use metric_bench.Prelude.Int.{ℤ, pos, negsuc, leb_ℤ}
use metric_bench.LatencyStats.Buckets.{bucket_bound}
use metric_bench.LatencyStats.State.{
  LatencyStats, init, max_optypes, bucket_count, calc_means, calc_cumulative_buckets, count_through,
  needed_rank, find_bucket, get_bucket_bounds,
}
use metric_bench.LatencyStats.History.{Sample, count_type, record_all}
use metric_bench.LatencyStats.Counting.{record_all-Facts}

find_bucket-none :
    (needed : ℤ) (rounds i : ℕ)
    → find_bucket (λ _. 0) needed (suc rounds) i
      ≡ (if leb_ℤ needed (pos 0) then pos i else negsuc 0)
unfolding find_bucket
find_bucket-none needed zero i = refl
find_bucket-none needed (suc rounds) i = ground (arith, find_bucket-none needed rounds (i + 1))

first_or_none :
    (b : Bool)
    → bucket_bound (if b then pos 0 else negsuc 0)
      ≡ (if b then record { lo = pos 0; hi = pos 100 } else record { lo = negsuc 99; hi = pos 0 })
unfolding bucket_bound
first_or_none true = refl
first_or_none false = refl

get_bucket_bounds-empty :
    (d : Double) (s : LatencyStats d) (type p n : ℕ)
    → s.bucket_counts_cumulative type ≡ (λ _. 0)
    → s.sample_counts type ≡ n
    → get_bucket_bounds d s type p ≡ (
        if leb_ℤ (needed_rank d p n) (pos 0)
        then record { lo = pos 0; hi = pos 100 }
        else record { lo = negsuc 99; hi = pos 0 })
unfolding get_bucket_bounds
get_bucket_bounds-empty d s type p n ranks counts =
    ap bucket_bound (
      (λ i. find_bucket (ranks i) (needed_rank d p (counts i)) bucket_count 0)
      ∙ find_bucket-none (needed_rank d p n) 127 0)
    ∙ first_or_none (leb_ℤ (needed_rank d p n) (pos 0))

count_through-zero :
    (d : Double) (s : LatencyStats d) (type b : ℕ)
    → s.bucket_counts ≡ (λ _ _ _. 0)
    → count_through d s type b ≡ 0
unfolding count_through
count_through-zero d s type zero h =
    (λ i. sum_below s.max_threads (λ t. h i t type 0)) ∙ sum_below-zero s.max_threads
count_through-zero d s type (suc b) h = omega (
  arith,
  count_through-zero d s type b h,
  (λ i. sum_below s.max_threads (λ t. h i t type (suc b))) ∙ sum_below-zero s.max_threads,
)

-- After any history of calls of `recordLatency`, `getBucketBounds` of a type below `MAX_OPTYPES` does not
-- depend on the recorded latencies: it is [0, 100) where the needed rank is 0 or less, and the bounds of
-- the bucket -1, from -100 to 0, otherwise.
pub get_bucket_bounds-record_all :
    (d : Double) (n : ℕ) (xs : List Sample) (s : LatencyStats d) (type p : ℕ)
    → record_all d (init d n) xs ≡ some s
    → type < max_optypes
    → get_bucket_bounds d (calc_cumulative_buckets d (calc_means d s)) type p ≡ (
        if leb_ℤ (needed_rank d p (count_type type xs)) (pos 0)
        then record { lo = pos 0; hi = pos 100 }
        else record { lo = negsuc 99; hi = pos 0 })
unfolding calc_cumulative_buckets calc_means
get_bucket_bounds-record_all d n xs s type p h lt =
    let (_, buckets, counts, _) = record_all-Facts d n xs s h in
    get_bucket_bounds-empty d (calc_cumulative_buckets d (calc_means d s)) type p
      (count_type type xs)
      (fun_ext λ b. ground (arith, count_through-zero d (calc_means d s) type b buckets))
      (rw (lt→ltb type max_optypes lt) (counts type))
