-- ===== src/LatencyStats/Examples.antt =====
-- The theorems on latency statistics at concrete inputs, and tests.
use metric_bench.Prelude.{ℕ, ◌<◌, ◌≡◌, refl, some, none, [], ◌∷◌, arith, List}
use metric_bench.Prelude.Double.{integers}
use metric_bench.Prelude.Int.{pos, negsuc, ◌≤ℤ◌, ◌<ℤ◌, ◌*ℤ◌}
use metric_bench.Message.{insert_metric, delete_device, select_k1}
use metric_bench.LatencyStats.Buckets.{latency_to_bucket, bucket_bound, num_buckets}
use metric_bench.LatencyStats.BucketLaws.{bucket_bound-latency_to_bucket}
use metric_bench.LatencyStats.State.{
  LatencyStats, init, calc_means, calc_cumulative_buckets, needed_rank, get_max, get_bucket_bounds,
  record_latency, bucket_count,
}
use metric_bench.LatencyStats.History.{recorded, Sample, record_all}
use metric_bench.LatencyStats.Recording.{calc_means-recorded}
use metric_bench.LatencyStats.Percentiles.{get_bucket_bounds-record_all}

num_buckets_value : num_buckets ≡ pos bucket_count
unfolding num_buckets
num_buckets_value = refl

bucket_bound-latency_to_bucket_example :
    (b : ℕ) × (latency_to_bucket (pos 2500) ≡ pos b)
    × (b < 128)
    × ((bucket_bound (pos b)).lo ≤ℤ pos 2500)
    × (2500 < 100000000 → pos 2500 <ℤ (bucket_bound (pos b)).hi)
bucket_bound-latency_to_bucket_example = bucket_bound-latency_to_bucket 2500

-- Two threads; the last sample comes first.
abbrev samples : List Sample
samples =
    record { threadid = 1; type = insert_metric; us = pos 7200 }
    ∷ record { threadid = 0; type = delete_device; us = pos 300 }
    ∷ record { threadid = 0; type = insert_metric; us = pos 2500 }
    ∷ []

abbrev after_samples : LatencyStats integers
after_samples =
    recorded integers
      (recorded integers (recorded integers (init integers 2) 0 insert_metric (pos 2500)) 0
        delete_device (pos 300))
      1 insert_metric (pos 7200)

after_samples_lem : record_all integers (init integers 2) samples ≡ some after_samples
unfolding record_all record_latency latency_to_bucket init
after_samples_lem = refl

calc_means-recorded_example :
    (s : LatencyStats integers) × (record_all integers (init integers 2) samples ≡ some s)
    × ((calc_means integers s).sample_counts 2 ≡ 2)
    × (get_max integers s 2 ≡ integers.div (pos 7200) (pos 1000))
calc_means-recorded_example =
    calc_means-recorded integers 2 samples 2
      (
        omega arith,
        omega arith,
        omega arith,
        (omega arith, omega arith, omega arith, (omega arith, omega arith, omega arith, tt)),
      )
      (omega arith)

get_bucket_bounds-record_all_example :
    get_bucket_bounds integers
      (calc_cumulative_buckets integers (calc_means integers after_samples))
      2
      100
    ≡ record { lo = negsuc 99; hi = pos 0 }
unfolding needed_rank ◌*ℤ◌
get_bucket_bounds-record_all_example =
    get_bucket_bounds-record_all integers 2 samples after_samples 2 100 after_samples_lem
      (omega arith)

-- `Select_K1` is past the end of the arrays.
select_k1_out_of_range : record_latency integers after_samples 0 select_k1 (pos 2500) ≡ none
unfolding record_latency latency_to_bucket init
select_k1_out_of_range = refl
