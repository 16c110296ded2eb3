-- ===== src/LatencyStats/State.antt =====
-- src/LatencyStats.hpp and src/LatencyStats.cpp: the object and its operations. A read or write past
-- the end of an array is `none`. Counters are natural numbers: an `int64_t` does not overflow here.
use metric_bench.Prelude.{
  ℕ, zero, suc, ◌+◌, ◌&&◌, Option, none, some, ltb, if◌then◌else◌, update, update2, ◌>>=◌,
  fold_below, sum_below,
}
use metric_bench.Prelude.Double.{Double}
use metric_bench.Prelude.Int.{ℤ, pos, negsuc, leb_ℤ, max_ℤ}
use metric_bench.Message.{MessageType, index, sizeof_message_type}
use metric_bench.RunningMean.{RunningMean, first_sample, add_sample, mean, samples}
use metric_bench.LatencyStats.Buckets.{latency_to_bucket, bucket_bound, MinMaxMs}

abbrev pub max_millis : ℕ
max_millis = 100

-- `MAX_OPTYPES`
abbrev pub max_optypes : ℕ
max_optypes = sizeof_message_type

-- `NUM_BUCKETS`
abbrev pub bucket_count : ℕ
bucket_count = 128

-- An index into an array of `n` elements.
abbrev pub checked_index : ℕ → ℤ → Option ℕ
checked_index n (pos i) = if ltb i n then some i else none
checked_index n (negsuc i) = none

-- the loop of `getBucketBounds`, from bucket `i` on, with the rounds that are left
unfoldable pub find_bucket : (ℕ → ℕ) → ℤ → (rounds i : ℕ) → ℤ
find_bucket ranks needed zero i = negsuc 0
find_bucket ranks needed (suc rounds) i =
    let later = find_bucket ranks needed rounds (i + 1) in
    if leb_ℤ needed (pos (ranks i)) then pos i else later

module _ (d : Double) where
  open d use {Carrier, of_ℤ, trunc, add, mul, div}

  -- `class LatencyStats`. Arrays are indexed by thread, then type, then bucket.
  pub record LatencyStats : Type 0 where
    pub max_threads : ℕ
    pub means : ℕ → ℕ → Option (RunningMean d)
    pub final_means : ℕ → Carrier
    pub bucket_counts : ℕ → ℕ → ℕ → ℕ
    pub max_latency : ℕ → ℕ → ℤ
    pub sample_counts : ℕ → ℕ
    pub bucket_counts_cumulative : ℕ → ℕ → ℕ

  -- the constructor
  unfoldable pub init : ℕ → LatencyStats
  init max_threads = record {
    max_threads = max_threads;
    means = λ _ _. none;
    final_means = λ _. of_ℤ (pos 0);
    bucket_counts = λ _ _ _. 0;
    max_latency = λ _ _. pos 0;
    sample_counts = λ _. 0;
    bucket_counts_cumulative = λ _ _. 0;
  }

  -- `recordLatency`'s update of one running mean
  abbrev pub record_mean : Option (RunningMean d) → Carrier → RunningMean d
  record_mean none time_ms = first_sample d time_ms
  record_mean (some m) time_ms = add_sample d m time_ms

  -- `recordLatency`. `opBuckets` is a `boost::multi_array` constructed from the sub-array, hence a copy
  -- of it: the increment goes to the copy, which is dropped.
  unfoldable pub record_latency : LatencyStats → ℕ → MessageType → ℤ → Option LatencyStats
  record_latency s threadid type microtimetaken = do
    let op_buckets = s.bucket_counts threadid (index type)
    bucket ← checked_index bucket_count (latency_to_bucket microtimetaken)
    let op_buckets' = update op_buckets bucket (op_buckets bucket + 1)
    let time_ms = div (of_ℤ microtimetaken) (of_ℤ (pos 1000))
    if ltb threadid s.max_threads && ltb (index type) max_optypes
        then some (record s {
          means =
              update2 s.means threadid (index type)
                (some (record_mean (s.means threadid (index type)) time_ms));
          max_latency =
              update2 s.max_latency threadid (index type)
                (max_ℤ (s.max_latency threadid (index type)) microtimetaken);
        })
        else none

  -- the number of samples of one thread's mean, if it has one
  abbrev pub samples_of : Option (RunningMean d) → ℕ
  samples_of none = 0
  samples_of (some m) = samples d m

  -- one round of the second loop of `calcMeans`
  abbrev pub add_weighted : ℕ → Option (RunningMean d) → Carrier → Carrier
  add_weighted total none acc = acc
  add_weighted total (some m) acc =
      add acc (mul (div (of_ℤ (pos (samples d m))) (of_ℤ (pos total))) (mean d m))

  -- `samples` in `calcMeans`
  unfoldable pub total_samples : LatencyStats → ℕ → ℕ
  total_samples s i = sum_below s.max_threads (λ thread. samples_of (s.means thread i))

  -- `calcMeans`
  unfoldable pub calc_means : LatencyStats → LatencyStats
  unfolding total_samples
  calc_means s = record s {
    sample_counts = λ i. if ltb i max_optypes then total_samples s i else s.sample_counts i;
    final_means = λ i.
        if ltb i max_optypes
        then fold_below s.max_threads
            (λ thread. add_weighted (total_samples s i) (s.means thread i)) (of_ℤ (pos 0))
        else s.final_means i;
  }

  -- `count` in `calcCumulativeBuckets` after the given bucket
  unfoldable pub count_through : LatencyStats → ℕ → ℕ → ℕ
  count_through s type zero = sum_below s.max_threads (λ thread. s.bucket_counts thread type zero)
  count_through s type (suc bucket) =
      count_through s type bucket
      + sum_below s.max_threads (λ thread. s.bucket_counts thread type (suc bucket))

  -- `calcCumulativeBuckets`
  unfoldable pub calc_cumulative_buckets : LatencyStats → LatencyStats
  calc_cumulative_buckets s = record s {
    bucket_counts_cumulative = λ type bucket.
        if ltb type max_optypes && ltb bucket bucket_count then count_through s type bucket else 0;
  }

  -- `neededRank` in `getBucketBounds`
  unfoldable pub needed_rank : ℕ → ℕ → ℤ
  needed_rank percentile n =
      trunc (mul (div (of_ℤ (pos percentile)) (of_ℤ (pos 100))) (of_ℤ (pos n)))

  -- `getBucketBounds`
  unfoldable pub get_bucket_bounds : LatencyStats → ℕ → ℕ → MinMaxMs
  unfolding needed_rank find_bucket
  get_bucket_bounds s type percentile = bucket_bound (
      find_bucket (s.bucket_counts_cumulative type) (needed_rank percentile (s.sample_counts type))
        bucket_count 0)

  -- `getMean`
  unfoldable pub get_mean : LatencyStats → ℕ → Carrier
  get_mean s type = s.final_means type

  -- `max_us` in `getMax`
  unfoldable pub max_us : LatencyStats → ℕ → ℤ
  max_us s type =
      fold_below s.max_threads (λ thread acc. max_ℤ acc (s.max_latency thread type)) (pos 0)

  -- `getMax`
  unfoldable pub get_max : LatencyStats → ℕ → Carrier
  unfolding max_us
  get_max s type = div (of_ℤ (max_us s type)) (of_ℤ (pos 1000))
