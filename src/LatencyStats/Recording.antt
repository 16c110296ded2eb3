-- ===== src/LatencyStats/Recording.antt =====
-- src/LatencyStats.cpp: `recordLatency` writes within its arrays.
use metric_bench.Prelude.{ℕ, ◌<◌, ◌≡◌, refl, ap, ◌∙◌, some, List, [], ◌∷◌, arith, lt→ltb, ◌>>=◌}
use metric_bench.Prelude.Double.{Double}
use metric_bench.Prelude.Int.{ℤ, pos, negsuc, ◌≤ℤ◌}
use metric_bench.Message.{MessageType, index}
use metric_bench.LatencyStats.BucketLaws.{bucket_bound-latency_to_bucket}
use metric_bench.LatencyStats.State.{
  LatencyStats, init, record_latency, calc_means, get_max, max_optypes,
}
use metric_bench.LatencyStats.History.{Sample, count_type, longest, record_all, recorded}
use metric_bench.LatencyStats.Counting.{calc_means-record_all}

-- Every call has a thread below n, a type below `MAX_OPTYPES` and a latency that is not negative.
abbrev pub InRange : ℕ → List Sample → Type 0
InRange n [] = Unit {0}
InRange n (x ∷ xs) =
    (x.threadid < n) × (index x.type < max_optypes) × (pos 0 ≤ℤ x.us) × InRange n xs

module _ (d : Double) where
  pub record_latency-some :
      (l : LatencyStats d) (threadid : ℕ) (type : MessageType) (us : ℤ)
      → threadid < l.max_threads
      → index type < max_optypes
      → pos 0 ≤ℤ us
      → record_latency d l threadid type us ≡ some (recorded d l threadid type us)
  unfolding record_latency
  record_latency-some l threadid type (pos us) h k nonneg =
      let (b, e, lt, above, below) = bucket_bound-latency_to_bucket us in
      rw (e, lt→ltb b 128 lt, lt→ltb threadid l.max_threads h, lt→ltb (index type) max_optypes k)
        refl
  record_latency-some l threadid type (negsuc us) h k nonneg = absurd (omega arith)

  record_all-some :
      (n : ℕ) (xs : List Sample)
      → InRange n xs
      → (s : LatencyStats d) × (record_all d (init d n) xs ≡ some s) × (s.max_threads ≡ n)
  unfolding record_all init
  record_all-some n [] h = (init d n, refl, refl)
  record_all-some n (x ∷ xs) h =
      let (s, e, threads) = record_all-some n xs h.3 in
      (
        recorded d s x.threadid x.type x.us,
        ap (λ o. o >>= λ s'. record_latency d s' x.threadid x.type x.us) e
            ∙ record_latency-some s x.threadid x.type x.us (omega (arith, threads, h.0)) h.1 h.2,
        threads,
      )

-- Any history of calls of `recordLatency` with threads below n, types below `MAX_OPTYPES` and latencies
-- that are not negative writes within the arrays. Afterwards `calcMeans` counts for each such type exactly
-- the calls for it, over all threads, and `getMax` is the longest of their latencies (0 if there is none),
-- divided by 1000.
pub calc_means-recorded :
    (d : Double) (n : ℕ) (xs : List Sample) (i : ℕ)
    → InRange n xs
    → i < max_optypes
    → (s : LatencyStats d) × (record_all d (init d n) xs ≡ some s)
      × ((calc_means d s).sample_counts i ≡ count_type i xs)
      × (get_max d s i ≡ d.div (d.of_ℤ (longest i xs)) (d.of_ℤ (pos 1000)))
calc_means-recorded d n xs i h lt =
    let (s, e, threads) = record_all-some d n xs h in
    let (counts, maxima) = calc_means-record_all d n xs s i e lt in (s, e, counts, maxima)
