-- ===== src/LatencyStats/Counting.antt =====
-- What the counters and maxima hold after a history of recorded latencies.
use metric_bench.Prelude.{
  ℕ, zero, suc, ◌+◌, ◌<◌, ◌≡◌, ◌≢◌, refl, ap, sym, ◌∙◌, Option, none, some, List, [], ◌∷◌, ◌==◌,
  if◌then◌else◌, arith, fold_below, sum_below_step, sum_below-zero, ℕ_discrete, subst, inversion,
  lt→ltb, ==_iff, ==_ne,
}
use metric_bench.Prelude.Double.{Double}
use metric_bench.Prelude.Int.{ℤ, pos, max_ℤ, max_ℤ_assoc, max_ℤ_swap}
use metric_bench.RunningMean.{RunningMean, samples, first_sample, add_sample}
use metric_bench.Message.{MessageType, index}
use metric_bench.LatencyStats.State.{
  LatencyStats, init, max_optypes, samples_of, record_mean, total_samples, max_us, calc_means,
  get_max,
}
use metric_bench.LatencyStats.History.{
  Sample, count_type, longest, record_all, recorded, record_latency-eq_some,
}

-- The maximum over all indices, where one entry is raised to at least u.
abbrev max_below : ℕ → (ℕ → ℤ) → ℤ
max_below n f = fold_below n (λ i acc. max_ℤ acc (f i)) (pos 0)

max_below-ext :
    (n : ℕ) (f g : ℕ → ℤ) → ((i : ℕ) → i < n → g i ≡ f i) → max_below n g ≡ max_below n f
unfolding fold_below
max_below-ext zero f g h = refl
max_below-ext (suc n) f g h = rw (h n (omega arith), max_below-ext n f g (λ i p. h i (omega arith)))

max_below_step :
    (n t : ℕ) (u : ℤ) (f g : ℕ → ℤ)
    → t < n
    → ((i : ℕ) → i ≢ t → g i ≡ f i)
    → g t ≡ max_ℤ (f t) u
    → max_below n g ≡ max_ℤ (max_below n f) u
unfolding fold_below
max_below_step zero t u f g h same e = absurd (omega arith)
max_below_step (suc n) t u f g h same e = elim (ℕ_discrete t n) [
  | yes p ↦
      rw
        (
          subst (λ j. g j ≡ max_ℤ (f j) u) p e,
          max_below-ext n f g (λ i q. same i (λ r. omega arith)),
        )
        (sym (max_ℤ_assoc (max_below n f) (f n) u))
  | no p ↦
      rw (same n (λ r. p (sym r)), max_below_step n t u f g (omega arith) same e)
        (max_ℤ_swap (max_below n f) u (f n))
]

max_below-zero : (n : ℕ) → max_below n (λ _. pos 0) ≡ pos 0
unfolding fold_below
max_below-zero zero = refl
max_below-zero (suc n) = rw (max_below-zero n)

module _ (d : Double) where
  samples-record_mean :
      (m : Option (RunningMean d)) (x : d.Carrier)
      → samples d (record_mean d m x) ≡ samples_of d m + 1
  unfolding samples first_sample add_sample
  samples-record_mean none x = refl
  samples-record_mean (some m) x = refl

  total_samples-recorded :
      (s : LatencyStats d) (t i : ℕ) (type : MessageType) (us : ℤ)
      → t < s.max_threads
      → total_samples d (recorded d s t type us) i
        ≡ total_samples d s i + (if index type == i then 1 else 0)
  unfolding total_samples
  total_samples-recorded s t i type us h =
      sum_below_step s.max_threads t (if index type == i then 1 else 0)
        (λ thread. samples_of d (s.means thread i)) _ h (λ j q. ground arith)
        (ground (
          arith,
          samples-record_mean (s.means t (index type)) (d.div (d.of_ℤ us) (d.of_ℤ (pos 1000))),
        ))

  max_us-recorded :
      (s : LatencyStats d) (t i : ℕ) (type : MessageType) (us : ℤ)
      → t < s.max_threads
      → max_us d (recorded d s t type us) i
        ≡ (if index type == i then max_ℤ (max_us d s i) us else max_us d s i)
  unfolding max_us
  max_us-recorded s t i type us h = elim (ℕ_discrete (index type) i) [
    | yes p ↦ rw ((==_iff (index type) i).1 p) (
        max_below_step s.max_threads t us (λ thread. s.max_latency thread i) _ h
          (λ j q. ground arith) (ground arith))
    | no p ↦
        rw (==_ne p)
          (max_below-ext s.max_threads (λ thread. s.max_latency thread i) _ (λ j q. ground arith))
  ]

  -- After any history: the threads, the buckets, the counts and the maxima.
  abbrev pub Facts : ℕ → List Sample → LatencyStats d → Type 0
  Facts n xs s =
      (s.max_threads ≡ n)
      × (s.bucket_counts ≡ λ _ _ _. 0)
      × ((i : ℕ) → total_samples d s i ≡ count_type i xs)
      × ((i : ℕ) → max_us d s i ≡ longest i xs)

  init-Facts : (n : ℕ) → Facts n [] (init d n)
  unfolding init total_samples max_us
  init-Facts n = (refl, refl, λ i. sum_below-zero n, λ i. max_below-zero n)

  recorded-Facts :
      (n : ℕ) (x : Sample) (xs : List Sample) (s : LatencyStats d)
      → x.threadid < s.max_threads
      → Facts n xs s
      → Facts n (x ∷ xs) (recorded d s x.threadid x.type x.us)
  recorded-Facts n x xs s h (threads, buckets, counts, maxima) = (
    threads,
    buckets,
    λ i.
        total_samples-recorded s x.threadid i x.type x.us h
        ∙ ap (λ k. k + (if index x.type == i then 1 else 0)) (counts i),
    λ i.
        max_us-recorded s x.threadid i x.type x.us h
        ∙ ap (λ (m : ℤ). if index x.type == i then max_ℤ m x.us else m) (maxima i),
  )

  pub record_all-Facts :
      (n : ℕ) (xs : List Sample) (s : LatencyStats d)
      → record_all d (init d n) xs ≡ some s
      → Facts n xs s
  unfolding record_all
  record_all-Facts n [] s h = subst (Facts n []) (cc) (init-Facts n)
  record_all-Facts n (x ∷ xs) s h =
      let (s', e, h') = inversion (record_all d (init d n) xs) _ h in
      let (in_range, _, after) = record_latency-eq_some d s' s x.threadid x.type x.us h' in
      subst (Facts n (x ∷ xs)) (sym after)
        (recorded-Facts n x xs s' in_range (record_all-Facts n xs s' e))

-- After any history of calls of `recordLatency` that all had their indices in range, `calcMeans`
-- counts for each type below `MAX_OPTYPES` exactly the calls for it, over all threads, and `getMax`
-- is the longest of their latencies (0 if there is none), divided by 1000.
pub calc_means-record_all :
    (d : Double) (n : ℕ) (xs : List Sample) (s : LatencyStats d) (i : ℕ)
    → record_all d (init d n) xs ≡ some s
    → i < max_optypes
    → ((calc_means d s).sample_counts i ≡ count_type i xs)
      × (get_max d s i ≡ d.div (d.of_ℤ (longest i xs)) (d.of_ℤ (pos 1000)))
unfolding calc_means get_max
calc_means-record_all d n xs s i h lt =
    let (_, _, counts, maxima) = record_all-Facts d n xs s h in
    (rw (lt→ltb i max_optypes lt) (counts i), rw (maxima i, get_max))
