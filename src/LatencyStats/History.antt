-- ===== src/LatencyStats/History.antt =====
-- Histories of recorded latencies.
use metric_bench.Prelude.{
  ℕ, ◌+◌, ◌≡◌, Option, none, some, List, [], ◌∷◌, ◌==◌, ltb, if◌then◌else◌, inversion, Bool-cases,
  inl, inr, ◌&&◌, ◌>>=◌, arith, ◌<◌, update2,
}
use metric_bench.LatencyStats.Buckets.{latency_to_bucket}
use metric_bench.Prelude.Double.{Double}
use metric_bench.Prelude.Int.{ℤ, pos, max_ℤ}
use metric_bench.Message.{MessageType, index}
use metric_bench.LatencyStats.State.{
  bucket_count, max_optypes, checked_index, record_mean, LatencyStats, record_latency,
}

-- One call of `recordLatency`.
pub record Sample : Type 0 where
  pub threadid : ℕ
  pub type : MessageType
  pub us : ℤ

-- The samples of one type, counted, and the longest of them, 0 included.
abbrev pub count_type : ℕ → List Sample → ℕ
count_type i [] = 0
count_type i (x ∷ xs) = count_type i xs + (if index x.type == i then 1 else 0)

abbrev pub longest : ℕ → List Sample → ℤ
longest i [] = pos 0
longest i (x ∷ xs) = if index x.type == i then max_ℤ (longest i xs) x.us else longest i xs

module _ (d : Double) where
  -- The calls in their order: the last sample of the list is recorded first.
  unfoldable pub record_all : LatencyStats d → List Sample → Option (LatencyStats d)
  record_all s [] = some s
  record_all s (x ∷ xs) = record_all s xs >>= λ s'. record_latency d s' x.threadid x.type x.us

  abbrev pub recorded : LatencyStats d → ℕ → MessageType → ℤ → LatencyStats d
  recorded s t type us = record s {
    means =
        update2 s.means t (index type)
          (some (record_mean d (s.means t (index type)) (d.div (d.of_ℤ us) (d.of_ℤ (pos 1000)))));
    max_latency = update2 s.max_latency t (index type) (max_ℤ (s.max_latency t (index type)) us);
  }

  -- A call that succeeds had its indices in range, and this is the state that it leaves.
  pub record_latency-eq_some :
      (s s' : LatencyStats d) (t : ℕ) (type : MessageType) (us : ℤ)
      → record_latency d s t type us ≡ some s'
      → (t < s.max_threads) × (index type < max_optypes) × (s' ≡ recorded s t type us)
  unfolding record_latency
  record_latency-eq_some s s' t type us h =
      let (b, e, h') = inversion (checked_index bucket_count (latency_to_bucket us)) _ h in
      elim (Bool-cases (ltb t s.max_threads && ltb (index type) max_optypes)) [
        | inl g ↦
            let h'' : some (recorded s t type us) ≡ some s' = rw g at h' in
            (ground arith, ground arith, cc)
        | inr g ↦ let h'' : none ≡ some s' = rw g at h' in cc
      ]
