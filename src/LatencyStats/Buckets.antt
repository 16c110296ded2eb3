-- ===== src/LatencyStats/Buckets.antt =====
-- src/LatencyStats.hpp and src/LatencyStats.cpp: the buckets of latencies.
use metric_bench.Prelude.{if◌then◌else◌}
use metric_bench.Prelude.Int.{ℤ, pos, ◌+ℤ◌, ◌-ℤ◌, ◌*ℤ◌, ltb_ℤ, eqb_ℤ, quot, int32}

-- 0.1ms-, 1ms-, 100ms- and 1s-granularity buckets, and one for the rest.
abbrev pub sub_ms_buckets : ℤ
sub_ms_buckets = pos 10

abbrev pub ms_buckets : ℤ
ms_buckets = pos 99

abbrev pub hundredms_buckets : ℤ
hundredms_buckets = pos 9

abbrev pub sec_buckets : ℤ
sec_buckets = pos 9

unfoldable pub num_buckets : ℤ
unfolding ◌+ℤ◌
num_buckets = sub_ms_buckets +ℤ ms_buckets +ℤ hundredms_buckets +ℤ sec_buckets +ℤ pos 1

-- `latencyToBucket`
unfoldable pub latency_to_bucket : ℤ → ℤ
unfolding num_buckets ◌+ℤ◌ ◌-ℤ◌
latency_to_bucket micro_time =
    let ms_time = quot micro_time 1000 in
    if eqb_ℤ ms_time (pos 0)
    then int32 (quot micro_time 100)
    else if ltb_ℤ ms_time (pos 100)
    then sub_ms_buckets +ℤ (int32 ms_time -ℤ pos 1)
    else if ltb_ℤ ms_time (pos 1000)
    then sub_ms_buckets +ℤ ms_buckets +ℤ (int32 (quot ms_time 100) -ℤ pos 1)
    else if ltb_ℤ ms_time (pos 10000)
    then sub_ms_buckets +ℤ ms_buckets +ℤ hundredms_buckets +ℤ (int32 (quot ms_time 1000) -ℤ pos 1)
    else num_buckets -ℤ pos 1

-- `MinMaxMS`
pub record MinMaxMs : Type 0 where
  pub lo : ℤ
  pub hi : ℤ

-- `bucketBound`. The third offset subtracts `sec_buckets`, as the source does.
unfoldable pub bucket_bound : ℤ → MinMaxMs
unfolding ◌+ℤ◌ ◌-ℤ◌ ◌*ℤ◌
bucket_bound bucket =
    let ms : ℤ = pos 1000 in
    let s = ms *ℤ pos 1000 in
    let hundred_ms = bucket -ℤ sub_ms_buckets -ℤ ms_buckets +ℤ pos 1 in
    let sec_bucket = bucket -ℤ sub_ms_buckets -ℤ ms_buckets -ℤ sec_buckets +ℤ pos 1 in
    if ltb_ℤ bucket sub_ms_buckets
    then record { lo = bucket *ℤ pos 100; hi = (bucket +ℤ pos 1) *ℤ pos 100 }
    else if ltb_ℤ bucket (sub_ms_buckets +ℤ ms_buckets)
    then record {
      lo = (bucket -ℤ sub_ms_buckets +ℤ pos 1) *ℤ ms;
      hi = (bucket -ℤ sub_ms_buckets +ℤ pos 2) *ℤ ms;
    }
    else if ltb_ℤ bucket (sub_ms_buckets +ℤ ms_buckets +ℤ hundredms_buckets)
    then record { lo = hundred_ms *ℤ pos 100 *ℤ ms; hi = (hundred_ms +ℤ pos 1) *ℤ pos 100 *ℤ ms }
    else if ltb_ℤ bucket (sub_ms_buckets +ℤ ms_buckets +ℤ hundredms_buckets +ℤ sec_buckets)
    then record { lo = sec_bucket *ℤ s; hi = (sec_bucket +ℤ pos 1) *ℤ s }
    else record { lo = (sec_buckets +ℤ pos 1) *ℤ s; hi = pos 100 *ℤ s }
