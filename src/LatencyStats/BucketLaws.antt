-- ===== src/LatencyStats/BucketLaws.antt =====
-- The buckets cover the latencies without gap or overlap.
use metric_bench.Prelude.{
  ℕ, suc, ◌+◌, ◌-◌, ◌*◌, ◌/◌, ◌≤◌, ◌<◌, ◌≡◌, ap, sym, ◌∙◌, refl, arith, ◌==◌ as nat_beq, false,
  passes_below, passes_below_sound, and_parts, Bool, true, ◌&&◌, ltb, if◌then◌else◌,
}
use metric_bench.Prelude.Int.{◌<ℤ◌, eq_of_eqb_ℤ, pos, eqb_ℤ, ◌≤ℤ◌}
use metric_bench.LatencyStats.Buckets.{latency_to_bucket, bucket_bound}

-- The same over the natural numbers.
abbrev pub bucket_of : ℕ → ℕ
bucket_of n =
    if ltb n 1000
    then n / 100
    else if ltb n 100000
    then 9 + n / 1000
    else if ltb n 1000000
    then 108 + n / 100000
    else if ltb n 10000000
    then 117 + n / 1000000
    else 127

abbrev pub lower : ℕ → ℕ
lower b =
    if ltb b 10
    then b * 100
    else if ltb b 109
    then (b - 9) * 1000
    else if ltb b 118
    then (b - 108) * 100000
    else if ltb b 127
    then (b - 117) * 1000000
    else 10000000

abbrev pub upper : ℕ → ℕ
upper b =
    if ltb b 10
    then (b + 1) * 100
    else if ltb b 109
    then (b - 8) * 1000
    else if ltb b 118
    then (b - 107) * 100000
    else if ltb b 127
    then (b - 116) * 1000000
    else 100000000

sub_ms_bucket : (n : ℕ) → n < 1000 → latency_to_bucket (pos n) ≡ pos (n / 100)
unfolding latency_to_bucket
sub_ms_bucket n h = ground arith

ms_bucket : (n : ℕ) → 1000 ≤ n → n < 100000 → latency_to_bucket (pos n) ≡ pos (9 + n / 1000)
unfolding latency_to_bucket
ms_bucket n h h' = ground arith

hundredms_bucket :
    (n : ℕ) → 100000 ≤ n → n < 1000000 → latency_to_bucket (pos n) ≡ pos (108 + n / 100000)
unfolding latency_to_bucket
hundredms_bucket n h h' = ground arith

sec_bucket :
    (n : ℕ) → 1000000 ≤ n → n < 10000000 → latency_to_bucket (pos n) ≡ pos (117 + n / 1000000)
unfolding latency_to_bucket
sec_bucket n h h' = ground arith

last_bucket : (n : ℕ) → 10000000 ≤ n → latency_to_bucket (pos n) ≡ pos 127
unfolding latency_to_bucket
last_bucket n h = rw (
  not_zero,
  above 100 (omega arith),
  above 1000 (omega arith),
  above 10000 (omega arith),
  latency_to_bucket,
)
  where
    not_zero : nat_beq (n / 1000 + 0) 0 ≡ false
    not_zero = ground arith

    above : (k : ℕ) → k ≤ 10000 → ltb (n / 1000 + 0) k ≡ false
    above k p = ground arith

pub latency_to_bucket-bucket_of : (n : ℕ) → latency_to_bucket (pos n) ≡ pos (bucket_of n)
latency_to_bucket-bucket_of n =
    ground (arith, sub_ms_bucket n, ms_bucket n, hundredms_bucket n, sec_bucket n, last_bucket n)

-- Over the 128 buckets the bounds are compared by evaluation.
bounds_agree : ℕ → Bool
bounds_agree b =
    eqb_ℤ (bucket_bound (pos b)).lo (pos (lower b))
    && eqb_ℤ (bucket_bound (pos b)).hi (pos (upper b))

bounds_agree_parts :
    (b : ℕ)
    → bounds_agree b ≡ true
    → (eqb_ℤ (bucket_bound (pos b)).lo (pos (lower b)) ≡ true)
      × (eqb_ℤ (bucket_bound (pos b)).hi (pos (upper b)) ≡ true)
unfolding bounds_agree
bounds_agree_parts b h = and_parts h

bounds_table : passes_below bounds_agree 128 ≡ true
unfolding passes_below bounds_agree bucket_bound
bounds_table = refl

pub bucket_bound-lower-upper :
    (b : ℕ)
    → b < 128
    → ((bucket_bound (pos b)).lo ≡ pos (lower b)) × ((bucket_bound (pos b)).hi ≡ pos (upper b))
bucket_bound-lower-upper b h = (eq_of_eqb_ℤ _ _ both.0, eq_of_eqb_ℤ _ _ both.1)
  where
    both :
        (eqb_ℤ (bucket_bound (pos b)).lo (pos (lower b)) ≡ true)
        × (eqb_ℤ (bucket_bound (pos b)).hi (pos (upper b)) ≡ true)
    both = bounds_agree_parts b (passes_below_sound bounds_agree 128 bounds_table b h)

-- A latency of n microseconds gets a bucket from 0 to 127, and below 100 s it lies within that
-- bucket's bounds, the lower one included and the upper one excluded.
pub bucket_bound-latency_to_bucket :
    (n : ℕ)
    → (b : ℕ) × (latency_to_bucket (pos n) ≡ pos b)
      × (b < 128)
      × ((bucket_bound (pos b)).lo ≤ℤ pos n)
      × (n < 100000000 → pos n <ℤ (bucket_bound (pos b)).hi)
bucket_bound-latency_to_bucket n = (
  bucket_of n,
  latency_to_bucket-bucket_of n,
  in_range,
  rw (bounds.0) (ground arith),
  λ h. rw (bounds.1) (ground arith),
)
  where
    in_range : bucket_of n < 128
    in_range = ground arith

    bounds :
        ((bucket_bound (pos (bucket_of n))).lo ≡ pos (lower (bucket_of n)))
        × ((bucket_bound (pos (bucket_of n))).hi ≡ pos (upper (bucket_of n)))
    bounds = bucket_bound-lower-upper (bucket_of n) in_range

-- The buckets lie end to end: each of the first 127 ends where the next one begins, the first
-- begins at 0 and the last ends at 100 s.
pub bucket_bound_adjacent :
    (b : ℕ)
    → b < 127
    → ((bucket_bound (pos b)).hi ≡ (bucket_bound (pos (suc b))).lo)
      × ((bucket_bound (pos 0)).lo ≡ pos 0)
      × ((bucket_bound (pos 127)).hi ≡ pos 100000000)
unfolding bucket_bound
bucket_bound_adjacent b h = (
  (bucket_bound-lower-upper b (omega arith)).1
      ∙ ap pos (ground arith)
      ∙ sym (bucket_bound-lower-upper (suc b) (omega arith)).0,
  refl,
  refl,
)

-- A longer latency never gets an earlier bucket.
pub latency_to_bucket_mono :
    (m n : ℕ) → m ≤ n → latency_to_bucket (pos m) ≤ℤ latency_to_bucket (pos n)
latency_to_bucket_mono m n h =
    rw (latency_to_bucket-bucket_of m, latency_to_bucket-bucket_of n) (ground arith)
