-- ===== src/Metrics/Collisions.antt =====
-- src/CassandraDriver.cpp: `timestamp*1000` is an `unsigned int`, so it wraps.
use native.Mathlib.Nat.{mul-add-mod_self_right}
use metric_bench.Prelude.{ℕ, ◌+◌, ◌*◌, ◌^◌, ◌%◌, ◌≤◌, ◌≡◌, ◌≢◌, ap, false, List, [], ◌∙◌, arith}
use metric_bench.Prelude.Double.{Double}
use metric_bench.Preparer.{u32}
use metric_bench.Metrics.{Draw, metrics_loop, cassandra_rows}

abbrev pub millis : ℕ → ℕ
millis ts = u32 (ts * 1000)

millis_periodic : (ts : ℕ) → millis (ts + 2 ^ 29) ≡ millis ts
millis_periodic ts =
    ap (λ n. n % 2 ^ 32) (omega arith) ∙ mul-add-mod_self_right 125 (2 ^ 32) (ts * 1000)

-- From the timestamp 4294968 (in February 1970) on `timestamp*1000` is not the number of
-- milliseconds, and two timestamps 2 ^ 29 apart give the same rows from the same draws, so that
-- the later one overwrites what the earlier one has written under their primary keys.
pub cassandra_rows_collide :
    (d : Double) (ts device_id metrics_cnt : ℕ) (draws : List (Draw d))
    → 4294968 ≤ ts
    → (millis ts ≢ ts * 1000)
      × (cassandra_rows d (ts + 2 ^ 29) device_id metrics_cnt draws
          ≡ cassandra_rows d ts device_id metrics_cnt draws)
unfolding cassandra_rows
cassandra_rows_collide d ts device_id metrics_cnt draws late = (
  omega arith,
  ap (λ t. metrics_loop d (λ _. false) t device_id metrics_cnt draws []) (millis_periodic ts),
)
