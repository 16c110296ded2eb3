-- ===== src/Metrics.antt =====
-- The metrics loop of `InsertQuery` in src/MySQLDriver.cpp, src/MongoDBDriver.cpp and
-- src/CassandraDriver.cpp: rows for metrics that differ, drawn at random.
pub mod Fresh
pub mod Complete
pub mod Collisions
pub mod Recorded
pub mod Examples
use metric_bench.Prelude.{
  ℕ, zero, suc, ◌+◌, ◌*◌, Bool, true, false, ◌||◌, Option, none, some, List, [], ◌∷◌, ◌++◌, leb,
  if◌then◌else◌, length,
}
use metric_bench.Prelude.Double.{Double}
use metric_bench.Prelude.Int.{ℤ, pos, eqb_ℤ, ltb_ℤ}
use metric_bench.Config.{max_metrics}
use metric_bench.Preparer.{u32}

-- whether the set holds a metric
abbrev pub has : ℤ → List ℤ → Bool
has x [] = false
has x (y ∷ ys) = eqb_ℤ x y || has x ys

-- `mc < 1` or `mc > Config::MaxMetrics`, in MySQLDriver only
abbrev pub out_of_range : ℤ → Bool
out_of_range mc = ltb_ℤ mc (pos 1) || ltb_ℤ (pos max_metrics) mc

module _ (d : Double) where
  -- One round's draws: the metric and, where it is taken, the value and the count.
  pub record Draw : Type 0 where
    pub metric : ℤ
    pub value : d.Carrier
    pub cnt : ℤ

  pub record Row : Type 0 where
    pub ts : ℕ
    pub device_id : ℕ
    pub metric_id : ℤ
    pub cnt : ℤ
    pub val : d.Carrier

  -- `(v < 0.5 ? 0 : v)`
  abbrev pub rounded_off : d.Carrier → d.Carrier
  rounded_off v = if d.lt v (d.literal 5 1) then d.of_ℤ (pos 0) else v

  abbrev pub row : (ts device_id : ℕ) → Draw → Row
  row ts device_id x = record {
    ts = ts;
    device_id = device_id;
    metric_id = x.metric;
    cnt = x.cnt;
    val = rounded_off x.value;
  }

  -- the metrics of the rows, which are the elements of the set `s`
  abbrev pub ids : List Row → List ℤ
  ids [] = []
  ids (r ∷ rows) = r.metric_id ∷ ids rows

  -- a round: a metric that is skipped or already there adds no row
  abbrev pub next_rows : (skips : ℤ → Bool) → (ts device_id : ℕ) → Draw → List Row → List Row
  next_rows skips ts device_id x rows =
      if skips x.metric || has x.metric (ids rows) then rows else rows ++ row ts device_id x ∷ []

  -- `while (s.size() < metricsCnt)`; `none` is a loop that goes on after the given draws
  unfoldable pub metrics_loop :
      (skips : ℤ → Bool) → (ts device_id metrics_cnt : ℕ) → List Draw → List Row → Option (List Row)
  metrics_loop skips ts device_id metrics_cnt [] rows =
      if leb metrics_cnt (length rows) then some rows else none
  metrics_loop skips ts device_id metrics_cnt (x ∷ xs) rows =
      let later =
        metrics_loop skips ts device_id metrics_cnt xs (next_rows skips ts device_id x rows) in
      if leb metrics_cnt (length rows) then some rows else later

  -- the rows of MySQLDriver
  unfoldable pub mysql_rows : (ts device_id metrics_cnt : ℕ) → List Draw → Option (List Row)
  unfolding metrics_loop
  mysql_rows ts device_id metrics_cnt draws =
      metrics_loop out_of_range ts device_id metrics_cnt draws []

  -- the rows of MongoDBDriver
  unfoldable pub mongo_rows : (ts device_id metrics_cnt : ℕ) → List Draw → Option (List Row)
  unfolding metrics_loop
  mongo_rows ts device_id metrics_cnt draws =
      metrics_loop (λ _. false) ts device_id metrics_cnt draws []

  -- the rows of CassandraDriver, with `timestamp*1000` as an `unsigned int`
  unfoldable pub cassandra_rows : (ts device_id metrics_cnt : ℕ) → List Draw → Option (List Row)
  unfolding metrics_loop
  cassandra_rows ts device_id metrics_cnt draws =
      metrics_loop (λ _. false) (u32 (ts * 1000)) device_id metrics_cnt draws []
