-- ===== src/MongoDriver/Inserts.antt =====
-- src/MongoDBDriver.cpp: `InsertQuery`. What the database does is an argument.
use metric_bench.Prelude.{ℕ, ◌/◌, false, Option, some, List, ◌>>=◌}
use metric_bench.Prelude.Double.{Double}
use metric_bench.Message.{insert_metric}
use metric_bench.TsQueue
use metric_bench.Metrics
use metric_bench.Metrics.{Row, mongo_rows}
use metric_bench.MySqlDriver.Queries.{
  Outcome, succeeded, failed, Ending, returned, threw, stat_message, Session, Draw, add_if_set,
}

module _ (d : Double) where
  -- `InsertQuery`: the documents given to `insert`, and what it records; its latency goes to no
  -- `LatencyStats`. An exception of the client library is not caught.
  unfoldable pub mongo_insert_query :
      Session d
      → (ts device_id metrics_cnt : ℕ) (draws : List (Metrics.Draw d)) → Outcome
      → Draw d
      → Option (List (Row d) × Session d × Ending)
  unfolding mongo_rows add_if_set
  mongo_insert_query s ts device_id metrics_cnt draws (failed time_ms) draw = do
    rows ← mongo_rows d ts device_id metrics_cnt draws
    some (rows, s, threw)
  mongo_insert_query s ts device_id metrics_cnt draws (succeeded time_us) draw = do
    rows ← mongo_rows d ts device_id metrics_cnt draws
    stats ← add_if_set d s.ostream_set s.stats insert_metric (time_us / 1000) false draw
    some (
      rows,
      record s {
        stats = stats;
        stat_queue = TsQueue.push s.stat_queue (stat_message insert_metric time_us metrics_cnt);
      },
      returned,
    )
