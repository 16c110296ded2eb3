-- ===== src/CassandraDriver.antt =====
-- src/CassandraDriver.cpp: `InsertQuery` and `getTimestampRange`. What the database does is an argument.
pub mod InsertLaws
use metric_bench.Prelude.{ℕ, ◌/◌, Bool, true, false, not, Option, none, some, List, ◌>>=◌}
use metric_bench.Prelude.Double.{Double}
use metric_bench.Config.{start_timestamp}
use metric_bench.Message.{insert_metric}
use metric_bench.Preparer.{TsRange}
use metric_bench.TsQueue
use metric_bench.Metrics
use metric_bench.Metrics.{Row, cassandra_rows}
use metric_bench.MySqlDriver.Queries.{stat_message, Session, Draw, add_if_set}

-- `getTimestampRange`, which asks no table
abbrev pub cassandra_timestamp_range : (table_id : ℕ) → TsRange
cassandra_timestamp_range table_id = record { min = start_timestamp; max = start_timestamp }

module _ (d : Double) where
  -- `InsertQuery`: the rows of the batch, whether an error is printed, and what it records. `ok` tells
  -- whether the batch succeeds, and `gap_us` is the time between the two readings of the clock, which
  -- both follow the wait for the batch.
  unfoldable pub cassandra_insert_query :
      Session d
      → (ts device_id metrics_cnt : ℕ) (draws : List (Metrics.Draw d)) → (ok : Bool) (gap_us : ℕ)
      → Draw d
      → Option (List (Row d) × Bool × Session d)
  unfolding cassandra_rows add_if_set
  cassandra_insert_query s ts device_id metrics_cnt draws ok gap_us draw = do
    rows ← cassandra_rows d ts device_id metrics_cnt draws
    stats ← add_if_set d s.ostream_set s.stats insert_metric (gap_us / 1000) false draw
    some (
      rows,
      not ok,
      record s {
        stats = stats;
        stat_queue = TsQueue.push s.stat_queue (stat_message insert_metric gap_us metrics_cnt);
      },
    )
