-- ===== src/Metrics/Recorded.antt =====
-- What `InsertQuery` of src/MongoDBDriver.cpp and src/CassandraDriver.cpp leaves.
use metric_bench.Prelude.{
  ℕ, ◌+◌, ◌≡◌, refl, Bool, true, false, List, [], ◌∷◌, ◌++◌, length, if◌then◌else◌, arith,
}
use metric_bench.Prelude.Double.{Double}
use metric_bench.Prelude.Int.{ℤ}
use metric_bench.Message.{index, insert_metric}
use metric_bench.TsQueue
use metric_bench.SampledStats.State.{SampledStats}
use metric_bench.SampledStats.Reporting.{HasRows}
use metric_bench.Metrics.{Row, ids}
use metric_bench.Metrics.Fresh.{Distinct}
use metric_bench.Metrics.Complete.{AllOf, IsChosen}
use metric_bench.MySqlDriver.Queries.{stat_message, Session}
use metric_bench.MySqlDriver.Effects.{Added}

module _ (d : Double) where
  -- What an insertion leaves, with the rows of its batch.
  pub record Inserted (row_ts device_id cnt time_us : ℕ) (rows : List (Row d)) (s s' : Session d)
      : Type 0 where
    pub size : length rows ≡ cnt
    pub distinct : Distinct (ids d rows)
    pub whose : AllOf d row_ts device_id rows
    pub queued :
        s'.stat_queue.items ≡ s.stat_queue.items ++ stat_message insert_metric time_us cnt ∷ []
    pub ops :
        s'.stats.num_ops (index insert_metric)
        ≡ s.stats.num_ops (index insert_metric) + (if s.ostream_set then 1 else 0)
    pub errors : s'.stats.errors (index insert_metric) ≡ s.stats.errors (index insert_metric)
    pub latencies : s'.latency_stats ≡ s.latency_stats
    pub kept : HasRows s'.stats
    pub room : s'.stats.max_samples ≡ s.stats.max_samples

  no_error : (set : Bool) {a b : ℕ} → a ≡ b + (if set then 0 else 0) → a ≡ b
  no_error true e = omega arith
  no_error false e = omega arith

  -- the state after the statistics and the message
  abbrev pub after : Session d → SampledStats → (time_us cnt : ℕ) → Session d
  after s stats time_us cnt = record s {
    stats = stats;
    stat_queue = TsQueue.push s.stat_queue (stat_message insert_metric time_us cnt);
  }

  pub after-Inserted :
      {skips : ℤ → Bool} (row_ts device_id cnt time_us : ℕ) (rows : List (Row d)) (s : Session d)
      (stats : SampledStats)
      → length rows ≡ cnt
      → IsChosen d skips row_ts device_id rows
      → Added d s.ostream_set insert_metric false s.stats stats
      → Inserted row_ts device_id cnt time_us rows s (after s stats time_us cnt)
  unfolding TsQueue.push
  after-Inserted row_ts device_id cnt time_us rows s stats size chosen added = record {
    size = size;
    distinct = chosen.distinct;
    whose = chosen.whose;
    queued = refl;
    ops = added.ops;
    errors = no_error s.ostream_set added.errors;
    latencies = refl;
    kept = added.rows;
    room = added.room;
  }
