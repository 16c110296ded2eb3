-- ===== src/CassandraDriver/InsertLaws.antt =====
-- An insertion of src/CassandraDriver.cpp counts as a success whatever the database says.
use metric_bench.Prelude.{
  ℕ, ◌*◌, ◌/◌, ◌≤◌, ◌≡◌, refl, Bool, false, not, some, List, ◌++◌, length, arith,
}
use metric_bench.Prelude.Double.{Double}
use metric_bench.Message.{insert_metric}
use metric_bench.TsQueue
use metric_bench.Preparer.{u32}
use metric_bench.Metrics
use metric_bench.Metrics.{Row, cassandra_rows, ids}
use metric_bench.Metrics.Fresh.{Distinct}
use metric_bench.Metrics.Complete.{metrics, none_skipped, metrics_loop-Finishes}
use metric_bench.Metrics.Recorded.{Inserted, after, after-Inserted}
use metric_bench.MySqlDriver.Queries.{Session, Draw}
use metric_bench.MySqlDriver.Effects.{add_if_set-some}
use metric_bench.Fleet.Ready.{HasRoom}
use metric_bench.CassandraDriver.{cassandra_insert_query}

module _ (d : Double) where
  -- Where the statistics have room, and once as many different metrics as wanted have been drawn,
  -- `InsertQuery` gives one batch of that many rows and records one operation and one message with
  -- that count, and no error: the same whether the batch succeeds or fails, but for the text that
  -- a failure prints.
  pub cassandra_insert_query-Inserted :
      (s : Session d) (ts device_id cnt : ℕ) (noise good : List (Metrics.Draw d)) (gap_us : ℕ)
      (draw : Draw d)
      → HasRoom s.stats
      → Distinct (metrics d good)
      → cnt ≤ length good
      → (rows : List (Row d)) × (s' : Session d) × ((ok : Bool)
          → cassandra_insert_query d s ts device_id cnt (noise ++ good) ok gap_us draw
            ≡ some (rows, not ok, s'))
        × Inserted d (u32 (ts * 1000)) device_id cnt gap_us rows s s'
  unfolding cassandra_insert_query cassandra_rows TsQueue.push
  cassandra_insert_query-Inserted s ts device_id cnt noise good gap_us draw ready g many =
      let (rows, found, size, chosen) =
        metrics_loop-Finishes d (λ _. false) (u32 (ts * 1000)) device_id cnt noise good g
          (none_skipped (metrics d good)) many in
      let (stats, e, added) =
        add_if_set-some d s.ostream_set s.stats insert_metric (gap_us / 1000) false draw ready.rows
          ready.room (omega arith) in
      (
        rows,
        after d s stats gap_us cnt,
        λ ok. rw (found, e) refl,
        after-Inserted d (u32 (ts * 1000)) device_id cnt gap_us rows s stats size chosen added,
      )
