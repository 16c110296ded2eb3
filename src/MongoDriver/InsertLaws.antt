-- ===== src/MongoDriver/InsertLaws.antt =====
-- An insertion of src/MongoDBDriver.cpp, on success and on an exception.
use metric_bench.Prelude.{ℕ, ◌/◌, ◌≤◌, ◌≡◌, refl, false, some, List, ◌++◌, length, arith}
use metric_bench.Prelude.Double.{Double}
use metric_bench.Message.{insert_metric}
use metric_bench.Metrics
use metric_bench.Metrics.{Row, mongo_rows}
use metric_bench.Metrics.Fresh.{Distinct}
use metric_bench.Metrics.Complete.{metrics, none_skipped, metrics_loop-Finishes}
use metric_bench.Metrics.Recorded.{Inserted, after, after-Inserted}
use metric_bench.MySqlDriver.Queries.{succeeded, failed, returned, threw, Session, Draw}
use metric_bench.MySqlDriver.Effects.{add_if_set-some}
use metric_bench.Fleet.Ready.{HasRoom}
use metric_bench.MongoDriver.Inserts.{mongo_insert_query}

module _ (d : Double) where
  -- Where the statistics have room, and once as many different metrics as wanted have been drawn,
  -- `InsertQuery` gives one call of `insert` that many documents, all of the message's timestamp
  -- and device; on success it records one operation and one message with that count, and on an
  -- exception, which it does not catch, nothing, not even an error.
  pub mongo_insert_query-Inserted :
      (s : Session d) (ts device_id cnt : ℕ) (noise good : List (Metrics.Draw d)) (time : ℕ)
      (draw : Draw d)
      → HasRoom s.stats
      → Distinct (metrics d good)
      → cnt ≤ length good
      → (rows : List (Row d)) × (s' : Session d) × (mongo_insert_query d s ts device_id cnt
            (noise ++ good)
            (succeeded time)
            draw
          ≡ some (rows, s', returned))
        × Inserted d ts device_id cnt time rows s s'
        × (mongo_insert_query d s ts device_id cnt (noise ++ good) (failed time) draw
            ≡ some (rows, s, threw))
  unfolding mongo_insert_query mongo_rows
  mongo_insert_query-Inserted s ts device_id cnt noise good time draw ready g many =
      let (rows, found, size, chosen) =
        metrics_loop-Finishes d (λ _. false) ts device_id cnt noise good g
          (none_skipped (metrics d good)) many in
      let (stats, e, added) =
        add_if_set-some d s.ostream_set s.stats insert_metric (time / 1000) false draw ready.rows
          ready.room (omega arith) in
      (
        rows,
        after d s stats time cnt,
        rw (found, e) refl,
        after-Inserted d ts device_id cnt time rows s stats size chosen added,
        rw found refl,
      )
