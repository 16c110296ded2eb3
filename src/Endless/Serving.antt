-- ===== src/Endless/Serving.antt =====
-- `InsertData` of src/MongoDBDriver.cpp and src/CassandraDriver.cpp: what a thread does with the messages
-- that it pops, one after the other. A list is as far as the loop, which has no end, has come.
use metric_bench.Prelude.{ℕ, Bool, Option, none, some, List, [], ◌∷◌, ◌++◌, ◌>>=◌, if◌then◌else◌}
use metric_bench.Prelude.Double.{Double}
use metric_bench.Prelude.Int.{ℤ}
use metric_bench.Message.{Message, MessageType}
use metric_bench.Metrics
use metric_bench.Metrics.{Row}
use metric_bench.SampledStats.Output.{Line}
use metric_bench.MySqlDriver.Queries.{Ending, returned, threw, succeeded, failed, Session, Draw}
use metric_bench.MongoDriver.Inserts.{mongo_insert_query}
use metric_bench.CassandraDriver.{cassandra_insert_query}
use metric_bench.Fleet.{Env, display_if_due, display_at_end}

module _ (d : Double) where
  -- A message that is popped, and what the generators, the database and the clock give for it.
  pub record Popped : Type 0 where
    pub message : Message
    pub metrics_cnt : ℕ
    pub draws : List (Metrics.Draw d)
    pub ok : Bool
    pub time : ℕ
    pub draw : Draw d
    pub end_time : ℤ

  -- The rows of an insertion, and the table that it names: CassandraDriver's names none of the
  -- benchmark's tables.
  pub record Batch : Type 0 where
    pub table : Option ℕ
    pub rows : List (Row d)

  -- What the thread sees of the statistics, what it has given to the database and shown, and how it ends.
  pub record Work : Type 0 where
    pub session : Session d
    pub batches : List Batch
    pub shown : List (Line d)
    pub ending : Ending

  -- the `switch` of a driver
  abbrev pub Switch : Type 0
  Switch = MessageType → Session d → Popped → Option (List Batch × Session d × Ending)

  -- the `switch` of MongoDBDriver, whose `DeleteQuery` is empty
  unfoldable pub mongo_switch : Switch
  mongo_switch MessageType.insert s x =
      mongo_insert_query d s x.message.ts x.message.device_id x.metrics_cnt x.draws
        (if x.ok then succeeded x.time else failed x.time) x.draw
      >>= λ r. some (record { table = some x.message.table_id; rows = r.0 } ∷ [], r.1, r.2)
  mongo_switch _ s x = some ([], s, returned)

  -- the `switch` of CassandraDriver, which has no case for a deletion
  unfoldable pub cassandra_switch : Switch
  cassandra_switch MessageType.insert s x =
      cassandra_insert_query d s x.message.ts x.message.device_id x.metrics_cnt x.draws x.ok x.time
        x.draw
      >>= λ r. some (record { table = none; rows = r.0 } ∷ [], r.2, returned)
  cassandra_switch _ s x = some ([], s, returned)

  -- `while(true)`: an exception leaves the thread, and with it the program; `none` where an array is
  -- accessed past its end
  unfoldable pub serve_loop : Switch → Env → List Popped → Session d → (last_time : ℤ) → Option Work
  serve_loop switch e [] s last_time =
      some (record { session = s; batches = []; shown = []; ending = returned })
  serve_loop switch e (x ∷ xs) s last_time = switch x.message.op s x >>= λ done. elim done.2 [
    | threw ↦ some (record { session = done.1; batches = done.0; shown = []; ending = threw })
    | returned ↦
        let shown = display_if_due d e done.1.stats last_time x.end_time in
        shown.1 >>= λ kept.
        serve_loop switch e xs (record done.1 { stats = kept.0 }) kept.1 >>= λ w.
        some (record w { batches = done.0 ++ w.batches; shown = shown.0 ++ w.shown })
  ]

  -- `MongoDBDriver::InsertData`
  unfoldable pub mongo_insert_data : Env → List Popped → Session d → (start : ℤ) → Option Work
  unfolding serve_loop mongo_switch
  mongo_insert_data e xs s start = serve_loop mongo_switch e xs s start

  -- `CassandraDriver::InsertData`: without a connection it only shows the statistics
  unfoldable pub cassandra_insert_data :
      (connected : Bool) → Env → List Popped → Session d → (start end_time : ℤ) → Option Work
  unfolding serve_loop cassandra_switch
  cassandra_insert_data connected e xs s start end_time =
      let shown = display_at_end d e s.stats start end_time in
      if connected
      then serve_loop cassandra_switch e xs s start
      else (shown.1 >>= λ stats. some (record {
        session = record s { stats = stats };
        batches = [];
        shown = shown.0;
        ending = returned;
      }))
