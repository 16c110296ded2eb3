-- ===== src/Endless/Inserts.antt =====
-- The threads of src/MongoDBDriver.cpp and of src/CassandraDriver.cpp, and what they make of their messages.
use mathlib.Core.List.{append-nil}
use metric_bench.Prelude.{
  ◌*◌, ◌≡◌, refl, sym, Bool, true, false, not, none, some, List, [], ◌∷◌, arith, Bool-cases, inl,
  inr, if◌then◌else◌,
}
use metric_bench.Prelude.Double.{Double}
use metric_bench.Prelude.Int.{ℤ}
use metric_bench.Message.{MessageType}
use metric_bench.Preparer.{u32}
use metric_bench.SampledStats.Reporting.{AllBelow}
use metric_bench.MySqlDriver.Queries.{Session, returned}
use metric_bench.MongoDriver.InsertLaws.{mongo_insert_query-Inserted}
use metric_bench.CassandraDriver.InsertLaws.{cassandra_insert_query-Inserted}
use metric_bench.Fleet.{Env}
use metric_bench.Fleet.Ready.{HasRoom, display_at_end-some}
use metric_bench.Endless.Serving.{
  Popped, Work, mongo_switch, cassandra_switch, mongo_insert_data, cassandra_insert_data,
}
use metric_bench.Endless.Served.{Enough, AllEnough, Served, Handled, serve_loop-Served}

module _ (d : Double) where
  -- an insertion of MongoDBDriver that fails ends the thread
  abbrev pub dies_in_mongo : MessageType → Popped d → Bool
  dies_in_mongo MessageType.insert x = not x.ok
  dies_in_mongo _ x = false

  abbrev pub never : MessageType → Popped d → Bool
  never op x = false

  mongo_switch-Handled :
      (op : MessageType) (s : Session d) (x : Popped d)
      → HasRoom s.stats
      → Enough d x
      → Handled d (λ ts. ts) some dies_in_mongo (mongo_switch d) op s x
  unfolding mongo_switch
  mongo_switch-Handled MessageType.insert s x room enough =
      let (rows, s', ran, one, raised) =
        mongo_insert_query-Inserted d s x.message.ts x.message.device_id x.metrics_cnt enough.noise
          enough.good x.time x.draw room enough.distinct enough.many in
      elim (Bool-cases x.ok) [
        | inl good ↦ record {
          batches = record { table = some x.message.table_id; rows = rows } ∷ [];
          session = s';
          ran = rw (good, enough.parts, ran) refl;
          whose = (
            record { table = refl; size = one.size; distinct = one.distinct; whose = one.whose },
            tt,
          );
          room = record { rows = one.kept; room = omega (arith, one.room, room.room) };
          queued = rw good one.queued;
        }
        | inr bad ↦ record {
          batches = record { table = some x.message.table_id; rows = rows } ∷ [];
          session = s;
          ran = rw (bad, enough.parts, raised) refl;
          whose = (
            record { table = refl; size = one.size; distinct = one.distinct; whose = one.whose },
            tt,
          );
          room = room;
          queued = rw bad (sym (append-nil s.stat_queue.items));
        }
      ]
  mongo_switch-Handled _ s x room enough = record {
    batches = [];
    session = s;
    ran = refl;
    whose = tt;
    room = room;
    queued = sym (append-nil s.stat_queue.items);
  }

  cassandra_switch-Handled :
      (op : MessageType) (s : Session d) (x : Popped d)
      → HasRoom s.stats
      → Enough d x
      → Handled d (λ ts. u32 (ts * 1000)) (λ _. none) never (cassandra_switch d) op s x
  unfolding cassandra_switch
  cassandra_switch-Handled MessageType.insert s x room enough =
      let (rows, s', ran, one) =
        cassandra_insert_query-Inserted d s x.message.ts x.message.device_id x.metrics_cnt
          enough.noise enough.good x.time x.draw room enough.distinct enough.many in
      record {
        batches = record { table = none; rows = rows } ∷ [];
        session = s';
        ran = rw (enough.parts, ran x.ok) refl;
        whose = (
          record { table = refl; size = one.size; distinct = one.distinct; whose = one.whose },
          tt,
        );
        room = record { rows = one.kept; room = omega (arith, one.room, room.room) };
        queued = one.queued;
      }
  cassandra_switch-Handled _ s x room enough = record {
    batches = [];
    session = s;
    ran = refl;
    whose = tt;
    room = room;
    queued = sym (append-nil s.stat_queue.items);
  }

  module _ (e : Env) (below : AllBelow e.show_stats) (s : Session d) (start : ℤ)
      (room : HasRoom s.stats) where
    -- Where the shown types are below `MAX_OPTYPES`, the statistics have room, and for each message as many
    -- different metrics as wanted are drawn at last: a thread of MongoDBDriver reads and writes within its
    -- arrays. It gives one batch to the database for each insertion, in the order of the messages, up to
    -- the first that fails, with which it ends; and it sends one message to `statQueue` for each that
    -- succeeds. A batch is for the table, the timestamp and the device of its message, and has as many
    -- rows as wanted, no two of one metric. A deletion gives and sends nothing.
    pub mongo_insert_data-Served :
        (xs : List (Popped d))
        → AllEnough d xs
        → (w : Work d) × (mongo_insert_data d e xs s start ≡ some w)
          × Served d (λ ts. ts) some dies_in_mongo xs s w
    unfolding mongo_insert_data
    mongo_insert_data-Served xs enough =
        serve_loop-Served d (λ ts. ts) some dies_in_mongo (mongo_switch d) mongo_switch-Handled e
          below xs s start room enough

    -- Where the shown types are below `MAX_OPTYPES`, the statistics have room, and for each message as many
    -- different metrics as wanted are drawn at last: a thread of CassandraDriver reads and writes within
    -- its arrays, and no exception ends it. With a connection it gives one batch to the database and sends
    -- one message to `statQueue` for each insertion, in the order of the messages, whether the batch
    -- succeeds or fails. A batch has as many rows as wanted, no two of one metric, with no table, the device of its
    -- message and the timestamp times 1000 modulo 2 ^ 32. A deletion gives and sends nothing, and neither
    -- does a thread without a connection.
    pub cassandra_insert_data-Served :
        (connected : Bool) (end_time : ℤ) (xs : List (Popped d))
        → AllEnough d xs
        → (w : Work d) × (cassandra_insert_data d connected e xs s start end_time ≡ some w)
          × Served d (λ ts. u32 (ts * 1000)) (λ _. none) never (if connected then xs else []) s w
    unfolding cassandra_insert_data
    cassandra_insert_data-Served true end_time xs enough =
        serve_loop-Served d (λ ts. u32 (ts * 1000)) (λ _. none) never (cassandra_switch d)
          cassandra_switch-Handled e below xs s start room enough
    cassandra_insert_data-Served false end_time xs enough =
        let (stats, lines, shown, kept) =
          display_at_end-some d e below s.stats room start end_time in
        (
          record {
            session = record s { stats = stats };
            batches = [];
            shown = lines;
            ending = returned;
          },
          rw shown refl,
          record { ending = refl; batches = tt; queued = sym (append-nil s.stat_queue.items) },
        )
