-- ===== src/Endless/ServingExamples.antt =====
-- Two insertions around a deletion, of which the first fails.
use metric_bench.Prelude.{◌*◌, ◌≡◌, refl, Bool, true, false, none, some, List, [], ◌∷◌, arith}
use metric_bench.Prelude.Double.{integers}
use metric_bench.Prelude.Int.{pos}
use metric_bench.Message.{MessageType}
use metric_bench.Preparer.{u32}
use metric_bench.Metrics.Examples.{draw}
use metric_bench.MySqlDriver.QueryExamples
use metric_bench.MySqlDriver.QueryExamples.{streaming, streaming-HasRoom}
use metric_bench.Fleet.{Env, load_stats}
use metric_bench.Endless.Serving.{Popped, Work, mongo_insert_data, cassandra_insert_data}
use metric_bench.Endless.Served.{Enough, AllEnough, Served}
use metric_bench.Endless.Inserts.{
  dies_in_mongo, never, mongo_insert_data-Served, cassandra_insert_data-Served,
}

abbrev loading : Env
loading = record { ostream_set = true; display_freq = pos 10; show_stats = load_stats }

abbrev popped : MessageType → (ok : Bool) → Popped integers
popped op ok = record {
  message = record { op = op; ts = 60; device_id = 7; table_id = 1 };
  metrics_cnt = 2;
  draws = draw 4 ∷ draw 4 ∷ draw 9 ∷ draw 6 ∷ [];
  ok = ok;
  time = 4000;
  draw = QueryExamples.draw;
  end_time = pos 12000;
}

abbrev messages : List (Popped integers)
messages =
    popped MessageType.insert true
    ∷ popped MessageType.delete true
    ∷ popped MessageType.insert false
    ∷ popped MessageType.insert true
    ∷ []

popped-Enough : (op : MessageType) (ok : Bool) → Enough integers (popped op ok)
popped-Enough op ok = record {
  noise = draw 4 ∷ draw 4 ∷ [];
  good = draw 9 ∷ draw 6 ∷ [];
  parts = refl;
  distinct = (refl, (refl, tt));
  many = omega arith;
}

messages-AllEnough : AllEnough integers messages
messages-AllEnough = (
  popped-Enough MessageType.insert true,
  (
    popped-Enough MessageType.delete true,
    (popped-Enough MessageType.insert false, (popped-Enough MessageType.insert true, tt)),
  ),
)

mongo_insert_data-Served_example :
    (w : Work integers) × (mongo_insert_data integers loading messages streaming (pos 0) ≡ some w)
    × Served integers (λ ts. ts) some (dies_in_mongo integers) messages streaming w
mongo_insert_data-Served_example =
    mongo_insert_data-Served integers loading (omega arith, tt) streaming (pos 0) streaming-HasRoom
      messages messages-AllEnough

cassandra_insert_data-Served_example :
    (w : Work integers) × (cassandra_insert_data integers true loading messages streaming
        (pos 0)
        (pos 1)
      ≡ some w)
    × Served integers (λ ts. u32 (ts * 1000)) (λ _. none) (never integers) messages streaming w
cassandra_insert_data-Served_example =
    cassandra_insert_data-Served integers loading (omega arith, tt) streaming (pos 0)
      streaming-HasRoom true (pos 1) messages messages-AllEnough
