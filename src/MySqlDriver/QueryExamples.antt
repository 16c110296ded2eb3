-- ===== src/MySqlDriver/QueryExamples.antt =====
-- Queries of src/MySQLDriver.cpp on fresh statistics.
use metric_bench.Prelude.{◌<◌, ◌≡◌, refl, true, some, [], ◌∷◌, arith, subst, some-injective}
use metric_bench.Prelude.Int.{pos}
use metric_bench.Prelude.Double.{integers}
use metric_bench.Message.{insert_metric}
use metric_bench.LatencyStats.State.{LatencyStats}
use metric_bench.LatencyStats.State
use metric_bench.SampledStats.State.{SampledStats}
use metric_bench.MySqlDriver.Queries.{failed, threw, Session, Draw, insert_query}
use metric_bench.Fleet.Ready.{HasRoom}
use metric_bench.MySqlDriver.Effects.{IsReady, Effect}
use metric_bench.MySqlDriver.QueryLaws.{insert_query-Effect}

abbrev latencies : LatencyStats integers
latencies = State.init integers 8

abbrev sampled : SampledStats
sampled = record {
  thread_id = 2;
  max_samples = 2;
  num_ops = λ _. 0;
  samples = λ _. pos 0 ∷ pos 0 ∷ [];
  ops_since_reset = λ _. 0;
  minimums = λ _. pos 0;
  maximums = λ _. pos 0;
  errors = λ _. 0;
}

abbrev pub streaming : Session integers
streaming = record {
  latency_stats = some latencies;
  ostream_set = true;
  stats = sampled;
  stat_queue = record { items = [] };
}

abbrev pub draw : Draw integers
draw = record { probability = pos 0; rand = 0 }

pub streaming-IsReady : IsReady integers 2 streaming
unfolding State.init
streaming-IsReady = record {
  thread = λ l e.
      subst (λ (x : LatencyStats integers). 2 < x.max_threads) (some-injective e) (omega arith);
  rows = λ _. refl;
  room = omega arith;
}

pub streaming-HasRoom : HasRoom streaming.stats
streaming-HasRoom = record { rows = λ _. refl; room = omega arith }

insert_query-Effect_example :
    (s' : Session integers) × (insert_query integers streaming 2 40 (failed 7) draw
      ≡ some (s', threw))
    × Effect integers insert_metric 40 2 (failed 7) streaming s'
    × IsReady integers 2 s'
insert_query-Effect_example =
    insert_query-Effect integers streaming 2 40 (failed 7) draw streaming-IsReady
