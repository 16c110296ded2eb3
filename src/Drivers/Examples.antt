-- ===== src/Drivers/Examples.antt =====
-- The threads of a run with MySQL.
use metric_bench.Prelude.{◌≡◌, ◌++◌, refl, true, some, [], ◌∷◌}
use metric_bench.Prelude.Double.{integers}
use metric_bench.Prelude.Int.{pos}
use metric_bench.Config.{Config}
use metric_bench.Main.{mysql, mongodb, codes}
use metric_bench.LatencyStats.State.{LatencyStats}
use metric_bench.Pareto.{ParetoGenerator}
use metric_bench.Fleet.{run_stats}
use metric_bench.Drivers.{
  insert_data, select_data, GenericDriver, join_threads, run_threads, set_up,
}
use metric_bench.Drivers.Threads.{joined_in_run, detached_in_run, HaveRows, run_threads-joined}

abbrev two_threads : Config
two_threads = record { loader_threads = 2; load_mins = 1; db_tables = 1; max_devices = 1 }

abbrev generator : ParetoGenerator integers
generator = record { pareto_h = pos 2; pareto_power = pos 0 }

abbrev ready : GenericDriver integers
ready =
    set_up integers two_threads true generator (codes "root") [] (codes "test")
      (codes "tcp://localhost")

three_joined :
    join_threads integers (run_threads integers mysql two_threads ready)
    ≡ insert_data 0 run_stats ∷ insert_data 1 run_stats ∷ select_data run_stats ∷ []
unfolding join_threads run_threads set_up
three_joined = refl

none_joined : join_threads integers (run_threads integers mongodb two_threads ready) ≡ []
unfolding join_threads run_threads set_up
none_joined = refl

run_threads-joined_example :
    (join_threads integers (run_threads integers mysql two_threads ready)
      ≡ joined_in_run mysql two_threads)
    × ((run_threads integers mysql two_threads ready).detached ≡ detached_in_run mysql two_threads)
    × ((l : LatencyStats integers)
        → (run_threads integers mysql two_threads ready).latency_stats ≡ some l
        → HaveRows l.max_threads (
            (run_threads integers mysql two_threads ready).threads
            ++ (run_threads integers mysql two_threads ready).detached))
run_threads-joined_example =
    run_threads-joined integers mysql two_threads true generator (codes "root") [] (codes "test")
      (codes "tcp://localhost")
