-- ===== src/Drivers.antt =====
-- src/GenericDriver.hpp, and `Prep` and `Run` of src/MySQLDriver.cpp, src/MongoDBDriver.cpp and
-- src/CassandraDriver.cpp: the state that the drivers share, and the threads that they start.
pub mod Threads
pub mod Examples
use metric_bench.Prelude.{
  ℕ, zero, suc, ◌+◌, Bool, true, false, Option, none, some, List, [], ◌∷◌, ◌++◌, if◌then◌else◌,
}
use metric_bench.Prelude.Double.{Double}
use metric_bench.Config.{Config}
use metric_bench.Uri.{Bytes}
use metric_bench.Main.{Driver, mysql, mongodb, cassandra}
use metric_bench.LatencyStats.State.{LatencyStats}
use metric_bench.LatencyStats.State
use metric_bench.Pareto.{ParetoGenerator}
use metric_bench.Fleet.{load_stats, run_stats}

-- A thread, with its arguments.
pub data Thread : Type 0 where
  insert_data : (thread_id : ℕ) → (show_stats : List ℕ) → Thread
  select_data : (show_stats : List ℕ) → Thread

-- `runStats` of MongoDBDriver
abbrev pub mongo_run_stats : List ℕ
mongo_run_stats = 2 ∷ 3 ∷ []

module _ (d : Double) where
  -- `class GenericDriver`. `PGen` is not initialised, and `tsRange` is not used; the threads that are
  -- detached stand beside those that `threads` keeps.
  pub record GenericDriver : Type 0 where
    pub user : Bytes
    pub pass : Bytes
    pub database : Bytes
    pub url : Bytes
    pub p_gen : Option (ParetoGenerator d)
    pub latency_stats : Option (LatencyStats d)
    pub ostream_set : Bool
    pub threads : List Thread
    pub detached : List Thread

  -- the constructor
  unfoldable pub new : (user pass database url : Bytes) → GenericDriver
  new user pass database url = record {
    user = user;
    pass = pass;
    database = database;
    url = url;
    p_gen = none;
    latency_stats = none;
    ostream_set = false;
    threads = [];
    detached = [];
  }

  unfoldable pub set_generator : GenericDriver → ParetoGenerator d → GenericDriver
  set_generator g p = record g { p_gen = some p }

  unfoldable pub set_latency_stats : GenericDriver → LatencyStats d → GenericDriver
  set_latency_stats g l = record g { latency_stats = some l }

  unfoldable pub set_ostream_sampled_stats : GenericDriver → GenericDriver
  set_ostream_sampled_stats g = record g { ostream_set = true }

  -- the threads that `JoinThreads` joins, in its order
  unfoldable pub join_threads : GenericDriver → List Thread
  join_threads g = g.threads

  -- `for (int i = 0; i < Config::LoaderThreads; i++)`, from `i` on: each thread is kept in `threads`
  unfoldable pub start_kept : (show_stats : List ℕ) → (rounds i : ℕ) → GenericDriver → GenericDriver
  start_kept show_stats zero i g = g
  start_kept show_stats (suc rounds) i g =
      start_kept show_stats rounds (i + 1)
        (record g { threads = g.threads ++ insert_data i show_stats ∷ [] })

  -- the same loop of MongoDBDriver, which detaches each thread
  unfoldable pub start_detached :
      (show_stats : List ℕ) → (rounds i : ℕ) → GenericDriver → GenericDriver
  start_detached show_stats zero i g = g
  start_detached show_stats (suc rounds) i g =
      start_detached show_stats rounds (i + 1)
        (record g { detached = g.detached ++ insert_data i show_stats ∷ [] })

  -- `Prep` of each driver; `loadStats` has the number of InsertMetric
  unfoldable pub prep_threads : Driver → Config → GenericDriver → GenericDriver
  unfolding start_kept start_detached
  prep_threads mysql c g = start_kept load_stats c.loader_threads 0 g
  prep_threads cassandra c g = start_kept load_stats c.loader_threads 0 g
  prep_threads mongodb c g = start_detached load_stats c.loader_threads 0 g

  -- `threads.push_back(move(threadSelectData))`
  unfoldable pub start_select : (show_stats : List ℕ) → GenericDriver → GenericDriver
  start_select show_stats g = record g { threads = g.threads ++ select_data show_stats ∷ [] }

  -- `Run` of each driver
  unfoldable pub run_threads : Driver → Config → GenericDriver → GenericDriver
  unfolding start_kept start_detached start_select
  run_threads mysql c g = start_select run_stats (start_kept run_stats c.loader_threads 0 g)
  run_threads cassandra c g = start_select run_stats (start_kept run_stats c.loader_threads 0 g)
  run_threads mongodb c g = start_detached mongo_run_stats c.loader_threads 0 g

  -- What `main` makes of a driver before it is used: `--threads` rows of latencies, and a stream where
  -- `--csvstream` is given.
  unfoldable pub set_up :
      Config
      → (csv_open : Bool) → ParetoGenerator d
      → (user pass database url : Bytes) → GenericDriver
  unfolding new set_generator set_latency_stats set_ostream_sampled_stats
  set_up c csv_open p user pass database url =
      let g =
        set_latency_stats (set_generator (new user pass database url) p)
          (State.init d c.loader_threads) in
      if csv_open then set_ostream_sampled_stats g else g
