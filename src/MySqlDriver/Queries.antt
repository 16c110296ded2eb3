-- ===== src/MySqlDriver/Queries.antt =====
-- src/MySQLDriver.cpp: `InsertQuery`, `DeleteQuery` and `SelectQuery`, from the execution of their
-- statements on. What the database does is an argument; the text of the SQL is left out.
use metric_bench.Prelude.{ℕ, ◌%◌, ◌/◌, ◌^◌, Bool, true, false, Option, none, some, ◌>>=◌}
use metric_bench.Prelude.Double.{Double}
use metric_bench.Prelude.Int.{pos}
use metric_bench.Message.{MessageType, StatMessage, insert_metric, delete_device}
use metric_bench.TsQueue
use metric_bench.TsQueue.{TsQueue}
use metric_bench.LatencyStats.State.{LatencyStats, record_latency}
use metric_bench.SampledStats.State.{SampledStats, add_stats}

-- The statements succeed after a number of microseconds, or one of them throws an `SQLException` after a
-- number of milliseconds.
pub data Outcome : Type 0 where
  succeeded : (time_us : ℕ) → Outcome
  failed : (time_ms : ℕ) → Outcome

-- How a query ends: it returns, or throws a `runtime_error`.
pub data Ending : Type 0 where
  returned threw : Ending

-- The constructor's conversion of the time to `unsigned int`.
abbrev pub stat_message : MessageType → (time_us cnt : ℕ) → StatMessage
stat_message op time_us cnt = record { op = op; time_us = time_us % 2 ^ 32; cnt = cnt }

module _ (d : Double) where
  -- What a query changes: `latencyStats`, which may be null, the thread's `stats`, and `statQueue`.
  pub record Session : Type 0 where
    pub latency_stats : Option (LatencyStats d)
    pub ostream_set : Bool
    pub stats : SampledStats
    pub stat_queue : TsQueue StatMessage

  -- The draws of `addStats`.
  pub record Draw : Type 0 where
    pub probability : d.Carrier
    pub rand : ℕ

  -- `if (latencyStats) latencyStats->recordLatency(...)`
  unfoldable pub record_if_set :
      Option (LatencyStats d)
      → (thread_id : ℕ) → MessageType
      → (time_us : ℕ) → Option (Option (LatencyStats d))
  record_if_set none thread_id type time_us = some none
  record_if_set (some l) thread_id type time_us =
      record_latency d l thread_id type (pos time_us) >>= λ l'. some (some l')

  -- `if (ostreamSet) stats.addStats(...)`
  unfoldable pub add_if_set :
      Bool → SampledStats → MessageType → (time : ℕ) → (error : Bool) → Draw → Option SampledStats
  add_if_set false stats type time error draw = some stats
  add_if_set true stats type time error draw =
      add_stats d stats type (pos time) error draw.probability draw.rand

  -- the `catch` clauses
  unfoldable pub caught : Session → MessageType → (time_ms : ℕ) → Draw → Option (Session × Ending)
  unfolding add_if_set
  caught s type time_ms draw = do
    stats ← add_if_set s.ostream_set s.stats type time_ms true draw
    some (record s { stats = stats }, threw)

  -- `InsertQuery`
  unfoldable pub insert_query :
      Session → (thread_id metrics_cnt : ℕ) → Outcome → Draw → Option (Session × Ending)
  unfolding record_if_set add_if_set caught
  insert_query s thread_id metrics_cnt (failed time_ms) draw = caught s insert_metric time_ms draw
  insert_query s thread_id metrics_cnt (succeeded time_us) draw = do
    l ← record_if_set s.latency_stats thread_id insert_metric time_us
    stats ← add_if_set s.ostream_set s.stats insert_metric (time_us / 1000) false draw
    some (
      record s {
        latency_stats = l;
        stats = stats;
        stat_queue = TsQueue.push s.stat_queue (stat_message insert_metric time_us metrics_cnt);
      },
      returned,
    )

  -- `DeleteQuery`
  unfoldable pub delete_query :
      Session → (thread_id : ℕ) → Outcome → Draw → Option (Session × Ending)
  unfolding record_if_set add_if_set caught
  delete_query s thread_id (failed time_ms) draw = caught s delete_device time_ms draw
  delete_query s thread_id (succeeded time_us) draw = do
    l ← record_if_set s.latency_stats thread_id delete_device time_us
    stats ← add_if_set s.ostream_set s.stats delete_device (time_us / 1000) false draw
    some (
      record s {
        latency_stats = l;
        stats = stats;
        stat_queue = TsQueue.push s.stat_queue (stat_message delete_device time_us 1);
      },
      returned,
    )

  -- `SelectQuery`, which records no latency
  unfoldable pub select_query : Session → MessageType → Outcome → Draw → Option (Session × Ending)
  unfolding add_if_set caught
  select_query s mt (failed time_ms) draw = caught s mt time_ms draw
  select_query s mt (succeeded time_us) draw = do
    stats ← add_if_set s.ostream_set s.stats mt (time_us / 1000) false draw
    some (
      record s {
        stats = stats;
        stat_queue = TsQueue.push s.stat_queue (stat_message mt time_us 1);
      },
      returned,
    )
