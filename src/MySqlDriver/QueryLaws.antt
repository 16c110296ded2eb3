-- ===== src/MySqlDriver/QueryLaws.antt =====
-- Each query of src/MySQLDriver.cpp, on success and on an exception.
use mathlib.Core.List.{append-nil}
use metric_bench.Prelude.{
  ℕ, ◌/◌, ◌≤◌, ◌≡◌, refl, sym, true, false, none, some, ◌++◌, arith, ltb-false,
}
use metric_bench.Prelude.Double.{Double}
use metric_bench.Message.{MessageType, index, insert_metric, delete_device, select_k1}
use metric_bench.TsQueue
use metric_bench.TsQueue.{TsQueue}
use metric_bench.LatencyStats.State.{max_optypes}
use metric_bench.SampledStats.State.{add_stats}
use metric_bench.MySqlDriver.Queries.{
  Outcome, succeeded, failed, stat_message, Session, Draw, add_if_set, caught, insert_query,
  delete_query, select_query,
}
use metric_bench.MySqlDriver.Effects.{
  ending, sent, IsReady, latencies_after, Effect, record_if_set-some, add_if_set-some,
  caught-Effect, success-Effect,
}

-- Where the statistics have room, whatever the database answers and the draws are, `InsertQuery` writes
-- within their arrays and ends: it returns on success and throws on an `SQLException`. On success it sends
-- one message with its time and count, and its latency is recorded, where there are latencies; on an
-- exception it sends none, and the latencies stay. Where there is a stream, the operation is counted either
-- way, and an exception as an error; where there is none, neither is.
pub insert_query-Effect :
    (d : Double) (s : Session d) (thread_id cnt : ℕ) (outcome : Outcome) (draw : Draw d)
    → IsReady d thread_id s
    → (s' : Session d) × (insert_query d s thread_id cnt outcome draw ≡ some (s', ending outcome))
      × Effect d insert_metric cnt thread_id outcome s s'
      × IsReady d thread_id s'
unfolding insert_query
insert_query-Effect d s thread_id cnt (failed ms) draw ready =
    caught-Effect d s insert_metric cnt thread_id ms draw ready (omega arith)
insert_query-Effect d s thread_id cnt (succeeded us) draw ready =
    let (stats, e, added) =
      add_if_set-some d s.ostream_set s.stats insert_metric (us / 1000) false draw ready.rows
        ready.room (omega arith) in
    let (effect, still) = success-Effect d s insert_metric cnt thread_id us stats ready added in
    (
      record s {
        latency_stats = latencies_after d insert_metric thread_id (succeeded us) s.latency_stats;
        stats = stats;
        stat_queue = TsQueue.push s.stat_queue (stat_message insert_metric us cnt);
      },
      rw
          (
            record_if_set-some d s.latency_stats thread_id insert_metric us ready.thread
                (omega arith),
            e,
          )
          refl,
      effect,
      still,
    )

-- The same of `DeleteQuery`, whose messages have the count 1.
pub delete_query-Effect :
    (d : Double) (s : Session d) (thread_id : ℕ) (outcome : Outcome) (draw : Draw d)
    → IsReady d thread_id s
    → (s' : Session d) × (delete_query d s thread_id outcome draw ≡ some (s', ending outcome))
      × Effect d delete_device 1 thread_id outcome s s'
      × IsReady d thread_id s'
unfolding delete_query
delete_query-Effect d s thread_id (failed ms) draw ready =
    caught-Effect d s delete_device 1 thread_id ms draw ready (omega arith)
delete_query-Effect d s thread_id (succeeded us) draw ready =
    let (stats, e, added) =
      add_if_set-some d s.ostream_set s.stats delete_device (us / 1000) false draw ready.rows
        ready.room (omega arith) in
    let (effect, still) = success-Effect d s delete_device 1 thread_id us stats ready added in
    (
      record s {
        latency_stats = latencies_after d delete_device thread_id (succeeded us) s.latency_stats;
        stats = stats;
        stat_queue = TsQueue.push s.stat_queue (stat_message delete_device us 1);
      },
      rw
          (
            record_if_set-some d s.latency_stats thread_id delete_device us ready.thread
                (omega arith),
            e,
          )
          refl,
      effect,
      still,
    )

-- Where there is a stream, `SelectQuery` of each of its three types writes past the end of the arrays of
-- `SampledStats`, whether the database answers or throws.
pub select_query-past_end :
    (d : Double) (s : Session d) (mt : MessageType) (outcome : Outcome) (draw : Draw d)
    → index select_k1 ≤ index mt
    → s.ostream_set ≡ true
    → select_query d s mt outcome draw ≡ none
unfolding select_query caught add_if_set add_stats
select_query-past_end d s mt (succeeded us) draw h set =
    rw (set, ltb-false (index mt) max_optypes h) refl
select_query-past_end d s mt (failed ms) draw h set =
    rw (set, ltb-false (index mt) max_optypes h) refl

-- Where there is no stream, `SelectQuery` ends like the others: on success it sends one message of its type
-- with the count 1, on an exception none, and the statistics stay.
pub select_query-sent :
    (d : Double) (s : Session d) (mt : MessageType) (outcome : Outcome) (draw : Draw d)
    → s.ostream_set ≡ false
    → (s' : Session d) × (select_query d s mt outcome draw ≡ some (s', ending outcome))
      × (s'.stat_queue.items ≡ s.stat_queue.items ++ sent mt 1 outcome)
      × (s'.latency_stats ≡ s.latency_stats)
      × (s'.stats ≡ s.stats)
unfolding select_query caught add_if_set TsQueue.push
select_query-sent d s mt (succeeded us) draw set = (
  record s { stat_queue = TsQueue.push s.stat_queue (stat_message mt us 1) },
  rw set refl,
  refl,
  refl,
  refl,
)
select_query-sent d s mt (failed ms) draw set =
    (record s { stats = s.stats }, rw set refl, sym (append-nil s.stat_queue.items), refl, refl)
