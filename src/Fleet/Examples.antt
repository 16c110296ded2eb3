-- ===== src/Fleet/Examples.antt =====
-- One thread of `Prep` on one message, from the push to the report, and the same in a run.
use metric_bench.Prelude.{
  ℕ, ◌+◌, ◌<◌, ◌≡◌, ◌≢◌, refl, subst, true, some, some-injective, List, [], ◌∷◌, ◌++◌, arith,
  replicate, length, ◌*◌, ◌≤◌,
}
use metric_bench.Prelude.Double.{integers}
use metric_bench.Prelude.Int.{pos, ◌*ℤ◌}
use metric_bench.Config.{Config, start_timestamp}
use metric_bench.Message.{Message, insert_metric}
use metric_bench.TsQueue
use metric_bench.LatencyStats.State.{LatencyStats}
use metric_bench.LatencyStats.State
use metric_bench.SampledStats.State.{SampledStats}
use metric_bench.SampledStats.State as Sampled
use metric_bench.SampledStats.Output
use metric_bench.LatencyStats.Buckets
use metric_bench.MySqlDriver.Queries.{succeeded, insert_query}
use metric_bench.MySqlDriver.QueryExamples.{streaming, draw}
use metric_bench.Preparer
use metric_bench.Preparer.{Event, TsRange, prep, run, prep_start, messages, insert_message}
use metric_bench.Preparer.Grid.{occurrences}
use metric_bench.Workers.{Pc, goes_on, is_complete, leaves, sees_message, pops}
use metric_bench.Fleet.{
  Env, load_stats, Input, faulted, Fleet, pushes, finishes, works, serves, init, Reach, here, next,
  display_if_due, execute,
}
use metric_bench.Fleet.Ready.{HasRoom, HasThreads}
use metric_bench.Fleet.Safety.{never_faults}
use metric_bench.Fleet.Contract.{opened, Serves}
use metric_bench.Fleet.Implements.{service_of, service_of-Reach}
use metric_bench.Message.Weights.{weigh}
use metric_bench.Fleet.Sending.{types, reports_of}
use metric_bench.Fleet.Complete.{other, left-served, prep-served}
use metric_bench.Fleet.RunServed.{run-served}
use metric_bench.Preparer.RunCoverage.{devices_in, devices_at}

abbrev small : Config
small = record { loader_threads = 1; load_mins = 1; db_tables = 1; max_devices = 1 }

abbrev stored : TsRange
stored = record { min = start_timestamp; max = start_timestamp }

abbrev only : Message
only = insert_message (start_timestamp + 60) 1 1

abbrev loading : Env
loading = record { ostream_set = true; display_freq = pos 10; show_stats = load_stats }

abbrev sampled : ℕ → SampledStats
sampled _ = streaming.stats

abbrev input : Input integers
input = record { metrics_cnt = 40; outcome = succeeded 900; draw = draw; end_time = pos 11000 }

abbrev begin : Fleet integers
begin = init integers (only ∷ []) streaming.latency_stats sampled (pos 500)

-- The thread pops the message, executes it, shows its statistics and leaves.
one_served :
    (s : Fleet integers) × Reach integers loading 1 begin s × ((i : ℕ) → i < 1 → s.pc i ≡ Pc.left)
unfolding TsQueue.new TsQueue.push TsQueue.empty TsQueue.wait_and_pop execute display_if_due
    insert_query State.record_latency Buckets.latency_to_bucket State.init Sampled.add_stats ◌*ℤ◌
    Output.display_types
one_served = (
  _,
  next
      (next
        (next
          (next
            (next
              (next
                (next (next here (pushes only [] refl refl))
                  (works 0 refl (omega arith) refl (goes_on refl)))
                (works 0 refl (omega arith) refl (sees_message refl)))
              (works 0 refl (omega arith) refl (pops refl)))
            (serves 0 only input _ _ _ _ refl (omega arith) refl refl refl))
          (finishes refl refl))
        (works 0 refl (omega arith) refl (is_complete refl)))
      (works 0 refl (omega arith) refl (leaves refl)),
  λ i lt. let first : i ≡ 0 = omega arith in rw first refl,
)

abbrev served : Fleet integers
served = one_served.0

abbrev all_left : (i : ℕ) → i < 1 → served.pc i ≡ Pc.left
all_left = one_served.2

threads : HasThreads integers 1 streaming.latency_stats
unfolding State.init
threads l e =
    subst (λ (x : LatencyStats integers). 1 ≤ x.max_threads) (some-injective e) (omega arith)

rooms : (i : ℕ) → HasRoom (sampled i)
rooms i = record { rows = λ _. refl; room = omega arith }

never_faults_example : served.status ≢ faulted
never_faults_example =
    never_faults integers loading 1 (omega arith, tt) (only ∷ []) streaming.latency_stats sampled
      (pos 500) served threads rooms one_served.1

service_of-Reach_example : Serves 1 (opened (only ∷ [])) (service_of integers served)
service_of-Reach_example =
    service_of-Reach integers loading 1 (only ∷ []) streaming.latency_stats sampled (pos 500) served
      one_served.1

left-served_example :
    ((w : Message → ℕ) → weigh w served.served ≡ weigh w (only ∷ []))
    × (types (served.reported ++ served.stat_queue.items) ≡ reports_of served.served)
left-served_example =
    left-served integers loading 1 streaming.latency_stats sampled (pos 500) (omega arith)
      (only ∷ []) served one_served.1 all_left

prepared : (es : List Event) × (prep small stored (1 + 1) ≡ some es) × (messages es ≡ only ∷ [])
unfolding prep Preparer.prep_device_loop
prepared = (_, refl, refl)

prep-served_example :
    (length served.served ≡ 1 * (1 * 1))
    × ((k dc t : ℕ)
        → k < 1
        → 1 ≤ dc
        → dc ≤ 1
        → 1 ≤ t
        → t ≤ 1
        → occurrences (prep_start stored + k * 60) dc t served.served ≡ 1)
    × (types (served.reported ++ served.stat_queue.items) ≡ replicate (1 * (1 * 1)) insert_metric)
prep-served_example =
    prep-served integers loading 1 streaming.latency_stats sampled (pos 500) (omega arith) small
      stored prepared.0 served (omega arith) prepared.1 (rw prepared.2 one_served.1) all_left

ran : (es : List Event) × (run small stored (1 ∷ []) ≡ some es) × (messages es ≡ only ∷ [])
unfolding run
ran = (_, refl, refl)

run-served_example :
    (weigh other served.served ≡ 0)
    × (length served.served ≡ devices_in 1 (1 ∷ []) * 1)
    × ((k dc t : ℕ)
        → k < 1
        → 1 ≤ dc
        → dc ≤ devices_at k (1 ∷ [])
        → 1 ≤ t
        → t ≤ 1
        → occurrences (start_timestamp + 60 + k * 60) dc t served.served ≡ 1)
run-served_example =
    run-served integers loading 1 streaming.latency_stats sampled (pos 500) (omega arith) small
      stored (1 ∷ []) ran.0 served (omega arith) (omega arith) ran.1 (rw ran.2 one_served.1)
      all_left
