-- ===== src/MySqlDriver/Effects.antt =====
-- What the queries of src/MySQLDriver.cpp leave in the statistics and in `statQueue`.
use mathlib.Core.List.{append-nil}
use metric_bench.Prelude.{
  ℕ, ◌+◌, ◌<◌, ◌≡◌, refl, sym, ◌∙◌, Bool, true, false, Option, none, some, List, [], ◌∷◌, ◌++◌,
  arith, lt→ltb, ℕ_discrete, ==_iff, ==_ne, if◌then◌else◌, ◌==◌, some-injective, subst,
}
use metric_bench.Prelude.Double.{Double}
use metric_bench.Prelude.Int.{pos}
use metric_bench.Message.{MessageType, StatMessage, index}
use metric_bench.TsQueue
use metric_bench.TsQueue.{TsQueue}
use metric_bench.LatencyStats.State.{LatencyStats, max_optypes}
use metric_bench.LatencyStats.Recording.{record_latency-some}
use metric_bench.LatencyStats.History.{recorded}
use metric_bench.SampledStats.State.{SampledStats, counted, add_stats}
use metric_bench.SampledStats.Storing.{store_sample-some, errors_after}
use metric_bench.SampledStats.Reporting.{HasRows}
use metric_bench.MySqlDriver.Queries.{
  Outcome, succeeded, failed, Ending, returned, threw, stat_message, Session, Draw, record_if_set,
  add_if_set, caught,
}

abbrev pub ending : Outcome → Ending
ending (succeeded time_us) = returned
ending (failed time_ms) = threw

-- what a query sends to `statQueue`, and the errors that it counts
abbrev pub sent : MessageType → (cnt : ℕ) → Outcome → List StatMessage
sent op cnt (succeeded time_us) = stat_message op time_us cnt ∷ []
sent op cnt (failed time_ms) = []

abbrev pub failures : Outcome → ℕ
failures (succeeded time_us) = 0
failures (failed time_ms) = 1

-- The statistics have room for what a thread records.
pub record IsReady (d : Double) (thread_id : ℕ) (s : Session d) : Type 0 where
  pub thread : (l : LatencyStats d) → s.latency_stats ≡ some l → thread_id < l.max_threads
  pub rows : HasRows s.stats
  pub room : 0 < s.stats.max_samples

module _ (d : Double) where
  abbrev pub latencies_after :
      MessageType → (thread_id : ℕ) → Outcome → Option (LatencyStats d) → Option (LatencyStats d)
  latencies_after op thread_id outcome none = none
  latencies_after op thread_id (succeeded time_us) (some l) =
      some (recorded d l thread_id op (pos time_us))
  latencies_after op thread_id (failed time_ms) (some l) = some l

  -- What a query of type `op` with `cnt` changes.
  pub record Effect (op : MessageType) (cnt thread_id : ℕ) (outcome : Outcome) (s s' : Session d)
      : Type 0 where
    pub queued : s'.stat_queue.items ≡ s.stat_queue.items ++ sent op cnt outcome
    pub latencies : s'.latency_stats ≡ latencies_after op thread_id outcome s.latency_stats
    pub ops :
        s'.stats.num_ops (index op) ≡ s.stats.num_ops (index op) + (if s.ostream_set then 1 else 0)
    pub errors :
        s'.stats.errors (index op)
        ≡ s.stats.errors (index op) + (if s.ostream_set then failures outcome else 0)

  pub record_if_set-some :
      (o : Option (LatencyStats d)) (thread_id : ℕ) (op : MessageType) (us : ℕ)
      → ((l : LatencyStats d) → o ≡ some l → thread_id < l.max_threads)
      → index op < max_optypes
      → record_if_set d o thread_id op us ≡ some (latencies_after op thread_id (succeeded us) o)
  unfolding record_if_set
  record_if_set-some none thread_id op us h k = refl
  record_if_set-some (some l) thread_id op us h k =
      rw (record_latency-some d l thread_id op (pos us) (h l refl) k (omega arith)) refl

  -- What `addStats` leaves, where it is called.
  pub record Added (set : Bool) (op : MessageType) (error : Bool) (stats stats' : SampledStats)
      : Type 0 where
    pub rows : HasRows stats'
    pub room : stats'.max_samples ≡ stats.max_samples
    pub ops : stats'.num_ops (index op) ≡ stats.num_ops (index op) + (if set then 1 else 0)
    pub errors :
        stats'.errors (index op)
        ≡ stats.errors (index op) + (if set then if error then 1 else 0 else 0)

  pub add_if_set-some :
      (set : Bool) (stats : SampledStats) (op : MessageType) (time : ℕ) (error : Bool)
      (draw : Draw d)
      → HasRows stats
      → 0 < stats.max_samples
      → index op < max_optypes
      → (stats' : SampledStats) × (add_if_set d set stats op time error draw ≡ some stats')
        × Added set op error stats stats'
  unfolding add_if_set add_stats
  add_if_set-some false stats op time error draw rows room k =
      (stats, refl, record { rows = rows; room = refl; ops = omega arith; errors = omega arith })
  add_if_set-some true stats op time error draw rows room k =
      let (row, e, len, filled) =
        store_sample-some d stats.max_samples (stats.ops_since_reset (index op))
          (stats.samples (index op)) (pos time) draw.probability draw.rand room (rows (index op)) in
      let here : (index op == index op) ≡ true = (==_iff (index op) (index op)).1 refl in
      (
        counted stats (index op) (pos time) error row,
        rw (lt→ltb (index op) max_optypes k, e) refl,
        record {
          rows = λ i. elim (ℕ_discrete (index op) i) [
            | yes same ↦ rw ((==_iff (index op) i).1 same) len
            | no differ ↦ rw (==_ne differ) (rows i)
          ];
          room = refl;
          ops = rw here refl;
          errors = errors_after d stats.errors (index op) (index op) error ∙ rw here refl;
        },
      )

  failed_latencies :
      (op : MessageType) (thread_id ms : ℕ) (o : Option (LatencyStats d))
      → o ≡ latencies_after op thread_id (failed ms) o
  failed_latencies op thread_id ms none = refl
  failed_latencies op thread_id ms (some l) = refl

  kept_threads :
      (op : MessageType) (thread_id us : ℕ) (o : Option (LatencyStats d))
      → ((l : LatencyStats d) → o ≡ some l → thread_id < l.max_threads)
      → (l : LatencyStats d) → latencies_after op thread_id (succeeded us) o ≡ some l
      → thread_id < l.max_threads
  kept_threads op thread_id us none h l e = cc
  kept_threads op thread_id us (some l) h l' e =
      subst (λ (x : LatencyStats d). thread_id < x.max_threads) (some-injective e) (h l refl)

  pub caught-Effect :
      (s : Session d) (op : MessageType) (cnt thread_id ms : ℕ) (draw : Draw d)
      → IsReady d thread_id s
      → index op < max_optypes
      → (s' : Session d) × (caught d s op ms draw ≡ some (s', threw))
        × Effect op cnt thread_id (failed ms) s s'
        × IsReady d thread_id s'
  unfolding caught
  caught-Effect s op cnt thread_id ms draw ready k =
      let (stats, e, added) =
        add_if_set-some s.ostream_set s.stats op ms true draw ready.rows ready.room k in
      (
        record s { stats = stats },
        rw e refl,
        record {
          queued = sym (append-nil s.stat_queue.items);
          latencies = failed_latencies op thread_id ms s.latency_stats;
          ops = added.ops;
          errors = added.errors;
        },
        record {
          thread = ready.thread;
          rows = added.rows;
          room = omega (arith, added.room, ready.room);
        },
      )

  -- the state after a success, given the parts that the recording leaves
  pub success-Effect :
      (s : Session d) (op : MessageType) (cnt thread_id us : ℕ) (stats : SampledStats)
      → IsReady d thread_id s
      → Added s.ostream_set op false s.stats stats
      → Effect op cnt thread_id (succeeded us) s (record s {
        latency_stats = latencies_after op thread_id (succeeded us) s.latency_stats;
        stats = stats;
        stat_queue = TsQueue.push s.stat_queue (stat_message op us cnt);
      })
        × IsReady d thread_id (record s {
          latency_stats = latencies_after op thread_id (succeeded us) s.latency_stats;
          stats = stats;
          stat_queue = TsQueue.push s.stat_queue (stat_message op us cnt);
        })
  unfolding TsQueue.push
  success-Effect s op cnt thread_id us stats ready added = (
    record { queued = refl; latencies = refl; ops = added.ops; errors = added.errors },
    record {
      thread = kept_threads op thread_id us s.latency_stats ready.thread;
      rows = added.rows;
      room = omega (arith, added.room, ready.room);
    },
  )
