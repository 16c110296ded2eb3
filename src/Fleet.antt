-- ===== src/Fleet.antt =====
-- src/MySQLDriver.cpp, `InsertData` with its queries and its statistics: several threads that share
-- `tsQueue`, `latencyStats` and `statQueue`, beside the main thread of src/metricbench.cpp and the
-- thread of src/Stats.cpp that takes the messages of `statQueue`. The threads' places and the moves
-- that touch no database are those of Workers. A query and the display behind it are one step: they
-- share nothing with other threads but `statQueue`, which its mutex guards, and each thread's own row
-- of `latencyStats`. The thread of `SelectData` that a run has besides takes nothing from `tsQueue`; it is
-- modelled on its own in Selecting.
pub mod Ready
pub mod Safety
pub mod Refinement
pub mod Contract
pub mod Implements
pub mod Sending
pub mod Accounts
pub mod Complete
pub mod RunServed
pub mod Display
pub mod Streamed
pub mod Selecting
pub mod Selected
pub mod SelectExamples
pub mod Examples
use metric_bench.Prelude.{
  ℕ, ◌<◌, ◌≡◌, Bool, true, false, ◌&&◌, Option, none, some, List, [], ◌∷◌, ◌++◌, update,
  if◌then◌else◌, ◌>>=◌,
}
use metric_bench.Prelude.Double.{Double}
use metric_bench.Prelude.Int.{ℤ, pos, ◌-ℤ◌, ◌*ℤ◌, ltb_ℤ}
use metric_bench.Message.{Message, MessageType, StatMessage}
use metric_bench.TsQueue
use metric_bench.TsQueue.{TsQueue}
use metric_bench.LatencyStats.State.{LatencyStats}
use metric_bench.SampledStats.State.{SampledStats}
use metric_bench.SampledStats.Output.{Line, display_types}
use metric_bench.MySqlDriver.Queries.{
  Outcome, Ending, returned, threw, Session, Draw, insert_query, delete_query,
}
use metric_bench.Workers
use metric_bench.Workers.{Pc, Move}

-- What the threads read: `ostreamSet`, `Config::displayFreq`, and the types that they show.
pub record Env : Type 0 where
  pub ostream_set : Bool
  pub display_freq : ℤ
  pub show_stats : List ℕ

-- `loadStats` of `Prep` and `runStats` of `Run`
abbrev pub load_stats : List ℕ
load_stats = 2 ∷ []

abbrev pub run_stats : List ℕ
run_stats = 2 ∷ 3 ∷ 4 ∷ 5 ∷ []

-- The program runs; or an exception has left a thread, which ends it (`std::terminate`); or an array has
-- been read or written past its end.
pub data Status : Type 0 where
  running crashed faulted : Status

abbrev pub is_handling : Pc → Bool
is_handling (Pc.handling m) = true
is_handling _ = false

module _ (d : Double) where
  -- What the database, the generators and the clock give while a message is handled.
  pub record Input : Type 0 where
    pub metrics_cnt : ℕ
    pub outcome : Outcome
    pub draw : Draw d
    pub end_time : ℤ

  -- The `switch` over `m.op`. The table, the timestamp and the device of the message go only into the text
  -- of the statement, which Sql has; what the statement does is the outcome in the input.
  unfoldable pub execute :
      Session d → (thread_id : ℕ) → MessageType → Input → Option (Session d × Ending)
  execute s thread_id MessageType.insert x =
      insert_query d s thread_id x.metrics_cnt x.outcome x.draw
  execute s thread_id MessageType.delete x = delete_query d s thread_id x.outcome x.draw
  execute s thread_id _ x = some (s, returned)

  -- The display in the loop: the lines, and the statistics with the new `lastDisplayTime`, or `none` where
  -- it reads past the end of an array.
  unfoldable pub display_if_due :
      Env → SampledStats → (last_time end_time : ℤ) → List (Line d) × Option (SampledStats × ℤ)
  display_if_due e stats last_time end_time =
      let shown = display_types d stats e.show_stats last_time end_time in
      if e.ostream_set && ltb_ℤ (e.display_freq *ℤ pos 1000) (end_time -ℤ last_time)
      then (shown.0, shown.1 >>= λ stats'. some (stats', end_time))
      else ([], some (stats, last_time))

  -- the display behind the loop
  unfoldable pub display_at_end :
      Env → SampledStats → (last_time end_time : ℤ) → List (Line d) × Option SampledStats
  display_at_end e stats last_time end_time =
      if e.ostream_set
      then display_types d stats e.show_stats last_time end_time
      else ([], some stats)

  -- The queue, the flag, the messages still to be pushed, the threads' places and whether they have
  -- ended, the messages popped and those executed, the statistics, shared and of each thread, the
  -- messages that the thread of `Stats` has taken, and the lines shown.
  pub record Fleet : Type 0 where
    pub queue : TsQueue Message
    pub complete : Bool
    pub todo : List Message
    pub pc : ℕ → Pc
    pub exited : ℕ → Bool
    pub popped : List Message
    pub served : List Message
    pub latency_stats : Option (LatencyStats d)
    pub stats : ℕ → SampledStats
    pub last_time : ℕ → ℤ
    pub stat_queue : TsQueue StatMessage
    pub reported : List StatMessage
    pub shown : List (Line d)
    pub status : Status

  -- what thread `i` sees of the statistics
  abbrev pub session : Env → Fleet → (i : ℕ) → Session d
  session e s i = record {
    latency_stats = s.latency_stats;
    ostream_set = e.ostream_set;
    stats = s.stats i;
    stat_queue = s.stat_queue;
  }

  -- `n` threads, the main thread and that of `Stats`, interleaved in any order.
  pub data Step (e : Env) (n : ℕ) (s : Fleet) : Fleet → Type 0 where
    pushes :
        (m : Message) (rest : List Message)
        → s.status ≡ running
        → s.todo ≡ m ∷ rest
        → Step e n s (record s { queue = TsQueue.push s.queue m; todo = rest })
    finishes : s.status ≡ running → s.todo ≡ [] → Step e n s (record s { complete = true })
    works :
        (i : ℕ) {q : TsQueue Message} {p : Pc}
        → s.status ≡ running
        → i < n
        → is_handling (s.pc i) ≡ false
        → (mv : Move s.complete s.queue (s.pc i) q p)
        → Step e n s
            (record s { queue = q; pc = update s.pc i p; popped = s.popped ++ Workers.log mv })
    serves :
        (i : ℕ) (m : Message) (x : Input) (s' : Session d) (stats : SampledStats) (time : ℤ)
        (lines : List (Line d))
        → s.status ≡ running
        → i < n
        → s.pc i ≡ Pc.handling m
        → execute (session e s i) i m.op x ≡ some (s', returned)
        → display_if_due e s'.stats (s.last_time i) x.end_time ≡ (lines, some (stats, time))
        → Step e n s (record s {
          pc = update s.pc i Pc.test_flag;
          served = s.served ++ m ∷ [];
          latency_stats = s'.latency_stats;
          stats = update s.stats i stats;
          last_time = update s.last_time i time;
          stat_queue = s'.stat_queue;
          shown = s.shown ++ lines;
        })
    crashes :
        (i : ℕ) (m : Message) (x : Input) (s' : Session d)
        → s.status ≡ running
        → i < n
        → s.pc i ≡ Pc.handling m
        → execute (session e s i) i m.op x ≡ some (s', threw)
        → Step e n s (record s { stats = update s.stats i s'.stats; status = crashed })
    faults_in_query :
        (i : ℕ) (m : Message) (x : Input)
        → s.status ≡ running
        → i < n
        → s.pc i ≡ Pc.handling m
        → execute (session e s i) i m.op x ≡ none
        → Step e n s (record s { status = faulted })
    faults_in_display :
        (i : ℕ) (m : Message) (x : Input) (s' : Session d) (lines : List (Line d))
        → s.status ≡ running
        → i < n
        → s.pc i ≡ Pc.handling m
        → execute (session e s i) i m.op x ≡ some (s', returned)
        → display_if_due e s'.stats (s.last_time i) x.end_time ≡ (lines, none)
        → Step e n s (record s { shown = s.shown ++ lines; status = faulted })
    exits :
        (i : ℕ) (end_time : ℤ) (stats : SampledStats) (lines : List (Line d))
        → s.status ≡ running
        → i < n
        → s.pc i ≡ Pc.left
        → s.exited i ≡ false
        → display_at_end e (s.stats i) (s.last_time i) end_time ≡ (lines, some stats)
        → Step e n s (record s {
          exited = update s.exited i true;
          stats = update s.stats i stats;
          shown = s.shown ++ lines;
        })
    faults_at_end :
        (i : ℕ) (end_time : ℤ) (lines : List (Line d))
        → s.status ≡ running
        → i < n
        → s.pc i ≡ Pc.left
        → s.exited i ≡ false
        → display_at_end e (s.stats i) (s.last_time i) end_time ≡ (lines, none)
        → Step e n s (record s { shown = s.shown ++ lines; status = faulted })
    reports :
        (m : StatMessage) (q : TsQueue StatMessage)
        → s.status ≡ running
        → TsQueue.wait_and_pop s.stat_queue ≡ some (m, q)
        → Step e n s (record s { stat_queue = q; reported = s.reported ++ m ∷ [] })

  -- The threads have just been started at `start_time`, with the statistics of each.
  abbrev pub init :
      List Message → Option (LatencyStats d) → (ℕ → SampledStats) → (start_time : ℤ) → Fleet
  init messages latency_stats stats start_time = record {
    queue = TsQueue.new;
    complete = false;
    todo = messages;
    pc = λ _. Pc.test_flag;
    exited = λ _. false;
    popped = [];
    served = [];
    latency_stats = latency_stats;
    stats = stats;
    last_time = λ _. start_time;
    stat_queue = TsQueue.new;
    reported = [];
    shown = [];
    status = running;
  }

  pub data Reach (e : Env) (n : ℕ) (s : Fleet) : Fleet → Type 0 where
    here : Reach e n s s
    next : {t u : Fleet} → Reach e n s t → Step e n t u → Reach e n s u
