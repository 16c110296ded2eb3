-- ===== src/Endless/Served.antt =====
-- What a thread of src/MongoDBDriver.cpp or src/CassandraDriver.cpp gives to the database, and what it
-- reports, for the messages that it pops.
use mathlib.Core.List.{append-nil, append_assoc}
use metric_bench.Prelude.{
  ℕ, ◌≤◌, ◌≡◌, refl, sym, ◌∙◌, ap, Bool, true, false, some, List, Option, [], ◌∷◌, ◌++◌, length,
  Bool-cases, inl, inr, if◌then◌else◌,
}
use metric_bench.Prelude.Double.{Double}
use metric_bench.Prelude.Int.{ℤ}
use metric_bench.Message.{MessageType, StatMessage, insert_metric}
use metric_bench.Metrics
use metric_bench.Metrics.{ids}
use metric_bench.Metrics.Fresh.{Distinct}
use metric_bench.Metrics.Complete.{metrics, AllOf}
use metric_bench.SampledStats.Reporting.{AllBelow}
use metric_bench.MySqlDriver.Queries.{Ending, returned, threw, Session, stat_message}
use metric_bench.Fleet.{Env}
use metric_bench.Fleet.Ready.{HasRoom, display_if_due-some}
use metric_bench.Endless.Serving.{Popped, Batch, Work, Switch, serve_loop}

module _ (d : Double) where
  -- As many different metrics as wanted are drawn at last.
  pub record Enough (x : Popped d) : Type 0 where
    pub noise : List (Metrics.Draw d)
    pub good : List (Metrics.Draw d)
    pub parts : x.draws ≡ noise ++ good
    pub distinct : Distinct (metrics d good)
    pub many : x.metrics_cnt ≤ length good

  abbrev pub AllEnough : List (Popped d) → Type 0
  AllEnough [] = Unit {0}
  AllEnough (x ∷ xs) = Enough x × AllEnough xs

  abbrev pub insertion_of : MessageType → Popped d → List (Popped d)
  insertion_of MessageType.insert x = x ∷ []
  insertion_of _ x = []

  abbrev pub report_of : MessageType → (dies : Bool) → Popped d → List StatMessage
  report_of MessageType.insert false x = stat_message insert_metric x.time x.metrics_cnt ∷ []
  report_of _ _ x = []

  -- A batch of as many rows as drawn, no two of one metric, all of the
  -- message's device and of its timestamp as the database holds it, with what is named of its table.
  pub record IsBatch (row_ts : ℕ → ℕ) (table_of : ℕ → Option ℕ) (x : Popped d) (b : Batch d)
      : Type 0 where
    pub table : b.table ≡ table_of x.message.table_id
    pub size : length b.rows ≡ x.metrics_cnt
    pub distinct : Distinct (ids d b.rows)
    pub whose : AllOf d (row_ts x.message.ts) x.message.device_id b.rows

  abbrev pub AreBatches :
      (row_ts : ℕ → ℕ) (table_of : ℕ → Option ℕ) → List (Popped d) → List (Batch d) → Type 0
  AreBatches row_ts table_of [] [] = Unit {0}
  AreBatches row_ts table_of [] (b ∷ bs) = ⊥
  AreBatches row_ts table_of (x ∷ xs) [] = ⊥
  AreBatches row_ts table_of (x ∷ xs) (b ∷ bs) =
      IsBatch row_ts table_of x b × AreBatches row_ts table_of xs bs

  AreBatches-append :
      (row_ts : ℕ → ℕ) (table_of : ℕ → Option ℕ) (xs : List (Popped d)) (ys : List (Popped d))
      (bs cs : List (Batch d))
      → AreBatches row_ts table_of xs bs
      → AreBatches row_ts table_of ys cs
      → AreBatches row_ts table_of (xs ++ ys) (bs ++ cs)
  AreBatches-append row_ts table_of [] ys [] cs h k = k
  AreBatches-append row_ts table_of [] ys (b ∷ bs) cs h k = absurd h
  AreBatches-append row_ts table_of (x ∷ xs) ys [] cs h k = absurd h
  AreBatches-append row_ts table_of (x ∷ xs) ys (b ∷ bs) cs h k =
      (h.0, AreBatches-append row_ts table_of xs ys bs cs h.1 k)

  module _ (row_ts : ℕ → ℕ) (table_of : ℕ → Option ℕ) (dies : MessageType → Popped d → Bool) where
    -- the insertions that are given to the database: up to the one that ends the thread
    abbrev pub inserted : List (Popped d) → List (Popped d)
    inserted [] = []
    inserted (x ∷ xs) =
        insertion_of x.message.op x ++ (if dies x.message.op x then [] else inserted xs)

    -- what is sent to `statQueue`
    abbrev pub reports : List (Popped d) → List StatMessage
    reports [] = []
    reports (x ∷ xs) =
        report_of x.message.op (dies x.message.op x) x
        ++ (if dies x.message.op x then [] else reports xs)

    abbrev pub end_by : List (Popped d) → Ending
    end_by [] = returned
    end_by (x ∷ xs) = if dies x.message.op x then threw else end_by xs

    pub record Served (xs : List (Popped d)) (s : Session d) (w : Work d) : Type 0 where
      pub ending : w.ending ≡ end_by xs
      pub batches : AreBatches row_ts table_of (inserted xs) w.batches
      pub queued : w.session.stat_queue.items ≡ s.stat_queue.items ++ reports xs

    -- What one message leaves.
    pub record Handled (switch : Switch d) (op : MessageType) (s : Session d) (x : Popped d)
        : Type 0 where
      pub batches : List (Batch d)
      pub session : Session d
      pub ran : switch op s x ≡ some (batches, session, if dies op x then threw else returned)
      pub whose : AreBatches row_ts table_of (insertion_of op x) batches
      pub room : HasRoom session.stats
      pub queued : session.stat_queue.items ≡ s.stat_queue.items ++ report_of op (dies op x) x

    module _ (switch : Switch d)
        (law : (op : MessageType) (s : Session d) (x : Popped d)
          → HasRoom s.stats
          → Enough x
          → Handled switch op s x)
        (e : Env) (below : AllBelow e.show_stats) where
      pub serve_loop-Served :
          (xs : List (Popped d)) (s : Session d) (last_time : ℤ)
          → HasRoom s.stats
          → AllEnough xs
          → (w : Work d) × (serve_loop d switch e xs s last_time ≡ some w) × Served xs s w
      unfolding serve_loop
      serve_loop-Served [] s last_time room enough = (
        _,
        refl,
        record { ending = refl; batches = tt; queued = sym (append-nil s.stat_queue.items) },
      )
      serve_loop-Served (x ∷ xs) s last_time room enough =
          let h = law x.message.op s x room enough.0 in
          elim (Bool-cases (dies x.message.op x)) [
            | inl dead ↦ (
              record { session = h.session; batches = h.batches; shown = []; ending = threw },
              rw (h.ran, dead) refl,
              record {
                ending = rw dead refl;
                batches = rw (dead, append-nil (insertion_of x.message.op x)) h.whose;
                queued =
                    rw (dead, append-nil (report_of x.message.op true x)) (rw dead at h.queued);
              },
            )
            | inr alive ↦
                let (stats, time, lines, due, kept) =
                  display_if_due-some d e below h.session.stats h.room last_time x.end_time in
                let (w, ran, v) =
                  serve_loop-Served xs (record h.session { stats = stats }) time kept enough.1 in
                (
                  record w { batches = h.batches ++ w.batches; shown = lines ++ w.shown },
                  rw (h.ran, alive, due, ran) refl,
                  record {
                    ending = rw alive v.ending;
                    batches = rw alive (
                        AreBatches-append row_ts table_of (insertion_of x.message.op x)
                          (inserted xs) h.batches w.batches h.whose v.batches);
                    queued = rw alive (
                        v.queued
                        ∙ ap (λ q. q ++ reports xs) (rw alive at h.queued)
                        ∙ append_assoc s.stat_queue.items (report_of x.message.op false x)
                            (reports xs));
                  },
                )
          ]
