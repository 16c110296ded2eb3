-- ===== src/Stats/Conservation.antt =====
-- The counts of src/Stats.cpp over any sequence of messages and prints.
use metric_bench.Prelude.{
  ℕ, ◌+◌, ◌%◌, ◌^◌, ◌≤◌, ◌<◌, ◌≡◌, refl, ap, Option, some, List, [], ◌∷◌, ◌++◌, update, ◌==◌,
  length-append, if◌then◌else◌, ◌>>=◌, arith, ℕ_discrete, ==_iff, ==_ne,
}
use metric_bench.Prelude.Double.{Double}
use metric_bench.Message.{StatMessage, index, insert_metric, select_k3}
use metric_bench.Stats.{Stats, init, receive, Row, stats_print}
use metric_bench.Stats.Rows.{
  IsWithin, reported, reported-append, HasTimes, shares, insert_row-some, optional_rows-some,
}

pub data Event : Type 0 where
  message : StatMessage → Event
  print : Event

-- the counts of a type in the messages
abbrev pub received : ℕ → List Event → ℕ
received i [] = 0
received i (message sm ∷ es) = received i es + (if index sm.op == i then sm.cnt else 0)
received i (print ∷ es) = received i es

-- A message adds to the counts modulo 2 ^ 64.
counted_mod :
    (f : ℕ → ℕ) (a r n k i : ℕ)
    → (a + f i) % 2 ^ 64 ≡ r % 2 ^ 64
    → (a + update f k ((f k + n) % 2 ^ 64) i) % 2 ^ 64 ≡ (r + (if k == i then n else 0)) % 2 ^ 64
counted_mod f a r n k i e = elim (ℕ_discrete k i) [
  | yes same ↦ rw ((==_iff k i).1 same) (omega (arith, e, ap f same))
  | no differ ↦ rw (==_ne differ) (omega (arith, e))
]

module _ (d : Double) where
  -- The events in their order, the last one first in the list, and all rows printed.
  unfoldable pub run : List Event → Option (Stats × List Row)
  run [] = some (init, [])
  run (message sm ∷ es) = run es >>= λ r. some (receive r.0 sm, r.1)
  run (print ∷ es) = run es >>= λ r. stats_print d r.0 >>= λ t. some (t.0, r.1 ++ t.1)

  -- What a run keeps.
  record Kept (es : List Event) (s : Stats) (rows : List Row) : Type 0 where
    times : HasTimes s
    total :
        (s.total_inserted + s.counts (index insert_metric)) % 2 ^ 64
        ≡ received (index insert_metric) es % 2 ^ 64
    conserved :
        (i : ℕ)
        → index insert_metric ≤ i
        → i ≤ index select_k3
        → (reported i rows + s.counts i) % 2 ^ 64 ≡ received i es % 2 ^ 64

  receive-Kept :
      (es : List Event) (s : Stats) (rows : List Row) (sm : StatMessage)
      → Kept es s rows
      → Kept (message sm ∷ es) (receive s sm) rows
  unfolding receive
  receive-Kept es s rows sm v = record {
    times = λ i h. elim (ℕ_discrete (index sm.op) i) [
      | yes same ↦
          rw ((==_iff (index sm.op) i).1 same)
            (omega (arith, length-append (s.exec_times (index sm.op)) (sm.time_us ∷ [])))
      | no differ ↦
          let before : 0 < s.counts i = rw (==_ne differ) at h in
          rw (==_ne differ) (v.times i before)
    ];
    total = counted_mod s.counts s.total_inserted (received 2 es) sm.cnt (index sm.op) 2 v.total;
    conserved = λ i lo hi.
        counted_mod s.counts (reported i rows) (received i es) sm.cnt (index sm.op) i
          (v.conserved i lo hi);
  }

  print-Kept :
      IsWithin d
      → (es : List Event) (s : Stats) (rows : List Row) → Kept es s rows
      → (s' : Stats) × (more : List Row) × (stats_print d s ≡ some (s', more))
        × Kept (print ∷ es) s' (rows ++ more)
  unfolding stats_print
  print-Kept within es s rows v =
      let (first, e, t, c) = insert_row-some d within s v.times in
      let (others, f, same) = optional_rows-some d within s v.times (3 ∷ 4 ∷ 5 ∷ 6 ∷ []) in
      (
        record {
          counts = λ _. 0;
          exec_times = λ _. [];
          total_inserted = (s.total_inserted + s.counts (index insert_metric)) % 2 ^ 64;
        },
        first ∷ others,
        rw (e, f) refl,
        record {
          times = λ i h. absurd (omega arith);
          total = omega (arith, v.total);
          conserved = λ i lo hi.
              rw (reported-append i rows (first ∷ others), t, c)
                (omega (arith, same i, shares s.counts i lo hi, v.conserved i lo hi));
        },
      )

  run-Kept :
      IsWithin d
      → (es : List Event)
      → (s : Stats) × (rows : List Row) × (run es ≡ some (s, rows)) × Kept es s rows
  unfolding run init
  run-Kept within [] = (
    init,
    [],
    refl,
    record { times = λ i h. absurd (omega arith); total = refl; conserved = λ i lo hi. refl },
  )
  run-Kept within (message sm ∷ es) =
      let (s, rows, e, v) = run-Kept within es in
      (receive s sm, rows, rw e refl, receive-Kept es s rows sm v)
  run-Kept within (print ∷ es) =
      let (s, rows, e, v) = run-Kept within es in
      let (s', more, f, w) = print-Kept within es s rows v in (s', rows ++ more, rw (e, f) refl, w)

-- Over any sequence of messages and prints: no print fails, where the position that `percentile` computes
-- for 0.99 is within a vector that is not empty. For each type that is printed, the printed counts and
-- those of the current interval add up to the counts of its messages, and `totalInserted` and the current
-- count to those of InsertMetric, all modulo 2 ^ 64.
pub run-conserves :
    (d : Double)
    → IsWithin d
    → (es : List Event)
    → (s : Stats) × (rows : List Row) × (run d es ≡ some (s, rows))
      × ((s.total_inserted + s.counts (index insert_metric)) % 2 ^ 64
          ≡ received (index insert_metric) es % 2 ^ 64)
      × ((i : ℕ)
          → index insert_metric ≤ i
          → i ≤ index select_k3
          → (reported i rows + s.counts i) % 2 ^ 64 ≡ received i es % 2 ^ 64)
run-conserves d within es =
    let (s, rows, e, v) = run-Kept d within es in (s, rows, e, v.total, v.conserved)
