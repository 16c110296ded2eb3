-- ===== src/Metrics/Examples.antt =====
-- Draws over whole numbers.
use metric_bench.Prelude.{ℕ, ◌+◌, ◌≡◌, refl, arith, none, some, List, [], ◌∷◌, ◌++◌, length}
use metric_bench.Prelude.Double.{integers}
use metric_bench.Prelude.Int.{pos}
use metric_bench.Metrics.{
  Draw, Row, metrics_loop, out_of_range, mysql_rows, mongo_rows, cassandra_rows,
}
use metric_bench.Metrics.Complete.{IsChosen, metrics_loop-Finishes}

abbrev pub draw : ℕ → Draw integers
draw n = record { metric = pos n; value = pos (10 + n); cnt = pos 2 }

abbrev pub row_of : (ts n : ℕ) → Row integers
row_of ts n = record { ts = ts; device_id = 7; metric_id = pos n; cnt = pos 2; val = pos (10 + n) }

-- The metrics 0 and 1001 are out of range, and 4 comes a second time.
mysql_draws :
    mysql_rows integers 5 7 2 (draw 4 ∷ draw 0 ∷ draw 4 ∷ draw 1001 ∷ draw 9 ∷ draw 6 ∷ [])
    ≡ some (row_of 5 4 ∷ row_of 5 9 ∷ [])
unfolding mysql_rows
mysql_draws = refl

mongo_draws : mongo_rows integers 5 7 2 (draw 4 ∷ draw 0 ∷ []) ≡ some (row_of 5 4 ∷ row_of 5 0 ∷ [])
unfolding mongo_rows
mongo_draws = refl

too_few : mysql_rows integers 5 7 2 (draw 4 ∷ draw 4 ∷ []) ≡ none
unfolding mysql_rows
too_few = refl

cassandra_draws : cassandra_rows integers 4294968 7 1 (draw 4 ∷ []) ≡ some (row_of 704 4 ∷ [])
unfolding cassandra_rows
cassandra_draws = refl

metrics_loop-Finishes_example :
    (rows : List (Row integers)) × (metrics_loop integers out_of_range 5 7 2
        ((draw 4 ∷ draw 0 ∷ draw 4 ∷ draw 1001 ∷ []) ++ draw 9 ∷ draw 6 ∷ [])
        []
      ≡ some rows)
    × (length rows ≡ 2)
    × IsChosen integers out_of_range 5 7 rows
metrics_loop-Finishes_example =
    metrics_loop-Finishes integers out_of_range 5 7 2 (draw 4 ∷ draw 0 ∷ draw 4 ∷ draw 1001 ∷ [])
      (draw 9 ∷ draw 6 ∷ []) (refl, (refl, tt)) (refl, (refl, tt)) (omega arith)
