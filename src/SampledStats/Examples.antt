-- ===== src/SampledStats/Examples.antt =====
-- A sample of three latencies of src/SampledStats.cpp, over doubles that hold integers.
use mathlib.Core.List.{Perm}
use metric_bench.Prelude.{ℕ, ◌≡◌, refl, true, false, some, none, List, [], ◌∷◌, arith}
use metric_bench.Prelude.Int.{pos, negsuc}
use metric_bench.Prelude.Double.{integers}
use metric_bench.Message.{insert, insert_metric, select_k1}
use metric_bench.SampledStats.State.{SampledStats, init, store_sample, add_stats}
use metric_bench.SampledStats.Output.{Values, Line, display_stats, sort, insert_sorted}
use metric_bench.SampledStats.Storing.{Call, Stored, add_all, add_all-Stored}
use metric_bench.SampledStats.Reporting.{HasRows, IsAscending, display_stats-IsAscending}

abbrev filled : SampledStats
filled = record {
  thread_id = 1;
  max_samples = 3;
  num_ops = λ _. 3;
  samples = λ _. pos 7 ∷ pos 2 ∷ pos 5 ∷ [];
  ops_since_reset = λ _. 3;
  minimums = λ _. pos 2;
  maximums = λ _. pos 7;
  errors = λ _. 0;
}

abbrev calls : List (Call integers)
calls =
    record { type = insert; timetaken = pos 5; error = true; probability = pos 0; rand = 9 }
    ∷ record {
      type = insert_metric;
      timetaken = pos 4;
      error = false;
      probability = pos 0;
      rand = 9;
    }
    ∷ []

sort_three : sort (pos 7 ∷ pos 2 ∷ pos 5 ∷ []) ≡ pos 2 ∷ pos 5 ∷ pos 7 ∷ []
unfolding sort insert_sorted
sort_three = refl

-- A full row: the draw 8 picks the element 8 % 3.
replaced :
    store_sample integers 3 6 (pos 7 ∷ pos 2 ∷ pos 5 ∷ []) (pos 9) (negsuc 0) 8
    ≡ some (pos 7 ∷ pos 2 ∷ pos 9 ∷ [])
unfolding store_sample
replaced = refl

-- `Select_K1` is past the end of the arrays.
select_k1_past_end : add_stats integers filled select_k1 (pos 4) false (pos 0) 0 ≡ none
unfolding add_stats
select_k1_past_end = refl

add_all-Stored_example :
    (s : SampledStats) × (add_all integers (init 1 3) calls ≡ some s)
    × (s.max_samples ≡ 3)
    × ((i : ℕ) → Stored integers 3 calls s i)
add_all-Stored_example =
    add_all-Stored integers 1 3 calls (omega arith) (omega arith, (omega arith, tt))

display_stats-IsAscending_example :
    (s' : SampledStats) × (line : Line integers) × (v : Values integers) × (display_stats integers
        filled 2 0 3
        (pos 0)
        (pos 5000)
      ≡ some (s', line))
    × (line.values ≡ some v)
    × IsAscending v
    × Perm (s'.samples 2) (filled.samples 2)
    × HasRows s'
display_stats-IsAscending_example =
    display_stats-IsAscending integers filled 2 0 3 (pos 0) (pos 5000) (λ _. refl) (omega arith)
      (omega arith) (omega arith)
