-- ===== src/Stats/Examples.antt =====
-- Three messages and a print of src/Stats.cpp, over doubles that hold integers.
use metric_bench.Prelude.{ℕ, ◌+◌, ◌%◌, ◌^◌, ◌≤◌, ◌≡◌, refl, some, List, [], ◌∷◌, arith}
use metric_bench.Prelude.Double.{integers}
use metric_bench.Prelude.Int.{pos, ◌*ℤ◌}
use metric_bench.Message.{StatMessage, insert_metric, delete_device}
use metric_bench.Stats.{Stats, Row, nth, max_element}
use metric_bench.Stats.Rows.{IsWithin, reported}
use metric_bench.Stats.Conservation.{Event, message, print, received, run, run-conserves}

abbrev inserted : StatMessage
inserted = record { op = insert_metric; time_us = 40; cnt = 70 }

abbrev deleted : StatMessage
deleted = record { op = delete_device; time_us = 50; cnt = 1 }

abbrev events : List Event
events = message inserted ∷ print ∷ message deleted ∷ message inserted ∷ []

largest_time : max_element (40 ∷ 50 ∷ 7 ∷ []) ≡ some 50
unfolding max_element
largest_time = refl

zero_times : (n : ℕ) → pos 0 *ℤ pos n ≡ pos 0
unfolding ◌*ℤ◌
zero_times n = ground arith

first_element : IsWithin integers
unfolding nth
first_element size h = (0, rw (zero_times size) refl, h)

run-conserves_example :
    (s : Stats) × (rows : List Row) × (run integers events ≡ some (s, rows))
    × ((s.total_inserted + s.counts 2) % 2 ^ 64 ≡ 140 % 2 ^ 64)
    × ((i : ℕ)
        → 2 ≤ i
        → i ≤ 6
        → (reported i rows + s.counts i) % 2 ^ 64 ≡ received i events % 2 ^ 64)
run-conserves_example = run-conserves integers first_element events
