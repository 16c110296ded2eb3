-- ===== src/Stats.antt =====
-- src/Stats.hpp and src/Stats.cpp: the counts and execution times of an interval, and what is printed of
-- them. Both threads hold `lockCounts` for a whole round, so a message and a print are one step each.
pub mod Rows
pub mod Conservation
pub mod Examples
use metric_bench.Prelude.{
  ℕ, zero, suc, ◌+◌, ◌%◌, ◌^◌, max, Option, none, some, List, [], ◌∷◌, ◌++◌, map, update, ◌==◌,
  length, get_elem?, if◌then◌else◌, ◌>>=◌,
}
use metric_bench.Prelude.Double.{Double}
use metric_bench.Prelude.Int.{ℤ, pos, negsuc}
use metric_bench.Message.{
  StatMessage, index, insert_metric, delete_device, select_k1, select_k2, select_k3,
}
use metric_bench.SampledStats.Output.{sort}

-- `Counts`, `execTimes` and the local `totalInserted`. A missing key of `Counts` reads as 0, and one of
-- `execTimes` as no times. The counts are of type `unsigned long`.
pub record Stats : Type 0 where
  pub counts : ℕ → ℕ
  pub exec_times : ℕ → List ℕ
  pub total_inserted : ℕ

unfoldable pub init : Stats
init = record { counts = λ _. 0; exec_times = λ _. []; total_inserted = 0 }

-- a round of `Run`'s loop
unfoldable pub receive : Stats → StatMessage → Stats
receive s sm = record s {
  counts = update s.counts (index sm.op) ((s.counts (index sm.op) + sm.cnt) % 2 ^ 64);
  exec_times = update s.exec_times (index sm.op) (s.exec_times (index sm.op) ++ sm.time_us ∷ []);
}

-- `std::max_element`; `none` is the end of an empty vector
abbrev pub largest : ℕ → List ℕ → ℕ
largest a [] = a
largest a (x ∷ xs) = largest (max a x) xs

unfoldable pub max_element : List ℕ → Option ℕ
max_element [] = none
max_element (x ∷ xs) = some (largest x xs)

-- What is printed of a type: `cnts`, `biggest` and `pct99`.
pub record Row : Type 0 where
  pub type : ℕ
  pub count : ℕ
  pub biggest : ℕ
  pub pct99 : ℤ

module _ (d : Double) where
  -- the position of `nth` in `percentile`
  unfoldable pub nth : (percent : d.Carrier) → (size : ℕ) → ℤ
  nth percent size = d.trunc (d.div (d.mul percent (d.of_ℤ (pos size))) (d.of_ℤ (pos 100)))

  abbrev pub elem_at : List ℤ → ℤ → Option ℤ
  elem_at xs (pos i) = get_elem? xs i
  elem_at xs (negsuc i) = none

  -- `percentile`; `none` is a read past the end. `std::nth_element` leaves at `nth` the element that is
  -- there in the sorted vector.
  unfoldable pub percentile : List ℕ → (percent : d.Carrier) → Option ℤ
  unfolding nth
  percentile vector percent = elem_at (sort (map pos vector)) (nth percent (length vector))

  -- the row of a type that has counts
  unfoldable pub row_of : Stats → (type : ℕ) → Option Row
  unfolding max_element percentile
  row_of s type = do
    biggest ← max_element (s.exec_times type)
    pct99 ← percentile (s.exec_times type) (d.literal 99 2)
    some (record { type = type; count = s.counts type; biggest = biggest; pct99 = pct99 })

  -- the row of `InsertMetric`, printed in any case
  unfoldable pub insert_row : Stats → Option Row
  unfolding row_of
  insert_row s =
      if s.counts (index insert_metric) == 0
      then some (record { type = index insert_metric; count = 0; biggest = 0; pct99 = pos 0 })
      else row_of s (index insert_metric)

  -- the rows of the other types, printed where they have counts
  unfoldable pub optional_rows : Stats → List ℕ → Option (List Row)
  unfolding row_of
  optional_rows s [] = some []
  optional_rows s (type ∷ types) = do
    rest ← optional_rows s types
    if s.counts type == 0 then some rest else (row_of s type >>= λ row. some (row ∷ rest))

  -- a round of `statsPrint`'s loop, after its sleep
  unfoldable pub stats_print : Stats → Option (Stats × List Row)
  unfolding insert_row optional_rows
  stats_print s = do
    first ← insert_row s
    others ←
        optional_rows s
          (index delete_device ∷ index select_k1 ∷ index select_k2 ∷ index select_k3 ∷ [])
    some (
      record {
        counts = λ _. 0;
        exec_times = λ _. [];
        total_inserted = (s.total_inserted + s.counts (index insert_metric)) % 2 ^ 64;
      },
      first ∷ others,
    )
