-- ===== src/SampledStats/Output.antt =====
-- src/SampledStats.cpp: `displayStats` and `displayStatsAll`. A line is a record; the commas and the
-- stream are left out.
use Prim.Native.String.{String}
use metric_bench.Prelude.{
  ℕ, ◌+◌, ◌-◌, ◌/◌, min, Option, none, some, List, [], ◌∷◌, ◌++◌, ltb, leb, if◌then◌else◌, update,
  ◌>>=◌, take, drop, get_elem?,
}
use metric_bench.Prelude.Double.{Double}
use metric_bench.Prelude.Int.{ℤ, leb_ℤ, ◌-ℤ◌, quot}
use metric_bench.Message.{message_type_label}
use metric_bench.RunningMean.{RunningMean, first_sample, add_sample, mean}
use metric_bench.SampledStats.State.{SampledStats, max_optypes}

-- `std::sort` on integers
unfoldable pub insert_sorted : ℤ → List ℤ → List ℤ
insert_sorted x [] = x ∷ []
insert_sorted x (y ∷ ys) =
    let rest = insert_sorted x ys in if leb_ℤ x y then x ∷ y ∷ ys else y ∷ rest

unfoldable pub sort : List ℤ → List ℤ
unfolding insert_sorted
sort [] = []
sort (x ∷ xs) = insert_sorted x (sort xs)

-- `std::sort` from `start` (inclusive) to `end` (exclusive)
unfoldable pub sort_range : (start end : ℕ) → List ℤ → List ℤ
unfolding sort
sort_range start end row =
    take start row ++ (sort (take (end - start) (drop start row)) ++ drop end row)

module _ (d : Double) where
  -- `meanCalc->addSample` for each further sample
  abbrev pub add_samples : RunningMean d → List ℤ → RunningMean d
  add_samples m [] = m
  add_samples m (x ∷ xs) = add_samples (add_sample d m (d.of_ℤ x)) xs

  -- The mean starts from element 0, and goes on at `start + 1`.
  abbrev pub mean_from : List ℤ → (start end : ℕ) → (first : ℤ) → d.Carrier
  mean_from row start end first = mean d (
      add_samples (first_sample d (d.of_ℤ first)) (take (end - (start + 1)) (drop (start + 1) row)))

  pub record Values : Type 0 where
    pub mean : d.Carrier
    pub lowest : ℤ
    pub p25 : ℤ
    pub p50 : ℤ
    pub p75 : ℤ
    pub p90 : ℤ
    pub p95 : ℤ
    pub p99 : ℤ
    pub highest : ℤ

  -- the values that `displayStats` reads from the sorted row; `none` is a read past its end
  unfoldable pub values_of : List ℤ → (start end : ℕ) → Option Values
  values_of row start end = do
    let elems = end - start
    first ← get_elem? row 0
    lowest ← get_elem? row start
    p25 ← get_elem? row (start + elems / 4)
    p50 ← get_elem? row (start + elems / 2)
    p75 ← get_elem? row (end - 1 - elems / 4)
    p90 ← get_elem? row (end - 1 - elems / 10)
    p95 ← get_elem? row (end - 1 - elems / 20)
    p99 ← get_elem? row (end - 1 - elems / 100)
    highest ← get_elem? row (end - 1)
    some (record {
      mean = mean_from row start end first;
      lowest = lowest;
      p25 = p25;
      p50 = p50;
      p75 = p75;
      p90 = p90;
      p95 = p95;
      p99 = p99;
      highest = highest;
    })

  -- A line of output. Where the sample is empty the line ends in empty columns.
  pub record Line : Type 0 where
    pub thread_id : ℕ
    pub timestamp : ℤ
    pub label : String
    pub num_ops : ℕ
    pub errors : ℕ
    pub ops : ℕ
    pub sample_duration : ℤ
    pub elems : ℕ
    pub values : Option Values

  -- the line for a type, its sample sorted
  abbrev pub line_of :
      SampledStats
      → (type : ℕ) → String
      → (start_ms now_ms : ℤ) → (ops elems : ℕ) → Option Values
      → Line
  line_of s type label start_ms now_ms ops elems values = record {
    thread_id = s.thread_id;
    timestamp = quot now_ms 1000;
    label = label;
    num_ops = s.num_ops type;
    errors = s.errors type;
    ops = ops;
    sample_duration = now_ms -ℤ start_ms;
    elems = elems;
    values = values;
  }

  -- `displayStats` of one type, whose number may be past the last of the arrays
  unfoldable pub display_stats :
      SampledStats → (type start end : ℕ) → (start_ms now_ms : ℤ) → Option (SampledStats × Line)
  unfolding sort_range values_of
  display_stats s type start end start_ms now_ms = do
    label ← get_elem? message_type_label type
    if ltb type max_optypes
        then (if leb end start
            then some (s, line_of s type label start_ms now_ms 0 0 none)
            else (values_of (sort_range start end (s.samples type)) start end >>= λ values. some (
              record s { samples = update s.samples type (sort_range start end (s.samples type)) },
              line_of s type label start_ms now_ms (s.ops_since_reset type) (end - start)
                  (some values),
            )))
        else none

  -- `displayStats` of a vector of types: the lines that are written, each of them flushed before the next
  -- type is looked at, and the statistics, or `none` behind the line where an array is read past its end
  unfoldable pub display_types :
      SampledStats → (types : List ℕ) → (start_ms now_ms : ℤ) → List Line × Option SampledStats
  unfolding display_stats
  display_types s [] start_ms now_ms = ([], some s)
  display_types s (type ∷ types) start_ms now_ms =
      elim (display_stats s type 0 (min s.max_samples (s.ops_since_reset type)) start_ms now_ms) [
        | none ↦ ([], none)
        | some one ↦
            let rest = display_types one.0 types start_ms now_ms in (one.1 ∷ rest.0, rest.1)
      ]

  -- `displayStatsAll`
  unfoldable pub display_stats_all :
      SampledStats → (start_ms now_ms : ℤ) → List Line × Option SampledStats
  unfolding display_types
  display_stats_all s start_ms now_ms = display_types s (0 ∷ 1 ∷ 2 ∷ 3 ∷ []) start_ms now_ms
