-- ===== src/LatencyStats/Output.antt =====
-- src/LatencyStats.hpp and src/LatencyStats.cpp: what is printed, as rows of values. The formats of
-- `sprintf` are left out.
use Prim.Native.String.{String}
use metric_bench.Prelude.{
  ℕ, zero, suc, ◌+◌, Option, none, some, List, [], ◌∷◌, ltb, ◌==◌, if◌then◌else◌, get_elem?, ◌>>=◌,
  map,
}
use metric_bench.Prelude.Double.{Double}
use metric_bench.Prelude.Int.{pos}
use metric_bench.Message.{MessageType, index, message_type_label}
use metric_bench.LatencyStats.Buckets.{MinMaxMs}
use metric_bench.LatencyStats.State.{
  LatencyStats, max_optypes, calc_means, calc_cumulative_buckets, get_bucket_bounds, get_max,
  get_mean,
}

module _ (d : Double) where
  open d use {Carrier, of_ℤ, div}

  -- the numbers that `boundsToString` prints, in ms
  abbrev pub bounds_ms : MinMaxMs → Carrier × Carrier
  bounds_ms b = (div (of_ℤ b.lo) (of_ℤ (pos 1000)), div (of_ℤ b.hi) (of_ℤ (pos 1000)))

  -- a line of `displayLatencyStats` or of `printCSVStats`
  pub record Row : Type 0 where
    pub label : String
    pub count : ℕ
    pub bounds : List (Carrier × Carrier)
    pub max : Carrier
    pub mean : Carrier

  -- the percentiles that both report
  abbrev pub percentiles : List ℕ
  percentiles = 25 ∷ 50 ∷ 75 ∷ 95 ∷ 99 ∷ []

  unfoldable pub row : LatencyStats d → ℕ → String → Row
  row s type label = record {
    label = label;
    count = s.sample_counts type;
    bounds = map (λ p. bounds_ms (get_bucket_bounds d s type p)) percentiles;
    max = get_max d s type;
    mean = get_mean d s type;
  }

  -- the loop of `displayLatencyStats` from type `type` on; `none` is a read past the labels
  unfoldable pub display_rows : LatencyStats d → (rounds type : ℕ) → Option (List Row)
  unfolding row
  display_rows s zero type = some []
  display_rows s (suc rounds) type = do
    rest ← display_rows s rounds (type + 1)
    if s.sample_counts type == 0
        then some rest
        else (get_elem? message_type_label type >>= λ label. some (row s type label ∷ rest))

  -- `displayLatencyStats`
  unfoldable pub display_latency_stats : LatencyStats d → LatencyStats d × Option (List Row)
  unfolding display_rows
  display_latency_stats s =
      let s' = calc_cumulative_buckets d (calc_means d s) in (s', display_rows s' max_optypes 0)

  -- `printCSVStats` over given types; `none` is a read of `sampleCounts` past its end
  unfoldable pub csv_rows : LatencyStats d → List MessageType → Option (List Row)
  unfolding row
  csv_rows s [] = some []
  csv_rows s (msg ∷ ops) = do
    rest ← csv_rows s ops
    if ltb (index msg) max_optypes
        then (if s.sample_counts (index msg) == 0
            then some rest
            else (get_elem? message_type_label (index msg) >>= λ label.
                some (row s (index msg) label ∷ rest)))
        else none
