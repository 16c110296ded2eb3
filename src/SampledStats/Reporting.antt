-- ===== src/SampledStats/Reporting.antt =====
-- What `displayStats` of src/SampledStats.cpp reports.
use Prim.Native.String.{String}
use mathlib.Core.List.{Perm}
use metric_bench.Prelude.{
  ℕ, zero, suc, ◌+◌, ◌-◌, ◌/◌, ◌≤◌, ◌<◌, ◌≡◌, refl, ◌∙◌, Option, some, none, List, [], ◌∷◌, ap, min,
  arith, length, get_elem?, get_elem?-below, lt→ltb, leb-false, ltb, update, true, ℕ_discrete,
  ==_iff, ==_ne,
}
use metric_bench.Prelude.Double.{Double}
use metric_bench.Prelude.Int.{ℤ, ◌≤ℤ◌}
use metric_bench.Message.{message_type_label}
use metric_bench.SampledStats.State.{SampledStats, max_optypes}
use metric_bench.SampledStats.Output.{
  sort_range, Values, values_of, mean_from, Line, line_of, display_stats, display_types,
  display_stats_all,
}
use metric_bench.SampledStats.Sorting.{length-sort_range, sort_range-Perm, sort_range_mono}

-- The reported percentiles ascend.
pub record IsAscending {d : Double} (v : Values d) : Type 0 where
  pub from_lowest : v.lowest ≤ℤ v.p25
  pub from_p25 : v.p25 ≤ℤ v.p50
  pub from_p50 : v.p50 ≤ℤ v.p75
  pub from_p75 : v.p75 ≤ℤ v.p90
  pub from_p90 : v.p90 ≤ℤ v.p95
  pub from_p95 : v.p95 ≤ℤ v.p99
  pub from_p99 : v.p99 ≤ℤ v.highest

-- Every row has room for the samples of its type.
abbrev pub HasRows : SampledStats → Type 0
HasRows s = (type : ℕ) → length (s.samples type) ≡ s.max_samples

module _ (d : Double) where
  values_of-sort_range :
      (row : List ℤ) (start end : ℕ)
      → start < end
      → end ≤ length row
      → (v : Values d) × (values_of d (sort_range start end row) start end ≡ some v) × IsAscending v
  unfolding values_of
  values_of-sort_range row start end h le =
      let (first, e) = at 0 (omega arith) in
      let (lowest, e0) = at start h in
      let (p25, e1) = at (start + (end - start) / 4) (omega arith) in
      let (p50, e2) = at (start + (end - start) / 2) (omega arith) in
      let (p75, e3) = at (end - 1 - (end - start) / 4) (omega arith) in
      let (p90, e4) = at (end - 1 - (end - start) / 10) (omega arith) in
      let (p95, e5) = at (end - 1 - (end - start) / 20) (omega arith) in
      let (p99, e6) = at (end - 1 - (end - start) / 100) (omega arith) in
      let (highest, e7) = at (end - 1) (omega arith) in
      (
        record {
          mean = mean_from d (sort_range start end row) start end first;
          lowest = lowest;
          p25 = p25;
          p50 = p50;
          p75 = p75;
          p90 = p90;
          p95 = p95;
          p99 = p99;
          highest = highest;
        },
        rw (e, e0, e1, e2, e3, e4, e5, e6, e7) refl,
        record {
          from_lowest = mono _ _ _ _ (omega arith) (omega arith) (omega arith) e0 e1;
          from_p25 = mono _ _ _ _ (omega arith) (omega arith) (omega arith) e1 e2;
          from_p50 = mono _ _ _ _ (omega arith) (omega arith) (omega arith) e2 e3;
          from_p75 = mono _ _ _ _ (omega arith) (omega arith) (omega arith) e3 e4;
          from_p90 = mono _ _ _ _ (omega arith) (omega arith) (omega arith) e4 e5;
          from_p95 = mono _ _ _ _ (omega arith) (omega arith) (omega arith) e5 e6;
          from_p99 = mono _ _ _ _ (omega arith) (omega arith) (omega arith) e6 e7;
        },
      )
    where
      at : (i : ℕ) → i < end → (a : ℤ) × (get_elem? (sort_range start end row) i ≡ some a)
      at i lt =
          get_elem?-below (sort_range start end row) i
            (omega (arith, length-sort_range start end row (omega arith)))

      mono :
          (i j : ℕ) (a b : ℤ)
          → start ≤ i
          → i ≤ j
          → j < end
          → get_elem? (sort_range start end row) i ≡ some a
          → get_elem? (sort_range start end row) j ≡ some b
          → a ≤ℤ b
      mono i j a b p q r f g = sort_range_mono start end row i j a b le p q r f g

  label_of :
      (type : ℕ)
      → type < max_optypes
      → (label : String) × (get_elem? message_type_label type ≡ some label)
  label_of type h = get_elem?-below message_type_label type (omega arith)

-- What a line shows: an empty sample, or ascending percentiles.
abbrev pub IsReported : {d : Double} → ℕ → Option (Values d) → Type 0
IsReported elems none = elems ≡ 0
IsReported elems (some v) = (0 < elems) × IsAscending v

abbrev pub AllReported : {d : Double} → List (Line d) → Type 0
AllReported [] = Unit {0}
AllReported (line ∷ lines) = IsReported line.elems line.values × AllReported lines

update-HasRows :
    (s : SampledStats) (type start end : ℕ)
    → HasRows s
    → start ≤ end
    → HasRows (record s { samples = update s.samples type (sort_range start end (s.samples type)) })
update-HasRows s type start end rows le other = elim (ℕ_discrete type other) [
  | yes same ↦
      rw ((==_iff type other).1 same) (length-sort_range start end (s.samples type) le ∙ rows type)
  | no differ ↦ rw (==_ne differ) (rows other)
]

abbrev pub AllBelow : List ℕ → Type 0
AllBelow [] = Unit {0}
AllBelow (type ∷ types) = (type < max_optypes) × AllBelow types

-- Where every row has room for `maxsamples` samples, `displayStats` of a type below `MAX_OPTYPES`, over a
-- range within the row that is not empty, reads no element past the end. Its percentiles ascend from the
-- lowest to the highest value, and the row keeps its samples, rearranged.
pub display_stats-IsAscending :
    (d : Double) (s : SampledStats) (type start end : ℕ) (start_ms now_ms : ℤ)
    → HasRows s
    → type < max_optypes
    → start < end
    → end ≤ s.max_samples
    → (s' : SampledStats) × (line : Line d) × (v : Values d) × (display_stats d s type start end
          start_ms now_ms
        ≡ some (s', line))
      × (line.values ≡ some v)
      × IsAscending v
      × Perm (s'.samples type) (s.samples type)
      × HasRows s'
unfolding display_stats
display_stats-IsAscending d s type start end start_ms now_ms rows h lt le =
    let (label, l) = label_of d type h in
    let (v, e, up) =
      values_of-sort_range d (s.samples type) start end lt (omega (arith, rows type)) in
    let inside : ltb type max_optypes ≡ true = lt→ltb type max_optypes h in
    (
      record s { samples = update s.samples type (sort_range start end (s.samples type)) },
      line_of d s type label start_ms now_ms (s.ops_since_reset type) (end - start) (some v),
      v,
      rw (l, inside, leb-false end start lt, e) refl,
      refl,
      up,
      rw ((==_iff type type).1 refl) (sort_range-Perm start end (s.samples type) (omega arith)),
      update-HasRows s type start end rows (omega arith),
    )

module _ (d : Double) (start_ms now_ms : ℤ) where
  pub display_stats-HasRows :
      (s : SampledStats) (type end : ℕ)
      → HasRows s
      → type < max_optypes
      → end ≤ s.max_samples
      → (s' : SampledStats) × (line : Line d) × (display_stats d s type 0 end start_ms now_ms
          ≡ some (s', line))
        × HasRows s'
        × IsReported line.elems line.values
  unfolding display_stats
  display_stats-HasRows s type zero rows h le =
      let (label, l) = label_of d type h in
      let inside : ltb type max_optypes ≡ true = lt→ltb type max_optypes h in
      (s, line_of d s type label start_ms now_ms 0 0 none, rw (l, inside) refl, rows, refl)
  display_stats-HasRows s type (suc n) rows h le =
      let (label, l) = label_of d type h in
      let (v, e, up) =
        values_of-sort_range d (s.samples type) 0 (suc n) (omega arith)
          (omega (arith, rows type)) in
      let inside : ltb type max_optypes ≡ true = lt→ltb type max_optypes h in
      (
        record s { samples = update s.samples type (sort_range 0 (suc n) (s.samples type)) },
        line_of d s type label start_ms now_ms (s.ops_since_reset type) (suc n - 0) (some v),
        rw (l, inside, leb-false (suc n) 0 (omega arith), e) refl,
        update-HasRows s type 0 (suc n) rows (omega arith),
        (omega arith, up),
      )

  pub display_types-AllReported :
      (types : List ℕ) (s : SampledStats)
      → HasRows s
      → AllBelow types
      → (s' : SampledStats) × (lines : List (Line d)) × (display_types d s types start_ms now_ms
          ≡ (lines, some s'))
        × (length lines ≡ length types)
        × AllReported lines
        × HasRows s'
  unfolding display_types
  display_types-AllReported [] s rows h = (s, [], refl, refl, tt, rows)
  display_types-AllReported (type ∷ types) s rows h =
      let (s', line, e, rows', shown) =
        display_stats-HasRows s type (min s.max_samples (s.ops_since_reset type)) rows h.0
          (omega arith) in
      let (s'', lines, f, len, all, rows'') = display_types-AllReported types s' rows' h.1 in
      (s'', line ∷ lines, rw (e, f) refl, ap suc len, (shown, all), rows'')

-- Where every row has room for `maxsamples` samples, `displayStatsAll` reads no element past the end. It
-- prints a line for each of the four types: an empty sample's line, or one whose percentiles ascend. The
-- rows keep their room.
pub display_stats_all-AllReported :
    (d : Double) (s : SampledStats) (start_ms now_ms : ℤ)
    → HasRows s
    → (s' : SampledStats) × (lines : List (Line d)) × (display_stats_all d s start_ms now_ms
        ≡ (lines, some s'))
      × (length lines ≡ 4)
      × AllReported lines
      × HasRows s'
unfolding display_stats_all
display_stats_all-AllReported d s start_ms now_ms rows =
    display_types-AllReported d start_ms now_ms (0 ∷ 1 ∷ 2 ∷ 3 ∷ []) s rows
      (omega arith, (omega arith, (omega arith, (omega arith, tt))))
