-- ===== src/Stats/Rows.antt =====
-- The rows that a print of src/Stats.cpp yields.
use metric_bench.Prelude.{
  ℕ, zero, suc, ◌+◌, ◌≤◌, ◌<◌, ◌≡◌, refl, sym, some, List, [], ◌∷◌, ◌++◌, map, ◌==◌, length,
  length-map, get_elem?-below, if◌then◌else◌, arith, ℕ_discrete, ==_iff, ==_ne, Bool-cases, inl,
  inr,
}
use metric_bench.Prelude.Double.{Double}
use metric_bench.Prelude.Int.{ℤ, pos}
use metric_bench.Message.{index, insert_metric}
use metric_bench.SampledStats.Output.{sort}
use metric_bench.SampledStats.Sorting.{length-sort}
use metric_bench.Stats.{
  Stats, max_element, largest, Row, nth, percentile, row_of, insert_row, optional_rows,
}

-- `percentile` with 0.99 stays within a vector that is not empty.
abbrev pub IsWithin : Double → Type 0
IsWithin d = (size : ℕ) → 0 < size → (k : ℕ) × (nth d (d.literal 99 2) size ≡ pos k) × (k < size)

-- the counts of a type in the rows
abbrev pub reported : ℕ → List Row → ℕ
reported i [] = 0
reported i (row ∷ rows) = (if row.type == i then row.count else 0) + reported i rows

pub reported-append :
    (i : ℕ) (xs ys : List Row) → reported i (xs ++ ys) ≡ reported i xs + reported i ys
reported-append i [] ys = omega arith
reported-append i (x ∷ xs) ys = omega (arith, reported-append i xs ys)

-- A type that has counts has execution times.
abbrev pub HasTimes : Stats → Type 0
HasTimes s = (i : ℕ) → 0 < s.counts i → 0 < length (s.exec_times i)

-- the counts that the rows of the listed types hold of type i
abbrev pub counts_of : (ℕ → ℕ) → ℕ → List ℕ → ℕ
counts_of f i [] = 0
counts_of f i (type ∷ types) = (if type == i then f type else 0) + counts_of f i types

pub shares :
    (f : ℕ → ℕ) (i : ℕ)
    → 2 ≤ i
    → i ≤ 6
    → (if 2 == i then f 2 else 0) + counts_of f i (3 ∷ 4 ∷ 5 ∷ 6 ∷ []) ≡ f i
shares f zero lo hi = absurd (omega arith)
shares f (suc zero) lo hi = absurd (omega arith)
shares f (suc (suc zero)) lo hi = omega arith
shares f (suc (suc (suc zero))) lo hi = omega arith
shares f (suc (suc (suc (suc zero)))) lo hi = omega arith
shares f (suc (suc (suc (suc (suc zero))))) lo hi = omega arith
shares f (suc (suc (suc (suc (suc (suc zero)))))) lo hi = omega arith
shares f (suc (suc (suc (suc (suc (suc (suc i))))))) lo hi = absurd (omega arith)

module _ (d : Double) where
  max_element-some : (xs : List ℕ) → 0 < length xs → (m : ℕ) × (max_element xs ≡ some m)
  unfolding max_element
  max_element-some [] h = absurd (omega arith)
  max_element-some (x ∷ xs) h = (largest x xs, refl)

  percentile-some :
      IsWithin d
      → (xs : List ℕ) → 0 < length xs
      → (p : ℤ) × (percentile d xs (d.literal 99 2) ≡ some p)
  unfolding percentile
  percentile-some within xs h =
      let (k, e, lt) = within (length xs) h in
      let (p, f) =
        get_elem?-below (sort (map pos xs)) k
          (omega (arith, length-sort (map pos xs), length-map xs pos)) in
      (p, rw e f)

  row_of-some :
      IsWithin d
      → (s : Stats) (i : ℕ) → 0 < length (s.exec_times i)
      → (row : Row) × (row_of d s i ≡ some row) × (row.type ≡ i) × (row.count ≡ s.counts i)
  unfolding row_of
  row_of-some within s i h =
      let (m, e) = max_element-some (s.exec_times i) h in
      let (p, f) = percentile-some within (s.exec_times i) h in
      (record { type = i; count = s.counts i; biggest = m; pct99 = p }, rw (e, f) refl, refl, refl)

  pub insert_row-some :
      IsWithin d
      → (s : Stats) → HasTimes s
      → (row : Row) × (insert_row d s ≡ some row)
        × (row.type ≡ index insert_metric)
        × (row.count ≡ s.counts (index insert_metric))
  unfolding insert_row
  insert_row-some within s h = elim (ℕ_discrete (s.counts (index insert_metric)) 0) [
    | yes none_yet ↦ (
      record { type = index insert_metric; count = 0; biggest = 0; pct99 = pos 0 },
      rw ((==_iff (s.counts (index insert_metric)) 0).1 none_yet) refl,
      refl,
      sym none_yet,
    )
    | no some_yet ↦
        let (row, e, t, c) = row_of-some within s (index insert_metric) (h _ (omega arith)) in
        (row, rw (==_ne some_yet) e, t, c)
  ]

  pub optional_rows-some :
      IsWithin d
      → (s : Stats) → HasTimes s
      → (types : List ℕ)
      → (rows : List Row) × (optional_rows d s types ≡ some rows)
        × ((i : ℕ) → reported i rows ≡ counts_of s.counts i types)
  unfolding optional_rows
  optional_rows-some within s h [] = ([], refl, λ i. refl)
  optional_rows-some within s h (type ∷ types) =
      let (rows, e, same) = optional_rows-some within s h types in
      elim (ℕ_discrete (s.counts type) 0) [
        | yes none_yet ↦ (
          rows,
          rw (e, (==_iff (s.counts type) 0).1 none_yet) refl,
          λ i. elim (Bool-cases (type == i)) [
            | inl hit ↦ rw hit (omega (arith, same i))
            | inr miss ↦ rw miss (omega (arith, same i))
          ],
        )
        | no some_yet ↦
            let (row, f, t, c) = row_of-some within s type (h type (omega arith)) in
            (row ∷ rows, rw (e, ==_ne some_yet, f) refl, λ i. rw (t, c) (omega (arith, same i)))
      ]
