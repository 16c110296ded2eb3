-- ===== src/Metrics/Complete.antt =====
-- The metrics loop ends once enough distinct metrics have been drawn, with as many rows as wanted.
use metric_bench.Prelude.{
  ℕ, ◌+◌, ◌≤◌, ◌≡◌, refl, ap, ◌∙◌, Bool, true, false, ◌||◌, some, List, [], ◌∷◌, ◌++◌, arith,
  length, length-append, leb-true, leb-false, Bool-cases, inl, inr, ◌⊎◌, dec_le,
}
use metric_bench.Prelude.Double.{Double}
use metric_bench.Prelude.Int.{ℤ}
use metric_bench.Metrics.{has, Draw, Row, row, ids, next_rows, metrics_loop}
use metric_bench.Metrics.Fresh.{
  or_parts, or_left_false, fresh_known, fresh_new, Distinct, Distinct-snoc, fresh, fresh_other,
  length-le-fresh,
}

abbrev pub NoneSkipped : (ℤ → Bool) → List ℤ → Type 0
NoneSkipped skips [] = Unit {0}
NoneSkipped skips (x ∷ xs) = (skips x ≡ false) × NoneSkipped skips xs

pub none_skipped : (xs : List ℤ) → NoneSkipped (λ _. false) xs
none_skipped [] = tt
none_skipped (x ∷ xs) = (refl, none_skipped xs)

NoneSkipped-snoc :
    (skips : ℤ → Bool) (x : ℤ) (xs : List ℤ)
    → NoneSkipped skips xs
    → skips x ≡ false
    → NoneSkipped skips (xs ++ x ∷ [])
NoneSkipped-snoc skips x [] h k = (k, tt)
NoneSkipped-snoc skips x (y ∷ ys) h k = (h.0, NoneSkipped-snoc skips x ys h.1 k)

module _ (d : Double) where
  abbrev pub metrics : List (Draw d) → List ℤ
  metrics [] = []
  metrics (x ∷ xs) = x.metric ∷ metrics xs

  -- every row has the timestamp and the device
  abbrev pub AllOf : (ts device_id : ℕ) → List (Row d) → Type 0
  AllOf ts device_id [] = Unit {0}
  AllOf ts device_id (r ∷ rows) = (r.ts ≡ ts) × (r.device_id ≡ device_id) × AllOf ts device_id rows

  ids-append : (xs ys : List (Row d)) → ids d (xs ++ ys) ≡ ids d xs ++ ids d ys
  ids-append [] ys = refl
  ids-append (x ∷ xs) ys = ap (◌∷◌ x.metric_id) (ids-append xs ys)

  length-ids : (rows : List (Row d)) → length (ids d rows) ≡ length rows
  length-ids [] = refl
  length-ids (r ∷ rows) = omega (arith, length-ids rows)

  length-metrics : (draws : List (Draw d)) → length (metrics draws) ≡ length draws
  length-metrics [] = refl
  length-metrics (x ∷ xs) = omega (arith, length-metrics xs)

  AllOf-snoc :
      (ts device_id : ℕ) (r : Row d) (rows : List (Row d))
      → AllOf ts device_id rows
      → r.ts ≡ ts
      → r.device_id ≡ device_id
      → AllOf ts device_id (rows ++ r ∷ [])
  AllOf-snoc ts device_id r [] h e f = (e, f, tt)
  AllOf-snoc ts device_id r (x ∷ xs) h e f = (h.0, h.1, AllOf-snoc ts device_id r xs h.2 e f)

  module _ (skips : ℤ → Bool) (ts device_id : ℕ) where
    pub record IsChosen (rows : List (Row d)) : Type 0 where
      pub distinct : Distinct (ids d rows)
      pub kept : NoneSkipped skips (ids d rows)
      pub whose : AllOf ts device_id rows

    taken-IsChosen :
        (x : Draw d) (rows : List (Row d))
        → skips x.metric ≡ false
        → has x.metric (ids d rows) ≡ false
        → IsChosen rows
        → IsChosen (rows ++ row d ts device_id x ∷ [])
    taken-IsChosen x rows a b v = record {
      distinct =
          rw (ids-append rows (row d ts device_id x ∷ []))
            (Distinct-snoc x.metric (ids d rows) b v.distinct);
      kept =
          rw (ids-append rows (row d ts device_id x ∷ []))
            (NoneSkipped-snoc skips x.metric (ids d rows) v.kept a);
      whose = AllOf-snoc ts device_id (row d ts device_id x) rows v.whose refl refl;
    }

    -- A round leaves the rows, or adds one.
    next_rows-cases :
        (x : Draw d) (rows : List (Row d))
        → ((skips x.metric || has x.metric (ids d rows)) ≡ true)
            × (next_rows d skips ts device_id x rows ≡ rows)
          ⊎ (skips x.metric ≡ false)
            × (has x.metric (ids d rows) ≡ false)
            × (next_rows d skips ts device_id x rows ≡ rows ++ row d ts device_id x ∷ [])
    next_rows-cases x rows = elim (Bool-cases (skips x.metric || has x.metric (ids d rows))) [
      | inl e ↦ inl (e, rw e refl)
      | inr e ↦
          let (a, b) = or_parts (skips x.metric) (has x.metric (ids d rows)) e in
          inr (a, b, rw e refl)
    ]

    next_rows-IsChosen :
        (x : Draw d) (rows : List (Row d))
        → IsChosen rows
        → IsChosen (next_rows d skips ts device_id x rows)
          × (length (next_rows d skips ts device_id x rows) ≤ length rows + 1)
    next_rows-IsChosen x rows v = elim (next_rows-cases x rows) [
      | inl (e, same) ↦ rw same (v, omega arith)
      | inr (a, b, more) ↦ rw more (
        taken-IsChosen x rows a b v,
        omega (arith, length-append rows (row d ts device_id x ∷ [])),
      )
    ]

    module _ (cnt : ℕ) where
      abbrev Finishes : List (Draw d) → List (Row d) → Type 0
      Finishes draws rows =
          (result : List (Row d)) × (metrics_loop d skips ts device_id cnt draws rows ≡ some result)
          × (length result ≡ cnt)
          × IsChosen result

      -- A round before the end goes on with the next rows.
      round-Finishes :
          (x : Draw d) (xs : List (Draw d)) (rows : List (Row d)) {after : List (Row d)}
          → ¬ (cnt ≤ length rows)
          → next_rows d skips ts device_id x rows ≡ after
          → Finishes xs after
          → Finishes (x ∷ xs) rows
      unfolding metrics_loop
      round-Finishes x xs rows {after} open_end next (result, e, size, chosen) = (
        result,
        rw (leb-false cnt (length rows) (omega arith))
            (ap (λ t. metrics_loop d skips ts device_id cnt xs t) next ∙ e),
        size,
        chosen,
      )

      full-Finishes :
          (draws : List (Draw d)) (rows : List (Row d))
          → IsChosen rows
          → length rows ≤ cnt
          → cnt ≤ length rows
          → Finishes draws rows
      unfolding metrics_loop
      full-Finishes [] rows v le full =
          (rows, rw (leb-true cnt (length rows) full) refl, omega arith, v)
      full-Finishes (x ∷ xs) rows v le full =
          (rows, rw (leb-true cnt (length rows) full) refl, omega arith, v)

      good-Finishes :
          (good : List (Draw d)) (rows : List (Row d))
          → Distinct (metrics good)
          → NoneSkipped skips (metrics good)
          → IsChosen rows
          → length rows ≤ cnt
          → cnt ≤ length rows + fresh (metrics good) (ids d rows)
          → Finishes good rows
      good-Finishes [] rows g k v le enough = full-Finishes [] rows v le (omega arith)
      good-Finishes (x ∷ xs) rows g k v le enough = elim (dec_le cnt (length rows)) [
        | yes full ↦ full-Finishes (x ∷ xs) rows v le full
        | no open_end ↦ elim (next_rows-cases x rows) [
          | inl (e, same) ↦
              let known : has x.metric (ids d rows) ≡ true = or_left_false k.0 e in
              let fewer = fresh_known x.metric (metrics xs) (ids d rows) known in
              round-Finishes x xs rows open_end same
                (good-Finishes xs rows g.1 k.1 v le (omega (arith, enough, fewer)))
          | inr (a, b, more) ↦
              let added = row d ts device_id x in
              let now = ids-append rows (added ∷ []) in
              let rest = fresh_other (metrics xs) x.metric (ids d rows) g.0 in
              let here = fresh_new x.metric (metrics xs) (ids d rows) b in
              let len = length-append rows (added ∷ []) in
              round-Finishes x xs rows open_end more (
                good-Finishes xs (rows ++ added ∷ []) g.1 k.1 (taken-IsChosen x rows a b v)
                  (omega (arith, len))
                  (omega (arith, len, enough, here, rest, ap (fresh (metrics xs)) now)))
        ]
      ]

      -- Any draws before the good ones do no harm.
      noise-Finishes :
          (noise good : List (Draw d)) (rows : List (Row d))
          → Distinct (metrics good)
          → NoneSkipped skips (metrics good)
          → cnt ≤ length good
          → IsChosen rows
          → length rows ≤ cnt
          → Finishes (noise ++ good) rows
      noise-Finishes [] good rows g k many v le = good-Finishes good rows g k v le (
          omega (
            arith,
            length-le-fresh (metrics good) (ids d rows) g,
            length-metrics good,
            length-ids rows,
          ))
      noise-Finishes (x ∷ xs) good rows g k many v le = elim (dec_le cnt (length rows)) [
        | yes full ↦ full-Finishes (x ∷ xs ++ good) rows v le full
        | no open_end ↦
            let (still, short) = next_rows-IsChosen x rows v in
            round-Finishes x (xs ++ good) rows open_end refl (
              noise-Finishes xs good (next_rows d skips ts device_id x rows) g k many still
                (omega arith))
      ]

    -- Whatever is drawn first, once as many metrics as rows are wanted, which differ and are not
    -- skipped, have been drawn, `while (s.size() < metricsCnt)` has ended: with exactly
    -- `metrics_cnt` rows, no two of one metric, none of a skipped metric, and all with the
    -- timestamp and the device of the message.
    pub metrics_loop-Finishes :
        (metrics_cnt : ℕ) (noise good : List (Draw d))
        → Distinct (metrics good)
        → NoneSkipped skips (metrics good)
        → metrics_cnt ≤ length good
        → (rows : List (Row d)) × (metrics_loop d skips ts device_id metrics_cnt (noise ++ good) []
            ≡ some rows)
          × (length rows ≡ metrics_cnt)
          × IsChosen rows
    metrics_loop-Finishes metrics_cnt noise good g k many =
        noise-Finishes metrics_cnt noise good [] g k many
          record { distinct = tt; kept = tt; whose = tt } (omega arith)
