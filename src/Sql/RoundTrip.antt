-- ===== src/Sql/RoundTrip.antt =====
-- The statement of `InsertQuery` says what the metrics loop has made: it is read back.
use mathlib.Core.List.{append_assoc}
use metric_bench.Prelude.{
  ℕ, zero, suc, ◌≤◌, ◌≡◌, refl, Bool, true, false, some, List, [], ◌∷◌, ◌++◌, map, length,
  length-append, if◌then◌else◌, arith, ◌>>=◌,
}
use metric_bench.Prelude.Double.{Double}
use metric_bench.Metrics.{Row}
use metric_bench.Uri.{Bytes}
use metric_bench.Uri.Slices.{Lacks}
use metric_bench.Main.{codes}
use metric_bench.Text.{decimal, decimal_ℤ}
use metric_bench.Sql.Reading.{
  strip, Entry, read_row, read_rows, read_insert, read_digits-decimal, read_ℤ-decimal_ℤ,
  before-append, strip-append,
}
use metric_bench.Sql.{row_text, values_text, insert_text}

module _ (d : Double) (show : d.Carrier → Bytes) where
  -- what the statement says of a row
  abbrev pub entry : Row d → Entry
  entry r = record {
    ts = r.ts;
    device_id = r.device_id;
    metric_id = r.metric_id;
    cnt = r.cnt;
    val = show r.val;
  }

module _ (d : Double) (show : d.Carrier → Bytes)
    (closed : (v : d.Carrier) → Lacks b')' (show v)) where
  -- the text of a row with what follows it, its parts bracketed to the right
  row_text-append :
      (r : Row d) (rest : Bytes)
      → row_text d show r ++ rest
        ≡ codes "(from_unixtime("
          ++ (decimal r.ts
              ++ (codes "), "
                  ++ (decimal r.device_id
                      ++ (codes ", "
                          ++ (decimal_ℤ r.metric_id
                              ++ (codes ","
                                  ++ (decimal_ℤ r.cnt
                                      ++ (codes "," ++ (show r.val ++ b')' ∷ rest)))))))))
  unfolding row_text
  row_text-append r rest = simp append_assoc

  read_row-row_text :
      (r : Row d) (rest : Bytes)
      → read_row (row_text d show r ++ rest) ≡ some (entry d show r, rest)
  unfolding read_row
  read_row-row_text r rest =
      rw
        (
          row_text-append r rest,
          read_digits-decimal r.ts _ refl,
          read_digits-decimal r.device_id _ refl,
          read_ℤ-decimal_ℤ r.metric_id _ refl,
          read_ℤ-decimal_ℤ r.cnt _ refl,
          before-append b')' (show r.val) rest (closed r.val),
        )
        refl

  length-row_text : (r : Row d) → 1 ≤ length (row_text d show r)
  unfolding row_text
  length-row_text r = omega arith

  length-values_text :
      (notfirst : Bool) (rows : List (Row d))
      → length rows ≤ length (values_text d show notfirst rows)
  unfolding values_text
  length-values_text notfirst [] = omega arith
  length-values_text notfirst (r ∷ rows) = omega (
    arith,
    length-append (if notfirst then codes "," else [])
        (row_text d show r ++ values_text d show true rows),
    length-append (row_text d show r) (values_text d show true rows),
    length-row_text r,
    length-values_text true rows,
  )

  read_rows-step :
      (fuel : ℕ) (notfirst : Bool) (text : Bytes)
      → 1 ≤ length text
      → read_rows (suc fuel) notfirst text ≡ (
          strip (if notfirst then codes "," else []) text >>= λ s.
          read_row s >>= λ r. read_rows fuel true r.1 >>= λ rows. some (r.0 ∷ rows))
  unfolding read_rows
  read_rows-step fuel notfirst [] h = absurd (omega arith)
  read_rows-step fuel notfirst (c ∷ cs) h = refl

  values_text-cons :
      (notfirst : Bool) (r : Row d) (rows : List (Row d))
      → values_text d show notfirst (r ∷ rows)
        ≡ (if notfirst then codes "," else [])
          ++ (row_text d show r ++ values_text d show true rows)
  unfolding values_text
  values_text-cons notfirst r rows = refl

  read_rows-nil : (fuel : ℕ) (notfirst : Bool) → read_rows fuel notfirst [] ≡ some []
  unfolding read_rows
  read_rows-nil zero notfirst = refl
  read_rows-nil (suc fuel) notfirst = refl

  values_text-nil : (notfirst : Bool) → values_text d show notfirst [] ≡ []
  unfolding values_text
  values_text-nil notfirst = refl

  read_rows-values_text :
      (fuel : ℕ) (notfirst : Bool) (rows : List (Row d))
      → length rows ≤ fuel
      → read_rows fuel notfirst (values_text d show notfirst rows) ≡ some (map (entry d show) rows)
  read_rows-values_text fuel notfirst [] h =
      rw (values_text-nil notfirst) (read_rows-nil fuel notfirst)
  read_rows-values_text zero notfirst (r ∷ rows) h = absurd (omega arith)
  read_rows-values_text (suc fuel) notfirst (r ∷ rows) h =
      let long : 1 ≤ length (values_text d show notfirst (r ∷ rows)) =
        omega (arith, length-values_text notfirst (r ∷ rows)) in
      rw
        (
          read_rows-step fuel notfirst (values_text d show notfirst (r ∷ rows)) long,
          values_text-cons notfirst r rows,
          strip-append (if notfirst then codes "," else [])
              (row_text d show r ++ values_text d show true rows),
          read_row-row_text r (values_text d show true rows),
          read_rows-values_text fuel true rows (omega arith),
        )
        refl

  -- Where no `double` is written with a closing bracket, the statement of `InsertQuery` is read back, to its
  -- end, as its table and its rows, each once and in their order: with the timestamp, the device, the
  -- metric and the count of each, and the value as it is written.
  pub read_insert-insert_text :
      (table_id : ℕ) (rows : List (Row d))
      → read_insert (insert_text d show table_id rows) ≡ some (table_id, map (entry d show) rows)
  unfolding read_insert insert_text
  read_insert-insert_text table_id rows =
      rw
        (
          read_digits-decimal table_id _ refl,
          read_rows-values_text (length (values_text d show false rows)) false rows
              (length-values_text false rows),
        )
        refl
