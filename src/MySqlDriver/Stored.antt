-- ===== src/MySqlDriver/Stored.antt =====
-- The ranges of src/MySQLDriver.cpp cover what is stored, and `Prep` of src/Preparer.cpp starts after it.
use metric_bench.Prelude.{
  ℕ, zero, suc, ◌+◌, ◌^◌, ◌≤◌, ◌<◌, ◌≡◌, ◌⊎◌, inl, inr, refl, ap, sym, subst, ◌∙◌, Option, none,
  some, leb-true, leb-false, arith, dec_le, ◌≢◌, ◌-◌, ℕ_discrete, some-injective, ==_ne, min, max,
}
use metric_bench.Config.{Config, start_timestamp}
use metric_bench.Preparer.{TsRange, prep_start, u32}
use metric_bench.MySqlDriver.Ranges.{
  DevRange, scan_tables, last_table, widened, reset_unset, widened_devices, get_timestamp_range,
  get_device_range,
}

module _ {ℓ κ} {R : Type ℓ} (body : ℕ → R → R) (P : ℕ → R → Type κ) (end_table : ℕ) where
  -- The loop ends after the last table, and keeps what its body keeps.
  pub scan_tables-keeps :
      (n fuel table : ℕ) (ret : R)
      → table + n ≡ end_table + 1
      → end_table + 1 < 2 ^ 32
      → n < fuel
      → ((t : ℕ) (r : R) → table ≤ t → t ≤ end_table → P t r → P (t + 1) (body t r))
      → P table ret
      → (r : R) × (scan_tables body end_table fuel table ret ≡ some r) × P (end_table + 1) r
  unfolding scan_tables
  scan_tables-keeps n zero table ret e small f step p = absurd (omega arith)
  scan_tables-keeps zero (suc fuel) table ret e small f step p =
      (ret, rw (leb-false table end_table (omega arith)) refl, subst (λ t. P t ret) (omega arith) p)
  scan_tables-keeps (suc n) (suc fuel) table ret e small f step p =
      let next : u32 (table + 1) ≡ table + 1 = omega arith in
      let (r, q, k) =
        scan_tables-keeps n fuel (table + 1) (body table ret) (omega arith) small (omega arith)
          (λ t s lo hi. step t s (omega arith) hi) (step table ret (omega arith) (omega arith) p) in
      (
        r,
        rw (leb-true table end_table (omega arith))
            (ap (λ t. scan_tables body end_table fuel t (body table ret)) next ∙ q),
        k,
      )

-- What the range says of the tables before t.
pub record Covers (rows : ℕ → Option TsRange) (t : ℕ) (r : TsRange) : Type 0 where
  pub within :
      (table : ℕ) (row : TsRange)
      → 1 ≤ table
      → table < t
      → rows table ≡ some row
      → (r.min ≤ row.min) × (row.max ≤ r.max)
  pub from_start : (r.min ≤ start_timestamp) × (start_timestamp ≤ r.max)
  pub attained :
      (r.max ≡ start_timestamp)
      ⊎ ((table : ℕ) × (row : TsRange) × (rows table ≡ some row)
          × (1 ≤ table)
          × (table < t)
          × (r.max ≡ row.max))

-- A minimum at or before the start is not the mark of an unset range.
pub reset_unset-start : (r : TsRange) → r.min ≤ start_timestamp → reset_unset r ≡ r
reset_unset-start r h = rw (==_ne {a = r.min} {b = 2 ^ 64 - 1} (λ e. absurd (omega arith))) refl

module _ (rows : ℕ → Option TsRange) where
  widened-Covers :
      (t : ℕ) (r : TsRange) (o : Option TsRange)
      → rows t ≡ o
      → 1 ≤ t
      → Covers rows t r
      → Covers rows (t + 1) (widened o r)
  widened-Covers t r none e h v = record {
    within = λ table row lo hi f. elim (ℕ_discrete table t) [
      | yes same ↦ let missing = ap rows same in cc
      | no earlier ↦ v.within table row lo (omega arith) f
    ];
    from_start = v.from_start;
    attained = elim v.attained [
      | inl unset ↦ inl unset
      | inr (table, row, f, lo, hi, top) ↦ inr (table, row, f, lo, omega arith, top)
    ];
  }
  widened-Covers t r (some new) e h v = record {
    within = λ table row lo hi f. elim (ℕ_discrete table t) [
      | yes same ↦
          let found : new ≡ row = some-injective (sym e ∙ ap rows (sym same) ∙ f) in
          subst (λ x. (min r.min new.min ≤ x.min) × (x.max ≤ max r.max new.max)) found
            (omega arith, omega arith)
      | no earlier ↦
          let before = v.within table row lo (omega arith) f in
          (omega (arith, before.0), omega (arith, before.1))
    ];
    from_start = (omega (arith, v.from_start.0), omega (arith, v.from_start.1));
    attained = elim (dec_le new.max r.max) [
      | yes small ↦ elim v.attained [
        | inl unset ↦ inl (omega arith)
        | inr (table, row, f, lo, hi, top) ↦ inr (table, row, f, lo, omega arith, omega arith)
      ]
      | no large ↦ inr (t, new, e, h, omega arith, omega arith)
    ];
  }

  round-Covers :
      (t : ℕ) (r : TsRange)
      → 1 ≤ t
      → Covers rows t r
      → Covers rows (t + 1) (reset_unset (widened (rows t) r))
  round-Covers t r h v =
      let w = widened-Covers t r (rows t) refl h v in
      subst (Covers rows (t + 1)) (sym (reset_unset-start (widened (rows t) r) w.from_start.0)) w

start-Covers :
    (rows : ℕ → Option TsRange)
    → Covers rows 1 (record { min = start_timestamp; max = start_timestamp })
start-Covers rows = record {
  within = λ table row lo hi f. absurd (omega arith);
  from_start = (omega arith, omega arith);
  attained = inl refl;
}

-- Below 2 ^ 32 - 1 tables, `getTimestampRange` ends. It scans the tables 1 to `table_id`, or to DBTables
-- where `table_id` is 0. The range starts no later than every answered minimum and than StartTimestamp; it
-- ends no earlier than every answered maximum and than StartTimestamp, and its end is one of these.
pub get_timestamp_range-Covers :
    (c : Config) (rows : ℕ → Option TsRange) (table_id : ℕ)
    → last_table c table_id + 1 < 2 ^ 32
    → (r : TsRange) × (get_timestamp_range c rows table_id (last_table c table_id + 1) ≡ some r)
      × Covers rows (last_table c table_id + 1) r
unfolding get_timestamp_range
get_timestamp_range-Covers c rows table_id h =
    let (r, e, v) =
      scan_tables-keeps (λ table ret. reset_unset (widened (rows table) ret))
        (λ t r. (1 ≤ t) × Covers rows t r) (last_table c table_id) (last_table c table_id)
        (last_table c table_id + 1) 1 (record { min = start_timestamp; max = start_timestamp })
        (omega arith) h (omega arith) (λ t r lo hi v. (omega arith, round-Covers rows t r v.0 v.1))
        (omega arith, start-Covers rows) in
    (r, e, v.1)

max-bounded :
    (rows : ℕ → Option TsRange) (t : ℕ) (r : TsRange)
    → Covers rows t r
    → ((table : ℕ) (row : TsRange) → rows table ≡ some row → row.max < 2 ^ 32)
    → r.max < 2 ^ 32
max-bounded rows t r v small = elim v.attained [
  | inl unset ↦ omega arith
  | inr (table, row, f, lo, hi, top) ↦ omega (arith, small table row f)
]

-- Where the stored timestamps are below 2 ^ 32 and there are fewer than 2 ^ 32 - 1 tables,
-- `getTimestampRange(0)` ends, and `Prep` then starts at least a minute after every timestamp that is
-- stored in the tables 1 to DBTables, and not before StartTimestamp.
pub prep_start-later :
    (c : Config) (rows : ℕ → Option TsRange)
    → c.db_tables + 1 < 2 ^ 32
    → ((table : ℕ) (row : TsRange) → rows table ≡ some row → row.max < 2 ^ 32)
    → (r : TsRange) × (get_timestamp_range c rows 0 (c.db_tables + 1) ≡ some r)
      × (start_timestamp ≤ prep_start r)
      × ((table : ℕ) (row : TsRange)
          → 1 ≤ table
          → table ≤ c.db_tables
          → rows table ≡ some row
          → row.max + 60 ≤ prep_start r)
prep_start-later c rows h small =
    let (r, e, v) = get_timestamp_range-Covers c rows 0 h in
    let top : r.max < 2 ^ 32 = max-bounded rows (c.db_tables + 1) r v small in
    (
      r,
      e,
      omega arith,
      λ table row lo hi f.
          let covered = v.within table row lo (omega arith) f in omega (arith, covered.1),
    )

-- What the device range says of the tables before t.
pub record CoversDevices (rows : ℕ → Option DevRange) (t : ℕ) (r : DevRange) : Type 0 where
  pub within :
      (table : ℕ) (row : DevRange)
      → 1 ≤ table
      → table < t
      → rows table ≡ some row
      → (r.min ≤ row.min) × (row.max ≤ r.max)

widened_devices-CoversDevices :
    (rows : ℕ → Option DevRange) (t : ℕ) (r : DevRange) (o : Option DevRange)
    → rows t ≡ o
    → o ≢ none
    → CoversDevices rows t r
    → CoversDevices rows (t + 1) (widened_devices o r)
widened_devices-CoversDevices rows t r none e answered v = absurd (answered refl)
widened_devices-CoversDevices rows t r (some new) e answered v = record {
  within = λ table row lo hi f. elim (ℕ_discrete table t) [
    | yes same ↦
        let found : new ≡ row = some-injective (sym e ∙ ap rows (sym same) ∙ f) in
        subst (λ x. (min r.min new.min ≤ x.min) × (x.max ≤ max r.max new.max)) found
          (omega arith, omega arith)
    | no earlier ↦
        let before = v.within table row lo (omega arith) f in
        (omega (arith, before.0), omega (arith, before.1))
  ];
}

-- Below 2 ^ 32 - 1 tables, and where the database answers for each scanned table, `getDeviceRange` ends
-- with a range that covers the devices of all the scanned tables.
pub get_device_range-CoversDevices :
    (c : Config) (rows : ℕ → Option DevRange) (table_id : ℕ)
    → last_table c table_id + 1 < 2 ^ 32
    → ((table : ℕ) → 1 ≤ table → table ≤ last_table c table_id → rows table ≢ none)
    → (r : DevRange) × (get_device_range c rows table_id (last_table c table_id + 1) ≡ some r)
      × CoversDevices rows (last_table c table_id + 1) r
unfolding get_device_range
get_device_range-CoversDevices c rows table_id h answered =
    scan_tables-keeps (λ table. widened_devices (rows table)) (CoversDevices rows)
      (last_table c table_id) (last_table c table_id) (last_table c table_id + 1) 1
      (record { min = 2 ^ 32 - 1; max = 0 }) (omega arith) h (omega arith)
      (λ t r lo hi v. widened_devices-CoversDevices rows t r (rows t) refl (answered t lo hi) v)
      (record { within = λ table row lo hi f. absurd (omega arith) })
