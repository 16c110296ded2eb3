-- ===== src/Preparer/Coverage.antt =====
-- `Prep` pushes each cell of the data set once, and ends.
use metric_bench.Prelude.{
  ℕ, zero, suc, ◌+◌, ◌*◌, ◌-◌, ◌^◌, ◌≤◌, ◌<◌, ◌≡◌, refl, ap, some, List, [], ◌∷◌, ◌++◌, arith,
  length, lt→ltb, ltb-false, ◌>>=◌, ℕ_discrete,
}
use metric_bench.Config.{Config}
use metric_bench.Preparer.{
  Event, wait_empty, set_progress, TsRange, u32, u64, messages, prep_device_loop, prep_time_loop,
  prep_start, prep,
}
use metric_bench.Preparer.Grid.{
  occurrences, occurrences-append, length-messages, length-prep_device_loop, prep_device_loop_other,
  prep_device_loop_cell,
}

module _ (c : Config) where
  -- n rounds of the time loop from `ts` on
  record Covers (ts n : ℕ) (es : List Event) : Type 0 where
    total : length (messages es) ≡ n * (c.max_devices * c.db_tables)
    earlier : (ts' d t : ℕ) → ts' < ts → occurrences ts' d t (messages es) ≡ 0
    cells :
        (k d t : ℕ)
        → k < n
        → 1 ≤ d
        → d ≤ c.max_devices
        → 1 ≤ t
        → t ≤ c.db_tables
        → occurrences (ts + k * 60) d t (messages es) ≡ 1

  round-Covers :
      (ts n : ℕ) (rest : List Event)
      → ts < 2 ^ 32
      → Covers (ts + 60) n rest
      → Covers ts (suc n) (prep_device_loop c ts c.max_devices 1 ++ wait_empty ∷ rest)
  round-Covers ts n rest small v = record {
    total = omega (
      arith,
      length-messages devices (wait_empty ∷ rest),
      length-prep_device_loop c ts c.max_devices 1,
      v.total,
    );
    earlier = λ ts' d t h. omega (
      arith,
      occurrences-append ts' d t devices (wait_empty ∷ rest),
      prep_device_loop_other c ts c.max_devices 1 ts' d t (λ e. absurd (omega arith)),
      v.earlier ts' d t (omega arith),
    );
    cells = λ k d t h a b x y. cell k d t h a b x y (ℕ_discrete k 0);
  }
    where
      devices : List Event
      devices = prep_device_loop c ts c.max_devices 1

      own : u32 ts ≡ ts
      own = omega arith

      cell :
          (k d t : ℕ)
          → k < suc n
          → 1 ≤ d
          → d ≤ c.max_devices
          → 1 ≤ t
          → t ≤ c.db_tables
          → Dec (k ≡ 0)
          → occurrences (ts + k * 60) d t (messages (devices ++ wait_empty ∷ rest)) ≡ 1
      cell k d t h a b x y (yes first) =
          let here : ts + k * 60 ≡ u32 ts = omega (arith, own) in
          rw here (
            omega (
              arith,
              occurrences-append (u32 ts) d t devices (wait_empty ∷ rest),
              prep_device_loop_cell c ts c.max_devices 1 d t a (omega arith) x y,
              v.earlier (u32 ts) d t (omega (arith, own)),
            ))
      cell k d t h a b x y (no later) =
          let there : ts + k * 60 ≡ ts + 60 + (k - 1) * 60 = omega arith in
          rw there (
            omega (
              arith,
              occurrences-append (ts + 60 + (k - 1) * 60) d t devices (wait_empty ∷ rest),
              prep_device_loop_other c ts c.max_devices 1 (ts + 60 + (k - 1) * 60) d t
                  (λ e. absurd (omega (arith, own, e))),
              v.cells (k - 1) d t (omega arith) a b x y,
            ))

  prep_time_loop-Covers :
      (n ts stop fuel : ℕ)
      → ts + n * 60 ≡ stop
      → stop + 60 ≤ 2 ^ 32
      → n < fuel
      → (es : List Event) × (prep_time_loop c stop fuel ts ≡ some es) × Covers ts n es
  unfolding prep_time_loop
  prep_time_loop-Covers n ts stop zero e h f = absurd (omega arith)
  prep_time_loop-Covers zero ts stop (suc fuel) e h f = (
    [],
    rw (ltb-false ts stop (omega arith)),
    record {
      total = omega arith;
      earlier = λ ts' d t q. refl;
      cells = λ k d t q a b x y. absurd (omega arith);
    },
  )
  prep_time_loop-Covers (suc n) ts stop (suc fuel) e h f =
      let (rest, q, v) =
        prep_time_loop-Covers n (ts + 60) stop fuel (omega arith) h (omega arith) in
      let next : u64 (ts + 60) ≡ ts + 60 = omega arith in
      (
        prep_device_loop c ts c.max_devices 1 ++ wait_empty ∷ rest,
        rw (lt→ltb ts stop (omega arith), next, q),
        round-Covers ts n rest (omega arith) v,
      )

-- Where no timestamp reaches 2 ^ 32 - 60, `Prep` ends after LoadMins rounds of its time loop. It pushes
-- LoadMins * MaxDevices * DBTables messages: one for each minute from the start on, each device from 1
-- to MaxDevices and each table from 1 to DBTables.
pub prep_coverage :
    (c : Config) (r : TsRange)
    → prep_start r + c.load_mins * 60 + 60 ≤ 2 ^ 32
    → (es : List Event) × (prep c r (c.load_mins + 1) ≡ some es)
      × (length (messages es) ≡ c.load_mins * (c.max_devices * c.db_tables))
      × ((k d t : ℕ)
          → k < c.load_mins
          → 1 ≤ d
          → d ≤ c.max_devices
          → 1 ≤ t
          → t ≤ c.db_tables
          → occurrences (prep_start r + k * 60) d t (messages es) ≡ 1)
unfolding prep
prep_coverage c r h =
    let (es, e, v) =
      prep_time_loop-Covers c c.load_mins (prep_start r)
        (u64 (prep_start r + u32 (c.load_mins * 60))) (c.load_mins + 1) (omega arith) (omega arith)
        (omega arith) in
    (set_progress 0 ∷ es, ap (λ o. o >>= λ es'. some (set_progress 0 ∷ es')) e, v.total, v.cells)
