-- ===== src/Preparer/RunCoverage.antt =====
-- `Run` pushes each cell of its data set once, and ends.
use metric_bench.Prelude.{
  ℕ, zero, suc, ◌+◌, ◌*◌, ◌^◌, ◌≤◌, ◌<◌, ◌≡◌, refl, subst, some, List, [], ◌∷◌, ◌++◌, arith, length,
  leb-true, leb-false, ℕ_discrete,
}
use metric_bench.Config.{Config}
use metric_bench.Preparer.{
  Event, wait_size, set_progress, TsRange, u32, u64, messages, table_loop, run_device_loop,
  run_time_loop, run,
}
use metric_bench.Preparer.Grid.{
  occurrences, occurrences-append, length-messages, length-table_loop, table_loop_other,
  table_loop_cell,
}

-- the devices that are drawn for n minutes, and for the k-th of them
abbrev pub devices_in : ℕ → List ℕ → ℕ
devices_in zero counts = 0
devices_in (suc n) [] = 0
devices_in (suc n) (devices_cnt ∷ counts) = devices_cnt + devices_in n counts

abbrev pub devices_at : ℕ → List ℕ → ℕ
devices_at k [] = 0
devices_at zero (devices_cnt ∷ counts) = devices_cnt
devices_at (suc k) (devices_cnt ∷ counts) = devices_at k counts

module _ (c : Config) where
  length-run_device_loop :
      (ts rounds dc : ℕ) → length (messages (run_device_loop c ts rounds dc)) ≡ rounds * c.db_tables
  unfolding run_device_loop
  length-run_device_loop ts zero dc = omega arith
  length-run_device_loop ts (suc rounds) dc = omega (
    arith,
    length-messages (table_loop ts dc c.db_tables 1) (run_device_loop c ts rounds (dc + 1)),
    length-table_loop ts dc c.db_tables 1,
    length-run_device_loop ts rounds (dc + 1),
  )

  run_device_loop_other :
      (ts rounds d0 ts' d t : ℕ)
      → (u32 ts ≡ ts' → d < d0)
      → occurrences ts' d t (messages (run_device_loop c ts rounds d0)) ≡ 0
  unfolding run_device_loop
  run_device_loop_other ts zero d0 ts' d t h = refl
  run_device_loop_other ts (suc rounds) d0 ts' d t h = omega (
    arith,
    occurrences-append ts' d t (table_loop ts d0 c.db_tables 1)
        (run_device_loop c ts rounds (d0 + 1)),
    table_loop_other ts d0 c.db_tables 1 ts' d t (λ a b. let k = h a in absurd (omega arith)),
    run_device_loop_other ts rounds (d0 + 1) ts' d t (λ a. let k = h a in omega arith),
  )

  run_device_loop_cell :
      (ts rounds d0 d t : ℕ)
      → d0 ≤ d
      → d < d0 + rounds
      → 1 ≤ t
      → t ≤ c.db_tables
      → occurrences (u32 ts) d t (messages (run_device_loop c ts rounds d0)) ≡ 1
  unfolding run_device_loop
  run_device_loop_cell ts zero d0 d t h k a b = absurd (omega arith)
  run_device_loop_cell ts (suc rounds) d0 d t h k a b =
      let split =
        occurrences-append (u32 ts) d t (table_loop ts d0 c.db_tables 1)
          (run_device_loop c ts rounds (d0 + 1)) in
      elim (ℕ_discrete d0 d) [
        | yes e ↦ omega (
          arith,
          split,
          subst (λ j. occurrences (u32 ts) j t (messages (table_loop ts d0 c.db_tables 1)) ≡ 1) e
              (table_loop_cell ts d0 c.db_tables 1 t a (omega arith)),
          run_device_loop_other ts rounds (d0 + 1) (u32 ts) d t (λ _. omega arith),
        )
        | no e ↦ omega (
          arith,
          split,
          table_loop_other ts d0 c.db_tables 1 (u32 ts) d t (λ _ q. absurd (e q)),
          run_device_loop_cell ts rounds (d0 + 1) d t (omega arith) (omega arith) a b,
        )
      ]

  -- n rounds of the time loop from `ts` on
  record Covers (counts : List ℕ) (ts n : ℕ) (es : List Event) : Type 0 where
    total : length (messages es) ≡ devices_in n counts * c.db_tables
    earlier : (ts' d t : ℕ) → ts' < ts → occurrences ts' d t (messages es) ≡ 0
    cells :
        (k d t : ℕ)
        → k < n
        → 1 ≤ d
        → d ≤ devices_at k counts
        → 1 ≤ t
        → t ≤ c.db_tables
        → occurrences (ts + k * 60) d t (messages es) ≡ 1

  abbrev round : (ts devices_cnt : ℕ) → List Event → List Event
  round ts devices_cnt rest =
      run_device_loop c ts devices_cnt 1
      ++ (wait_size (u32 (c.loader_threads * 100000)) ∷ set_progress (u32 ts) ∷ rest)

  occurrences-round :
      (ts devices_cnt ts' d t : ℕ) (rest : List Event)
      → occurrences ts' d t (messages (round ts devices_cnt rest))
        ≡ occurrences ts' d t (messages (run_device_loop c ts devices_cnt 1))
          + occurrences ts' d t (messages rest)
  occurrences-round ts devices_cnt ts' d t rest =
      occurrences-append ts' d t (run_device_loop c ts devices_cnt 1)
        (wait_size (u32 (c.loader_threads * 100000)) ∷ set_progress (u32 ts) ∷ rest)

  round-cells :
      (counts : List ℕ) (devices_cnt ts n : ℕ) (rest : List Event)
      → ts < 2 ^ 32
      → Covers counts (ts + 60) n rest
      → (k d t : ℕ) → k < suc n
      → 1 ≤ d
      → d ≤ devices_at k (devices_cnt ∷ counts)
      → 1 ≤ t
      → t ≤ c.db_tables
      → occurrences (ts + k * 60) d t (messages (round ts devices_cnt rest)) ≡ 1
  round-cells counts devices_cnt ts n rest small v zero d t h a b x y =
      let here : ts + 0 * 60 ≡ u32 ts = omega arith in
      rw here (
        omega (
          arith,
          occurrences-round ts devices_cnt (u32 ts) d t rest,
          run_device_loop_cell ts devices_cnt 1 d t a (omega arith) x y,
          v.earlier (u32 ts) d t (omega arith),
        ))
  round-cells counts devices_cnt ts n rest small v (suc k) d t h a b x y =
      let there : ts + suc k * 60 ≡ ts + 60 + k * 60 = omega arith in
      rw there (
        omega (
          arith,
          occurrences-round ts devices_cnt (ts + 60 + k * 60) d t rest,
          run_device_loop_other ts devices_cnt 1 (ts + 60 + k * 60) d t
              (λ e. absurd (omega (arith, e))),
          v.cells k d t (omega arith) a b x y,
        ))

  round-Covers :
      (counts : List ℕ) (devices_cnt ts n : ℕ) (rest : List Event)
      → ts < 2 ^ 32
      → Covers counts (ts + 60) n rest
      → Covers (devices_cnt ∷ counts) ts (suc n) (round ts devices_cnt rest)
  round-Covers counts devices_cnt ts n rest small v = record {
    total = omega (
      arith,
      length-messages (run_device_loop c ts devices_cnt 1)
          (wait_size (u32 (c.loader_threads * 100000)) ∷ set_progress (u32 ts) ∷ rest),
      length-run_device_loop ts devices_cnt 1,
      v.total,
    );
    earlier = λ ts' d t h. omega (
      arith,
      occurrences-round ts devices_cnt ts' d t rest,
      run_device_loop_other ts devices_cnt 1 ts' d t (λ e. absurd (omega arith)),
      v.earlier ts' d t (omega arith),
    );
    cells = round-cells counts devices_cnt ts n rest small v;
  }

  no_round : (counts : List ℕ) (ts : ℕ) → Covers counts ts 0 []
  no_round counts ts = record {
    total = omega arith;
    earlier = λ ts' d t q. refl;
    cells = λ k d t q a b x y. absurd (omega arith);
  }

  run_time_loop-Covers :
      (stop : ℕ) (counts : List ℕ) (n ts : ℕ)
      → ts + n * 60 ≡ stop + 60
      → n ≤ length counts
      → stop + 60 < 2 ^ 32
      → (es : List Event) × (run_time_loop c stop counts ts ≡ some es) × Covers counts ts n es
  unfolding run_time_loop
  run_time_loop-Covers stop [] zero ts q a b =
      ([], rw (leb-false ts stop (omega arith)) refl, no_round [] ts)
  run_time_loop-Covers stop (devices_cnt ∷ counts) zero ts q a b =
      ([], rw (leb-false ts stop (omega arith)) refl, no_round (devices_cnt ∷ counts) ts)
  run_time_loop-Covers stop [] (suc n) ts q a b = absurd (omega arith)
  run_time_loop-Covers stop (devices_cnt ∷ counts) (suc n) ts q a b =
      let (rest, r, v) =
        run_time_loop-Covers stop counts n (ts + 60) (omega arith) (omega arith) b in
      let next : u64 (ts + 60) ≡ ts + 60 = omega arith in
      (
        round ts devices_cnt rest,
        rw (leb-true ts stop (omega arith), next, r) refl,
        round-Covers counts devices_cnt ts n rest (omega arith) v,
      )

run_from :
    (c : Config) (r : TsRange) (counts : List ℕ) (es : List Event)
    → r.max + c.load_mins * 60 + 60 < 2 ^ 32
    → run_time_loop c (r.max + c.load_mins * 60) counts (r.max + 60) ≡ some es
    → run c r counts ≡ some (set_progress (u32 (r.max + 60)) ∷ es)
unfolding run
run_from c r counts es h e =
    let stop : u64 (r.max + u32 (c.load_mins * 60)) ≡ r.max + c.load_mins * 60 = omega arith in
    let start : u64 (r.max + 60) ≡ r.max + 60 = omega arith in rw (stop, start, e) refl

-- Where the window ends 60 s before 2 ^ 32 and LoadMins draws of the generator are at hand, `Run` ends. For
-- each minute behind the newest timestamp of the tables it pushes one message for each device from 1 to
-- the number drawn for the minute and each table from 1 to DBTables, and no other.
pub run_coverage :
    (c : Config) (r : TsRange) (counts : List ℕ)
    → r.max + c.load_mins * 60 + 60 < 2 ^ 32
    → c.load_mins ≤ length counts
    → (es : List Event) × (run c r counts ≡ some es)
      × (length (messages es) ≡ devices_in c.load_mins counts * c.db_tables)
      × ((k d t : ℕ)
          → k < c.load_mins
          → 1 ≤ d
          → d ≤ devices_at k counts
          → 1 ≤ t
          → t ≤ c.db_tables
          → occurrences (r.max + 60 + k * 60) d t (messages es) ≡ 1)
run_coverage c r counts h k =
    let (es, e, v) =
      run_time_loop-Covers c (r.max + c.load_mins * 60) counts c.load_mins (r.max + 60)
        (omega arith) k (omega arith) in
    (set_progress (u32 (r.max + 60)) ∷ es, run_from c r counts es h e, v.total, v.cells)
