-- ===== src/Preparer/Progress.antt =====
-- src/Preparer.cpp: `prepProgressPrint`, the thread that prints how far `Prep` and `Run` are, and the counter
-- `insertProgress` that it reads.
use metric_bench.Prelude.{
  ℕ, zero, suc, ◌+◌, ◌-◌, ◌*◌, ◌%◌, ◌/◌, ◌^◌, ◌≤◌, ◌<◌, ◌≡◌, refl, ap, sym, ◌∙◌, some, List, [],
  ◌∷◌, ◌++◌, map, arith, ltb, lt→ltb, ltb-false, if◌then◌else◌, inversion, some-injective,
}
use metric_bench.Prelude.Double.{Double}
use metric_bench.Prelude.Int.{pos}
use metric_bench.Config.{Config}
use metric_bench.Preparer.{
  TsRange, Event, push, wait_size, wait_empty, add_progress, set_progress, u64, u32, table_loop,
  prep_device_loop, prep_time_loop, prep_start, prep,
}

-- `insertProgress` after some events
unfoldable pub progress_after : ℕ → List Event → ℕ
progress_after p [] = p
progress_after p (push m ∷ es) = progress_after p es
progress_after p (wait_size k ∷ es) = progress_after p es
progress_after p (wait_empty ∷ es) = progress_after p es
progress_after p (add_progress k ∷ es) = progress_after (u32 (p + k)) es
progress_after p (set_progress k ∷ es) = progress_after k es

-- the arguments of the thread in `Prep` and in `Run`: where the counter starts, and how far it is to go
abbrev pub prep_total : Config → ℕ
prep_total c = u32 (u32 (c.load_mins * c.max_devices) * c.db_tables)

abbrev pub run_total : Config → ℕ
run_total c = u32 (c.load_mins * 60)

module _ (d : Double) where
  -- a line that is printed
  pub record ProgressLine : Type 0 where
    pub time : ℕ
    pub progress : ℕ
    pub total : ℕ
    pub percent : d.Carrier
    pub time_left : d.Carrier
    pub est_total : d.Carrier

  abbrev of : ℕ → d.Carrier
  of n = d.of_ℤ (pos n)

  -- `insertProgress - startTs`, as a `uint64_t`
  abbrev pub made_since : (start_ts insert_progress : ℕ) → ℕ
  made_since start_ts insert_progress = (insert_progress + 2 ^ 64 - start_ts) % 2 ^ 64

  -- `estTotalTime`
  abbrev pub est_total_time : (start_ts total insert_progress sec_from_start : ℕ) → d.Carrier
  est_total_time start_ts total insert_progress sec_from_start =
      if ltb start_ts insert_progress
      then d.div (of sec_from_start) (d.div (of (made_since start_ts insert_progress)) (of total))
      else of 0

  -- the body of the loop, without the sleep
  unfoldable pub progress_line : (start_ts total insert_progress sec_from_start : ℕ) → ProgressLine
  progress_line start_ts total insert_progress sec_from_start = record {
    time = sec_from_start;
    progress = made_since start_ts insert_progress;
    total = total;
    percent = d.div (d.mul (of (made_since start_ts insert_progress)) (of 100)) (of total);
    time_left =
        d.sub (est_total_time start_ts total insert_progress sec_from_start) (of sec_from_start);
    est_total = est_total_time start_ts total insert_progress sec_from_start;
  }

  -- `prepProgressPrint`: what it reads of the counter and of the clock in each round, until `progressLoad`
  -- is found unset
  unfoldable pub prep_progress_print :
      (start_ts total : ℕ) → (readings : List (ℕ × ℕ)) → List ProgressLine
  unfolding progress_line
  prep_progress_print start_ts total readings =
      map (λ r. progress_line start_ts total r.0 r.1) readings

progress_after-append :
    (p : ℕ) (es fs : List Event)
    → progress_after p (es ++ fs) ≡ progress_after (progress_after p es) fs
unfolding progress_after
progress_after-append p [] fs = refl
progress_after-append p (push m ∷ es) fs = progress_after-append p es fs
progress_after-append p (wait_size k ∷ es) fs = progress_after-append p es fs
progress_after-append p (wait_empty ∷ es) fs = progress_after-append p es fs
progress_after-append p (add_progress k ∷ es) fs = progress_after-append (u32 (p + k)) es fs
progress_after-append p (set_progress k ∷ es) fs = progress_after-append k es fs

progress_after-table_loop :
    (p ts dc rounds table_id : ℕ) → progress_after p (table_loop ts dc rounds table_id) ≡ p
unfolding progress_after table_loop
progress_after-table_loop p ts dc zero table_id = refl
progress_after-table_loop p ts dc (suc rounds) table_id =
    progress_after-table_loop p ts dc rounds (table_id + 1)

total_wraps : (a b t : ℕ) → u32 (0 + a * (b * t)) ≡ u32 (u32 (a * b) * t)
total_wraps a b t =
    let e : a * b ≡ a * b / 2 ^ 32 * 2 ^ 32 + a * b % 2 ^ 32 = omega arith in
    omega (arith, ap (λ (x : ℕ). x * t) e)

module _ (c : Config) where
  progress_after-prep_device_loop :
      (p ts rounds dc : ℕ)
      → p < 2 ^ 32
      → progress_after p (prep_device_loop c ts rounds dc) ≡ u32 (p + rounds * c.db_tables)
  unfolding prep_device_loop progress_after
  progress_after-prep_device_loop p ts zero dc small = omega arith
  progress_after-prep_device_loop p ts (suc rounds) dc small =
      progress_after-append p (table_loop ts dc c.db_tables 1) (
        add_progress c.db_tables
        ∷ wait_size (u32 (c.loader_threads * 2))
        ∷ prep_device_loop c ts rounds (dc + 1))
      ∙ ap (λ q. progress_after (u32 (q + c.db_tables)) (prep_device_loop c ts rounds (dc + 1)))
          (progress_after-table_loop p ts dc c.db_tables 1)
      ∙ progress_after-prep_device_loop (u32 (p + c.db_tables)) ts rounds (dc + 1) (omega arith)
      ∙ omega arith

  prep_time_loop-progress :
      (n p ts stop fuel : ℕ) (es : List Event)
      → p < 2 ^ 32
      → ts + n * 60 ≡ stop
      → stop + 60 ≤ 2 ^ 32
      → prep_time_loop c stop fuel ts ≡ some es
      → progress_after p es ≡ u32 (p + n * (c.max_devices * c.db_tables))
  unfolding prep_time_loop progress_after
  prep_time_loop-progress n p ts stop zero es small e h ran = cc
  prep_time_loop-progress zero p ts stop (suc fuel) es small e h ran =
      let at_end : some [] ≡ some es = rw (ltb-false ts stop (omega arith)) at ran in
      rw (← some-injective at_end) (omega arith)
  prep_time_loop-progress (suc n) p ts stop (suc fuel) es small e h ran =
      let (rest, later, f) =
        inversion (prep_time_loop c stop fuel (u64 (ts + 60))) _
          (rw (lt→ltb ts stop (omega arith)) at ran) in
      let next : u64 (ts + 60) ≡ ts + 60 = omega arith in
      ap (progress_after p) (sym (some-injective f))
      ∙ progress_after-append p (prep_device_loop c ts c.max_devices 1) (wait_empty ∷ rest)
      ∙ ap (λ q. progress_after q rest) (progress_after-prep_device_loop p ts c.max_devices 1 small)
      ∙ prep_time_loop-progress n (u32 (p + c.max_devices * c.db_tables)) (ts + 60) stop fuel rest
          (omega arith) (omega arith) h (rw next at later)
      ∙ omega arith

-- Where no timestamp reaches 2 ^ 32 - 60: whatever `insertProgress` was before, when the loops of `Prep` have
-- ended it is the total that the printing thread was given, also where the product of minutes, devices
-- and tables does not fit an `unsigned int`.
pub prep-progress :
    (c : Config) (r : TsRange) (es : List Event) (fuel before : ℕ)
    → prep_start r + c.load_mins * 60 + 60 ≤ 2 ^ 32
    → prep c r fuel ≡ some es
    → progress_after before es ≡ prep_total c
unfolding prep progress_after
prep-progress c r es fuel before bound ran =
    let stop : u64 (prep_start r + u32 (c.load_mins * 60)) ≡ prep_start r + c.load_mins * 60 =
      omega arith in
    let (rest, later, f) =
      inversion (prep_time_loop c (u64 (prep_start r + u32 (c.load_mins * 60))) fuel (prep_start r))
        _ ran in
    ap (progress_after before) (sym (some-injective f))
    ∙ prep_time_loop-progress c c.load_mins 0 (prep_start r) (prep_start r + c.load_mins * 60) fuel
        rest (omega arith) refl bound (rw stop at later)
    ∙ total_wraps c.load_mins c.max_devices c.db_tables
