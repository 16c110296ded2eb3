-- ===== src/Preparer/Window.antt =====
-- The timestamps and operations of the messages that `Run` pushes.
use metric_bench.Prelude.{
  ℕ, zero, suc, ◌+◌, ◌*◌, ◌^◌, ◌≤◌, ◌<◌, ◌≡◌, refl, ap, sym, subst, some, List, [], ◌∷◌, ◌++◌,
  arith, length, leb-true, leb-false, ◌>>=◌,
}
use metric_bench.Message.{Message, MessageType}
use metric_bench.Config.{Config}
use metric_bench.Preparer.{
  Event, wait_size, set_progress, TsRange, u32, u64, messages, table_loop, run_device_loop,
  run_time_loop, run,
}
use metric_bench.Preparer.Grid.{messages-append}

-- Every message satisfies a predicate.
abbrev pub AllMessages : (Message → Type 0) → List Message → Type 0
AllMessages P [] = Unit {0}
AllMessages P (m ∷ ms) = P m × AllMessages P ms

AllMessages-append :
    (P : Message → Type 0) (xs ys : List Message)
    → AllMessages P xs
    → AllMessages P ys
    → AllMessages P (xs ++ ys)
AllMessages-append P [] ys h k = k
AllMessages-append P (x ∷ xs) ys h k = (h.0, AllMessages-append P xs ys h.1 k)

AllMessages-events :
    (P : Message → Type 0) (es fs : List Event)
    → AllMessages P (messages es)
    → AllMessages P (messages fs)
    → AllMessages P (messages (es ++ fs))
AllMessages-events P es fs h k =
    rw (messages-append es fs) (AllMessages-append P (messages es) (messages fs) h k)

-- An insertion into one of the tables, within the window of timestamps.
abbrev pub InWindow : (lo hi tables : ℕ) → Message → Type 0
InWindow lo hi tables m =
    (m.op ≡ MessageType.insert)
    × (lo ≤ m.ts)
    × (m.ts ≤ hi)
    × (1 ≤ m.device_id)
    × (1 ≤ m.table_id)
    × (m.table_id ≤ tables)

module _ (c : Config) (lo hi : ℕ) where
  table_loop-InWindow :
      (ts dc rounds t : ℕ)
      → lo ≤ u32 ts
      → u32 ts ≤ hi
      → 1 ≤ dc
      → 1 ≤ t
      → t + rounds ≤ c.db_tables + 1
      → AllMessages (InWindow lo hi c.db_tables) (messages (table_loop ts dc rounds t))
  unfolding table_loop
  table_loop-InWindow ts dc zero t a b d e f = tt
  table_loop-InWindow ts dc (suc rounds) t a b d e f = (
    (refl, a, b, d, e, omega arith),
    table_loop-InWindow ts dc rounds (t + 1) a b d (omega arith) (omega arith),
  )

  run_device_loop-InWindow :
      (ts rounds dc : ℕ)
      → lo ≤ u32 ts
      → u32 ts ≤ hi
      → 1 ≤ dc
      → AllMessages (InWindow lo hi c.db_tables) (messages (run_device_loop c ts rounds dc))
  unfolding run_device_loop
  run_device_loop-InWindow ts zero dc a b d = tt
  run_device_loop-InWindow ts (suc rounds) dc a b d =
      AllMessages-events (InWindow lo hi c.db_tables) (table_loop ts dc c.db_tables 1)
        (run_device_loop c ts rounds (dc + 1))
        (table_loop-InWindow ts dc c.db_tables 1 a b d (omega arith) (omega arith))
        (run_device_loop-InWindow ts rounds (dc + 1) a b (omega arith))

  -- n rounds are left
  run_time_loop-InWindow :
      (counts : List ℕ) (n ts : ℕ)
      → ts + n * 60 ≡ hi + 60
      → n ≤ length counts
      → lo ≤ ts
      → hi + 60 < 2 ^ 32
      → (es : List Event) × (run_time_loop c hi counts ts ≡ some es)
        × AllMessages (InWindow lo hi c.db_tables) (messages es)
  unfolding run_time_loop
  run_time_loop-InWindow [] n ts e q a b = ([], rw (leb-false ts hi (omega arith)), tt)
  run_time_loop-InWindow (k ∷ counts) zero ts e q a b = ([], rw (leb-false ts hi (omega arith)), tt)
  run_time_loop-InWindow (k ∷ counts) (suc n) ts e q a b =
      let (rest, r, v) =
        run_time_loop-InWindow counts n (u64 (ts + 60)) (omega arith) (omega arith) (omega arith)
          b in
      (
        run_device_loop c ts k 1
            ++ (wait_size (u32 (c.loader_threads * 100000)) ∷ set_progress (u32 ts) ∷ rest),
        rw (leb-true ts hi (omega arith)) (
            ap
              (λ o. o >>= λ rest. some (
                run_device_loop c ts k 1
                ++ (wait_size (u32 (c.loader_threads * 100000)) ∷ set_progress (u32 ts) ∷ rest)))
              r),
        AllMessages-events (InWindow lo hi c.db_tables) (run_device_loop c ts k 1) _
            (run_device_loop-InWindow ts k 1 (omega arith) (omega arith) (omega arith)) v,
      )

pub run_window :
    (c : Config) (r : TsRange) (counts : List ℕ)
    → r.max + c.load_mins * 60 + 60 < 2 ^ 32
    → c.load_mins ≤ length counts
    → (es : List Event) × (run c r counts ≡ some es)
      × AllMessages (InWindow (r.max + 60) (r.max + c.load_mins * 60) c.db_tables) (messages es)
unfolding run
run_window c r counts h k =
    let stop : u64 (r.max + u32 (c.load_mins * 60)) ≡ r.max + c.load_mins * 60 = omega arith in
    let (es, e, v) =
      run_time_loop-InWindow c (r.max + 60) (r.max + c.load_mins * 60) counts c.load_mins
        (u64 (r.max + 60)) (omega arith) k (omega arith) (omega arith) in
    (
      set_progress (u32 (u64 (r.max + 60))) ∷ es,
      ap (λ o. o >>= λ es'. some (set_progress (u32 (u64 (r.max + 60))) ∷ es'))
          (subst (λ x. run_time_loop c x counts (u64 (r.max + 60)) ≡ some es) (sym stop) e),
      v,
    )
