-- ===== src/Preparer/Pacing.antt =====
-- How far the producer of `Prep` runs ahead of the threads that pop.
use mathlib.Core.List.{append_assoc}
use metric_bench.Prelude.{
  ℕ, zero, suc, ◌+◌, ◌*◌, ◌≤◌, ◌≡◌, ap, subst, some, List, [], ◌∷◌, ◌++◌, arith, length,
  some-injective, length-append, leb→le, inversion, Bool-cases, inl, inr, ltb,
}
use metric_bench.Config.{Config}
use metric_bench.TsQueue
use metric_bench.TsQueue.{TsQueue}
use metric_bench.TsQueue.Laws.{wait_and_pop-cons, wait_empty-nil}
use metric_bench.Preparer.{
  Event, push, wait_size, wait_empty, add_progress, set_progress, TsRange, prep, prep_time_loop,
  prep_device_loop, table_loop, prep_start, u32, u64,
}
use metric_bench.Preparer.Channel.{
  System, Step, pushes, passes_size, passes_empty, adds, sets, takes, Reach, start, later,
}

-- the pushes before the next wait
abbrev pending : List Event → ℕ
pending [] = 0
pending (push m ∷ es) = suc (pending es)
pending (wait_size k ∷ es) = 0
pending (wait_empty ∷ es) = 0
pending (add_progress n ∷ es) = pending es
pending (set_progress n ∷ es) = pending es

-- Each wait leaves at most `limit` in the queue and is followed by at most `burst` pushes.
abbrev IsPaced : (limit burst : ℕ) → List Event → Type 0
IsPaced limit burst [] = Unit {0}
IsPaced limit burst (push m ∷ es) = IsPaced limit burst es
IsPaced limit burst (wait_size k ∷ es) = (k ≤ limit) × (pending es ≤ burst) × IsPaced limit burst es
IsPaced limit burst (wait_empty ∷ es) = (pending es ≤ burst) × IsPaced limit burst es
IsPaced limit burst (add_progress n ∷ es) = IsPaced limit burst es
IsPaced limit burst (set_progress n ∷ es) = IsPaced limit burst es

record Inv (limit burst : ℕ) (s : System) : Type 0 where
  room : length s.queue.items + pending s.todo ≤ limit + burst
  paced : IsPaced limit burst s.todo

module _ (limit burst : ℕ) where
  Step-Inv : {s t : System} → Step s t → Inv limit burst s → Inv limit burst t
  unfolding TsQueue.push TsQueue.wait_size
  Step-Inv {s} (pushes m rest e) v =
      let paced = subst (IsPaced limit burst) e v.paced in
      record {
        room = omega (arith, v.room, ap pending e, length-append s.queue.items (m ∷ []));
        paced = paced;
      }
  Step-Inv {s} (passes_size k rest e h) v =
      let paced = subst (IsPaced limit burst) e v.paced in
      record {
        room = omega (arith, leb→le (length s.queue.items) k h, paced.0, paced.1);
        paced = paced.2;
      }
  Step-Inv {s} (passes_empty rest e h) v =
      let paced = subst (IsPaced limit burst) e v.paced in
      record {
        room = omega (arith, paced.0, ap length (wait_empty-nil s.queue h));
        paced = paced.1;
      }
  Step-Inv (adds n rest e) v = record {
    room = omega (arith, v.room, ap pending e);
    paced = subst (IsPaced limit burst) e v.paced;
  }
  Step-Inv (sets n rest e) v = record {
    room = omega (arith, v.room, ap pending e);
    paced = subst (IsPaced limit burst) e v.paced;
  }
  Step-Inv {s} (takes m q e) v = record {
    room = omega (arith, v.room, ap length (wait_and_pop-cons s.queue q m e));
    paced = v.paced;
  }

  Reach-Inv :
      {es : List Event} {s : System}
      → pending es ≤ burst
      → IsPaced limit burst es
      → Reach es s
      → Inv limit burst s
  unfolding TsQueue.new
  Reach-Inv h p start = record { room = omega arith; paced = p }
  Reach-Inv h p (later r st) = Step-Inv st (Reach-Inv h p r)

pending-table_loop :
    (ts dc rounds t : ℕ) (es : List Event)
    → pending (table_loop ts dc rounds t ++ es) ≡ rounds + pending es
unfolding table_loop
pending-table_loop ts dc zero t es = omega arith
pending-table_loop ts dc (suc rounds) t es =
    omega (arith, pending-table_loop ts dc rounds (t + 1) es)

table_loop-IsPaced :
    (limit burst ts dc rounds t : ℕ) (es : List Event)
    → IsPaced limit burst es
    → IsPaced limit burst (table_loop ts dc rounds t ++ es)
unfolding table_loop
table_loop-IsPaced limit burst ts dc zero t es h = h
table_loop-IsPaced limit burst ts dc (suc rounds) t es h =
    table_loop-IsPaced limit burst ts dc rounds (t + 1) es h

module _ (c : Config) where
  abbrev limit : ℕ
  limit = u32 (c.loader_threads * 2)

  -- what follows the tables loop
  abbrev after_tables : (ts rounds dc : ℕ) → List Event
  after_tables ts rounds dc =
      add_progress c.db_tables ∷ wait_size limit ∷ prep_device_loop c ts rounds (dc + 1)

  pending-prep_device_loop :
      (ts rounds dc : ℕ) (es : List Event)
      → pending (prep_device_loop c ts rounds dc ++ wait_empty ∷ es) ≤ c.db_tables
  unfolding prep_device_loop
  pending-prep_device_loop ts zero dc es = omega arith
  pending-prep_device_loop ts (suc rounds) dc es =
      rw
        (append_assoc (table_loop ts dc c.db_tables 1) (after_tables ts rounds dc)
          (wait_empty ∷ es))
        (omega (
          arith,
          pending-table_loop ts dc c.db_tables 1 (after_tables ts rounds dc ++ wait_empty ∷ es),
        ))

  prep_device_loop-IsPaced :
      (ts rounds dc : ℕ) (es : List Event)
      → IsPaced limit c.db_tables (wait_empty ∷ es)
      → IsPaced limit c.db_tables (prep_device_loop c ts rounds dc ++ wait_empty ∷ es)
  unfolding prep_device_loop
  prep_device_loop-IsPaced ts zero dc es h = h
  prep_device_loop-IsPaced ts (suc rounds) dc es h =
      rw
        (append_assoc (table_loop ts dc c.db_tables 1) (after_tables ts rounds dc)
          (wait_empty ∷ es))
        (table_loop-IsPaced limit c.db_tables ts dc c.db_tables 1
          (after_tables ts rounds dc ++ wait_empty ∷ es)
          (
            omega arith,
            pending-prep_device_loop ts rounds (dc + 1) es,
            prep_device_loop-IsPaced ts rounds (dc + 1) es h,
          ))

  prep_time_loop-IsPaced :
      (stop fuel ts : ℕ) (es : List Event)
      → prep_time_loop c stop fuel ts ≡ some es
      → (pending es ≤ c.db_tables) × IsPaced limit c.db_tables es
  unfolding prep_time_loop
  prep_time_loop-IsPaced stop zero ts es h = cc
  prep_time_loop-IsPaced stop (suc fuel) ts es h = elim (Bool-cases (ltb ts stop)) [
    | inr over ↦
        let e : some [] ≡ some es = rw over at h in
        subst (λ l. (pending l ≤ c.db_tables) × IsPaced limit c.db_tables l) (some-injective e)
          (omega arith, tt)
    | inl more ↦
        let (rest, e, e') =
          inversion (prep_time_loop c stop fuel (u64 (ts + 60))) _ (rw more at h) in
        let ih = prep_time_loop-IsPaced stop fuel (u64 (ts + 60)) rest e in
        subst (λ l. (pending l ≤ c.db_tables) × IsPaced limit c.db_tables l) (some-injective e')
          (
            pending-prep_device_loop ts c.max_devices 1 rest,
            prep_device_loop-IsPaced ts c.max_devices 1 rest ih,
          )
  ]

-- Whatever the interleaving of `Prep`'s main thread and the threads that pop, the queue never holds more
-- than 2 * LoaderThreads + DBTables messages (2 * LoaderThreads is computed modulo 2 ^ 32).
pub queue-prep :
    (c : Config) (r : TsRange) (fuel : ℕ) (es : List Event) (s : System)
    → prep c r fuel ≡ some es
    → Reach es s
    → length s.queue.items ≤ u32 (c.loader_threads * 2) + c.db_tables
unfolding prep
queue-prep c r fuel es s h reach =
    let (loop, e, e') = inversion (prep_time_loop c _ fuel (prep_start r)) _ h in
    let (few, paced) = prep_time_loop-IsPaced c _ fuel (prep_start r) loop e in
    let inv =
      Reach-Inv (limit c) c.db_tables (subst (λ l. pending l ≤ c.db_tables) (some-injective e') few)
        (subst (IsPaced (limit c) c.db_tables) (some-injective e') paced) reach in
    omega (arith, inv.room)
