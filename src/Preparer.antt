-- ===== src/Preparer.antt =====
-- src/Preparer.cpp: what `Prep` and `Run` do to the queue, as the sequence of their events. The waits of
-- the queue are events; the progress printer only reads.
pub mod Channel
pub mod Grid
pub mod Coverage
pub mod Pacing
pub mod Window
pub mod RunCoverage
pub mod Progress
pub mod Examples
use metric_bench.Prelude.{
  ℕ, zero, suc, ◌+◌, ◌*◌, ◌%◌, ◌^◌, max, Option, none, some, List, [], ◌∷◌, ◌++◌, ltb, leb,
  if◌then◌else◌, ◌>>=◌,
}
use metric_bench.Config.{Config, start_timestamp}
use metric_bench.Message.{Message, MessageType}

-- `GenericDriver::ts_range`
pub record TsRange : Type 0 where
  pub min : ℕ
  pub max : ℕ

pub data Event : Type 0 where
  push : Message → Event  -- `tsQueue.push(m)`
  wait_size : ℕ → Event  -- `tsQueue.wait_size(...)`
  wait_empty : Event  -- `tsQueue.wait_empty()`
  add_progress : ℕ → Event  -- `insertProgress += ...`
  set_progress : ℕ → Event  -- `insertProgress = ...`

-- `uint64_t` and `unsigned int`
abbrev pub u64 : ℕ → ℕ
u64 n = n % 2 ^ 64

abbrev pub u32 : ℕ → ℕ
u32 n = n % 2 ^ 32

-- `Message m(Insert, ts, dc, table_id)`
abbrev pub insert_message : (ts dc table_id : ℕ) → Message
insert_message ts dc table_id = record {
  op = MessageType.insert;
  ts = u32 ts;
  device_id = dc;
  table_id = table_id;
}

-- the tables loop, from `table_id` on, with the rounds that are left
unfoldable pub table_loop : (ts dc rounds table_id : ℕ) → List Event
table_loop ts dc zero table_id = []
table_loop ts dc (suc rounds) table_id =
    push (insert_message ts dc table_id) ∷ table_loop ts dc rounds (table_id + 1)

-- the device loop of `Prep`
unfoldable pub prep_device_loop : Config → (ts rounds dc : ℕ) → List Event
unfolding table_loop
prep_device_loop c ts zero dc = []
prep_device_loop c ts (suc rounds) dc =
    table_loop ts dc c.db_tables 1
    ++ (add_progress c.db_tables
        ∷ wait_size (u32 (c.loader_threads * 2))
        ∷ prep_device_loop c ts rounds (dc + 1))

-- the time loop of `Prep`; `none` is a loop that goes on after the given number of rounds
unfoldable pub prep_time_loop : Config → (stop fuel ts : ℕ) → Option (List Event)
prep_time_loop c stop zero ts = none
prep_time_loop c stop (suc fuel) ts =
    let later = prep_time_loop c stop fuel (u64 (ts + 60)) >>= λ rest.
    some (prep_device_loop c ts c.max_devices 1 ++ wait_empty ∷ rest) in
    if ltb ts stop then later else some []

-- `startTimestamp` in `Prep`
abbrev pub prep_start : TsRange → ℕ
prep_start r = max (u64 (r.max + 60)) start_timestamp

-- `Prep`, from the first assignment to `insertProgress` on
unfoldable pub prep : Config → TsRange → ℕ → Option (List Event)
unfolding prep_time_loop
prep c r fuel =
    let start = prep_start r in
    prep_time_loop c (u64 (start + u32 (c.load_mins * 60))) fuel start >>= λ es.
    some (set_progress 0 ∷ es)

-- the devices loop of `Run`
unfoldable pub run_device_loop : Config → (ts rounds dc : ℕ) → List Event
unfolding table_loop
run_device_loop c ts zero dc = []
run_device_loop c ts (suc rounds) dc =
    table_loop ts dc c.db_tables 1 ++ run_device_loop c ts rounds (dc + 1)

-- the time loop of `Run`. The generator's draws are the list `counts`; `none` is a loop that goes on
-- after them.
unfoldable pub run_time_loop :
    Config → (stop : ℕ) → (counts : List ℕ) → (ts : ℕ) → Option (List Event)
unfolding run_device_loop
run_time_loop c stop [] ts = if leb ts stop then none else some []
run_time_loop c stop (devices_cnt ∷ counts) ts =
    let later = run_time_loop c stop counts (u64 (ts + 60)) >>= λ rest. some (
      run_device_loop c ts devices_cnt 1
      ++ (wait_size (u32 (c.loader_threads * 100000)) ∷ set_progress (u32 ts) ∷ rest)) in
    if leb ts stop then later else some []

-- `Run`, from `startTimestamp` on
unfoldable pub run : Config → TsRange → List ℕ → Option (List Event)
unfolding run_time_loop
run c r counts =
    let start = u64 (r.max + 60) in
    run_time_loop c (u64 (r.max + u32 (c.load_mins * 60))) counts start >>= λ es.
    some (set_progress (u32 start) ∷ es)

-- the messages that are pushed, in their order
abbrev pub messages : List Event → List Message
messages [] = []
messages (push m ∷ es) = m ∷ messages es
messages (_ ∷ es) = messages es
