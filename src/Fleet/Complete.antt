-- ===== src/Fleet/Complete.antt =====
-- From `Prep` of src/Preparer.cpp through the threads of src/MySQLDriver.cpp to the messages that
-- src/Stats.cpp counts: what has happened once every thread has left its loop.
use metric_bench.Prelude.{
  ℕ, ◌+◌, ◌*◌, ◌^◌, ◌≤◌, ◌<◌, ◌≡◌, refl, sym, ◌∙◌, ap, Option, some, List, [], ◌∷◌, ◌++◌,
  sum_below-zero, sum_below-ext, arith, zero, suc, length, replicate, inversion, some-injective,
  ltb, Bool-cases, inl, inr,
}
use metric_bench.Prelude.Double.{Double}
use metric_bench.Prelude.Int.{ℤ}
use metric_bench.Config.{Config}
use metric_bench.Message.{Message, MessageType, insert_metric}
use metric_bench.LatencyStats.State.{LatencyStats}
use metric_bench.SampledStats.State.{SampledStats}
use metric_bench.Workers.{Pc}
use metric_bench.Workers.Laws.{left-Reach}
use metric_bench.Preparer.{
  TsRange, Event, wait_size, wait_empty, add_progress, u64, u32, messages, table_loop,
  prep_device_loop, prep_time_loop, prep_start, prep,
}
use metric_bench.Preparer.Grid.{hit, occurrences, messages-append}
use metric_bench.Preparer.Coverage.{prep_coverage}
use metric_bench.Fleet.{Env, Fleet, init, Reach}
use metric_bench.Fleet.Refinement.{system_of, system_of-Reach}
use metric_bench.Message.Weights.{weigh, weigh-append}
use metric_bench.Fleet.Accounts.{held, Reach-Accounts, init-Accounts}
use metric_bench.Fleet.Sending.{report, reports_of, types}

-- 1 for a message that is no insertion
abbrev pub is_other : MessageType → ℕ
is_other MessageType.insert = 0
is_other _ = 1

abbrev pub other : Message → ℕ
other m = is_other m.op

weigh-messages :
    (es fs : List Event)
    → weigh other (messages (es ++ fs)) ≡ weigh other (messages es) + weigh other (messages fs)
weigh-messages es fs =
    ap (weigh other) (messages-append es fs) ∙ weigh-append other (messages es) (messages fs)

table_loop-other : (ts dc rounds t : ℕ) → weigh other (messages (table_loop ts dc rounds t)) ≡ 0
unfolding table_loop
table_loop-other ts dc zero t = refl
table_loop-other ts dc (suc rounds) t = omega (arith, table_loop-other ts dc rounds (t + 1))

prep_device_loop-other :
    (c : Config) (ts rounds dc : ℕ) → weigh other (messages (prep_device_loop c ts rounds dc)) ≡ 0
unfolding prep_device_loop
prep_device_loop-other c ts zero dc = refl
prep_device_loop-other c ts (suc rounds) dc = omega (
  arith,
  weigh-messages (table_loop ts dc c.db_tables 1) (
      add_progress c.db_tables
      ∷ wait_size (u32 (c.loader_threads * 2))
      ∷ prep_device_loop c ts rounds (dc + 1)),
  table_loop-other ts dc c.db_tables 1,
  prep_device_loop-other c ts rounds (dc + 1),
)

prep_time_loop-other :
    (c : Config) (stop fuel ts : ℕ) (es : List Event)
    → prep_time_loop c stop fuel ts ≡ some es
    → weigh other (messages es) ≡ 0
unfolding prep_time_loop
prep_time_loop-other c stop zero ts es h = cc
prep_time_loop-other c stop (suc fuel) ts es h = elim (Bool-cases (ltb ts stop)) [
  | inl more ↦
      let (rest, e, f) = inversion (prep_time_loop c stop fuel (u64 (ts + 60))) _ (rw more at h) in
      rw (← some-injective f) (
        omega (
          arith,
          weigh-messages (prep_device_loop c ts c.max_devices 1) (wait_empty ∷ rest),
          prep_device_loop-other c ts c.max_devices 1,
          prep_time_loop-other c stop fuel (u64 (ts + 60)) rest e,
        ))
  | inr done ↦ let f : some [] ≡ some es = rw done at h in rw (← some-injective f) refl
]

prep-other :
    (c : Config) (r : TsRange) (fuel : ℕ) (es : List Event)
    → prep c r fuel ≡ some es
    → weigh other (messages es) ≡ 0
unfolding prep
prep-other c r fuel es h =
    let (rest, e, f) =
      inversion (prep_time_loop c (u64 (prep_start r + u32 (c.load_mins * 60))) fuel (prep_start r))
        _ h in
    rw (← some-injective f) (
      prep_time_loop-other c (u64 (prep_start r + u32 (c.load_mins * 60))) fuel (prep_start r) rest
        e)

report-insert : (op : MessageType) → is_other op ≡ 0 → report op ≡ insert_metric ∷ []
report-insert MessageType.insert h = refl
report-insert _ h = absurd (omega arith)

reports_of-inserts :
    (ms : List Message) → weigh other ms ≡ 0 → reports_of ms ≡ replicate (length ms) insert_metric
reports_of-inserts [] h = refl
reports_of-inserts (m ∷ ms) h =
    rw (report-insert m.op (omega arith), reports_of-inserts ms (omega arith)) refl

pub length-weigh : (ms : List Message) → length ms ≡ weigh (λ _. 1) ms
length-weigh [] = refl
length-weigh (m ∷ ms) = omega (arith, length-weigh ms)

pub occurrences-weigh :
    (ts d t : ℕ) (ms : List Message) → occurrences ts d t ms ≡ weigh (hit ts d t) ms
occurrences-weigh ts d t [] = refl
occurrences-weigh ts d t (m ∷ ms) = omega (arith, occurrences-weigh ts d t ms)

module _ (d : Double) (e : Env) (n : ℕ) (latency_stats : Option (LatencyStats d))
    (stats : ℕ → SampledStats) (start_time : ℤ) (some_threads : 0 < n) where
  -- Once each of the threads, at least one, has left its loop, the executed messages are those of the main
  -- thread, each as often as it was pushed, and these threads have sent to `statQueue`, in the order of the
  -- executions, one message of InsertMetric for each insertion and one of DeleteDevice for each deletion,
  -- and no other.
  pub left-served :
      (ms : List Message) (s : Fleet d)
      → Reach d e n (init d ms latency_stats stats start_time) s
      → ((i : ℕ) → i < n → s.pc i ≡ Pc.left)
      → ((w : Message → ℕ) → weigh w s.served ≡ weigh w ms)
        × (types (s.reported ++ s.stat_queue.items) ≡ reports_of s.served)
  left-served ms s r left =
      let v = Reach-Accounts d (init-Accounts d n ms latency_stats stats start_time) r in
      let popped =
        left-Reach n ms (system_of d s) 0
          (system_of-Reach d e n ms latency_stats stats start_time s r) (left 0 some_threads) in
      (
        λ w. omega (
          arith,
          v.kept w,
          ap (weigh w) popped,
          sum_below-zero n,
          sum_below-ext n (λ i. held w (s.pc i)) (λ _. 0) (λ i lt. ap (held w) (left i lt)),
        ),
        v.told,
      )

  -- Where no timestamp reaches 2 ^ 32 - 60: once each of the threads, at least one, that work on what `Prep`
  -- pushes has left its loop, LoadMins * MaxDevices * DBTables insertions have been executed, one for each minute
  -- from the start on, each device from 1 to MaxDevices and each table from 1 to DBTables; and as many
  -- messages of InsertMetric have been sent to `statQueue`, and no other.
  pub prep-served :
      (c : Config) (r : TsRange) (es : List Event) (s : Fleet d)
      → prep_start r + c.load_mins * 60 + 60 ≤ 2 ^ 32
      → prep c r (c.load_mins + 1) ≡ some es
      → Reach d e n (init d (messages es) latency_stats stats start_time) s
      → ((i : ℕ) → i < n → s.pc i ≡ Pc.left)
      → (length s.served ≡ c.load_mins * (c.max_devices * c.db_tables))
        × ((k dc t : ℕ)
            → k < c.load_mins
            → 1 ≤ dc
            → dc ≤ c.max_devices
            → 1 ≤ t
            → t ≤ c.db_tables
            → occurrences (prep_start r + k * 60) dc t s.served ≡ 1)
        × (types (s.reported ++ s.stat_queue.items)
            ≡ replicate (c.load_mins * (c.max_devices * c.db_tables)) insert_metric)
  prep-served c r es s bound ran reach left =
      let (fs, f, total, cells) = prep_coverage c r bound in
      let same : fs ≡ es = some-injective (sym f ∙ ran) in
      let (served, told) = left-served (messages es) s reach left in
      let count : length s.served ≡ c.load_mins * (c.max_devices * c.db_tables) =
        length-weigh s.served
        ∙ served (λ _. 1)
        ∙ sym (length-weigh (messages es))
        ∙ ap (λ l. length (messages l)) (sym same)
        ∙ total in
      (
        count,
        λ k dc t a b x y z.
            occurrences-weigh (prep_start r + k * 60) dc t s.served
            ∙ served (hit (prep_start r + k * 60) dc t)
            ∙ sym (occurrences-weigh (prep_start r + k * 60) dc t (messages es))
            ∙ ap (λ l. occurrences (prep_start r + k * 60) dc t (messages l)) (sym same)
            ∙ cells k dc t a b x y z,
        told
            ∙ reports_of-inserts s.served (served other ∙ prep-other c r (c.load_mins + 1) es ran)
            ∙ ap (λ l. replicate l insert_metric) count,
      )
