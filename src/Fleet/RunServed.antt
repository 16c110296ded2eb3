-- ===== src/Fleet/RunServed.antt =====
-- From `Run` of src/Preparer.cpp through the threads of src/MySQLDriver.cpp to what they have executed.
use metric_bench.Prelude.{
  ℕ, ◌+◌, ◌*◌, ◌^◌, ◌≤◌, ◌<◌, ◌≡◌, refl, sym, ◌∙◌, ap, Option, some, List, [], ◌∷◌, arith, length,
  some-injective,
}
use metric_bench.Prelude.Double.{Double}
use metric_bench.Prelude.Int.{ℤ}
use metric_bench.Config.{Config}
use metric_bench.Message.{Message, MessageType}
use metric_bench.LatencyStats.State.{LatencyStats}
use metric_bench.SampledStats.State.{SampledStats}
use metric_bench.Workers.{Pc}
use metric_bench.Preparer.{TsRange, Event, messages, run}
use metric_bench.Preparer.Grid.{hit, occurrences}
use metric_bench.Preparer.Window.{AllMessages, InWindow, run_window}
use metric_bench.Preparer.RunCoverage.{devices_in, devices_at, run_coverage}
use metric_bench.Fleet.{Env, Fleet, init, Reach}
use metric_bench.Message.Weights.{weigh}
use metric_bench.Fleet.Complete.{is_other, other, length-weigh, occurrences-weigh, left-served}

other-insert : (op : MessageType) → op ≡ MessageType.insert → is_other op ≡ 0
other-insert op e = rw e refl

other-InWindow :
    (lo hi tables : ℕ) (ms : List Message)
    → AllMessages (InWindow lo hi tables) ms
    → weigh other ms ≡ 0
other-InWindow lo hi tables [] h = refl
other-InWindow lo hi tables (m ∷ ms) h =
    omega (arith, other-insert m.op h.0.0, other-InWindow lo hi tables ms h.1)

module _ (d : Double) (e : Env) (n : ℕ) (latency_stats : Option (LatencyStats d))
    (stats : ℕ → SampledStats) (start_time : ℤ) (some_threads : 0 < n) where
  -- Where the window ends 60 s before 2 ^ 32 and LoadMins draws of the generator are at hand: once each of
  -- the threads, at least one, that work on what `Run` pushes has left its loop, they have executed
  -- insertions only, and for each minute behind the newest timestamp of the tables one for each device
  -- from 1 to the number drawn for the minute and each table from 1 to DBTables, and no more.
  pub run-served :
      (c : Config) (r : TsRange) (counts : List ℕ) (es : List Event) (s : Fleet d)
      → r.max + c.load_mins * 60 + 60 < 2 ^ 32
      → c.load_mins ≤ length counts
      → run c r counts ≡ some es
      → Reach d e n (init d (messages es) latency_stats stats start_time) s
      → ((i : ℕ) → i < n → s.pc i ≡ Pc.left)
      → (weigh other s.served ≡ 0)
        × (length s.served ≡ devices_in c.load_mins counts * c.db_tables)
        × ((k dc t : ℕ)
            → k < c.load_mins
            → 1 ≤ dc
            → dc ≤ devices_at k counts
            → 1 ≤ t
            → t ≤ c.db_tables
            → occurrences (r.max + 60 + k * 60) dc t s.served ≡ 1)
  run-served c r counts es s bound many ran reach left =
      let (fs, f, total, cells) = run_coverage c r counts bound many in
      let (gs, g, window) = run_window c r counts bound many in
      let same : fs ≡ es = some-injective (sym f ∙ ran) in
      let same' : gs ≡ es = some-injective (sym g ∙ ran) in
      let (served, told) =
        left-served d e n latency_stats stats start_time some_threads (messages es) s reach left in
      (
        served other
            ∙ ap (λ l. weigh other (messages l)) (sym same')
            ∙ other-InWindow _ _ _ (messages gs) window,
        length-weigh s.served
            ∙ served (λ _. 1)
            ∙ sym (length-weigh (messages es))
            ∙ ap (λ l. length (messages l)) (sym same)
            ∙ total,
        λ k dc t a b x y z.
            occurrences-weigh (r.max + 60 + k * 60) dc t s.served
            ∙ served (hit (r.max + 60 + k * 60) dc t)
            ∙ sym (occurrences-weigh (r.max + 60 + k * 60) dc t (messages es))
            ∙ ap (λ l. occurrences (r.max + 60 + k * 60) dc t (messages l)) (sym same)
            ∙ cells k dc t a b x y z,
      )
