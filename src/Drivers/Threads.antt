-- ===== src/Drivers/Threads.antt =====
-- The threads that a phase starts, and those that are joined.
use mathlib.Core.List.{append-nil, append_assoc}
use metric_bench.Prelude.{
  ℕ, zero, suc, ◌+◌, ◌<◌, ◌≡◌, refl, ap, sym, ◌∙◌, Bool, true, false, some, List, [], ◌∷◌, ◌++◌,
  arith, subst, some-injective,
}
use metric_bench.Prelude.Double.{Double}
use metric_bench.Config.{Config}
use metric_bench.Uri.{Bytes}
use metric_bench.Main.{Driver, mysql, mongodb, cassandra}
use metric_bench.LatencyStats.State
use metric_bench.LatencyStats.State.{LatencyStats}
use metric_bench.Pareto.{ParetoGenerator}
use metric_bench.Fleet.{run_stats}
use metric_bench.Drivers.{
  Thread, insert_data, select_data, GenericDriver, join_threads, start_kept, start_detached,
  run_threads, mongo_run_stats, set_up,
}

-- a thread of `InsertData` for each of `rounds` numbers from `i` on
abbrev pub inserting : (show_stats : List ℕ) → (rounds i : ℕ) → List Thread
inserting show_stats zero i = []
inserting show_stats (suc rounds) i = insert_data i show_stats ∷ inserting show_stats rounds (i + 1)

-- The threads of a list have rows of their own in the latencies of `n` threads.
abbrev pub HaveRows : ℕ → List Thread → Type 0
HaveRows n [] = Unit {0}
HaveRows n (insert_data i show_stats ∷ ts) = (i < n) × HaveRows n ts
HaveRows n (select_data show_stats ∷ ts) = HaveRows n ts

HaveRows-inserting :
    (n : ℕ) (show_stats : List ℕ) (rounds i : ℕ)
    → i + rounds ≡ n
    → HaveRows n (inserting show_stats rounds i)
HaveRows-inserting n show_stats zero i e = tt
HaveRows-inserting n show_stats (suc rounds) i e =
    (omega arith, HaveRows-inserting n show_stats rounds (i + 1) (omega arith))

HaveRows-append :
    (n : ℕ) (xs ys : List Thread) → HaveRows n xs → HaveRows n ys → HaveRows n (xs ++ ys)
HaveRows-append n [] ys h k = k
HaveRows-append n (insert_data i show_stats ∷ xs) ys h k = (h.0, HaveRows-append n xs ys h.1 k)
HaveRows-append n (select_data show_stats ∷ xs) ys h k = HaveRows-append n xs ys h k

-- the threads that are joined, and those that are not
abbrev pub joined_in_run : Driver → Config → List Thread
joined_in_run mysql c = inserting run_stats c.loader_threads 0 ++ select_data run_stats ∷ []
joined_in_run cassandra c = inserting run_stats c.loader_threads 0 ++ select_data run_stats ∷ []
joined_in_run mongodb c = []

abbrev pub detached_in_run : Driver → Config → List Thread
detached_in_run mysql c = []
detached_in_run cassandra c = []
detached_in_run mongodb c = inserting mongo_run_stats c.loader_threads 0

module _ (d : Double) where
  start_kept-threads :
      (show_stats : List ℕ) (rounds i : ℕ) (g : GenericDriver d)
      → start_kept d show_stats rounds i g
        ≡ record g { threads = g.threads ++ inserting show_stats rounds i }
  unfolding start_kept
  start_kept-threads show_stats zero i g =
      ap (λ ts. record g { threads = ts }) (sym (append-nil g.threads))
  start_kept-threads show_stats (suc rounds) i g =
      start_kept-threads show_stats rounds (i + 1)
        (record g { threads = g.threads ++ insert_data i show_stats ∷ [] })
      ∙ ap (λ ts. record g { threads = ts })
          (append_assoc g.threads (insert_data i show_stats ∷ [])
            (inserting show_stats rounds (i + 1)))

  start_detached-threads :
      (show_stats : List ℕ) (rounds i : ℕ) (g : GenericDriver d)
      → start_detached d show_stats rounds i g
        ≡ record g { detached = g.detached ++ inserting show_stats rounds i }
  unfolding start_detached
  start_detached-threads show_stats zero i g =
      ap (λ ts. record g { detached = ts }) (sym (append-nil g.detached))
  start_detached-threads show_stats (suc rounds) i g =
      start_detached-threads show_stats rounds (i + 1)
        (record g { detached = g.detached ++ insert_data i show_stats ∷ [] })
      ∙ ap (λ ts. record g { detached = ts })
          (append_assoc g.detached (insert_data i show_stats ∷ [])
            (inserting show_stats rounds (i + 1)))

  -- What a phase leaves of a driver that has started no thread yet.
  record Started (driver : Driver) (c : Config) (g g' : GenericDriver d) : Type 0 where
    kept : g'.threads ≡ joined_in_run driver c
    let_go : g'.detached ≡ detached_in_run driver c
    latencies : g'.latency_stats ≡ g.latency_stats

  run_threads-Started :
      (driver : Driver) (c : Config) (g : GenericDriver d)
      → g.threads ≡ []
      → g.detached ≡ []
      → Started driver c g (run_threads d driver c g)
  unfolding run_threads
  run_threads-Started mysql c g none_kept none_gone =
      rw (start_kept-threads run_stats c.loader_threads 0 g)
        (record { kept = rw none_kept refl; let_go = none_gone; latencies = refl })
  run_threads-Started cassandra c g none_kept none_gone =
      rw (start_kept-threads run_stats c.loader_threads 0 g)
        (record { kept = rw none_kept refl; let_go = none_gone; latencies = refl })
  run_threads-Started mongodb c g none_kept none_gone =
      rw (start_detached-threads mongo_run_stats c.loader_threads 0 g)
        (record { kept = none_kept; let_go = rw none_gone refl; latencies = refl })

  kept_rows :
      (c : Config)
      → HaveRows c.loader_threads
          (inserting run_stats c.loader_threads 0 ++ select_data run_stats ∷ [])
  kept_rows c =
      HaveRows-append c.loader_threads (inserting run_stats c.loader_threads 0)
        (select_data run_stats ∷ [])
        (HaveRows-inserting c.loader_threads run_stats c.loader_threads 0 (omega arith)) tt

  set_up-new :
      (c : Config) (csv_open : Bool) (p : ParetoGenerator d) (user pass database url : Bytes)
      → let g = set_up d c csv_open p user pass database url in
        (g.threads ≡ [])
        × (g.detached ≡ [])
        × (g.latency_stats ≡ some (State.init d c.loader_threads))
  unfolding set_up
  set_up-new c true p user pass database url = (refl, refl, refl)
  set_up-new c false p user pass database url = (refl, refl, refl)

  max_threads-init :
      (c : Config) (l : LatencyStats d)
      → some (State.init d c.loader_threads) ≡ some l
      → c.loader_threads ≡ l.max_threads
  unfolding State.init
  max_threads-init c l e = ap (λ (x : LatencyStats d). x.max_threads) (some-injective e)

  HaveRows-in_run :
      (driver : Driver) (c : Config)
      → HaveRows c.loader_threads (joined_in_run driver c ++ detached_in_run driver c)
  HaveRows-in_run mysql c =
      HaveRows-append c.loader_threads (joined_in_run mysql c) [] (kept_rows c) tt
  HaveRows-in_run cassandra c =
      HaveRows-append c.loader_threads (joined_in_run cassandra c) [] (kept_rows c) tt
  HaveRows-in_run mongodb c =
      HaveRows-inserting c.loader_threads mongo_run_stats c.loader_threads 0 (omega arith)

  -- `Run` starts a thread of `InsertData` for each number below LoaderThreads, and with MySQL and Cassandra one
  -- of `SelectData` besides. `JoinThreads` joins all of these in the order of their start, but with MongoDB
  -- none, since it keeps none. Each number of a thread has a row in the `LatencyStats` that `main` has made.
  pub run_threads-joined :
      (driver : Driver) (c : Config) (csv_open : Bool) (p : ParetoGenerator d)
      (user pass database url : Bytes)
      → let g = run_threads d driver c (set_up d c csv_open p user pass database url) in
        (join_threads d g ≡ joined_in_run driver c)
        × (g.detached ≡ detached_in_run driver c)
        × ((l : LatencyStats d)
            → g.latency_stats ≡ some l
            → HaveRows l.max_threads (g.threads ++ g.detached))
  unfolding join_threads
  run_threads-joined driver c csv_open p user pass database url =
      let g = set_up d c csv_open p user pass database url in
      let (none_kept, none_gone, made) = set_up-new c csv_open p user pass database url in
      let s = run_threads-Started driver c g none_kept none_gone in
      (
        s.kept,
        s.let_go,
        λ l e.
            rw (s.kept, s.let_go)
              (subst (λ n. HaveRows n (joined_in_run driver c ++ detached_in_run driver c))
                (max_threads-init c l (sym made ∙ (sym s.latencies ∙ e)))
                (HaveRows-in_run driver c)),
      )
