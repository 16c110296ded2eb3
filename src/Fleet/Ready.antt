-- ===== src/Fleet/Ready.antt =====
-- What a query and a display leave of the room that the statistics have.
use metric_bench.Prelude.{
  ℕ, ◌<◌, ◌≤◌, ◌≡◌, refl, sym, ◌∙◌, ap, Option, none, some, List, [], ◌∷◌, arith, subst,
  some-injective, Bool-cases, inl, inr, min, ◌&&◌, ◌⊎◌, update, ℕ_discrete, ==_iff, ==_ne,
}
use metric_bench.Prelude.Double.{Double}
use metric_bench.Prelude.Int.{ℤ, pos, ◌*ℤ◌, ◌-ℤ◌, ltb_ℤ}
use metric_bench.Message.{MessageType}
use metric_bench.LatencyStats.State.{LatencyStats}
use metric_bench.SampledStats.State.{SampledStats}
use metric_bench.SampledStats.Output.{Line, display_stats, display_types}
use metric_bench.SampledStats.Reporting.{HasRows, AllBelow, display_types-AllReported}
use metric_bench.MySqlDriver.Queries.{Outcome, succeeded, failed, Ending, returned, Session}
use metric_bench.MySqlDriver.Effects.{ending, IsReady, Effect, latencies_after}
use metric_bench.MySqlDriver.QueryLaws.{insert_query-Effect, delete_query-Effect}
use metric_bench.Fleet.{Env, Input, execute, display_if_due, display_at_end}

pub Option-cases {ℓ} : {A : Type ℓ} (o : Option A) → (o ≡ none) ⊎ ((a : A) × (o ≡ some a))
Option-cases none = inl refl
Option-cases (some a) = inr (a, refl)

-- Statistics of a thread with room for a sample in each row.
pub record HasRoom (stats : SampledStats) : Type 0 where
  pub rows : HasRows stats
  pub room : 0 < stats.max_samples

pub update-HasRoom :
    (stats : ℕ → SampledStats) (i : ℕ) (one : SampledStats)
    → ((j : ℕ) → HasRoom (stats j))
    → HasRoom one
    → (j : ℕ) → HasRoom (update stats i one j)
update-HasRoom stats i one all h j = elim (ℕ_discrete i j) [
  | yes same ↦ rw ((==_iff i j).1 same) h
  | no other ↦ rw (==_ne other) (all j)
]

module _ (d : Double) where
  -- the shared latencies have a row for each of `n` threads
  abbrev pub HasThreads : ℕ → Option (LatencyStats d) → Type 0
  HasThreads n o = (l : LatencyStats d) → o ≡ some l → n ≤ l.max_threads

  latencies_after-HasThreads :
      (n thread_id : ℕ) (op : MessageType) (outcome : Outcome) (o : Option (LatencyStats d))
      → HasThreads n o
      → HasThreads n (latencies_after d op thread_id outcome o)
  latencies_after-HasThreads n thread_id op outcome none h l e = cc
  latencies_after-HasThreads n thread_id op (succeeded us) (some l) h l' e =
      subst (λ (x : LatencyStats d). n ≤ x.max_threads) (some-injective e) (h l refl)
  latencies_after-HasThreads n thread_id op (failed ms) (some l) h l' e =
      subst (λ (x : LatencyStats d). n ≤ x.max_threads) (some-injective e) (h l refl)

  -- What thread `i` of `n` sees has room for what it records.
  pub record IsRoomy (n : ℕ) (s : Session d) : Type 0 where
    pub threads : HasThreads n s.latency_stats
    pub stats : HasRoom s.stats

  ready : {n : ℕ} (i : ℕ) (s : Session d) → i < n → IsRoomy n s → IsReady d i s
  ready {n} i s lt v = record {
    thread = λ l e. omega (arith, v.threads l e);
    rows = v.stats.rows;
    room = v.stats.room;
  }

  after-Effect :
      {n i cnt : ℕ} {op : MessageType} {outcome : Outcome} {s s' : Session d}
      → IsRoomy n s
      → Effect d op cnt i outcome s s'
      → IsReady d i s'
      → IsRoomy n s'
  after-Effect {n} {i} {op} {outcome} {s} v eff r = record {
    threads =
        subst (HasThreads n) (sym eff.latencies)
          (latencies_after-HasThreads n i op outcome s.latency_stats v.threads);
    stats = record { rows = r.rows; room = r.room };
  }

  execute-some :
      (n i : ℕ) (s : Session d) (op : MessageType) (x : Input d)
      → i < n
      → IsRoomy n s
      → (s' : Session d) × (end : Ending) × (execute d s i op x ≡ some (s', end)) × IsRoomy n s'
  unfolding execute
  execute-some n i s MessageType.insert x lt v =
      let (s', e, eff, r) =
        insert_query-Effect d s i x.metrics_cnt x.outcome x.draw (ready i s lt v) in
      (s', ending x.outcome, e, after-Effect v eff r)
  execute-some n i s MessageType.delete x lt v =
      let (s', e, eff, r) = delete_query-Effect d s i x.outcome x.draw (ready i s lt v) in
      (s', ending x.outcome, e, after-Effect v eff r)
  execute-some n i s _ x lt v = (s, returned, refl, v)

  pub execute-ne-none :
      (n i : ℕ) (s : Session d) (op : MessageType) (x : Input d)
      → i < n
      → IsRoomy n s
      → execute d s i op x ≡ none
      → ⊥
  execute-ne-none n i s op x lt v e = let (s', end, f, r) = execute-some n i s op x lt v in cc

  pub execute-IsRoomy :
      (n i : ℕ) (s s' : Session d) (op : MessageType) (x : Input d) (end : Ending)
      → i < n
      → IsRoomy n s
      → execute d s i op x ≡ some (s', end)
      → IsRoomy n s'
  execute-IsRoomy n i s s' op x end lt v e =
      let (s'', end', f, r) = execute-some n i s op x lt v in
      subst (λ (p : Session d × Ending). IsRoomy n p.0) (some-injective (sym f ∙ e)) r

  -- A display rearranges samples.
  display_stats-max_samples :
      (s s' : SampledStats) (type start end : ℕ) (start_ms now_ms : ℤ) (line : Line d)
      → display_stats d s type start end start_ms now_ms ≡ some (s', line)
      → s'.max_samples ≡ s.max_samples
  unfolding display_stats
  display_stats-max_samples s s' type start end start_ms now_ms line h = ground arith

  module _ (start_ms now_ms : ℤ) where
    display_types-max_samples :
        (types : List ℕ) (s s' : SampledStats) (lines : List (Line d))
        → display_types d s types start_ms now_ms ≡ (lines, some s')
        → s'.max_samples ≡ s.max_samples
    unfolding display_types
    display_types-max_samples [] s s' lines h =
        ap (λ (x : SampledStats). x.max_samples) (sym (some-injective (ap (λ p. p.1) h)))
    display_types-max_samples (type ∷ types) s s' lines h =
        elim (Option-cases
          (display_stats d s type 0 (min s.max_samples (s.ops_since_reset type)) start_ms now_ms)) [
            | inl past ↦
                let stopped : none ≡ some s' =
                  ap (λ (q : List (Line d) × Option SampledStats). q.1) (rw past at h) in
                cc
            | inr (one, e) ↦
                let rest = display_types d one.0 types start_ms now_ms in
                let g : (one.1 ∷ rest.0, rest.1) ≡ (lines, some s') = rw e at h in
                let k : rest.1 ≡ some s' = ap (λ p. p.1) g in
                display_types-max_samples types one.0 s' rest.0 (ap (λ o. (rest.0, o)) k)
                ∙ display_stats-max_samples s one.0 type 0
                    (min s.max_samples (s.ops_since_reset type)) start_ms now_ms one.1 e
          ]

    pub display_types-some :
        (types : List ℕ) (s : SampledStats)
        → HasRoom s
        → AllBelow types
        → (s' : SampledStats) × (lines : List (Line d)) × (display_types d s types start_ms now_ms
            ≡ (lines, some s'))
          × HasRoom s'
    display_types-some types s v below =
        let (s', lines, e, len, shown, rows) =
          display_types-AllReported d start_ms now_ms types s v.rows below in
        (
          s',
          lines,
          e,
          record {
            rows = rows;
            room = omega (arith, display_types-max_samples types s s' lines e, v.room);
          },
        )

  module _ (e : Env) (below : AllBelow e.show_stats) (stats : SampledStats) (v : HasRoom stats)
      (last_time end_time : ℤ) where
    pub display_if_due-some :
        (s' : SampledStats) × (time : ℤ) × (lines : List (Line d)) × (display_if_due d e stats
            last_time end_time
          ≡ (lines, some (s', time)))
        × HasRoom s'
    unfolding display_if_due
    display_if_due-some =
        let (s', lines, g, r) = display_types-some last_time end_time e.show_stats stats v below in
        elim (Bool-cases
          (e.ostream_set && ltb_ℤ (e.display_freq *ℤ pos 1000) (end_time -ℤ last_time))) [
            | inl due ↦ (s', end_time, lines, rw (due, g) refl, r)
            | inr early ↦ (stats, last_time, [], rw early refl, v)
          ]

    pub display_at_end-some :
        (s' : SampledStats) × (lines : List (Line d)) × (display_at_end d e stats last_time end_time
          ≡ (lines, some s'))
        × HasRoom s'
    unfolding display_at_end
    display_at_end-some =
        let (s', lines, g, r) = display_types-some last_time end_time e.show_stats stats v below in
        elim (Bool-cases e.ostream_set) [
          | inl set ↦ (s', lines, rw (set, g) refl, r)
          | inr unset ↦ (stats, [], rw unset refl, v)
        ]

    pub display_if_due-HasRoom :
        {s' : SampledStats} {time : ℤ} {lines : List (Line d)}
        → display_if_due d e stats last_time end_time ≡ (lines, some (s', time))
        → HasRoom s'
    display_if_due-HasRoom h =
        let (s'', time, lines, g, r) = display_if_due-some in
        subst (λ (p : SampledStats × ℤ). HasRoom p.0)
          (some-injective (ap (λ (q : List (Line d) × Option (SampledStats × ℤ)). q.1) (sym g ∙ h)))
          r

    pub display_at_end-HasRoom :
        {s' : SampledStats} {lines : List (Line d)}
        → display_at_end d e stats last_time end_time ≡ (lines, some s')
        → HasRoom s'
    display_at_end-HasRoom h =
        let (s'', lines, g, r) = display_at_end-some in
        subst HasRoom
          (some-injective (ap (λ (q : List (Line d) × Option SampledStats). q.1) (sym g ∙ h))) r
