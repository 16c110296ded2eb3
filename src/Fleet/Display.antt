-- ===== src/Fleet/Display.antt =====
-- What `runStats` of src/MySQLDriver.cpp shows: its last two types are past the end of the arrays.
use metric_bench.Prelude.{
  ℕ, ◌≡◌, refl, sym, ap, ◌∙◌, subst, true, Bool-cases, inl, inr, Option, none, some, List, [], ◌∷◌,
  min, arith, some-injective, ◌&&◌,
}
use metric_bench.Prelude.Double.{Double}
use metric_bench.Prelude.Int.{ℤ, pos, ◌-ℤ◌, ◌*ℤ◌, ltb_ℤ}
use metric_bench.SampledStats.State.{SampledStats}
use metric_bench.SampledStats.Output.{Line, display_stats, display_types}
use metric_bench.SampledStats.Reporting.{HasRows, AllReported, display_stats-HasRows}
use metric_bench.Fleet.{Env, run_stats, display_if_due, display_at_end}

not_none {ℓ} : {A : Type ℓ} {a : A} → none ≡ some a → ⊥
not_none e = cc

module _ (d : Double) where
  -- The lines of InsertMetric and of DeleteDevice, and no more.
  pub record IsCut (lines : List (Line d)) : Type 0 where
    pub first : Line d
    pub second : Line d
    pub both : lines ≡ first ∷ second ∷ []
    pub labels : (first.label ≡ "InsertMetric") × (second.label ≡ "DeleteDevice")
    pub reported : AllReported lines

  label_insert :
      (s s' : SampledStats) (end : ℕ) (start_ms now_ms : ℤ) (line : Line d)
      → display_stats d s 2 0 end start_ms now_ms ≡ some (s', line)
      → line.label ≡ "InsertMetric"
  unfolding display_stats
  label_insert s s' end start_ms now_ms line h = ground arith

  label_delete :
      (s s' : SampledStats) (end : ℕ) (start_ms now_ms : ℤ) (line : Line d)
      → display_stats d s 3 0 end start_ms now_ms ≡ some (s', line)
      → line.label ≡ "DeleteDevice"
  unfolding display_stats
  label_delete s s' end start_ms now_ms line h = ground arith

  display_types-cons :
      (s s' : SampledStats) (type : ℕ) (types : List ℕ) (start_ms now_ms : ℤ) (line : Line d)
      (lines : List (Line d)) (rest : Option SampledStats)
      → display_stats d s type 0 (min s.max_samples (s.ops_since_reset type)) start_ms now_ms
        ≡ some (s', line)
      → display_types d s' types start_ms now_ms ≡ (lines, rest)
      → display_types d s (type ∷ types) start_ms now_ms ≡ (line ∷ lines, rest)
  unfolding display_types
  display_types-cons s s' type types start_ms now_ms line lines rest e f = rw (e, f) refl

  display_types-past :
      (s : SampledStats) (types : List ℕ) (start_ms now_ms : ℤ)
      → display_types d s (4 ∷ types) start_ms now_ms ≡ ([], none)
  unfolding display_types display_stats
  display_types-past s types start_ms now_ms = refl

  pub display_types-IsCut :
      (s : SampledStats) (start_ms now_ms : ℤ)
      → HasRows s
      → (lines : List (Line d)) × (display_types d s run_stats start_ms now_ms ≡ (lines, none))
        × IsCut lines
  display_types-IsCut s start_ms now_ms rows =
      let (s', line, e, rows', shown) =
        display_stats-HasRows d start_ms now_ms s 2 (min s.max_samples (s.ops_since_reset 2)) rows
          (omega arith) (omega arith) in
      let (s'', line', e', rows'', shown') =
        display_stats-HasRows d start_ms now_ms s' 3 (min s'.max_samples (s'.ops_since_reset 3))
          rows' (omega arith) (omega arith) in
      (
        line ∷ line' ∷ [],
        display_types-cons s s' 2 (3 ∷ 4 ∷ 5 ∷ []) start_ms now_ms line (line' ∷ []) none e (
            display_types-cons s' s'' 3 (4 ∷ 5 ∷ []) start_ms now_ms line' [] none e'
              (display_types-past s'' (5 ∷ []) start_ms now_ms)),
        record {
          first = line;
          second = line';
          both = refl;
          labels = (
            label_insert s s' _ start_ms now_ms line e,
            label_delete s' s'' _ start_ms now_ms line' e',
          );
          reported = (shown, (shown', tt));
        },
      )

  module _ (display_freq : ℤ) where
    abbrev pub streamed : Env
    streamed = record { ostream_set = true; display_freq = display_freq; show_stats = run_stats }

    -- what `display_if_due` gives
    abbrev Shown : Type 0
    Shown = List (Line d) × Option (SampledStats × ℤ)

    -- A display in the loop that completes is one that is not due.
    pub not_due :
        (stats stats' : SampledStats) (last_time end_time time : ℤ) (lines : List (Line d))
        → HasRows stats
        → display_if_due d streamed stats last_time end_time ≡ (lines, some (stats', time))
        → (lines ≡ []) × (stats' ≡ stats)
    unfolding display_if_due
    not_due stats stats' last_time end_time time lines rows h =
        let (shown, e, cut) = display_types-IsCut stats last_time end_time rows in
        elim (Bool-cases (true && ltb_ℤ (display_freq *ℤ pos 1000) (end_time -ℤ last_time))) [
          | inl due ↦ absurd (not_none (ap (λ (p : Shown). p.1) (rw (due, e) at h)))
          | inr early ↦
              let kept : Path Shown ([], some (stats, last_time)) (lines, some (stats', time)) =
                rw early at h in
              (
                sym (ap (λ (p : Shown). p.0) kept),
                sym (
                    ap (λ (p : SampledStats × ℤ). p.0)
                      (some-injective (ap (λ (p : Shown). p.1) kept))),
              )
        ]

    pub due-IsCut :
        (stats : SampledStats) (last_time end_time : ℤ) (lines : List (Line d))
        → HasRows stats
        → display_if_due d streamed stats last_time end_time ≡ (lines, none)
        → IsCut lines
    unfolding display_if_due
    due-IsCut stats last_time end_time lines rows h =
        let (shown, e, cut) = display_types-IsCut stats last_time end_time rows in
        elim (Bool-cases (true && ltb_ℤ (display_freq *ℤ pos 1000) (end_time -ℤ last_time))) [
          | inl due ↦
              let past : Path Shown (shown, none) (lines, none) = rw (due, e) at h in
              subst IsCut (ap (λ (p : Shown). p.0) past) cut
          | inr early ↦ absurd (not_none (sym (ap (λ (p : Shown). p.1) (rw early at h))))
        ]

    pub at_end-past :
        (stats stats' : SampledStats) (last_time end_time : ℤ) (lines : List (Line d))
        → HasRows stats
        → display_at_end d streamed stats last_time end_time ≡ (lines, some stats')
        → ⊥
    unfolding display_at_end
    at_end-past stats stats' last_time end_time lines rows h =
        let (shown, e, cut) = display_types-IsCut stats last_time end_time rows in
        let stuck : none ≡ some stats' =
          ap (λ (p : List (Line d) × Option SampledStats). p.1) (sym e ∙ h) in
        cc

    pub at_end-IsCut :
        (stats : SampledStats) (last_time end_time : ℤ) (lines : List (Line d))
        → HasRows stats
        → display_at_end d streamed stats last_time end_time ≡ (lines, none)
        → IsCut lines
    unfolding display_at_end
    at_end-IsCut stats last_time end_time lines rows h =
        let (shown, e, cut) = display_types-IsCut stats last_time end_time rows in
        subst IsCut (ap (λ (p : List (Line d) × Option SampledStats). p.0) (sym e ∙ h)) cut
