-- ===== src/SampledStats/Storing.antt =====
-- What `addStats` of src/SampledStats.cpp has stored after any history of calls.
use metric_bench.Prelude.{
  ℕ, suc, ◌+◌, ◌%◌, ◌≤◌, ◌<◌, ◌≡◌, refl, ap, subst, ◌∙◌, Bool, true, false, Option, some, List, [],
  ◌∷◌, ◌++◌, arith, length, take, set, length-set, length-replicate, take-set, ltb, lt→ltb, ◌==◌,
  if◌then◌else◌, update, ℕ_discrete, ==_iff, ==_ne, ◌>>=◌, Bool-cases, inl, inr,
}
use metric_bench.Prelude.Double.{Double}
use metric_bench.Prelude.Int.{ℤ, pos}
use metric_bench.Message.{MessageType, index}
use metric_bench.SampledStats.State.{
  SampledStats, max_optypes, init, counted, store_sample, add_stats,
}

module _ (d : Double) where
  -- One call of `addStats`, with its draws.
  pub record Call : Type 0 where
    pub type : MessageType
    pub timetaken : ℤ
    pub error : Bool
    pub probability : d.Carrier
    pub rand : ℕ

  -- The calls in their order: the last call of the list is made first.
  unfoldable pub add_all : SampledStats → List Call → Option SampledStats
  add_all s [] = some s
  add_all s (x ∷ xs) =
      add_all s xs >>= λ s'. add_stats d s' x.type x.timetaken x.error x.probability x.rand

  -- the calls of a type, those with an error, and the times of the calls in their order
  abbrev pub count_calls : ℕ → List Call → ℕ
  count_calls i [] = 0
  count_calls i (x ∷ xs) = count_calls i xs + (if index x.type == i then 1 else 0)

  abbrev pub count_errors : ℕ → List Call → ℕ
  count_errors i [] = 0
  count_errors i (x ∷ xs) =
      count_errors i xs + (if index x.type == i then if x.error then 1 else 0 else 0)

  abbrev pub times : ℕ → List Call → List ℤ
  times i [] = []
  times i (x ∷ xs) = if index x.type == i then times i xs ++ x.timetaken ∷ [] else times i xs

  -- every call has a type below `MAX_OPTYPES`
  abbrev pub InRange : List Call → Type 0
  InRange [] = Unit {0}
  InRange (x ∷ xs) = (index x.type < max_optypes) × InRange xs

  -- What the calls leave for one type.
  pub record Stored (max_samples : ℕ) (calls : List Call) (s : SampledStats) (i : ℕ) : Type 0 where
    pub ops : s.num_ops i ≡ count_calls i calls
    pub since_reset : s.ops_since_reset i ≡ count_calls i calls
    pub failed : s.errors i ≡ count_errors i calls
    pub room : length (s.samples i) ≡ max_samples
    pub exact :
        count_calls i calls ≤ max_samples → take (count_calls i calls) (s.samples i) ≡ times i calls

  -- A sample is always stored somewhere or dropped, and the row keeps its length.
  pub store_sample-some :
      (max_samples op_index : ℕ) (row : List ℤ) (t : ℤ) (p : d.Carrier) (r : ℕ)
      → 0 < max_samples
      → length row ≡ max_samples
      → (row' : List ℤ) × (store_sample d max_samples op_index row t p r ≡ some row')
        × (length row' ≡ max_samples)
        × (op_index < max_samples → take (suc op_index) row' ≡ take op_index row ++ t ∷ [])
  unfolding store_sample
  store_sample-some max_samples op_index row t p r h len =
      elim (Bool-cases (ltb op_index max_samples)) [
        | inl e ↦ (
          set row op_index t,
          rw e refl,
          length-set row op_index t ∙ len,
          λ lt. take-set row op_index t (omega arith),
        )
        | inr e ↦
            elim (Bool-cases (d.lt p (d.div (d.of_ℤ (pos max_samples)) (d.of_ℤ (pos op_index))))) [
              | inl f ↦ (
                set row (r % max_samples) t,
                rw (e, f, ==_ne {a = max_samples} {b = 0} (λ z. absurd (omega arith))) refl,
                length-set row (r % max_samples) t ∙ len,
                λ lt. let now = lt→ltb op_index max_samples lt in cc,
              )
              | inr f ↦
                  (row, rw (e, f) refl, len, λ lt. let now = lt→ltb op_index max_samples lt in cc)
            ]
      ]

  init-Stored : (thread_id max_samples i : ℕ) → Stored max_samples [] (init thread_id max_samples) i
  unfolding init
  init-Stored thread_id max_samples i = record {
    ops = refl;
    since_reset = refl;
    failed = refl;
    room = length-replicate max_samples (pos 0);
    exact = λ _. refl;
  }

  pub errors_after :
      (errors : ℕ → ℕ) (k i : ℕ) (error : Bool)
      → (if error then update errors k (errors k + 1) else errors) i
        ≡ errors i + (if k == i then if error then 1 else 0 else 0)
  errors_after errors k i false = ground arith
  errors_after errors k i true = elim (ℕ_discrete k i) [
    | yes same ↦ rw ((==_iff k i).1 same) (omega (arith, ap errors same))
    | no differ ↦ rw (==_ne differ) (omega arith)
  ]

  counted-Stored :
      (max_samples : ℕ) (x : Call) (xs : List Call) (s : SampledStats) (row : List ℤ) (i : ℕ)
      → Stored max_samples xs s i
      → length row ≡ max_samples
      → (s.ops_since_reset (index x.type) < max_samples
          → take (suc (s.ops_since_reset (index x.type))) row
            ≡ take (s.ops_since_reset (index x.type)) (s.samples (index x.type))
              ++ x.timetaken ∷ [])
      → Stored max_samples (x ∷ xs) (counted s (index x.type) x.timetaken x.error row) i
  counted-Stored max_samples x xs s row i v len filled = elim (ℕ_discrete (index x.type) i) [
    | yes same ↦
        let hit = (==_iff (index x.type) i).1 same in
        record {
          ops = rw hit (omega (arith, ap s.num_ops same, v.ops));
          since_reset = rw hit (omega (arith, ap s.ops_since_reset same, v.since_reset));
          failed = omega (arith, errors_after s.errors (index x.type) i x.error, v.failed);
          room = rw hit len;
          exact = λ h.
              let room_left : count_calls i xs + 1 ≤ max_samples = rw hit at h in
              let counts : count_calls i xs + (if true then 1 else 0) ≡ suc (count_calls i xs) =
                omega arith in
              rw hit (
                ap (λ n. take n row) counts
                ∙ subst
                    (λ n.
                      n < max_samples
                      → take (suc n) row ≡ take n (s.samples (index x.type)) ++ x.timetaken ∷ [])
                    (ap s.ops_since_reset same ∙ v.since_reset) filled (omega arith)
                ∙ ap (λ l. l ++ x.timetaken ∷ [])
                    (ap (λ k. take (count_calls i xs) (s.samples k)) same ∙ v.exact (omega arith)));
        }
    | no differ ↦
        let miss = ==_ne differ in
        record {
          ops = rw miss (omega (arith, v.ops));
          since_reset = rw miss (omega (arith, v.since_reset));
          failed = omega (arith, errors_after s.errors (index x.type) i x.error, v.failed);
          room = rw miss v.room;
          exact = λ h.
              let same_count : count_calls i xs + (if false then 1 else 0) ≡ count_calls i xs =
                omega arith in
              let few : count_calls i xs + 0 ≤ max_samples = rw miss at h in
              rw miss (ap (λ n. take n (s.samples i)) same_count ∙ v.exact (omega arith));
        }
  ]

  -- Where `maxsamples` is positive, any calls of `addStats` with types below `MAX_OPTYPES`, whatever their
  -- draws, write within the arrays. Each type's `numops` and `opsSinceReset` are the number of its calls,
  -- its `errors` the number of those with an error, its row keeps `maxsamples` elements, and as long as
  -- the calls are no more than these the row holds their times, each once and in their order.
  pub add_all-Stored :
      (thread_id max_samples : ℕ) (calls : List Call)
      → 0 < max_samples
      → InRange calls
      → (s : SampledStats) × (add_all (init thread_id max_samples) calls ≡ some s)
        × (s.max_samples ≡ max_samples)
        × ((i : ℕ) → Stored max_samples calls s i)
  unfolding add_all add_stats
  add_all-Stored thread_id max_samples [] h r =
      (init thread_id max_samples, refl, unfold init in refl, init-Stored thread_id max_samples)
  add_all-Stored thread_id max_samples (x ∷ xs) h r =
      let (s, e, m, v) = add_all-Stored thread_id max_samples xs h r.1 in
      let (row, f, len, filled) =
        store_sample-some s.max_samples (s.ops_since_reset (index x.type))
          (s.samples (index x.type)) x.timetaken x.probability x.rand (omega arith)
          (omega (arith, (v (index x.type)).room)) in
      (
        counted s (index x.type) x.timetaken x.error row,
        rw (e, lt→ltb (index x.type) max_optypes r.0, f) refl,
        m,
        λ i. counted-Stored max_samples x xs s row i (v i) (len ∙ m) (λ lt. filled (omega arith)),
      )
