-- ===== src/Fleet/Accounts.antt =====
-- What becomes of the messages: each one popped is executed or in the hands of one thread, and each one
-- executed is reported.
use mathlib.Core.List.{append-nil, append_assoc}
use metric_bench.Prelude.{
  ℕ, ◌+◌, ◌<◌, ◌≡◌, Bool, refl, sym, ◌∙◌, ap, false, Option, List, [], ◌∷◌, ◌++◌, update, sum_below,
  sum_below_step, sum_below-zero, ==_iff, ==_ne, arith,
}
use metric_bench.Prelude.Double.{Double}
use metric_bench.Message.{Message}
use metric_bench.Message.Weights.{weigh, weigh-append}
use metric_bench.TsQueue
use metric_bench.TsQueue.{TsQueue}
use metric_bench.TsQueue.Laws.{wait_and_pop-cons}
use metric_bench.Prelude.Int.{ℤ}
use metric_bench.LatencyStats.State.{LatencyStats}
use metric_bench.SampledStats.State.{SampledStats}
use metric_bench.Workers
use metric_bench.Workers.{
  Pc, Move, goes_on, is_complete, has_more, leaves, sees_message, sees_nothing, pops, handles,
}
use metric_bench.Fleet.{
  Env, is_handling, Fleet, session, Step, pushes, finishes, works, serves, crashes, faults_in_query,
  faults_in_display, exits, faults_at_end, reports, Reach, here, next, init,
}
use metric_bench.Fleet.Sending.{report, reports_of, types, types-append, execute-sent}

reports_of-append :
    (xs : List Message) (m : Message) → reports_of (xs ++ m ∷ []) ≡ reports_of xs ++ report m.op
reports_of-append [] m = append-nil (report m.op)
reports_of-append (x ∷ xs) m =
    rw (reports_of-append xs m) (sym (append_assoc (report x.op) (reports_of xs) (report m.op)))

-- the weight of what a thread holds
abbrev pub held : (Message → ℕ) → Pc → ℕ
held w (Pc.handling m) = w m
held w _ = 0

Move-held :
    {c : Bool} {q q' : TsQueue Message} {p p' : Pc} (w : Message → ℕ)
    → is_handling p ≡ false
    → (mv : Move c q p q' p') → held w p' ≡ held w p + weigh w (Workers.log mv)
Move-held w h (goes_on e) = omega arith
Move-held w h (is_complete e) = omega arith
Move-held w h (has_more e) = omega arith
Move-held w h (leaves e) = omega arith
Move-held w h (sees_message e) = omega arith
Move-held w h (sees_nothing e) = omega arith
Move-held w h (pops e) = omega arith
Move-held w h handles = cc

abbrev all_held : (Message → ℕ) → ℕ → (ℕ → Pc) → ℕ
all_held w n pc = sum_below n (λ i. held w (pc i))

update_self {ℓ} : {A : Type ℓ} (a : ℕ → A) (i : ℕ) (x : A) → update a i x i ≡ x
update_self a i x = rw ((==_iff i i).1 refl) refl

module _ (d : Double) where
  pub record Accounts (n : ℕ) (s : Fleet d) : Type 0 where
    pub told : types (s.reported ++ s.stat_queue.items) ≡ reports_of s.served
    pub kept : (w : Message → ℕ) → weigh w s.popped ≡ weigh w s.served + all_held w n s.pc

  init-kept : (n : ℕ) (w : Message → ℕ) → 0 ≡ 0 + all_held w n (λ _. Pc.test_flag)
  init-kept n w = omega (arith, sum_below-zero n)

  -- A thread that takes or puts down a message changes the sum by its weight.
  moved :
      (w : Message → ℕ) {n : ℕ} (i : ℕ) (pc : ℕ → Pc) (p : Pc) (k : ℕ)
      → i < n
      → held w p ≡ held w (pc i) + k
      → all_held w n (update pc i p) ≡ all_held w n pc + k
  moved w {n = n} i pc p k lt e =
      sum_below_step n i k (λ j. held w (pc j)) (λ j. held w (update pc i p j)) lt
        (λ j differ. rw (==_ne (λ r. differ (sym r))) refl) (ap (held w) (update_self pc i p) ∙ e)

  put_down :
      (w : Message → ℕ) {n : ℕ} (i : ℕ) (pc : ℕ → Pc) (m : Message)
      → i < n
      → pc i ≡ Pc.handling m
      → all_held w n pc ≡ all_held w n (update pc i Pc.test_flag) + w m
  put_down w {n} i pc m lt e =
      sum_below_step n i (w m) (λ j. held w (update pc i Pc.test_flag j)) (λ j. held w (pc j)) lt
        (λ j differ. rw (==_ne (λ r. differ (sym r))) refl)
        (omega (arith, ap (held w) e, ap (held w) (update_self pc i Pc.test_flag)))

  Step-Accounts : {e : Env} {n : ℕ} {s t : Fleet d} → Step d e n s t → Accounts n s → Accounts n t
  Step-Accounts (pushes m rest run h) v = record { told = v.told; kept = v.kept }
  Step-Accounts (finishes run h) v = record { told = v.told; kept = v.kept }
  Step-Accounts {n} {s} (works i {q} {p} run lt quiet mv) v = record {
    told = v.told;
    kept = λ w. omega (
      arith,
      weigh-append w s.popped (Workers.log mv),
      v.kept w,
      moved w {n = n} i s.pc p (weigh w (Workers.log mv)) lt (Move-held w quiet mv),
    );
  }
  Step-Accounts {e} {n} {s} (serves i m x s' stats time lines run lt h f g) v = record {
    told =
        types-append s.reported s'.stat_queue.items
        ∙ ap (λ l. types s.reported ++ l) (execute-sent d (session d e s i) s' i m.op x f)
        ∙ sym (append_assoc (types s.reported) (types s.stat_queue.items) (report m.op))
        ∙ ap (λ l. l ++ report m.op) (sym (types-append s.reported s.stat_queue.items) ∙ v.told)
        ∙ sym (reports_of-append s.served m);
    kept = λ w.
        omega (arith, weigh-append w s.served (m ∷ []), v.kept w, put_down w {n = n} i s.pc m lt h);
  }
  Step-Accounts (crashes i m x s' run lt h f) v = record { told = v.told; kept = v.kept }
  Step-Accounts (faults_in_query i m x run lt h f) v = record { told = v.told; kept = v.kept }
  Step-Accounts (faults_in_display i m x s' lines run lt h f g) v = record {
    told = v.told;
    kept = v.kept;
  }
  Step-Accounts (exits i t stats lines run lt h f g) v = record { told = v.told; kept = v.kept }
  Step-Accounts (faults_at_end i t lines run lt h f g) v = record { told = v.told; kept = v.kept }
  Step-Accounts {s} (reports m q run h) v = record {
    told =
        ap types (
          append_assoc s.reported (m ∷ []) q.items
          ∙ ap (λ l. s.reported ++ l) (sym (wait_and_pop-cons s.stat_queue q m h)))
        ∙ v.told;
    kept = v.kept;
  }

  pub Reach-Accounts :
      {e : Env} {n : ℕ} {r s : Fleet d} → Accounts n r → Reach d e n r s → Accounts n s
  Reach-Accounts v here = v
  Reach-Accounts v (next r st) = Step-Accounts st (Reach-Accounts v r)

  pub init-Accounts :
      (n : ℕ) (messages : List Message) (latency_stats : Option (LatencyStats d))
      (stats : ℕ → SampledStats) (start_time : ℤ)
      → Accounts n (init d messages latency_stats stats start_time)
  unfolding TsQueue.new
  init-Accounts n messages latency_stats stats start_time = record {
    told = refl;
    kept = init-kept n;
  }
