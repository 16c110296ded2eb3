-- ===== src/Workers/Deadlock.antt =====
-- Two workers that both see the last message before one of them pops it.
use metric_bench.Prelude.{
  ℕ, ◌≤◌, ◌≡◌, ◌≢◌, refl, ap, ◌∙◌, subst, fun_ext, Bool, true, false, List, [], ◌∷◌, ◌++◌, update,
  arith, ℕ_discrete, ==_ne,
}
use metric_bench.Message.{Message}
use metric_bench.TsQueue
use metric_bench.TsQueue.{TsQueue}
use metric_bench.TsQueue.Laws.{wait_and_pop-cons}
use metric_bench.Workers.{
  Pc, Move, goes_on, is_complete, leaves, sees_message, pops, handles, System, log, Step, pushes,
  finishes, works, init, Reach, here, next,
}
use metric_bench.Workers.Laws.{Move-log, append-nil_parts}

-- Worker i waits for a message that nobody will push.
pub record IsStuck (i : ℕ) (s : System) : Type 0 where
  pub complete : s.complete ≡ true
  pub nothing_queued : s.queue.items ≡ []
  pub nothing_left : s.todo ≡ []
  pub waits : s.pc i ≡ Pc.popping

-- A worker that waits at an empty queue makes no step.
Move-not_popping :
    {c : Bool} {q q' : TsQueue Message} {p p' : Pc}
    → Move c q p q' p'
    → q.items ≡ []
    → p ≢ Pc.popping
Move-not_popping {q} (pops {m} {q'} e) h = λ _. let front = wait_and_pop-cons q q' m e in cc
Move-not_popping (goes_on e) h = λ x. cc
Move-not_popping mv h = λ x. cc

Step-IsStuck : {n i : ℕ} {s t : System} → Step n s t → IsStuck i s → IsStuck i t
Step-IsStuck (pushes m rest e) v = let none_left = v.nothing_left in cc
Step-IsStuck (finishes e) v = record {
  complete = refl;
  nothing_queued = v.nothing_queued;
  nothing_left = v.nothing_left;
  waits = v.waits;
}
Step-IsStuck {i} {s} (works j {q} lt mv) v = record {
  complete = v.complete;
  nothing_queued = append-nil_parts (log mv) q.items (Move-log mv ∙ v.nothing_queued);
  nothing_left = v.nothing_left;
  waits = elim (ℕ_discrete j i) [
    | yes same ↦ absurd (Move-not_popping mv v.nothing_queued (ap s.pc same ∙ v.waits))
    | no other ↦ rw (==_ne other) v.waits
  ];
}

Reach-IsStuck : {n i : ℕ} {s t : System} → Reach n s t → IsStuck i s → IsStuck i t
Reach-IsStuck here v = v
Reach-IsStuck (next r st) v = Step-IsStuck st (Reach-IsStuck r v)

-- No message queued, both of the first two workers at the start of a round.
abbrev between : List Message → (ℕ → Pc) → List Message → System
between todo pc popped = record {
  queue = record { items = [] };
  complete = false;
  todo = todo;
  pc = update (update pc 1 Pc.test_flag) 0 Pc.test_flag;
  popped = popped;
}

update_twice : (f : ℕ → Pc) (a b : Pc) → update (update f 0 a) 0 b ≡ update f 0 b
update_twice f a b = fun_ext λ j. ground arith

update_again :
    (f : ℕ → Pc) (a b c d : Pc) → update (update (update (update f 0 a) 0 b) 0 c) 0 d ≡ update f 0 d
update_again f a b c d = fun_ext λ j. ground arith

module _ {n : ℕ} (two : 2 ≤ n) where
  trans : {s t u : System} → Reach n s t → Reach n t u → Reach n s u
  trans r here = r
  trans r (next q st) = next (trans r q) st

  -- Worker 0 takes one message by itself.
  round :
      (m : Message) (rest : List Message) (pc : ℕ → Pc) (popped : List Message)
      → Reach n
          (between (m ∷ rest) pc popped)
          (between rest pc (popped ++ [] ++ [] ++ m ∷ [] ++ []))
  unfolding TsQueue.push TsQueue.empty TsQueue.wait_and_pop
  round m rest pc popped =
      subst
        (λ f.
          Reach n (between (m ∷ rest) pc popped)
            (record (between rest pc (popped ++ [] ++ [] ++ m ∷ [] ++ [])) { pc = f }))
        (update_again _ Pc.inner_test Pc.popping (Pc.handling m) Pc.test_flag
          ∙ update_twice (update pc 1 Pc.test_flag) Pc.test_flag Pc.test_flag)
        (next
          (next
            (next (next (next here (pushes m rest refl)) (works 0 (omega arith) (goes_on refl)))
              (works 0 (omega arith) (sees_message refl)))
            (works 0 (omega arith) (pops refl)))
          (works 0 (omega arith) handles))

  rounds :
      (front : List Message) (m : Message) (pc : ℕ → Pc) (popped : List Message)
      → (popped' : List Message) × Reach n
          (between (front ++ m ∷ []) pc popped)
          (between (m ∷ []) pc popped')
  rounds [] m pc popped = (popped, here)
  rounds (x ∷ front) m pc popped =
      let (popped', r) = rounds front m pc (popped ++ [] ++ [] ++ x ∷ [] ++ []) in
      (popped', trans (round x (front ++ m ∷ []) pc popped) r)

  -- Both workers see the last message, and worker 0 takes it.
  race :
      (m : Message) (pc : ℕ → Pc) (popped : List Message)
      → (s : System) × Reach n (between (m ∷ []) pc popped) s × (s.pc 0 ≡ Pc.left) × IsStuck 1 s
  unfolding TsQueue.push TsQueue.empty TsQueue.wait_and_pop
  race m pc popped = (
    _,
    next
        (next
          (next
            (next
              (next
                (next
                  (next
                    (next
                      (next (next here (pushes m [] refl)) (works 0 (omega arith) (goes_on refl)))
                      (works 0 (omega arith) (sees_message refl)))
                    (works 1 two (goes_on refl)))
                  (works 1 two (sees_message refl)))
                (works 0 (omega arith) (pops refl)))
              (works 0 (omega arith) handles))
            (finishes refl))
          (works 0 (omega arith) (is_complete refl)))
        (works 0 (omega arith) (leaves refl)),
    refl,
    record { complete = refl; nothing_queued = refl; nothing_left = refl; waits = refl },
  )

-- With two or more workers and at least one message, some interleaving leads to a state where worker 0 has
-- left its loop, the flag is set, and worker 1 waits in `wait_and_pop` in every state that can follow: the
-- main thread's `join` never returns.
pub join_may_block :
    (n : ℕ) (front : List Message) (m : Message)
    → 2 ≤ n
    → (s : System) × Reach n (init (front ++ m ∷ [])) s
      × (s.pc 0 ≡ Pc.left)
      × (s.complete ≡ true)
      × ((t : System) → Reach n s t → t.pc 1 ≡ Pc.popping)
unfolding TsQueue.new
join_may_block n front m two =
    let (popped, r) = rounds two front m (λ _. Pc.test_flag) [] in
    let (s, q, left, stuck) = race two m (λ _. Pc.test_flag) popped in
    (
      s,
      trans two
          (subst
            (λ f.
              Reach n (record (init (front ++ m ∷ [])) { pc = f })
                (between (m ∷ []) (λ _. Pc.test_flag) popped))
            start r)
          q,
      left,
      stuck.complete,
      λ t u. (Reach-IsStuck u stuck).waits,
    )
  where
    start : update (update (λ _. Pc.test_flag) 1 Pc.test_flag) 0 Pc.test_flag ≡ (λ _. Pc.test_flag)
    start = fun_ext λ j. ground arith
