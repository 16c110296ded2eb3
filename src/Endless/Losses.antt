-- ===== src/Endless/Losses.antt =====
-- src/MongoDBDriver.cpp: its threads are detached, so that `JoinThreads` waits for none.
use mathlib.Core.List.{append-nil, append_assoc}
use metric_bench.Prelude.{subst, ℕ, ◌<◌, ◌≡◌, refl, true, false, List, [], ◌∷◌, ◌++◌, update, arith}
use metric_bench.Message.{Message}
use metric_bench.TsQueue
use metric_bench.TsQueue.{TsQueue}
use metric_bench.Endless.{
  Place, waiting, serving, System, pushes, pops, serves, exits, start, Reach, here, next,
}

abbrev between : (todo : List Message) (place : ℕ → Place) (served : List Message) → System
between todo place served = record {
  queue = record { items = [] };
  todo = todo;
  place = place;
  served = served;
  exited = false;
}

module _ {n : ℕ} (some_worker : 0 < n) where
  trans : {s t u : System} → Reach n 0 s t → Reach n 0 t u → Reach n 0 s u
  trans r here = r
  trans r (next q st) = next (trans r q) st

  -- Worker 0 executes a message.
  round :
      (m : Message) (todo : List Message) (place : ℕ → Place) (served : List Message)
      → place 0 ≡ waiting
      → Reach n 0
          (between (m ∷ todo) place served)
          (between todo (update (update place 0 (serving m)) 0 waiting) (served ++ m ∷ []))
  unfolding TsQueue.push TsQueue.wait_and_pop
  round m todo place served e =
      next
        (next (next here (pushes m todo refl))
          (pops 0 m (record { items = [] }) some_worker refl e refl))
        (serves 0 m some_worker refl refl)

  rounds :
      (front : List Message) (m : Message) (place : ℕ → Place) (served : List Message)
      → place 0 ≡ waiting
      → (place' : ℕ → Place) × (place' 0 ≡ waiting)
        × Reach n 0
            (between (front ++ m ∷ []) place served)
            (between (m ∷ []) place' (served ++ front))
  rounds [] m place served e = (place, e, rw (append-nil served) here)
  rounds (x ∷ front) m place served e =
      let (place', waits, r) =
        rounds front m (update (update place 0 (serving x)) 0 waiting) (served ++ x ∷ []) refl in
      (
        place',
        waits,
        trans (round x (front ++ m ∷ []) place served e) (
            subst
              (λ t.
                Reach n 0
                  (between (front ++ m ∷ []) (update (update place 0 (serving x)) 0 waiting)
                    (served ++ x ∷ []))
                  (between (m ∷ []) place' t))
              (append_assoc served (x ∷ []) front) r),
      )

  -- Worker 0 takes the last message, the queue is empty, and the process ends.
  last :
      (m : Message) (place : ℕ → Place) (served : List Message)
      → place 0 ≡ waiting
      → Reach n 0 (between (m ∷ []) place served) (record {
        queue = record { items = [] };
        todo = [];
        place = update place 0 (serving m);
        served = served;
        exited = true;
      })
  unfolding TsQueue.push TsQueue.wait_and_pop TsQueue.wait_empty
  last m place served e =
      next
        (next (next here (pushes m [] refl))
          (pops 0 m (record { items = [] }) some_worker refl e refl))
        (exits refl refl (λ i lt. absurd (omega arith)))

-- With a worker that waits for messages and at least one message, the process of `--mode=prepare`
-- can end when all messages but the last have been executed, though `wait_empty` has returned.
pub last_may_be_lost :
    (n : ℕ) (front : List Message) (m : Message)
    → 0 < n
    → (s : System) × Reach n 0 (start (λ _. true) (front ++ m ∷ [])) s
      × (s.exited ≡ true)
      × (s.served ≡ front)
unfolding TsQueue.new
last_may_be_lost n front m lt =
    let (place, waits, r) = rounds lt front m (λ _. waiting) [] refl in
    (_, trans lt r (last lt m place front waits), refl, refl)
