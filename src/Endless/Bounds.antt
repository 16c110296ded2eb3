-- ===== src/Endless/Bounds.antt =====
-- Which messages the end of the process can lose.
use metric_bench.Prelude.{
  ℕ, zero, suc, ◌+◌, ◌≤◌, ◌<◌, ◌≡◌, ◌≢◌, refl, ap, sym, Bool, true, false, List, [], ◌∷◌, ◌++◌,
  if◌then◌else◌, update, arith, ==_iff, ==_ne, length, length-append, sum_below, sum_below-suc,
  sum_below_step,
}
use metric_bench.Message.{Message}
use metric_bench.Message.Weights.{weigh, weigh-append}
use metric_bench.TsQueue
use metric_bench.TsQueue.{TsQueue}
use metric_bench.TsQueue.Laws.{wait_and_pop-cons, wait_empty-nil}
use metric_bench.Endless.{
  Place, waiting, serving, ended, System, Step, pushes, pops, serves, exits, start, Reach, here,
  next,
}

-- what a worker has taken and not executed
abbrev pub hand : Place → List Message
hand (serving m) = m ∷ []
hand waiting = []
hand ended = []

-- what the first n workers have in their hands
abbrev pub hands : ℕ → (ℕ → Place) → List Message
hands zero place = []
hands (suc n) place = hand (place n) ++ hands n place

length-hand : (p : Place) → length (hand p) ≤ 1
length-hand (serving m) = omega arith
length-hand waiting = omega arith
length-hand ended = omega arith

length-hands : (n : ℕ) (place : ℕ → Place) → length (hands n place) ≤ n
length-hands zero place = omega arith
length-hands (suc n) place = omega (
  arith,
  length-append (hand (place n)) (hands n place),
  length-hand (place n),
  length-hands n place,
)

module _ (w : Message → ℕ) where
  abbrev load : Place → ℕ
  load p = weigh w (hand p)

  weigh-hands :
      (n : ℕ) (place : ℕ → Place) → weigh w (hands n place) ≡ sum_below n (λ i. load (place i))
  unfolding sum_below
  weigh-hands zero place = refl
  weigh-hands (suc n) place = omega (
    arith,
    weigh-append w (hand (place n)) (hands n place),
    sum_below-suc n (λ i. load (place i)),
    weigh-hands n place,
  )

  update_other :
      (place : ℕ → Place) (i j : ℕ) (p : Place) → j ≢ i → load (update place i p j) ≡ load (place j)
  update_other place i j p h = rw (==_ne {a = i} {b = j} (λ e. h (sym e))) refl

  update_same : (place : ℕ → Place) (i : ℕ) (p : Place) → load (update place i p i) ≡ load p
  update_same place i p = rw ((==_iff i i).1 refl) refl

  hands-taken :
      (n i : ℕ) (place : ℕ → Place) (m : Message)
      → i < n
      → place i ≡ waiting
      → weigh w (hands n (update place i (serving m))) ≡ weigh w (hands n place) + w m
  hands-taken n i place m lt e = omega (
    arith,
    weigh-hands n place,
    weigh-hands n (update place i (serving m)),
    sum_below_step n i (w m) (λ j. load (place j)) (λ j. load (update place i (serving m) j)) lt
        (λ j h. update_other place i j (serving m) h)
        (omega (arith, update_same place i (serving m), ap load e)),
  )

  hands-served :
      (n i : ℕ) (place : ℕ → Place) (m : Message)
      → i < n
      → place i ≡ serving m
      → weigh w (hands n place) ≡ weigh w (hands n (update place i waiting)) + w m
  hands-served n i place m lt e = omega (
    arith,
    weigh-hands n place,
    weigh-hands n (update place i waiting),
    sum_below_step n i (w m) (λ j. load (update place i waiting j)) (λ j. load (place j)) lt
        (λ j h. sym (update_other place i j waiting h))
        (omega (arith, update_same place i waiting, ap load e)),
  )

  hand_idle : (b : Bool) → load (if b then waiting else ended) ≡ 0
  hand_idle true = refl
  hand_idle false = refl

  hands-start :
      (n : ℕ) (connects : ℕ → Bool)
      → weigh w (hands n (λ i. if connects i then waiting else ended)) ≡ 0
  hands-start zero connects = refl
  hands-start (suc n) connects = omega (
    arith,
    weigh-append w (hand (if connects n then waiting else ended))
        (hands n (λ i. if connects i then waiting else ended)),
    hands-start n connects,
    hand_idle (connects n),
  )

pub record Inv (n : ℕ) (messages : List Message) (s : System) : Type 0 where
  pub kept :
      (w : Message → ℕ)
      → weigh w s.served + weigh w (hands n s.place) + weigh w s.queue.items + weigh w s.todo
        ≡ weigh w messages
  pub finished : s.exited ≡ true → (s.queue.items ≡ []) × (s.todo ≡ [])

start-Inv :
    (n : ℕ) (connects : ℕ → Bool) (messages : List Message)
    → Inv n messages (start connects messages)
unfolding TsQueue.new
start-Inv n connects messages = record {
  kept = λ w. omega (arith, hands-start w n connects);
  finished = λ e. cc;
}

Step-Inv :
    {n joined : ℕ} {messages : List Message} {s t : System}
    → Step n joined s t
    → Inv n messages s
    → Inv n messages t
unfolding TsQueue.push
Step-Inv {s} (pushes m rest e) v = record {
  kept = λ w. omega (arith, v.kept w, ap (weigh w) e, weigh-append w s.queue.items (m ∷ []));
  finished = λ x. let over = (v.finished x).1 in cc;
}
Step-Inv {n} {s} (pops i m q lt running e f) v = record {
  kept = λ w. omega (
    arith,
    v.kept w,
    hands-taken w n i s.place m lt e,
    ap (weigh w) (wait_and_pop-cons s.queue q m f),
  );
  finished = λ x. cc;
}
Step-Inv {n} {s} (serves i m lt running e) v = record {
  kept = λ w.
      omega (arith, v.kept w, hands-served w n i s.place m lt e, weigh-append w s.served (m ∷ []));
  finished = λ x. cc;
}
Step-Inv {s} (exits none_left e ends) v = record {
  kept = v.kept;
  finished = λ _. (wait_empty-nil s.queue e, none_left);
}

pub Reach-Inv :
    {n joined : ℕ} (connects : ℕ → Bool) (messages : List Message) {s : System}
    → Reach n joined (start connects messages) s
    → Inv n messages s
Reach-Inv {n} connects messages here = start-Inv n connects messages
Reach-Inv connects messages (next r st) = Step-Inv st (Reach-Inv connects messages r)

-- However the workers and the main thread interleave, when the process ends after `Prep` the messages that
-- have been executed and those that are lost, at most one for each worker, are together the messages of
-- `Prep`, each as often as it was pushed. The lost ones are those that a worker has popped and not
-- executed to the end.
pub exited-served :
    {n joined : ℕ} (connects : ℕ → Bool) (messages : List Message) (s : System)
    → Reach n joined (start connects messages) s
    → s.exited ≡ true
    → ((w : Message → ℕ) → weigh w s.served + weigh w (hands n s.place) ≡ weigh w messages)
      × (length (hands n s.place) ≤ n)
exited-served {n} connects messages s r e =
    let v = Reach-Inv connects messages r in
    let (queue, todo) = v.finished e in
    (λ w. omega (arith, v.kept w, ap (weigh w) queue, ap (weigh w) todo), length-hands n s.place)
