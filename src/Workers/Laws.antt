-- ===== src/Workers/Laws.antt =====
-- What every interleaving of the workers and the main thread keeps.
use mathlib.Core.List.{append-nil, append_assoc}
use metric_bench.Prelude.{
  ℕ, ◌≡◌, refl, sym, ◌∙◌, subst, Bool, true, List, [], ◌∷◌, ◌++◌, ℕ_discrete, ==_iff, ==_ne,
}
use metric_bench.Message.{Message}
use metric_bench.TsQueue
use metric_bench.TsQueue.{TsQueue}
use metric_bench.TsQueue.Laws.{wait_and_pop-cons, empty_iff}
use metric_bench.Workers.{
  Pc, Move, goes_on, is_complete, leaves, pops, System, log, Step, pushes, finishes, works, init,
  Reach, here, next,
}

-- What a worker's place says of the flag and of the queue.
abbrev pub IsFresh : Bool → List Message → Pc → Type 0
IsFresh complete items Pc.test_queue = complete ≡ true
IsFresh complete items Pc.left = (complete ≡ true) × (items ≡ [])
IsFresh complete items _ = Unit {0}

pub record Inv (messages : List Message) (s : System) : Type 0 where
  pub conserved : s.popped ++ (s.queue.items ++ s.todo) ≡ messages
  pub done : s.complete ≡ true → s.todo ≡ []
  pub fresh : (i : ℕ) → IsFresh s.complete s.queue.items (s.pc i)

init-Inv : (messages : List Message) → Inv messages (init messages)
unfolding TsQueue.new
init-Inv messages = record { conserved = refl; done = λ e. cc; fresh = λ i. tt }

-- A step of a worker moves the front of the queue to the log, or neither.
pub Move-log :
    {c : Bool} {q q' : TsQueue Message} {p p' : Pc} (mv : Move c q p q' p')
    → log mv ++ q'.items ≡ q.items
unfolding TsQueue.wait_and_pop
Move-log {q} (pops {m} {q'} e) = sym (wait_and_pop-cons q q' m e)
Move-log (goes_on e) = refl
Move-log mv = refl

pub append-nil_parts : (xs ys : List Message) → xs ++ ys ≡ [] → ys ≡ []
append-nil_parts [] ys e = e
append-nil_parts (x ∷ xs) ys e = cc

-- The worker that moves ends where its facts hold; those of the others stay true.
Move-IsFresh :
    {c : Bool} {q q' : TsQueue Message} {p p' : Pc}
    → Move c q p q' p'
    → IsFresh c q.items p
    → IsFresh c q'.items p'
Move-IsFresh (is_complete e) f = e
Move-IsFresh {q} (leaves e) f = (f, (empty_iff q).0 e)
Move-IsFresh mv f = tt

IsFresh-step :
    (p : Pc) {c c' : Bool} {xs ys : List Message}
    → (c ≡ true → c' ≡ true)
    → (c ≡ true → xs ≡ [] → ys ≡ [])
    → IsFresh c xs p
    → IsFresh c' ys p
IsFresh-step Pc.test_queue h k f = h f
IsFresh-step Pc.left h k f = (h f.0, k f.0 f.1)
IsFresh-step _ h k f = tt

pub Step-Inv :
    {n : ℕ} {messages : List Message} {s t : System} → Step n s t → Inv messages s → Inv messages t
unfolding TsQueue.push
Step-Inv {s} (pushes m rest e) v = record {
  conserved = rw (append_assoc s.queue.items (m ∷ []) rest) (rw e at v.conserved);
  done = λ c. let none_left = v.done c in cc;
  fresh = λ i. IsFresh-step (s.pc i) (λ c. c) (λ c _. let none_left = v.done c in cc) (v.fresh i);
}
Step-Inv {s} (finishes e) v = record {
  conserved = v.conserved;
  done = λ _. e;
  fresh = λ i. IsFresh-step (s.pc i) (λ _. refl) (λ _ h. h) (v.fresh i);
}
Step-Inv {s} (works i {q} {p} h mv) v = record {
  conserved =
      rw
        (
          append_assoc s.popped (log mv) (q.items ++ s.todo),
          ← append_assoc (log mv) q.items s.todo,
          Move-log mv,
        )
        v.conserved;
  done = v.done;
  fresh = λ j. elim (ℕ_discrete i j) [
    | yes same ↦ rw ((==_iff i j).1 same) (Move-IsFresh mv (v.fresh i))
    | no other ↦ rw (==_ne other) (
        IsFresh-step (s.pc j) (λ c. c) (λ _ e. append-nil_parts (log mv) q.items (Move-log mv ∙ e))
          (v.fresh j))
  ];
}

pub Reach-Inv :
    {n : ℕ} {messages : List Message} {s : System} → Reach n (init messages) s → Inv messages s
Reach-Inv {messages} here = init-Inv messages
Reach-Inv (next r st) = Step-Inv st (Reach-Inv r)

-- In every interleaving of n workers and the main thread, the messages popped so far, those in the queue
-- and those still to be pushed are, in this order, the messages of the main thread: each is popped at
-- most once, and in the order of the pushes.
pub popped-Reach :
    (n : ℕ) (messages : List Message) (s : System)
    → Reach n (init messages) s
    → s.popped ++ (s.queue.items ++ s.todo) ≡ messages
popped-Reach n messages s r = (Reach-Inv r).conserved

-- Once any worker has left its loop, every message has been popped.
pub left-Reach :
    (n : ℕ) (messages : List Message) (s : System) (i : ℕ)
    → Reach n (init messages) s
    → s.pc i ≡ Pc.left
    → s.popped ≡ messages
left-Reach n messages s i r e =
    let v = Reach-Inv r in
    let f = subst (IsFresh s.complete s.queue.items) e (v.fresh i) in
    sym (append-nil s.popped) ∙ (rw (f.1, v.done f.0) at v.conserved)
