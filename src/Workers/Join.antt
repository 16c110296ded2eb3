-- ===== src/Workers/Join.antt =====
-- Whether the workers come to an end after the last message.
use metric_bench.Prelude.{
  zero, suc, ◌≢◌, refl, Bool, true, false, List, [], ◌∷◌, arith, Bool-cases, inl, inr,
}
use metric_bench.Message.{Message}
use metric_bench.TsQueue
use metric_bench.TsQueue.{TsQueue}
use metric_bench.TsQueue.Laws.{empty_iff, wait_and_pop-front}
use metric_bench.Workers.{
  Pc, Move, goes_on, is_complete, has_more, leaves, sees_message, sees_nothing, pops, handles,
  System, Step, pushes, finishes, works, init, Reach, here, next,
}
use metric_bench.Workers.Laws.{append-nil_parts}

-- A lone worker that is about to pop has a message to pop.
abbrev Supplied : TsQueue Message → Pc → Type 0
Supplied q Pc.popping = q.items ≢ []
Supplied q _ = Unit {0}

Move-Supplied :
    {c : Bool} {q q' : TsQueue Message} {p p' : Pc}
    → Move c q p q' p'
    → Supplied q p
    → Supplied q' p'
Move-Supplied {q} (sees_message e) h = λ none. let seen = (empty_iff q).1 none in cc
Move-Supplied mv h = tt

push-Supplied :
    (q : TsQueue Message) (m : Message) (p : Pc) → Supplied q p → Supplied (TsQueue.push q m) p
unfolding TsQueue.push
push-Supplied q m Pc.popping h = λ e. let nothing = append-nil_parts q.items (m ∷ []) e in cc
push-Supplied q m _ h = tt

Step-Supplied : {s t : System} → Step 1 s t → Supplied s.queue (s.pc 0) → Supplied t.queue (t.pc 0)
Step-Supplied {s} (pushes m rest e) h = push-Supplied s.queue m (s.pc 0) h
Step-Supplied (finishes e) h = h
Step-Supplied (works zero lt mv) h = Move-Supplied mv h
Step-Supplied (works (suc i) lt mv) h = absurd (omega arith)

Reach-Supplied :
    {messages : List Message} {s : System} → Reach 1 (init messages) s → Supplied s.queue (s.pc 0)
Reach-Supplied here = tt
Reach-Supplied (next r st) = Step-Supplied st (Reach-Supplied r)

can-Move :
    (c : Bool) (q : TsQueue Message) (p : Pc)
    → p ≢ Pc.left
    → Supplied q p
    → (q' : TsQueue Message) × (p' : Pc) × Move c q p q' p'
can-Move true q Pc.test_flag h s = (_, _, is_complete refl)
can-Move false q Pc.test_flag h s = (_, _, goes_on refl)
can-Move c q Pc.test_queue h s = elim (Bool-cases (TsQueue.empty q)) [
  | inl e ↦ (_, _, leaves e)
  | inr e ↦ (_, _, has_more e)
]
can-Move c q Pc.inner_test h s = elim (Bool-cases (TsQueue.empty q)) [
  | inl e ↦ (_, _, sees_nothing e)
  | inr e ↦ (_, _, sees_message e)
]
can-Move c q Pc.popping h s = let (m, q', e) = wait_and_pop-front q s in (q', _, pops e)
can-Move c q (Pc.handling m) h s = (_, _, handles)
can-Move c q Pc.left h s = absurd (h refl)

-- With one worker there is no deadlock: in every reachable state the worker has left its loop or can make
-- its next step.
pub solo_progress :
    (messages : List Message) (s : System)
    → Reach 1 (init messages) s
    → s.pc 0 ≢ Pc.left
    → (q : TsQueue Message) × (p : Pc) × Move s.complete s.queue (s.pc 0) q p
solo_progress messages s r h = can-Move s.complete s.queue (s.pc 0) h (Reach-Supplied r)
