-- ===== src/Workers/Examples.antt =====
-- The threads of src/MySQLDriver.cpp on two messages.
use metric_bench.Prelude.{◌≡◌, ◌≢◌, refl, true, List, [], ◌∷◌, ◌++◌, arith}
use metric_bench.Message.{Message, MessageType}
use metric_bench.TsQueue
use metric_bench.TsQueue.{TsQueue}
use metric_bench.Workers.{
  Pc, Move, goes_on, sees_message, pops, System, pushes, works, init, Reach, here, next,
}
use metric_bench.Workers.Laws.{popped-Reach}
use metric_bench.Workers.Join.{solo_progress}
use metric_bench.Workers.Deadlock.{join_may_block}

abbrev first : Message
first = record { op = MessageType.insert; ts = 1420070460; device_id = 1; table_id = 1 }

abbrev second : Message
second = record { op = MessageType.insert; ts = 1420070460; device_id = 1; table_id = 2 }

abbrev both : List Message
both = first ∷ second ∷ []

-- One worker takes the first of two messages.
one_taken : (s : System) × Reach 1 (init both) s × (s.popped ≡ first ∷ []) × (s.pc 0 ≢ Pc.left)
unfolding TsQueue.new TsQueue.push TsQueue.empty TsQueue.wait_and_pop
one_taken = (
  _,
  next
      (next
        (next (next here (pushes first (second ∷ []) refl)) (works 0 (omega arith) (goes_on refl)))
        (works 0 (omega arith) (sees_message refl)))
      (works 0 (omega arith) (pops refl)),
  refl,
  λ e. cc,
)

popped-Reach_example : one_taken.0.popped ++ (one_taken.0.queue.items ++ one_taken.0.todo) ≡ both
popped-Reach_example = popped-Reach 1 both one_taken.0 one_taken.1

solo_progress_example :
    (q : TsQueue Message) × (p : Pc) × Move one_taken.0.complete one_taken.0.queue
      (one_taken.0.pc 0)
      q
      p
solo_progress_example = solo_progress both one_taken.0 one_taken.1 one_taken.3

join_may_block_example :
    (s : System) × Reach 2 (init both) s
    × (s.pc 0 ≡ Pc.left)
    × (s.complete ≡ true)
    × ((t : System) → Reach 2 s t → t.pc 1 ≡ Pc.popping)
join_may_block_example = join_may_block 2 (first ∷ []) second (omega arith)
