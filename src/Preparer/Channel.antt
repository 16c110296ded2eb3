-- ===== src/Preparer/Channel.antt =====
-- The producer of src/Preparer.cpp beside the threads that pop, interleaved in any order.
use metric_bench.Prelude.{ℕ, ◌≡◌, true, some, List, ◌∷◌}
use metric_bench.Message.{Message}
use metric_bench.TsQueue
use metric_bench.TsQueue.{TsQueue}
use metric_bench.Preparer.{Event, push, wait_size, wait_empty, add_progress, set_progress}

-- The queue, and the events that the producer has still to perform.
pub record System : Type 0 where
  pub queue : TsQueue Message
  pub todo : List Event

-- A wait is passed only in a state that meets its condition. Any thread may pop.
pub data Step (s : System) : System → Type 0 where
  pushes :
      (m : Message) (rest : List Event)
      → s.todo ≡ push m ∷ rest
      → Step s (record { queue = TsQueue.push s.queue m; todo = rest })
  passes_size :
      (k : ℕ) (rest : List Event)
      → s.todo ≡ wait_size k ∷ rest
      → TsQueue.wait_size s.queue k ≡ true
      → Step s (record s { todo = rest })
  passes_empty :
      (rest : List Event)
      → s.todo ≡ wait_empty ∷ rest
      → TsQueue.wait_empty s.queue ≡ true
      → Step s (record s { todo = rest })
  adds :
      (n : ℕ) (rest : List Event)
      → s.todo ≡ add_progress n ∷ rest
      → Step s (record s { todo = rest })
  sets :
      (n : ℕ) (rest : List Event)
      → s.todo ≡ set_progress n ∷ rest
      → Step s (record s { todo = rest })
  takes :
      (m : Message) (q : TsQueue Message)
      → TsQueue.wait_and_pop s.queue ≡ some (m, q)
      → Step s (record s { queue = q })

abbrev pub init : List Event → System
init es = record { queue = TsQueue.new; todo = es }

pub data Reach (es : List Event) : System → Type 0 where
  start : Reach es (init es)
  later : {s t : System} → Reach es s → Step s t → Reach es t
