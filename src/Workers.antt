-- ===== src/Workers.antt =====
-- src/MySQLDriver.cpp, `InsertData`, and src/metricbench.cpp: the threads that take messages from
-- `tsQueue`, beside the main thread that pushes them, sets `Config::processingComplete` and joins.
pub mod Laws
pub mod Join
pub mod Deadlock
pub mod Examples
use metric_bench.Prelude.{ℕ, ◌<◌, ◌≡◌, Bool, true, false, List, [], ◌∷◌, ◌++◌, some, update}
use metric_bench.Message.{Message}
use metric_bench.TsQueue
use metric_bench.TsQueue.{TsQueue}

-- Where a worker stands.
pub data Pc : Type 0 where
  test_flag : Pc  -- `!Config::processingComplete`
  test_queue : Pc  -- `|| !tsQueue.empty()`
  inner_test : Pc  -- `if (!tsQueue.empty())`
  popping : Pc  -- `tsQueue.wait_and_pop(m)`
  handling : Message → Pc  -- the `switch`
  left : Pc  -- after the loop

-- One step of a worker, at a given flag.
pub data Move (complete : Bool) (q : TsQueue Message) : Pc → TsQueue Message → Pc → Type 0 where
  goes_on : complete ≡ false → Move complete q test_flag q inner_test
  is_complete : complete ≡ true → Move complete q test_flag q test_queue
  has_more : TsQueue.empty q ≡ false → Move complete q test_queue q inner_test
  leaves : TsQueue.empty q ≡ true → Move complete q test_queue q left
  sees_message : TsQueue.empty q ≡ false → Move complete q inner_test q popping
  sees_nothing : TsQueue.empty q ≡ true → Move complete q inner_test q test_flag
  pops :
      {m : Message} {q' : TsQueue Message}
      → TsQueue.wait_and_pop q ≡ some (m, q')
      → Move complete q popping q' (handling m)
  handles : {m : Message} → Move complete q (handling m) q test_flag

-- The queue, the flag, the messages that the main thread has still to push, the workers, and the
-- messages popped so far, in their order.
pub record System : Type 0 where
  pub queue : TsQueue Message
  pub complete : Bool
  pub todo : List Message
  pub pc : ℕ → Pc
  pub popped : List Message

-- the entry that a step adds to `popped`
abbrev pub log : {c : Bool} {q q' : TsQueue Message} {p p' : Pc} → Move c q p q' p' → List Message
log (pops {m} _) = m ∷ []
log handles = []
log _ = []

-- `n` workers and the main thread, interleaved in any order.
pub data Step (n : ℕ) (s : System) : System → Type 0 where
  pushes :
      (m : Message) (rest : List Message)
      → s.todo ≡ m ∷ rest
      → Step n s (record s { queue = TsQueue.push s.queue m; todo = rest })
  finishes : s.todo ≡ [] → Step n s (record s { complete = true })
  works :
      (i : ℕ) {q : TsQueue Message} {p : Pc}
      → i < n
      → (mv : Move s.complete s.queue (s.pc i) q p)
      → Step n s (record s { queue = q; pc = update s.pc i p; popped = s.popped ++ log mv })

abbrev pub init : List Message → System
init messages = record {
  queue = TsQueue.new;
  complete = false;
  todo = messages;
  pc = λ _. test_flag;
  popped = [];
}

pub data Reach (n : ℕ) (s : System) : System → Type 0 where
  here : Reach n s s
  next : {t u : System} → Reach n s t → Step n t u → Reach n s u
