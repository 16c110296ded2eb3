-- ===== src/Endless.antt =====
-- src/MongoDBDriver.cpp and src/CassandraDriver.cpp, `Prep` and `InsertData`: worker threads with
-- `while(true)`, beside the main thread, which pushes the messages of `Preparer::Prep`, waits until
-- `tsQueue` is empty, joins the threads of `GenericDriver::threads`, and ends the process.
pub mod Bounds
pub mod Losses
pub mod Joins
pub mod Serving
pub mod Served
pub mod Inserts
pub mod ServingExamples
pub mod Examples
use metric_bench.Prelude.{
  ℕ, ◌<◌, ◌≡◌, Bool, true, false, List, [], ◌∷◌, ◌++◌, some, update, if◌then◌else◌,
}
use metric_bench.Message.{Message}
use metric_bench.TsQueue
use metric_bench.TsQueue.{TsQueue}

-- Where a worker stands.
pub data Place : Type 0 where
  waiting : Place  -- `tsQueue.wait_and_pop(m)`
  serving : Message → Place  -- the `switch`
  ended : Place  -- after `InsertData`

-- The queue, the messages that `Prep` has still to push, the workers, the messages whose `switch` has
-- been executed, in their order, and whether the process has ended.
pub record System : Type 0 where
  pub queue : TsQueue Message
  pub todo : List Message
  pub place : ℕ → Place
  pub served : List Message
  pub exited : Bool

-- `n` workers and the main thread, interleaved in any order; the first `joined` of the workers are in
-- `threads`: none in MongoDBDriver, which detaches them, and all in CassandraDriver.
pub data Step (n joined : ℕ) (s : System) : System → Type 0 where
  pushes :
      (m : Message) (rest : List Message)
      → s.todo ≡ m ∷ rest
      → Step n joined s (record s { queue = TsQueue.push s.queue m; todo = rest })
  pops :
      (i : ℕ) (m : Message) (q : TsQueue Message)
      → i < n
      → s.exited ≡ false
      → s.place i ≡ waiting
      → TsQueue.wait_and_pop s.queue ≡ some (m, q)
      → Step n joined s (record s { queue = q; place = update s.place i (serving m) })
  serves :
      (i : ℕ) (m : Message)
      → i < n
      → s.exited ≡ false
      → s.place i ≡ serving m
      → Step n joined s (record s { place = update s.place i waiting; served = s.served ++ m ∷ [] })
  exits :
      s.todo ≡ []
      → TsQueue.wait_empty s.queue ≡ true
      → ((i : ℕ) → i < joined → s.place i ≡ ended)
      → Step n joined s (record s { exited = true })

-- A worker whose connection fails ends at once; MongoDBDriver does not test its connection.
abbrev pub start : (connects : ℕ → Bool) → List Message → System
start connects messages = record {
  queue = TsQueue.new;
  todo = messages;
  place = λ i. if connects i then waiting else ended;
  served = [];
  exited = false;
}

pub data Reach (n joined : ℕ) (s : System) : System → Type 0 where
  here : Reach n joined s s
  next : {t u : System} → Reach n joined s t → Step n joined t u → Reach n joined s u
