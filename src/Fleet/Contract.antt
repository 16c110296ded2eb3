-- ===== src/Fleet/Contract.antt =====
-- What the threads of `InsertData` promise to those who push messages and to those who take the reports,
-- said without the queues, the flag, the tests of the loop, the database and the statistics.
use metric_bench.Prelude.{ℕ, ◌<◌, ◌≡◌, ◌≢◌, List, [], ◌∷◌, ◌++◌, update}
use metric_bench.Message.{Message, MessageType}
use metric_bench.Fleet.Sending.{report}

-- What a thread is about: nothing, a message that it is going to wait for, a message in its hands, or
-- no more messages.
pub data Stage : Type 0 where
  resting claiming retired : Stage
  holding : Message → Stage

-- The messages that no thread has taken, the threads, and the types of the reports sent so far.
pub record Service : Type 0 where
  pub waiting : List Message
  pub stage : ℕ → Stage
  pub sent : List MessageType

-- A thread goes to wait for a message only while there is one; it takes the oldest one; each message that it
-- takes gives the report of its type; and it retires only when no message waits.
pub data Serve (n : ℕ) (s : Service) : Service → Type 0 where
  claims :
      (i : ℕ)
      → i < n
      → s.stage i ≡ resting
      → s.waiting ≢ []
      → Serve n s (record s { stage = update s.stage i claiming })
  takes :
      (i : ℕ) (m : Message) (rest : List Message)
      → i < n
      → s.stage i ≡ claiming
      → s.waiting ≡ m ∷ rest
      → Serve n s (record s { waiting = rest; stage = update s.stage i (holding m) })
  answers :
      (i : ℕ) (m : Message)
      → i < n
      → s.stage i ≡ holding m
      → Serve n s (record s { stage = update s.stage i resting; sent = s.sent ++ report m.op })
  retires :
      (i : ℕ)
      → i < n
      → s.stage i ≡ resting
      → s.waiting ≡ []
      → Serve n s (record s { stage = update s.stage i retired })

abbrev pub opened : List Message → Service
opened messages = record { waiting = messages; stage = λ _. resting; sent = [] }

pub data Serves (n : ℕ) (s : Service) : Service → Type 0 where
  here : Serves n s s
  next : {t u : Service} → Serves n s t → Serve n t u → Serves n s u
