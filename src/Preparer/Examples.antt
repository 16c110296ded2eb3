-- ===== src/Preparer/Examples.antt =====
-- `Prep` and `Run` of src/Preparer.cpp on a small configuration.
use metric_bench.Prelude.{ℕ, ◌+◌, ◌*◌, ◌≤◌, ◌<◌, ◌≡◌, refl, some, List, [], ◌∷◌, arith, length}
use metric_bench.Config.{Config, default, start_timestamp}
use metric_bench.TsQueue
use metric_bench.Preparer.{
  Event, set_progress, wait_empty, wait_size, add_progress, push, insert_message, TsRange, messages,
  prep, prep_start, prep_time_loop, prep_device_loop, table_loop,
}
use metric_bench.Preparer.Grid.{occurrences}
use metric_bench.Preparer.Coverage.{prep_coverage}
use metric_bench.Preparer.Pacing.{queue-prep}
use metric_bench.Preparer.Progress.{progress_after, prep_total, prep-progress}
use metric_bench.Preparer.Channel.{System, pushes, sets, Reach, start, later}

-- Two minutes, two devices, one table.
abbrev small : Config
small = record default { load_mins = 2; max_devices = 2; db_tables = 1; loader_threads = 3 }

abbrev no_rows : TsRange
no_rows = record { min = 0; max = 0 }

-- The messages of one device, as `Prep` sends them.
abbrev device : (ts dc : ℕ) → List Event → List Event
device ts dc es = push (insert_message ts dc 1) ∷ add_progress 1 ∷ wait_size 6 ∷ es

abbrev events : List Event
events =
    set_progress 0
    ∷ device start_timestamp 1 (
        device start_timestamp 2 (
          wait_empty
          ∷ device (start_timestamp + 60) 1 (device (start_timestamp + 60) 2 (wait_empty ∷ []))))

prep-small : prep small no_rows 3 ≡ some events
unfolding prep prep_time_loop prep_device_loop table_loop
prep-small = refl

prep_coverage_example :
    (es : List Event) × (prep small no_rows 3 ≡ some es)
    × (length (messages es) ≡ 4)
    × ((k d t : ℕ)
        → k < 2
        → 1 ≤ d
        → d ≤ 2
        → 1 ≤ t
        → t ≤ 1
        → occurrences (prep_start no_rows + k * 60) d t (messages es) ≡ 1)
prep_coverage_example = prep_coverage small no_rows (omega arith)

prep-progress_example : progress_after 17 events ≡ prep_total small
prep-progress_example = prep-progress small no_rows events 3 17 (omega arith) prep-small

-- The first message is in the queue.
one_queued : (s : System) × Reach events s × (length s.queue.items ≡ 1)
unfolding TsQueue.push TsQueue.new
one_queued = (_, later (later start (sets 0 _ refl)) (pushes _ _ refl), refl)

queue-prep_example : length one_queued.0.queue.items ≤ 7
queue-prep_example = queue-prep small no_rows 3 events one_queued.0 prep-small one_queued.1
