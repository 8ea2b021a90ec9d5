-- ===== src/Tests/WorkerLoop.antt =====
-- A run of the worker's loop with two permits: a task is taken, the memory
-- passes its limit of one megabyte, and the task ends.
use symmetrical_disco.Base.{◌+◌, ◌≡◌, ◌≤◌, refl, true, false, none, some, [], ◌∷◌, length}
use symmetrical_disco.Effects.{canonical}
use symmetrical_disco.Queue.{Delivery}
use symmetrical_disco.WorkerLoop.{
  Loop, start, should_recycle, stopped, goes_on, acquires, creates_task, recycles, task_ends,
  drained, draining,
}
use symmetrical_disco.WorkerLoop.Permits.{LoopSteps, here, next, held, start-permits}

abbrev delivery : Delivery
delivery =
    ("jobs", record { ms = 1; seq = 0 }, record { job_id = some (canonical 7); trace = none })

abbrev closing : Loop
closing = record {
  place = draining;
  free = 1;
  running = delivery ∷ [];
  recycler = record { max_bytes = some 1048576; triggered = true };
  shutting_down = false;
}

abbrev ended : Loop
ended = record closing { place = stopped; free = 2; running = [] }

drains : LoopSteps closing ended
drains = next (task_ends [] [] delivery closing refl) (next (drained _ refl refl) here)

runs : LoopSteps (start 2 (some 1)) ended
unfolding start should_recycle
runs = next (goes_on 5 _ refl refl) (
    next (acquires 1 _ refl refl)
      (next (creates_task delivery _ refl) (next (recycles 2000000 _ refl refl refl) drains)))

start-permits_example :
    (ended.free + length ended.running + held ended.place ≡ 2)
    × (length ended.running ≤ 2)
    × (ended.place ≡ stopped → (ended.running ≡ []) × (ended.free ≡ 2))
start-permits_example = start-permits 2 (some 1) runs
