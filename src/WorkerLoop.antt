-- ===== src/WorkerLoop.antt =====
-- The main loop of `run_forever` in app/worker/runner.py, and app/worker/recycler.py. The loop, its
-- tasks and the signals interleave at each `await`, so the loop is a step relation: a state is what the
-- semaphore and the task group hold, and where the loop stands.
pub mod Permits
use symmetrical_disco.Base.{
  ℕ, suc, ◌≡◌, ◌*◌, Bool, true, false, ◌&&◌, ◌||◌, not, Option, none, some, List, [], ◌∷◌, ◌++◌,
  ltb,
}
use symmetrical_disco.Queue.{Delivery}

-- `MemoryRecycler`.
pub record MemoryRecycler : Type 0 where
  pub max_bytes : Option ℕ
  pub triggered : Bool

abbrev pub new_recycler : Option ℕ → MemoryRecycler
new_recycler none = record { max_bytes = none; triggered = false }
new_recycler (some mb) = record { max_bytes = some (mb * 1048576); triggered = false }

abbrev pub measured : ℕ → MemoryRecycler → Option ℕ → MemoryRecycler
measured rss r none = r
measured rss r (some max) = record r { triggered = r.triggered || ltb max rss }

-- The answer is `triggered` after the call.
unfoldable pub should_recycle : ℕ → MemoryRecycler → MemoryRecycler
should_recycle rss r = measured rss r r.max_bytes

-- Where the loop stands: at its test, at `sem.acquire`, at the read, behind the loop, where the task
-- group waits for its tasks, or done.
pub data Place : Type 0 where
  testing acquiring reading draining stopped failing : Place

pub record Loop : Type 0 where
  pub place : Place
  pub free : ℕ
  pub running : List Delivery
  pub recycler : MemoryRecycler
  pub shutting_down : Bool

unfoldable pub start : ℕ → Option ℕ → Loop
start concurrency max_mb = record {
  place = testing;
  free = concurrency;
  running = [];
  recycler = new_recycler max_mb;
  shutting_down = false;
}

-- `not _should_stop() and not recycler.should_recycle()`: the recycler is asked only if the first
-- test passes.
abbrev pub continues : Loop → MemoryRecycler → Bool
continues l r = not l.shutting_down && not r.triggered

pub data LoopStep : Loop → Loop → Type 0 where
  -- SIGTERM or SIGINT.
  signalled : (l : Loop) → LoopStep l (record l { shutting_down = true })
  stops :
      (l : Loop)
      → l.place ≡ testing
      → l.shutting_down ≡ true
      → LoopStep l (record l { place = draining })
  recycles :
      (rss : ℕ) (l : Loop)
      → l.place ≡ testing
      → l.shutting_down ≡ false
      → (should_recycle rss l.recycler).triggered ≡ true
      → LoopStep l (record l { place = draining; recycler = should_recycle rss l.recycler })
  goes_on :
      (rss : ℕ) (l : Loop)
      → l.place ≡ testing
      → continues l (should_recycle rss l.recycler) ≡ true
      → LoopStep l (record l { place = acquiring; recycler = should_recycle rss l.recycler })
  acquires :
      (n : ℕ) (l : Loop)
      → l.place ≡ acquiring
      → l.free ≡ suc n
      → LoopStep l (record l { place = reading; free = n })
  -- `except BaseException: sem.release(); raise`: the task group then waits for its tasks.
  read_raises :
      (l : Loop) → l.place ≡ reading → LoopStep l (record l { place = failing; free = suc l.free })
  reads_nothing :
      (l : Loop) → l.place ≡ reading → LoopStep l (record l { place = testing; free = suc l.free })
  creates_task :
      (d : Delivery) (l : Loop)
      → l.place ≡ reading
      → LoopStep l (record l { place = testing; running = d ∷ l.running })
  -- A task ends, by its return or by an exception, and its `finally` releases. A task that is
  -- cancelled before it has begun, which runs no `finally`, is not modelled.
  task_ends :
      (before after : List Delivery) (d : Delivery) (l : Loop)
      → l.running ≡ before ++ d ∷ after
      → LoopStep l (record l { running = before ++ after; free = suc l.free })
  -- A task that raises makes the task group leave the loop and cancel the other tasks, each of which
  -- then ends.
  group_aborts : (l : Loop) → l.place ≡ acquiring → LoopStep l (record l { place = failing })
  drained :
      (l : Loop) → l.place ≡ draining → l.running ≡ [] → LoopStep l (record l { place = stopped })
