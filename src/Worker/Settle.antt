-- ===== src/Worker/Settle.antt =====
-- How `process_job` of app/worker/runner.py settles the end of a handler, when no other process
-- interferes from then on.
use symmetrical_disco.Base.{
  ℕ, ◌+◌, ◌≡◌, ◌≢◌, refl, sym, ◌∙◌, Bool, true, false, none, some, List, [], ◌∷◌, ◌++◌, arith,
  if◌then◌else◌, String, All,
}
use mathlib.Core.List.{append-nil}
use symmetrical_disco.Models.{Job, JobId, Json, Time, completed, failed, cancelled}
use symmetrical_disco.Config.{Settings}
use symmetrical_disco.Repository.{Table, find_job, has_id, is_processing, set_progress}
use symmetrical_disco.Repository.Unique.{IsUnique}
use symmetrical_disco.Repository.Claims.{guarded, finish, completes, fails, cancels}
use symmetrical_disco.Repository.Winners.{
  Wins-row, complete_job-Wins, fail_job-Wins, cancel_job-Wins,
}
use symmetrical_disco.Effects.{
  World, Result, ok, Command, Measurement, Label, timeout, policy_rejected, retried, lost, ◌>>=◌,
  transact, measure, continue,
}
use symmetrical_disco.Effects.Alone.{alone}
use symmetrical_disco.Retry.{error_of}
use symmetrical_disco.Retry.Decision.{
  Decided, Leaves, leaves, schedule_retry_or_fail-Decided, schedule_retry_or_fail-lost,
}
use symmetrical_disco.Worker.{
  Outcome, HandlerRun, returned, job_cancelled, handler_timeout, task_cancelled, policy_error,
  raised, is_batch, conclude, settle,
}

-- The row and the commands that the end of a handler leaves.
pub data Ended (s : Settings) (j : Job) (now : Time)
    : HandlerRun → Label → Job → List Command → Type 0 where
  by_result :
      (v : Json)
      → Ended s j now
          (returned v)
          Label.completed
          (record j {
            status = completed;
            result = some v;
            completed_at = some now;
            attempts = j.attempts + 1;
            progress = set_progress (if is_batch j then some 100 else none) j.progress;
          })
          []
  by_cancellation :
      (v : Json)
      → Ended s j now
          (job_cancelled v)
          Label.cancelled
          (record j { status = cancelled; result = some v; completed_at = some now })
          []
  by_policy :
      (text : String)
      → Ended s j now
          (policy_error text)
          policy_rejected
          (record j {
            status = failed;
            error = some (error_of "PayloadPolicyError" text);
            completed_at = some now;
            attempts = j.attempts + 1;
          })
          []
  by_timeout :
      (text : String) {k : Job} {new : List Command}
      → Decided s j now (error_of "HandlerTimeout" text) none k new
      → Ended s j now (handler_timeout text) timeout k new
  by_error :
      (kind text : String) {k : Job} {new : List Command}
      → Decided s j now (error_of kind text) none k new
      → Ended s j now (raised kind text) retried k new

-- An outcome that acknowledges, over a table where the row is now `k`, after the commands `new`.
pub data Acknowledges (P : Label → Job → List Command → Type 0) (i : JobId) (c : List Command)
    (r : Result Outcome × World) : Type 0 where
  acknowledges :
      (l : Label) (k : Job) (new : List Command)
      → r.0 ≡ ok (record { acks = true; label = l })
      → find_job (has_id i) r.1.table ≡ some k
      → r.1.sent ≡ c ++ new
      → P l k new
      → Acknowledges P i c r

-- `conclude` after a decision that was won.
conclude-Leaves :
    (P : Job → List Command → Type 0) (Q : Label → Job → List Command → Type 0) (i : JobId)
    (c : List Command) (job : Job) (l : Label) (r : Result Bool) (v : World)
    → ((k : Job) (new : List Command) → P k new → Q l k new)
    → Leaves P i c (r, v)
    → Acknowledges Q i c (continue (λ won. conclude (some job) won l) r v)
unfolding ◌>>=◌ measure
conclude-Leaves P Q i c job l r v f (leaves k new won row sent p) =
    rw won (acknowledges l k new refl row sent (f k new p))

module _ (s : Settings) (t : Table) (j : Job) (now : Time) (c : List Command) (m : List Measurement)
    (u : IsUnique t) (e : find_job (has_id j.id) t ≡ some j) (running : is_processing j.id j ≡ true)
    (d : ℕ) (ds : List ℕ) (schedule : s.retry_backoff_schedule ≡ d ∷ ds) where
  -- While the row is still processing, the worker that settles a handler's end wins: it
  -- acknowledges the message, and leaves the row and the commands that the kind of end asks for.
  pub settle-Ended :
      (r : HandlerRun)
      → r ≢ task_cancelled
      → Acknowledges (Ended s j now r) j.id c (settle s j r (alone true t now c m))
  unfolding settle ◌>>=◌ transact measure
  settle-Ended (returned v) h =
      let w = complete_job-Wins t j u e now v (if is_batch j then some 100 else none) in
      rw (w.answer ∙ running) (
        acknowledges Label.completed _ [] refl (Wins-row w running) (sym (append-nil c))
          (by_result v))
  settle-Ended (job_cancelled v) h =
      let w = cancel_job-Wins t j u e now v in
      rw (w.answer ∙ running) (
        acknowledges Label.cancelled _ [] refl (Wins-row w running) (sym (append-nil c))
          (by_cancellation v))
  settle-Ended (handler_timeout text) h =
      conclude-Leaves _ (Ended s j now (handler_timeout text)) j.id c j timeout _ _
        (λ k new p. by_timeout text p)
        (schedule_retry_or_fail-Decided s t j now c m u e running (error_of "HandlerTimeout" text)
          none d ds schedule)
  settle-Ended task_cancelled h = absurd (h refl)
  settle-Ended (policy_error text) h =
      let w = fail_job-Wins t j u e now (error_of "PayloadPolicyError" text) in
      rw (w.answer ∙ running) (
        acknowledges policy_rejected _ [] refl (Wins-row w running) (sym (append-nil c))
          (by_policy text))
  settle-Ended (raised kind text) h =
      conclude-Leaves _ (Ended s j now (raised kind text)) j.id c j retried _ _
        (λ k new p. by_error kind text p)
        (schedule_retry_or_fail-Decided s t j now c m u e running (error_of kind text) none d ds
          schedule)

-- A worker that runs alone from the end of its handler on, whose job is no longer processing, because
-- the reaper took it back, settles nothing, with a retry schedule that has an entry and unless its
-- task was cancelled: it changes no row, sends nothing, and its outcome asks for no
-- acknowledgement.
pub settle-lost :
    (s : Settings) (t : Table) (j : Job) (now : Time) (c : List Command) (m : List Measurement)
    (d : ℕ) (ds : List ℕ) (r : HandlerRun)
    → All (λ k. is_processing j.id k ≡ false) t
    → s.retry_backoff_schedule ≡ d ∷ ds
    → r ≢ task_cancelled
    → (l : Label) × ((settle s j r (alone true t now c m)).0
        ≡ ok (record { acks = false; label = l }))
      × ((settle s j r (alone true t now c m)).1.table ≡ t)
      × ((settle s j r (alone true t now c m)).1.sent ≡ c)
unfolding settle ◌>>=◌ transact measure finish
settle-lost s t j now c m d ds (returned v) gone h ne =
    let no = guarded (completes now v (if is_batch j then some 100 else none)) j.id t gone in
    (lost, rw no refl, rw no refl, rw no refl)
settle-lost s t j now c m d ds (job_cancelled v) gone h ne =
    let no = guarded (cancels now v) j.id t gone in (Label.cancelled, rw no refl, rw no refl, refl)
settle-lost s t j now c m d ds (handler_timeout text) gone h ne =
    let no =
      schedule_retry_or_fail-lost s t j now c m (error_of "HandlerTimeout" text) none d ds gone h in
    (timeout, rw no refl, rw no refl, rw no refl)
settle-lost s t j now c m d ds task_cancelled gone h ne = absurd (ne refl)
settle-lost s t j now c m d ds (policy_error text) gone h ne =
    let no = guarded (fails now (error_of "PayloadPolicyError" text)) j.id t gone in
    (policy_rejected, rw no refl, rw no refl, ground (arith, no))
settle-lost s t j now c m d ds (raised kind text) gone h ne =
    let no = schedule_retry_or_fail-lost s t j now c m (error_of kind text) none d ds gone h in
    (retried, rw no refl, rw no refl, rw no refl)
