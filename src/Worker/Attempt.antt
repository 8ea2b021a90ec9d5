-- ===== src/Worker/Attempt.antt =====
-- A whole attempt by one worker, `process_job` of app/worker/runner.py from the claim to the outcome,
-- when no other process interferes.
use symmetrical_disco.Base.{
  ℕ, ◌≡◌, ◌≢◌, refl, sym, ◌∙◌, true, false, ◌&&◌, some, List, ◌∷◌, arith, if◌then◌else◌, Bool-cases,
  inl, inr,
}
use symmetrical_disco.Models.{Job, Time, processing}
use symmetrical_disco.Config.{Settings}
use symmetrical_disco.Repository.{
  Table, find_job, has_id, is_processing, is_waiting, claim_job, init_progress, get_job,
}
use symmetrical_disco.Repository.Steps.{claim, begin_progress}
use symmetrical_disco.Repository.Unique.{IsUnique, Step-IsUnique}
use symmetrical_disco.Repository.Winners.{Wins-row, claim_job-Wins, init_progress-Wins}
use symmetrical_disco.Effects.{World, M, ok, Command, Measurement, ◌>>=◌, transact, query}
use symmetrical_disco.Effects.Alone.{alone}
use mathlib.Core.Path.{subst}
use symmetrical_disco.Retry.{schedule_retry_or_fail, retry_now, retry_later, fail_permanently}
use symmetrical_disco.Worker.{
  HandlerRun, returned, job_cancelled, handler_timeout, task_cancelled, policy_error, raised,
  is_batch, attend, process_job, settle,
}
use symmetrical_disco.Worker.Settle.{Ended, Acknowledges, settle-Ended}

-- The row that the worker holds while its handler runs.
unfoldable pub claimed_row : Time → Job → Job
claimed_row now j = record j { status = processing; started_at = some now }

-- The row while the handler of a claimed job runs: a batch has its progress set to 0.
unfoldable pub begun : Job → Job
begun j = if is_batch j then record j { progress = some 0 } else j

begun-batch : (j : Job) → is_batch j ≡ true → begun j ≡ record j { progress = some 0 }
unfolding begun
begun-batch j h = ground arith

begun-single : (j : Job) → is_batch j ≡ false → begun j ≡ j
unfolding begun
begun-single j h = ground arith

-- What is settled of a job does not depend on its progress.
settle-progress :
    (s : Settings) (j : Job) (r : HandlerRun) (w : World)
    → settle s j r w ≡ settle s (record j { progress = some 0 }) r w
unfolding settle schedule_retry_or_fail retry_now retry_later fail_permanently
settle-progress s j (returned v) w = refl
settle-progress s j (job_cancelled v) w = refl
settle-progress s j (handler_timeout v) w = refl
settle-progress s j task_cancelled w = refl
settle-progress s j (policy_error v) w = refl
settle-progress s j (raised a b) w = refl

-- A handler that ends in `r` and leaves the world alone.
abbrev pub EndsIn : (Job → M HandlerRun) → HandlerRun → Type 0
EndsIn handler r = (j : Job) (w : World) → handler j w ≡ (ok r, w)

module _ (s : Settings) (handler : Job → M HandlerRun) (now : Time) (c : List Command)
    (m : List Measurement) (d : ℕ) (ds : List ℕ) (schedule : s.retry_backoff_schedule ≡ d ∷ ds)
    (r : HandlerRun) (pure_handler : EndsIn handler r) (ends : r ≢ task_cancelled) where
  attend-single :
      (j : Job) (user : ℕ) (w : World)
      → j.user_id ≡ some user
      → is_batch j ≡ false
      → attend s handler j w ≡ settle s j r w
  unfolding attend ◌>>=◌
  attend-single j user w owner single = simp (owner, single, pure_handler)

  attend-batch :
      (t : Table) (j : Job) (user : ℕ)
      → j.user_id ≡ some user
      → is_batch j ≡ true
      → attend s handler j (alone true t now c m)
        ≡ settle s j r (alone true (init_progress j.id t).0 now c m)
  unfolding attend ◌>>=◌ transact
  attend-batch t j user owner many = simp (owner, many, pure_handler)

  attend-Ended :
      (t : Table) (j : Job) (user : ℕ)
      → IsUnique t
      → find_job (has_id j.id) t ≡ some j
      → is_processing j.id j ≡ true
      → j.user_id ≡ some user
      → Acknowledges (Ended s (begun j) now r) j.id c (attend s handler j (alone true t now c m))
  attend-Ended t j user u e running owner = elim (Bool-cases (is_batch j)) [
    | inl many ↦
        let w = init_progress-Wins t j u e in
        subst
          (λ (k : Job).
            Acknowledges (Ended s k now r) j.id c (attend s handler j (alone true t now c m)))
          (sym (begun-batch j many))
          (rw
            (attend-batch t j user owner many
              ∙ settle-progress s j r (alone true (init_progress j.id t).0 now c m))
            (settle-Ended s (init_progress j.id t).0 (record j { progress = some 0 }) now c m
              (Step-IsUnique (begin_progress j.id t) u) (Wins-row w running) running d ds schedule r
              ends))
    | inr single ↦
        subst
          (λ (k : Job).
            Acknowledges (Ended s k now r) j.id c (attend s handler j (alone true t now c m)))
          (sym (begun-single j single))
          (rw (attend-single j user (alone true t now c m) owner single)
            (settle-Ended s t j now c m u e running d ds schedule r ends))
  ]

  -- A worker that runs alone while Redis is up, over a table with unique keys and with a retry
  -- schedule that has an entry, takes a waiting job of some user through its handler and settles its
  -- end, unless that is the cancellation of the worker's task: the outcome asks for the message to be
  -- acknowledged, and the row and the commands are what that end asks for.
  pub process_job-Ended :
      (t : Table) (j : Job) (user : ℕ)
      → IsUnique t
      → find_job (has_id j.id) t ≡ some j
      → is_waiting j ≡ true
      → j.user_id ≡ some user
      → Acknowledges
          (Ended s (begun (claimed_row now j)) now r)
          j.id
          c
          (process_job s handler j.id (alone true t now c m))
  unfolding process_job ◌>>=◌ transact query get_job claimed_row
  process_job-Ended t j user u e waiting owner =
      let w = claim_job-Wins t j u e now in
      let won : has_id j.id j && is_waiting j ≡ true = ground arith in
      rw (w.answer ∙ won, Wins-row w won)
        (attend-Ended (claim_job now j.id t).0 (claimed_row now j) user
          (Step-IsUnique (claim now j.id t) u) (Wins-row w won) (ground arith) owner)
