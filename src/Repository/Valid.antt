-- ===== src/Repository/Valid.antt =====
-- The well-formedness of a row of app/models/job.py, by its status, over any statements.
use symmetrical_disco.Base.{◌≡◌, true, false, some, [], ◌∷◌, arith, All, is_some, ◌⊎◌}
use symmetrical_disco.Models.{
  Job, JobId, Time, scheduled, pending, processing, completed, failed, cancelled,
}
use symmetrical_disco.Repository.{
  Table, NewJob, new_job, insert_row, create_job, mark_synced, claim_job, complete_job, fail_job,
  retry_to_pending, retry_to_scheduled, reset_failed_to_pending, promote_scheduled_to_pending,
  init_progress, cancel_pending_or_scheduled, request_cancel, cancel_job, write_progress,
}
use symmetrical_disco.Repository.Rows.{update_where-All, insert_row-some}
use symmetrical_disco.Repository.Steps.{
  Step, Steps, here, next, IsFresh, now_due, deferred, create, sync, claim, complete, fail, retry,
  defer, reset, promote, begin_progress, cancel_waiting, ask_cancel, cancel, report,
}

-- Which columns are set in which status.
pub record IsValid (j : Job) : Type 0 where
  pub scheduled_has_time : j.status ≡ scheduled → is_some j.scheduled_at ≡ true
  pub waiting_not_started :
      (j.status ≡ pending) ⊎ (j.status ≡ scheduled)
      → (is_some j.started_at ≡ false) × (is_some j.completed_at ≡ false)
  pub processing_started :
      j.status ≡ processing → (is_some j.started_at ≡ true) × (is_some j.completed_at ≡ false)
  pub completed_has_result :
      j.status ≡ completed → (is_some j.result ≡ true) × (is_some j.completed_at ≡ true)
  pub failed_has_error :
      j.status ≡ failed → (is_some j.error ≡ true) × (is_some j.completed_at ≡ true)
  pub cancelled_has_end : j.status ≡ cancelled → is_some j.completed_at ≡ true

fresh-IsValid : (id : JobId) (now : Time) (n : NewJob) → IsFresh n → IsValid (new_job id now n)
fresh-IsValid id now n (now_due e) = ground arith
fresh-IsValid id now n (deferred e h) = ground arith

insert-All :
    (j : Job) (t : Table) {u : Table}
    → insert_row j t ≡ some u
    → IsValid j
    → All IsValid t
    → All IsValid u
insert-All j t e v a = rw ((insert_row-some j t e).1) (v, a)

-- Every statement keeps every row of the table valid.
pub Step-IsValid : {t u : Table} → Step t u → All IsValid t → All IsValid u
unfolding mark_synced claim_job complete_job fail_job retry_to_pending retry_to_scheduled
    reset_failed_to_pending promote_scheduled_to_pending init_progress cancel_pending_or_scheduled
    request_cancel cancel_job write_progress create_job
Step-IsValid (create id now n {t} fresh made) a =
    insert-All (new_job id now n) t made (fresh-IsValid id now n fresh) a
Step-IsValid (sync i t) a = update_where-All _ _ IsValid (λ j v h. ground arith) t a
Step-IsValid (claim now i t) a = update_where-All _ _ IsValid (λ j v h. ground arith) t a
Step-IsValid (complete now i r p t) a = update_where-All _ _ IsValid (λ j v h. ground arith) t a
Step-IsValid (fail now i e t) a = update_where-All _ _ IsValid (λ j v h. ground arith) t a
Step-IsValid (retry i t) a = update_where-All _ _ IsValid (λ j v h. ground arith) t a
Step-IsValid (defer i at t) a = update_where-All _ _ IsValid (λ j v h. ground arith) t a
Step-IsValid (reset i t) a = update_where-All _ _ IsValid (λ j v h. ground arith) t a
Step-IsValid (promote [] t) a = a
Step-IsValid (promote (i ∷ is) t) a = update_where-All _ _ IsValid (λ j v h. ground arith) t a
Step-IsValid (begin_progress i t) a = update_where-All _ _ IsValid (λ j v h. ground arith) t a
Step-IsValid (cancel_waiting now i t) a = update_where-All _ _ IsValid (λ j v h. ground arith) t a
Step-IsValid (ask_cancel now i t) a = update_where-All _ _ IsValid (λ j v h. ground arith) t a
Step-IsValid (cancel now i s t) a = update_where-All _ _ IsValid (λ j v h. ground arith) t a
Step-IsValid (report i pct t) a = update_where-All _ _ IsValid (λ j v h. ground arith) t a

-- Any sequence of statements keeps every row valid.
pub Steps-IsValid : {t u : Table} → Steps t u → All IsValid t → All IsValid u
Steps-IsValid here a = a
Steps-IsValid (next s r) a = Steps-IsValid r (Step-IsValid s a)
