-- ===== src/Routes.antt =====
-- app/api/routes.py: submission with idempotency keys, reads, retry, cancellation and listing. A
-- route returns its status code with its body, or raises an HTTPException with its code. What the
-- libraries provide is an argument: the fresh UUID of a new row, the trace carrier, the hash of a
-- payload, and pydantic's parse.
pub mod Schemas
pub mod Runs
pub mod Cancel
pub mod Idempotency
pub mod Outage
pub mod Ownership
pub use symmetrical_disco.Routes.Schemas.{
  JobSubmission, Request, JobAccepted, JobOut, job_out, accepted,
}
use symmetrical_disco.Base.{
  ℕ, zero, suc, ◌+◌, String, Bool, true, false, ◌&&◌, ◌||◌, Option, none, some, List, [], ◌∷◌, map,
  ◌==◌, ltb, leb, if◌then◌else◌, str_eq,
}
use symmetrical_disco.Models.{
  Job, JobId, JobType, JobStatus, JobPriority, Json, Time, batch, scheduled, pending, processing,
  completed, failed, cancelled, same_status, same_type,
}
use symmetrical_disco.Config.{Settings, stream_for_priority}
use symmetrical_disco.Payloads.{Allowlists, Payload, Validation, valid, validate_payload}
use symmetrical_disco.Repository.{
  Table, NewJob, new_job, create_job, get_job, mark_synced, reset_failed_to_pending,
  cancel_pending_or_scheduled, request_cancel, get_by_idempotency_key,
}
use symmetrical_disco.Listing.{Filters, CursorText, Key, decode_cursor, list_jobs}
use symmetrical_disco.Effects.{
  M, zrem, pure, throw, ◌>>=◌, ◌>>◌, transact, query, send, read_clock, measure, when, on_none,
  required, except_integrity, key_error, validation_error, integrity_error, http_error,
  jobs_submitted,
}
use symmetrical_disco.Queue.{enqueue, schedule}
use symmetrical_disco.Auth.Identity.{AuthedUser}

-- The keyword arguments of `create_job` in `_create_and_handoff`.
unfoldable pub job_to_create :
    Settings
    → JobSubmission
    → Request
    → Option String
    → Option String
    → AuthedUser
    → JobStatus
    → Option Time
    → NewJob
job_to_create s sub r key hash user status at = record {
  type = sub.type;
  payload = sub.payload;
  status = status;
  scheduled_at = at;
  priority = sub.priority;
  max_attempts = if same_type sub.type batch then 1 else s.max_attempts;
  idempotency_key = key;
  idempotency_hash = hash;
  trace_context = r.carrier;
  user_id = some user.id;
  user_name = some user.name;
}

-- The table behind an INSERT, and the row that `refresh` reads.
abbrev pub inserted : Table → Job → Option Table → Table × Option Job
inserted t j none = (t, none)
inserted t j (some u) = (u, some j)

-- `create_job`, with its commit and its refresh.
unfoldable pub create : JobId → NewJob → M Job
create id n = do
  row ← transact (λ now t. inserted t (new_job id now n) (create_job id now n t))
  required integrity_error row

abbrev pub is_future : Time → Option Time → Option Time
is_future now none = none
is_future now (some at) = if ltb now at then some at else none

unfoldable pub create_scheduled : Settings → JobId → NewJob → Time → M Job
create_scheduled s id n at = do job ← create id n; schedule s.delayed_zset job.id at; pure job

unfoldable pub create_pending : Settings → JobId → NewJob → M Job
create_pending s id n = do
  job ← create id n
  stream ← required key_error (stream_for_priority s n.priority)
  enqueue stream job.id none
  pure job

unfoldable pub create_and_handoff :
    Settings → JobSubmission → Request → Option String → Option String → AuthedUser → M Job
create_and_handoff s sub r key hash user = do
  now ← read_clock
  job ←
      on_none (is_future now sub.scheduled_at)
        (create_pending s r.new_id (job_to_create s sub r key hash user pending none))
        (λ at.
          create_scheduled s r.new_id (job_to_create s sub r key hash user scheduled (some at)) at)
  transact (λ _ t. (mark_synced job.id t, tt))
  measure (jobs_submitted sub.type sub.priority (same_status job.status scheduled))
  pure job

abbrev pub same_hash : Option String → String → Bool
same_hash none h = false
same_hash (some g) h = str_eq g h

unfoldable pub replay_or_conflict : Option Job → String → M (ℕ × JobAccepted)
replay_or_conflict existing hash = on_none existing (throw (http_error 409)) (λ job.
    if same_hash job.idempotency_hash hash
    then pure (200, accepted job)
    else throw (http_error 409))

abbrev pub is_valid : Validation → Bool
is_valid (valid p) = true
is_valid _ = false

unfoldable pub submit_with_key :
    Settings → JobSubmission → Request → AuthedUser → String → M (ℕ × JobAccepted)
submit_with_key s sub r user key = do
  existing ← query (get_by_idempotency_key key user.id)
  on_none existing
      (except_integrity
        (do
          job ← create_and_handoff s sub r (some key) (some r.payload_hash) user
          pure (202, accepted job))
        (do
          existing' ← query (get_by_idempotency_key key user.id)
          replay_or_conflict existing' r.payload_hash))
      (λ job. replay_or_conflict (some job) r.payload_hash)

unfoldable pub submit_job :
    Settings → Allowlists → JobSubmission → Request → AuthedUser → M (ℕ × JobAccepted)
submit_job s a sub r user =
    if is_valid (validate_payload a (λ _ _. r.parsed) sub.type sub.payload)
    then on_none sub.idempotency_key
        (do job ← create_and_handoff s sub r none none user; pure (202, accepted job))
        (submit_with_key s sub r user)
    else throw (http_error 422)

-- `None` is the 404.
abbrev pub found : Option Job → M Job
found o = required (http_error 404) o

unfoldable pub get_job_route : JobId → AuthedUser → M (ℕ × JobOut)
get_job_route i user = do
  row ← query (get_job i (some user.id))
  job ← found row
  pure (200, job_out job)

unfoldable pub retry_job : Settings → JobId → AuthedUser → M (ℕ × JobOut)
retry_job s i user = do
  row ← query (get_job i (some user.id))
  job ← found row
  won ← transact (λ _. reset_failed_to_pending i)
  if won
      then (do
        stream ← required key_error (stream_for_priority s job.priority)
        enqueue stream i none
        transact (λ _ t. (mark_synced i t, tt))
        row' ← query (get_job i none)
        job' ← required validation_error row'
        pure (200, job_out job'))
      else throw (http_error 409)

-- `JobOut.model_validate(await repo.get_job(session, job_id))`.
unfoldable pub reply_with : ℕ → JobId → M (ℕ × JobOut)
reply_with code i = do
  row ← query (get_job i none)
  job ← required validation_error row
  pure (code, job_out job)

abbrev pub is_closed : Job → Bool
is_closed j = same_status j.status completed || same_status j.status failed

-- One round of the loop; `again` is the rest of the loop.
unfoldable pub cancel_round : Settings → JobId → M (ℕ × JobOut) → M (ℕ × JobOut)
unfolding reply_with
cancel_round s i again = do
  withdrawn ← transact (λ now. cancel_pending_or_scheduled now i)
  if withdrawn then (do send (zrem s.delayed_zset (i ∷ [])); reply_with 200 i) else (do
    requested ← transact (λ now. request_cancel now i)
    if requested then reply_with 202 i else (do
      row ← query (get_job i none)
      job ← found row
      if same_status job.status cancelled
          then pure (200, job_out job)
          else if is_closed job
          then throw (http_error 409)
          else again))

-- `for _ in range(n)`.
unfoldable pub cancel_rounds : ℕ → Settings → JobId → M (ℕ × JobOut)
unfolding cancel_round
cancel_rounds zero s i = throw (http_error 409)
cancel_rounds (suc n) s i = cancel_round s i (cancel_rounds n s i)

unfoldable pub cancel_job_route : Settings → JobId → AuthedUser → M (ℕ × JobOut)
unfolding cancel_rounds
cancel_job_route s i user = do
  row ← query (get_job i (some user.id))
  _ ← found row
  cancel_rounds 3 s i

-- No cursor, a cursor that decodes, or one that does not.
abbrev pub with_cursor : {A : Type 0} → Option CursorText → M A → (Option Key → M A) → M A
with_cursor none bad f = f none
with_cursor (some c) bad f = on_none (decode_cursor c) bad (λ k. f (some k))

unfoldable pub list_jobs_route :
    Option JobStatus
    → Option JobType
    → Option JobPriority
    → ℕ
    → Option CursorText
    → AuthedUser
    → M (List JobOut × Option CursorText)
list_jobs_route status job_type priority limit cursor user =
    with_cursor cursor (throw (http_error 422)) (λ k. do
      page ← query (
          list_jobs
            (record {
              status = status;
              job_type = job_type;
              priority = priority;
              user_id = some user.id;
            })
            limit k)
      pure (map job_out page.0, page.1))
