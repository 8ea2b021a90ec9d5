-- ===== src/Worker.antt =====
-- app/worker/runner.py: one delivered message, from the claim of its job to the acknowledgement.
-- The handler of the job is an argument: it runs over the world, for the time it takes, and ends in
-- one of the ways that `process_job` tells apart.
pub mod Runs
pub mod Settle
pub mod Attempt
pub mod Acks
pub mod Served
pub mod GivesUp
use symmetrical_disco.Base.{
  ℕ, ◌+◌, ◌-◌, ◌*◌, String, Bool, true, false, Option, none, some, List, [], ◌∷◌, if◌then◌else◌,
  str_eq,
}
use symmetrical_disco.Models.{
  Job, JobId, JobType, batch, Json, object, text, Fields, field, same_type, JobPriority, high,
  normal, low,
}
use symmetrical_disco.Config.{Settings}
use symmetrical_disco.Repository.{
  claim_job, get_job, fail_job, init_progress, cancel_job, complete_job,
}
use symmetrical_disco.Effects.{
  M, Message, MessageId, IdText, parse_uuid, Label, skipped, dropped_ownerless, timeout,
  policy_rejected, retried, lost, poison, pure, throw, ◌>>=◌, ◌>>◌, transact, query, read_clock,
  measure, when, on_none, required, attribute_error, cancelled_error, jobs_failed, jobs_processed,
  jobs_dropped_ownerless, job_queue_wait,
}
use symmetrical_disco.Queue.{ack}
use symmetrical_disco.Retry.{error_of, schedule_retry_or_fail}

pub record Outcome : Type 0 where
  pub acks : Bool
  pub label : Label

-- How `validate_payload` and the handler under its timeout end: by a result, by one of the
-- exceptions that `process_job` names, with what it reads of them, or by any other exception, with
-- the name of its type and its message.
pub data HandlerRun : Type 0 where
  returned : Json → HandlerRun
  job_cancelled : Json → HandlerRun
  handler_timeout : String → HandlerRun
  task_cancelled : HandlerRun
  policy_error : String → HandlerRun
  raised : String → String → HandlerRun

abbrev pub is_batch : Job → Bool
is_batch job = same_type job.type batch

abbrev pub record_outcome : Option Job → Label → M (Unit {0})
record_outcome none label = measure (jobs_processed label none)
record_outcome (some job) label = measure (jobs_processed label (some (job.type, job.priority)))

-- `_record_outcome` and the return.
abbrev pub conclude : Option Job → Bool → Label → M Outcome
conclude job won label = do record_outcome job label; pure (record { acks = won; label = label })

-- The `except` clauses and the code behind the `try`.
unfoldable pub settle : Settings → Job → HandlerRun → M Outcome
settle s job (returned result) = do
  won ← transact (λ now. complete_job now job.id result (if is_batch job then some 100 else none))
  if won then conclude (some job) true Label.completed else conclude (some job) false lost
settle s job (job_cancelled summary) = do
  won ← transact (λ now. cancel_job now job.id summary)
  conclude (some job) won Label.cancelled
settle s job (handler_timeout message) = do
  won ← schedule_retry_or_fail s job (error_of "HandlerTimeout" message) none
  conclude (some job) won timeout
settle s job task_cancelled = throw cancelled_error
settle s job (policy_error message) = do
  won ← transact (λ now. fail_job now job.id (error_of "PayloadPolicyError" message))
  when won (measure (jobs_failed job.type job.priority))
  conclude (some job) won policy_rejected
settle s job (raised kind message) = do
  won ← schedule_retry_or_fail s job (error_of kind message) none
  conclude (some job) won retried

abbrev pub ownerless : Json
ownerless = object (field "reason" (text "ownerless job dropped") Fields.end)

unfoldable pub drop_ownerless : Job → M Outcome
drop_ownerless job = do
  won ← transact (λ now. fail_job now job.id ownerless)
  measure jobs_dropped_ownerless
  conclude (some job) won dropped_ownerless

-- From the row that was claimed to the outcome.
unfoldable pub attend : Settings → (Job → M HandlerRun) → Job → M Outcome
unfolding drop_ownerless settle
attend s handler job = on_none job.user_id (drop_ownerless job) (λ _. do
  when (is_batch job) (do _ ← transact (λ _. init_progress job.id); pure tt)
  end ← handler job
  settle s job end)

unfoldable pub process_job : Settings → (Job → M HandlerRun) → JobId → M Outcome
unfolding attend
process_job s handler i = do
  claimed ← transact (λ now. claim_job now i)
  if claimed
      then (do
        row ← query (get_job i none)
        job ← required attribute_error row
        attend s handler job)
      else conclude none true skipped

abbrev pub parsed : Option IdText → Option JobId
parsed none = none
parsed (some t) = parse_uuid t

-- `UUID(fields["job_id"])`; `none` is the KeyError or the ValueError.
abbrev pub job_id_of : Message → Option JobId
job_id_of m = parsed m.job_id

-- `priority_by_stream.get(stream, stream)`: the value of the priority, or the key itself. The dict
-- keeps the last of equal keys.
abbrev pub stream_label : Settings → String → String
stream_label s stream =
    if str_eq s.stream_low stream
    then "low"
    else if str_eq s.stream_normal stream
    then "normal"
    else if str_eq s.stream_high stream
    then "high"
    else stream

unfoldable pub handle_message :
    Settings → (Job → M HandlerRun) → String → MessageId → Message → M Outcome
unfolding process_job
handle_message s handler stream message_id fields =
    on_none (job_id_of fields)
      (do ack stream s.consumer_group message_id; pure (record { acks = true; label = poison }))
      (λ i. do
        now ← read_clock
        measure (job_queue_wait (stream_label s stream) (now - message_id.ms * 1000))
        outcome ← process_job s handler i
        when outcome.acks (ack stream s.consumer_group message_id)
        pure outcome)
