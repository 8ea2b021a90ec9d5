-- ===== src/Worker/Acks.antt =====
-- When `handle_message` of app/worker/runner.py acknowledges its message.
use symmetrical_disco.Base.{
  ◌≡◌, refl, ap, ◌∙◌, String, Bool, true, false, Option, none, some, List, inl, inr, Option-cases,
}
use symmetrical_disco.Models.{Job, JobId, Json, Time}
use symmetrical_disco.Config.{Settings}
use symmetrical_disco.Effects.{
  World, M, Result, ok, raise, Command, ◌>>=◌, continue, xack, Message, MessageId, Label,
  redis_error, poison, pure, when, read_clock, measure,
}
use symmetrical_disco.Effects.Inversion.{send-cases}
use symmetrical_disco.Effects.Acks.{
  acked, acks_of, AcksNothing, quiet_rules, Handled, acknowledged, left, failed,
}
use symmetrical_disco.Queue.{ack, enqueue, schedule}
use symmetrical_disco.Retry.{schedule_retry_or_fail, retry_now, retry_later, fail_permanently}
use symmetrical_disco.Worker.{
  Outcome, HandlerRun, returned, job_cancelled, handler_timeout, task_cancelled, policy_error,
  raised, conclude, settle, drop_ownerless, attend, process_job, handle_message, job_id_of,
}

pub enqueue-quiet :
    (stream : String) (i : JobId) (c : Option Json) → AcksNothing (enqueue stream i c)
unfolding enqueue
enqueue-quiet stream i c = search quiet_rules

pub schedule-quiet : (zset : String) (i : JobId) (at : Time) → AcksNothing (schedule zset i at)
unfolding schedule
schedule-quiet zset i at = search quiet_rules

pub schedule_retry_or_fail-quiet :
    (s : Settings) (j : Job) (e : Json) (c : Option Json)
    → AcksNothing (schedule_retry_or_fail s j e c)
unfolding schedule_retry_or_fail retry_now retry_later fail_permanently
schedule_retry_or_fail-quiet s j e c = search (quiet_rules, enqueue-quiet, schedule-quiet) depth 16

conclude-quiet : (j : Option Job) (won : Bool) (l : Label) → AcksNothing (conclude j won l)
conclude-quiet none won l = search quiet_rules
conclude-quiet (some j) won l = search quiet_rules

drop_ownerless-quiet : (j : Job) → AcksNothing (drop_ownerless j)
unfolding drop_ownerless
drop_ownerless-quiet j = search quiet_rules depth 12

settle-quiet : (s : Settings) (j : Job) (r : HandlerRun) → AcksNothing (settle s j r)
unfolding settle
settle-quiet s j (returned result) = search quiet_rules depth 12
settle-quiet s j (job_cancelled summary) = search quiet_rules depth 12
settle-quiet s j (handler_timeout m) = search (quiet_rules, schedule_retry_or_fail-quiet) depth 12
settle-quiet s j task_cancelled = search quiet_rules
settle-quiet s j (policy_error m) = search quiet_rules depth 12
settle-quiet s j (raised k m) = search (quiet_rules, schedule_retry_or_fail-quiet) depth 12

-- The acknowledgement, which comes last.
pub ack-Handled :
    {A : Type 0} (acks : A → Bool) (a : A) (stream group : String) (m : MessageId)
    (before : List Command) (v : World)
    → acked v ≡ acks_of before
    → acks a ≡ true
    → Handled acks
        (xack stream group m)
        before
        ((ack stream group m >>= λ _. pure a) v).0
        ((ack stream group m >>= λ _. pure a) v).1.sent
unfolding ack ◌>>=◌
ack-Handled acks a stream group m before v e sure = elim (send-cases (xack stream group m) v) [
  | inl (up, sent) ↦ rw up (acknowledged a v.sent refl sure sent e)
  | inr (down, sent) ↦ rw down (failed redis_error refl (ap acks_of sent ∙ e))
]

abbrev pub outcome_acks : Outcome → Bool
outcome_acks o = o.acks

ack-when :
    (b : Bool) (stream group : String) (m : MessageId) (before : List Command) (o : Outcome)
    (v : World)
    → acked v ≡ acks_of before
    → o.acks ≡ b
    → Handled outcome_acks
        (xack stream group m)
        before
        ((when b (ack stream group m) >>= λ _. pure o) v).0
        ((when b (ack stream group m) >>= λ _. pure o) v).1.sent
unfolding ◌>>=◌
ack-when true stream group m before o v e sure =
    ack-Handled outcome_acks o stream group m before v e sure
ack-when false stream group m before o v e idle = left o refl idle e

pub then_ack :
    {A B : Type 0} (acks : B → Bool) (f : A → M B) (last : Command) (before : List Command)
    (r : Result A) (v : World)
    → ((a : A) → Handled acks last before (f a v).0 (f a v).1.sent)
    → acked v ≡ acks_of before
    → Handled acks last before (continue f r v).0 (continue f r v).1.sent
then_ack acks f last before (ok a) v h e = h a
then_ack acks f last before (raise x) v h e = failed x refl e

module _ (s : Settings) (handler : Job → M HandlerRun)
    (quiet : (j : Job) → AcksNothing (handler j)) where
  attend-quiet : (j : Job) → AcksNothing (attend s handler j)
  unfolding attend
  attend-quiet j = search (quiet_rules, drop_ownerless-quiet, settle-quiet, quiet) depth 12

  process_job-quiet : (i : JobId) → AcksNothing (process_job s handler i)
  unfolding process_job
  process_job-quiet i = search (quiet_rules, attend-quiet, conclude-quiet) depth 12

  -- In any world, whatever other processes do meanwhile, for a handler that acknowledges nothing
  -- itself: handling a message acknowledges it, on its stream for the worker's group, exactly if it
  -- returns an outcome that says so; that is the last command that it sends, and no other message is
  -- acknowledged. A handling that raises acknowledges nothing, so that the message is delivered
  -- again.
  pub handle_message-Handled :
      (stream : String) (m : MessageId) (fields : Message) (w : World)
      → Handled outcome_acks
          (xack stream s.consumer_group m)
          w.sent
          (handle_message s handler stream m fields w).0
          (handle_message s handler stream m fields w).1.sent
  unfolding handle_message ◌>>=◌ read_clock measure
  handle_message-Handled stream m fields w = elim (Option-cases (job_id_of fields)) [
    | inl poisoned ↦ rw poisoned (
        ack-Handled outcome_acks (record { acks = true; label = poison }) stream s.consumer_group m
          w.sent w refl refl)
    | inr (i, known) ↦ rw known (
        then_ack outcome_acks _ (xack stream s.consumer_group m) w.sent
          (process_job s handler i _).0 (process_job s handler i _).1
          (λ o.
            ack-when o.acks stream s.consumer_group m w.sent o _ ((process_job-quiet i).quiet _)
              refl)
          ((process_job-quiet i).quiet _))
  ]
