-- ===== src/Worker/Runs.antt =====
-- The worker of app/worker/runner.py as statements of app/repository.py.
use symmetrical_disco.Base.{String, Bool, Option, none, some}
use symmetrical_disco.Models.{Job, JobId}
use symmetrical_disco.Config.{Settings}
use symmetrical_disco.Effects.{M, Label, MessageId, Message, RunsByStatements}
use symmetrical_disco.Effects.Rules.{runs_rules, statements}
use symmetrical_disco.Queue.Runs.{queue_runs}
use symmetrical_disco.Retry.Runs.{schedule_retry_or_fail-runs}
use symmetrical_disco.Worker.{
  HandlerRun, returned, job_cancelled, handler_timeout, task_cancelled, policy_error, raised,
  conclude, settle, drop_ownerless, attend, process_job, handle_message,
}

conclude-runs : (j : Option Job) (won : Bool) (l : Label) → RunsByStatements (conclude j won l)
conclude-runs none won l = search runs_rules
conclude-runs (some j) won l = search runs_rules

drop_ownerless-runs : (j : Job) → RunsByStatements (drop_ownerless j)
unfolding drop_ownerless
drop_ownerless-runs j = search (runs_rules, statements) depth 12

settle-runs : (s : Settings) (j : Job) (r : HandlerRun) → RunsByStatements (settle s j r)
unfolding settle
settle-runs s j (returned result) = search (runs_rules, statements) depth 12
settle-runs s j (job_cancelled summary) = search (runs_rules, statements) depth 12
settle-runs s j (handler_timeout m) = search (runs_rules, schedule_retry_or_fail-runs) depth 12
settle-runs s j task_cancelled = search runs_rules
settle-runs s j (policy_error m) = search (runs_rules, statements) depth 12
settle-runs s j (raised k m) = search (runs_rules, schedule_retry_or_fail-runs) depth 12

module _ (s : Settings) (handler : Job → M HandlerRun)
    (lawful : (j : Job) → RunsByStatements (handler j)) where
  attend-runs : (j : Job) → RunsByStatements (attend s handler j)
  unfolding attend
  attend-runs j = search (runs_rules, statements, drop_ownerless-runs, settle-runs, lawful) depth 12

  process_job-runs : (i : JobId) → RunsByStatements (process_job s handler i)
  unfolding process_job
  process_job-runs i = search (runs_rules, statements, attend-runs, conclude-runs) depth 12

  -- Whatever the handler does by statements of the program, and whatever the other processes do in
  -- the meantime, a message is handled by statements of the program.
  pub handle_message-runs :
      (stream : String) (m : MessageId) (fields : Message)
      → RunsByStatements (handle_message s handler stream m fields)
  unfolding handle_message
  handle_message-runs stream m fields = search (runs_rules, queue_runs, process_job-runs) depth 12
