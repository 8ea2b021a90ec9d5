-- ===== src/Routes/Runs.antt =====
-- The routes of app/api/routes.py as statements of app/repository.py.
use symmetrical_disco.Base.{ℕ, zero, suc, ◌≡◌, refl, String, Option, none, some}
use symmetrical_disco.Models.{Job, JobId, Time, pending, scheduled}
use symmetrical_disco.Config.{Settings}
use symmetrical_disco.Payloads.{Allowlists}
use symmetrical_disco.Repository.{Table, NewJob, new_job, create_job}
use symmetrical_disco.Repository.Steps.{Steps, here, next, IsFresh, now_due, deferred, Step}
use symmetrical_disco.Effects.{M, RunsByStatements}
use symmetrical_disco.Effects.Rules.{runs_rules, statements, runs-bind, runs-transact}
use symmetrical_disco.Queue.Runs.{queue_runs}
use symmetrical_disco.Auth.Identity.{AuthedUser}
use symmetrical_disco.Routes.{
  JobSubmission, Request, JobOut, job_to_create, inserted, create, create_scheduled, create_pending,
  create_and_handoff, replay_or_conflict, submit_with_key, submit_job, retry_job, reply_with,
  cancel_round, cancel_rounds, cancel_job_route,
}

inserted-Steps :
    (id : JobId) (now : Time) (n : NewJob) (t : Table) (o : Option Table)
    → IsFresh n
    → create_job id now n t ≡ o
    → Steps t (inserted t (new_job id now n) o).0
inserted-Steps id now n t none fresh e = here
inserted-Steps id now n t (some u) fresh e = next (Step.create id now n fresh e) here

create-runs : (id : JobId) (n : NewJob) → IsFresh n → RunsByStatements (create id n)
unfolding create
create-runs id n fresh =
    runs-bind _ _ (runs-transact _ (λ now t. inserted-Steps id now n t _ fresh refl))
      (search runs_rules)

create_pending-runs :
    (s : Settings) (id : JobId) (n : NewJob) → IsFresh n → RunsByStatements (create_pending s id n)
unfolding create_pending
create_pending-runs s id n fresh = search (runs_rules, queue_runs, create-runs) depth 12

create_scheduled-runs :
    (s : Settings) (id : JobId) (n : NewJob) (at : Time)
    → IsFresh n
    → RunsByStatements (create_scheduled s id n at)
unfolding create_scheduled
create_scheduled-runs s id n at fresh = search (runs_rules, queue_runs, create-runs) depth 12

module _ (s : Settings) (sub : JobSubmission) (r : Request) (key hash : Option String)
    (user : AuthedUser) where
  pending-IsFresh : IsFresh (job_to_create s sub r key hash user pending none)
  unfolding job_to_create
  pending-IsFresh = now_due refl

  scheduled-IsFresh :
      (at : Time) → IsFresh (job_to_create s sub r key hash user scheduled (some at))
  unfolding job_to_create
  scheduled-IsFresh at = deferred refl refl

  create_and_handoff-runs : RunsByStatements (create_and_handoff s sub r key hash user)
  unfolding create_and_handoff
  create_and_handoff-runs =
      search
        (
          runs_rules, statements, create_pending-runs, create_scheduled-runs, pending-IsFresh,
          scheduled-IsFresh,
        )
        depth 12

replay_or_conflict-runs : (e : Option Job) (h : String) → RunsByStatements (replay_or_conflict e h)
unfolding replay_or_conflict
replay_or_conflict-runs e h = search runs_rules depth 12

pub submit_with_key-runs :
    (s : Settings) (sub : JobSubmission) (r : Request) (user : AuthedUser) (key : String)
    → RunsByStatements (submit_with_key s sub r user key)
unfolding submit_with_key
submit_with_key-runs s sub r user key =
    search (runs_rules, create_and_handoff-runs, replay_or_conflict-runs) depth 12

-- A submission runs by statements of the program.
pub submit_job-runs :
    (s : Settings) (a : Allowlists) (sub : JobSubmission) (r : Request) (user : AuthedUser)
    → RunsByStatements (submit_job s a sub r user)
unfolding submit_job
submit_job-runs s a sub r user =
    search (runs_rules, create_and_handoff-runs, submit_with_key-runs) depth 12

-- A retry does.
pub retry_job-runs :
    (s : Settings) (i : JobId) (user : AuthedUser) → RunsByStatements (retry_job s i user)
unfolding retry_job
retry_job-runs s i user = search (runs_rules, statements, queue_runs) depth 16

reply_with-runs : (code : ℕ) (i : JobId) → RunsByStatements (reply_with code i)
unfolding reply_with
reply_with-runs code i = search runs_rules depth 12

cancel_round-runs :
    (s : Settings) (i : JobId) (again : M (ℕ × JobOut))
    → RunsByStatements again
    → RunsByStatements (cancel_round s i again)
unfolding cancel_round
cancel_round-runs s i again h = search (runs_rules, statements, reply_with-runs) depth 16

cancel_rounds-runs : (n : ℕ) (s : Settings) (i : JobId) → RunsByStatements (cancel_rounds n s i)
unfolding cancel_rounds
cancel_rounds-runs zero s i = search runs_rules
cancel_rounds-runs (suc n) s i =
    cancel_round-runs s i (cancel_rounds n s i) (cancel_rounds-runs n s i)

-- A cancellation does.
pub cancel_job_route-runs :
    (s : Settings) (i : JobId) (user : AuthedUser) → RunsByStatements (cancel_job_route s i user)
unfolding cancel_job_route
cancel_job_route-runs s i user = search (runs_rules, cancel_rounds-runs) depth 12
