-- ===== src/Jobs/Runs.antt =====
-- The running handlers of app/worker/context.py and app/jobs as statements.
use symmetrical_disco.Base.{ℕ, suc, List, [], ◌∷◌, Option}
use symmetrical_disco.Models.{Job, JobId, JobType, Json, Time}
use symmetrical_disco.Config.{Settings}
use symmetrical_disco.Payloads.{
  Item, Payload, single, items, Allowlists, Validation, valid, malformed_payload, not_allowed,
}
use symmetrical_disco.Effects.{RunsByStatements}
use symmetrical_disco.Effects.Rules.{runs_rules, statements}
use symmetrical_disco.Jobs.{
  Context, poll, is_cancelled, Summary, Draws, batch_loop, handle_batch, Messages, run_payload,
  run_validated, run_attempt,
}

poll-runs : (i : JobId) (now : Time) (c : Context) → RunsByStatements (poll i now c)
unfolding poll
poll-runs i now c = search (runs_rules, statements) depth 12

is_cancelled-runs :
    (interval : ℕ) (i : JobId) (c : Context) → RunsByStatements (is_cancelled interval i c)
unfolding is_cancelled
is_cancelled-runs interval i c = search (runs_rules, poll-runs) depth 12

batch_loop-runs :
    (d : Draws) (interval : ℕ) (i : JobId) (n k : ℕ) (xs : List Item) (c : Context) (s : Summary)
    → RunsByStatements (batch_loop d interval i n k xs c s)
unfolding batch_loop
batch_loop-runs d interval i n k [] c s = search runs_rules
batch_loop-runs d interval i n k (x ∷ xs) c s =
    search (runs_rules, is_cancelled-runs, batch_loop-runs d interval i n (suc k) xs) depth 12

run_payload-runs :
    (d : Draws) (m : Messages) (interval : ℕ) (i : JobId) (p : Payload)
    → RunsByStatements (run_payload d m interval i p)
unfolding run_payload handle_batch
run_payload-runs d m interval i (single x) = search runs_rules depth 12
run_payload-runs d m interval i (items xs) = search (runs_rules, batch_loop-runs) depth 12

run_validated-runs :
    (d : Draws) (m : Messages) (interval : ℕ) (i : JobId) (v : Validation)
    → RunsByStatements (run_validated d m interval i v)
unfolding run_validated
run_validated-runs d m interval i malformed_payload = search runs_rules
run_validated-runs d m interval i not_allowed = search runs_rules
run_validated-runs d m interval i (valid p) = run_payload-runs d m interval i p

pub run_attempt-runs :
    (s : Settings) (a : Allowlists) (parse : JobType → Json → Option Payload) (d : Draws)
    (m : Messages) (j : Job)
    → RunsByStatements (run_attempt s a parse d m j)
unfolding run_attempt
run_attempt-runs s a parse d m j = run_validated-runs d m s.cancel_poll_interval j.id _
