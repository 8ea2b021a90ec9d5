-- ===== src/Ticker/Runs.antt =====
-- The ticker of app/ticker/runner.py as statements of app/repository.py.
use symmetrical_disco.Base.{ℕ, zero, suc, ◌+◌, String, Option, none, some, List, [], ◌∷◌}
use symmetrical_disco.Models.{Job, JobId, Time}
use symmetrical_disco.Config.{Settings}
use symmetrical_disco.Effects.{Message, MessageId, RunsByStatements}
use symmetrical_disco.Effects.Rules.{
  runs_rules, statements, runs-bind, runs-pure, runs-on_none, runs-ask,
}
use symmetrical_disco.Queue.Runs.{queue_runs}
use symmetrical_disco.Retry.Runs.{schedule_retry_or_fail-runs}
use symmetrical_disco.Ticker.{
  Info, meta_of, route_due, promote_ids, promote_due, hand_over, hand_over_delayed, reconcile_row,
  reconcile_rows, reconcile_loop, report_total, reconcile_orphans, finish_handoff, reap_row,
  reap_one, reap_messages, reap_pages, reap_streams, reap_stale,
}

route_due-runs :
    (s : Settings) (info : Info) (is : List JobId) → RunsByStatements (route_due s info is)
unfolding route_due
route_due-runs s info [] = search runs_rules
route_due-runs s info (i ∷ is) = runs-on_none (meta_of i info) _ _ (route_due-runs s info is) λ m.
    runs-bind _ _ (search runs_rules)
      (λ stream. runs-bind _ _ (route_due-runs s info is) (λ routed. runs-pure _))

promote_ids-runs : (s : Settings) (is : List JobId) → RunsByStatements (promote_ids s is)
unfolding promote_ids
promote_ids-runs s [] = search runs_rules
promote_ids-runs s (i ∷ is) = search (runs_rules, statements, queue_runs, route_due-runs) depth 12

-- A promotion round runs by statements of the program.
pub promote_due-runs : (s : Settings) (due : List JobId) → RunsByStatements (promote_due s due)
unfolding promote_due
promote_due-runs s due = search (runs_rules, promote_ids-runs) depth 12

hand_over-runs : (s : Settings) (j : Job) → RunsByStatements (hand_over s j)
unfolding hand_over
hand_over-runs s j = search (runs_rules, statements, queue_runs) depth 12

hand_over_delayed-runs :
    (s : Settings) (j : Job) (at : Time) → RunsByStatements (hand_over_delayed s j at)
unfolding hand_over_delayed
hand_over_delayed-runs s j at = search (runs_rules, statements, queue_runs) depth 12

ruleset handing = (hand_over-runs, hand_over_delayed-runs)

reconcile_row-runs : (s : Settings) (j : Job) → RunsByStatements (reconcile_row s j)
unfolding reconcile_row
reconcile_row-runs s j = search (runs_rules, handing) depth 12

reconcile_rows-runs :
    (s : Settings) (js : List Job) (n : ℕ) → RunsByStatements (reconcile_rows s js n)
unfolding reconcile_rows
reconcile_rows-runs s [] n = search runs_rules
reconcile_rows-runs s (j ∷ js) n =
    runs-bind _ _ (reconcile_row-runs s j) (λ m. reconcile_rows-runs s js (n + m))

reconcile_loop-runs :
    (fuel : ℕ) (s : Settings) (cutoff : Time) (n : ℕ)
    → RunsByStatements (reconcile_loop fuel s cutoff n)
unfolding reconcile_loop
reconcile_loop-runs zero s cutoff n = search runs_rules
reconcile_loop-runs (suc fuel) s cutoff n =
    search (runs_rules, reconcile_rows-runs, reconcile_loop-runs fuel s cutoff) depth 12

report_total-runs : (o : Option ℕ) → RunsByStatements (report_total o)
report_total-runs none = search runs_rules
report_total-runs (some n) = search runs_rules

-- A reconciliation runs by statements of the program.
pub reconcile_orphans-runs : (fuel : ℕ) (s : Settings) → RunsByStatements (reconcile_orphans fuel s)
unfolding reconcile_orphans
reconcile_orphans-runs fuel s = search (runs_rules, reconcile_loop-runs, report_total-runs) depth 12

finish_handoff-runs : (s : Settings) (j : Job) → RunsByStatements (finish_handoff s j)
unfolding finish_handoff
finish_handoff-runs s j = search (runs_rules, handing) depth 12

reap_row-runs : (s : Settings) (j : Job) → RunsByStatements (reap_row s j)
unfolding reap_row
reap_row-runs s j = search (runs_rules, schedule_retry_or_fail-runs, finish_handoff-runs) depth 12

pub reap_one-runs :
    (s : Settings) (stream : String) (m : MessageId) (i : JobId)
    → RunsByStatements (reap_one s stream m i)
unfolding reap_one
reap_one-runs s stream m i = search (runs_rules, queue_runs, reap_row-runs) depth 12

reap_messages-runs :
    (s : Settings) (stream : String) (l : List (MessageId × Message))
    → RunsByStatements (reap_messages s stream l)
unfolding reap_messages
reap_messages-runs s stream [] = search runs_rules
reap_messages-runs s stream ((m, fields) ∷ l) =
    runs-bind _ _ (search (runs_rules, queue_runs, reap_one-runs))
      (λ _. runs-bind _ _ (reap_messages-runs s stream l) (λ n. runs-pure (suc n)))

reap_pages-runs :
    (s : Settings) (stream : String) (l : List (List (MessageId × Message)))
    → RunsByStatements (reap_pages s stream l)
unfolding reap_pages
reap_pages-runs s stream [] = search runs_rules
reap_pages-runs s stream (p ∷ ps) = runs-bind _ _ (runs-ask p) λ l.
    runs-bind _ _ (reap_messages-runs s stream l)
      (λ n. runs-bind _ _ (reap_pages-runs s stream ps) (λ m. runs-pure (n + m)))

reap_streams-runs :
    (s : Settings) (claimed : String → List (List (MessageId × Message))) (l : List String)
    → RunsByStatements (reap_streams s claimed l)
unfolding reap_streams
reap_streams-runs s claimed [] = search runs_rules
reap_streams-runs s claimed (x ∷ xs) =
    runs-bind _ _ (reap_pages-runs s x (claimed x))
      λ n. runs-bind _ _ (reap_streams-runs s claimed xs) (λ m. runs-pure (n + m))

-- A reaping round runs by statements of the program.
pub reap_stale-runs :
    (s : Settings) (claimed : String → List (List (MessageId × Message)))
    → RunsByStatements (reap_stale s claimed)
unfolding reap_stale
reap_stale-runs s claimed = search (runs_rules, reap_streams-runs) depth 12
