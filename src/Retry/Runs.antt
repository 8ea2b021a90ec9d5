-- ===== src/Retry/Runs.antt =====
-- The retry decision of app/retry.py as statements of app/repository.py.
use symmetrical_disco.Base.{ℕ, Option}
use symmetrical_disco.Models.{Job, Json}
use symmetrical_disco.Config.{Settings}
use symmetrical_disco.Effects.{RunsByStatements}
use symmetrical_disco.Effects.Rules.{runs_rules, statements}
use symmetrical_disco.Queue.Runs.{queue_runs}
use symmetrical_disco.Retry.{schedule_retry_or_fail, retry_now, retry_later, fail_permanently}

retry_now-runs : (s : Settings) (j : Job) (c : Option Json) → RunsByStatements (retry_now s j c)
unfolding retry_now
retry_now-runs s j c = search (runs_rules, queue_runs, statements) depth 12

retry_later-runs : (s : Settings) (j : Job) (d : ℕ) → RunsByStatements (retry_later s j d)
unfolding retry_later
retry_later-runs s j d = search (runs_rules, queue_runs, statements) depth 12

fail_permanently-runs : (j : Job) (e : Json) → RunsByStatements (fail_permanently j e)
unfolding fail_permanently
fail_permanently-runs j e = search (runs_rules, queue_runs, statements) depth 12

pub schedule_retry_or_fail-runs :
    (s : Settings) (j : Job) (e : Json) (c : Option Json)
    → RunsByStatements (schedule_retry_or_fail s j e c)
unfolding schedule_retry_or_fail
schedule_retry_or_fail-runs s j e c =
    search (runs_rules, retry_now-runs, retry_later-runs, fail_permanently-runs) depth 12
