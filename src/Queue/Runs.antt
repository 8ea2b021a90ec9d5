-- ===== src/Queue/Runs.antt =====
-- The queue commands of app/queue and the table.
use symmetrical_disco.Base.{String, Option, List, [], ◌∷◌}
use symmetrical_disco.Models.{JobId, Json, Time}
use symmetrical_disco.Effects.{Message, MessageId, RunsByStatements, xadd}
use symmetrical_disco.Effects.Rules.{runs_rules, runs-bind, runs-send}
use symmetrical_disco.Queue.{enqueue, schedule, send_all, promote, ack}

pub enqueue-runs :
    (stream : String) (i : JobId) (c : Option Json) → RunsByStatements (enqueue stream i c)
unfolding enqueue
enqueue-runs stream i c = search runs_rules

pub schedule-runs : (zset : String) (i : JobId) (at : Time) → RunsByStatements (schedule zset i at)
unfolding schedule
schedule-runs zset i at = search runs_rules

pub ack-runs : (stream group : String) (m : MessageId) → RunsByStatements (ack stream group m)
unfolding ack
ack-runs stream group m = search runs_rules

pub send_all-runs : (routed : List (String × Message)) → RunsByStatements (send_all routed)
unfolding send_all
send_all-runs [] = search runs_rules
send_all-runs ((stream, m) ∷ rest) =
    runs-bind _ _ (runs-send (xadd stream m)) (λ _. send_all-runs rest)

pub promote-runs :
    (zset : String) (routed : List (String × Message)) (is : List JobId)
    → RunsByStatements (promote zset routed is)
unfolding promote
promote-runs zset routed [] = search runs_rules
promote-runs zset routed (i ∷ is) = search (runs_rules, send_all-runs)

pub ruleset queue_runs = (enqueue-runs, schedule-runs, ack-runs, promote-runs)
