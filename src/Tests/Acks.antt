-- ===== src/Tests/Acks.antt =====
-- The theorems about acknowledgements, in a world in which the reaper fails a job while its worker
-- still runs.
use symmetrical_disco.Base.{refl, true, none, some, [], ◌∷◌}
use symmetrical_disco.Models.{Job, null}
use symmetrical_disco.Repository.{fail_job}
use symmetrical_disco.Effects.{World, M, Message, MessageId, canonical, ok, xack}
use symmetrical_disco.Effects.Acks.{Handled, AcksNothing}
use symmetrical_disco.Worker.{HandlerRun, returned, handle_message}
use symmetrical_disco.Worker.Acks.{outcome_acks, handle_message-Handled}
use symmetrical_disco.Ticker.{reap_one}
use symmetrical_disco.Ticker.Acks.{always, reap_one-Handled}
use symmetrical_disco.Tests.Samples.{settings, world}

abbrev raced : World
raced = record world {
  future =
      record { others = λ t. t; time = 2100; redis_up = true }
      ∷ record { others = λ t. (fail_job 2200 7 null t).0; time = 2200; redis_up = true }
      ∷ [];
}

abbrev quick : Job → M HandlerRun
quick j w = (ok (returned null), w)

quick-AcksNothing : (j : Job) → AcksNothing (quick j)
quick-AcksNothing j = record { quiet = λ w. refl }

abbrev message_id : MessageId
message_id = record { ms = 2; seq = 0 }

abbrev message : Message
message = record { job_id = some (canonical 7); trace = none }

handle_message-Handled_example :
    Handled outcome_acks
      (xack "jobs:stream:normal" "workers" message_id)
      []
      (handle_message settings quick "jobs:stream:normal" message_id message raced).0
      (handle_message settings quick "jobs:stream:normal" message_id message raced).1.sent
handle_message-Handled_example =
    handle_message-Handled settings quick quick-AcksNothing "jobs:stream:normal" message_id message
      raced

reap_one-Handled_example :
    Handled always
      (xack "jobs:stream:normal" "workers" message_id)
      []
      (reap_one settings "jobs:stream:normal" message_id 9 raced).0
      (reap_one settings "jobs:stream:normal" message_id 9 raced).1.sent
reap_one-Handled_example = reap_one-Handled settings "jobs:stream:normal" message_id 9 raced
