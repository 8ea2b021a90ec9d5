-- ===== src/Tests/Recovery.antt =====
-- The sample's running job, whose worker has died on its first attempt.
use symmetrical_disco.Base.{◌≡◌, refl, true, some, none, [], ◌∷◌}
use symmetrical_disco.Models.{Job, null}
use symmetrical_disco.Repository.{find_job, has_id, get_job, retry_to_pending, update_where}
use symmetrical_disco.Config.{stream_for_priority}
use symmetrical_disco.Retry.{schedule_retry_or_fail, backoff_delay}
use symmetrical_disco.Effects.{M, MessageId, ok, xadd, xack, query, transact, send, ◌>>=◌}
use symmetrical_disco.Effects.Alone.{alone}
use symmetrical_disco.Queue.{message_fields, enqueue, ack}
use symmetrical_disco.Worker.{HandlerRun, returned}
use symmetrical_disco.Ticker.{reap_one}
use symmetrical_disco.Ticker.Takeover.{Reaped}
use symmetrical_disco.Recovery.{Recovered, reap_one-Recovered}
use symmetrical_disco.Tests.Samples.{sample, sample-IsUnique, settings, world, running_job}

abbrev quick : Job → M HandlerRun
quick j w = (ok (returned null), w)

abbrev delivery : MessageId
delivery = record { ms = 2; seq = 0 }

running_is_found : find_job (has_id 9) sample ≡ some running_job
unfolding find_job
running_is_found = refl

-- The schedule's first delay is 0, so the job is sent again at once, before the acknowledgement.
taken_over :
    (reap_one settings "jobs:stream:normal" delivery 9 world).1.sent
    ≡ xadd "jobs:stream:normal" (message_fields 9 none)
      ∷ xack "jobs:stream:normal" "workers" delivery
      ∷ []
unfolding reap_one query get_job find_job ◌>>=◌ schedule_retry_or_fail transact retry_to_pending
    update_where enqueue send ack stream_for_priority backoff_delay
taken_over = refl

reap_one-Recovered_example :
    Reaped settings running_job 2000 [] "jobs:stream:normal" delivery
      (reap_one settings "jobs:stream:normal" delivery 9 (alone true sample 2000 [] []))
    × Recovered settings quick 0
        (30 ∷ 120 ∷ [])
        refl
        null
        (λ j w. refl)
        running_job
        (reap_one settings "jobs:stream:normal" delivery 9 (alone true sample 2000 [] [])).1.table
reap_one-Recovered_example =
    reap_one-Recovered settings quick 0 (30 ∷ 120 ∷ []) refl null (λ j w. refl) running_job 2000 []
      "jobs:stream:normal" delivery 1 sample [] sample-IsUnique running_is_found refl refl
