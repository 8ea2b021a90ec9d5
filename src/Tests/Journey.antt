-- ===== src/Tests/Journey.antt =====
-- A submission to the sample table, carried out a second later.
use symmetrical_disco.Base.{◌≡◌, refl, true, none, some, String, [], ◌∷◌}
use symmetrical_disco.Models.{Job, null, email, normal}
use symmetrical_disco.Config.{stream_for_priority}
use symmetrical_disco.Repository.{find_job, get_by_idempotency_key}
use symmetrical_disco.Effects.{M, ok, MessageId}
use symmetrical_disco.Effects.Alone.{alone}
use symmetrical_disco.Auth.Identity.{AuthedUser}
use symmetrical_disco.Worker.{HandlerRun, returned}
use symmetrical_disco.Routes.{JobSubmission, Request, accepted, job_to_create, submit_with_key}
use symmetrical_disco.Routes.Idempotency.{row, after}
use symmetrical_disco.Journey.{CarriedOut, submit_with_key-CarriedOut}
use symmetrical_disco.Tests.Samples.{sample, sample-IsUnique, settings}

abbrev ann : AuthedUser
ann = record { id = 1; name = "ann" }

abbrev submission : JobSubmission
submission = record {
  type = email;
  payload = null;
  priority = normal;
  scheduled_at = none;
  idempotency_key = some "n";
}

abbrev request : Request
request = record { new_id = 12; carrier = none; payload_hash = "h"; parsed = none }

abbrev quick : Job → M HandlerRun
quick j w = (ok (returned null), w)

abbrev delivery : MessageId
delivery = record { ms = 2; seq = 0 }

key_is_new : get_by_idempotency_key "n" 1 sample ≡ none
unfolding get_by_idempotency_key find_job
key_is_new = refl

submit_with_key-CarriedOut_example :
    (stream : String) × (stream_for_priority settings normal ≡ some stream)
    × (submit_with_key settings submission request ann "n" (alone true sample 2000 [] []) ≡ (
      ok (202, accepted (row settings submission request ann "n" sample 2000 [] [])),
      after settings submission request ann "n" sample 2000 [] [] stream,
    ))
    × CarriedOut settings submission request ann "n" sample 2000 [] [] quick 1002000 [] 0
        (30 ∷ 120 ∷ [])
        refl
        null
        (λ j w. refl)
        delivery
        stream
unfolding job_to_create
submit_with_key-CarriedOut_example =
    submit_with_key-CarriedOut settings submission request ann "n" sample 2000 [] [] quick 1002000
      [] 0 (30 ∷ 120 ∷ []) refl null (λ j w. refl) delivery sample-IsUnique refl key_is_new refl
