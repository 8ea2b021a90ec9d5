-- ===== src/Tests/Routes.antt =====
-- The routes at the sample table.
use symmetrical_disco.Base.{arith, ◌∷◌, ◌≡◌, refl, true, false, none, some, String, []}
use symmetrical_disco.Models.{Job, null, email, normal}
use symmetrical_disco.Config.{stream_for_priority}
use symmetrical_disco.Repository.{find_job, has_id, get_by_idempotency_key, create_job, insert_row}
use symmetrical_disco.Effects.{World, advance, ok, raise, http_error, redis_error}
use symmetrical_disco.Effects.Alone.{alone}
use symmetrical_disco.Auth.Identity.{AuthedUser}
use symmetrical_disco.Routes.{
  JobSubmission, Request, accepted, job_to_create, submit_with_key, cancel_job_route, get_job_route,
  retry_job,
}
use symmetrical_disco.Routes.Cancel.{Cancelled, Replies, cancel_job_route-Cancelled}
use symmetrical_disco.Routes.Idempotency.{
  answer_for, row, after, submit_with_key-raced, inserted_as, submit_with_key-twice,
}
use symmetrical_disco.Routes.Ownership.{routes-unowned}
use symmetrical_disco.Routes.Outage.{submit_with_key-outage}
use symmetrical_disco.Listing.{is_unsynced}
use symmetrical_disco.Tests.Samples.{sample, sample-IsUnique, settings, world, waiting_job}

abbrev ann : AuthedUser
ann = record { id = 1; name = "ann" }

abbrev bob : AuthedUser
bob = record { id = 2; name = "bob" }

find_waiting : find_job (has_id 7) sample ≡ some waiting_job
unfolding find_job
find_waiting = refl

cancel_job_route-Cancelled_example :
    Replies
      (Cancelled settings waiting_job 2000)
      7
      []
      (cancel_job_route settings 7 ann (alone true sample 2000 [] []))
cancel_job_route-Cancelled_example =
    cancel_job_route-Cancelled settings sample waiting_job 2000 [] [] sample-IsUnique find_waiting
      ann refl

routes-unowned_example :
    (get_job_route 7 bob world ≡ (raise (http_error 404), world))
    × (retry_job settings 7 bob world ≡ (raise (http_error 404), world))
    × (cancel_job_route settings 7 bob world ≡ (raise (http_error 404), world))
routes-unowned_example = routes-unowned settings 7 bob world (refl, (refl, (refl, tt)))

abbrev submission : JobSubmission
submission = record {
  type = email;
  payload = null;
  priority = normal;
  scheduled_at = none;
  idempotency_key = some "k";
}

abbrev request : Request
request = record { new_id = 12; carrier = none; payload_hash = "h"; parsed = none }

abbrev later_request : Request
later_request = record request { new_id = 13 }

find_key : get_by_idempotency_key "k" 1 sample ≡ some waiting_job
unfolding get_by_idempotency_key find_job
find_key = refl

key_is_new : get_by_idempotency_key "n" 1 sample ≡ none
unfolding get_by_idempotency_key find_job
key_is_new = refl

submit_with_key-twice_example :
    (stream : String) × (stream_for_priority settings normal ≡ some stream)
    × (submit_with_key settings submission request ann "n" (alone true sample 2000 [] []) ≡ (
      ok (202, accepted (row settings submission request ann "n" sample 2000 [] [])),
      after settings submission request ann "n" sample 2000 [] [] stream,
    ))
    × (submit_with_key settings submission later_request ann "n"
          (after settings submission request ann "n" sample 2000 [] [] stream)
        ≡ (
          ok (200, accepted (row settings submission request ann "n" sample 2000 [] [])),
          after settings submission request ann "n" sample 2000 [] [] stream,
        ))
unfolding job_to_create
submit_with_key-twice_example =
    submit_with_key-twice settings submission request ann "n" sample 2000 [] [] submission
      later_request refl refl key_is_new refl

abbrev rival : Job
rival = record waiting_job { id = 20; idempotency_key = some "n"; created_at = 1999 }

-- Another request with the key inserts its row just before ours.
abbrev raced : World
raced = record world {
  future =
      record { others = λ t. t; time = 2100; redis_up = true }
      ∷ record { others = λ t. rival ∷ t; time = 2200; redis_up = false }
      ∷ record { others = λ t. t; time = 2300; redis_up = false }
      ∷ [];
}

rival_is_found : get_by_idempotency_key "n" 1 (rival ∷ sample) ≡ some rival
unfolding get_by_idempotency_key find_job
rival_is_found = refl

insert_fails :
    create_job 12 2200 (inserted_as settings submission request ann "n" none) (rival ∷ sample)
    ≡ none
unfolding create_job insert_row job_to_create
insert_fails = refl

submit_with_key-raced_example :
    submit_with_key settings submission request ann "n" raced
    ≡ (answer_for rival "h", advance (advance (advance raced)))
submit_with_key-raced_example =
    submit_with_key-raced settings submission request ann "n" raced rival key_is_new insert_fails
      rival_is_found

abbrev lost_row : Job
lost_row = row settings submission request ann "n" sample 2000 [] []

submit_with_key-outage_example :
    (submit_with_key settings submission request ann "n" (alone false sample 2000 [] [])
      ≡ (raise redis_error, alone false (lost_row ∷ sample) 2000 [] []))
    × (is_unsynced 3000 lost_row ≡ true)
    × (submit_with_key settings submission later_request ann "n"
          (alone true (lost_row ∷ sample) 9000 [] [])
        ≡ (ok (200, accepted lost_row), alone true (lost_row ∷ sample) 9000 [] []))
unfolding job_to_create
submit_with_key-outage_example =
    submit_with_key-outage settings submission request ann "n" sample 2000 [] [] submission
      later_request true 9000 3000 refl refl key_is_new refl (ground arith)
