-- ===== src/Tests/Attempts.antt =====
-- The theorems about the retry decision and about a worker's attempt, at the sample table.
use symmetrical_disco.Base.{◌≡◌, refl, true, false, none, some, [], ◌∷◌, arith}
use symmetrical_disco.Models.{Job, null}
use symmetrical_disco.Config.{Settings}
use symmetrical_disco.Repository.{find_job, has_id}
use symmetrical_disco.Effects.{ok, raise, index_error, M, Label}
use symmetrical_disco.Effects.Alone.{alone}
use symmetrical_disco.Retry.{backoff_delay, schedule_retry_or_fail}
use symmetrical_disco.Retry.Backoff.{delays, backoff_delay-delays}
use symmetrical_disco.Retry.Decision.{
  Decided, Leaves, schedule_retry_or_fail-Decided, schedule_retry_or_fail-empty,
}
use symmetrical_disco.Worker.{HandlerRun, returned, settle, process_job}
use symmetrical_disco.Worker.Settle.{Ended, Acknowledges, settle-lost}
use symmetrical_disco.Worker.Attempt.{begun, claimed_row, process_job-Ended}
use symmetrical_disco.Tests.Samples.{
  sample, sample-IsUnique, settings, waiting_job, running_job, world,
}

abbrev hasty : Settings
hasty = record settings { retry_backoff_schedule = [] }

abbrev quick : Job → M HandlerRun
quick j w = (ok (returned null), w)

find_running : find_job (has_id 9) sample ≡ some running_job
unfolding find_job
find_running = refl

find_waiting : find_job (has_id 7) sample ≡ some waiting_job
unfolding find_job
find_waiting = refl

third_delay : backoff_delay 3 (0 ∷ 30 ∷ 120 ∷ []) ≡ some 120
unfolding backoff_delay
third_delay = refl

-- A negative index counts from the end.
delay_before_the_first : backoff_delay 0 (0 ∷ 30 ∷ 120 ∷ []) ≡ some 120
unfolding backoff_delay
delay_before_the_first = refl

backoff_delay-delays_example :
    backoff_delay 9 (0 ∷ 30 ∷ 120 ∷ []) ≡ some (delays 8 0 (30 ∷ 120 ∷ []))
backoff_delay-delays_example = backoff_delay-delays 8 0 (30 ∷ 120 ∷ [])

schedule_retry_or_fail-Decided_example :
    Leaves
      (Decided settings running_job 2000 null none)
      9
      []
      (schedule_retry_or_fail settings running_job null none (alone true sample 2000 [] []))
schedule_retry_or_fail-Decided_example =
    schedule_retry_or_fail-Decided settings sample running_job 2000 [] [] sample-IsUnique
      find_running refl null none 0 (30 ∷ 120 ∷ []) refl

schedule_retry_or_fail-empty_example :
    schedule_retry_or_fail hasty running_job null none world ≡ (raise index_error, world)
schedule_retry_or_fail-empty_example =
    schedule_retry_or_fail-empty hasty running_job null none world refl (ground arith)

settle-lost_example :
    (l : Label) × ((settle settings waiting_job (returned null) (alone true sample 2000 [] [])).0
      ≡ ok (record { acks = false; label = l }))
    × ((settle settings waiting_job (returned null) (alone true sample 2000 [] [])).1.table
        ≡ sample)
    × ((settle settings waiting_job (returned null) (alone true sample 2000 [] [])).1.sent ≡ [])
settle-lost_example =
    settle-lost settings sample waiting_job 2000 [] [] 0 (30 ∷ 120 ∷ []) (returned null)
      (refl, (refl, (refl, tt))) refl (λ e. cc)

process_job-Ended_example :
    Acknowledges
      (Ended settings (begun (claimed_row 2000 waiting_job)) 2000 (returned null))
      7
      []
      (process_job settings quick 7 (alone true sample 2000 [] []))
process_job-Ended_example =
    process_job-Ended settings quick 2000 [] [] 0 (30 ∷ 120 ∷ []) refl (returned null) (λ j w. refl)
      (λ e. cc) sample waiting_job 1 sample-IsUnique find_waiting refl refl
