-- ===== src/Tests/GivesUp.antt =====
-- Four deliveries of a job with four attempts, whose handler raises each time.
use symmetrical_disco.Base.{◌≡◌, refl, some, List, [], ◌∷◌, arith}
use symmetrical_disco.Models.{Job, Time}
use symmetrical_disco.Repository.{find_job, has_id}
use symmetrical_disco.Effects.{M, ok, MessageId}
use symmetrical_disco.Worker.{HandlerRun, raised}
use symmetrical_disco.Worker.GivesUp.{IsGivenUp, deliveries, deliveries-IsGivenUp}
use symmetrical_disco.Tests.Samples.{sample, sample-IsUnique, settings, world, waiting_job}

abbrev broken : Job → M HandlerRun
broken j w = (ok (raised "ValueError" "bad"), w)

abbrev times : List (Time × MessageId)
times =
    (3000, record { ms = 2; seq = 0 })
    ∷ (4000, record { ms = 3; seq = 0 })
    ∷ (31000000, record { ms = 30000; seq = 0 })
    ∷ (160000000, record { ms = 150000; seq = 0 })
    ∷ []

waiting_is_found : find_job (has_id 7) sample ≡ some waiting_job
unfolding find_job
waiting_is_found = refl

deliveries-IsGivenUp_example :
    IsGivenUp settings broken 0
      (30 ∷ 120 ∷ [])
      refl
      "ValueError"
      "bad"
      (λ j w. refl)
      "jobs:stream:normal"
      1
      7
      4
      (deliveries settings broken 0
        (30 ∷ 120 ∷ [])
        refl
        "ValueError"
        "bad"
        (λ j w. refl)
        "jobs:stream:normal"
        1
        7
        times
        world).table
deliveries-IsGivenUp_example =
    deliveries-IsGivenUp settings broken 0 (30 ∷ 120 ∷ []) refl "ValueError" "bad" (λ j w. refl)
      "jobs:stream:normal" 1 7 times world waiting_job refl (ground arith) refl sample-IsUnique
      waiting_is_found refl refl
