-- ===== src/Tests/System.antt =====
-- The theorems about all processes, over a lawful world in which another worker claims a job while
-- the API cancels it, and the ticker reconciles and reaps.
use symmetrical_disco.Base.{◌≡◌, refl, true, false, none, some, List, [], ◌∷◌, All, inl}
use symmetrical_disco.Models.{Job, null}
use symmetrical_disco.Payloads.{single, report_params}
use symmetrical_disco.Repository.{find_job, has_id, claim_job}
use symmetrical_disco.Repository.Steps.{here, next, claim}
use symmetrical_disco.Repository.History.{Follows}
use symmetrical_disco.Repository.Valid.{IsValid}
use symmetrical_disco.Repository.Unique.{IsUnique}
use symmetrical_disco.Effects.{World, IsLawful, canonical}
use symmetrical_disco.Jobs.{Draws, Messages, gives}
use symmetrical_disco.System.{
  Deployment, Action, cancel, work, reconcile, act_all, act_all-wellformed, act_all-Follows,
  act_all-settled,
}
use symmetrical_disco.Tests.Samples.{
  settings, world, sample-IsValid, sample-IsUnique, waiting_job, done_job,
}

abbrev deployment : Deployment
deployment = record {
  settings = settings;
  allowlists = record { webhook_allowed_hosts = []; email_allowed_domains = [] };
  parse = λ t raw. some (single report_params);
}

-- Another worker claims job 7 between the first two statements.
abbrev contended : World
contended = record world {
  future =
      record { others = λ t. t; time = 2100; redis_up = true }
      ∷ record { others = λ t. (claim_job 2200 7 t).0; time = 2200; redis_up = true }
      ∷ [];
}

contended-IsLawful : IsLawful contended
contended-IsLawful = (λ t. here, (λ t. next (claim 2200 7 t) here, tt))

abbrev draws : Draws
draws = record { call = λ i x. gives null; expires = λ i. false; percent = λ i n. 100 }

abbrev texts : Messages
texts = record { timeout_text = ">45.0s"; policy_text = "no"; validation_text = "bad" }

abbrev script : List Action
script =
    cancel 7 (record { id = 1; name = "ann" })
    ∷ work draws texts "jobs:stream:normal" (record { ms = 2; seq = 0 })
        (record { job_id = some (canonical 7); trace = none })
    ∷ reconcile 5
    ∷ []

act_all-wellformed_example :
    All IsValid (act_all deployment script contended).table
    × IsUnique (act_all deployment script contended).table
act_all-wellformed_example =
    act_all-wellformed deployment script contended contended-IsLawful sample-IsValid sample-IsUnique

act_all-Follows_example :
    (k : Job) × (find_job (has_id 7) (act_all deployment script contended).table ≡ some k)
    × Follows waiting_job k
unfolding find_job
act_all-Follows_example = act_all-Follows deployment script contended contended-IsLawful 7 refl

act_all-settled_example :
    (k : Job) × (find_job (has_id 8) (act_all deployment script contended).table ≡ some k)
    × (k ≡ record done_job { is_synced_to_redis = k.is_synced_to_redis })
unfolding find_job
act_all-settled_example =
    act_all-settled deployment script contended contended-IsLawful 8 refl (inl refl)
