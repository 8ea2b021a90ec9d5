-- ===== src/Tests/Outbox.antt =====
-- A submission that Redis was not told of, and an iteration of the ticker a minute later.
use symmetrical_disco.Base.{refl, true, false, [], ◌∷◌, arith, All}
use symmetrical_disco.Models.{Job}
use symmetrical_disco.Repository.{Table}
use symmetrical_disco.Repository.Valid.{IsValid}
use symmetrical_disco.Repository.Unique.{IsUnique}
use symmetrical_disco.Effects.Alone.{alone}
use symmetrical_disco.Ticker.Loop.{Replies, start_clocks, Clocks, tick}
use symmetrical_disco.Ticker.Outbox.{Drained, tick-Drained}
use symmetrical_disco.Tests.Samples.{settings, waiting_job, done_job}

abbrev forgotten : Job
forgotten = record waiting_job { is_synced_to_redis = false }

abbrev table : Table
table = forgotten ∷ done_job ∷ []

table-IsValid : All IsValid table
table-IsValid = ground arith

table-IsUnique : IsUnique table
table-IsUnique = (refl, (refl, tt))

abbrev idle : Replies
idle = record { due = []; claimed = λ s. []; fuel = 5 }

-- The reaper has run a second ago.
abbrev clocks : Clocks
clocks = record (start_clocks 0) { last_reap = 60000000 }

tick-Drained_example :
    Drained settings 51000000 table (tick settings idle clocks (alone true table 61000000 [] []))
tick-Drained_example =
    tick-Drained settings idle clocks table 61000000 [] [] (ground arith) (ground arith)
      (ground arith) table-IsValid table-IsUnique (ground arith)
