-- ===== src/Tests/Stats.antt =====
-- The statistics of the sample table, while a stream does not exist yet.
use symmetrical_disco.Base.{◌≡◌, true, some, [], ◌∷◌}
use symmetrical_disco.Models.{JobStatus}
use symmetrical_disco.Effects.{ok}
use symmetrical_disco.Effects.Alone.{alone}
use symmetrical_disco.Observability.Stats.{Results, Stats, GroupInfo, fetched, nogroup, stats}
use symmetrical_disco.Observability.Totals.{count}
use symmetrical_disco.Observability.Ages.{IsOldest, stats-Totals}
use symmetrical_disco.Tests.Samples.{sample, settings}

abbrev workers : GroupInfo
workers = record { name = "workers"; lag = some 4; pending = 1 }

abbrev replies : Results
replies = record {
  groups = fetched (workers ∷ []) ∷ nogroup ∷ fetched [] ∷ [];
  consumers = fetched (("w1", 5) ∷ ("reaper", 7) ∷ []) ∷ nogroup ∷ fetched [] ∷ [];
  zcard = fetched 2;
}

stats-Totals_example :
    (r : Stats) × (stats settings replies (alone true sample 2000 [] [])
      ≡ (ok r, alone true sample 2000 [] []))
    × ((st : JobStatus) → r.by_status st ≡ count st sample)
    × IsOldest sample 2000 r.oldest_pending_age
stats-Totals_example =
    stats-Totals settings replies sample 2000 [] [] (tt, (tt, (tt, tt))) (tt, (tt, (tt, tt))) tt
