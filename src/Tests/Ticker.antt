-- ===== src/Tests/Ticker.antt =====
-- The reconciliation of a table with two rows that Redis was not told of, in batches of one.
use symmetrical_disco.Base.{true, false, some, [], ◌∷◌, arith, All}
use symmetrical_disco.Models.{Job, scheduled}
use symmetrical_disco.Config.{Settings}
use symmetrical_disco.Repository.{Table}
use symmetrical_disco.Repository.Valid.{IsValid}
use symmetrical_disco.Effects.Alone.{alone}
use symmetrical_disco.Ticker.{reconcile_loop}
use symmetrical_disco.Ticker.Reconcile.{Done, reconcile_loop-Done}
use symmetrical_disco.Tests.Samples.{settings, waiting_job, done_job}

abbrev one_by_one : Settings
one_by_one = record settings { reconcile_batch_size = 1 }

abbrev forgotten : Job
forgotten = record waiting_job { is_synced_to_redis = false }

abbrev deferred : Job
deferred = record forgotten { id = 11; status = scheduled; scheduled_at = some 9000 }

abbrev table : Table
table = forgotten ∷ done_job ∷ deferred ∷ []

table-IsValid : All IsValid table
table-IsValid = ground arith

reconcile_loop-Done_example :
    Done one_by_one 2000 [] 1500 (reconcile_loop 3 one_by_one 1500 0 (alone true table 2000 [] []))
reconcile_loop-Done_example =
    reconcile_loop-Done one_by_one 2000 [] 3 1500 0 table [] (ground arith) table-IsValid
      (ground arith)
