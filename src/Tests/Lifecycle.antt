-- ===== src/Tests/Lifecycle.antt =====
-- The start of a health server, and a life of each of the three processes.
use symmetrical_disco.Base.{
  ◌≡◌, refl, String, true, false, none, some, [], ◌∷◌, ◌++◌, str_eq, if◌then◌else◌,
}
use symmetrical_disco.Effects.{ok, raise, os_error, redis_error, runtime_error}
use symmetrical_disco.Queue.{GroupCreation, created, busy}
use symmetrical_disco.Health.Server.{
  bound, starting, started, new_server, start, reuses_address, binds, listens, unblocks, serves,
}
use symmetrical_disco.Health.Started.{Started, start-Started}
use symmetrical_disco.Lifecycle.{
  Closings, health_server, P, ◌>>=◌, serve_api, run_ticker, run_worker,
}
use symmetrical_disco.Lifecycle.Lives.{Lives, newborn}
use symmetrical_disco.Lifecycle.Ends.{
  LeavesNothing, sync_opened, sync_closed, shuts, api_opened, api_closed, processes-Lives,
}
use symmetrical_disco.Lifecycle.Starts.{begins}
use symmetrical_disco.Tests.Samples.{settings, world}

abbrev some_exist : String → GroupCreation
some_exist stream = if str_eq stream "jobs:stream:normal" then busy else created

abbrev idle : P (Unit {0})
idle p = (ok tt, p)

abbrev broken : P (Unit {0})
broken p = (raise redis_error, p)

-- The health server's task has crashed, so that its stop raises.
abbrev crashed : Closings
crashed health_server = raise runtime_error
crashed r = ok tt

-- A port that is chosen by the system, with a second look that finds the server started.
chosen_port : start false none (bound 40001) (starting ∷ started 40001 ∷ []) (new_server 0) ≡ (
  reuses_address ∷ binds 0 ∷ listens ∷ unblocks ∷ serves ∷ [],
  some (ok tt, record { port = 40001; has_task = true; should_exit = false }),
)
unfolding start
chosen_port = refl

start-Started_example :
    Started false none
      (bound 40001)
      (starting ∷ started 40001 ∷ [])
      (new_server 0)
      (start false none (bound 40001) (starting ∷ started 40001 ∷ []) (new_server 0))
start-Started_example =
    start-Started false none (bound 40001) (starting ∷ started 40001 ∷ []) (new_server 0)

-- A health server that does not start ends the ticker before its loop.
port_taken :
    (run_ticker settings (raise os_error) some_exist [] crashed (newborn world)).0 ≡ raise os_error
unfolding run_ticker ◌>>=◌
port_taken = refl

processes-Lives_example :
    (Lives crashed
        (begins settings ++ sync_opened settings)
        (shuts settings ++ sync_closed settings)
        (newborn world)
        (run_ticker settings (ok tt) some_exist [] crashed (newborn world))
      × LeavesNothing
          (begins settings ++ sync_opened settings)
          (shuts settings ++ sync_closed settings)
          world)
    × (Lives crashed
          (begins settings)
          (shuts settings)
          (newborn world)
          (run_worker settings (ok tt) some_exist broken crashed (newborn world))
        × LeavesNothing (begins settings) (shuts settings) world)
    × (Lives crashed
          (api_opened settings)
          api_closed
          (newborn world)
          (serve_api settings (ok tt) some_exist idle crashed (newborn world))
        × LeavesNothing (api_opened settings) api_closed world)
processes-Lives_example =
    processes-Lives crashed settings (ok tt) (ok tt) some_exist [] broken idle world (λ p. refl)
      (λ p. refl)
