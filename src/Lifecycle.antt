-- ===== src/Lifecycle.antt =====
-- From start to end of the three processes: `run_forever` of app/ticker/runner.py and of
-- app/worker/runner.py, and `create_app` with its lifespan of app/main.py. The resources that a
-- process opens are third-party objects: an event tells that one was opened or closed. The end of the
-- health server's start, the replies to XGROUP CREATE, the end of a worker's loop and the ends of the
-- calls that close are arguments.
pub mod Starts
pub mod Lives
pub mod Ends
use symmetrical_disco.Base.{
  ℕ, String, Bool, true, false, Option, none, some, List, [], ◌∷◌, ◌++◌, if◌then◌else◌,
}
use symmetrical_disco.Models.{Time}
use symmetrical_disco.Config.{Settings, ordered_streams}
use symmetrical_disco.Effects.{World, M, Result, ok, raise, Command, Error}
use symmetrical_disco.Queue.{GroupCreation, ensure_group}
use symmetrical_disco.Ticker.Loop.{Replies, Turn, escapes, start_clocks, ticks}

-- `telemetry` is what `configure_telemetry` sets up, if anything.
pub data Resource : Type 0 where
  telemetry engine redis_client health_server sync_engine sync_client token_reviewer : Resource

-- `running` has the commands that were sent before.
pub data Event : Type 0 where
  opened closed : Resource → Event
  grouped : String → Event
  limits_rates : Event
  running : List Command → Event

pub record Process : Type 0 where
  pub world : World
  pub events : List Event

abbrev pub P : Type 0 → Type 0
P A = Process → Result A × Process

abbrev pub then_next : {A B : Type 0} → (A → P B) → Result A × Process → Result B × Process
then_next f (ok a, p) = f a p
then_next f (raise e, p) = (raise e, p)

infixl 5 ◌>>=◌ ◌>>◌
unfoldable pub ◌>>=◌ : {A B : Type 0} → P A → (A → P B) → P B
◌>>=◌ m f p = then_next f (m p)

abbrev pub ◌>>◌ : {B : Type 0} → P (Unit {0}) → P B → P B
m >> k = m >>= λ _. k

unfoldable pub note : Event → P (Unit {0})
note e p = (ok tt, record p { events = p.events ++ e ∷ [] })

-- Code that runs over the world.
unfoldable pub over_world : {A : Type 0} → M A → P A
over_world m p = let (r, w) = m p.world in (r, record p { world = w })

unfoldable pub note_running : P (Unit {0})
unfolding note
note_running p = note (running p.world.sent) p

abbrev pub skip : P (Unit {0})
skip p = (ok tt, p)

-- An awaited call of code that is not modelled here, by its end.
abbrev pub ends : Result (Unit {0}) → P (Unit {0})
ends r p = (r, p)

abbrev pub if_set : Bool → P (Unit {0}) → P (Unit {0})
if_set b m = if b then m else skip

abbrev pub if_some : Option ℕ → P (Unit {0}) → P (Unit {0})
if_some none m = skip
if_some (some port) m = m

unfoldable pub ensure_groups : (String → GroupCreation) → List String → P (Unit {0})
unfolding note over_world
ensure_groups reply [] = skip
ensure_groups reply (stream ∷ streams) = do
  over_world (ensure_group (reply stream))
  note (grouped stream)
  ensure_groups reply streams

-- What the worker and the ticker start with.
unfoldable pub start_up : Settings → Result (Unit {0}) → (String → GroupCreation) → P (Unit {0})
unfolding ensure_groups note
start_up s health reply = do
  note (opened telemetry)
  note (opened engine)
  note (opened redis_client)
  if_some s.health_port do ends health; note (opened health_server)
  ensure_groups reply (ordered_streams s)

-- The ends of the calls that close the resources.
abbrev pub Closings : Type 0
Closings = Resource → Result (Unit {0})

-- A call that closes a resource. `health_server.stop()` awaits the task that serves, so it raises
-- what the task has raised.
unfoldable pub close : Closings → Resource → P (Unit {0})
unfolding note
close closings r = do ends (closings r); note (closed r)

-- What they end with.
unfoldable pub shut_down : Settings → Closings → P (Unit {0})
unfolding close
shut_down s closings = do
  if_some s.health_port (close closings health_server)
  close closings telemetry
  close closings redis_client
  close closings engine

abbrev pub left_by : Turn → Result (Unit {0})
left_by (escapes e) = raise e
left_by turn = ok tt

-- The main loop, until it is asked to stop, or an exception leaves it. The heartbeat that the start
-- has made is beaten first of all.
unfoldable pub run_ticks : Settings → List Replies → P (Unit {0})
run_ticks s iterations p =
    let out = ticks s iterations (start_clocks p.world.now) p.world in
    (left_by out.0.0, record p { world = out.1 })

-- `run_forever` of the ticker.
unfoldable pub run_ticker :
    Settings → Result (Unit {0}) → (String → GroupCreation) → List Replies → Closings → P (Unit {0})
unfolding start_up shut_down close run_ticks note note_running
run_ticker s health reply iterations closings = do
  start_up s health reply
  if_set s.otel_enabled do note (opened sync_engine); note (opened sync_client)
  note_running
  run_ticks s iterations
  shut_down s closings
  if_set s.otel_enabled do close closings sync_client; close closings sync_engine

-- `run_forever` of the worker. `loop` is the task group with the loop in it.
unfoldable pub run_worker :
    Settings → Result (Unit {0}) → (String → GroupCreation) → P (Unit {0}) → Closings → P (Unit {0})
unfolding start_up shut_down note_running
run_worker s health reply loop closings = do
  start_up s health reply
  note_running
  loop
  shut_down s closings

-- `create_app`, and then the lifespan: `limiter` is the end of `FastAPILimiter.init`, `serving` what
-- the application does at the `yield`.
unfoldable pub serve_api :
    Settings → Result (Unit {0}) → (String → GroupCreation) → P (Unit {0}) → Closings → P (Unit {0})
unfolding ensure_groups close note note_running
serve_api s limiter reply serving closings = do
  note (opened telemetry)
  note (opened engine)
  note (opened redis_client)
  note (opened token_reviewer)
  ensure_groups reply (ordered_streams s)
  if_set s.is_rate_limit_enabled do ends limiter; note limits_rates
  note_running
  serving
  close closings redis_client
  close closings token_reviewer
  close closings engine
  close closings telemetry
