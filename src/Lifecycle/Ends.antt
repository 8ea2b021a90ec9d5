-- ===== src/Lifecycle/Ends.antt =====
-- How the three processes of app/ticker/runner.py, app/worker/runner.py and app/main.py can end.
use symmetrical_disco.Base.{
  ◌≡◌, refl, String, Bool, true, false, Option, none, some, List, [], ◌∷◌, ◌++◌, map, ◌==◌, ℕ,
  if◌then◌else◌,
}
use symmetrical_disco.Config.{Settings, ordered_streams}
use symmetrical_disco.Effects.{World, Result}
use symmetrical_disco.Queue.{GroupCreation}
use symmetrical_disco.Ticker.Loop.{Replies}
use symmetrical_disco.Lifecycle.{
  P, Resource, Event, opened, closed, grouped, limits_rates, running, shut_down, Closings,
  run_ticks, run_ticker, run_worker, serve_api, telemetry, engine, redis_client, health_server,
  sync_engine, sync_client, token_reviewer,
}
use symmetrical_disco.Lifecycle.Starts.{
  if_port, begins, start_up-Steps, ensure_groups-Steps, Steps-bind, Steps-note, Steps-if_set,
  Steps-ends,
}
use symmetrical_disco.Lifecycle.Lives.{
  Lives, NotesNothing, newborn, after_Steps, last_Steps, main-Lives, Closes, close-Closes,
  bind-Closes, if_some-Closes, if_set-Closes, first-Closes,
}

abbrev resource_number : Resource → ℕ
resource_number telemetry = 0
resource_number engine = 1
resource_number redis_client = 2
resource_number health_server = 3
resource_number sync_engine = 4
resource_number sync_client = 5
resource_number token_reviewer = 6

abbrev removed : Resource → List Resource → List Resource
removed r [] = []
removed r (q ∷ qs) = if resource_number r == resource_number q then qs else q ∷ removed r qs

-- The resources that are open behind some events, of those open before.
abbrev pub still_open : List Resource → List Event → List Resource
still_open l [] = l
still_open l (opened r ∷ events) = still_open (r ∷ l) events
still_open l (closed r ∷ events) = still_open (removed r l) events
still_open l (e ∷ events) = still_open l events

run_ticks-silent :
    (s : Settings) (iterations : List Replies) → NotesNothing (run_ticks s iterations)
unfolding run_ticks
run_ticks-silent s iterations p = refl

abbrev pub shuts : Settings → List Event
shuts s =
    if_port s.health_port (closed health_server ∷ [])
    ++ closed telemetry ∷ closed redis_client ∷ closed engine ∷ []

shut_down-Closes :
    (closings : Closings) (s : Settings) → Closes closings (shuts s) (shut_down s closings)
unfolding shut_down
shut_down-Closes closings s =
    bind-Closes closings (if_port s.health_port (closed health_server ∷ [])) _ _ _
      (if_some-Closes closings s.health_port (closed health_server ∷ []) _
        (close-Closes closings health_server))
      (first-Closes closings telemetry (closed redis_client ∷ closed engine ∷ []) _
        (first-Closes closings redis_client (closed engine ∷ []) _ (close-Closes closings engine)))

-- What the ticker opens and closes for its gauges.
abbrev pub sync_opened : Settings → List Event
sync_opened s = if s.otel_enabled then opened sync_engine ∷ opened sync_client ∷ [] else []

abbrev pub sync_closed : Settings → List Event
sync_closed s = if s.otel_enabled then closed sync_client ∷ closed sync_engine ∷ [] else []

-- Nothing is open behind a life that came to its end.
abbrev pub LeavesNothing : List Event → List Event → World → Type 0
LeavesNothing new closing w = still_open [] (new ++ running w.sent ∷ closing) ≡ []

ticker-LeavesNothing :
    (otel : Bool) (port : Option ℕ) (s : Settings) (w : World)
    → s.otel_enabled ≡ otel
    → s.health_port ≡ port
    → LeavesNothing (begins s ++ sync_opened s) (shuts s ++ sync_closed s) w
unfolding ordered_streams
ticker-LeavesNothing true none s w e h = rw (e, h) refl
ticker-LeavesNothing true (some port) s w e h = rw (e, h) refl
ticker-LeavesNothing false none s w e h = rw (e, h) refl
ticker-LeavesNothing false (some port) s w e h = rw (e, h) refl

ticker_Lives :
    (closings : Closings) (s : Settings) (health : Result (Unit {0}))
    (reply : String → GroupCreation) (iterations : List Replies) (w : World)
    → Lives closings
        (begins s ++ sync_opened s)
        (shuts s ++ sync_closed s)
        (newborn w)
        (run_ticker s health reply iterations closings (newborn w))
unfolding run_ticker
ticker_Lives closings s health reply iterations w =
    after_Steps (sync_opened s) _ _ (start_up-Steps s health reply)
      (last_Steps _ _
        (Steps-if_set s.otel_enabled (opened sync_engine ∷ opened sync_client ∷ []) _ (
          Steps-bind (opened sync_engine ∷ []) _ _ _ (Steps-note (opened sync_engine) refl)
            (Steps-note (opened sync_client) refl)))
        (main-Lives (run_ticks s iterations) (run_ticks-silent s iterations) _ _ (
          bind-Closes closings (shuts s) _ _ _ (shut_down-Closes closings s) (
            if_set-Closes closings s.otel_enabled (closed sync_client ∷ closed sync_engine ∷ []) _ (
              first-Closes closings sync_client (closed sync_engine ∷ []) _
                (close-Closes closings sync_engine))))))
      (newborn w)

worker-LeavesNothing :
    (port : Option ℕ) (s : Settings) (w : World)
    → s.health_port ≡ port
    → LeavesNothing (begins s) (shuts s) w
unfolding ordered_streams
worker-LeavesNothing none s w h = rw h refl
worker-LeavesNothing (some port) s w h = rw h refl

worker_Lives :
    (closings : Closings) (s : Settings) (health : Result (Unit {0}))
    (reply : String → GroupCreation) (loop : P (Unit {0})) (w : World)
    → NotesNothing loop
    → Lives closings
        (begins s)
        (shuts s)
        (newborn w)
        (run_worker s health reply loop closings (newborn w))
unfolding run_worker
worker_Lives closings s health reply loop w silent =
    last_Steps _ _ (start_up-Steps s health reply)
      (main-Lives loop silent (shuts s) _ (shut_down-Closes closings s)) (newborn w)

abbrev pub api_opened : Settings → List Event
api_opened s =
    opened telemetry
      ∷ opened engine
      ∷ opened redis_client
      ∷ opened token_reviewer
      ∷ map grouped (ordered_streams s)
    ++ (if s.is_rate_limit_enabled then limits_rates ∷ [] else [])

abbrev pub api_closed : List Event
api_closed = closed redis_client ∷ closed token_reviewer ∷ closed engine ∷ closed telemetry ∷ []

api-LeavesNothing :
    (limits : Bool) (s : Settings) (w : World)
    → s.is_rate_limit_enabled ≡ limits
    → LeavesNothing (api_opened s) api_closed w
unfolding ordered_streams
api-LeavesNothing true s w h = rw h refl
api-LeavesNothing false s w h = rw h refl

api_Lives :
    (closings : Closings) (s : Settings) (limiter : Result (Unit {0}))
    (reply : String → GroupCreation) (serving : P (Unit {0})) (w : World)
    → NotesNothing serving
    → Lives closings
        (api_opened s)
        api_closed
        (newborn w)
        (serve_api s limiter reply serving closings (newborn w))
unfolding serve_api
api_Lives closings s limiter reply serving w silent =
    after_Steps {a = opened telemetry ∷ []} _ _ _ (Steps-note (opened telemetry) refl)
      (after_Steps {a = opened engine ∷ []} _ _ _ (Steps-note (opened engine) refl) (
        after_Steps {a = opened redis_client ∷ []} _ _ _ (Steps-note (opened redis_client) refl) (
          after_Steps {a = opened token_reviewer ∷ []} _ _ _
            (Steps-note (opened token_reviewer) refl)
            (after_Steps _ _ _ (ensure_groups-Steps reply (ordered_streams s)) (
              last_Steps _ _
                (Steps-if_set s.is_rate_limit_enabled (limits_rates ∷ []) _
                  (Steps-bind [] _ _ _ (Steps-ends limiter) (Steps-note limits_rates refl)))
                (main-Lives serving silent api_closed _ (
                  first-Closes closings redis_client _ _ (
                    first-Closes closings token_reviewer _ _
                      (first-Closes closings engine _ _ (close-Closes closings telemetry))))))))))
      (newborn w)

-- Each of the three processes ends in one of these ways, in any world and whatever its settings. An
-- exception before its main part, as by a health server that does not start or a consumer group that
-- Redis refuses, ends it when it has sent nothing. Else the consumer group of each stream, in the
-- order of priority, was ensured before its main part began, when it had sent nothing yet. Then an
-- exception may leave the main part; or a call that closes a resource raises, and what comes before
-- it in the order is closed, and no more; or the process closes all that it has opened. The worker's
-- loop and what the API serves open and close nothing themselves.
pub processes-Lives :
    (closings : Closings) (s : Settings) (health limiter : Result (Unit {0}))
    (reply : String → GroupCreation) (iterations : List Replies) (loop serving : P (Unit {0}))
    (w : World)
    → NotesNothing loop
    → NotesNothing serving
    → (Lives closings
          (begins s ++ sync_opened s)
          (shuts s ++ sync_closed s)
          (newborn w)
          (run_ticker s health reply iterations closings (newborn w))
        × LeavesNothing (begins s ++ sync_opened s) (shuts s ++ sync_closed s) w)
      × (Lives closings
            (begins s)
            (shuts s)
            (newborn w)
            (run_worker s health reply loop closings (newborn w))
          × LeavesNothing (begins s) (shuts s) w)
      × (Lives closings
            (api_opened s)
            api_closed
            (newborn w)
            (serve_api s limiter reply serving closings (newborn w))
          × LeavesNothing (api_opened s) api_closed w)
processes-Lives closings s health limiter reply iterations loop serving w silent quiet = (
  (
    ticker_Lives closings s health reply iterations w,
    ticker-LeavesNothing s.otel_enabled s.health_port s w refl refl,
  ),
  (worker_Lives closings s health reply loop w silent, worker-LeavesNothing s.health_port s w refl),
  (
    api_Lives closings s limiter reply serving w quiet,
    api-LeavesNothing s.is_rate_limit_enabled s w refl,
  ),
)
