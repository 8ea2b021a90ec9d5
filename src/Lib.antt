-- ===== src/Lib.antt =====
-- A distributed job processor: an HTTP API that accepts jobs, workers that run them from Redis
-- streams, and a ticker that promotes delayed jobs, hands over rows that never reached Redis and takes
-- back messages whose worker died. PostgreSQL holds the truth about a job; Redis holds messages that
-- may be lost or delivered twice.
--
-- Base holds what every module shares. Then each module is a part of the program, and its child
-- modules are its proofs:
--   Models        app/schemas/enums.py, app/models/job.py: the enums, a row, JSON documents.
--   Config        app/core/config.py: the settings that the modelled code reads.
--   Repository    app/repository.py: the table as a list of rows, one function for each statement.
--                 Steps is the statements as a step relation, with the status diagram; Valid, Unique,
--                 History, Claims and Winners are what the statements keep and who wins a race.
--   Effects       the world that a handler runs over: the table, the commands sent to Redis, the
--                 measurements, and the moments to come. Each statement and each command takes the
--                 next moment, in which other processes have acted, time has passed and Redis is up
--                 or down. A handler is a function of the world into a result, a value or an
--                 exception, and the world after. Rules, Acks, Inversion and Alone are what the
--                 proofs about handlers share; `alone` worlds are those without other processes.
--                 Uninterrupted and Uncancelled are rules for blocks that stay alone, or raise no
--                 CancelledError.
--   Queue         app/queue: what is written to the streams and the delayed set, the priority read.
--   Listing       app/cursor.py and the SELECTs that return several rows: ORDER BY is an insertion
--                 sort. Order, Members, Pages and Walk are about sorting and cursor pages.
--   Cursor        app/cursor.py: the JSON document of a cursor, and how the route reads one. In
--                 Listing a cursor's text is the encoding of a key, or another text.
--   Retry         app/retry.py: Backoff is its delay, Decision the retry decision.
--   Worker        app/worker/runner.py, timeout.py: `process_job` and `handle_message`. Settle,
--                 Attempt, Acks, Served and GivesUp are its ends, whole attempts, acknowledgements,
--                 a delivery up to its acknowledgement, and repeated deliveries.
--   WorkerLoop    the main loop of app/worker/runner.py with its semaphore, and recycler.py.
--   Jobs          app/worker/context.py, app/jobs: the progress channel and the batch handler.
--   Ticker        app/ticker/runner.py: promotion, reconciliation and reaping. Loop is its main loop,
--                 an iteration being a function of the clocks and the world; Survival, Clock,
--                 Rounds and Outbox are about it. Takeover is the reaper on one running row, Told what a
--                 reconciliation tells Redis. Gauges are the callbacks of its metrics.
--   Payloads      app/schemas/payloads.py: the allowlists.
--   Auth          app/auth, app/api/deps.py: the token cache, the token review, get_current_user.
--   Middleware    app/api/middleware.py: the limit on a request's body.
--   RateLimit     app/api/ratelimit.py: the key of a counter and the dependency of a route.
--   Observability app/observability.py: live workers, jobs by status, readiness and statistics.
--   Health        app/core/healthcheck.py: the heartbeat and the replies of the health server. Server
--                 is its start and stop, Started the ends of its start.
--   Logging       app/core/logging.py: the bound context and the fields of a line.
--   Migrations    alembic/versions: Revisions holds the operations of each revision, Steps the run
--                 along their chain.
--   Routes        app/api/routes.py: submission, reads, retry, cancellation, listing.
--   System        all handlers together, over any interleaving.
--   Journey       a job from its submission over its worker to the reply with its result.
--   Recovery      a job whose worker has died, from the reaper to the worker that completes it.
--   Lifecycle     the three processes from start to end, `run_forever` of app/ticker/runner.py and of
--                 app/worker/runner.py and `create_app` of app/main.py: the resources they open and
--                 close, and the consumer groups. Starts, Lives and Ends are about them.
--   Telemetry     app/core/telemetry.py: what a process sets up and shuts down.
--   Tests         runs at concrete inputs, and the theorems at inputs that meet their hypotheses.
--
-- Names are those of the source. A stateful function of the source is a `do` block with the source's
-- order of statements; a class is a record, and its methods are functions of the record. Times are
-- microseconds and UUIDs numbers. An UPDATE is `update_where`, with its WHERE clause and its SET
-- clause; the unique index and the primary key are in `insert_row`.
--
-- What is not the program's own is an argument: the replies of Redis, the parse of pydantic, the
-- hashes, the random results of the job handlers, the apiserver's answers. Loops over lists recurse on
-- them, and the ticker's main loop on the replies of its iterations. Two loops have fuel:
-- `reconcile_loop`, for which one round more than there are rows to hand over is shown to be enough,
-- and the cancellation route, whose three rounds are the source's own.
--
-- Not modelled: wiring (the routes and middlewares that app/main.py installs, the `__main__` modules,
-- app/core/db.py, redis.py), the set-up of logging, OpenTelemetry's objects and the output of metrics,
-- the sockets of the health server, the script of fastapi-limiter, Alembic's own run, failures of the
-- database, and Redis and PostgreSQL themselves: what
-- the code relies on of their statements and commands is in the functions that stand for them.
pub mod Base
pub mod Models
pub mod Config
pub mod Cursor
pub mod Repository
pub mod Effects
pub mod Journey
pub mod Recovery
pub mod Health
pub mod Queue
pub mod RateLimit
pub mod Listing
pub mod Logging
pub mod Retry
pub mod Worker
pub mod WorkerLoop
pub mod Jobs
pub mod Ticker
pub mod Payloads
pub mod Routes
pub mod Auth
pub mod Middleware
pub mod Migrations
pub mod Observability
pub mod Lifecycle
pub mod System
pub mod Telemetry
pub mod Tests
