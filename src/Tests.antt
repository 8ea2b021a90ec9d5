-- ===== src/Tests.antt =====
-- Runs of the model at concrete tables and worlds, and the theorems at inputs that meet their
-- hypotheses.
mod Lifecycle
mod Recovery
mod Samples
mod Statements
mod Journey
mod GivesUp
mod Loop
mod Outbox
mod Health
mod Stats
mod Migrations
mod Logging
mod Cursor
mod RateLimit
mod System
mod Attempts
mod Jobs
mod Auth
mod Middleware
mod Listing
mod Acks
mod Routes
mod Ticker
mod Payloads
mod WorkerLoop
mod Observability
