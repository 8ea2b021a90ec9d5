-- ===== src/Telemetry.antt =====
-- app/core/telemetry.py: what is set up and shut down in a process. Handlers and providers are the
-- numbers of the objects; what OpenTelemetry does with them is not modelled.
pub mod Shutdown
use symmetrical_disco.Base.{
  ℕ, Bool, true, false, not, Option, none, some, List, [], ◌∷◌, ◌++◌, ◌==◌, any, keep,
  if◌then◌else◌,
}
use symmetrical_disco.Models.{Json, object, Fields}

-- `_state`, the handlers of the root logger, and the providers that are not shut down.
pub record Telemetry : Type 0 where
  pub handlers : List ℕ
  pub providers : List ℕ
  pub root_handlers : List ℕ
  pub running : List ℕ

-- How far the `try` block comes: to its end; up to the providers `created`; or with every provider
-- created and the handler added, but the instrumentation raises.
pub data SetUp : Type 0 where
  completes : SetUp
  raises_early : List ℕ → SetUp
  raises_late : SetUp

abbrev pub set_up : SetUp → ℕ → List ℕ → Telemetry → Telemetry
set_up completes handler providers s = record s {
  handlers = s.handlers ++ handler ∷ [];
  providers = providers;
  root_handlers = s.root_handlers ++ handler ∷ [];
  running = s.running ++ providers;
}
set_up (raises_early created) handler providers s = record s { running = s.running ++ created }
set_up raises_late handler providers s = record s {
  handlers = s.handlers ++ handler ∷ [];
  root_handlers = s.root_handlers ++ handler ∷ [];
  running = s.running ++ providers;
}

unfoldable pub configure_telemetry : Bool → SetUp → ℕ → List ℕ → Telemetry → Telemetry
configure_telemetry otel_enabled run handler providers s =
    if otel_enabled then set_up run handler providers s else s

-- The list without those of another.
abbrev pub without : List ℕ → List ℕ → List ℕ
without gone l = keep (λ x. not (any (λ y. y == x) gone)) l

unfoldable pub shutdown_telemetry : Telemetry → Telemetry
shutdown_telemetry s = record {
  handlers = [];
  providers = [];
  root_handlers = without s.handlers s.root_handlers;
  running = without s.providers s.running;
}

-- `carrier or None`: `injected` is what OpenTelemetry writes into an empty dict.
unfoldable pub current_trace_carrier : Fields → Option Json
current_trace_carrier Fields.end = none
current_trace_carrier carrier = some (object carrier)
