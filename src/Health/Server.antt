-- ===== src/Health/Server.antt =====
-- The start and the stop of the `HealthServer` of app/core/healthcheck.py. What the socket and
-- uvicorn do is an argument: the end of the bind, and what each look at the server finds.
use symmetrical_disco.Base.{
  ℕ, Bool, true, false, Option, none, some, List, [], ◌∷◌, ◌++◌, if◌then◌else◌,
}
use symmetrical_disco.Effects.{Result, ok, raise, Error, runtime_error}

-- `port`, whether `_task` is set, and `should_exit` of the uvicorn server.
pub record HealthServer : Type 0 where
  pub port : ℕ
  pub has_task : Bool
  pub should_exit : Bool

abbrev pub new_server : ℕ → HealthServer
new_server port = record { port = port; has_task = false; should_exit = false }

-- The calls on the socket, and the creation of the task that serves on it.
pub data SocketCall : Type 0 where
  reuses_address listens unblocks closes serves : SocketCall
  binds : ℕ → SocketCall

-- How `bind` ends: with the port of the socket, or with an exception.
pub data Binding : Type 0 where
  bound : ℕ → Binding
  refused : Error → Binding

-- What a look at the server finds: `started`, with the port of its socket; not yet; or its task is
-- done, by its return or by an exception.
pub data Look : Type 0 where
  started : ℕ → Look
  starting returned : Look
  crashed : Error → Look

-- `while not self._server.started`. The looks are those until the start returns or raises; `none` is
-- a start that is still waiting behind them.
unfoldable pub await_started : List Look → HealthServer → Option (Result (Unit {0}) × HealthServer)
await_started [] h = none
await_started (started port ∷ looks) h = some (ok tt, record h { port = port })
await_started (starting ∷ looks) h = await_started looks h
await_started (returned ∷ looks) h = some (raise runtime_error, h)
await_started (crashed e ∷ looks) h = some (raise e, h)

abbrev pub Start : Type 0
Start = List SocketCall × Option (Result (Unit {0}) × HealthServer)

-- From the bind on, behind the calls `before`.
unfoldable pub bind_and_serve : List SocketCall → Binding → List Look → HealthServer → Start
unfolding await_started
bind_and_serve before (bound port) looks h = (
  before ++ binds h.port ∷ listens ∷ unblocks ∷ serves ∷ [],
  await_started looks (record h { port = port; has_task = true }),
)
bind_and_serve before (refused e) looks h =
    (before ++ binds h.port ∷ closes ∷ [], some (raise e, h))

abbrev pub with_option : Option Error → Binding → List Look → HealthServer → Start
with_option none binding looks h = bind_and_serve (reuses_address ∷ []) binding looks h
with_option (some e) binding looks h = (reuses_address ∷ closes ∷ [], some (raise e, h))

-- `setsockopt`, whose exception is `option_error`, is called on every platform but Windows.
unfoldable pub start : Bool → Option Error → Binding → List Look → HealthServer → Start
unfolding bind_and_serve
start on_windows option_error binding looks h =
    if on_windows
    then bind_and_serve [] binding looks h
    else with_option option_error binding looks h

-- The second component is whether the task is awaited.
unfoldable pub stop : HealthServer → HealthServer × Bool
stop h = (record h { should_exit = true }, h.has_task)
