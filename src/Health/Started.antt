-- ===== src/Health/Started.antt =====
-- How the start of the `HealthServer` of app/core/healthcheck.py can end.
use symmetrical_disco.Base.{
  ℕ, zero, suc, ◌≡◌, refl, ap, Bool, true, false, Option, none, some, List, [], ◌∷◌, ◌++◌,
}
use symmetrical_disco.Effects.{Result, ok, raise, Error, runtime_error}
use symmetrical_disco.Health.Server.{
  HealthServer, SocketCall, closes, serves, reuses_address, Binding, bound, refused, binds, listens,
  unblocks, Look, started, starting, returned, crashed, Start, await_started, bind_and_serve, start,
}

-- Looks that find the server not yet started, before the others.
abbrev pub after_waiting : ℕ → List Look → List Look
after_waiting zero looks = looks
after_waiting (suc n) looks = starting ∷ after_waiting n looks

-- The error that a task which is done leaves to the start.
pub data Surfaces : Look → Error → Type 0 where
  by_return : Surfaces returned runtime_error
  by_crash : (e : Error) → Surfaces (crashed e) e

pub data Awaited (looks : List Look) (h : HealthServer)
    : Option (Result (Unit {0}) × HealthServer) → Type 0 where
  serving :
      (n port : ℕ) (rest : List Look)
      → looks ≡ after_waiting n (started port ∷ rest)
      → Awaited looks h (some (ok tt, record h { port = port }))
  task_ended :
      (n : ℕ) (look : Look) (rest : List Look) (e : Error)
      → looks ≡ after_waiting n (look ∷ rest)
      → Surfaces look e
      → Awaited looks h (some (raise e, h))
  waiting : (n : ℕ) → looks ≡ after_waiting n [] → Awaited looks h none

one_more :
    {looks : List Look} {h : HealthServer} {o : Option (Result (Unit {0}) × HealthServer)}
    → Awaited looks h o
    → Awaited (starting ∷ looks) h o
one_more (serving n port rest e) = serving (suc n) port rest (ap (λ l. starting ∷ l) e)
one_more (task_ended n look rest x e s) =
    task_ended (suc n) look rest x (ap (λ l. starting ∷ l) e) s
one_more (waiting n e) = waiting (suc n) (ap (λ l. starting ∷ l) e)

await_started-Awaited :
    (looks : List Look) (h : HealthServer) → Awaited looks h (await_started looks h)
unfolding await_started
await_started-Awaited [] h = waiting 0 refl
await_started-Awaited (started port ∷ looks) h = serving 0 port looks refl
await_started-Awaited (starting ∷ looks) h = one_more (await_started-Awaited looks h)
await_started-Awaited (returned ∷ looks) h =
    task_ended 0 returned looks runtime_error refl by_return
await_started-Awaited (crashed e ∷ looks) h = task_ended 0 (crashed e) looks e refl (by_crash e)

-- The calls before the bind, if they come through.
pub data Opened : Bool → Option Error → List SocketCall → Type 0 where
  plain : (o : Option Error) → Opened true o []
  reused : Opened false none (reuses_address ∷ [])

-- How the start ends, by the ends of `setsockopt` and `bind`.
pub data Started (on_windows : Bool) (o : Option Error) (binding : Binding) (looks : List Look)
    (h : HealthServer) : Start → Type 0 where
  option_fails :
      (e : Error)
      → on_windows ≡ false
      → o ≡ some e
      → Started on_windows o binding looks h (reuses_address ∷ closes ∷ [], some (raise e, h))
  bind_fails :
      (before : List SocketCall) (e : Error)
      → Opened on_windows o before
      → binding ≡ refused e
      → Started on_windows o binding looks h
          (before ++ binds h.port ∷ closes ∷ [], some (raise e, h))
  listening :
      (before : List SocketCall) (port : ℕ) {end : Option (Result (Unit {0}) × HealthServer)}
      → Opened on_windows o before
      → binding ≡ bound port
      → Awaited looks (record h { port = port; has_task = true }) end
      → Started on_windows o binding looks h
          (before ++ binds h.port ∷ listens ∷ unblocks ∷ serves ∷ [], end)

bind_and_serve-Started :
    {on_windows : Bool} {o : Option Error} (before : List SocketCall) (binding : Binding)
    (looks : List Look) (h : HealthServer)
    → Opened on_windows o before
    → Started on_windows o binding looks h (bind_and_serve before binding looks h)
unfolding bind_and_serve
bind_and_serve-Started before (bound port) looks h p =
    listening before port p refl (await_started-Awaited looks _)
bind_and_serve-Started before (refused e) looks h p = bind_fails before e p refl

-- How the start of a health server ends. An exception of `setsockopt`, which is not called on
-- Windows, or of the bind closes the socket and comes out of the start, without a task. A bind that
-- succeeds is followed by the listening and the task, to which the socket is left; then the start
-- returns, with the port of the server, exactly if it finds the server started before it finds the
-- task done; a task that is done makes it raise, the task's own exception or RuntimeError; and until
-- then it waits.
pub start-Started :
    (on_windows : Bool) (option_error : Option Error) (binding : Binding) (looks : List Look)
    (h : HealthServer)
    → Started on_windows option_error binding looks h
        (start on_windows option_error binding looks h)
unfolding start
start-Started true o binding looks h = bind_and_serve-Started [] binding looks h (plain o)
start-Started false none binding looks h =
    bind_and_serve-Started (reuses_address ∷ []) binding looks h reused
start-Started false (some e) binding looks h = option_fails e refl refl
