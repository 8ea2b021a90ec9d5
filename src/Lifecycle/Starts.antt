-- ===== src/Lifecycle/Starts.antt =====
-- The steps before the main loops of app/ticker/runner.py and app/worker/runner.py, and before the
-- `yield` of the lifespan of app/main.py.
use symmetrical_disco.Base.{
  ◌≡◌, refl, ap, ◌∙◌, String, Bool, true, false, Option, none, some, List, [], ◌∷◌, ◌++◌, any, map,
  arith, ℕ, sym, if◌then◌else◌,
}
use mathlib.Core.List.{append-nil, append_assoc}
use symmetrical_disco.Config.{Settings, ordered_streams}
use symmetrical_disco.Effects.{World, M, Result, ok, raise, Error, ask, ◌>>=◌ as then_do}
use symmetrical_disco.Effects.Inversion.{arrive-sent}
use symmetrical_disco.Queue.{GroupCreation, created, busy, refused, ensure_group}
use symmetrical_disco.Lifecycle.{
  Process, P, Event, opened, grouped, running, then_next, ◌>>=◌, ◌>>◌, note, over_world, skip, ends,
  if_set, if_some, ensure_groups, start_up, telemetry, engine, redis_client, health_server,
}

abbrev pub is_running : Event → Bool
is_running (running c) = true
is_running e = false

-- Steps that note the events `new`, unless they raise, and send nothing.
pub data Prepares (new : List Event) (p : Process) (out : Result (Unit {0}) × Process)
    : Type 0 where
  prepared :
      out.0 ≡ ok tt
      → out.1.events ≡ p.events ++ new
      → out.1.world.sent ≡ p.world.sent
      → Prepares new p out
  gave_up :
      (e : Error) (events : List Event)
      → out.0 ≡ raise e
      → out.1.events ≡ p.events ++ events
      → any is_running events ≡ false
      → out.1.world.sent ≡ p.world.sent
      → Prepares new p out

pub record Steps (new : List Event) (m : P (Unit {0})) : Type 0 where
  pub prepares : (p : Process) → Prepares new p (m p)
  pub early : any is_running new ≡ false

pub Steps-skip : Steps [] skip
Steps-skip = record { prepares = λ p. prepared refl (sym (append-nil p.events)) refl; early = refl }

pub Steps-note : (e : Event) → is_running e ≡ false → Steps (e ∷ []) (note e)
unfolding note
Steps-note e h = record { prepares = λ p. prepared refl refl refl; early = ground arith }

pub Steps-ends : (r : Result (Unit {0})) → Steps [] (ends r)
Steps-ends (ok tt) = record {
  prepares = λ p. prepared refl (sym (append-nil p.events)) refl;
  early = refl;
}
Steps-ends (raise e) = record {
  prepares = λ p. gave_up e [] refl (sym (append-nil p.events)) refl refl;
  early = refl;
}

pub any-append :
    (p : Event → Bool) (xs ys : List Event)
    → any p xs ≡ false
    → any p ys ≡ false
    → any p (xs ++ ys) ≡ false
any-append p [] ys h k = k
any-append p (x ∷ xs) ys h k = ground (arith, any-append p xs ys)

Prepares-bind :
    (a b : List Event) (k : P (Unit {0})) (p : Process) (q : Result (Unit {0}) × Process)
    → any is_running a ≡ false
    → ((v : Process) → Prepares b v (k v))
    → Prepares a p q
    → Prepares (a ++ b) p (then_next (λ _. k) q)
Prepares-bind a b k p q early rest (gave_up e events r noted h sent) =
    rw r (gave_up e events refl noted h sent)
Prepares-bind a b k p q early rest (prepared r noted sent) = rw r (go_on (rest q.1))
  where
    go_on : Prepares b q.1 (k q.1) → Prepares (a ++ b) p (k q.1)
    go_on (prepared r' noted' sent') =
        prepared r' (noted' ∙ ap (λ l. l ++ b) noted ∙ append_assoc p.events a b) (sent' ∙ sent)
    go_on (gave_up e events r' noted' h sent') =
        gave_up e (a ++ events) r'
          (noted' ∙ ap (λ l. l ++ events) noted ∙ append_assoc p.events a events)
          (any-append is_running a events early h) (sent' ∙ sent)

pub Steps-bind :
    (a b : List Event) (m k : P (Unit {0})) → Steps a m → Steps b k → Steps (a ++ b) (m >> k)
unfolding ◌>>=◌
Steps-bind a b m k sm sk = record {
  prepares = λ p. Prepares-bind a b k p (m p) sm.early sk.prepares (sm.prepares p);
  early = any-append is_running a b sm.early sk.early;
}

pub Steps-if_set :
    (b : Bool) (new : List Event) (m : P (Unit {0}))
    → Steps new m
    → Steps (if b then new else []) (if_set b m)
Steps-if_set true new m s = s
Steps-if_set false new m s = Steps-skip

abbrev pub if_port : Option ℕ → List Event → List Event
if_port none new = []
if_port (some port) new = new

pub Steps-if_some :
    (o : Option ℕ) (new : List Event) (m : P (Unit {0}))
    → Steps new m
    → Steps (if_port o new) (if_some o m)
Steps-if_some none new m s = Steps-skip
Steps-if_some (some port) new m s = s

group-sent : (reply : GroupCreation) (w : World) → (ensure_group reply w).1.sent ≡ w.sent
unfolding ensure_group then_do ask
group-sent created w = ground (arith, arrive-sent w.future w)
group-sent busy w = ground (arith, arrive-sent w.future w)
group-sent refused w = ground (arith, arrive-sent w.future w)

Steps-over_world :
    (m : M (Unit {0})) → ((w : World) → (m w).1.sent ≡ w.sent) → Steps [] (over_world m)
unfolding over_world
Steps-over_world m quiet = record { prepares = λ p. over (m p.world) (quiet p.world); early = refl }
  where
    over :
        {p : Process}
        → (q : Result (Unit {0}) × World) → q.1.sent ≡ p.world.sent
        → Prepares [] p (q.0, record p { world = q.1 })
    over {p} (ok tt, w) h = prepared refl (sym (append-nil p.events)) h
    over {p} (raise e, w) h = gave_up e [] refl (sym (append-nil p.events)) refl h

pub ensure_groups-Steps :
    (reply : String → GroupCreation) (streams : List String)
    → Steps (map grouped streams) (ensure_groups reply streams)
unfolding ensure_groups
ensure_groups-Steps reply [] = Steps-skip
ensure_groups-Steps reply (x ∷ xs) =
    Steps-bind [] _ _ _ (Steps-over_world (ensure_group (reply x)) (group-sent (reply x))) (
      Steps-bind (grouped x ∷ []) _ _ _ (Steps-note (grouped x) refl)
        (ensure_groups-Steps reply xs))

abbrev pub begins : Settings → List Event
begins s =
    opened telemetry
      ∷ opened engine
      ∷ opened redis_client
      ∷ if_port s.health_port (opened health_server ∷ [])
    ++ map grouped (ordered_streams s)

pub start_up-Steps :
    (s : Settings) (health : Result (Unit {0})) (reply : String → GroupCreation)
    → Steps (begins s) (start_up s health reply)
unfolding start_up
start_up-Steps s health reply =
    Steps-bind (opened telemetry ∷ []) _ _ _ (Steps-note (opened telemetry) refl) (
      Steps-bind (opened engine ∷ []) _ _ _ (Steps-note (opened engine) refl) (
        Steps-bind (opened redis_client ∷ []) _ _ _ (Steps-note (opened redis_client) refl) (
          Steps-bind _ _ _ _
            (Steps-if_some s.health_port (opened health_server ∷ []) _
              (Steps-bind [] _ _ _ (Steps-ends health) (Steps-note (opened health_server) refl)))
            (ensure_groups-Steps reply (ordered_streams s)))))
