-- ===== src/Ticker/Loop.antt =====
-- The main loop of app/ticker/runner.py: the rounds that are due in one iteration, the times of the
-- last ones, and what becomes of an exception. An iteration's replies of Redis are arguments.
use symmetrical_disco.Base.{ℕ, ◌+◌, String, Option, none, some, List, [], ◌∷◌, leb, if◌then◌else◌}
use symmetrical_disco.Models.{JobId, Time}
use symmetrical_disco.Config.{Settings}
use symmetrical_disco.Health.{Heartbeat, beat}
use symmetrical_disco.Effects.{World, Result, ok, raise, Error, cancelled_error, Message, MessageId}
use symmetrical_disco.Ticker.{promote_due, reconcile_orphans, reap_stale}

-- The variables of the loop.
pub record Clocks : Type 0 where
  pub heartbeat : Heartbeat
  pub last_reconcile : Time
  pub last_reap : Time

abbrev pub start_clocks : Time → Clocks
start_clocks now = record { heartbeat = beat now; last_reconcile = 0; last_reap = 0 }

-- The replies of Redis in one iteration, and the fuel of its reconciliation.
pub record Replies : Type 0 where
  pub due : List JobId
  pub claimed : String → List (List (MessageId × Message))
  pub fuel : ℕ

-- How an iteration ends: by `continue`, by the sleep, by an exception that is logged and slept over,
-- by one that leaves the loop; or its reconciliation has run out of fuel.
pub data Turn : Type 0 where
  drains sleeps unfinished : Turn
  fails escapes : Error → Turn

abbrev pub Ticked : Type 0
Ticked = (Turn × Clocks) × World

-- `except Exception`, which a CancelledError is not.
unfoldable pub caught : Error → Turn
caught cancelled_error = escapes cancelled_error
caught e = fails e

-- The rest of the `try` block behind an `await`.
abbrev pub try_next : {A : Type 0} → Clocks → (A → World → Ticked) → Result A × World → Ticked
try_next c k (ok a, w) = k a w
try_next c k (raise e, w) = ((caught e, c), w)

abbrev pub end_tick : Settings → ℕ → Clocks → World → Ticked
end_tick s promoted c w = ((if leb s.ticker_batch_size promoted then drains else sleeps, c), w)

unfoldable pub reap_due : Settings → Replies → Time → ℕ → Clocks → World → Ticked
reap_due s r now promoted c w =
    if leb (c.last_reap + s.reaper_interval) now
    then try_next c (λ n. end_tick s promoted (record c { last_reap = now }))
        (reap_stale s r.claimed w)
    else end_tick s promoted c w

unfoldable pub after_reconcile : Settings → Replies → Time → ℕ → Clocks → Option ℕ → World → Ticked
unfolding reap_due
after_reconcile s r now promoted c none w = ((unfinished, c), w)
after_reconcile s r now promoted c (some n) w =
    reap_due s r now promoted (record c { last_reconcile = now }) w

unfoldable pub reconcile_due : Settings → Replies → Time → ℕ → Clocks → World → Ticked
unfolding reap_due after_reconcile
reconcile_due s r now promoted c w =
    if leb (c.last_reconcile + s.reconcile_interval) now
    then try_next c (after_reconcile s r now promoted c) (reconcile_orphans r.fuel s w)
    else reap_due s r now promoted c w

-- `time.time()` is read when the promotion is over.
unfoldable pub tick : Settings → Replies → Clocks → World → Ticked
unfolding reconcile_due
tick s r c w =
    let beaten : Clocks = record c { heartbeat = beat w.now } in
    try_next beaten (λ promoted v. reconcile_due s r v.now promoted beaten v)
      (promote_due s r.due w)

abbrev pub go_on : Turn → Ticked → Ticked → Ticked
go_on (escapes e) out next = out
go_on turn out next = next

-- The loop, until it is asked to stop after the iterations of a list.
unfoldable pub ticks : Settings → List Replies → Clocks → World → Ticked
unfolding tick
ticks s [] c w = ((sleeps, c), w)
ticks s (r ∷ rs) c w = let out = tick s r c w in go_on out.0.0 out (ticks s rs out.0.1 out.1)
