-- ===== src/Ticker/Survival.antt =====
-- What an iteration of the main loop of app/ticker/runner.py leaves: its clocks, and the next
-- iteration.
use symmetrical_disco.Base.{◌≡◌, refl, Bool, true, false}
use symmetrical_disco.Effects.{
  Error, cancelled_error, index_error, attribute_error, key_error, value_error, validation_error,
  integrity_error, redis_error, runtime_error, type_error, os_error, http_error,
}
use symmetrical_disco.Ticker.Loop.{Turn, drains, sleeps, escapes, caught}

abbrev pub escaped : Turn → Bool
escaped (escapes e) = true
escaped turn = false

-- The iteration came to the end of its `try` block.
abbrev pub finished : Turn → Bool
finished drains = true
finished sleeps = true
finished turn = false

pub caught-finished : (e : Error) → finished (caught e) ≡ false
unfolding caught
caught-finished cancelled_error = refl
caught-finished index_error = refl
caught-finished attribute_error = refl
caught-finished key_error = refl
caught-finished value_error = refl
caught-finished validation_error = refl
caught-finished integrity_error = refl
caught-finished redis_error = refl
caught-finished type_error = refl
caught-finished os_error = refl
caught-finished runtime_error = refl
caught-finished (http_error n) = refl
