-- ===== src/Health.antt =====
-- app/core/healthcheck.py: the heartbeat of a main loop, the age from which it counts as hung, and
-- what the two routes of the health server reply. The clock is `time.monotonic()`; a probe's outcome
-- is an argument.
pub mod Ready
pub mod Server
pub mod Started
use symmetrical_disco.Base.{
  ℕ, ◌+◌, ◌-◌, ◌*◌, String, Bool, true, false, ◌&&◌, Option, none, some, List, [], ◌∷◌, leb, ltb,
  if◌then◌else◌,
}
use symmetrical_disco.Models.{Time}
use symmetrical_disco.Config.{Settings}
use symmetrical_disco.Effects.{Result, ok, raise, Error}

unfoldable pub worker_heartbeat_threshold : Settings → ℕ
worker_heartbeat_threshold s = s.block_ms * 1000 + s.job_handler_timeout + 10000000

unfoldable pub ticker_heartbeat_threshold : Settings → ℕ
ticker_heartbeat_threshold s =
    if ltb 10000000 (5 * s.ticker_interval) then 5 * s.ticker_interval else 10000000

pub record Heartbeat : Type 0 where
  pub last : Time

abbrev pub beat : Time → Heartbeat
beat now = record { last = now }

unfoldable pub age : Time → Heartbeat → ℕ
age now h = now - h.last

-- The value of an entry of `checks`.
pub data Check : Type 0 where
  passed errored is_draining : Check
  stale : ℕ → ℕ → Check

pub data Status : Type 0 where
  healthy unavailable draining : Status

pub record HealthReply : Type 0 where
  pub code : ℕ
  pub status : Status
  pub checks : List (String × Check)

-- `/health`.
unfoldable pub health : ℕ → Time → Heartbeat → HealthReply
unfolding age
health max_age now h =
    if leb (age now h) max_age
    then record { code = 200; status = healthy; checks = ("loop", passed) ∷ [] }
    else record {
      code = 503;
      status = unavailable;
      checks = ("loop", stale (age now h) max_age) ∷ [];
    }

-- How a probe of a backend ends.
pub data ProbeError : Type 0 where
  database_error redis_error timeout_error other_error : ProbeError

pub data Probe : Type 0 where
  answered : Probe
  failed_with : ProbeError → Probe

-- `all(value == "ok" for value in checks.values())`.
abbrev pub is_passed : Check → Bool
is_passed passed = true
is_passed c = false

unfoldable pub all_passed : List (String × Check) → Bool
all_passed [] = true
all_passed (e ∷ checks) = is_passed e.1 && all_passed checks

unfoldable pub judge : List (String × Check) → HealthReply
unfolding all_passed
judge checks =
    if all_passed checks
    then record { code = 200; status = healthy; checks = checks }
    else record { code = 503; status = unavailable; checks = checks }

-- `except Exception`.
abbrev pub check_any : Probe → Check
check_any answered = passed
check_any (failed_with e) = errored

-- `except (redis.RedisError, TimeoutError)`; `none` is another exception.
abbrev pub check_redis : Probe → Option Check
check_redis answered = some passed
check_redis (failed_with redis_error) = some errored
check_redis (failed_with timeout_error) = some errored
check_redis (failed_with e) = none

abbrev pub with_redis : Check → Option Check → Option HealthReply
with_redis postgres none = none
with_redis postgres (some c) = some (judge (("postgres", postgres) ∷ ("redis", c) ∷ []))

-- `/ready`; `none` is an exception that the route lets through.
unfoldable pub ready : Bool → Probe → Probe → Option HealthReply
unfolding judge
ready is_draining_now postgres redis =
    if is_draining_now
    then some (record { code = 503; status = draining; checks = ("draining", is_draining) ∷ [] })
    else with_redis (check_any postgres) (check_redis redis)
