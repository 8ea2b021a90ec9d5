-- ===== src/Config.antt =====
-- app/core/config.py: the settings that the modelled code reads, the check that a settings object
-- passes, and the streams by priority. A number of seconds is a number of microseconds here, the
-- delays of `retry_backoff_schedule` are whole seconds as in the source, and natural numbers.
use symmetrical_disco.Base.{ℕ, String, Bool, Option, none, some, List, [], ◌∷◌, leb, if◌then◌else◌}
use symmetrical_disco.Models.{JobPriority, high, normal, low, same_priority}

pub record Settings : Type 0 where
  pub stream_high : String
  pub stream_normal : String
  pub stream_low : String
  pub consumer_group : String
  pub delayed_zset : String
  pub block_ms : ℕ
  pub ticker_interval : ℕ
  pub ticker_batch_size : ℕ
  pub reconcile_interval : ℕ
  pub reconcile_grace : ℕ
  pub reconcile_batch_size : ℕ
  pub job_handler_timeout : ℕ
  pub visibility_timeout : ℕ
  pub reaper_interval : ℕ
  pub max_attempts : ℕ
  pub retry_backoff_schedule : List ℕ
  pub cancel_poll_interval : ℕ
  pub auth_required_group : String
  pub is_rate_limit_enabled : Bool
  pub submit_rate_limit_per_min : ℕ
  pub control_rate_limit_per_min : ℕ
  pub read_rate_limit_per_min : ℕ
  pub stats_rate_limit_per_min : ℕ
  pub worker_concurrency : ℕ
  pub worker_max_rss_mb : Option ℕ
  pub otel_enabled : Bool
  pub health_port : Option ℕ
  pub db_pool_size : ℕ
  pub db_disable_prepared_statements : Bool

-- `_check_timeout_invariant`: `none` is the ValueError.
unfoldable pub check_timeout_invariant : Settings → Option Settings
check_timeout_invariant s = if leb s.visibility_timeout s.job_handler_timeout then none else some s

unfoldable pub ordered_streams : Settings → List String
ordered_streams s = s.stream_high ∷ s.stream_normal ∷ s.stream_low ∷ []

unfoldable pub priority_streams : Settings → List (JobPriority × String)
priority_streams s = (high, s.stream_high) ∷ (normal, s.stream_normal) ∷ (low, s.stream_low) ∷ []

-- `dict(pairs)[priority]`; `none` is the KeyError. No key stands twice among the pairs.
abbrev pub stream_of : JobPriority → List (JobPriority × String) → Option String
stream_of p [] = none
stream_of p ((q, s) ∷ rest) = if same_priority q p then some s else stream_of p rest

unfoldable pub stream_for_priority : Settings → JobPriority → Option String
unfolding priority_streams
stream_for_priority s p = stream_of p (priority_streams s)
