-- ===== src/Tests/Samples.antt =====
-- Sample rows, tables, settings and worlds.
use symmetrical_disco.Base.{refl, true, false, none, some, [], ◌∷◌, All, arith}
use symmetrical_disco.Models.{Job, email, pending, processing, completed, normal, null}
use symmetrical_disco.Config.{Settings}
use symmetrical_disco.Repository.{Table}
use symmetrical_disco.Repository.Valid.{IsValid}
use symmetrical_disco.Repository.Unique.{IsUnique}
use symmetrical_disco.Effects.{World}

abbrev pub waiting_job : Job
waiting_job = record {
  id = 7;
  user_id = some 1;
  user_name = some "ann";
  type = email;
  payload = null;
  status = pending;
  priority = normal;
  result = none;
  error = none;
  attempts = 0;
  max_attempts = 4;
  created_at = 1000;
  started_at = none;
  completed_at = none;
  scheduled_at = none;
  is_synced_to_redis = true;
  progress = none;
  cancel_requested_at = none;
  idempotency_key = some "k";
  idempotency_hash = some "h";
  trace_context = none;
}

abbrev pub done_job : Job
done_job = record waiting_job {
  id = 8;
  status = completed;
  result = some null;
  attempts = 1;
  started_at = some 1100;
  completed_at = some 1200;
  idempotency_key = none;
  idempotency_hash = none;
}

abbrev pub running_job : Job
running_job = record done_job {
  id = 9;
  status = processing;
  result = none;
  attempts = 0;
  completed_at = none;
}

abbrev pub sample : Table
sample = waiting_job ∷ done_job ∷ running_job ∷ []

pub sample-IsValid : All IsValid sample
sample-IsValid = ground arith

pub sample-IsUnique : IsUnique sample
sample-IsUnique = (refl, (refl, (refl, tt)))

abbrev pub settings : Settings
settings = record {
  stream_high = "jobs:stream:high";
  stream_normal = "jobs:stream:normal";
  stream_low = "jobs:stream:low";
  consumer_group = "workers";
  delayed_zset = "jobs:delayed";
  block_ms = 5000;
  ticker_interval = 1000000;
  ticker_batch_size = 100;
  reconcile_interval = 60000000;
  reconcile_grace = 10000000;
  reconcile_batch_size = 2;
  job_handler_timeout = 45000000;
  visibility_timeout = 60000000;
  reaper_interval = 30000000;
  max_attempts = 4;
  retry_backoff_schedule = 0 ∷ 30 ∷ 120 ∷ [];
  cancel_poll_interval = 2000000;
  auth_required_group = "jobprocessor-users";
  is_rate_limit_enabled = true;
  submit_rate_limit_per_min = 20;
  control_rate_limit_per_min = 30;
  read_rate_limit_per_min = 120;
  stats_rate_limit_per_min = 30;
  worker_concurrency = 10;
  worker_max_rss_mb = none;
  otel_enabled = true;
  health_port = some 8081;
  db_pool_size = 5;
  db_disable_prepared_statements = false;
}

abbrev pub world : World
world = record { table = sample; now = 2000; redis_up = true; future = []; sent = []; metrics = [] }
