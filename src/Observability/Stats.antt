-- ===== src/Observability/Stats.antt =====
-- `gather_stats` and `check_readiness` of app/observability.py with their routes in
-- app/api/routes.py, and the gauges of app/ticker/runner.py. The replies of Redis are arguments.
use symmetrical_disco.Base.{
  ℕ, suc, ◌-◌, ◌/◌, String, not, Option, none, some, List, [], ◌∷◌, map, min, keep, str_eq,
  if◌then◌else◌,
}
use symmetrical_disco.Models.{JobPriority, Time, JobStatus, pending, same_status}
use symmetrical_disco.Config.{Settings, priority_streams}
use symmetrical_disco.Repository.{Table}
use symmetrical_disco.Effects.{
  World, M, Result, raise, Error, redis_error, http_error, pure, throw, ◌>>=◌, query, ask,
  read_clock,
}
use symmetrical_disco.Observability.{live_worker_count, zero_fill_status_counts}

-- One reply of a pipeline with `raise_on_error=False`: a value, the error NOGROUP, or another error.
pub data Fetched (A : Type 0) : Type 0 where
  fetched : A → Fetched A
  nogroup : Fetched A
  refused : Error → Fetched A

unfoldable pub tolerate_nogroup : {A : Type 0} → A → Fetched A → M A
tolerate_nogroup empty (fetched a) = pure a
tolerate_nogroup empty nogroup = pure empty
tolerate_nogroup empty (refused e) = throw e

unfoldable pub tolerate_all : {A : Type 0} → A → List (Fetched A) → M (List A)
unfolding tolerate_nogroup
tolerate_all empty [] = pure []
tolerate_all empty (r ∷ rs) = do
  a ← tolerate_nogroup empty r
  rest ← tolerate_all empty rs
  pure (a ∷ rest)

-- An entry of XINFO GROUPS.
pub record GroupInfo : Type 0 where
  pub name : String
  pub lag : Option ℕ
  pub pending : ℕ

-- The replies of the pipeline, by their kind: `results[:n]`, `results[n : 2 * n]`, `results[2 * n]`.
pub record Results : Type 0 where
  pub groups : List (Fetched (List GroupInfo))
  pub consumers : List (Fetched (List (String × ℕ)))
  pub zcard : Fetched ℕ

pub record StreamStat : Type 0 where
  pub depth : Option ℕ
  pub in_flight : ℕ

-- `next((g for g in groups if g.get("name") == …), None)`.
unfoldable pub find_group : String → List GroupInfo → Option GroupInfo
find_group name [] = none
find_group name (g ∷ gs) = if str_eq g.name name then some g else find_group name gs

abbrev pub stat_of : Option GroupInfo → StreamStat
stat_of none = record { depth = some 0; in_flight = 0 }
stat_of (some g) = record { depth = g.lag; in_flight = g.pending }

-- The loop over `zip(settings.priority_streams, groups)`.
unfoldable pub stream_stats :
    String → List (JobPriority × String) → List (List GroupInfo) → List (JobPriority × StreamStat)
unfolding find_group
stream_stats name [] groups = []
stream_stats name (p ∷ ps) [] = []
stream_stats name (p ∷ ps) (g ∷ gs) = (p.0, stat_of (find_group name g)) ∷ stream_stats name ps gs

abbrev pub reaper_name : String
reaper_name = "reaper"

unfoldable pub without_reaper : List (String × ℕ) → List (String × ℕ)
without_reaper rows = keep (λ r. not (str_eq r.0 reaper_name)) rows

-- `SELECT status, count(*) … GROUP BY status`: each status that occurs, once.
unfoldable pub bump : JobStatus → List (JobStatus × ℕ) → List (JobStatus × ℕ)
bump s [] = (s, 1) ∷ []
bump s ((k, n) ∷ rows) = if same_status k s then (k, suc n) ∷ rows else (k, n) ∷ bump s rows

unfoldable pub group_by_status : Table → List (JobStatus × ℕ)
unfolding bump
group_by_status [] = []
group_by_status (j ∷ t) = bump j.status (group_by_status t)

-- `SELECT min(created_at) … WHERE status = 'pending'`.
abbrev pub earlier : Time → Option Time → Option Time
earlier a none = some a
earlier a (some b) = some (min a b)

unfoldable pub min_created_pending : Table → Option Time
min_created_pending [] = none
min_created_pending (j ∷ t) =
    let rest = min_created_pending t in
    if same_status j.status pending then earlier j.created_at rest else rest

unfoldable pub pending_age : Option Time → Time → Option ℕ
pending_age none now = none
pending_age (some created) now = some (now - created)

pub record Stats : Type 0 where
  pub streams : List (JobPriority × StreamStat)
  pub scheduled : ℕ
  pub workers : ℕ
  pub by_status : JobStatus → ℕ
  pub oldest_pending_age : Option ℕ

unfoldable pub gather_stats : Settings → Results → M Stats
unfolding tolerate_all stream_stats without_reaper group_by_status min_created_pending pending_age
gather_stats s reply = do
  results ← ask reply
  groups ← tolerate_all [] results.groups
  consumers ← tolerate_all [] results.consumers
  waiting ← tolerate_nogroup 0 results.zcard
  rows ← query group_by_status
  min_created ← query min_created_pending
  now ← read_clock
  pure (record {
    streams = stream_stats s.consumer_group (priority_streams s) groups;
    scheduled = waiting;
    workers = live_worker_count (map without_reaper consumers) (s.visibility_timeout / 1000);
    by_status = zero_fill_status_counts rows;
    oldest_pending_age = pending_age min_created now;
  })

-- `except (RedisError, SQLAlchemyError)`. A SELECT never fails here, so only the first is raised.
abbrev pub unavailable_on : {A : Type 0} → Result A × World → Result A × World
unavailable_on (raise redis_error, w) = (raise (http_error 503), w)
unavailable_on r = r

unfoldable pub stats : Settings → Results → M Stats
unfolding gather_stats
stats s reply w = unavailable_on (gather_stats s reply w)
