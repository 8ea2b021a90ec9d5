-- ===== src/Ticker/Gauges.antt =====
-- The callbacks of the gauges of app/ticker/runner.py: each takes the replies of its backend and gives
-- its observations, none of them if the backend fails.
use symmetrical_disco.Base.{ℕ, String, Option, none, some, List, [], ◌∷◌, get_or}
use symmetrical_disco.Models.{
  JobPriority, JobStatus, scheduled, pending, processing, completed, failed, cancelled,
}
use symmetrical_disco.Config.{Settings, priority_streams}
use symmetrical_disco.Observability.{zero_fill_status_counts}
use symmetrical_disco.Observability.Stats.{GroupInfo, find_group}

-- The reply of XINFO GROUPS: the groups, a ResponseError, or another RedisError.
pub data GroupsReply : Type 0 where
  groups : List GroupInfo → GroupsReply
  response_error connection_error : GroupsReply

-- `if group is not None and group.get("lag") is not None`.
abbrev pub with_lag : {A : Type 0} → A → Option ℕ → List (ℕ × A) → List (ℕ × A)
with_lag p none rest = rest
with_lag p (some n) rest = (n, p) ∷ rest

abbrev pub observed : {A : Type 0} → A → Option GroupInfo → List (ℕ × A) → List (ℕ × A)
observed p none rest = rest
observed p (some g) rest = with_lag p g.lag rest

abbrev pub and_then : {A : Type 0} → (List A → List A) → Option (List A) → Option (List A)
and_then f none = none
and_then f (some l) = some (f l)

-- The loop over the streams; `none` is the RedisError.
unfoldable pub depth_loop :
    String → (String → GroupsReply) → List (JobPriority × String) → Option (List (ℕ × JobPriority))
unfolding find_group
depth_loop name reply [] = some []
depth_loop name reply ((p, stream) ∷ ps) =
    let rest = depth_loop name reply ps in
    elim (reply stream) [
      | response_error ↦ rest
      | connection_error ↦ none
      | groups gs ↦ and_then (observed p (find_group name gs)) rest
    ]

unfoldable pub queue_depth_observations : Settings → (String → GroupsReply) → List (ℕ × JobPriority)
unfolding depth_loop
queue_depth_observations s reply =
    get_or (depth_loop s.consumer_group reply (priority_streams s)) []

-- `none` is the RedisError of ZCARD.
unfoldable pub queue_scheduled_observations : Option ℕ → List ℕ
queue_scheduled_observations none = []
queue_scheduled_observations (some n) = n ∷ []

-- The dict's order is that of the enum.
abbrev pub items : (JobStatus → ℕ) → List (ℕ × JobStatus)
items counts =
    (counts scheduled, scheduled)
    ∷ (counts pending, pending)
    ∷ (counts processing, processing)
    ∷ (counts completed, completed)
    ∷ (counts failed, failed)
    ∷ (counts cancelled, cancelled)
    ∷ []

-- `none` is the SQLAlchemyError.
unfoldable pub job_status_observations : Option (List (JobStatus × ℕ)) → List (ℕ × JobStatus)
job_status_observations none = []
job_status_observations (some rows) = items (zero_fill_status_counts rows)
