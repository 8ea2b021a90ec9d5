-- ===== src/Retry.antt =====
-- app/retry.py: the backoff schedule, and the decision between a retry and a permanent failure.
pub mod Backoff
pub mod Runs
pub mod Decision
use symmetrical_disco.Base.{
  ℕ, zero, suc, ◌+◌, ◌-◌, ◌*◌, ◌≤◌, String, Bool, true, false, ◌||◌, Option, none, some, List, [],
  ◌∷◌, ◌==◌, leb, if◌then◌else◌, length,
}
use symmetrical_disco.Models.{Job, Json, object, text, Fields, field}
use symmetrical_disco.Config.{Settings, stream_for_priority}
use symmetrical_disco.Repository.{fail_job, retry_to_pending, retry_to_scheduled, mark_synced}
use symmetrical_disco.Effects.{
  M, pure, ◌>>=◌, ◌>>◌, transact, read_clock, measure, when, required, index_error, key_error,
  jobs_failed,
}
use symmetrical_disco.Queue.{enqueue, schedule}

-- An index into a Python list: from its start, or `-1`.
pub data Index : Type 0 where
  from_start : ℕ → Index
  last : Index

-- `l[i]`; `none` is the IndexError.
unfoldable pub get_item : List ℕ → Index → Option ℕ
get_item [] i = none
get_item (x ∷ []) last = some x
get_item (x ∷ y ∷ l) last = get_item (y ∷ l) last
get_item (x ∷ l) (from_start zero) = some x
get_item (x ∷ l) (from_start (suc i)) = get_item l (from_start i)

-- `min(a - 1, n - 1)` of two natural numbers: `-1` if one of them is 0.
unfoldable pub min_index : ℕ → ℕ → Index
min_index a n =
    if a == 0 || n == 0 then last else if leb a n then from_start (a - 1) else from_start (n - 1)

unfoldable pub backoff_delay : ℕ → List ℕ → Option ℕ
unfolding get_item min_index
backoff_delay attempts schedule = get_item schedule (min_index attempts (length schedule))

-- {"type": …, "message": …}
abbrev pub error_of : String → String → Json
error_of kind message =
    object (field "type" (text kind) (field "message" (text message) Fields.end))

unfoldable pub retry_now : Settings → Job → Option Json → M Bool
retry_now s job carrier = do
  won ← transact (λ _. retry_to_pending job.id)
  when won do
    stream ← required key_error (stream_for_priority s job.priority)
    enqueue stream job.id carrier
    transact (λ _ t. (mark_synced job.id t, tt))
  pure won

unfoldable pub retry_later : Settings → Job → ℕ → M Bool
retry_later s job delay = do
  now ← read_clock
  let at = now + delay * 1000000
  won ← transact (λ _. retry_to_scheduled job.id at)
  when won do schedule s.delayed_zset job.id at; transact (λ _ t. (mark_synced job.id t, tt))
  pure won

unfoldable pub fail_permanently : Job → Json → M Bool
fail_permanently job error = do
  won ← transact (λ now. fail_job now job.id error)
  when won (measure (jobs_failed job.type job.priority))
  pure won

-- `job` is the row, or its snapshot, as the caller last read it.
unfoldable pub schedule_retry_or_fail : Settings → Job → Json → Option Json → M Bool
unfolding retry_now retry_later fail_permanently
schedule_retry_or_fail s job error carrier =
    if leb job.max_attempts (job.attempts + 1) then fail_permanently job error else (do
      delay ← required index_error (backoff_delay (job.attempts + 1) s.retry_backoff_schedule)
      if delay == 0 then retry_now s job carrier else retry_later s job delay)
