-- ===== src/Retry/Decision.antt =====
-- What the retry decision of app/retry.py does to the row and sends to Redis, when no other process
-- interferes.
use symmetrical_disco.Base.{
  All, ℕ, ◌+◌, ◌*◌, ◌≤◌, ◌<◌, ◌≡◌, refl, sym, ap, ◌∙◌, Bool, true, false, Option, none, some, List,
  [], ◌∷◌, ◌++◌, arith, leb, Bool-cases, inl, inr, ◌==◌, String,
}
use mathlib.Core.List.{append-nil}
use native.Mathlib.Numerals.{add-one}
use symmetrical_disco.Retry.Backoff.{backoff_delay-some, backoff_delay-empty}
use symmetrical_disco.Models.{
  Job, JobId, Json, Time, JobPriority, high, normal, low, pending, scheduled, failed,
}
use symmetrical_disco.Config.{Settings, stream_for_priority}
use symmetrical_disco.Repository.{
  Table, find_job, has_id, mark_synced, is_processing, retry_to_pending, retry_to_scheduled,
  fail_job,
}
use symmetrical_disco.Repository.Unique.{IsUnique}
use symmetrical_disco.Repository.Winners.{
  Wins-row, retry_to_pending-Wins, retry_to_scheduled-Wins, fail_job-Wins, find-mark_synced,
}
use symmetrical_disco.Repository.Claims.{guarded, finish, fails, retries, defers}
use symmetrical_disco.Effects.{
  World, Result, ok, raise, Command, Measurement, xadd, zadd, jobs_failed, ◌>>=◌, transact, send,
  measure, read_clock, index_error,
}
use symmetrical_disco.Effects.Alone.{alone}
use symmetrical_disco.Queue.{enqueue, schedule, message_fields}
use symmetrical_disco.Retry.{
  backoff_delay, retry_now, retry_later, fail_permanently, schedule_retry_or_fail,
}

-- The row and the commands that a decision leaves, for an attempt that has just ended.
pub data Decided (s : Settings) (j : Job) (now : Time) (error : Json) (carrier : Option Json)
    (k : Job) (new : List Command) : Type 0 where
  exhausted :
      j.max_attempts ≤ j.attempts + 1
      → k ≡ record j {
        status = failed;
        error = some error;
        completed_at = some now;
        attempts = j.attempts + 1;
      }
      → new ≡ []
      → Decided s j now error carrier k new
  immediate :
      (stream : String)
      → j.attempts + 1 < j.max_attempts
      → backoff_delay (j.attempts + 1) s.retry_backoff_schedule ≡ some 0
      → stream_for_priority s j.priority ≡ some stream
      → k ≡ record j {
        status = pending;
        attempts = j.attempts + 1;
        is_synced_to_redis = true;
        started_at = none;
      }
      → new ≡ xadd stream (message_fields j.id carrier) ∷ []
      → Decided s j now error carrier k new
  delayed :
      (d : ℕ)
      → j.attempts + 1 < j.max_attempts
      → backoff_delay (j.attempts + 1) s.retry_backoff_schedule ≡ some d
      → 0 < d
      → k ≡ record j {
        status = scheduled;
        scheduled_at = some (now + d * 1000000);
        attempts = j.attempts + 1;
        is_synced_to_redis = true;
        started_at = none;
      }
      → new ≡ zadd s.delayed_zset j.id (now + d * 1000000) ∷ []
      → Decided s j now error carrier k new

-- A run that returns `true`, over a table where the row is now `k`, after the commands `new`.
pub data Leaves (P : Job → List Command → Type 0) (i : JobId) (c : List Command)
    (r : Result Bool × World) : Type 0 where
  leaves :
      (k : Job) (new : List Command)
      → r.0 ≡ ok true
      → find_job (has_id i) r.1.table ≡ some k
      → r.1.sent ≡ c ++ new
      → P k new
      → Leaves P i c r

pub stream_for_priority-some :
    (s : Settings) (p : JobPriority) → (stream : String) × (stream_for_priority s p ≡ some stream)
unfolding stream_for_priority
stream_for_priority-some s high = (s.stream_high, refl)
stream_for_priority-some s normal = (s.stream_normal, refl)
stream_for_priority-some s low = (s.stream_low, refl)

module _ (s : Settings) (t : Table) (j : Job) (now : Time) (c : List Command) (m : List Measurement)
    (u : IsUnique t) (e : find_job (has_id j.id) t ≡ some j)
    (running : is_processing j.id j ≡ true) where
  retry_now-alone :
      (stream : String) (carrier : Option Json)
      → stream_for_priority s j.priority ≡ some stream
      → retry_now s j carrier (alone true t now c m) ≡ (
        ok true,
        alone true
            (mark_synced j.id (retry_to_pending j.id t).0)
            now
            (c ++ xadd stream (message_fields j.id carrier) ∷ [])
            m,
      )
  unfolding retry_now ◌>>=◌ transact send enqueue
  retry_now-alone stream carrier h = rw ((retry_to_pending-Wins t j u e).answer ∙ running, h) refl

  retry_later-alone :
      (d : ℕ)
      → retry_later s j d (alone true t now c m) ≡ (
        ok true,
        alone true
            (mark_synced j.id (retry_to_scheduled j.id (now + d * 1000000) t).0)
            now
            (c ++ zadd s.delayed_zset j.id (now + d * 1000000) ∷ [])
            m,
      )
  unfolding retry_later ◌>>=◌ transact send schedule read_clock
  retry_later-alone d =
      rw ((retry_to_scheduled-Wins t j u e (now + d * 1000000)).answer ∙ running) refl

  fail_permanently-alone :
      (error : Json)
      → fail_permanently j error (alone true t now c m) ≡ (
        ok true,
        alone true (fail_job now j.id error t).0 now c (m ++ jobs_failed j.type j.priority ∷ []),
      )
  unfolding fail_permanently ◌>>=◌ transact measure
  fail_permanently-alone error = rw ((fail_job-Wins t j u e now error).answer ∙ running) refl

  now_Leaves :
      (error : Json) (carrier : Option Json)
      → j.attempts + 1 < j.max_attempts
      → backoff_delay (j.attempts + 1) s.retry_backoff_schedule ≡ some 0
      → Leaves (Decided s j now error carrier) j.id c (retry_now s j carrier (alone true t now c m))
  now_Leaves error carrier more d =
      let (stream, h) = stream_for_priority-some s j.priority in
      let w = retry_to_pending-Wins t j u e in
      rw (retry_now-alone stream carrier h) (
        leaves _ _ refl (find-mark_synced j.id (retry_to_pending j.id t).0 (Wins-row w running))
          refl (immediate stream more d h refl refl))

  later_Leaves :
      (error : Json) (carrier : Option Json) (d : ℕ)
      → j.attempts + 1 < j.max_attempts
      → backoff_delay (j.attempts + 1) s.retry_backoff_schedule ≡ some d
      → 0 < d
      → Leaves (Decided s j now error carrier) j.id c (retry_later s j d (alone true t now c m))
  later_Leaves error carrier d more b pos =
      let w = retry_to_scheduled-Wins t j u e (now + d * 1000000) in
      rw (retry_later-alone d) (
        leaves _ _ refl
          (find-mark_synced j.id (retry_to_scheduled j.id (now + d * 1000000) t).0
            (Wins-row w running))
          refl (delayed d more b pos refl refl))

  fail_Leaves :
      (error : Json) (carrier : Option Json)
      → j.max_attempts ≤ j.attempts + 1
      → Leaves
          (Decided s j now error carrier)
          j.id
          c
          (fail_permanently j error (alone true t now c m))
  fail_Leaves error carrier h =
      let w = fail_job-Wins t j u e now error in
      rw (fail_permanently-alone error)
        (leaves _ [] refl (Wins-row w running) (sym (append-nil c)) (exhausted h refl refl))

  -- While Redis is up and no other process acts, over a table with unique keys that holds the running
  -- row, and with a schedule that has an entry, the decision succeeds: the job fails for good if this
  -- was its last attempt; else it waits again, with its attempt counted, and Redis has been told of
  -- it, at once or for the time of its backoff.
  pub schedule_retry_or_fail-Decided :
      (error : Json) (carrier : Option Json) (d : ℕ) (ds : List ℕ)
      → s.retry_backoff_schedule ≡ d ∷ ds
      → Leaves
          (Decided s j now error carrier)
          j.id
          c
          (schedule_retry_or_fail s j error carrier (alone true t now c m))
  unfolding schedule_retry_or_fail ◌>>=◌
  schedule_retry_or_fail-Decided error carrier d ds h =
      elim (Bool-cases (leb j.max_attempts (j.attempts + 1))) [
        | inl spent ↦ rw spent (fail_Leaves error carrier (ground arith))
        | inr left ↦
            let (delay, b) = backoff_delay-some j.attempts d ds in
            let known : backoff_delay (j.attempts + 1) s.retry_backoff_schedule ≡ some delay =
              rw (h, add-one) b in
            rw (left, known)
              (elim (Bool-cases (delay == 0)) [
                | inl zero ↦
                    rw zero
                      (now_Leaves error carrier (ground arith) (known ∙ ap some (ground arith)))
                | inr pos ↦
                    rw pos (later_Leaves error carrier delay (ground arith) known (ground arith))
              ])
      ]

-- With an empty schedule a job that has an attempt left makes the decision raise IndexError: nothing
-- changes, and the row stays as it is.
pub schedule_retry_or_fail-empty :
    (s : Settings) (j : Job) (error : Json) (carrier : Option Json) (w : World)
    → s.retry_backoff_schedule ≡ []
    → j.attempts + 1 < j.max_attempts
    → schedule_retry_or_fail s j error carrier w ≡ (raise index_error, w)
unfolding schedule_retry_or_fail ◌>>=◌
schedule_retry_or_fail-empty s j error carrier w h more =
    let left : leb j.max_attempts (j.attempts + 1) ≡ false = ground arith in
    let unknown : backoff_delay (j.attempts + 1) s.retry_backoff_schedule ≡ none =
      rw h (backoff_delay-empty (j.attempts + 1)) in
    rw (left, unknown) refl

-- A decision about a job that is no longer processing changes nothing and reports that it lost.
pub schedule_retry_or_fail-lost :
    (s : Settings) (t : Table) (j : Job) (now : Time) (c : List Command) (m : List Measurement)
    (error : Json) (carrier : Option Json) (d : ℕ) (ds : List ℕ)
    → All (λ r. is_processing j.id r ≡ false) t
    → s.retry_backoff_schedule ≡ d ∷ ds
    → schedule_retry_or_fail s j error carrier (alone true t now c m)
      ≡ (ok false, alone true t now c m)
unfolding schedule_retry_or_fail retry_now retry_later fail_permanently ◌>>=◌ transact read_clock
    finish
schedule_retry_or_fail-lost s t j now c m error carrier d ds gone h =
    elim (Bool-cases (leb j.max_attempts (j.attempts + 1))) [
      | inl spent ↦ rw (spent, guarded (fails now error) j.id t gone) refl
      | inr left ↦
          let (delay, b) = backoff_delay-some j.attempts d ds in
          let known : backoff_delay (j.attempts + 1) s.retry_backoff_schedule ≡ some delay =
            rw (h, add-one) b in
          rw (left, known)
            (elim (Bool-cases (delay == 0)) [
              | inl zero ↦ rw (zero, guarded retries j.id t gone) refl
              | inr pos ↦ rw (pos, guarded (defers (now + delay * 1000000)) j.id t gone) refl
            ])
    ]
