-- ===== src/Repository.antt =====
-- app/repository.py: the statements that the program sends to the `jobs` table. A table is the list
-- of its rows; an UPDATE changes each row that its WHERE clause accepts and reports how many.
pub mod Rows
pub mod Steps
pub mod Valid
pub mod Unique
pub mod Claims
pub mod History
pub mod Winners
use symmetrical_disco.Base.{
  ℕ, suc, ◌+◌, String, Bool, true, false, ◌&&◌, ◌||◌, Option, none, some, List, [], ◌∷◌, ◌==◌,
  str_eq, if◌then◌else◌, any, is_some, not,
}
use symmetrical_disco.Models.{
  Job, JobId, JobType, JobStatus, JobPriority, Json, Time, scheduled, pending, processing,
  completed, failed, cancelled, same_status,
}

abbrev pub Table : Type 0
Table = List Job

-- `update(Job).where(p).values(f)` and its rowcount.
unfoldable pub update_where : (Job → Bool) → (Job → Job) → Table → Table × ℕ
update_where p f [] = ([], 0)
update_where p f (j ∷ js) =
    let (rest, n) = update_where p f js in if p j then (f j ∷ rest, suc n) else (j ∷ rest, n)

-- The commit, and `rowcount == 1`.
abbrev pub changed_one : Table × ℕ → Table × Bool
changed_one (t, n) = (t, n == 1)

abbrev pub has_id : JobId → Job → Bool
has_id i j = j.id == i

abbrev pub has_status : JobStatus → Job → Bool
has_status s j = same_status j.status s

abbrev pub is_waiting : Job → Bool
is_waiting j = has_status pending j || has_status scheduled j

-- `uq_jobs_user_idempotency_key`: two rows of one user with one key that is not NULL. A NULL user is
-- equal to no user.
abbrev pub same_user : Option ℕ → Option ℕ → Bool
same_user (some u) (some v) = u == v
same_user _ _ = false

abbrev pub same_key : Option String → Option String → Bool
same_key (some k) (some l) = str_eq k l
same_key _ _ = false

abbrev pub clashes : Job → Job → Bool
clashes j k =
    j.id == k.id || (same_user j.user_id k.user_id && same_key j.idempotency_key k.idempotency_key)

-- The INSERT; `none` is the IntegrityError of the primary key or of the unique index.
unfoldable pub insert_row : Job → Table → Option Table
insert_row j t = if any (clashes j) t then none else some (j ∷ t)

-- The keyword arguments of `create_job`.
pub record NewJob : Type 0 where
  pub type : JobType
  pub payload : Json
  pub status : JobStatus
  pub scheduled_at : Option Time
  pub priority : JobPriority
  pub max_attempts : ℕ
  pub idempotency_key : Option String
  pub idempotency_hash : Option String
  pub trace_context : Option Json
  pub user_id : Option ℕ
  pub user_name : Option String

-- `Job(...)`: `id` is the fresh `uuid4`, `now` the server's `func.now()`.
abbrev pub new_job : JobId → Time → NewJob → Job
new_job id now n = record {
  id = id;
  user_id = n.user_id;
  user_name = n.user_name;
  type = n.type;
  payload = n.payload;
  status = n.status;
  priority = n.priority;
  result = none;
  error = none;
  attempts = 0;
  max_attempts = n.max_attempts;
  created_at = now;
  started_at = none;
  completed_at = none;
  scheduled_at = n.scheduled_at;
  is_synced_to_redis = false;
  progress = none;
  cancel_requested_at = none;
  idempotency_key = n.idempotency_key;
  idempotency_hash = n.idempotency_hash;
  trace_context = n.trace_context;
}

unfoldable pub create_job : JobId → Time → NewJob → Table → Option Table
create_job id now n t = insert_row (new_job id now n) t

unfoldable pub find_job : (Job → Bool) → Table → Option Job
find_job p [] = none
find_job p (j ∷ js) = if p j then some j else find_job p js

unfoldable pub get_job : JobId → Option ℕ → Table → Option Job
get_job i none t = find_job (has_id i) t
get_job i (some u) t = find_job (λ j. has_id i j && same_user j.user_id (some u)) t

unfoldable pub mark_synced : JobId → Table → Table
mark_synced i t = (update_where (has_id i) (λ j. record j { is_synced_to_redis = true }) t).0

unfoldable pub claim_job : Time → JobId → Table → Table × Bool
claim_job now i t = changed_one (
    update_where (λ j. has_id i j && is_waiting j)
      (λ j. record j { status = processing; started_at = some now }) t)

abbrev pub set_progress : Option ℕ → Option ℕ → Option ℕ
set_progress none old = old
set_progress (some p) old = some p

abbrev pub is_processing : JobId → Job → Bool
is_processing i j = has_id i j && has_status processing j

unfoldable pub complete_job : Time → JobId → Json → Option ℕ → Table → Table × Bool
complete_job now i result progress t = changed_one (
    update_where (is_processing i)
      (λ j. record j {
        status = completed;
        result = some result;
        completed_at = some now;
        attempts = j.attempts + 1;
        progress = set_progress progress j.progress;
      })
      t)

unfoldable pub fail_job : Time → JobId → Json → Table → Table × Bool
fail_job now i error t = changed_one (
    update_where (is_processing i)
      (λ j. record j {
        status = failed;
        error = some error;
        completed_at = some now;
        attempts = j.attempts + 1;
      })
      t)

unfoldable pub retry_to_pending : JobId → Table → Table × Bool
retry_to_pending i t = changed_one (
    update_where (is_processing i)
      (λ j. record j {
        status = pending;
        attempts = j.attempts + 1;
        is_synced_to_redis = false;
        started_at = none;
      })
      t)

unfoldable pub retry_to_scheduled : JobId → Time → Table → Table × Bool
retry_to_scheduled i scheduled_at t = changed_one (
    update_where (is_processing i)
      (λ j. record j {
        status = scheduled;
        scheduled_at = some scheduled_at;
        attempts = j.attempts + 1;
        is_synced_to_redis = false;
        started_at = none;
      })
      t)

unfoldable pub reset_failed_to_pending : JobId → Table → Table × Bool
reset_failed_to_pending i t = changed_one (
    update_where (λ j. has_id i j && (has_status failed j && not (is_some j.cancel_requested_at)))
      (λ j. record j {
        status = pending;
        attempts = 0;
        error = none;
        started_at = none;
        completed_at = none;
        is_synced_to_redis = false;
      })
      t)

unfoldable pub promote_scheduled_to_pending : List JobId → Table → Table × ℕ
promote_scheduled_to_pending [] t = (t, 0)
promote_scheduled_to_pending (i ∷ is) t =
    update_where (λ j. any (λ k. has_id k j) (i ∷ is) && has_status scheduled j)
      (λ j. record j { status = pending }) t

unfoldable pub init_progress : JobId → Table → Table × Bool
init_progress i t =
    changed_one (update_where (is_processing i) (λ j. record j { progress = some 0 }) t)

unfoldable pub cancel_pending_or_scheduled : Time → JobId → Table → Table × Bool
cancel_pending_or_scheduled now i t = changed_one (
    update_where (λ j. has_id i j && is_waiting j)
      (λ j. record j { status = cancelled; completed_at = some now }) t)

unfoldable pub request_cancel : Time → JobId → Table → Table × Bool
request_cancel now i t =
    changed_one
      (update_where (is_processing i) (λ j. record j { cancel_requested_at = some now }) t)

unfoldable pub cancel_job : Time → JobId → Json → Table → Table × Bool
cancel_job now i summary t = changed_one (
    update_where (is_processing i)
      (λ j. record j { status = cancelled; result = some summary; completed_at = some now }) t)

unfoldable pub get_by_idempotency_key : String → ℕ → Table → Option Job
get_by_idempotency_key key user t =
    find_job (λ j. same_key j.idempotency_key (some key) && same_user j.user_id (some user)) t

-- The UPDATE … RETURNING of `PgJobContext._write` in app/worker/context.py: `none` if no row is
-- processing, else whether `cancel_requested_at` is set.
abbrev pub cancel_flag : Option Job → Option Bool
cancel_flag none = none
cancel_flag (some j) = some (is_some j.cancel_requested_at)

unfoldable pub write_progress : JobId → ℕ → Table → Table × Option Bool
write_progress i pct t = (
  (update_where (is_processing i) (λ j. record j { progress = some pct }) t).0,
  cancel_flag (find_job (is_processing i) t),
)
