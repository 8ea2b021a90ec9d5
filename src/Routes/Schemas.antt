-- ===== src/Routes/Schemas.antt =====
-- app/schemas/api.py, and what a request of app/api/routes.py draws from the libraries.
use symmetrical_disco.Base.{ℕ, ◌+◌, String, Option, none, some, ltb, if◌then◌else◌}
use symmetrical_disco.Models.{Job, JobId, JobType, JobStatus, JobPriority, Json, Time}
use symmetrical_disco.Payloads.{Payload}

pub record JobSubmission : Type 0 where
  pub type : JobType
  pub payload : Json
  pub priority : JobPriority
  pub scheduled_at : Option Time
  pub idempotency_key : Option String

-- A submitted time: without a time zone, or with one, by its instant.
pub data Stamp : Type 0 where
  naive aware : Time → Stamp

-- A naive time is taken for UTC.
abbrev pub instant : Stamp → Time
instant (naive t) = t
instant (aware t) = t

-- `_normalize_utc`, with 365 days in microseconds; `none` is the ValueError.
unfoldable pub normalize_utc : Time → Option Stamp → Option (Option Time)
normalize_utc now none = some none
normalize_utc now (some v) =
    if ltb (now + 31536000000000) (instant v) then none else some (some (instant v))

-- What a request draws from the libraries.
pub record Request : Type 0 where
  pub new_id : JobId
  pub carrier : Option Json
  pub payload_hash : String
  pub parsed : Option Payload

pub record JobAccepted : Type 0 where
  pub id : JobId
  pub type : JobType
  pub status : JobStatus
  pub priority : JobPriority
  pub created_at : Time
  pub scheduled_at : Option Time

pub record JobOut : Type 0 where
  pub id : JobId
  pub type : JobType
  pub status : JobStatus
  pub priority : JobPriority
  pub payload : Json
  pub result : Option Json
  pub error : Option Json
  pub created_at : Time
  pub started_at : Option Time
  pub completed_at : Option Time
  pub scheduled_at : Option Time
  pub attempts : ℕ
  pub max_attempts : ℕ
  pub progress : Option ℕ
  pub cancel_requested_at : Option Time

abbrev pub job_out : Job → JobOut
job_out j = record {
  id = j.id;
  type = j.type;
  status = j.status;
  priority = j.priority;
  payload = j.payload;
  result = j.result;
  error = j.error;
  created_at = j.created_at;
  started_at = j.started_at;
  completed_at = j.completed_at;
  scheduled_at = j.scheduled_at;
  attempts = j.attempts;
  max_attempts = j.max_attempts;
  progress = j.progress;
  cancel_requested_at = j.cancel_requested_at;
}

abbrev pub accepted : Job → JobAccepted
accepted j = record {
  id = j.id;
  type = j.type;
  status = j.status;
  priority = j.priority;
  created_at = j.created_at;
  scheduled_at = j.scheduled_at;
}
