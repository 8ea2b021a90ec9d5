-- ===== src/Models.antt =====
-- app/schemas/enums.py and app/models/job.py: the enumerations, JSON documents and the row of the
-- `jobs` table.
use symmetrical_disco.Base.{ℕ, String, Bool, true, false, Option}

pub data JobType : Type 0 where
  email webhook report batch : JobType

pub data JobStatus : Type 0 where
  scheduled pending processing completed failed cancelled : JobStatus

pub data JobPriority : Type 0 where
  high normal low : JobPriority

-- A Python dict or a JSONB document.
mutual
  pub data Json : Type 0 where
    null : Json
    num : ℕ → Json
    text : String → Json
    array : Items → Json
    object : Fields → Json

  pub data Items : Type 0 where
    nil : Items
    cons : Json → Items → Items

  pub data Fields : Type 0 where
    end : Fields
    field : String → Json → Fields → Fields

-- A UUID is the number of its 128 bits, a time a number of microseconds.
abbrev pub JobId : Type 0
JobId = ℕ

abbrev pub Time : Type 0
Time = ℕ

pub record Job : Type 0 where
  pub id : JobId
  pub user_id : Option ℕ
  pub user_name : Option String
  pub type : JobType
  pub payload : Json
  pub status : JobStatus
  pub priority : JobPriority
  pub result : Option Json
  pub error : Option Json
  pub attempts : ℕ
  pub max_attempts : ℕ
  pub created_at : Time
  pub started_at : Option Time
  pub completed_at : Option Time
  pub scheduled_at : Option Time
  pub is_synced_to_redis : Bool
  pub progress : Option ℕ
  pub cancel_requested_at : Option Time
  pub idempotency_key : Option String
  pub idempotency_hash : Option String
  pub trace_context : Option Json

abbrev pub same_status : JobStatus → JobStatus → Bool
same_status scheduled scheduled = true
same_status pending pending = true
same_status processing processing = true
same_status completed completed = true
same_status failed failed = true
same_status cancelled cancelled = true
same_status _ _ = false

abbrev pub same_type : JobType → JobType → Bool
same_type email email = true
same_type webhook webhook = true
same_type report report = true
same_type batch batch = true
same_type _ _ = false

abbrev pub same_priority : JobPriority → JobPriority → Bool
same_priority high high = true
same_priority normal normal = true
same_priority low low = true
same_priority _ _ = false
