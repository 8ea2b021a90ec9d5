-- ===== src/Effects.antt =====
-- The state that a handler runs over, and the statements and commands that it issues.
--
-- A world holds the `jobs` table, what has been sent to Redis, the measurements recorded, and the
-- moments to come. Every database statement and every Redis command takes the next moment: the
-- other processes have then run their own statements, time has passed, and Redis is up or not. So a
-- theorem about every world speaks of every interleaving at the statements' grain. Without a moment
-- left the process runs alone.
use symmetrical_disco.Base.{
  ℕ, ◌+◌, String, Bool, true, false, Option, none, some, List, [], ◌∷◌, ◌++◌, if◌then◌else◌, All,
}
use symmetrical_disco.Models.{Job, JobId, JobType, JobStatus, JobPriority, Json, Time}
use symmetrical_disco.Repository.{Table}
use symmetrical_disco.Repository.Steps.{Steps}
pub mod Rules
pub mod Alone
pub mod Inversion
pub mod Acks
pub mod Uncancelled
pub mod Uninterrupted

-- The text of a `job_id` field: `str` of a UUID, or any other text, which `UUID()` refuses.
pub data IdText : Type 0 where
  canonical : JobId → IdText
  malformed : String → IdText

abbrev pub parse_uuid : IdText → Option JobId
parse_uuid (canonical i) = some i
parse_uuid (malformed s) = none

-- The fields of a stream entry: the job, and the trace that the send joins.
pub record Message : Type 0 where
  pub job_id : Option IdText
  pub trace : Option Json

-- The id that Redis gives a stream entry, `ms-seq`.
pub record MessageId : Type 0 where
  pub ms : ℕ
  pub seq : ℕ

-- A command to Redis. A score is a time.
pub data Command : Type 0 where
  xadd : String → Message → Command
  xack : String → String → MessageId → Command
  zadd : String → JobId → Time → Command
  zrem : String → List JobId → Command

-- How a worker is done with a message.
pub data Label : Type 0 where
  skipped dropped_ownerless cancelled timeout policy_rejected retried lost completed poison : Label

-- A recorded measurement of app/core/metrics.py.
pub data Measurement : Type 0 where
  jobs_submitted : JobType → JobPriority → Bool → Measurement
  jobs_failed : JobType → JobPriority → Measurement
  jobs_processed : Label → Option (JobType × JobPriority) → Measurement
  jobs_dropped_ownerless : Measurement
  job_queue_wait : String → ℕ → Measurement
  ticker_promoted : ℕ → Measurement
  ticker_reconciled : ℕ → Measurement
  ticker_reaped : ℕ → Measurement

pub data Error : Type 0 where
  index_error attribute_error key_error value_error validation_error : Error
  integrity_error redis_error cancelled_error runtime_error type_error os_error : Error
  http_error : ℕ → Error

pub data Result (A : Type 0) : Type 0 where
  ok : A → Result A
  raise : Error → Result A

pub record Moment : Type 0 where
  pub others : Table → Table
  pub time : Time
  pub redis_up : Bool

pub record World : Type 0 where
  pub table : Table
  pub now : Time
  pub redis_up : Bool
  pub future : List Moment
  pub sent : List Command
  pub metrics : List Measurement

abbrev pub M : Type 0 → Type 0
M A = World → Result A × World

pub pure : {A : Type 0} → A → M A
pure a w = (ok a, w)

pub throw : {A : Type 0} → Error → M A
throw e w = (raise e, w)

abbrev pub continue : {A B : Type 0} → (A → M B) → Result A → M B
continue f (ok a) w = f a w
continue f (raise e) w = (raise e, w)

-- The rest of a handler after an `await`; opening it opens `pure` and `throw` too.
infixl 5 ◌>>=◌ ◌>>◌
unfoldable pub ◌>>=◌ : {A B : Type 0} → M A → (A → M B) → M B
unfolding pure throw
◌>>=◌ m f w = let (r, v) = m w in continue f r v

abbrev pub ◌>>◌ : {B : Type 0} → M (Unit {0}) → M B → M B
m >> k = m >>= λ _. k

abbrev pub recover : {A : Type 0} → M A → Result A → M A
recover h (ok a) w = (ok a, w)
recover h (raise integrity_error) w = h w
recover h (raise e) w = (raise e, w)

-- `except IntegrityError`.
unfoldable pub except_integrity : {A : Type 0} → M A → M A → M A
except_integrity m h w = let (r, v) = m w in recover h r v

abbrev pub arrive : List Moment → World → World
arrive [] w = w
arrive (m ∷ ms) w = record w {
  table = m.others w.table;
  now = m.time;
  redis_up = m.redis_up;
  future = ms;
}

abbrev pub advance : World → World
advance w = arrive w.future w

-- A database statement with its commit. `datetime.now` is read with it.
unfoldable pub transact : {A : Type 0} → (Time → Table → Table × A) → M A
transact f w = let v = advance w in let r = f v.now v.table in (ok r.1, record v { table = r.0 })

-- A SELECT.
unfoldable pub query : {A : Type 0} → (Table → A) → M A
query f w = let v = advance w in (ok (f v.table), v)

unfoldable pub send : Command → M (Unit {0})
send c w =
    let v = advance w in
    if v.redis_up then (ok tt, record v { sent = v.sent ++ c ∷ [] }) else (raise redis_error, v)

-- A Redis command that only reads, with its reply.
unfoldable pub ask : {A : Type 0} → A → M A
ask reply w = let v = advance w in if v.redis_up then (ok reply, v) else (raise redis_error, v)

unfoldable pub read_clock : M Time
read_clock w = (ok w.now, w)

unfoldable pub measure : Measurement → M (Unit {0})
measure m w = (ok tt, record w { metrics = w.metrics ++ m ∷ [] })

abbrev pub when : Bool → M (Unit {0}) → M (Unit {0})
when b m = if b then m else pure tt

-- `if o is None: … else: …`
abbrev pub on_none : {A B : Type 0} → Option A → M B → (A → M B) → M B
on_none none m f = m
on_none (some a) m f = f a

-- An optional value whose absence is an exception.
abbrev pub required : {A : Type 0} → Error → Option A → M A
required e o = on_none o (throw e) pure

-- The other processes only run statements of the program.
abbrev pub IsLawful : World → Type 0
IsLawful w = All (λ m. (t : Table) → Steps t (m.others t)) w.future

-- Whatever the interleaving, the table changes only by statements of the program.
pub record RunsByStatements {A : Type 0} (m : M A) : Type 0 where
  pub run : (w : World) → IsLawful w → Steps w.table (m w).1.table × IsLawful (m w).1
