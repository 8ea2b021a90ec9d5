-- ===== src/Jobs.antt =====
-- app/worker/context.py and app/jobs/handlers.py, with app/jobs/registry.py and the `try` body of
-- `process_job` in app/worker/runner.py: the progress and cancellation channel of a running handler,
-- the batch handler, and an attempt from validation to its end.
--
-- The handlers of single items sleep and draw random values: what the call for the item at an index
-- gives is an argument, and so are the items during which the timeout strikes, and the percentage
-- `int((i + 1) / n * 100)`, which is computed with floats.
pub mod Runs
pub mod Batch
use symmetrical_disco.Base.{
  ℕ, zero, suc, ◌+◌, ◌-◌, ◌≡◌, ◌≤◌, String, Bool, true, false, ◌&&◌, ◌||◌, not, Option, none, some,
  List, [], ◌∷◌, ◌++◌, ◌==◌, leb, if◌then◌else◌, length, is_some,
}
use symmetrical_disco.Models.{
  Job, JobId, JobType, Json, num, text, array, object, Items, nil, cons, Fields, field, end, Time,
  processing, same_status,
}
use symmetrical_disco.Config.{Settings}
use symmetrical_disco.Payloads.{
  Item, Payload, single, items, Allowlists, Validation, valid, malformed_payload, not_allowed,
  validate_payload,
}
use symmetrical_disco.Repository.{Table, get_job, write_progress, has_status}
use symmetrical_disco.Effects.{M, pure, ◌>>=◌, ◌>>◌, transact, query, read_clock}
use symmetrical_disco.Worker.{
  HandlerRun, returned, job_cancelled, handler_timeout, policy_error, raised,
}

-- The fields of `PgJobContext` that change.
pub record Context : Type 0 where
  pub pending_pct : ℕ
  pub last_written_pct : Option ℕ
  pub last_poll : Option Time
  pub cached : Bool

abbrev pub new_context : Context
new_context = record { pending_pct = 0; last_written_pct = none; last_poll = none; cached = false }

abbrev pub set_progress : ℕ → Context → Context
set_progress pct c = record c { pending_pct = pct }

abbrev pub is_due : ℕ → Time → Option Time → Bool
is_due interval now none = true
is_due interval now (some last) = leb interval (now - last)

abbrev pub same_pct : ℕ → Option ℕ → Bool
same_pct p none = false
same_pct p (some q) = p == q

-- The answer to a poll: whether the row is alive, and whether its cancellation is requested.
abbrev pub answer : Option Bool → Bool × Bool
answer none = (false, false)
answer (some requested) = (true, requested)

unfoldable pub write : JobId → ℕ → M (Bool × Bool)
write i pct = do flag ← transact (λ _. write_progress i pct); pure (answer flag)

-- `row is None or row[1] != "processing"`.
abbrev pub read_answer : Option Job → Bool × Bool
read_answer none = (false, false)
read_answer (some j) =
    if has_status processing j then (true, is_some j.cancel_requested_at) else (false, false)

unfoldable pub read : JobId → M (Bool × Bool)
read i = do row ← query (get_job i none); pure (read_answer row)

-- The poll: what is written, and the context after it.
unfoldable pub poll : JobId → Time → Context → M (Bool × Context)
unfolding write read
poll i now c =
    if same_pct c.pending_pct c.last_written_pct
    then (do
      a ← read i
      pure (a.1 || not a.0, record c { cached = a.1 || not a.0; last_poll = some now }))
    else (do
      a ← write i c.pending_pct
      pure (
        a.1 || not a.0,
        record c {
          last_written_pct = some c.pending_pct;
          cached = a.1 || not a.0;
          last_poll = some now;
        },
      ))

unfoldable pub is_cancelled : ℕ → JobId → Context → M (Bool × Context)
unfolding poll
is_cancelled interval i c = do
  now ← read_clock
  if is_due interval now c.last_poll then poll i now c else pure (c.cached, c)

-- How the handler of one item ends: by its result, or by an exception with its text.
pub data Call : Type 0 where
  gives : Json → Call
  fails : String → Call

pub record Summary : Type 0 where
  pub total : ℕ
  pub succeeded : ℕ
  pub failed : ℕ
  pub results : List (ℕ × Json)
  pub errors : List (ℕ × String)

unfoldable pub new_summary : ℕ → Summary
new_summary n = record { total = n; succeeded = 0; failed = 0; results = []; errors = [] }

unfoldable pub tally : ℕ → Call → Summary → Summary
tally i (gives r) s = record s { succeeded = s.succeeded + 1; results = s.results ++ (i, r) ∷ [] }
tally i (fails e) s = record s { failed = s.failed + 1; errors = s.errors ++ (i, e) ∷ [] }

abbrev pub result_items : List (ℕ × Json) → Items
result_items [] = nil
result_items ((i, r) ∷ l) =
    cons (object (field "index" (num i) (field "result" r end))) (result_items l)

abbrev pub error_items : List (ℕ × String) → Items
error_items [] = nil
error_items ((i, e) ∷ l) =
    cons (object (field "index" (num i) (field "error" (text e) end))) (error_items l)

abbrev pub summary_document : Summary → Json
summary_document s = object (
    field "total" (num s.total) (
      field "succeeded" (num s.succeeded) (
        field "failed" (num s.failed) (
          field "results" (array (result_items s.results))
            (field "errors" (array (error_items s.errors)) end)))))

-- What an attempt draws from outside.
pub record Draws : Type 0 where
  pub call : ℕ → Item → Call
  pub expires : ℕ → Bool
  pub percent : ℕ → ℕ → ℕ

pub data BatchEnd : Type 0 where
  finished : Summary → BatchEnd
  interrupted : Summary → BatchEnd
  expired : BatchEnd

-- The loop of `handle_batch`, from the item at index `k` of `n`.
unfoldable pub batch_loop : Draws → ℕ → JobId → ℕ → ℕ → List Item → Context → Summary → M BatchEnd
batch_loop d interval i n k [] c s = pure (finished s)
batch_loop d interval i n k (x ∷ xs) c s =
    let rest = batch_loop d interval i n (suc k) xs in
    do
      polled ← is_cancelled interval i c
      if polled.0
          then pure (interrupted s)
          else if d.expires k
          then pure expired
          else rest (set_progress (d.percent (suc k) n) polled.1) (tally k (d.call k x) s)

unfoldable pub handle_batch : Draws → ℕ → JobId → List Item → M BatchEnd
handle_batch d interval i xs =
    batch_loop d interval i (length xs) 0 xs new_context (new_summary (length xs))

abbrev pub run_of_batch : String → BatchEnd → HandlerRun
run_of_batch message (finished s) = returned (summary_document s)
run_of_batch message (interrupted s) = job_cancelled (summary_document s)
run_of_batch message expired = handler_timeout message

abbrev pub run_of_call : Call → HandlerRun
run_of_call (gives r) = returned r
run_of_call (fails e) = raised "WebhookFailedError" e

-- The texts of the exceptions.
pub record Messages : Type 0 where
  pub timeout_text : String
  pub policy_text : String
  pub validation_text : String

unfoldable pub run_payload : Draws → Messages → ℕ → JobId → Payload → M HandlerRun
run_payload d m interval i (single x) =
    if d.expires 0 then pure (handler_timeout m.timeout_text) else pure (run_of_call (d.call 0 x))
run_payload d m interval i (items xs) = do
  ended ← handle_batch d interval i xs
  pure (run_of_batch m.timeout_text ended)

unfoldable pub run_validated : Draws → Messages → ℕ → JobId → Validation → M HandlerRun
unfolding run_payload
run_validated d m interval i malformed_payload = pure (raised "ValidationError" m.validation_text)
run_validated d m interval i not_allowed = pure (policy_error m.policy_text)
run_validated d m interval i (valid p) = run_payload d m interval i p

unfoldable pub run_attempt :
    Settings
    → Allowlists
    → (JobType → Json → Option Payload)
    → Draws
    → Messages
    → Job
    → M HandlerRun
unfolding run_validated
run_attempt s a parse d m job =
    run_validated d m s.cancel_poll_interval job.id (validate_payload a parse job.type job.payload)
