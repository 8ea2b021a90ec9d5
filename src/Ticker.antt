-- ===== src/Ticker.antt =====
-- app/ticker/runner.py: promotion of due jobs, reconciliation of rows that never reached Redis,
-- and reclaim of stale messages. The replies of Redis are arguments: the due
-- ids of the delayed set, and for each stream the pages that XAUTOCLAIM hands over until its cursor
-- is back at `0-0`.
pub mod Runs
pub mod Promotion
pub mod Acks
pub mod Takeover
pub mod Unsynced
pub mod Reconcile
pub mod Loop
pub mod Caught
pub mod Survival
pub mod Clock
pub mod Rounds
pub mod Gauges
pub mod Told
pub mod Outbox
use symmetrical_disco.Base.{
  ℕ, zero, suc, ◌+◌, ◌-◌, String, Bool, true, false, ◌&&◌, ◌||◌, Option, none, some, List, [], ◌∷◌,
  ltb, leb, ◌==◌, if◌then◌else◌, length, is_some,
}
use symmetrical_disco.Models.{
  Job, JobId, JobPriority, Json, Time, JobStatus, scheduled, pending, processing, completed, failed,
  cancelled, same_status,
}
use symmetrical_disco.Config.{Settings, stream_for_priority, ordered_streams}
use symmetrical_disco.Repository.{Table, get_job, mark_synced, promote_scheduled_to_pending}
use symmetrical_disco.Listing.{list_unsynced, get_promotion_info}
use symmetrical_disco.Effects.{
  M, Message, MessageId, pure, ◌>>=◌, ◌>>◌, transact, query, ask, read_clock, measure, when,
  on_none, required, key_error, ticker_promoted, ticker_reconciled, ticker_reaped,
}
use symmetrical_disco.Queue.{enqueue, schedule, promote, message_fields, ack, due_job_ids}
use symmetrical_disco.Retry.{error_of, schedule_retry_or_fail}
use symmetrical_disco.Worker.{job_id_of}

abbrev pub Info : Type 0
Info = List (JobId × (JobPriority × Option Json))

-- `info.get(i)`.
abbrev pub meta_of : JobId → Info → Option (JobPriority × Option Json)
meta_of i [] = none
meta_of i ((k, m) ∷ rest) = if k == i then some m else meta_of i rest

-- The messages of the due jobs that have a row.
unfoldable pub route_due : Settings → Info → List JobId → M (List (String × Message))
route_due s info [] = pure []
route_due s info (i ∷ is) =
    let rest = route_due s info is in
    on_none (meta_of i info) rest (λ m. do
      stream ← required key_error (stream_for_priority s m.0)
      routed ← rest
      pure ((stream, message_fields i m.1) ∷ routed))

unfoldable pub promote_ids : Settings → List JobId → M ℕ
unfolding route_due
promote_ids s [] = pure 0
promote_ids s (i ∷ is) = do
  info ← query (get_promotion_info (i ∷ is))
  routed ← route_due s info (i ∷ is)
  promote s.delayed_zset routed (i ∷ is)
  n ← transact (λ _. promote_scheduled_to_pending (i ∷ is))
  measure (ticker_promoted (length routed))
  pure (length (i ∷ is))

-- `due` is the reply of ZRANGEBYSCORE.
unfoldable pub promote_due : Settings → List JobId → M ℕ
unfolding promote_ids due_job_ids
promote_due s due = do ids ← due_job_ids due; promote_ids s ids

-- Redis is told of the row; its sync flag follows.
unfoldable pub hand_over : Settings → Job → M (Unit {0})
hand_over s job = do
  stream ← required key_error (stream_for_priority s job.priority)
  enqueue stream job.id job.trace_context
  transact (λ _ t. (mark_synced job.id t, tt))

unfoldable pub hand_over_delayed : Settings → Job → Time → M (Unit {0})
hand_over_delayed s job at = do
  schedule s.delayed_zset job.id at
  transact (λ _ t. (mark_synced job.id t, tt))

-- One row of a batch of `reconcile_orphans`: 1 if it was handed over, 0 if it was skipped.
unfoldable pub reconcile_row : Settings → Job → M ℕ
unfolding hand_over hand_over_delayed
reconcile_row s job =
    if same_status job.status scheduled
    then on_none job.scheduled_at (pure 0) (λ at. do hand_over_delayed s job at; pure 1)
    else (do hand_over s job; pure 1)

unfoldable pub reconcile_rows : Settings → List Job → ℕ → M ℕ
unfolding reconcile_row
reconcile_rows s [] total = pure total
reconcile_rows s (job ∷ jobs) total = do n ← reconcile_row s job; reconcile_rows s jobs (total + n)

-- The `while True` loop, with fuel: `none` says that the fuel ran out.
unfoldable pub reconcile_loop : ℕ → Settings → Time → ℕ → M (Option ℕ)
unfolding reconcile_rows
reconcile_loop zero s cutoff total = pure none
reconcile_loop (suc fuel) s cutoff total =
    let rest = reconcile_loop fuel s cutoff in
    do
      rows ← query (list_unsynced cutoff s.reconcile_batch_size)
      if length rows == 0 then pure (some total) else (do
        total' ← reconcile_rows s rows total
        if ltb (length rows) s.reconcile_batch_size then pure (some total') else rest total')

abbrev pub report_total : Option ℕ → M (Unit {0})
report_total none = pure tt
report_total (some n) = when (ltb 0 n) (measure (ticker_reconciled n))

unfoldable pub reconcile_orphans : ℕ → Settings → M (Option ℕ)
unfolding reconcile_loop
reconcile_orphans fuel s = do
  now ← read_clock
  total ← reconcile_loop fuel s (now - s.reconcile_grace) 0
  report_total total
  pure total

abbrev pub worker_lost : Json
worker_lost = error_of "WorkerLost" "reclaimed by reaper"

abbrev pub is_terminal : Job → Bool
is_terminal j =
    same_status j.status completed
    || (same_status j.status failed || same_status j.status cancelled)

-- A waiting row that Redis was not told of.
unfoldable pub finish_handoff : Settings → Job → M (Unit {0})
unfolding hand_over hand_over_delayed
finish_handoff s job =
    if same_status job.status scheduled
    then on_none job.scheduled_at (hand_over s job) (hand_over_delayed s job)
    else hand_over s job

unfoldable pub reap_row : Settings → Job → M (Unit {0})
unfolding finish_handoff
reap_row s job =
    if is_terminal job
    then pure tt
    else if same_status job.status processing
    then (do _ ← schedule_retry_or_fail s job worker_lost job.trace_context; pure tt)
    else if job.is_synced_to_redis
    then pure tt
    else finish_handoff s job

unfoldable pub reap_one : Settings → String → MessageId → JobId → M (Unit {0})
unfolding reap_row
reap_one s stream message_id i = do
  row ← query (get_job i none)
  on_none row (pure tt) (reap_row s)
  ack stream s.consumer_group message_id

unfoldable pub reap_messages : Settings → String → List (MessageId × Message) → M ℕ
unfolding reap_one
reap_messages s stream [] = pure 0
reap_messages s stream ((message_id, fields) ∷ rest) = do
  on_none (job_id_of fields) (ack stream s.consumer_group message_id) (reap_one s stream message_id)
  n ← reap_messages s stream rest
  pure (suc n)

-- The pages of one stream.
unfoldable pub reap_pages : Settings → String → List (List (MessageId × Message)) → M ℕ
unfolding reap_messages
reap_pages s stream [] = pure 0
reap_pages s stream (page ∷ pages) = do
  messages ← ask page
  n ← reap_messages s stream messages
  m ← reap_pages s stream pages
  pure (n + m)

unfoldable pub reap_streams :
    Settings → (String → List (List (MessageId × Message))) → List String → M ℕ
unfolding reap_pages
reap_streams s claimed [] = pure 0
reap_streams s claimed (stream ∷ streams) = do
  n ← reap_pages s stream (claimed stream)
  m ← reap_streams s claimed streams
  pure (n + m)

unfoldable pub reap_stale : Settings → (String → List (List (MessageId × Message))) → M ℕ
unfolding reap_streams
reap_stale s claimed = do
  handled ← reap_streams s claimed (ordered_streams s)
  when (ltb 0 handled) (measure (ticker_reaped handled))
  pure handled
