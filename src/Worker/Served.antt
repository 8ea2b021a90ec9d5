-- ===== src/Worker/Served.antt =====
-- A message that is handled by a worker that runs alone, in app/worker/runner.py: from the delivery
-- to the acknowledgement.
use symmetrical_disco.Base.{
  ℕ, ◌-◌, ◌*◌, ◌≡◌, ◌≢◌, refl, ap, ◌∙◌, String, Bool, true, Option, none, some, List, [], ◌∷◌, ◌++◌,
}
use mathlib.Core.List.{append_assoc}
use symmetrical_disco.Models.{Job, JobId, Json, Time}
use symmetrical_disco.Config.{Settings}
use symmetrical_disco.Repository.{Table, find_job, has_id, is_waiting}
use symmetrical_disco.Repository.Unique.{IsUnique}
use symmetrical_disco.Retry.{schedule_retry_or_fail, retry_now, retry_later, fail_permanently}
use symmetrical_disco.Effects.{
  World, M, Result, ok, Command, Measurement, Label, MessageId, xack, ◌>>=◌, job_queue_wait,
  measure, read_clock, when, pure, continue,
}
use symmetrical_disco.Effects.Alone.{alone}
use symmetrical_disco.Effects.Uninterrupted.{IsAlone, StaysAlone, alone_rules, send-alone}
use symmetrical_disco.Queue.{ack, enqueue, schedule, message_fields}
use symmetrical_disco.Worker.{
  Outcome, HandlerRun, returned, job_cancelled, handler_timeout, task_cancelled, policy_error,
  raised, settle, conclude, drop_ownerless, attend, process_job, handle_message, stream_label,
}
use symmetrical_disco.Worker.Settle.{Ended, Acknowledges, acknowledges}
use symmetrical_disco.Worker.Attempt.{claimed_row, begun, EndsIn, process_job-Ended}

retry_now-alone : (s : Settings) (j : Job) (c : Option Json) → StaysAlone (retry_now s j c)
unfolding retry_now enqueue
retry_now-alone s j c = search alone_rules depth 12

retry_later-alone : (s : Settings) (j : Job) (d : ℕ) → StaysAlone (retry_later s j d)
unfolding retry_later schedule
retry_later-alone s j d = search alone_rules depth 12

fail_permanently-alone : (j : Job) (e : Json) → StaysAlone (fail_permanently j e)
unfolding fail_permanently
fail_permanently-alone j e = search alone_rules depth 12

pub schedule_retry_or_fail-alone :
    (s : Settings) (j : Job) (e : Json) (c : Option Json)
    → StaysAlone (schedule_retry_or_fail s j e c)
unfolding schedule_retry_or_fail
schedule_retry_or_fail-alone s j e c =
    search (alone_rules, retry_now-alone, retry_later-alone, fail_permanently-alone) depth 12

conclude-alone : (o : Option Job) (won : Bool) (l : Label) → StaysAlone (conclude o won l)
conclude-alone none won l = search alone_rules depth 12
conclude-alone (some j) won l = search alone_rules depth 12

settle-alone : (s : Settings) (j : Job) (r : HandlerRun) → StaysAlone (settle s j r)
unfolding settle
settle-alone s j (returned v) = search (alone_rules, conclude-alone) depth 12
settle-alone s j (job_cancelled v) = search (alone_rules, conclude-alone) depth 12
settle-alone s j (handler_timeout text) =
    search (alone_rules, conclude-alone, schedule_retry_or_fail-alone) depth 12
settle-alone s j task_cancelled = search alone_rules
settle-alone s j (policy_error text) = search (alone_rules, conclude-alone) depth 12
settle-alone s j (raised kind text) =
    search (alone_rules, conclude-alone, schedule_retry_or_fail-alone) depth 12

drop_ownerless-alone : (j : Job) → StaysAlone (drop_ownerless j)
unfolding drop_ownerless
drop_ownerless-alone j = search (alone_rules, conclude-alone) depth 12

module _ (s : Settings) (handler : Job → M HandlerRun) where
  attend-alone : ((j : Job) → StaysAlone (handler j)) → (j : Job) → StaysAlone (attend s handler j)
  unfolding attend
  attend-alone h j = search (alone_rules, drop_ownerless-alone, settle-alone, h) depth 12

  process_job-alone :
      ((j : Job) → StaysAlone (handler j)) → (i : JobId) → StaysAlone (process_job s handler i)
  unfolding process_job
  process_job-alone h i = search (alone_rules, attend-alone h, conclude-alone) depth 12

-- An outcome of a message that was handled: acknowledged behind the commands `new`, over a table
-- where the row is now `k`.
pub data Served (P : Label → Job → List Command → Type 0) (i : JobId) (c : List Command)
    (last : Command) (r : Result Outcome × World) : Type 0 where
  served :
      (l : Label) (k : Job) (new : List Command)
      → r.0 ≡ ok (record { acks = true; label = l })
      → find_job (has_id i) r.1.table ≡ some k
      → r.1.sent ≡ c ++ (new ++ last ∷ [])
      → P l k new
      → Served P i c last r

abbrev pub done_with : Label → Outcome
done_with l = record { acks = true; label = l }

-- What `handle_message` does with an outcome.
abbrev dispose : String → String → MessageId → Outcome → M Outcome
dispose stream group m outcome = when outcome.acks (ack stream group m) >>= λ _. pure outcome

dispose-acks :
    (stream group : String) (m : MessageId) (l : Label) (r : Result Outcome) (v : World)
    → r ≡ ok (done_with l)
    → IsAlone true v
    → continue (dispose stream group m) r v
      ≡ (ok (done_with l), record v { sent = v.sent ++ xack stream group m ∷ [] })
unfolding ◌>>=◌ ack
dispose-acks stream group m l r v e a =
    let (up, sent) = send-alone (xack stream group m) v a in rw (e, up, sent) refl

then_Served :
    (P : Label → Job → List Command → Type 0) (i : JobId) (c : List Command) (stream group : String)
    (m : MessageId) (q : Result Outcome × World)
    → IsAlone true q.1
    → Acknowledges P i c q
    → Served P i c (xack stream group m) (continue (dispose stream group m) q.0 q.1)
then_Served P i c stream group m q a (acknowledges l k new e there sent p) =
    rw (dispose-acks stream group m l q.0 q.1 e a) (
      served l k new refl there
        (ap (λ b. b ++ xack stream group m ∷ []) sent
          ∙ append_assoc c new (xack stream group m ∷ []))
        p)

module _ (s : Settings) (handler : Job → M HandlerRun) (now : Time) (c : List Command)
    (ms : List Measurement) (d : ℕ) (ds : List ℕ) (schedule : s.retry_backoff_schedule ≡ d ∷ ds)
    (r : HandlerRun) (pure_handler : EndsIn handler r) (ends : r ≢ task_cancelled) where
  handler-alone : (j : Job) → StaysAlone (handler j)
  handler-alone j = record { stays = λ up w h. rw (pure_handler j w) h }

  -- A worker that runs alone takes the message of a waiting job of some user through its handler:
  -- the row and the commands are what the end of the handler asks for, and the message is
  -- acknowledged behind them.
  pub handle_message-Served :
      (t : Table) (j : Job) (user : ℕ) (stream : String) (m : MessageId) (carrier : Option Json)
      → IsUnique t
      → find_job (has_id j.id) t ≡ some j
      → is_waiting j ≡ true
      → j.user_id ≡ some user
      → Served
          (Ended s (begun (claimed_row now j)) now r)
          j.id
          c
          (xack stream s.consumer_group m)
          (handle_message s handler stream m (message_fields j.id carrier) (alone true t now c ms))
  unfolding handle_message ◌>>=◌ read_clock measure message_fields
  handle_message-Served t j user stream m carrier u e waiting owner =
      let waits = job_queue_wait (stream_label s stream) (now - m.ms * 1000) in
      let start = alone true t now c (ms ++ waits ∷ []) in
      then_Served (Ended s (begun (claimed_row now j)) now r) j.id c stream s.consumer_group m
        (process_job s handler j.id start)
        ((process_job-alone s handler handler-alone j.id).stays true start (refl, refl))
        (process_job-Ended s handler now c (ms ++ waits ∷ []) d ds schedule r pure_handler ends t j
          user u e waiting owner)
