-- ===== src/Ticker/Takeover.antt =====
-- A running row whose message `_reap_one` of app/ticker/runner.py takes over, when the reaper runs
-- alone while Redis is up.
use symmetrical_disco.Base.{
  ℕ, ◌≡◌, refl, ap, ◌∙◌, String, Bool, true, false, some, List, [], ◌∷◌, ◌++◌, arith,
}
use mathlib.Core.List.{append_assoc}
use symmetrical_disco.Models.{Job, Time, processing, same_status}
use symmetrical_disco.Config.{Settings}
use symmetrical_disco.Repository.{Table, find_job, has_id, get_job}
use symmetrical_disco.Repository.Unique.{IsUnique}
use symmetrical_disco.Retry.{schedule_retry_or_fail}
use symmetrical_disco.Retry.Decision.{Decided, Leaves, leaves, schedule_retry_or_fail-Decided}
use symmetrical_disco.Effects.{
  World, Result, ok, Command, Measurement, MessageId, xack, ◌>>=◌, query, continue, pure,
}
use symmetrical_disco.Effects.Alone.{alone}
use symmetrical_disco.Effects.Uninterrupted.{IsAlone, send-alone}
use symmetrical_disco.Queue.{ack}
use symmetrical_disco.Worker.Served.{schedule_retry_or_fail-alone}
use symmetrical_disco.Ticker.{is_terminal, worker_lost, reap_row, reap_one}

module _ (s : Settings) (j : Job) (now : Time) (c : List Command) (stream : String)
    (m : MessageId) where
  -- The row `k` that the reaper leaves, and the commands `new` before its acknowledgement.
  pub data Reaped (q : Result (Unit {0}) × World) : Type 0 where
    reaped :
        (k : Job) (new : List Command)
        → q.0 ≡ ok tt
        → find_job (has_id j.id) q.1.table ≡ some k
        → q.1.sent ≡ c ++ (new ++ xack stream s.consumer_group m ∷ [])
        → Decided s j now worker_lost j.trace_context k new
        → Reaped q

  -- What is left of `_reap_one` behind the decision.
  abbrev acknowledge : Result Bool × World → Result (Unit {0}) × World
  acknowledge q =
      let (r, v) = continue (λ _. pure tt) q.0 q.1 in
      continue (λ _. ack stream s.consumer_group m) r v

  then_Reaped :
      (q : Result Bool × World)
      → IsAlone true q.1
      → Leaves (Decided s j now worker_lost j.trace_context) j.id c q
      → Reaped (acknowledge q)
  unfolding ack ◌>>=◌
  then_Reaped q a (leaves k new e there sent p) =
      let (up, acked) = send-alone (xack stream s.consumer_group m) q.1 a in
      rw (e, up, acked)
        (reaped k new refl there
          (ap (λ b. b ++ xack stream s.consumer_group m ∷ []) sent ∙ append_assoc c new _) p)

  -- The reaper takes a running row over: it decides on the retry, and acknowledges last.
  pub reap_one-Reaped :
      (t : Table) (ms : List Measurement) (d : ℕ) (ds : List ℕ)
      → s.retry_backoff_schedule ≡ d ∷ ds
      → IsUnique t
      → find_job (has_id j.id) t ≡ some j
      → j.status ≡ processing
      → Reaped (reap_one s stream m j.id (alone true t now c ms))
  unfolding reap_one reap_row ◌>>=◌ query get_job
  reap_one-Reaped t ms d ds schedule u e running =
      let start = alone true t now c ms in
      let run = schedule_retry_or_fail s j worker_lost j.trace_context in
      let live : is_terminal j ≡ false = ground arith in
      let busy : same_status j.status processing ≡ true = ground arith in
      rw (e, live, busy)
        (then_Reaped (run start)
          ((schedule_retry_or_fail-alone s j worker_lost j.trace_context).stays true start
            (refl, refl))
          (schedule_retry_or_fail-Decided s t j now c ms u e (ground arith) worker_lost
            j.trace_context d ds schedule))
