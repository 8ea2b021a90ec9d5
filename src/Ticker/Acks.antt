-- ===== src/Ticker/Acks.antt =====
-- When `_reap_one` of app/ticker/runner.py acknowledges the message that it took over.
use symmetrical_disco.Base.{◌≡◌, refl, ap, ◌∙◌, String, Bool, true, Option, none, List, inl, inr}
use symmetrical_disco.Models.{Job, JobId, Time}
use symmetrical_disco.Config.{Settings}
use symmetrical_disco.Repository.{get_job}
use symmetrical_disco.Effects.{
  World, M, ◌>>=◌, query, on_none, pure, MessageId, Command, xack, redis_error,
}
use symmetrical_disco.Effects.Acks.{
  acked, acks_of, AcksNothing, quiet_rules, quiet-query, Handled, acknowledged, failed,
}
use symmetrical_disco.Effects.Inversion.{send-cases}
use symmetrical_disco.Queue.{ack}
use symmetrical_disco.Worker.Acks.{
  enqueue-quiet, schedule-quiet, schedule_retry_or_fail-quiet, then_ack,
}
use symmetrical_disco.Ticker.{hand_over, hand_over_delayed, finish_handoff, reap_row, reap_one}

hand_over-quiet : (s : Settings) (j : Job) → AcksNothing (hand_over s j)
unfolding hand_over
hand_over-quiet s j = search (quiet_rules, enqueue-quiet) depth 12

hand_over_delayed-quiet :
    (s : Settings) (j : Job) (at : Time) → AcksNothing (hand_over_delayed s j at)
unfolding hand_over_delayed
hand_over_delayed-quiet s j at = search (quiet_rules, schedule-quiet) depth 12

finish_handoff-quiet : (s : Settings) (j : Job) → AcksNothing (finish_handoff s j)
unfolding finish_handoff
finish_handoff-quiet s j = search (quiet_rules, hand_over-quiet, hand_over_delayed-quiet) depth 12

reap_row-quiet : (s : Settings) (j : Job) → AcksNothing (reap_row s j)
unfolding reap_row
reap_row-quiet s j =
    search (quiet_rules, finish_handoff-quiet, schedule_retry_or_fail-quiet) depth 12

abbrev pub always : Unit {0} → Bool
always u = true

ack_last :
    (stream group : String) (m : MessageId) (before : List Command) (v : World)
    → acked v ≡ acks_of before
    → Handled always
        (xack stream group m)
        before
        (ack stream group m v).0
        (ack stream group m v).1.sent
unfolding ack
ack_last stream group m before v e = elim (send-cases (xack stream group m) v) [
  | inl (up, sent) ↦ acknowledged tt v.sent up refl sent e
  | inr (down, sent) ↦ failed redis_error down (ap acks_of sent ∙ e)
]

quiet_then_ack :
    (k : M (Unit {0})) (stream group : String) (m : MessageId) (before : List Command) (v : World)
    → AcksNothing k
    → acked v ≡ acks_of before
    → Handled always
        (xack stream group m)
        before
        ((k >>= λ _. ack stream group m) v).0
        ((k >>= λ _. ack stream group m) v).1.sent
unfolding ◌>>=◌
quiet_then_ack k stream group m before v q e =
    then_ack always (λ _. ack stream group m) (xack stream group m) before (k v).0 (k v).1
      (λ _. ack_last stream group m before (k v).1 (q.quiet v ∙ e)) (q.quiet v ∙ e)

deal_with-quiet :
    (s : Settings) (row : Option Job) → AcksNothing (on_none row (pure tt) (reap_row s))
deal_with-quiet s row = search (quiet_rules, reap_row-quiet) depth 12

-- In any world, whatever other processes do meanwhile: the reaper acknowledges a message that it took
-- over, on its stream for the workers' group, by the last command that it sends, and no other
-- message; if something raises before, nothing is acknowledged, so that the message is reclaimed
-- again.
pub reap_one-Handled :
    (s : Settings) (stream : String) (m : MessageId) (i : JobId) (w : World)
    → Handled always
        (xack stream s.consumer_group m)
        w.sent
        (reap_one s stream m i w).0
        (reap_one s stream m i w).1.sent
unfolding reap_one ◌>>=◌
reap_one-Handled s stream m i w =
    let read = (quiet-query (get_job i none)).quiet w in
    then_ack always _ (xack stream s.consumer_group m) w.sent (query (get_job i none) w).0
      (query (get_job i none) w).1
      (λ row.
        quiet_then_ack (on_none row (pure tt) (reap_row s)) stream s.consumer_group m w.sent
          (query (get_job i none) w).1 (deal_with-quiet s row) read)
      read
