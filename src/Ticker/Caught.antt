-- ===== src/Ticker/Caught.antt =====
-- What becomes of the exceptions of the main loop of app/ticker/runner.py, and of its clocks.
use symmetrical_disco.Base.{ℕ, zero, suc, ◌+◌, String, Option, none, some, List, [], ◌∷◌}
use symmetrical_disco.Models.{Job, JobId, Json, Time}
use symmetrical_disco.Config.{Settings}
use symmetrical_disco.Effects.{Message, MessageId}
use symmetrical_disco.Effects.Uncancelled.{
  Uncancelled, unhurt_rules, unhurt-bind, unhurt-on_none, unhurt-pure, unhurt-ask,
}
use symmetrical_disco.Queue.{enqueue, schedule, promote, send_all, ack}
use symmetrical_disco.Retry.{schedule_retry_or_fail, retry_now, retry_later, fail_permanently}
use symmetrical_disco.Ticker.{
  Info, meta_of, route_due, promote_ids, promote_due, hand_over, hand_over_delayed, reconcile_row,
  reconcile_rows, reconcile_loop, report_total, reconcile_orphans, finish_handoff, reap_row,
  reap_one, reap_messages, reap_pages, reap_streams, reap_stale,
}

send_all-Uncancelled : (l : List (String × Message)) → Uncancelled (send_all l)
unfolding send_all
send_all-Uncancelled [] = search unhurt_rules
send_all-Uncancelled ((stream, m) ∷ l) =
    unhurt-bind _ _ (search unhurt_rules) (λ _. send_all-Uncancelled l)

promote-Uncancelled :
    (zset : String) (l : List (String × Message)) (is : List JobId)
    → Uncancelled (promote zset l is)
unfolding promote
promote-Uncancelled zset l [] = search unhurt_rules
promote-Uncancelled zset l (i ∷ is) = search (unhurt_rules, send_all-Uncancelled) depth 12

route_due-Uncancelled :
    (s : Settings) (info : Info) (is : List JobId) → Uncancelled (route_due s info is)
unfolding route_due
route_due-Uncancelled s info [] = search unhurt_rules
route_due-Uncancelled s info (i ∷ is) =
    unhurt-on_none (meta_of i info) _ _ (route_due-Uncancelled s info is) λ m.
      unhurt-bind _ _ (search unhurt_rules)
        (λ stream. unhurt-bind _ _ (route_due-Uncancelled s info is) (λ routed. unhurt-pure _))

promote_ids-Uncancelled : (s : Settings) (is : List JobId) → Uncancelled (promote_ids s is)
unfolding promote_ids
promote_ids-Uncancelled s [] = search unhurt_rules
promote_ids-Uncancelled s (i ∷ is) =
    search (unhurt_rules, promote-Uncancelled, route_due-Uncancelled) depth 12

pub promote_due-Uncancelled : (s : Settings) (due : List JobId) → Uncancelled (promote_due s due)
unfolding promote_due
promote_due-Uncancelled s due = search (unhurt_rules, promote_ids-Uncancelled) depth 12

hand_over-Uncancelled : (s : Settings) (j : Job) → Uncancelled (hand_over s j)
unfolding hand_over enqueue
hand_over-Uncancelled s j = search unhurt_rules depth 12

hand_over_delayed-Uncancelled :
    (s : Settings) (j : Job) (at : Time) → Uncancelled (hand_over_delayed s j at)
unfolding hand_over_delayed schedule
hand_over_delayed-Uncancelled s j at = search unhurt_rules depth 12

ruleset handing = (hand_over-Uncancelled, hand_over_delayed-Uncancelled)

reconcile_row-Uncancelled : (s : Settings) (j : Job) → Uncancelled (reconcile_row s j)
unfolding reconcile_row
reconcile_row-Uncancelled s j = search (unhurt_rules, handing) depth 12

reconcile_rows-Uncancelled :
    (s : Settings) (js : List Job) (n : ℕ) → Uncancelled (reconcile_rows s js n)
unfolding reconcile_rows
reconcile_rows-Uncancelled s [] n = search unhurt_rules
reconcile_rows-Uncancelled s (j ∷ js) n =
    unhurt-bind _ _ (reconcile_row-Uncancelled s j) (λ m. reconcile_rows-Uncancelled s js (n + m))

reconcile_loop-Uncancelled :
    (fuel : ℕ) (s : Settings) (cutoff : Time) (n : ℕ) → Uncancelled (reconcile_loop fuel s cutoff n)
unfolding reconcile_loop
reconcile_loop-Uncancelled zero s cutoff n = search unhurt_rules
reconcile_loop-Uncancelled (suc fuel) s cutoff n =
    search (unhurt_rules, reconcile_rows-Uncancelled, reconcile_loop-Uncancelled fuel s cutoff)
      depth 12

report_total-Uncancelled : (o : Option ℕ) → Uncancelled (report_total o)
report_total-Uncancelled none = search unhurt_rules
report_total-Uncancelled (some n) = search unhurt_rules

pub reconcile_orphans-Uncancelled :
    (fuel : ℕ) (s : Settings) → Uncancelled (reconcile_orphans fuel s)
unfolding reconcile_orphans
reconcile_orphans-Uncancelled fuel s =
    search (unhurt_rules, reconcile_loop-Uncancelled, report_total-Uncancelled) depth 12

retry_now-Uncancelled : (s : Settings) (j : Job) (c : Option Json) → Uncancelled (retry_now s j c)
unfolding retry_now enqueue
retry_now-Uncancelled s j c = search unhurt_rules depth 12

retry_later-Uncancelled : (s : Settings) (j : Job) (d : ℕ) → Uncancelled (retry_later s j d)
unfolding retry_later schedule
retry_later-Uncancelled s j d = search unhurt_rules depth 12

fail_permanently-Uncancelled : (j : Job) (e : Json) → Uncancelled (fail_permanently j e)
unfolding fail_permanently
fail_permanently-Uncancelled j e = search unhurt_rules depth 12

schedule_retry_or_fail-Uncancelled :
    (s : Settings) (j : Job) (e : Json) (c : Option Json)
    → Uncancelled (schedule_retry_or_fail s j e c)
unfolding schedule_retry_or_fail
schedule_retry_or_fail-Uncancelled s j e c =
    search
      (unhurt_rules, retry_now-Uncancelled, retry_later-Uncancelled, fail_permanently-Uncancelled)
      depth 12

finish_handoff-Uncancelled : (s : Settings) (j : Job) → Uncancelled (finish_handoff s j)
unfolding finish_handoff
finish_handoff-Uncancelled s j = search (unhurt_rules, handing) depth 12

reap_row-Uncancelled : (s : Settings) (j : Job) → Uncancelled (reap_row s j)
unfolding reap_row
reap_row-Uncancelled s j =
    search (unhurt_rules, schedule_retry_or_fail-Uncancelled, finish_handoff-Uncancelled) depth 12

ack-Uncancelled : (stream group : String) (m : MessageId) → Uncancelled (ack stream group m)
unfolding ack
ack-Uncancelled stream group m = search unhurt_rules

reap_one-Uncancelled :
    (s : Settings) (stream : String) (m : MessageId) (i : JobId)
    → Uncancelled (reap_one s stream m i)
unfolding reap_one
reap_one-Uncancelled s stream m i =
    search (unhurt_rules, ack-Uncancelled, reap_row-Uncancelled) depth 12

reap_messages-Uncancelled :
    (s : Settings) (stream : String) (l : List (MessageId × Message))
    → Uncancelled (reap_messages s stream l)
unfolding reap_messages
reap_messages-Uncancelled s stream [] = search unhurt_rules
reap_messages-Uncancelled s stream ((m, fields) ∷ l) =
    unhurt-bind _ _ (search (unhurt_rules, ack-Uncancelled, reap_one-Uncancelled))
      (λ _. unhurt-bind _ _ (reap_messages-Uncancelled s stream l) (λ n. unhurt-pure (suc n)))

reap_pages-Uncancelled :
    (s : Settings) (stream : String) (l : List (List (MessageId × Message)))
    → Uncancelled (reap_pages s stream l)
unfolding reap_pages
reap_pages-Uncancelled s stream [] = search unhurt_rules
reap_pages-Uncancelled s stream (p ∷ ps) = unhurt-bind _ _ (unhurt-ask p) λ l.
    unhurt-bind _ _ (reap_messages-Uncancelled s stream l)
      (λ n. unhurt-bind _ _ (reap_pages-Uncancelled s stream ps) (λ m. unhurt-pure (n + m)))

reap_streams-Uncancelled :
    (s : Settings) (claimed : String → List (List (MessageId × Message))) (l : List String)
    → Uncancelled (reap_streams s claimed l)
unfolding reap_streams
reap_streams-Uncancelled s claimed [] = search unhurt_rules
reap_streams-Uncancelled s claimed (x ∷ xs) =
    unhurt-bind _ _ (reap_pages-Uncancelled s x (claimed x))
      λ n. unhurt-bind _ _ (reap_streams-Uncancelled s claimed xs) (λ m. unhurt-pure (n + m))

pub reap_stale-Uncancelled :
    (s : Settings) (claimed : String → List (List (MessageId × Message)))
    → Uncancelled (reap_stale s claimed)
unfolding reap_stale
reap_stale-Uncancelled s claimed = search (unhurt_rules, reap_streams-Uncancelled) depth 12
