-- ===== src/Tests/Jobs.antt =====
-- The batch handler, the priority read and the promotion, at concrete replies.
use symmetrical_disco.Base.{
  ℕ, zero, suc, ◌≡◌, refl, String, false, none, some, List, [], ◌∷◌, if◌then◌else◌, str_eq,
}
use symmetrical_disco.Models.{null}
use symmetrical_disco.Payloads.{Item, report_params}
use symmetrical_disco.Effects.{
  ok, canonical, Message, ◌>>=◌, transact, query, read_clock, zrem, ask,
}
use symmetrical_disco.Jobs.{
  Draws, gives, fails, Call, finished, handle_batch, batch_loop, is_cancelled, poll, read, write,
  tally, new_summary, Summary,
}
use symmetrical_disco.Jobs.Batch.{Summarises, handle_batch-Summarises}
use symmetrical_disco.Queue.{Reply, Delivery, read_priority, flatten, flatten_one, promote}
use symmetrical_disco.Queue.Priority.{Served, read_priority-Served}
use symmetrical_disco.Ticker.Promotion.{Sent, promote-Sent}
use symmetrical_disco.Repository.{write_progress, get_job, update_where, find_job}
use symmetrical_disco.Tests.Samples.{world}

abbrev second_fails : ℕ → Call
second_fails (suc zero) = fails "webhook failed"
second_fails n = gives null

abbrev draws : Draws
draws = record { call = λ i x. second_fails i; expires = λ i. false; percent = λ i n. 50 }

abbrev three : List Item
three = report_params ∷ report_params ∷ report_params ∷ []

abbrev summary : Summary
summary = record {
  total = 3;
  succeeded = 2;
  failed = 1;
  results = (0, null) ∷ (2, null) ∷ [];
  errors = (1, "webhook failed") ∷ [];
}

handle_batch_runs : (handle_batch draws 100 9 three world).0 ≡ ok (finished summary)
unfolding handle_batch batch_loop is_cancelled poll read write ◌>>=◌ transact query read_clock
    new_summary tally write_progress get_job find_job update_where
handle_batch_runs = refl

handle_batch-Summarises_example : Summarises draws 0 three (new_summary 3) (finished summary)
handle_batch-Summarises_example = handle_batch-Summarises draws 100 9 three world handle_batch_runs

abbrev message : Message
message = record { job_id = some (canonical 7); trace = none }

abbrev only_low : String → Reply
only_low s =
    if str_eq s "low" then (("low", (record { ms = 5; seq = 0 }, message) ∷ []) ∷ []) else []

abbrev read_low : List Delivery
read_low = ("low", record { ms = 5; seq = 0 }, message) ∷ []

read_priority_runs :
    (read_priority only_low [] ("high" ∷ "normal" ∷ "low" ∷ []) world).0 ≡ ok read_low
unfolding read_priority flatten flatten_one ask ◌>>=◌
read_priority_runs = refl

read_priority-Served_example : Served only_low [] ("high" ∷ "normal" ∷ "low" ∷ []) read_low
read_priority-Served_example =
    read_priority-Served only_low [] ("high" ∷ "normal" ∷ "low" ∷ []) world read_priority_runs

promote-Sent_example :
    Sent
      (("low", message) ∷ [])
      (zrem "jobs:delayed" (7 ∷ 8 ∷ []) ∷ [])
      []
      (promote "jobs:delayed" (("low", message) ∷ []) (7 ∷ 8 ∷ []) world).0
      (promote "jobs:delayed" (("low", message) ∷ []) (7 ∷ 8 ∷ []) world).1.sent
promote-Sent_example = promote-Sent "jobs:delayed" (("low", message) ∷ []) 7 (8 ∷ []) world
