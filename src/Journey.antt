-- ===== src/Journey.antt =====
-- A job from its submission to the reply that shows its result: `submit_job` of app/api/routes.py,
-- `handle_message` of app/worker/runner.py with the very message that the submission sent, and
-- `get_job` of app/api/routes.py, each running alone, at its own time.
use symmetrical_disco.Base.{
  ℕ, ◌+◌, ◌≡◌, refl, ap, ◌∙◌, String, Bool, true, false, ◌&&◌, Option, none, some, List, [], ◌∷◌,
  ◌++◌, any, arith, Bool-cases, inl, inr, if◌then◌else◌,
}
use mathlib.Core.Path.{subst}
use mathlib.Core.List.{append_assoc}
use symmetrical_disco.Models.{Job, JobId, Json, Time, completed}
use symmetrical_disco.Config.{Settings, stream_for_priority}
use symmetrical_disco.Repository.{
  Table, find_job, has_id, get_job, get_by_idempotency_key, clashes, set_progress, same_user,
}
use symmetrical_disco.Repository.Unique.{IsUnique, Steps-IsUnique}
use symmetrical_disco.Effects.{
  World, M, Result, ok, Command, Measurement, Label, MessageId, xadd, xack, ◌>>=◌, query,
}
use symmetrical_disco.Effects.Alone.{alone}
use symmetrical_disco.Queue.{message_fields}
use symmetrical_disco.Worker.{Outcome, HandlerRun, returned, is_batch, handle_message}
use symmetrical_disco.Worker.Settle.{Ended, by_result}
use symmetrical_disco.Worker.Attempt.{claimed_row, begun, EndsIn}
use symmetrical_disco.Worker.Served.{Served, served, done_with, handle_message-Served}
use symmetrical_disco.Auth.Identity.{AuthedUser}
use symmetrical_disco.Routes.{
  JobSubmission, Request, accepted, job_out, job_to_create, is_future, get_job_route,
  submit_with_key,
}
use symmetrical_disco.Routes.Idempotency.{row, after, submit_with_key-new}
use symmetrical_disco.Routes.Runs.{submit_with_key-runs}
use symmetrical_disco.Retry.Decision.{stream_for_priority-some}

-- The row of a job whose handler has returned `v`.
abbrev pub with_result : Time → Json → Job → Job
with_result at v j = record j {
  status = completed;
  result = some v;
  completed_at = some at;
  attempts = j.attempts + 1;
  progress = set_progress (if is_batch j then some 100 else none) j.progress;
}

pub returned-Ended :
    {s : Settings} {j : Job} {at : Time} {v : Json} {l : Label} {k : Job} {new : List Command}
    → Ended s j at (returned v) l k new
    → (l ≡ Label.completed) × ((k ≡ with_result at v j) × (new ≡ []))
returned-Ended (by_result v) = (refl, (refl, refl))

abbrev holds : (Job → Bool) → Option Job → Bool
holds q none = false
holds q (some j) = q j

find_job-refined :
    (p q : Job → Bool) (t : Table) {k : Job}
    → find_job p t ≡ some k
    → q k ≡ true
    → find_job (λ j. p j && q j) t ≡ some k
unfolding find_job
find_job-refined p q [] e h = cc
find_job-refined p q (j ∷ t) e h = elim (Bool-cases (p j)) [
  | inl here ↦
      let found : some j ≡ some _ = rw here at e in
      let kept : q j ≡ true = ap (holds q) found ∙ h in rw (here, kept) found
  | inr elsewhere ↦ rw elsewhere (find_job-refined p q t (rw elsewhere at e) h)
]

module _ (s : Settings) (sub : JobSubmission) (r : Request) (user : AuthedUser) (key : String)
    (t : Table) (now : Time) (c : List Command) (m : List Measurement) where
  -- The row of a submission, once Redis is told of it.
  abbrev pub handed : Job
  handed = record (row s sub r user key t now c m) { is_synced_to_redis = true }

  after-IsUnique :
      (stream : String)
      → submit_with_key s sub r user key (alone true t now c m) ≡ (
        ok (202, accepted (row s sub r user key t now c m)),
        after s sub r user key t now c m stream,
      )
      → IsUnique t
      → IsUnique (handed ∷ t)
  after-IsUnique stream run u =
      let (steps, _) = (submit_with_key-runs s sub r user key).run (alone true t now c m) tt in
      subst IsUnique (ap (λ (w : Result _ × World). w.1.table) run) (Steps-IsUnique steps u)

  -- The reply to the owner who asks for a row.
  read_back :
      (w : Table) (i : JobId) (k : Job) (up : Bool) (at : Time) (sent : List Command)
      (ms : List Measurement)
      → find_job (has_id i) w ≡ some k
      → k.user_id ≡ some user.id
      → get_job_route i user (alone up w at sent ms) ≡ (ok (200, job_out k), alone up w at sent ms)
  unfolding get_job_route get_job ◌>>=◌ query
  read_back w i k up at sent ms there owned =
      let self : same_user k.user_id (some user.id) ≡ true = rw owned (ground arith) in
      rw (find_job-refined (has_id i) (λ j. same_user j.user_id (some user.id)) w there self) refl

  module _ (handler : Job → M HandlerRun) (later : Time) (ms : List Measurement) (d : ℕ)
      (ds : List ℕ) (schedule : s.retry_backoff_schedule ≡ d ∷ ds) (v : Json)
      (pure_handler : EndsIn handler (returned v)) (id : MessageId) where
    -- The row once the job is done.
    abbrev pub done : Job
    done = with_result later v (begun (claimed_row later handed))

    -- The worker's run on the message that the submission sent, at its time.
    abbrev pub worked : String → Result Outcome × World
    worked stream = handle_message s handler stream id (message_fields r.new_id none) (
        alone true (after s sub r user key t now c m stream).table later
          (after s sub r user key t now c m stream).sent ms)

    -- The job is done, as the worker and then its owner see it.
    pub record CarriedOut (stream : String) : Type 0 where
      pub outcome : (worked stream).0 ≡ ok (done_with Label.completed)
      pub sent :
          (worked stream).1.sent
          ≡ c ++ xadd stream (message_fields r.new_id none) ∷ xack stream s.consumer_group id ∷ []
      pub reply :
          (up : Bool) (at : Time) (sent : List Command) (ns : List Measurement)
          → get_job_route r.new_id user (alone up (worked stream).1.table at sent ns)
            ≡ (ok (200, job_out done), alone up (worked stream).1.table at sent ns)

    done-user_id : done.user_id ≡ some user.id
    unfolding begun claimed_row job_to_create
    done-user_id = elim (Bool-cases (is_batch (claimed_row later handed))) [
      | inl many ↦ rw many refl
      | inr single ↦ rw single refl
    ]

    served-CarriedOut :
        (stream : String)
        → Served
            (Ended s (begun (claimed_row later handed)) later (returned v))
            r.new_id
            (c ++ xadd stream (message_fields r.new_id none) ∷ [])
            (xack stream s.consumer_group id)
            (worked stream)
        → CarriedOut stream
    served-CarriedOut stream (served l k new end there sent p) =
        let (label, (row, none_new)) = returned-Ended p in
        record {
          outcome = end ∙ ap (λ x. ok (done_with x)) label;
          sent =
              sent
              ∙ ap
                  (λ x.
                    (c ++ xadd stream (message_fields r.new_id none) ∷ [])
                    ++ (x ++ xack stream s.consumer_group id ∷ []))
                  none_new
              ∙ append_assoc c (xadd stream (message_fields r.new_id none) ∷ [])
                  (xack stream s.consumer_group id ∷ []);
          reply = λ up at sent ns.
              read_back (worked stream).1.table r.new_id done up at sent ns (there ∙ ap some row)
                done-user_id;
        }

    -- An accepted job is carried out. Over a table with unique keys, a first submission with a key,
    -- for now, of a user is accepted with 202 and its message sent; a worker that gets this message,
    -- at any later time and alone, acknowledges it as completed, if the handler returns a value and
    -- the retry schedule has an entry; and the owner who then asks for the job reads 200, the
    -- completed row and that value, whether Redis is up or not.
    pub submit_with_key-CarriedOut :
        IsUnique t
        → is_future now sub.scheduled_at ≡ none
        → get_by_idempotency_key key user.id t ≡ none
        → any (clashes (row s sub r user key t now c m)) t ≡ false
        → (stream : String) × (stream_for_priority s sub.priority ≡ some stream)
          × (submit_with_key s sub r user key (alone true t now c m) ≡ (
            ok (202, accepted (row s sub r user key t now c m)),
            after s sub r user key t now c m stream,
          ))
          × CarriedOut stream
    unfolding job_to_create find_job
    submit_with_key-CarriedOut u soon fresh free =
        let (stream, known) = stream_for_priority-some s sub.priority in
        let run = submit_with_key-new s sub r user key t now c m stream known soon fresh free in
        let itself : has_id r.new_id handed ≡ true = ground arith in
        let there : find_job (has_id r.new_id) (handed ∷ t) ≡ some handed = rw itself refl in
        (
          stream,
          known,
          run,
          served-CarriedOut stream (
              handle_message-Served s handler later
                (c ++ xadd stream (message_fields r.new_id none) ∷ []) ms d ds schedule (returned v)
                pure_handler (λ e. cc) (handed ∷ t) handed user.id stream id none
                (after-IsUnique stream run u) there refl refl),
        )
