-- ===== src/Worker/GivesUp.antt =====
-- Repeated deliveries of one job whose handler fails every time, to workers of app/worker/runner.py
-- that run alone, one after another.
use symmetrical_disco.Base.{
  ℕ, ◌+◌, ◌≤◌, ◌<◌, ◌≡◌, refl, ap, ◌∙◌, String, true, Option, none, some, List, [], ◌∷◌, arith,
  length, Bool-cases, inl, inr,
}
use mathlib.Core.Path.{subst}
use symmetrical_disco.Models.{Job, JobId, Json, Time, processing, failed}
use symmetrical_disco.Config.{Settings}
use symmetrical_disco.Repository.{Table, find_job, has_id, is_waiting}
use symmetrical_disco.Repository.Steps.{here}
use symmetrical_disco.Repository.Unique.{IsUnique, Steps-IsUnique}
use symmetrical_disco.Retry.{error_of}
use symmetrical_disco.Retry.Decision.{Decided, exhausted, immediate, delayed}
use symmetrical_disco.Effects.{World, M, Result, Command, Label, MessageId, RunsByStatements}
use symmetrical_disco.Effects.Alone.{alone}
use symmetrical_disco.Queue.{message_fields}
use symmetrical_disco.Worker.{Outcome, HandlerRun, raised, is_batch, handle_message}
use symmetrical_disco.Worker.Runs.{handle_message-runs}
use symmetrical_disco.Worker.Settle.{Ended, by_error}
use symmetrical_disco.Worker.Attempt.{claimed_row, begun, EndsIn}
use symmetrical_disco.Worker.Served.{Served, served, handle_message-Served}

-- The row after a failed attempt, seen from the row before.
pub data Failed (j k : Job) : Type 0 where
  gave_up :
      j.max_attempts ≤ j.attempts + 1 → k.status ≡ failed → k.attempts ≡ j.attempts + 1 → Failed j k
  waits_again :
      j.attempts + 1 < j.max_attempts
      → is_waiting k ≡ true
      → k.attempts ≡ j.attempts + 1
      → k.max_attempts ≡ j.max_attempts
      → k.user_id ≡ j.user_id
      → k.id ≡ j.id
      → Failed j k

pub Decided-Failed :
    (s : Settings) (j k : Job) (now : Time) (error : Json) (carrier : Option Json)
    (new : List Command)
    → Decided s j now error carrier k new
    → Failed j k
Decided-Failed s j k now error carrier new (exhausted last e x) =
    gave_up last (ap (λ (r : Job). r.status) e) (ap (λ (r : Job). r.attempts) e)
Decided-Failed s j k now error carrier new (immediate stream less _ _ e x) =
    waits_again less (ap is_waiting e) (ap (λ (r : Job). r.attempts) e)
      (ap (λ (r : Job). r.max_attempts) e) (ap (λ (r : Job). r.user_id) e)
      (ap (λ (r : Job). r.id) e)
Decided-Failed s j k now error carrier new (delayed d less _ _ e x) =
    waits_again less (ap is_waiting e) (ap (λ (r : Job). r.attempts) e)
      (ap (λ (r : Job). r.max_attempts) e) (ap (λ (r : Job). r.user_id) e)
      (ap (λ (r : Job). r.id) e)

-- A row of the same job, at the same count of attempts.
abbrev pub AsMany : Job → Job → Type 0
AsMany a j =
    (a.attempts ≡ j.attempts)
    × (a.max_attempts ≡ j.max_attempts)
    × (a.user_id ≡ j.user_id)
    × (a.id ≡ j.id)

Failed-AsMany : (a j k : Job) → AsMany a j → Failed a k → Failed j k
Failed-AsMany a j k (tried, limit, user, id) (gave_up last status count) =
    gave_up (omega arith) status (count ∙ ap (λ n. n + 1) tried)
Failed-AsMany a j k (tried, limit, user, id) (waits_again less waiting count most owner same) =
    waits_again (omega arith) waiting (count ∙ ap (λ n. n + 1) tried) (most ∙ limit) (owner ∙ user)
      (same ∙ id)

pub begun-AsMany : (now : Time) (j : Job) → AsMany (begun (claimed_row now j)) j
unfolding begun claimed_row
begun-AsMany now j =
    elim (Bool-cases (is_batch (record j { status = processing; started_at = some now }))) [
      | inl many ↦ rw many (refl, refl, refl, refl)
      | inr single ↦ rw single (refl, refl, refl, refl)
    ]

raised-Ended :
    {s : Settings} {j : Job} {at : Time} {kind text : String} {l : Label} {k : Job}
    {new : List Command}
    → Ended s j at (raised kind text) l k new
    → Decided s j at (error_of kind text) none k new
raised-Ended (by_error kind text d) = d

-- The table after an attempt that failed.
abbrev LeavesFailed : JobId → Job → Table → Type 0
LeavesFailed i j t = (k : Job) × (find_job (has_id i) t ≡ some k) × Failed j k × IsUnique t

module _ (s : Settings) (handler : Job → M HandlerRun) (d : ℕ) (ds : List ℕ)
    (schedule : s.retry_backoff_schedule ≡ d ∷ ds) (kind text : String)
    (pure_handler : EndsIn handler (raised kind text)) (stream : String) (user : ℕ) where
  handler-runs : (j : Job) → RunsByStatements (handler j)
  handler-runs j = record { run = λ w l. rw (pure_handler j w) (here, l) }

  after_Served :
      (now : Time) (j : Job) (c : List Command) (last : Command) (q : Result Outcome × World)
      → Served (Ended s (begun (claimed_row now j)) now (raised kind text)) j.id c last q
      → IsUnique q.1.table
      → LeavesFailed j.id j q.1.table
  after_Served now j c last q (served l k new e there sent p) u = (
    k,
    there,
    Failed-AsMany (begun (claimed_row now j)) j k (begun-AsMany now j) (
        Decided-Failed s (begun (claimed_row now j)) k now (error_of kind text) none new
          (raised-Ended p)),
    u,
  )

  -- A delivery to a worker, at its own time, over what the ones before have left.
  abbrev delivered : JobId → Time → MessageId → World → World
  delivered i now m w =
      (handle_message s handler stream m (message_fields i none)
        (alone true w.table now w.sent w.metrics)).1

  abbrev pub deliveries : JobId → List (Time × MessageId) → World → World
  deliveries i [] w = w
  deliveries i ((now, m) ∷ rest) w = deliveries i rest (delivered i now m w)

  delivered-Failed :
      (now : Time) (m : MessageId) (w : World) (j : Job)
      → IsUnique w.table
      → find_job (has_id j.id) w.table ≡ some j
      → is_waiting j ≡ true
      → j.user_id ≡ some user
      → LeavesFailed j.id j (delivered j.id now m w).table
  delivered-Failed now m w j u there waiting owner =
      let start = alone true w.table now w.sent w.metrics in
      let (steps, _) =
        (handle_message-runs s handler handler-runs stream m (message_fields j.id none)).run start
          tt in
      after_Served now j w.sent _
        (handle_message s handler stream m (message_fields j.id none) start)
        (handle_message-Served s handler now w.sent w.metrics d ds schedule (raised kind text)
          pure_handler (λ e. cc) w.table j user stream m none u there waiting owner)
        (Steps-IsUnique steps u)

  delivered_as :
      (i : JobId) (now : Time) (m : MessageId) (w : World) (j : Job)
      → j.id ≡ i
      → IsUnique w.table
      → find_job (has_id i) w.table ≡ some j
      → is_waiting j ≡ true
      → j.user_id ≡ some user
      → LeavesFailed i j (delivered i now m w).table
  delivered_as i now m w j e u there waiting owner =
      subst
        (λ x. find_job (has_id x) w.table ≡ some j → LeavesFailed x j (delivered x now m w).table) e
        (λ found. delivered-Failed now m w j u found waiting owner) there

  -- The job has failed for good, with all its attempts used up.
  abbrev pub IsGivenUp : JobId → ℕ → Table → Type 0
  IsGivenUp i limit t =
      (k : Job) × (find_job (has_id i) t ≡ some k) × (k.status ≡ failed) × (k.attempts ≡ limit)

  go_on :
      (i : JobId) (rest : List (Time × MessageId)) (j : Job) (w : World)
      → length rest + (j.attempts + 1) ≡ j.max_attempts
      → LeavesFailed i j w.table
      → ((k : Job)
          → k.id ≡ j.id
          → k.user_id ≡ j.user_id
          → k.attempts ≡ j.attempts + 1
          → k.max_attempts ≡ j.max_attempts
          → k.attempts < k.max_attempts
          → is_waiting k ≡ true
          → find_job (has_id i) w.table ≡ some k
          → IsUnique w.table
          → IsGivenUp i k.max_attempts (deliveries i rest w).table)
      → IsGivenUp i j.max_attempts (deliveries i rest w).table
  go_on i [] j w left (k, there, gave_up last status count, u) next =
      (k, there, status, omega (arith, count))
  go_on i (x ∷ rest) j w left (k, there, gave_up last status count, u) next = absurd (omega arith)
  go_on i rest j w left (k, there, waits_again less waiting count most owner same, u) next =
      subst (λ n. IsGivenUp i n (deliveries i rest w).table) most
        (next k same owner count most (omega (arith, less, count, most)) waiting there u)

  -- Over a table with unique keys, and with a retry schedule that has an entry: a waiting job of
  -- some user, with attempts left, whose handler raises at every attempt is given up. When workers
  -- that run alone have got its message as often as it has attempts left, whatever time passes
  -- between, its row is failed, with its attempts at the limit.
  pub deliveries-IsGivenUp :
      (i : JobId) (times : List (Time × MessageId)) (w : World) (j : Job)
      → length times + j.attempts ≡ j.max_attempts
      → j.attempts < j.max_attempts
      → j.id ≡ i
      → IsUnique w.table
      → find_job (has_id i) w.table ≡ some j
      → is_waiting j ≡ true
      → j.user_id ≡ some user
      → IsGivenUp i j.max_attempts (deliveries i times w).table
  deliveries-IsGivenUp i [] w j left more e u there waiting owner = absurd (omega arith)
  deliveries-IsGivenUp i ((now, m) ∷ rest) w j left more e u there waiting owner =
      go_on i rest j (delivered i now m w) (omega arith)
        (delivered_as i now m w j e u there waiting owner)
        (λ k same owns count most below waits found unique.
          deliveries-IsGivenUp i rest (delivered i now m w) k (omega (arith, left, count, most))
            below (same ∙ e) unique found waits (owns ∙ owner))
