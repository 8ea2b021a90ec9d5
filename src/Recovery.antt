-- ===== src/Recovery.antt =====
-- A job whose worker has died: `_reap_one` of app/ticker/runner.py takes its message over,
-- `promote_due` may promote it, and `handle_message` of app/worker/runner.py gets its next message,
-- each running alone, at its own time.
use symmetrical_disco.Base.{
  ℕ, ◌+◌, ◌≤◌, ◌<◌, ◌≡◌, refl, ap, ◌∙◌, String, Bool, true, ◌&&◌, Option, some, List, [], ◌∷◌, any,
  arith, inl, inr, Bool-cases,
}
use mathlib.Core.Option
use mathlib.Core.Path.{subst}
use symmetrical_disco.Models.{
  Job, JobId, Json, Time, pending, scheduled, processing, completed, failed,
}
use symmetrical_disco.Config.{Settings}
use symmetrical_disco.Repository.{
  Table, find_job, has_id, has_status, is_waiting, promote_scheduled_to_pending,
}
use symmetrical_disco.Repository.Rows.{updated, find-update_where}
use symmetrical_disco.Repository.Unique.{IsUnique, Steps-IsUnique}
use symmetrical_disco.Effects.{World, M, Result, Command, Measurement, Label, MessageId, xack}
use symmetrical_disco.Effects.Alone.{alone}
use symmetrical_disco.Queue.{message_fields}
use symmetrical_disco.Worker.{Outcome, HandlerRun, returned, handle_message}
use symmetrical_disco.Worker.Settle.{Ended}
use symmetrical_disco.Worker.Attempt.{claimed_row, begun, EndsIn}
use symmetrical_disco.Worker.Served.{Served, served, handle_message-Served}
use symmetrical_disco.Worker.GivesUp.{
  Failed, gave_up, waits_again, Decided-Failed, AsMany, begun-AsMany,
}
use symmetrical_disco.Ticker.{worker_lost, reap_one}
use symmetrical_disco.Ticker.Takeover.{Reaped, reaped, reap_one-Reaped}
use symmetrical_disco.Ticker.Runs.{reap_one-runs}
use symmetrical_disco.Ticker.Outbox.{promoted, promoted-IsUnique}
use symmetrical_disco.Journey.{with_result, returned-Ended}

-- A row that waits for a worker, with the owner and the attempts of another.
abbrev Waits : JobId → Job → Table → Type 0
Waits i k t = (r : Job) × (find_job (has_id i) t ≡ some r) × (is_waiting r ≡ true) × AsMany r k

promoted_row :
    (p : Job → Bool) (k : Job)
    → is_waiting k ≡ true
    → (is_waiting (updated p (λ r. record r { status = pending }) k) ≡ true)
      × AsMany (updated p (λ r. record r { status = pending }) k) k
promoted_row p k h = elim (Bool-cases (p k)) [
  | inl taken ↦ rw taken (refl, (refl, refl, refl, refl))
  | inr left ↦ rw left (h, (refl, refl, refl, refl))
]

-- Whatever ids a promotion is about, a row that waits still waits behind it.
promoted-Waits :
    (i : JobId) (k : Job) (is : List JobId) (t : Table)
    → find_job (has_id i) t ≡ some k
    → is_waiting k ≡ true
    → Waits i k (promoted is t)
unfolding promote_scheduled_to_pending
promoted-Waits i k [] t e h = (k, e, h, (refl, refl, refl, refl))
promoted-Waits i k (x ∷ is) t e h =
    let p : Job → Bool = λ r. any (λ y. has_id y r) (x ∷ is) && has_status scheduled r in
    let f : Job → Job = λ r. record r { status = pending } in
    let (waits, same) = promoted_row p k h in
    (
      updated p f k,
      find-update_where p f i (λ r. refl) t ∙ ap (Option.map (updated p f)) e,
      waits,
      same,
    )

module _ (s : Settings) (handler : Job → M HandlerRun) (d : ℕ) (ds : List ℕ)
    (schedule : s.retry_backoff_schedule ≡ d ∷ ds) (v : Json)
    (pure_handler : EndsIn handler (returned v)) (j : Job) where
  -- The worker is done: the row holds the value, and both attempts are counted.
  pub record IsDone (l : Label) (k : Job) (new : List Command) : Type 0 where
    pub label : l ≡ Label.completed
    pub status : k.status ≡ completed
    pub result : k.result ≡ some v
    pub attempts : k.attempts ≡ j.attempts + 2
    pub sends_nothing : new ≡ []

  with_result-AsMany :
      (later : Time) (r : Job)
      → (with_result later v (begun (claimed_row later r))).attempts ≡ r.attempts + 1
  with_result-AsMany later r = ap (λ n. n + 1) (begun-AsMany later r).0

  Ended-IsDone :
      (later : Time) (k r : Job)
      → k.attempts ≡ j.attempts + 1
      → AsMany r k
      → (l : Label) (x : Job) (new : List Command)
      → Ended s (begun (claimed_row later r)) later (returned v) l x new
      → IsDone l x new
  Ended-IsDone later k r count same l x new end =
      let (label, (row, silent)) = returned-Ended end in
      record {
        label = label;
        status = ap (λ (y : Job). y.status) row;
        result = ap (λ (y : Job). y.result) row;
        attempts =
            ap (λ (y : Job). y.attempts) row
            ∙ omega (arith, with_result-AsMany later r, same.0, count);
        sends_nothing = silent;
      }

  Served-IsDone :
      (later : Time) (k r : Job)
      → k.attempts ≡ j.attempts + 1
      → AsMany r k
      → (i : JobId) (sent : List Command) (last : Command) (q : Result Outcome × World)
      → Served (Ended s (begun (claimed_row later r)) later (returned v)) i sent last q
      → Served IsDone i sent last q
  Served-IsDone later k r count same i sent last q (served l x new e there told end) =
      served l x new e there told (Ended-IsDone later k r count same l x new end)

  -- The next message of the job, of any stream, that a worker gets: it comes at some later time,
  -- and behind a promotion of any ids.
  abbrev pub redelivered :
      Table
      → List JobId
      → Time
      → String
      → MessageId
      → Option Json
      → List Command
      → List Measurement
      → Result Outcome × World
  redelivered t is later stream id carrier sent ns =
      handle_message s handler stream id (message_fields j.id carrier)
        (alone true (promoted is t) later sent ns)

  redelivered-IsDone :
      (t : Table) (k : Job) (user : ℕ)
      → IsUnique t
      → find_job (has_id j.id) t ≡ some k
      → is_waiting k ≡ true
      → k.attempts ≡ j.attempts + 1
      → k.user_id ≡ some user
      → k.id ≡ j.id
      → (is : List JobId) (later : Time) (stream : String) (id : MessageId) (carrier : Option Json)
        (sent : List Command) (ns : List Measurement)
      → Served IsDone j.id sent
          (xack stream s.consumer_group id)
          (redelivered t is later stream id carrier sent ns)
  redelivered-IsDone t k user u there waits count owner named is later stream id carrier sent ns =
      let (r, found, waiting, same) = promoted-Waits j.id k is t there waits in
      let it : r.id ≡ j.id = same.3 ∙ named in
      Served-IsDone later k r count same j.id sent _ _ (
        subst
          (λ i.
            find_job (has_id i) (promoted is t) ≡ some r
            → Served (Ended s (begun (claimed_row later r)) later (returned v)) i sent
                (xack stream s.consumer_group id)
                (handle_message s handler stream id (message_fields i carrier)
                  (alone true (promoted is t) later sent ns)))
          it
          (λ e.
            handle_message-Served s handler later sent ns d ds schedule (returned v) pure_handler
              (λ x. cc) (promoted is t) r user stream id carrier (promoted-IsUnique is t u) e
              waiting (same.2 ∙ owner))
          found)

  -- How the job of a dead worker goes on from the table `t`.
  pub data Recovered (t : Table) : Type 0 where
    failed_for_good :
        (k : Job)
        → find_job (has_id j.id) t ≡ some k
        → j.max_attempts ≤ j.attempts + 1
        → k.status ≡ failed
        → Recovered t
    completed_later :
        (k : Job)
        → find_job (has_id j.id) t ≡ some k
        → j.attempts + 1 < j.max_attempts
        → is_waiting k ≡ true
        → ((is : List JobId) (later : Time) (stream : String) (id : MessageId)
              (carrier : Option Json) (sent : List Command) (ns : List Measurement)
            → Served IsDone j.id sent
                (xack stream s.consumer_group id)
                (redelivered t is later stream id carrier sent ns))
        → Recovered t

  module _ (now : Time) (c : List Command) (stream : String) (m : MessageId) (user : ℕ) where
    recover :
        (q : Result (Unit {0}) × World)
        → IsUnique q.1.table
        → j.user_id ≡ some user
        → Reaped s j now c stream m q
        → Recovered q.1.table
    recover q u owner (reaped k new e there sent end) =
        go_on (Decided-Failed s j k now worker_lost j.trace_context new end)
      where
        go_on : Failed j k → Recovered q.1.table
        go_on (gave_up last status count) = failed_for_good k there last status
        go_on (waits_again more waits count most owns named) =
            completed_later k there more waits
              (redelivered-IsDone q.1.table k user u there waits count (owns ∙ owner) named)

    -- A worker has died with a job of some user, and the reaper takes its message over, alone, while
    -- Redis is up, over a table with unique keys and with a retry schedule that has an entry. It
    -- tells Redis of the row's new state, if the row waits again, and acknowledges last. If this was
    -- the last attempt, the row is failed. Else the next message of the job that a worker gets, on
    -- any stream, at any time, behind a promotion of any ids, completes the job, if the worker runs
    -- alone, Redis is up and the handler returns a value: the row holds that value and both
    -- attempts, and the message is acknowledged.
    pub reap_one-Recovered :
        (t : Table) (ms : List Measurement)
        → IsUnique t
        → find_job (has_id j.id) t ≡ some j
        → j.status ≡ processing
        → j.user_id ≡ some user
        → Reaped s j now c stream m (reap_one s stream m j.id (alone true t now c ms))
          × Recovered (reap_one s stream m j.id (alone true t now c ms)).1.table
    reap_one-Recovered t ms u e running owner =
        let q = reap_one s stream m j.id (alone true t now c ms) in
        let (steps, _) = (reap_one-runs s stream m j.id).run (alone true t now c ms) tt in
        let taken = reap_one-Reaped s j now c stream m t ms d ds schedule u e running in
        (taken, recover q (Steps-IsUnique steps u) owner taken)
