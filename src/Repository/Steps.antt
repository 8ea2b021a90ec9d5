-- ===== src/Repository/Steps.antt =====
-- The statements of the repository as a step relation on the table, and the diagram of the job
-- statuses that it refines.
use mathlib.Core.Option
use symmetrical_disco.Base.{
  ℕ, ◌≡◌, refl, ap, ◌∙◌, Bool, true, ◌⊎◌, Option, some, List, [], ◌∷◌, arith, is_some,
}
use symmetrical_disco.Models.{
  Job, JobId, Json, Time, JobStatus, scheduled, pending, processing, completed, failed, cancelled,
}
use symmetrical_disco.Repository.{
  Table, NewJob, new_job, update_where, find_job, has_id, create_job, mark_synced, claim_job,
  complete_job, fail_job, retry_to_pending, retry_to_scheduled, reset_failed_to_pending,
  promote_scheduled_to_pending, init_progress, cancel_pending_or_scheduled, request_cancel,
  cancel_job, write_progress,
}
use symmetrical_disco.Repository.Rows.{updated, find-update_where, find-insert_row}

-- A row as the API creates it: pending, or scheduled with its time.
pub data IsFresh (n : NewJob) : Type 0 where
  now_due : n.status ≡ pending → IsFresh n
  deferred : n.status ≡ scheduled → is_some n.scheduled_at ≡ true → IsFresh n

-- One statement of one process.
pub data Step : Table → Table → Type 0 where
  create :
      (id : JobId) (now : Time) (n : NewJob) {t t' : Table}
      → IsFresh n
      → create_job id now n t ≡ some t'
      → Step t t'
  sync : (i : JobId) (t : Table) → Step t (mark_synced i t)
  claim : (now : Time) (i : JobId) (t : Table) → Step t (claim_job now i t).0
  complete :
      (now : Time) (i : JobId) (r : Json) (p : Option ℕ) (t : Table)
      → Step t (complete_job now i r p t).0
  fail : (now : Time) (i : JobId) (e : Json) (t : Table) → Step t (fail_job now i e t).0
  retry : (i : JobId) (t : Table) → Step t (retry_to_pending i t).0
  defer : (i : JobId) (at : Time) (t : Table) → Step t (retry_to_scheduled i at t).0
  reset : (i : JobId) (t : Table) → Step t (reset_failed_to_pending i t).0
  promote : (is : List JobId) (t : Table) → Step t (promote_scheduled_to_pending is t).0
  begin_progress : (i : JobId) (t : Table) → Step t (init_progress i t).0
  cancel_waiting :
      (now : Time) (i : JobId) (t : Table) → Step t (cancel_pending_or_scheduled now i t).0
  ask_cancel : (now : Time) (i : JobId) (t : Table) → Step t (request_cancel now i t).0
  cancel : (now : Time) (i : JobId) (s : Json) (t : Table) → Step t (cancel_job now i s t).0
  report : (i : JobId) (pct : ℕ) (t : Table) → Step t (write_progress i pct t).0

-- Statements of any processes, in the order in which the database runs them.
pub data Steps : Table → Table → Type 0 where
  here : {t : Table} → Steps t t
  next : {s t u : Table} → Step s t → Steps t u → Steps s u

pub Steps-trans : {s t u : Table} → Steps s t → Steps t u → Steps s u
Steps-trans here q = q
Steps-trans (next a p) q = next a (Steps-trans p q)

pub Steps-one : {s t : Table} → Step s t → Steps s t
Steps-one a = next a here

-- The status diagram.
pub data Edge : JobStatus → JobStatus → Type 0 where
  stay : {s : JobStatus} → Edge s s
  claimed : {s : JobStatus} → (s ≡ pending) ⊎ (s ≡ scheduled) → Edge s processing
  withdrawn : {s : JobStatus} → (s ≡ pending) ⊎ (s ≡ scheduled) → Edge s cancelled
  due : Edge scheduled pending
  finished : Edge processing completed
  broken : Edge processing failed
  stopped : Edge processing cancelled
  again : Edge processing pending
  later : Edge processing scheduled
  revived : Edge failed pending

-- What a statement may do to one row: move it along the diagram, and leave the identity, the
-- ownership and the request as they were; completed and cancelled rows change only their sync flag.
pub record Moves (j k : Job) : Type 0 where
  pub edge : Edge j.status k.status
  pub same_id : k.id ≡ j.id
  pub same_owner : k.user_id ≡ j.user_id
  pub same_request :
      (k.type ≡ j.type)
      × (k.payload ≡ j.payload)
      × (k.priority ≡ j.priority)
      × (k.max_attempts ≡ j.max_attempts)
      × (k.created_at ≡ j.created_at)
  pub same_key : (k.idempotency_key ≡ j.idempotency_key) × (k.idempotency_hash ≡ j.idempotency_hash)
  pub frozen :
      (j.status ≡ completed) ⊎ (j.status ≡ cancelled)
      → k ≡ record j { is_synced_to_redis = k.is_synced_to_redis }

ruleset edges = (stay, claimed, withdrawn, due, finished, broken, stopped, again, later, revived)

-- The row that an UPDATE leaves in the place of a row.
moved :
    (p : Job → Bool) (f : Job → Job) (i : JobId) (t : Table) {j : Job}
    → ((r : Job) → (f r).id ≡ r.id)
    → find_job (has_id i) t ≡ some j
    → Moves j (updated p f j)
    → (k : Job) × (find_job (has_id i) (update_where p f t).0 ≡ some k) × Moves j k
moved p f i t {j} same e m =
    (updated p f j, find-update_where p f i same t ∙ ap (Option.map (updated p f)) e, m)

-- Every statement moves every row along the diagram.
pub Step-Moves :
    {t u : Table} (i : JobId) {j : Job}
    → Step t u
    → find_job (has_id i) t ≡ some j
    → (k : Job) × (find_job (has_id i) u ≡ some k) × Moves j k
unfolding mark_synced claim_job complete_job fail_job retry_to_pending retry_to_scheduled
    reset_failed_to_pending promote_scheduled_to_pending init_progress cancel_pending_or_scheduled
    request_cancel cancel_job write_progress create_job
Step-Moves i {j} (create id now n {t} {t'} fresh made) e =
    (j, find-insert_row i (new_job id now n) t made e, grind (arith, edges))
Step-Moves i (sync k t) e = moved _ _ i t (λ _. refl) e (grind (arith, edges))
Step-Moves i (claim now k t) e = moved _ _ i t (λ _. refl) e (grind (arith, edges))
Step-Moves i (complete now k r p t) e = moved _ _ i t (λ _. refl) e (grind (arith, edges))
Step-Moves i (fail now k r t) e = moved _ _ i t (λ _. refl) e (grind (arith, edges))
Step-Moves i (retry k t) e = moved _ _ i t (λ _. refl) e (grind (arith, edges))
Step-Moves i (defer k at t) e = moved _ _ i t (λ _. refl) e (grind (arith, edges))
Step-Moves i (reset k t) e = moved _ _ i t (λ _. refl) e (grind (arith, edges))
Step-Moves i {j} (promote [] t) e = (j, e, grind (arith, edges))
Step-Moves i (promote (k ∷ ks) t) e = moved _ _ i t (λ _. refl) e (grind (arith, edges))
Step-Moves i (begin_progress k t) e = moved _ _ i t (λ _. refl) e (grind (arith, edges))
Step-Moves i (cancel_waiting now k t) e = moved _ _ i t (λ _. refl) e (grind (arith, edges))
Step-Moves i (ask_cancel now k t) e = moved _ _ i t (λ _. refl) e (grind (arith, edges))
Step-Moves i (cancel now k r t) e = moved _ _ i t (λ _. refl) e (grind (arith, edges))
Step-Moves i (report k pct t) e = moved _ _ i t (λ _. refl) e (grind (arith, edges))
