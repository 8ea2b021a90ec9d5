-- ===== src/Repository/Winners.antt =====
-- A guarded statement of app/repository.py about one job, over a table whose ids are unique.
use symmetrical_disco.Base.{
  ℕ, ◌+◌, ◌≡◌, refl, ap, ◌∙◌, Bool, true, false, Option, none, some, [], ◌∷◌, arith, any, All,
  if◌then◌else◌, Bool-cases, inl, inr, ◌&&◌,
}
use mathlib.Core.Option
use symmetrical_disco.Models.{
  Job, JobId, Json, Time, pending, scheduled, processing, completed, failed, cancelled,
}
use symmetrical_disco.Repository.{
  Table, update_where, find_job, has_id, clashes, changed_one, is_processing, is_waiting, claim_job,
  complete_job, fail_job, retry_to_pending, retry_to_scheduled, cancel_job, init_progress,
  mark_synced, set_progress, cancel_pending_or_scheduled, request_cancel, get_job, same_user,
}
use symmetrical_disco.Repository.Rows.{
  updated, find-update_where, update_where-none, find_job_sound,
}
use symmetrical_disco.Repository.Unique.{IsUnique}

find_job-and :
    (i : JobId) (q : Job → Bool) (t : Table) {j : Job}
    → find_job (has_id i) t ≡ some j
    → q j ≡ true
    → find_job (λ r. has_id i r && q r) t ≡ some j
unfolding find_job
find_job-and i q [] e h = cc
find_job-and i q (k ∷ ks) {j} e h = elim (Bool-cases (has_id i k)) [
  | inl same ↦
      let first : some k ≡ some j = rw same at e in
      let it : k ≡ j = cc in let good : q k ≡ true = ap q it ∙ h in rw (same, good) first
  | inr other ↦ rw other (find_job-and i q ks (rw other at e) h)
]

find_job-none : (q : Job → Bool) (t : Table) → All (λ r. q r ≡ false) t → find_job q t ≡ none
unfolding find_job
find_job-none q [] a = refl
find_job-none q (k ∷ ks) a = rw a.0 (find_job-none q ks a.1)

-- A user who owns no row of that id finds none.
pub get_job-foreign :
    (i : JobId) (t : Table) (user : ℕ)
    → All (λ r. has_id i r && same_user r.user_id (some user) ≡ false) t
    → get_job i (some user) t ≡ none
unfolding get_job
get_job-foreign i t user a = find_job-none _ t a

pub others_of_unique :
    (i : JobId) (k : Job) (ks : Table)
    → any (clashes k) ks ≡ false
    → has_id i k ≡ true
    → All (λ r. has_id i r ≡ false) ks
others_of_unique i k [] a h = tt
others_of_unique i k (r ∷ rs) a h = (ground arith, others_of_unique i k rs (ground arith) h)

All-guard :
    (i : JobId) (p : Job → Bool)
    → ((r : Job) → p r ≡ true → has_id i r ≡ true)
    → (t : Table) → All (λ r. has_id i r ≡ false) t
    → All (λ r. p r ≡ false) t
All-guard i p narrow [] a = tt
All-guard i p narrow (r ∷ rs) a = (ground (arith, narrow r), All-guard i p narrow rs a.1)

module _ (i : JobId) (p : Job → Bool) (f : Job → Job)
    (narrow : (r : Job) → p r ≡ true → has_id i r ≡ true) where
  -- How many rows the statement changes.
  pub rowcount :
      (t : Table) {j : Job}
      → IsUnique t
      → find_job (has_id i) t ≡ some j
      → (update_where p f t).1 ≡ (if p j then 1 else 0)
  unfolding update_where find_job
  rowcount [] u e = cc
  rowcount (k ∷ ks) {j} u e = elim (Bool-cases (has_id i k)) [
    | inl h ↦
        let rest =
          update_where-none p f ks (All-guard i p narrow ks (others_of_unique i k ks u.0 h)) in
        ground (arith, rest)
    | inr h ↦ ground (arith, narrow k, rowcount ks {j = j} u.1)
  ]

  pub changed_one-found :
      (t : Table) {j : Job}
      → IsUnique t
      → find_job (has_id i) t ≡ some j
      → (changed_one (update_where p f t)).1 ≡ p j
  changed_one-found t {j} u e = ground (arith, rowcount t {j = j} u e)

-- A statement with a guard, on a table that holds the row: whether it won, and the row after it.
pub record Wins (i : JobId) (t : Table) (j : Job) (guard : Bool) (change : Job) (r : Table × Bool)
    : Type 0 where
  pub answer : r.1 ≡ guard
  pub row : find_job (has_id i) r.0 ≡ some (if guard then change else j)

pub Wins-row :
    {i : JobId} {t : Table} {j change : Job} {guard : Bool} {r : Table × Bool}
    → Wins i t j guard change r
    → guard ≡ true
    → find_job (has_id i) r.0 ≡ some change
Wins-row {j = j} {change = k} w h = w.row ∙ ap (λ b. some (if b then k else j)) h

guarded-Wins :
    (i : JobId) (p : Job → Bool) (f : Job → Job) (t : Table) (j : Job)
    → ((r : Job) → p r ≡ true → has_id i r ≡ true)
    → ((r : Job) → (f r).id ≡ r.id)
    → IsUnique t
    → find_job (has_id i) t ≡ some j
    → Wins i t j (p j) (f j) (changed_one (update_where p f t))
guarded-Wins i p f t j narrow same u e = record {
  answer = changed_one-found i p f narrow t u e;
  row = find-update_where p f i same t ∙ ap (Option.map (updated p f)) e;
}

module _ (t : Table) (j : Job) (u : IsUnique t) (e : find_job (has_id j.id) t ≡ some j) where
  pub complete_job-Wins :
      (now : Time) (r : Json) (p : Option ℕ)
      → Wins j.id t j
          (is_processing j.id j)
          (record j {
            status = completed;
            result = some r;
            completed_at = some now;
            attempts = j.attempts + 1;
            progress = set_progress p j.progress;
          })
          (complete_job now j.id r p t)
  unfolding complete_job
  complete_job-Wins now r p = guarded-Wins j.id _ _ t j (λ r h. ground arith) (λ r. refl) u e

  pub fail_job-Wins :
      (now : Time) (error : Json)
      → Wins j.id t j
          (is_processing j.id j)
          (record j {
            status = failed;
            error = some error;
            completed_at = some now;
            attempts = j.attempts + 1;
          })
          (fail_job now j.id error t)
  unfolding fail_job
  fail_job-Wins now error = guarded-Wins j.id _ _ t j (λ r h. ground arith) (λ r. refl) u e

  pub retry_to_pending-Wins :
      Wins j.id t j
        (is_processing j.id j)
        (record j {
          status = pending;
          attempts = j.attempts + 1;
          is_synced_to_redis = false;
          started_at = none;
        })
        (retry_to_pending j.id t)
  unfolding retry_to_pending
  retry_to_pending-Wins = guarded-Wins j.id _ _ t j (λ r h. ground arith) (λ r. refl) u e

  pub retry_to_scheduled-Wins :
      (at : Time)
      → Wins j.id t j
          (is_processing j.id j)
          (record j {
            status = scheduled;
            scheduled_at = some at;
            attempts = j.attempts + 1;
            is_synced_to_redis = false;
            started_at = none;
          })
          (retry_to_scheduled j.id at t)
  unfolding retry_to_scheduled
  retry_to_scheduled-Wins at = guarded-Wins j.id _ _ t j (λ r h. ground arith) (λ r. refl) u e

  pub cancel_job-Wins :
      (now : Time) (s : Json)
      → Wins j.id t j
          (is_processing j.id j)
          (record j { status = cancelled; result = some s; completed_at = some now })
          (cancel_job now j.id s t)
  unfolding cancel_job
  cancel_job-Wins now s = guarded-Wins j.id _ _ t j (λ r h. ground arith) (λ r. refl) u e

  pub claim_job-Wins :
      (now : Time)
      → Wins j.id t j
          (has_id j.id j && is_waiting j)
          (record j { status = processing; started_at = some now })
          (claim_job now j.id t)
  unfolding claim_job
  claim_job-Wins now = guarded-Wins j.id _ _ t j (λ r h. ground arith) (λ r. refl) u e

  pub init_progress-Wins :
      Wins j.id t j (is_processing j.id j) (record j { progress = some 0 }) (init_progress j.id t)
  unfolding init_progress
  init_progress-Wins = guarded-Wins j.id _ _ t j (λ r h. ground arith) (λ r. refl) u e

  pub cancel_pending_or_scheduled-Wins :
      (now : Time)
      → Wins j.id t j
          (has_id j.id j && is_waiting j)
          (record j { status = cancelled; completed_at = some now })
          (cancel_pending_or_scheduled now j.id t)
  unfolding cancel_pending_or_scheduled
  cancel_pending_or_scheduled-Wins now =
      guarded-Wins j.id _ _ t j (λ r h. ground arith) (λ r. refl) u e

  pub request_cancel-Wins :
      (now : Time)
      → Wins j.id t j
          (is_processing j.id j)
          (record j { cancel_requested_at = some now })
          (request_cancel now j.id t)
  unfolding request_cancel
  request_cancel-Wins now = guarded-Wins j.id _ _ t j (λ r h. ground arith) (λ r. refl) u e

  -- The owner of the row finds it.
  pub get_job-owner :
      (user : ℕ) → same_user j.user_id (some user) ≡ true → get_job j.id (some user) t ≡ some j
  unfolding get_job
  get_job-owner user own = find_job-and j.id (λ r. same_user r.user_id (some user)) t e own

-- A guard that a job's row does not pass, no row passes.
pub guard-All :
    (i : JobId) (p : Job → Bool) (t : Table) {j : Job}
    → ((r : Job) → p r ≡ true → has_id i r ≡ true)
    → IsUnique t
    → find_job (has_id i) t ≡ some j
    → p j ≡ false
    → All (λ r. p r ≡ false) t
unfolding find_job
guard-All i p [] narrow u e off = tt
guard-All i p (k ∷ ks) {j} narrow u e off = elim (Bool-cases (has_id i k)) [
  | inl h ↦ (ground (arith, e), All-guard i p narrow ks (others_of_unique i k ks u.0 h))
  | inr h ↦ (ground (arith, narrow k), guard-All i p ks {j = j} narrow u.1 (rw h at e) off)
]

-- The sync flag is set on the row, and nothing else is.
pub find-mark_synced :
    (i : JobId) (t : Table) {j : Job}
    → find_job (has_id i) t ≡ some j
    → find_job (has_id i) (mark_synced i t) ≡ some (record j { is_synced_to_redis = true })
unfolding mark_synced
find-mark_synced i t {j} e =
    find-update_where (has_id i) (λ r. record r { is_synced_to_redis = true }) i (λ r. refl) t
    ∙ ap (Option.map (updated (has_id i) (λ r. record r { is_synced_to_redis = true }))) e
    ∙ ground (arith, find_job_sound (has_id i) t {j = j} e)
