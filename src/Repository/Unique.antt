-- ===== src/Repository/Unique.antt =====
-- The primary key and `uq_jobs_user_idempotency_key` of app/models/job.py, over any statements.
use symmetrical_disco.Base.{◌≡◌, refl, ◌∙◌, Bool, false, some, [], ◌∷◌, any, Bool-cases, inl, inr}
use symmetrical_disco.Models.{Job}
use symmetrical_disco.Repository.{
  Table, new_job, update_where, insert_row, clashes, create_job, mark_synced, claim_job,
  complete_job, fail_job, retry_to_pending, retry_to_scheduled, reset_failed_to_pending,
  promote_scheduled_to_pending, init_progress, cancel_pending_or_scheduled, request_cancel,
  cancel_job, write_progress,
}
use symmetrical_disco.Repository.Rows.{insert_row-some}
use symmetrical_disco.Repository.Steps.{
  Step, Steps, here, next, create, sync, claim, complete, fail, retry, defer, reset, promote,
  begin_progress, cancel_waiting, ask_cancel, cancel, report,
}

-- Each row clashes with none of the rows below it.
abbrev pub IsUnique : Table → Type 0
IsUnique [] = Unit
IsUnique (j ∷ js) = (any (clashes j) js ≡ false) × IsUnique js

module _ (p : Job → Bool) (f : Job → Job)
    (same : (a b : Job) → (clashes (f a) b ≡ clashes a b) × (clashes a (f b) ≡ clashes a b)) where
  any-clashes-update_where :
      (a : Job) (t : Table) → any (clashes a) (update_where p f t).0 ≡ any (clashes a) t
  unfolding update_where
  any-clashes-update_where a [] = refl
  any-clashes-update_where a (j ∷ js) = elim (Bool-cases (p j)) [
    | inl e ↦ rw (e, (same a j).1, any-clashes-update_where a js)
    | inr e ↦ rw (e, any-clashes-update_where a js)
  ]

  any-clashes-left : (a : Job) (t : Table) → any (clashes (f a)) t ≡ any (clashes a) t
  any-clashes-left a [] = refl
  any-clashes-left a (j ∷ js) = rw ((same a j).0, any-clashes-left a js)

  update_where-IsUnique : (t : Table) → IsUnique t → IsUnique (update_where p f t).0
  unfolding update_where
  update_where-IsUnique [] u = tt
  update_where-IsUnique (j ∷ js) u = elim (Bool-cases (p j)) [
    | inl e ↦ rw e (
      any-clashes-update_where (f j) js ∙ any-clashes-left j js ∙ u.0,
      update_where-IsUnique js u.1,
    )
    | inr e ↦ rw e (any-clashes-update_where j js ∙ u.0, update_where-IsUnique js u.1)
  ]

insert-IsUnique :
    (j : Job) (t : Table) {u : Table} → insert_row j t ≡ some u → IsUnique t → IsUnique u
insert-IsUnique j t e v = let (fresh, made) = insert_row-some j t e in rw made (fresh, v)

-- Every statement keeps ids unique, and keys unique among the rows of one user.
pub Step-IsUnique : {t u : Table} → Step t u → IsUnique t → IsUnique u
unfolding mark_synced claim_job complete_job fail_job retry_to_pending retry_to_scheduled
    reset_failed_to_pending promote_scheduled_to_pending init_progress cancel_pending_or_scheduled
    request_cancel cancel_job write_progress create_job
Step-IsUnique (create id now n {t} fresh made) v = insert-IsUnique (new_job id now n) t made v
Step-IsUnique (sync i t) v = update_where-IsUnique _ _ (λ a b. (refl, refl)) t v
Step-IsUnique (claim now i t) v = update_where-IsUnique _ _ (λ a b. (refl, refl)) t v
Step-IsUnique (complete now i r p t) v = update_where-IsUnique _ _ (λ a b. (refl, refl)) t v
Step-IsUnique (fail now i e t) v = update_where-IsUnique _ _ (λ a b. (refl, refl)) t v
Step-IsUnique (retry i t) v = update_where-IsUnique _ _ (λ a b. (refl, refl)) t v
Step-IsUnique (defer i at t) v = update_where-IsUnique _ _ (λ a b. (refl, refl)) t v
Step-IsUnique (reset i t) v = update_where-IsUnique _ _ (λ a b. (refl, refl)) t v
Step-IsUnique (promote [] t) v = v
Step-IsUnique (promote (i ∷ is) t) v = update_where-IsUnique _ _ (λ a b. (refl, refl)) t v
Step-IsUnique (begin_progress i t) v = update_where-IsUnique _ _ (λ a b. (refl, refl)) t v
Step-IsUnique (cancel_waiting now i t) v = update_where-IsUnique _ _ (λ a b. (refl, refl)) t v
Step-IsUnique (ask_cancel now i t) v = update_where-IsUnique _ _ (λ a b. (refl, refl)) t v
Step-IsUnique (cancel now i s t) v = update_where-IsUnique _ _ (λ a b. (refl, refl)) t v
Step-IsUnique (report i pct t) v = update_where-IsUnique _ _ (λ a b. (refl, refl)) t v

-- Any sequence of statements does.
pub Steps-IsUnique : {t u : Table} → Steps t u → IsUnique t → IsUnique u
Steps-IsUnique here v = v
Steps-IsUnique (next s r) v = Steps-IsUnique r (Step-IsUnique s v)
