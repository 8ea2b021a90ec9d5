-- ===== src/Repository/Claims.antt =====
-- The guarded transitions of app/repository.py, several at a time.
use symmetrical_disco.Base.{ℕ, ◌≡◌, ap, Bool, true, false, Option, arith, All}
use symmetrical_disco.Models.{Job, JobId, Json, Time}
use symmetrical_disco.Repository.{
  Table, update_where, claim_job, complete_job, fail_job, retry_to_pending, retry_to_scheduled,
  cancel_pending_or_scheduled, cancel_job, is_processing, changed_one,
}
use symmetrical_disco.Repository.Rows.{All-update_where, update_where-none}

-- A statement whose rows leave the guard of a second one leaves that one nothing to do.
second-loses :
    (p q : Job → Bool) (f g : Job → Job) (t : Table)
    → ((j : Job) → p j ≡ true → q (f j) ≡ false)
    → ((j : Job) → p j ≡ false → q j ≡ false)
    → changed_one (update_where q g (update_where p f t).0) ≡ ((update_where p f t).0, false)
second-loses p q f g t out off = ap changed_one (
    update_where-none q g (update_where p f t).0
      (All-update_where p f (λ j. q j ≡ false) out off t))

-- A job that one worker has claimed no other worker claims: the second statement changes nothing and
-- says so.
pub claim_job-claim_job :
    (now later : Time) (i : JobId) (t : Table)
    → claim_job later i (claim_job now i t).0 ≡ ((claim_job now i t).0, false)
unfolding claim_job
claim_job-claim_job now later i t = second-loses _ _ _ _ t (λ j h. ground arith) (λ j h. h)

-- A claim and a cancellation of a waiting job exclude one another, in either order.
pub claim_job-cancel_excluded :
    (now later : Time) (i : JobId) (t : Table)
    → (cancel_pending_or_scheduled later i (claim_job now i t).0 ≡ ((claim_job now i t).0, false))
      × (claim_job later i (cancel_pending_or_scheduled now i t).0
          ≡ ((cancel_pending_or_scheduled now i t).0, false))
unfolding claim_job cancel_pending_or_scheduled
claim_job-cancel_excluded now later i t = (
  second-loses _ _ _ _ t (λ j h. ground arith) (λ j h. h),
  second-loses _ _ _ _ t (λ j h. ground arith) (λ j h. h),
)

-- The statements that end an attempt.
pub data Ending : Type 0 where
  completes : Time → Json → Option ℕ → Ending
  fails : Time → Json → Ending
  retries : Ending
  defers : Time → Ending
  cancels : Time → Json → Ending

unfoldable pub finish : Ending → JobId → Table → Table × Bool
finish (completes now r p) i t = complete_job now i r p t
finish (fails now e) i t = fail_job now i e t
finish retries i t = retry_to_pending i t
finish (defers at) i t = retry_to_scheduled i at t
finish (cancels now s) i t = cancel_job now i s t

program : Unit {0}
unfolding complete_job fail_job retry_to_pending retry_to_scheduled cancel_job
program = tt

pub guarded :
    (a : Ending) (i : JobId) (t : Table)
    → All (λ j. is_processing i j ≡ false) t
    → finish a i t ≡ (t, false)
unfolding finish program
guarded (completes now r p) i t h = ap changed_one (update_where-none _ _ t h)
guarded (fails now e) i t h = ap changed_one (update_where-none _ _ t h)
guarded retries i t h = ap changed_one (update_where-none _ _ t h)
guarded (defers at) i t h = ap changed_one (update_where-none _ _ t h)
guarded (cancels now s) i t h = ap changed_one (update_where-none _ _ t h)

finish-none_left :
    (a : Ending) (i : JobId) (t : Table) → All (λ j. is_processing i j ≡ false) (finish a i t).0
unfolding finish program
finish-none_left (completes now r p) i t = All-update_where _ _ _ (λ j h. ground arith) (λ j h. h) t
finish-none_left (fails now e) i t = All-update_where _ _ _ (λ j h. ground arith) (λ j h. h) t
finish-none_left retries i t = All-update_where _ _ _ (λ j h. ground arith) (λ j h. h) t
finish-none_left (defers at) i t = All-update_where _ _ _ (λ j h. ground arith) (λ j h. h) t
finish-none_left (cancels now s) i t = All-update_where _ _ _ (λ j h. ground arith) (λ j h. h) t

-- Whatever way an attempt has ended, a second end of it, of any kind, changes nothing and reports a
-- loss.
pub finish-finish :
    (a b : Ending) (i : JobId) (t : Table) → finish b i (finish a i t).0 ≡ ((finish a i t).0, false)
finish-finish a b i t = guarded b i (finish a i t).0 (finish-none_left a i t)
