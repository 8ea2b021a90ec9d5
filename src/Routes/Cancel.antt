-- ===== src/Routes/Cancel.antt =====
-- What `cancel_job_route` of app/api/routes.py replies and leaves, when no other process interferes.
use symmetrical_disco.Base.{
  ℕ, ◌≡◌, refl, sym, ap, ◌∙◌, true, false, ◌&&◌, ◌||◌, some, List, [], ◌∷◌, ◌++◌, arith, Bool-cases,
  inl, inr,
}
use mathlib.Core.List.{append-nil}
use symmetrical_disco.Models.{
  Job, JobId, JobStatus, Time, pending, scheduled, processing, completed, failed, cancelled,
  same_status,
}
use symmetrical_disco.Config.{Settings}
use symmetrical_disco.Repository.{
  Table, find_job, get_job, has_id, same_user, is_processing, is_waiting, changed_one,
  cancel_pending_or_scheduled, request_cancel,
}
use symmetrical_disco.Repository.Rows.{update_where-none}
use symmetrical_disco.Repository.Unique.{IsUnique}
use symmetrical_disco.Repository.Winners.{
  Wins-row, cancel_pending_or_scheduled-Wins, request_cancel-Wins, get_job-owner, guard-All,
}
use symmetrical_disco.Effects.{
  World, M, Result, ok, raise, http_error, Command, zrem, Measurement, ◌>>=◌, transact, query, send,
}
use symmetrical_disco.Effects.Alone.{alone}
use symmetrical_disco.Auth.Identity.{AuthedUser}
use symmetrical_disco.Routes.{
  JobOut, job_out, is_closed, reply_with, cancel_round, cancel_rounds, cancel_job_route,
}

-- The reply, the row and the commands, by the status of the row before.
pub data Cancelled (s : Settings) (j : Job) (now : Time)
    : Result (ℕ × JobOut) → Job → List Command → Type 0 where
  withdrawn :
      {k : Job}
      → is_waiting j ≡ true
      → k ≡ record j { status = cancelled; completed_at = some now }
      → Cancelled s j now (ok (200, job_out k)) k (zrem s.delayed_zset (j.id ∷ []) ∷ [])
  requested :
      {k : Job}
      → j.status ≡ processing
      → k ≡ record j { cancel_requested_at = some now }
      → Cancelled s j now (ok (202, job_out k)) k []
  already_cancelled : j.status ≡ cancelled → Cancelled s j now (ok (200, job_out j)) j []
  too_late : is_closed j ≡ true → Cancelled s j now (raise (http_error 409)) j []

-- A reply over a table where the row is now `k`, after the commands `new`.
pub data Replies (P : Result (ℕ × JobOut) → Job → List Command → Type 0) (i : JobId)
    (c : List Command) (r : Result (ℕ × JobOut) × World) : Type 0 where
  replies :
      (k : Job) (new : List Command)
      → find_job (has_id i) r.1.table ≡ some k
      → r.1.sent ≡ c ++ new
      → P r.0 k new
      → Replies P i c r

closed_otherwise :
    (x : JobStatus)
    → (same_status x pending || same_status x scheduled) ≡ false
    → same_status x processing ≡ false
    → same_status x cancelled ≡ false
    → (same_status x completed || same_status x failed) ≡ true
closed_otherwise pending a b d = cc
closed_otherwise scheduled a b d = cc
closed_otherwise processing a b d = cc
closed_otherwise completed a b d = refl
closed_otherwise failed a b d = refl
closed_otherwise cancelled a b d = cc

module _ (s : Settings) (t : Table) (j : Job) (now : Time) (c : List Command) (m : List Measurement)
    (u : IsUnique t) (e : find_job (has_id j.id) t ≡ some j) where
  -- A statement whose guard the row does not pass.
  not_waiting : is_waiting j ≡ false → cancel_pending_or_scheduled now j.id t ≡ (t, false)
  unfolding cancel_pending_or_scheduled
  not_waiting off = ap changed_one (
      update_where-none _ _ t (guard-All j.id _ t {j = j} (λ r h. ground arith) u e (ground arith)))

  not_processing : is_processing j.id j ≡ false → request_cancel now j.id t ≡ (t, false)
  unfolding request_cancel
  not_processing off =
      ap changed_one
        (update_where-none _ _ t (guard-All j.id _ t {j = j} (λ r h. ground arith) u e off))

  round-Cancelled :
      (again : M (ℕ × JobOut))
      → Replies (Cancelled s j now) j.id c (cancel_round s j.id again (alone true t now c m))
  unfolding cancel_round reply_with ◌>>=◌ transact query send get_job
  round-Cancelled again = elim (Bool-cases (is_waiting j)) [
    | inl waiting ↦
        let w = cancel_pending_or_scheduled-Wins t j u e now in
        let won : has_id j.id j && is_waiting j ≡ true = ground arith in
        rw (w.answer ∙ won, Wins-row w won)
          (replies _ _ (Wins-row w won) refl (withdrawn waiting refl))
    | inr started ↦ elim (Bool-cases (is_processing j.id j)) [
      | inl running ↦
          let w = request_cancel-Wins t j u e now in
          rw (not_waiting started, w.answer ∙ running, Wins-row w running)
            (replies _ [] (Wins-row w running) (sym (append-nil c)) (requested (ground arith) refl))
      | inr ended ↦
          rw (not_waiting started, not_processing ended, e)
            (elim (Bool-cases (same_status j.status cancelled)) [
              | inl gone ↦
                  rw gone (replies j [] e (sym (append-nil c)) (already_cancelled (ground arith)))
              | inr left ↦
                  let closed : is_closed j ≡ true =
                    closed_otherwise j.status started (ground arith) left in
                  rw (left, closed) (replies j [] e (sym (append-nil c)) (too_late closed))
            ])
    ]
  ]

  -- The owner's cancellation, by the status of the job, while Redis is up and no other process acts,
  -- over a table with unique keys that holds the row: a waiting job is cancelled at once and taken
  -- out of the delayed set; a running one has its cancellation requested, and the reply is 202; of a
  -- cancelled one the row is the reply; of one that has completed or failed the reply is 409. So
  -- without an interference one round is enough.
  pub cancel_job_route-Cancelled :
      (user : AuthedUser)
      → same_user j.user_id (some user.id) ≡ true
      → Replies (Cancelled s j now) j.id c (cancel_job_route s j.id user (alone true t now c m))
  unfolding cancel_job_route cancel_rounds ◌>>=◌ query
  cancel_job_route-Cancelled user own =
      rw (get_job-owner t j u e user.id own) (round-Cancelled (cancel_rounds 2 s j.id))
