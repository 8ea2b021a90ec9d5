-- ===== src/Routes/Ownership.antt =====
-- The routes of app/api/routes.py that name a job, for a user who does not own it.
use symmetrical_disco.Base.{◌≡◌, refl, false, ◌&&◌, some, All}
use symmetrical_disco.Models.{Job, JobId}
use symmetrical_disco.Config.{Settings}
use symmetrical_disco.Repository.{has_id, same_user}
use symmetrical_disco.Repository.Winners.{get_job-foreign}
use symmetrical_disco.Effects.{World, advance, raise, http_error, ◌>>=◌, query}
use symmetrical_disco.Auth.Identity.{AuthedUser}
use symmetrical_disco.Routes.{get_job_route, retry_job, cancel_job_route}

-- In any world: to a user who owns no row of that id when the route reads it, reading, retrying and
-- cancelling reply 404, as for a job that does not exist; nothing is written and nothing is sent.
pub routes-unowned :
    (s : Settings) (i : JobId) (user : AuthedUser) (w : World)
    → All (λ (j : Job). has_id i j && same_user j.user_id (some user.id) ≡ false) (advance w).table
    → (get_job_route i user w ≡ (raise (http_error 404), advance w))
      × (retry_job s i user w ≡ (raise (http_error 404), advance w))
      × (cancel_job_route s i user w ≡ (raise (http_error 404), advance w))
unfolding get_job_route retry_job cancel_job_route ◌>>=◌ query
routes-unowned s i user w foreign =
    let gone = get_job-foreign i (advance w).table user.id foreign in
    (rw gone refl, rw gone refl, rw gone refl)
