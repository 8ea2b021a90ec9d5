-- ===== src/System.antt =====
-- The processes together: any sequence of the handlers of the API, the worker and the ticker, each
-- interleaved with the statements of any other processes.
use symmetrical_disco.Base.{ℕ, ◌≡◌, String, Option, some, List, [], ◌∷◌, All}
use symmetrical_disco.Models.{Job, JobId, JobType, Json}
use symmetrical_disco.Config.{Settings}
use symmetrical_disco.Payloads.{Payload, Allowlists}
use symmetrical_disco.Repository.{find_job, has_id}
use symmetrical_disco.Repository.Steps.{Steps, here, Steps-trans}
use symmetrical_disco.Repository.History.{IsSettled, Follows, Steps-Follows, Steps-settled}
use symmetrical_disco.Repository.Valid.{IsValid, Steps-IsValid}
use symmetrical_disco.Repository.Unique.{IsUnique, Steps-IsUnique}
use symmetrical_disco.Effects.{World, Message, MessageId, IsLawful}
use symmetrical_disco.Worker.{handle_message}
use symmetrical_disco.Worker.Runs.{handle_message-runs}
use symmetrical_disco.Jobs.{Draws, Messages, run_attempt}
use symmetrical_disco.Jobs.Runs.{run_attempt-runs}
use symmetrical_disco.Ticker.{promote_due, reconcile_orphans, reap_stale}
use symmetrical_disco.Ticker.Runs.{promote_due-runs, reconcile_orphans-runs, reap_stale-runs}
use symmetrical_disco.Ticker.Loop.{Clocks, Replies, tick}
use symmetrical_disco.Ticker.Rounds.{tick-Steps}
use symmetrical_disco.Auth.Identity.{AuthedUser}
use symmetrical_disco.Routes.{JobSubmission, Request, submit_job, retry_job, cancel_job_route}
use symmetrical_disco.Routes.Runs.{submit_job-runs, retry_job-runs, cancel_job_route-runs}

-- What a deployment fixes.
pub record Deployment : Type 0 where
  pub settings : Settings
  pub allowlists : Allowlists
  pub parse : JobType → Json → Option Payload

-- One call of a handler, or an iteration of the ticker's loop, with what it draws from outside.
pub data Action : Type 0 where
  submit : JobSubmission → Request → AuthedUser → Action
  retry : JobId → AuthedUser → Action
  cancel : JobId → AuthedUser → Action
  work : Draws → Messages → String → MessageId → Message → Action
  promote : List JobId → Action
  reconcile : ℕ → Action
  reap : (String → List (List (MessageId × Message))) → Action
  turn : Replies → Clocks → Action

-- The world after a handler, however it ended.
unfoldable pub act : Deployment → Action → World → World
act p (submit sub r user) w = (submit_job p.settings p.allowlists sub r user w).1
act p (retry i user) w = (retry_job p.settings i user w).1
act p (cancel i user) w = (cancel_job_route p.settings i user w).1
act p (work d m stream id fields) w =
    (handle_message p.settings (run_attempt p.settings p.allowlists p.parse d m) stream id fields
      w).1
act p (promote due) w = (promote_due p.settings due w).1
act p (reconcile fuel) w = (reconcile_orphans fuel p.settings w).1
act p (reap claimed) w = (reap_stale p.settings claimed w).1
act p (turn r c) w = (tick p.settings r c w).1

unfoldable pub act_all : Deployment → List Action → World → World
act_all p [] w = w
act_all p (a ∷ acts) w = act_all p acts (act p a w)

act-Steps :
    (p : Deployment) (a : Action) (w : World)
    → IsLawful w
    → Steps w.table (act p a w).table × IsLawful (act p a w)
unfolding act
act-Steps p (submit sub r user) w l = (submit_job-runs p.settings p.allowlists sub r user).run w l
act-Steps p (retry i user) w l = (retry_job-runs p.settings i user).run w l
act-Steps p (cancel i user) w l = (cancel_job_route-runs p.settings i user).run w l
act-Steps p (work d m stream id fields) w l =
    (handle_message-runs p.settings (run_attempt p.settings p.allowlists p.parse d m)
        (run_attempt-runs p.settings p.allowlists p.parse d m) stream id fields).run
      w l
act-Steps p (promote due) w l = (promote_due-runs p.settings due).run w l
act-Steps p (reconcile fuel) w l = (reconcile_orphans-runs fuel p.settings).run w l
act-Steps p (reap claimed) w l = (reap_stale-runs p.settings claimed).run w l
act-Steps p (turn r c) w l = tick-Steps p.settings r c w l

-- Whatever handlers run, in whatever order and however interleaved with other processes, the table
-- goes from its first to its last state by statements of the repository alone.
pub act_all-Steps :
    (p : Deployment) (acts : List Action) (w : World)
    → IsLawful w
    → Steps w.table (act_all p acts w).table
unfolding act_all
act_all-Steps p [] w l = here
act_all-Steps p (a ∷ acts) w l =
    let (s, m) = act-Steps p a w l in Steps-trans s (act_all-Steps p acts (act p a w) m)

module _ (p : Deployment) (acts : List Action) (w : World) (l : IsLawful w) where
  -- The table stays well formed: rows valid, ids unique, keys unique for each user.
  pub act_all-wellformed :
      All IsValid w.table
      → IsUnique w.table
      → All IsValid (act_all p acts w).table × IsUnique (act_all p acts w).table
  act_all-wellformed v u =
      let s = act_all-Steps p acts w l in (Steps-IsValid s v, Steps-IsUnique s u)

  -- Each row is still there afterwards, has followed the status diagram, and is the same job of the
  -- same user; if it was completed or cancelled it has not changed but for its sync flag.
  pub act_all-Follows :
      (i : JobId) {j : Job}
      → find_job (has_id i) w.table ≡ some j
      → (k : Job) × (find_job (has_id i) (act_all p acts w).table ≡ some k) × Follows j k
  act_all-Follows i e = Steps-Follows i (act_all-Steps p acts w l) e

  -- A completed or cancelled job stays as it is.
  pub act_all-settled :
      (i : JobId) {j : Job}
      → find_job (has_id i) w.table ≡ some j
      → IsSettled j
      → (k : Job) × (find_job (has_id i) (act_all p acts w).table ≡ some k)
        × (k ≡ record j { is_synced_to_redis = k.is_synced_to_redis })
  act_all-settled i e d = Steps-settled i (act_all-Steps p acts w l) e d
