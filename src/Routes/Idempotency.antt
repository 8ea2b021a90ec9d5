-- ===== src/Routes/Idempotency.antt =====
-- Submission with an idempotency key, in app/api/routes.py.
use symmetrical_disco.Base.{
  ℕ, ◌≡◌, refl, ◌∙◌, Bool, true, false, ◌==◌, Option, none, some, List, [], ◌∷◌, ◌++◌, arith,
  if◌then◌else◌, Bool-cases, inl, inr, String, any, eq_iff,
}
use symmetrical_disco.Models.{Job, Time, pending, scheduled}
use symmetrical_disco.Config.{Settings, stream_for_priority}
use symmetrical_disco.Repository.{
  Table, new_job, NewJob, has_id, create_job, insert_row, clashes, find_job, get_by_idempotency_key,
  mark_synced, update_where,
}
use symmetrical_disco.Repository.Rows.{update_where-none}
use symmetrical_disco.Repository.Winners.{others_of_unique}
use symmetrical_disco.Retry.Decision.{stream_for_priority-some}
use symmetrical_disco.Effects.{
  advance, World, Result, ok, raise, http_error, Command, Measurement, jobs_submitted, xadd, ◌>>=◌,
  transact, query, send, read_clock, measure, except_integrity, integrity_error,
}
use symmetrical_disco.Effects.Alone.{alone}
use symmetrical_disco.Queue.{enqueue, message_fields}
use symmetrical_disco.Auth.Identity.{AuthedUser}
use symmetrical_disco.Routes.{
  JobSubmission, Request, JobAccepted, accepted, job_to_create, create, create_pending,
  create_scheduled, create_and_handoff, same_hash, is_future, replay_or_conflict, submit_with_key,
}

-- The reply to a key that is in use.
abbrev pub answer_for : Job → String → Result (ℕ × JobAccepted)
answer_for j hash =
    if same_hash j.idempotency_hash hash then ok (200, accepted j) else raise (http_error 409)

-- A key that the user has used before: the same payload is answered with the job of that time, and
-- another payload with 409; no row is written and nothing is sent, also when Redis is down.
pub submit_with_key-known :
    (s : Settings) (sub : JobSubmission) (r : Request) (user : AuthedUser) (key : String)
    (up : Bool) (t : Table) (now : Time) (c : List Command) (m : List Measurement) (j : Job)
    → get_by_idempotency_key key user.id t ≡ some j
    → submit_with_key s sub r user key (alone up t now c m)
      ≡ (answer_for j r.payload_hash, alone up t now c m)
unfolding submit_with_key replay_or_conflict ◌>>=◌ query
submit_with_key-known s sub r user key up t now c m j e =
    elim (Bool-cases (same_hash j.idempotency_hash r.payload_hash)) [
      | inl same ↦ simp (e, same)
      | inr other ↦ simp (e, other)
    ]

-- The row that a submission inserts.
abbrev pub inserted_as :
    Settings → JobSubmission → Request → AuthedUser → String → Option Time → NewJob
inserted_as s sub r user key none =
    job_to_create s sub r (some key) (some r.payload_hash) user pending none
inserted_as s sub r user key (some at) =
    job_to_create s sub r (some key) (some r.payload_hash) user scheduled (some at)

create_and_handoff-violated :
    (s : Settings) (sub : JobSubmission) (r : Request) (user : AuthedUser) (key : String)
    (w : World) (at : Option Time)
    → is_future w.now sub.scheduled_at ≡ at
    → create_job r.new_id (advance w).now (inserted_as s sub r user key at) (advance w).table ≡ none
    → create_and_handoff s sub r (some key) (some r.payload_hash) user w
      ≡ (raise integrity_error, advance w)
unfolding create_and_handoff create_pending create_scheduled create ◌>>=◌ transact read_clock
create_and_handoff-violated s sub r user key w none e violated = rw (e, violated) refl
create_and_handoff-violated s sub r user key w (some at) e violated = rw (e, violated) refl

replay-answer :
    (j : Job) (hash : String) (w : World)
    → replay_or_conflict (some j) hash w ≡ (answer_for j hash, w)
unfolding replay_or_conflict ◌>>=◌
replay-answer j hash w = elim (Bool-cases (same_hash j.idempotency_hash hash)) [
  | inl same ↦ simp same
  | inr other ↦ simp other
]

-- In any world: a submission that finds no row of its key, but whose INSERT then violates the unique
-- index, since another request with that key came first, is answered as a later one is, by the row
-- that is there now; it writes nothing and sends nothing.
pub submit_with_key-raced :
    (s : Settings) (sub : JobSubmission) (r : Request) (user : AuthedUser) (key : String)
    (w : World) (j : Job)
    → get_by_idempotency_key key user.id (advance w).table ≡ none
    → create_job r.new_id
        (advance (advance w)).now
        (inserted_as s sub r user key (is_future (advance w).now sub.scheduled_at))
        (advance (advance w)).table
      ≡ none
    → get_by_idempotency_key key user.id (advance (advance (advance w))).table ≡ some j
    → submit_with_key s sub r user key w
      ≡ (answer_for j r.payload_hash, advance (advance (advance w)))
unfolding submit_with_key ◌>>=◌ query except_integrity
submit_with_key-raced s sub r user key w j fresh violated there =
    let failed =
      create_and_handoff-violated s sub r user key (advance w)
        (is_future (advance w).now sub.scheduled_at) refl violated in
    rw (fresh, failed, there) (replay-answer j r.payload_hash (advance (advance (advance w))))

module _ (s : Settings) (sub : JobSubmission) (r : Request) (user : AuthedUser) (key : String)
    (t : Table) (now : Time) (c : List Command) (m : List Measurement) where
  abbrev pub row : Job
  row =
      new_job r.new_id now
        (job_to_create s sub r (some key) (some r.payload_hash) user pending none)

  abbrev pub after : String → World
  after stream =
      alone true (record row { is_synced_to_redis = true } ∷ t) now
        (c ++ xadd stream (message_fields r.new_id none) ∷ [])
        (m ++ jobs_submitted sub.type sub.priority false ∷ [])

  -- A first submission for now.
  pub submit_with_key-new :
      (stream : String)
      → stream_for_priority s sub.priority ≡ some stream
      → is_future now sub.scheduled_at ≡ none
      → get_by_idempotency_key key user.id t ≡ none
      → any (clashes row) t ≡ false
      → submit_with_key s sub r user key (alone true t now c m)
        ≡ (ok (202, accepted row), after stream)
  unfolding submit_with_key create_and_handoff create_pending create create_job insert_row ◌>>=◌
      query transact send read_clock measure except_integrity enqueue mark_synced update_where
      job_to_create message_fields
  submit_with_key-new stream known soon fresh free =
      let self : (r.new_id == r.new_id) ≡ true = ground arith in
      let untouched : update_where (has_id r.new_id) (λ k. record k { is_synced_to_redis = true }) t
          ≡ (t, 0) =
        update_where-none _ _ t (others_of_unique r.new_id row t free self) in
      rw (fresh, soon, free, known, self, untouched) refl

  -- The row of a submission is found by its key.
  pub find_new :
      (stream : String)
      → get_by_idempotency_key key user.id (after stream).table
        ≡ some (record row { is_synced_to_redis = true })
  unfolding get_by_idempotency_key find_job job_to_create
  find_new stream =
      let self : (user.id == user.id) ≡ true = ground arith in
      rw ((eq_iff key key).1 refl, self) refl

  -- A first submission with a key, for now, is accepted with 202: its row is written, Redis is told
  -- and the row says so. The same submission again, and any other of the same user with that key and
  -- a payload of the same hash, is answered with 200 and that job, and changes nothing any more.
  pub submit_with_key-twice :
      (sub' : JobSubmission) (r' : Request)
      → r'.payload_hash ≡ r.payload_hash
      → is_future now sub.scheduled_at ≡ none
      → get_by_idempotency_key key user.id t ≡ none
      → any (clashes row) t ≡ false
      → (stream : String) × (stream_for_priority s sub.priority ≡ some stream)
        × (submit_with_key s sub r user key (alone true t now c m)
            ≡ (ok (202, accepted row), after stream))
        × (submit_with_key s sub' r' user key (after stream)
            ≡ (ok (200, accepted row), after stream))
  unfolding job_to_create
  submit_with_key-twice sub' r' same soon fresh free =
      let (stream, known) = stream_for_priority-some s sub.priority in
      (
        stream,
        known,
        submit_with_key-new stream known soon fresh free,
        submit_with_key-known s sub' r' user key true _ now _ _ _ (find_new stream)
            ∙ rw (same, (eq_iff r.payload_hash r.payload_hash).1 refl) refl,
      )
