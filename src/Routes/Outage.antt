-- ===== src/Routes/Outage.antt =====
-- A submission in app/api/routes.py while Redis is down, and its repetition by the client.
use symmetrical_disco.Base.{
  ◌<◌, ◌≡◌, refl, ◌∙◌, Bool, true, false, ◌==◌, none, some, List, ◌∷◌, arith, String, any, eq_iff,
}
use symmetrical_disco.Models.{Time}
use symmetrical_disco.Config.{Settings}
use symmetrical_disco.Repository.{
  Table, create_job, insert_row, clashes, find_job, get_by_idempotency_key,
}
use symmetrical_disco.Retry.Decision.{stream_for_priority-some}
use symmetrical_disco.Listing.{is_unsynced}
use symmetrical_disco.Effects.{
  ok, raise, redis_error, Command, Measurement, ◌>>=◌, transact, query, send, read_clock,
  except_integrity,
}
use symmetrical_disco.Effects.Alone.{alone}
use symmetrical_disco.Queue.{enqueue}
use symmetrical_disco.Auth.Identity.{AuthedUser}
use symmetrical_disco.Routes.{
  JobSubmission, Request, accepted, job_to_create, create, create_pending, create_and_handoff,
  is_future, submit_with_key,
}
use symmetrical_disco.Routes.Idempotency.{row, submit_with_key-known}

module _ (s : Settings) (sub : JobSubmission) (r : Request) (user : AuthedUser) (key : String)
    (t : Table) (now : Time) (c : List Command) (m : List Measurement) where
  abbrev pub stored_table : Table
  stored_table = row s sub r user key t now c m ∷ t

  -- The reply to the first submission.
  submit_with_key-down :
      is_future now sub.scheduled_at ≡ none
      → get_by_idempotency_key key user.id t ≡ none
      → any (clashes (row s sub r user key t now c m)) t ≡ false
      → submit_with_key s sub r user key (alone false t now c m)
        ≡ (raise redis_error, alone false stored_table now c m)
  unfolding submit_with_key create_and_handoff create_pending create create_job insert_row ◌>>=◌
      query transact send read_clock except_integrity enqueue job_to_create
  submit_with_key-down soon fresh free =
      let (stream, known) = stream_for_priority-some s sub.priority in
      rw (fresh, soon, free, known) refl

  find_stored :
      get_by_idempotency_key key user.id stored_table ≡ some (row s sub r user key t now c m)
  unfolding get_by_idempotency_key find_job job_to_create
  find_stored =
      let self : (user.id == user.id) ≡ true = ground arith in
      rw ((eq_iff key key).1 refl, self) refl

  -- While Redis is down, a first submission with a key, for now, raises, but its row is stored and
  -- waits to be handed over by the ticker. The client's repetition, at any later time and whether
  -- Redis is up or not, is answered with 200 and that job, and changes nothing.
  pub submit_with_key-outage :
      (sub' : JobSubmission) (r' : Request) (up : Bool) (later cutoff : Time)
      → r'.payload_hash ≡ r.payload_hash
      → is_future now sub.scheduled_at ≡ none
      → get_by_idempotency_key key user.id t ≡ none
      → any (clashes (row s sub r user key t now c m)) t ≡ false
      → now < cutoff
      → (submit_with_key s sub r user key (alone false t now c m)
          ≡ (raise redis_error, alone false stored_table now c m))
        × (is_unsynced cutoff (row s sub r user key t now c m) ≡ true)
        × (submit_with_key s sub' r' user key (alone up stored_table later c m) ≡ (
          ok (200, accepted (row s sub r user key t now c m)),
          alone up stored_table later c m,
        ))
  unfolding job_to_create
  submit_with_key-outage sub' r' up later cutoff same soon fresh free old = (
    submit_with_key-down soon fresh free,
    ground arith,
    submit_with_key-known s sub' r' user key up stored_table later c m
          (row s sub r user key t now c m) find_stored
        ∙ rw (same, (eq_iff r.payload_hash r.payload_hash).1 refl) refl,
  )
