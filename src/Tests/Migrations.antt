-- ===== src/Tests/Migrations.antt =====
-- The catalog that the revisions build, and the revision that moves the ownership of jobs.
use symmetrical_disco.Base.{String, ◌≡◌, refl, Option, none, some, List, [], ◌∷◌, map}
use symmetrical_disco.Migrations.{Catalog, Column, empty_catalog, entry, run, apply, drop_column_at}
use symmetrical_disco.Migrations.Revisions.{revisions}
use symmetrical_disco.Migrations.Steps.{upgraded}

abbrev columns_of : Option Catalog → Option (List Column)
columns_of none = none
columns_of (some s) = entry "jobs" s.tables

abbrev names_of : Option (List Column) → List String
names_of none = []
names_of (some l) = map (λ (c : Column). c.name) l

-- The columns of `Job`.
jobs_columns :
    names_of (columns_of (upgraded 9 revisions empty_catalog))
    ≡ "id" ∷ "type" ∷ "payload" ∷ "status" ∷ "result" ∷ "error" ∷ "created_at" ∷ "started_at"
      ∷ "completed_at" ∷ "scheduled_at" ∷ "is_synced_to_redis" ∷ "priority" ∷ "attempts"
      ∷ "max_attempts" ∷ "progress" ∷ "cancel_requested_at" ∷ "idempotency_key" ∷ "idempotency_hash"
      ∷ "trace_context" ∷ "user_id" ∷ "user_name" ∷ []
unfolding upgraded run apply drop_column_at
jobs_columns = refl
