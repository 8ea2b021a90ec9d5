-- ===== src/Migrations/Revisions.antt =====
-- The revisions of alembic/versions, 0001 to 0009: what each adds, and what its downgrade takes back.
use symmetrical_disco.Base.{String, Bool, true, false, Option, none, some, List, [], ◌∷◌}
use symmetrical_disco.Migrations.{
  ColumnType, uuid, jsonb, timestamp, integer, boolean, text, enum, Column, Index, ForeignKey, Op,
  create_enum, drop_enum, add_value, create_table, drop_table, add_column, drop_column,
  create_index, drop_index, create_foreign_key, drop_constraint, execute_update,
}

abbrev column : String → ColumnType → Bool → Bool → Option String → Column
column name type nullable is_primary_key server_default = record {
  name = name;
  type = type;
  nullable = nullable;
  is_primary_key = is_primary_key;
  server_default = server_default;
}

abbrev index : String → String → List String → Bool → Option (String × List String) → Index
index name table columns is_unique where_clause = record {
  name = name;
  table = table;
  columns = columns;
  is_unique = is_unique;
  where_clause = where_clause;
}

-- A revision, with the one that it follows.
pub record Revision : Type 0 where
  pub revision : String
  pub down_revision : Option String
  pub upgrade : List Op
  pub downgrade : List Op

abbrev jobs_columns : List Column
jobs_columns =
    column "id" uuid false true (some "gen_random_uuid()")
    ∷ column "type" (enum "job_type") false false none
    ∷ column "payload" jsonb false false none
    ∷ column "status" (enum "job_status") false false none
    ∷ column "result" jsonb true false none
    ∷ column "error" jsonb true false none
    ∷ column "created_at" timestamp false false (some "now()")
    ∷ column "started_at" timestamp true false none
    ∷ column "completed_at" timestamp true false none
    ∷ []

abbrev users_columns : List Column
users_columns =
    column "id" uuid false true none
    ∷ column "name" text false false none
    ∷ column "key_hash" text false false none
    ∷ column "created_at" timestamp false false (some "now()")
    ∷ []

abbrev jobs_users : ForeignKey
jobs_users = record {
  name = "fk_jobs_user_id_users";
  table = "jobs";
  columns = "user_id" ∷ [];
  target = "users";
}

abbrev pub create_jobs : Revision
create_jobs = record {
  revision = "0001";
  down_revision = none;
  upgrade =
      create_enum "job_type" ("email" ∷ "webhook" ∷ "report" ∷ [])
      ∷ create_enum "job_status"
          ("scheduled" ∷ "pending" ∷ "processing" ∷ "completed" ∷ "failed" ∷ "cancelled" ∷ [])
      ∷ create_table "jobs" jobs_columns
      ∷ create_index (index "ix_jobs_status" "jobs" ("status" ∷ []) false none)
      ∷ create_index (index "ix_jobs_type" "jobs" ("type" ∷ []) false none)
      ∷ create_index (index "ix_jobs_created_at_id" "jobs" ("created_at" ∷ "id" ∷ []) false none)
      ∷ [];
  downgrade =
      drop_index "ix_jobs_created_at_id"
      ∷ drop_index "ix_jobs_type"
      ∷ drop_index "ix_jobs_status"
      ∷ drop_table "jobs"
      ∷ drop_enum "job_status"
      ∷ drop_enum "job_type"
      ∷ [];
}

abbrev pub add_scheduled_at_and_sync_flag : Revision
add_scheduled_at_and_sync_flag = record {
  revision = "0002";
  down_revision = some "0001";
  upgrade =
      add_column "jobs" (column "scheduled_at" timestamp true false none)
      ∷ add_column "jobs" (column "is_synced_to_redis" boolean false false (some "false"))
      ∷ execute_update
      ∷ create_index (
          index "ix_jobs_unsynced" "jobs" ("created_at" ∷ "id" ∷ []) false (
            some (
              "is_synced_to_redis = false AND status IN ('pending', 'scheduled')",
              "is_synced_to_redis" ∷ "status" ∷ [],
            )))
      ∷ [];
  downgrade =
      drop_index "ix_jobs_unsynced"
      ∷ drop_column "jobs" "is_synced_to_redis"
      ∷ drop_column "jobs" "scheduled_at"
      ∷ [];
}

abbrev pub add_priority : Revision
add_priority = record {
  revision = "0003";
  down_revision = some "0002";
  upgrade =
      create_enum "job_priority" ("high" ∷ "normal" ∷ "low" ∷ [])
      ∷ add_column "jobs" (column "priority" (enum "job_priority") false false (some "normal"))
      ∷ create_index (index "ix_jobs_priority" "jobs" ("priority" ∷ []) false none)
      ∷ [];
  downgrade =
      drop_index "ix_jobs_priority" ∷ drop_column "jobs" "priority" ∷ drop_enum "job_priority" ∷ [];
}

abbrev pub add_attempts : Revision
add_attempts = record {
  revision = "0004";
  down_revision = some "0003";
  upgrade =
      add_column "jobs" (column "attempts" integer false false (some "0"))
      ∷ add_column "jobs" (column "max_attempts" integer false false (some "4"))
      ∷ [];
  downgrade = drop_column "jobs" "max_attempts" ∷ drop_column "jobs" "attempts" ∷ [];
}

abbrev pub add_cancellation_batch_progress : Revision
add_cancellation_batch_progress = record {
  revision = "0005";
  down_revision = some "0004";
  upgrade =
      add_column "jobs" (column "progress" integer true false none)
      ∷ add_column "jobs" (column "cancel_requested_at" timestamp true false none)
      ∷ add_column "jobs" (column "idempotency_key" text true false none)
      ∷ add_column "jobs" (column "idempotency_hash" text true false none)
      ∷ add_value "job_type" "batch"
      ∷ create_index (
          index "uq_jobs_idempotency_key" "jobs" ("idempotency_key" ∷ []) true
            (some ("idempotency_key IS NOT NULL", "idempotency_key" ∷ [])))
      ∷ [];
  downgrade =
      drop_index "uq_jobs_idempotency_key"
      ∷ drop_column "jobs" "idempotency_hash"
      ∷ drop_column "jobs" "idempotency_key"
      ∷ drop_column "jobs" "cancel_requested_at"
      ∷ drop_column "jobs" "progress"
      ∷ [];
}

abbrev pub add_status_created_at_index : Revision
add_status_created_at_index = record {
  revision = "0006";
  down_revision = some "0005";
  upgrade =
      create_index
        (index "ix_jobs_status_created_at" "jobs" ("status" ∷ "created_at" ∷ []) false none)
      ∷ [];
  downgrade = drop_index "ix_jobs_status_created_at" ∷ [];
}

abbrev pub add_trace_context : Revision
add_trace_context = record {
  revision = "0007";
  down_revision = some "0006";
  upgrade = add_column "jobs" (column "trace_context" jsonb true false none) ∷ [];
  downgrade = drop_column "jobs" "trace_context" ∷ [];
}

abbrev pub add_users_and_job_ownership : Revision
add_users_and_job_ownership = record {
  revision = "0008";
  down_revision = some "0007";
  upgrade =
      create_table "users" users_columns
      ∷ create_index (index "uq_users_name" "users" ("name" ∷ []) true none)
      ∷ create_index (index "uq_users_key_hash" "users" ("key_hash" ∷ []) true none)
      ∷ add_column "jobs" (column "user_id" uuid true false none)
      ∷ create_foreign_key jobs_users
      ∷ create_index (
          index "ix_jobs_user_id_created_at_id" "jobs" ("user_id" ∷ "created_at" ∷ "id" ∷ []) false
            none)
      ∷ drop_index "uq_jobs_idempotency_key"
      ∷ create_index (
          index "uq_jobs_user_idempotency_key" "jobs" ("user_id" ∷ "idempotency_key" ∷ []) true
            (some ("idempotency_key IS NOT NULL", "idempotency_key" ∷ [])))
      ∷ [];
  downgrade =
      drop_index "uq_jobs_user_idempotency_key"
      ∷ create_index (
          index "uq_jobs_idempotency_key" "jobs" ("idempotency_key" ∷ []) true
            (some ("idempotency_key IS NOT NULL", "idempotency_key" ∷ [])))
      ∷ drop_index "ix_jobs_user_id_created_at_id"
      ∷ drop_constraint "fk_jobs_user_id_users"
      ∷ drop_column "jobs" "user_id"
      ∷ drop_index "uq_users_key_hash"
      ∷ drop_index "uq_users_name"
      ∷ drop_table "users"
      ∷ [];
}

abbrev pub drop_users_tokenreview_auth : Revision
drop_users_tokenreview_auth = record {
  revision = "0009";
  down_revision = some "0008";
  upgrade =
      add_column "jobs" (column "user_name" text true false none)
      ∷ drop_constraint "fk_jobs_user_id_users"
      ∷ drop_index "uq_users_key_hash"
      ∷ drop_index "uq_users_name"
      ∷ drop_table "users"
      ∷ [];
  downgrade =
      create_table "users" users_columns
      ∷ create_index (index "uq_users_name" "users" ("name" ∷ []) true none)
      ∷ create_index (index "uq_users_key_hash" "users" ("key_hash" ∷ []) true none)
      ∷ execute_update
      ∷ create_foreign_key jobs_users
      ∷ drop_column "jobs" "user_name"
      ∷ [];
}

-- The chain of revisions.
abbrev pub revisions : List Revision
revisions =
    create_jobs ∷ add_scheduled_at_and_sync_flag ∷ add_priority ∷ add_attempts
    ∷ add_cancellation_batch_progress ∷ add_status_created_at_index ∷ add_trace_context
    ∷ add_users_and_job_ownership ∷ drop_users_tokenreview_auth ∷ []
