-- ===== src/Listing.antt =====
-- The SELECTs of app/repository.py that return several rows, and app/cursor.py. ORDER BY is an
-- insertion sort.
pub mod Order
pub mod Pages
pub mod Walk
pub mod Members
use symmetrical_disco.Base.{
  ℕ, suc, ◌+◌, ◌-◌, String, Bool, true, false, ◌&&◌, ◌||◌, not, Option, none, some, List, [], ◌∷◌,
  map, ◌==◌, ltb, if◌then◌else◌, any, keep, take, length,
}
use symmetrical_disco.Models.{
  Job, JobId, JobType, JobStatus, JobPriority, Json, Time, same_status, same_type, same_priority,
  scheduled, pending, processing, completed, failed, cancelled,
}
use symmetrical_disco.Repository.{Table, has_id, is_waiting, same_user}

abbrev pub Key : Type 0
Key = Time × JobId

abbrev pub key_of : Job → Key
key_of j = (j.created_at, j.id)

-- `tuple_(created_at, id) < (c, i)`.
abbrev pub key_less : Key → Key → Bool
key_less a b = ltb a.0 b.0 || (a.0 == b.0 && ltb a.1 b.1)

unfoldable pub insert_by : (Job → Job → Bool) → Job → List Job → List Job
insert_by before j [] = j ∷ []
insert_by before j (k ∷ ks) = if before j k then j ∷ k ∷ ks else k ∷ insert_by before j ks

unfoldable pub sort_by : (Job → Job → Bool) → List Job → List Job
unfolding insert_by
sort_by before [] = []
sort_by before (j ∷ js) = insert_by before j (sort_by before js)

-- ORDER BY created_at DESC, id DESC.
abbrev pub newer : Job → Job → Bool
newer j k = key_less (key_of k) (key_of j)

abbrev pub older : Job → Job → Bool
older j k = key_less (key_of j) (key_of k)

-- The text of a cursor: the encoding of a key, or another text.
pub data CursorText : Type 0 where
  encoded : Time → JobId → CursorText
  other_text : String → CursorText

abbrev pub encode_cursor : Time → JobId → CursorText
encode_cursor c i = encoded c i

-- `none` is the ValueError. The other exceptions of the decoding are in Cursor.
abbrev pub decode_cursor : CursorText → Option Key
decode_cursor (encoded c i) = some (c, i)
decode_cursor (other_text s) = none

pub record Filters : Type 0 where
  pub status : Option JobStatus
  pub job_type : Option JobType
  pub priority : Option JobPriority
  pub user_id : Option ℕ

abbrev pub passes {ℓ} : {A : Type ℓ} → (A → A → Bool) → Option A → A → Bool
passes same none a = true
passes same (some b) a = same a b

abbrev pub passes_user : Option ℕ → Option ℕ → Bool
passes_user none u = true
passes_user (some v) u = same_user u (some v)

unfoldable pub matches : Filters → Job → Bool
matches f j =
    passes same_status f.status j.status
    && (passes same_type f.job_type j.type
        && (passes same_priority f.priority j.priority && passes_user f.user_id j.user_id))

abbrev pub before_cursor : Option Key → Job → Bool
before_cursor none j = true
before_cursor (some c) j = key_less (key_of j) c

abbrev pub get_last? {ℓ} : {A : Type ℓ} → List A → Option A
get_last? [] = none
get_last? (x ∷ []) = some x
get_last? (x ∷ y ∷ l) = get_last? (y ∷ l)

-- All the rows of a listing, in their order, from the cursor on.
unfoldable pub listed : Filters → Option Key → Table → List Job
unfolding sort_by matches
listed f c t = sort_by newer (keep (λ j. matches f j && before_cursor c j) t)

abbrev pub cursor_after : List Job → Option CursorText
cursor_after rows = cursor (get_last? rows)
  where
    cursor : Option Job → Option CursorText
    cursor none = none
    cursor (some j) = some (encode_cursor j.created_at j.id)

-- A page, of the `limit + 1` rows that are read. `limit` is at least 1 (`Query(ge=1)`), so a page
-- that is cut has a last row.
unfoldable pub page_of : ℕ → List Job → List Job × Option CursorText
page_of limit rows =
    if ltb limit (length rows)
    then (take limit rows, cursor_after (take limit rows))
    else (rows, none)

unfoldable pub list_jobs : Filters → ℕ → Option Key → Table → List Job × Option CursorText
unfolding listed page_of
list_jobs f limit c t = page_of limit (take (suc limit) (listed f c t))

abbrev pub is_unsynced : Time → Job → Bool
is_unsynced older_than j = not j.is_synced_to_redis && (is_waiting j && ltb j.created_at older_than)

unfoldable pub list_unsynced : Time → ℕ → Table → List Job
unfolding sort_by
list_unsynced older_than limit t = take limit (sort_by older (keep (is_unsynced older_than) t))

-- `get_promotion_info`: the dict is the list of its items.
unfoldable pub get_promotion_info : List JobId → Table → List (JobId × (JobPriority × Option Json))
get_promotion_info ids t =
    map (λ j. (j.id, (j.priority, j.trace_context))) (keep (λ j. any (λ i. has_id i j) ids) t)
