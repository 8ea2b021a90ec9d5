-- ===== src/Cursor/Documents.antt =====
-- The documents of app/cursor.py: those that are encoded, and those that are no objects.
use symmetrical_disco.Base.{String, Bool, true, false, Option, some, ◌≡◌, refl, ap, ◌∙◌}
use symmetrical_disco.Models.{Json, null, num, text, array, object, JobId, Time}
use symmetrical_disco.Listing.{Key}
use symmetrical_disco.Effects.{World, Result, ok, raise, type_error}
use symmetrical_disco.Cursor.{
  subscript, last_value, time_of, uuid_of, decode_document, encode_document, as_422, read_cursor,
}

-- What a cursor encodes is what it decodes to, of a time and an id whose texts are read back.
pub decode_document-encode_document :
    (isoformat : Time → String) (str_uuid : JobId → String) (fromisoformat : String → Option Time)
    (parse_uuid : String → Option JobId) (created : Time) (id : JobId)
    → fromisoformat (isoformat created) ≡ some created
    → parse_uuid (str_uuid id) ≡ some id
    → decode_document fromisoformat parse_uuid
        (some (encode_document isoformat str_uuid created id))
      ≡ ok (created, id)
unfolding decode_document encode_document subscript last_value time_of uuid_of
decode_document-encode_document isoformat str_uuid fromisoformat parse_uuid created id time uuid =
    rw (time, uuid) refl

abbrev pub is_object : Json → Bool
is_object (object fields) = true
is_object d = false

-- A cursor that holds a JSON document other than an object is not answered with 422: the TypeError
-- leaves the route.
pub read_cursor-type_error :
    (loads : String → Option Json) (fromisoformat : String → Option Time)
    (parse_uuid : String → Option JobId) (cursor : String) (d : Json) (w : World)
    → loads cursor ≡ some d
    → is_object d ≡ false
    → read_cursor loads fromisoformat parse_uuid (some cursor) w ≡ (raise type_error, w)
unfolding read_cursor decode_document subscript
read_cursor-type_error loads fromisoformat parse_uuid cursor d w e other =
    ap (λ o. (as_422 (decode_document fromisoformat parse_uuid o), w)) e ∙ crash d other
  where
    crash :
        (d : Json)
        → is_object d ≡ false
        → ◌≡◌ {A = Result (Option Key) × World}
            (as_422 (decode_document fromisoformat parse_uuid (some d)), w)
            (raise type_error, w)
    crash null h = refl
    crash (num n) h = refl
    crash (text s) h = refl
    crash (array l) h = refl
    crash (object l) h = cc
