-- ===== src/Cursor.antt =====
-- app/cursor.py on the JSON documents inside a cursor, and how the listing route of app/api/routes.py
-- reads its cursor. A text is decoded by `loads`, which is base64 and `json.loads`; `fromisoformat` and
-- `parse_uuid` read the texts of a time and of a UUID. `none` is a ValueError.
pub mod Documents
use symmetrical_disco.Base.{String, Option, none, some, str_eq, if◌then◌else◌}
use symmetrical_disco.Models.{Json, null, text, object, Fields, field, JobId, Time}
use symmetrical_disco.Listing.{Key}
use symmetrical_disco.Effects.{
  M, Result, ok, raise, Error, key_error, value_error, type_error, attribute_error, http_error,
}

-- `json.loads` keeps the last of equal keys.
abbrev pub or_before : Option Json → Option Json → Option Json
or_before (some v) earlier = some v
or_before none earlier = earlier

unfoldable pub last_value : String → Fields → Option Json
last_value key Fields.end = none
last_value key (field name v rest) =
    or_before (last_value key rest) (if str_eq name key then some v else none)

abbrev pub or_raise : {A : Type 0} → Error → Option A → Result A
or_raise e none = raise e
or_raise e (some a) = ok a

-- `data[key]`.
unfoldable pub subscript : String → Json → Result Json
unfolding last_value
subscript key (object fields) = or_raise key_error (last_value key fields)
subscript key d = raise type_error

-- `datetime.fromisoformat(v)`.
unfoldable pub time_of : (String → Option Time) → Json → Result Time
time_of fromisoformat (text s) = or_raise value_error (fromisoformat s)
time_of fromisoformat v = raise type_error

-- `UUID(v)`.
unfoldable pub uuid_of : (String → Option JobId) → Json → Result JobId
uuid_of parse_uuid (text s) = or_raise value_error (parse_uuid s)
uuid_of parse_uuid null = raise type_error
uuid_of parse_uuid v = raise attribute_error

abbrev pub then_do : {A B : Type 0} → Result A → (A → Result B) → Result B
then_do (ok a) f = f a
then_do (raise e) f = raise e

-- `except (ValueError, KeyError, json.JSONDecodeError)`.
abbrev pub as_value_error : {A : Type 0} → Result A → Result A
as_value_error (raise key_error) = raise value_error
as_value_error r = r

unfoldable pub decode_document :
    (String → Option Time) → (String → Option JobId) → Option Json → Result Key
unfolding subscript time_of uuid_of
decode_document fromisoformat parse_uuid none = raise value_error
decode_document fromisoformat parse_uuid (some doc) = as_value_error (
    then_do (subscript "c" doc) λ c. then_do (time_of fromisoformat c) λ created.
      then_do (subscript "i" doc) λ i. then_do (uuid_of parse_uuid i) λ id. ok (created, id))

unfoldable pub encode_document : (Time → String) → (JobId → String) → Time → JobId → Json
encode_document isoformat str_uuid created id =
    object (field "c" (text (isoformat created)) (field "i" (text (str_uuid id)) Fields.end))

-- The route turns a ValueError into 422.
abbrev pub as_422 : Result Key → Result (Option Key)
as_422 (ok k) = ok (some k)
as_422 (raise value_error) = raise (http_error 422)
as_422 (raise e) = raise e

unfoldable pub read_cursor :
    (String → Option Json)
    → (String → Option Time)
    → (String → Option JobId)
    → Option String
    → M (Option Key)
unfolding decode_document
read_cursor loads fromisoformat parse_uuid none w = (ok none, w)
read_cursor loads fromisoformat parse_uuid (some cursor) w =
    (as_422 (decode_document fromisoformat parse_uuid (loads cursor)), w)
