-- ===== src/Tests/Cursor.antt =====
-- A cursor of 1 ms after the epoch, and one that holds a list.
use symmetrical_disco.Base.{String, ◌≡◌, refl, Option, none, some, str_eq, if◌then◌else◌}
use symmetrical_disco.Models.{Json, array, nil, JobId, Time}
use symmetrical_disco.Effects.{ok, raise, type_error}
use symmetrical_disco.Cursor.{decode_document, encode_document, read_cursor}
use symmetrical_disco.Cursor.Documents.{decode_document-encode_document, read_cursor-type_error}
use symmetrical_disco.Tests.Samples.{world}

abbrev isoformat : Time → String
isoformat t = "1970-01-01T00:00:00.001000+00:00"

abbrev fromisoformat : String → Option Time
fromisoformat s = if str_eq s "1970-01-01T00:00:00.001000+00:00" then some 1000 else none

abbrev str_uuid : JobId → String
str_uuid i = "00000000-0000-0000-0000-000000000007"

abbrev parse_uuid : String → Option JobId
parse_uuid s = if str_eq s "00000000-0000-0000-0000-000000000007" then some 7 else none

-- `W10=` is the base64 text of `[]`.
abbrev loads : String → Option Json
loads s = if str_eq s "W10=" then some (array nil) else none

decode_document-encode_document_example :
    decode_document fromisoformat parse_uuid (some (encode_document isoformat str_uuid 1000 7))
    ≡ ok (1000, 7)
decode_document-encode_document_example =
    decode_document-encode_document isoformat str_uuid fromisoformat parse_uuid 1000 7 refl refl

read_cursor-type_error_example :
    read_cursor loads fromisoformat parse_uuid (some "W10=") world ≡ (raise type_error, world)
read_cursor-type_error_example =
    read_cursor-type_error loads fromisoformat parse_uuid "W10=" (array nil) world refl refl
