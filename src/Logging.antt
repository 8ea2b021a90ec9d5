-- ===== src/Logging.antt =====
-- app/core/logging.py: the bound context, the filter that merges it into a record, and the fields of
-- the line that is written. A dict is the list of its items; the texts of the time and of a traceback
-- are arguments, and so is the text of the line, by `json.dumps`.
pub mod Fields
use symmetrical_disco.Base.{
  String, Bool, true, false, ◌||◌, not, Option, none, some, List, [], ◌∷◌, any, is_some, str_eq,
  starts_with, if◌then◌else◌,
}
use symmetrical_disco.Models.{Json, text}
use symmetrical_disco.Effects.{Result, ok}

abbrev pub Dict : Type 0
Dict = List (String × Json)

unfoldable pub value_at : String → Dict → Option Json
value_at key [] = none
value_at key ((k, v) ∷ d) = if str_eq k key then some v else value_at key d

-- `d[key] = value`.
unfoldable pub set_at : String → Json → Dict → Dict
set_at key value [] = (key, value) ∷ []
set_at key value ((k, v) ∷ d) = if str_eq k key then (k, value) ∷ d else (k, v) ∷ set_at key value d

-- `{**d, **fields}`.
unfoldable pub merged : Dict → Dict → Dict
unfolding set_at
merged d [] = d
merged d ((k, v) ∷ fields) = merged (set_at k v d) fields

-- A block of code over the context variable.
abbrev pub Block : Type 0 → Type 0
Block A = Dict → Result A × Dict

-- `finally` resets the variable, however the block ends.
unfoldable pub bind_log_context : {A : Type 0} → Dict → Block A → Block A
unfolding merged
bind_log_context fields body context = ((body (merged context fields)).0, context)

unfoldable pub bind_static_log_context : Dict → Block (Unit {0})
unfolding merged
bind_static_log_context fields context = (ok tt, merged context fields)

-- `ContextFilter.filter` on the attributes of a record.
unfoldable pub add_context : Dict → Dict → Dict
unfolding value_at set_at
add_context [] attributes = attributes
add_context ((k, v) ∷ context) attributes =
    add_context context
      (if is_some (value_at k attributes) then attributes else set_at k v attributes)

pub data Level : Type 0 where
  debug info warning error critical : Level

-- `levelname.lower()`.
abbrev pub level_name : Level → String
level_name debug = "debug"
level_name info = "info"
level_name warning = "warning"
level_name error = "error"
level_name critical = "critical"

pub record LogRecord : Type 0 where
  pub timestamp : String
  pub level : Level
  pub name : String
  pub message : String
  pub attributes : Dict
  pub traceback : Option String

-- `_RESERVED`: the attributes of every LogRecord, and three more.
abbrev pub reserved : List String
reserved =
    "name" ∷ "msg" ∷ "args" ∷ "levelname" ∷ "levelno" ∷ "pathname" ∷ "filename" ∷ "module"
    ∷ "exc_info" ∷ "exc_text" ∷ "stack_info" ∷ "lineno" ∷ "funcName" ∷ "created" ∷ "msecs"
    ∷ "relativeCreated" ∷ "thread" ∷ "threadName" ∷ "processName" ∷ "process" ∷ "message"
    ∷ "asctime" ∷ "taskName" ∷ []

unfoldable pub is_skipped : String → Bool
is_skipped key = any (λ r. str_eq r key) reserved || starts_with key "otel"

unfoldable pub copy_fields : Dict → Dict → Dict
unfolding is_skipped set_at
copy_fields out [] = out
copy_fields out ((k, v) ∷ d) = copy_fields (if is_skipped k then out else set_at k v out) d

-- `getattr(record, key, "0")`.
abbrev pub or_zero : Option Json → Json
or_zero none = text "0"
or_zero (some v) = v

abbrev pub is_zero : Json → Bool
is_zero (text s) = str_eq s "0"
is_zero v = false

unfoldable pub with_trace : Dict → Dict → Dict
unfolding value_at set_at
with_trace attributes out =
    let trace_id = or_zero (value_at "otelTraceID" attributes) in
    if is_zero trace_id
    then out
    else set_at "span_id" (or_zero (value_at "otelSpanID" attributes))
        (set_at "trace_id" trace_id out)

unfoldable pub with_exception : Option String → Dict → Dict
unfolding set_at
with_exception none out = out
with_exception (some traceback) out = set_at "exception" (text traceback) out

abbrev pub base_fields : LogRecord → Dict
base_fields r =
    ("timestamp", text r.timestamp)
    ∷ ("level", text (level_name r.level))
    ∷ ("logger", text r.name)
    ∷ ("event", text r.message)
    ∷ []

-- The dict that `JsonFormatter.format` dumps.
unfoldable pub format_record : LogRecord → Dict
unfolding copy_fields with_trace with_exception
format_record r =
    with_exception r.traceback (with_trace r.attributes (copy_fields (base_fields r) r.attributes))

-- A record on its way through the handler.
unfoldable pub emit : Dict → LogRecord → Dict
unfolding add_context format_record
emit context r = format_record (record r { attributes = add_context context r.attributes })
