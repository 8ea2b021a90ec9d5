-- ===== src/Tests/Logging.antt =====
-- A line of a worker that is bound to a job: the record's own field wins over the context.
use symmetrical_disco.Base.{◌≡◌, refl, false, none, [], ◌∷◌}
use symmetrical_disco.Models.{text}
use symmetrical_disco.Logging.{Dict, value_at, LogRecord, info, is_skipped}
use symmetrical_disco.Logging.Fields.{IsDict}

abbrev context : Dict
context = ("worker", text "w1") ∷ ("job_id", text "7") ∷ []

abbrev line : LogRecord
line = record {
  timestamp = "2026-01-01T00:00:00+00:00";
  level = info;
  name = "app.worker";
  message = "job.done";
  attributes = ("name", text "app.worker") ∷ ("job_id", text "8") ∷ [];
  traceback = none;
}

plain : is_skipped "job_id" ≡ false
unfolding is_skipped
plain = refl

is_dict : IsDict line.attributes
unfolding value_at
is_dict = (refl, (refl, tt))
