-- ===== src/Observability.antt =====
-- The pure functions of app/observability.py. A dict is the list of its items, in the order of their
-- insertion; the rows are the replies of XINFO CONSUMERS and of the GROUP BY.
pub mod Liveness
pub mod Count
pub mod Stats
pub mod Readiness
pub mod Totals
pub mod Ages
use symmetrical_disco.Base.{
  ℕ, ◌+◌, ◌-◌, String, Bool, true, false, ◌||◌, not, Option, none, some, List, [], ◌∷◌, ◌++◌, ltb,
  if◌then◌else◌, is_some, length, keep, str_eq,
}
use symmetrical_disco.Models.{
  Time, JobStatus, scheduled, pending, processing, completed, failed, cancelled, same_status,
}

-- `min_idle.get(name)`.
abbrev pub idle_of : String → List (String × ℕ) → Option ℕ
idle_of name [] = none
idle_of name ((n, idle) ∷ d) = if str_eq n name then some idle else idle_of name d

-- The test and the assignment of one row.
abbrev pub with_idle : String → ℕ → List (String × ℕ) → List (String × ℕ)
with_idle name idle [] = (name, idle) ∷ []
with_idle name idle ((n, least) ∷ d) =
    if str_eq n name
    then (n, if ltb idle least then idle else least) ∷ d
    else (n, least) ∷ with_idle name idle d

unfoldable pub min_idle_rows : List (String × ℕ) → List (String × ℕ) → List (String × ℕ)
min_idle_rows d [] = d
min_idle_rows d ((name, idle) ∷ rows) = min_idle_rows (with_idle name idle d) rows

unfoldable pub min_idle : List (String × ℕ) → List (List (String × ℕ)) → List (String × ℕ)
unfolding min_idle_rows
min_idle d [] = d
min_idle d (rows ∷ streams) = min_idle (min_idle_rows d rows) streams

unfoldable pub live_worker_count : List (List (String × ℕ)) → ℕ → ℕ
unfolding min_idle
live_worker_count streams cutoff = length (keep (λ e. ltb e.1 cutoff) (min_idle [] streams))

-- `counts[status]`, of a dict with a key for each status.
abbrev pub set_count : JobStatus → ℕ → (JobStatus → ℕ) → JobStatus → ℕ
set_count s n counts = λ t. if same_status s t then n else counts t

unfoldable pub fill_counts : List (JobStatus × ℕ) → (JobStatus → ℕ) → JobStatus → ℕ
fill_counts [] counts = counts
fill_counts ((s, n) ∷ rows) counts = fill_counts rows (set_count s n counts)

unfoldable pub zero_fill_status_counts : List (JobStatus × ℕ) → JobStatus → ℕ
unfolding fill_counts
zero_fill_status_counts rows = fill_counts rows (λ s. 0)
