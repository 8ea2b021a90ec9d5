-- ===== src/Migrations/Steps.antt =====
-- Upgrades and downgrades along the chain of alembic/versions.
use symmetrical_disco.Base.{ℕ, zero, suc, ◌≡◌, String, Option, none, some, List, [], ◌∷◌, get_elem?}
use symmetrical_disco.Migrations.{
  Op, add_value, update, add_missing, Catalog, empty_catalog, and_then, run,
}
use symmetrical_disco.Migrations.Revisions.{Revision, revisions}

-- The catalog after the first `k` revisions.
unfoldable pub upgraded : ℕ → List Revision → Catalog → Option Catalog
unfolding run
upgraded zero rs s = some s
upgraded (suc k) [] s = some s
upgraded (suc k) (r ∷ rs) s = and_then (run r.upgrade s) (upgraded k rs)

-- The enum values that an upgrade adds to types that are there.
abbrev added : List Op → Catalog → Catalog
added [] s = s
added (add_value name v ∷ ops) s =
    added ops (record s { enums = update name (add_missing v) s.enums })
added (op ∷ ops) s = added ops s

-- A downgrade gives back the catalog with the enum values that the upgrade has added to its types,
-- and a second upgrade gives what the first gave.
abbrev Again : Revision → Catalog → Catalog → Option Catalog → Type 0
Again r s u none = ⊥
Again r s u (some d) = (d ≡ added r.upgrade s) × (run r.upgrade d ≡ some u)

abbrev Back : Revision → Catalog → Option Catalog → Type 0
Back r s none = ⊥
Back r s (some u) = Again r s u (run r.downgrade u)

abbrev From : Revision → Option Catalog → Type 0
From r none = ⊥
From r (some s) = Back r s (run r.upgrade s)

abbrev revision_at : Option Revision → Option String
revision_at none = none
revision_at (some r) = some r.revision

-- The revision before the one at `k`.
abbrev previous : ℕ → Option String
previous zero = none
previous (suc k) = revision_at (get_elem? revisions k)

abbrev At : ℕ → Option Revision → Type 0
At k none = ⊥
At k (some r) = (r.down_revision ≡ previous k) × From r (upgraded k revisions empty_catalog)

-- The revision at `k` names the one before it; it succeeds on the catalog that those before it build
-- from an empty database; its downgrade succeeds and gives that catalog back, with the values that it
-- has added to enum types that were there, and no more; and the upgrade then succeeds again with the
-- same outcome.
abbrev pub IsReversible : ℕ → Type 0
IsReversible k = At k (get_elem? revisions k)
