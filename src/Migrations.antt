-- ===== src/Migrations.antt =====
-- alembic/versions: the schema that the revisions build, as the catalog of a database, and the
-- operations of Alembic on it. Tables, indexes, constraints and enum types are kept in the order of
-- their names, so that two catalogs with the same contents are equal; columns keep their order.
pub mod Revisions
pub mod Steps
use symmetrical_disco.Base.{
  ℕ, String, Bool, true, false, ◌&&◌, ◌||◌, not, Option, none, some, List, [], ◌∷◌, ◌++◌, any, keep,
  map, str_eq, if◌then◌else◌,
}
use Prim.Native.String.{compare}
use Prim.Native.Nat.{Ordering}

pub data ColumnType : Type 0 where
  uuid jsonb timestamp integer boolean text : ColumnType
  enum : String → ColumnType

pub record Column : Type 0 where
  pub name : String
  pub type : ColumnType
  pub nullable : Bool
  pub is_primary_key : Bool
  pub server_default : Option String

-- A WHERE clause stands with the columns that it mentions.
pub record Index : Type 0 where
  pub name : String
  pub table : String
  pub columns : List String
  pub is_unique : Bool
  pub where_clause : Option (String × List String)

pub record ForeignKey : Type 0 where
  pub name : String
  pub table : String
  pub columns : List String
  pub target : String

pub record Catalog : Type 0 where
  pub enums : List (String × List String)
  pub tables : List (String × List Column)
  pub indexes : List (String × Index)
  pub keys : List (String × ForeignKey)

abbrev pub empty_catalog : Catalog
empty_catalog = record { enums = []; tables = []; indexes = []; keys = [] }

abbrev pub is_before : String → String → Bool
is_before a b = elim (compare a b) [ Ordering.lt ↦ true | _ ↦ false ]

module _ {A : Type 0} where
  abbrev pub has_name : String → List (String × A) → Bool
  has_name name l = any (λ e. str_eq e.0 name) l

  abbrev pub entry : String → List (String × A) → Option A
  entry name [] = none
  entry name ((n, a) ∷ l) = if str_eq n name then some a else entry name l

  -- At its place in the order of names.
  abbrev pub insert : String → A → List (String × A) → List (String × A)
  insert name a [] = (name, a) ∷ []
  insert name a ((n, b) ∷ l) =
      if is_before name n then (name, a) ∷ (n, b) ∷ l else (n, b) ∷ insert name a l

  abbrev pub without : String → List (String × A) → List (String × A)
  without name l = keep (λ e. not (str_eq e.0 name)) l

  abbrev pub update : String → (A → A) → List (String × A) → List (String × A)
  update name f [] = []
  update name f ((n, a) ∷ l) = (if str_eq n name then (n, f a) else (n, a)) ∷ update name f l

-- The operations of the revisions. An UPDATE changes rows only.
pub data Op : Type 0 where
  create_enum : String → List String → Op
  drop_enum : String → Op
  add_value : String → String → Op
  create_table : String → List Column → Op
  drop_table : String → Op
  add_column : String → Column → Op
  drop_column : String → String → Op
  create_index : Index → Op
  drop_index : String → Op
  create_foreign_key : ForeignKey → Op
  drop_constraint : String → Op
  execute_update : Op

abbrev pub add_missing : String → List String → List String
add_missing v l = if any (λ x. str_eq x v) l then l else l ++ v ∷ []

abbrev pub mentions : String → List String → Bool
mentions c l = any (λ x. str_eq x c) l

abbrev pub condition_mentions : String → Option (String × List String) → Bool
condition_mentions c none = false
condition_mentions c (some clause) = mentions c clause.1

abbrev pub index_mentions : String → Index → Bool
index_mentions c i = mentions c i.columns || condition_mentions c i.where_clause

-- Indexes, also by their WHERE clause, and keys that mention a column fall with
-- it, and so do the indexes of a table.
unfoldable pub drop_column_at : String → String → Catalog → Catalog
drop_column_at t c s = record s {
  tables = update t (λ columns. keep (λ x. not (str_eq x.name c)) columns) s.tables;
  indexes = keep (λ e. not (str_eq e.1.table t && index_mentions c e.1)) s.indexes;
  keys = keep (λ e. not (str_eq e.1.table t && mentions c e.1.columns)) s.keys;
}

abbrev pub guarded : Bool → Catalog → Option Catalog
guarded b s = if b then some s else none

abbrev pub has_column : String → Option (List Column) → Bool
has_column c none = false
has_column c (some columns) = any (λ x. str_eq x.name c) columns

-- `none` is the error of the database. Enum types are created and dropped with `checkfirst`.
unfoldable pub apply : Op → Catalog → Option Catalog
unfolding drop_column_at
apply (create_enum name values) s =
    some (if has_name name s.enums then s else record s { enums = insert name values s.enums })
apply (drop_enum name) s = some (record s { enums = without name s.enums })
apply (add_value name v) s =
    guarded (has_name name s.enums) (record s { enums = update name (add_missing v) s.enums })
apply (create_table name columns) s =
    guarded (not (has_name name s.tables)) (record s { tables = insert name columns s.tables })
apply (drop_table name) s =
    guarded (has_name name s.tables && not (any (λ e. str_eq e.1.target name) s.keys)) (record s {
      tables = without name s.tables;
      indexes = keep (λ e. not (str_eq e.1.table name)) s.indexes;
      keys = keep (λ e. not (str_eq e.1.table name)) s.keys;
    })
apply (add_column t c) s =
    guarded (has_name t s.tables && not (has_column c.name (entry t s.tables)))
      (record s { tables = update t (λ columns. columns ++ c ∷ []) s.tables })
apply (drop_column t c) s = guarded (has_column c (entry t s.tables)) (drop_column_at t c s)
apply (create_index i) s =
    guarded (has_name i.table s.tables && not (has_name i.name s.indexes))
      (record s { indexes = insert i.name i s.indexes })
apply (drop_index name) s =
    guarded (has_name name s.indexes) (record s { indexes = without name s.indexes })
apply (create_foreign_key k) s =
    guarded
      (has_name k.table s.tables && (has_name k.target s.tables && not (has_name k.name s.keys)))
      (record s { keys = insert k.name k s.keys })
apply (drop_constraint name) s =
    guarded (has_name name s.keys) (record s { keys = without name s.keys })
apply execute_update s = some s

abbrev pub and_then : Option Catalog → (Catalog → Option Catalog) → Option Catalog
and_then none f = none
and_then (some s) f = f s

-- A revision's function, each operation after the other.
unfoldable pub run : List Op → Catalog → Option Catalog
unfolding apply
run [] s = some s
run (o ∷ os) s = and_then (apply o s) (run os)
