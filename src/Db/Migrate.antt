-- ===== src/Db/Migrate.antt =====
-- internal/controlplane/db/migrate.go: the migrations runner. What a file's SQL does to the schema, and
-- the files, are arguments; a transaction keeps the schema and the table schema_migrations in step.
pub mod Once
pub mod Tests
use Prim.Native.Nat.{Ordering}
use Prim.Native.Char.{code}
use Prim.Native.String.{compare}
use rv_tx.Base.{
  ℕ, String, Bool, true, false, not, ◌&&◌, Option, none, some, List, [], ◌∷◌, ◌++◌, contains, eqb,
  if◌then◌else◌, ◌==◌,
}

-- `schema` is the rest of the database.
pub record Migrated (D : Type 0) : Type 0 where
  pub applied : List String
  pub schema : D

-- `filepath.Ext` of a file name: from its last dot on.
unfoldable pub extension : String → String
extension String.[] = ""
extension (String.◌∷◌ c s) =
    let rest = extension s in
    if not (rest == "") then rest else (if eqb (code c) b'.' then String.◌∷◌ c s else "")

-- The names of the entries that are no directories and end in ".sql".
unfoldable pub sql_files : List (String × Bool) → List String
sql_files [] = []
sql_files (entry ∷ entries) =
    let rest = sql_files entries in
    if not entry.1 && extension entry.0 == ".sql" then entry.0 ∷ rest else rest

-- `sort.Strings`
unfoldable pub insert_sorted : String → List String → List String
insert_sorted x [] = x ∷ []
insert_sorted x (y ∷ ys) =
    let rest = insert_sorted x ys in elim (compare x y) [ Ordering.gt ↦ y ∷ rest | _ ↦ x ∷ y ∷ ys ]

unfoldable pub sort_strings : List String → List String
sort_strings [] = []
sort_strings (x ∷ xs) = insert_sorted x (sort_strings xs)

module _ {D : Type 0} (read : String → Option String) (exec : String → D → Option D) where
  -- One round of the loop, and whether it succeeded.
  unfoldable pub apply_file : String → Migrated D → Migrated D × Bool
  apply_file name s = if contains s.applied name then (s, true) else (elim (read name) [
    | none ↦ (s, false)
    | some contents ↦ elim (exec contents s.schema) [
      | none ↦ (s, false)
      | some d ↦ (record { applied = s.applied ++ name ∷ []; schema = d }, true)
    ]
  ])

  unfoldable pub apply_files : List String → Migrated D → Migrated D × Bool
  apply_files [] s = (s, true)
  apply_files (name ∷ names) s =
      let (s', succeeded) = apply_file name s in
      let rest = apply_files names s' in if succeeded then rest else (s', false)

  -- `Migrate`, from the entries of the directory, if it can be read.
  unfoldable pub migrate : Option (List (String × Bool)) → Migrated D → Migrated D × Bool
  migrate none s = (s, false)
  migrate (some entries) s = apply_files (sort_strings (sql_files entries)) s
