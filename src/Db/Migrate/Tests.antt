-- ===== src/Db/Migrate/Tests.antt =====
-- A directory of migrations, run twice.
use rv_tx.Base.{ℕ, suc, ◌≡◌, refl, String, Bool, true, false, Option, some, List, [], ◌∷◌, contains}
use rv_tx.Db.Migrate.{
  Migrated, extension, sql_files, insert_sorted, sort_strings, apply_file, apply_files, migrate,
}

abbrev entries : List (String × Bool)
entries =
    ("0002_b.sql", false) ∷ ("README.md", false) ∷ ("old.sql", true) ∷ ("0001_a.sql", false) ∷ []

abbrev read : String → Option String
read name = some name

-- The schema counts what was executed.
abbrev exec : String → ℕ → Option ℕ
exec sql n = some (suc n)

abbrev empty : Migrated ℕ
empty = record { applied = []; schema = 0 }

abbrev both : Migrated ℕ
both = record { applied = "0001_a.sql" ∷ "0002_b.sql" ∷ []; schema = 2 }

migrates : migrate read exec (some entries) empty ≡ (both, true)
unfolding migrate sort_strings insert_sorted sql_files extension apply_files apply_file contains
migrates = refl
