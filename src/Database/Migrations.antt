-- ===== src/Database/Migrations.antt =====
-- internal/db/db.go: RunMigrations and applyOne. The directory (filepath.Glob, os.ReadFile) and the
-- SQL server that runs a migration's text are parameters; S is the state that such a text changes.
-- The table schema_migrations is a list of versions; where it is missing it is empty, and the code
-- creates it before it reads it. `faults` is as in Database.
pub mod Applied
pub mod Again
use Prim.Native.String.{◌++◌, compare}
use text.Mathlib.Text.{is_lt}
use trading_platform_backend.Prelude.{
  String, Bool, true, false, Option, none, some, List, [], ◌∷◌, str_eq, if◌then◌else◌, any_row,
}
use trading_platform_backend.Prelude.Order.{order_by}
use trading_platform_backend.Prelude.Paths.{base, trim_suffix}
use trading_platform_backend.Database.Exec.{Error, failed, Result, ok, err}

pub record Directory : Type 0 where
  -- filepath.Glob; none is its error
  pub glob : String → Option (List String)
  -- os.ReadFile
  pub read_file : String → Option String

pub record Schema (S : Type 0) : Type 0 where
  pub versions : List String
  pub state : S
  pub faults : List Bool

abbrev pub Step : Type 0 → Type 0
Step S = Schema S → Result (Unit {0}) × Schema S

-- version of a file
abbrev pub version_of : String → String
version_of file = trim_suffix (base file) ".up.sql"

-- sort.Strings
abbrev pub sorted : List String → List String
sorted files = order_by (λ a b. is_lt (compare a b)) files

-- SELECT EXISTS (SELECT 1 FROM schema_migrations WHERE version = $1)
abbrev pub is_applied : String → List String → Bool
is_applied version versions = any_row (λ v. str_eq v version) versions

module _ {S : Type 0} where
  abbrev pub with_faults : List Bool → Schema S → Schema S
  with_faults later db = record db { faults = later }

  -- A call of the server: it fails, or the rest runs with the faults that are left.
  abbrev pub call :
      List Bool
      → (List Bool → Result (Unit {0}) × Schema S)
      → Schema S
      → Result (Unit {0}) × Schema S
  call [] rest db = rest []
  call (true ∷ later) rest db = (err failed, with_faults later db)
  call (false ∷ later) rest db = rest later

  -- After the migration's text: the version is recorded, and the transaction ends. A version that is
  -- there violates the primary key.
  abbrev pub record_version : String → S → Schema S → List Bool → Result (Unit {0}) × Schema S
  record_version version next db faults =
      call faults
        (λ inserted.
          if is_applied version db.versions
          then (err failed, with_faults inserted db)
          else call inserted
              (λ committed. (
                ok tt,
                record { versions = version ∷ db.versions; state = next; faults = committed },
              ))
              db)
        db

  abbrev pub after_text : String → Option S → Schema S → List Bool → Result (Unit {0}) × Schema S
  after_text version none db faults = (err failed, with_faults faults db)
  after_text version (some next) db faults = record_version version next db faults

  -- applyOne: begin, the text, the version, commit; every error rolls back
  unfoldable pub apply_one : (String → S → Option S) → String → String → Step S
  apply_one exec_sql version sql db =
      call db.faults
        (λ begun. call begun (λ ran. after_text version (exec_sql sql db.state) db ran) db) db

module _ {S : Type 0} (exec_sql : String → S → Option S) (dir : Directory) where
  abbrev pub apply_text : String → Option String → Step S
  apply_text version none db = (err failed, db)
  apply_text version (some sql) db = apply_one exec_sql version sql db

  -- one round of the loop
  unfoldable pub apply_file : String → Step S
  apply_file file db =
      call db.faults
        (λ later.
          if is_applied (version_of file) db.versions
          then (ok tt, with_faults later db)
          else apply_text (version_of file) (dir.read_file file) (with_faults later db))
        db

  abbrev pub next_file : Result (Unit {0}) × Schema S → Step S → Result (Unit {0}) × Schema S
  next_file (ok u, db) rest = rest db
  next_file (err e, db) rest = (err e, db)

  abbrev pub apply_files : List String → Step S
  apply_files [] db = (ok tt, db)
  apply_files (file ∷ files) db = next_file (apply_file file db) (apply_files files)

  abbrev pub apply_found : Option (List String) → Step S
  apply_found none db = (err failed, db)
  apply_found (some []) db = (err failed, db)
  apply_found (some (f ∷ fs)) db = apply_files (sorted (f ∷ fs)) db

  -- RunMigrations; the pattern is filepath.Join(dir, "*.up.sql")
  unfoldable pub run_migrations : String → Step S
  run_migrations pattern db =
      call db.faults (λ later. apply_found (dir.glob pattern) (with_faults later db)) db
