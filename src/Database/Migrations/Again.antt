-- ===== src/Database/Migrations/Again.antt =====
-- What RunMigrations (internal/db/db.go) has applied when it returns, and what a second run does.
use trading_platform_backend.Prelude.{
  String, ◌≡◌, ◌≢◌, refl, true, Option, none, some, List, [], ◌∷◌, ◌++◌, arith, eq_refl, All,
}
use trading_platform_backend.Database.Exec.{Result, ok}
use trading_platform_backend.Database.Migrations.{
  Directory, Schema, version_of, sorted, is_applied, with_faults, apply_file, apply_files,
  apply_one, apply_found, run_migrations,
}
use trading_platform_backend.Database.Migrations.Applied.{
  Applies, nothing, skipped, applied, call_rule, tables, IsProgress, IsProgress-apply_files,
}

module _ {S : Type 0} (exec_sql : String → S → Option S) (dir : Directory) where
  held-Applies :
      (v : String) (files versions : List String) (s : S) (t : List String × S)
      → Applies exec_sql dir files (versions, s) t
      → is_applied v versions ≡ true
      → is_applied v t.0 ≡ true
  held-Applies v files versions s t nothing h = h
  held-Applies v files versions s t (skipped {files = later} held all) h =
      held-Applies v later versions s t all h
  held-Applies v files versions s t
        (applied {file = file} {files = later} {next = next} new read run all) h =
      held-Applies v later (version_of file ∷ versions) next t all (ground (arith, h))

  abbrev AllHeld : List String → List String → Type 0
  AllHeld files versions = All (λ f. is_applied (version_of f) versions ≡ true) files

  AllHeld-Applies :
      (files versions : List String) (s : S) (t : List String × S)
      → Applies exec_sql dir files (versions, s) t
      → AllHeld files t.0
  AllHeld-Applies files versions s t nothing = tt
  AllHeld-Applies files versions s t (skipped {file = file} {files = later} held all) = (
    held-Applies (version_of file) later versions s t all held,
    AllHeld-Applies later versions s t all,
  )
  AllHeld-Applies files versions s t
        (applied {file = file} {files = later} {next = next} new read run all) =
      (
        held-Applies (version_of file) later (version_of file ∷ versions) next t all
            (rw (eq_refl (version_of file)) refl),
        AllHeld-Applies later (version_of file ∷ versions) next t all,
      )

  apply_files_again :
      (files : List String) (versions : List String) (s : S)
      → AllHeld files versions
      → let db : Schema S = record { versions = versions; state = s; faults = [] } in
        apply_files exec_sql dir files db ≡ (ok tt, db)
  unfolding apply_file
  apply_files_again [] versions s held = refl
  apply_files_again (file ∷ files) versions s held =
      rw (held.0) (apply_files_again files versions s held.1)

  AllHeld-nil :
      (done versions : List String) → AllHeld done versions → AllHeld (done ++ []) versions
  AllHeld-nil [] versions held = tt
  AllHeld-nil (f ∷ fs) versions held = (held.0, AllHeld-nil fs versions held.1)

  all_done :
      (files : List String) (db : Schema S) (out : Result (Unit {0}) × Schema S)
      → IsProgress exec_sql dir files db out
      → out.0 ≡ ok tt
      → AllHeld files out.1.versions
  all_done files db out (done, rest, e, all, ended) succeeded =
      let last : rest ≡ [] = ended succeeded in
      rw (e, last)
        (AllHeld-nil done out.1.versions
          (AllHeld-Applies done db.versions db.state (tables exec_sql dir out.1) all))

  -- the files of the directory in their order
  abbrev pub files_of : Option (List String) → List String
  files_of none = []
  files_of (some files) = sorted files

  abbrev IsRepeatable : Option (List String) → Result (Unit {0}) × Schema S → Type 0
  IsRepeatable o out =
      (out.0 ≡ ok tt)
      → apply_found exec_sql dir o (with_faults [] out.1) ≡ (ok tt, with_faults [] out.1)

  IsProgress-apply_found :
      (o : Option (List String)) (db : Schema S)
      → IsProgress exec_sql dir (files_of o) db (apply_found exec_sql dir o db)
        × IsRepeatable o (apply_found exec_sql dir o db)
  IsProgress-apply_found none db = (([], [], refl, nothing, λ h. refl), λ h. absurd (cc h))
  IsProgress-apply_found (some []) db = (([], [], refl, nothing, λ h. refl), λ h. absurd (cc h))
  IsProgress-apply_found (some (f ∷ fs)) db =
      let files : List String = sorted (f ∷ fs) in
      let out = apply_files exec_sql dir files db in
      let progress = IsProgress-apply_files exec_sql dir files db in
      (
        progress,
        λ h. apply_files_again files out.1.versions out.1.state (all_done files db out progress h),
      )

  abbrev pub schema_of : List String × S → Schema S
  schema_of t = record { versions = t.0; state = t.1; faults = [] }

  apply_files-Applies :
      (files versions : List String) (s : S) (t : List String × S)
      → Applies exec_sql dir files (versions, s) t
      → apply_files exec_sql dir files (schema_of (versions, s)) ≡ (ok tt, schema_of t)
  unfolding apply_file apply_one
  apply_files-Applies files versions s t nothing = refl
  apply_files-Applies files versions s t (skipped {files = later} held all) =
      rw held (apply_files-Applies later versions s t all)
  apply_files-Applies files versions s t
        (applied {file = file} {files = later} {next = next} new read run all) =
      rw (new, read, run, new) (apply_files-Applies later (version_of file ∷ versions) next t all)

  apply_found-Applies :
      (o : Option (List String)) (versions : List String) (s : S) (t : List String × S)
      → files_of o ≢ []
      → Applies exec_sql dir (files_of o) (versions, s) t
      → apply_found exec_sql dir o (schema_of (versions, s)) ≡ (ok tt, schema_of t)
  apply_found-Applies none versions s t some_file all = absurd (some_file refl)
  apply_found-Applies (some []) versions s t some_file all = absurd (some_file refl)
  apply_found-Applies (some (f ∷ fs)) versions s t some_file all =
      apply_files-Applies (sorted (f ∷ fs)) versions s t all

  run_migrations-Applies :
      (pattern : String) (db : Schema S) (t : List String × S)
      → files_of (dir.glob pattern) ≢ []
      → Applies exec_sql dir (files_of (dir.glob pattern)) (tables exec_sql dir db) t
      → db.faults ≡ []
      → run_migrations exec_sql dir pattern db ≡ (ok tt, schema_of t)
  unfolding run_migrations
  run_migrations-Applies pattern db t some_file all calm =
      rw calm (apply_found-Applies (dir.glob pattern) db.versions db.state t some_file all)

  ended_or_again :
      (pattern : String) (db : Schema S)
      → let out = run_migrations exec_sql dir pattern db in
        IsProgress exec_sql dir (files_of (dir.glob pattern)) db out
        × IsRepeatable (dir.glob pattern) out
  unfolding run_migrations
  ended_or_again pattern db =
      let o : Option (List String) = dir.glob pattern in
      call_rule (λ out. IsProgress exec_sql dir (files_of o) db out × IsRepeatable o out) db.faults
        (λ later. apply_found exec_sql dir o (with_faults later db)) db
        (λ later. (([], files_of o, refl, nothing, λ h. absurd (cc h)), λ h. absurd (cc h)))
        (λ later. IsProgress-apply_found o (with_faults later db))

  again :
      (pattern : String) (out : Result (Unit {0}) × Schema S)
      → IsRepeatable (dir.glob pattern) out
      → out.0 ≡ ok tt
      → run_migrations exec_sql dir pattern (with_faults [] out.1) ≡ (ok tt, with_faults [] out.1)
  unfolding run_migrations
  again pattern out repeats = repeats

  -- RunMigrations, whichever calls of the server fail: of the files in their order it has gone through
  -- some first ones, and through all of them where it succeeds. Each of these was skipped, its version
  -- being there, or its text has run and its version is recorded; of no other has anything happened.
  -- Where it succeeds, a second run with no failing call succeeds and changes nothing. Where there are
  -- files, all of them can be gone through in this way and no call fails, it succeeds with the tables
  -- that this leaves.
  pub run_migrations-IsProgress :
      (pattern : String) (db : Schema S)
      → let out = run_migrations exec_sql dir pattern db in
        IsProgress exec_sql dir (files_of (dir.glob pattern)) db out
        × ((out.0 ≡ ok tt)
            → run_migrations exec_sql dir pattern (with_faults [] out.1)
              ≡ (ok tt, with_faults [] out.1))
        × ((t : List String × S)
            → files_of (dir.glob pattern) ≢ []
            → Applies exec_sql dir (files_of (dir.glob pattern)) (tables exec_sql dir db) t
            → db.faults ≡ []
            → out ≡ (ok tt, schema_of t))
  run_migrations-IsProgress pattern db =
      let (progress, repeats) = ended_or_again pattern db in
      (
        progress,
        again pattern (run_migrations exec_sql dir pattern db) repeats,
        run_migrations-Applies pattern db,
      )
