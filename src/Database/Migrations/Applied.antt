-- ===== src/Database/Migrations/Applied.antt =====
-- What RunMigrations (internal/db/db.go) has applied when it returns.
use trading_platform_backend.Prelude.{
  String, ◌≡◌, ◌⊎◌, inl, inr, refl, ap, Bool, true, false, Option, none, some, List, [], ◌∷◌, ◌++◌,
  if◌then◌else◌,
}
use trading_platform_backend.Database.Exec.{Error, failed, Result, ok, err}
use trading_platform_backend.Database.Migrations.{
  Directory, Schema, version_of, is_applied, with_faults, call, after_text, apply_one, apply_text,
  apply_file, apply_files,
}

-- The versions and the state, after the files in turn: a file whose version is there is skipped, and
-- of another one the text has run and the version is recorded.
pub data Applies {S : Type 0} (exec_sql : String → S → Option S) (dir : Directory)
    : List String → List String × S → List String × S → Type 0 where
  nothing : {t : List String × S} → Applies exec_sql dir [] t t
  skipped :
      {file : String} {files versions : List String} {s : S} {t : List String × S}
      → is_applied (version_of file) versions ≡ true
      → Applies exec_sql dir files (versions, s) t
      → Applies exec_sql dir (file ∷ files) (versions, s) t
  applied :
      {file sql : String} {files versions : List String} {s next : S} {t : List String × S}
      → is_applied (version_of file) versions ≡ false
      → dir.read_file file ≡ some sql
      → exec_sql sql s ≡ some next
      → Applies exec_sql dir files (version_of file ∷ versions, next) t
      → Applies exec_sql dir (file ∷ files) (versions, s) t

module _ {S : Type 0} where
  pub call_rule :
      (Q : Result (Unit {0}) × Schema S → Type 0) (faults : List Bool)
      (rest : List Bool → Result (Unit {0}) × Schema S) (db : Schema S)
      → ((later : List Bool) → Q (err failed, with_faults later db))
      → ((later : List Bool) → Q (rest later))
      → Q (call faults rest db)
  call_rule Q [] rest db stop go = go []
  call_rule Q (true ∷ later) rest db stop go = stop later
  call_rule Q (false ∷ later) rest db stop go = go later

module _ {S : Type 0} (exec_sql : String → S → Option S) (dir : Directory) where
  -- The three ends of a round of the loop.
  abbrev RoundEnd : String → Schema S → Result (Unit {0}) × Schema S → Type 0
  RoundEnd file db out =
      ((is_applied (version_of file) db.versions ≡ true)
        × ((later : List Bool) × (out ≡ (ok tt, with_faults later db))))
      ⊎ (((is_applied (version_of file) db.versions ≡ false)
            × ((sql : String) × (next : S) × (later : List Bool) × (dir.read_file file ≡ some sql)
                × (exec_sql sql db.state ≡ some next)
                × (out ≡ (
                  ok tt,
                  record { versions = version_of file ∷ db.versions; state = next; faults = later },
                ))))
          ⊎ ((e : Error) × (later : List Bool) × (out ≡ (err e, with_faults later db))))

  RoundEnd-stopped :
      (file : String) (db : Schema S) (later : List Bool)
      → RoundEnd file db (err failed, with_faults later db)
  RoundEnd-stopped file db later = inr (inr (failed, later, refl))

  RoundEnd-insert :
      (file sql : String) (db : Schema S) (inserted : List Bool) (next : S) (b : Bool)
      → is_applied (version_of file) db.versions ≡ false
      → dir.read_file file ≡ some sql
      → exec_sql sql db.state ≡ some next
      → RoundEnd file db (
          if b
          then (err failed, with_faults inserted db)
          else call inserted
              (λ committed. (
                ok tt,
                record {
                  versions = version_of file ∷ db.versions;
                  state = next;
                  faults = committed;
                },
              ))
              db)
  RoundEnd-insert file sql db inserted next true new read run = RoundEnd-stopped file db inserted
  RoundEnd-insert file sql db inserted next false new read run =
      call_rule (RoundEnd file db) inserted _ db (RoundEnd-stopped file db)
        (λ committed. inr (inl (new, (sql, next, committed, read, run, refl))))

  RoundEnd-text :
      (file sql : String) (db : Schema S) (faults : List Bool) (o : Option S)
      → is_applied (version_of file) db.versions ≡ false
      → dir.read_file file ≡ some sql
      → exec_sql sql db.state ≡ o
      → RoundEnd file db (after_text (version_of file) o db faults)
  RoundEnd-text file sql db faults none new read run = RoundEnd-stopped file db faults
  RoundEnd-text file sql db faults (some next) new read run =
      call_rule (RoundEnd file db) faults _ db (RoundEnd-stopped file db) (λ inserted.
        RoundEnd-insert file sql db inserted next (is_applied (version_of file) db.versions) new
          read run)

  RoundEnd-apply_text :
      (file : String) (db : Schema S) (later : List Bool) (o : Option String)
      → is_applied (version_of file) db.versions ≡ false
      → dir.read_file file ≡ o
      → RoundEnd file db (apply_text exec_sql dir (version_of file) o (with_faults later db))
  unfolding apply_one
  RoundEnd-apply_text file db later none new read = RoundEnd-stopped file db later
  RoundEnd-apply_text file db later (some sql) new read =
      let start : Schema S = with_faults later db in
      call_rule (RoundEnd file db) later _ start (RoundEnd-stopped file start) (λ begun.
        call_rule (RoundEnd file db) begun _ start (RoundEnd-stopped file start)
          (λ ran. RoundEnd-text file sql start ran (exec_sql sql db.state) new read refl))

  RoundEnd-found :
      (file : String) (db : Schema S) (later : List Bool) (b : Bool)
      → is_applied (version_of file) db.versions ≡ b
      → RoundEnd file db (
          if b
          then (ok tt, with_faults later db)
          else apply_text exec_sql dir
              (version_of file)
              (dir.read_file file)
              (with_faults later db))
  RoundEnd-found file db later true e = inl (e, (later, refl))
  RoundEnd-found file db later false e =
      RoundEnd-apply_text file db later (dir.read_file file) e refl

  RoundEnd-apply_file :
      (file : String) (db : Schema S) → RoundEnd file db (apply_file exec_sql dir file db)
  unfolding apply_file
  RoundEnd-apply_file file db =
      call_rule (RoundEnd file db) db.faults _ db (RoundEnd-stopped file db)
        (λ later. RoundEnd-found file db later (is_applied (version_of file) db.versions) refl)

  abbrev pub tables : Schema S → List String × S
  tables db = (db.versions, db.state)

  -- What a run over the files has done: all of them, or some first ones.
  abbrev pub IsProgress : List String → Schema S → Result (Unit {0}) × Schema S → Type 0
  IsProgress files db out =
      (done : List String) × (rest : List String) × (files ≡ done ++ rest)
      × Applies exec_sql dir done (tables db) (tables out.1)
      × ((out.0 ≡ ok tt) → rest ≡ [])

  IsProgress-round :
      (file : String) (files : List String) (db : Schema S)
      → ((next : Schema S) → IsProgress files next (apply_files exec_sql dir files next))
      → RoundEnd file db (apply_file exec_sql dir file db)
      → IsProgress (file ∷ files) db (apply_files exec_sql dir (file ∷ files) db)
  IsProgress-round file files db runs (inl (held, (later, out))) =
      let (done, rest, e, all, ended) = runs (with_faults later db) in
      rw out (file ∷ done, rest, ap (λ fs. file ∷ fs) e, skipped held all, ended)
  IsProgress-round file files db runs (inr (inl (new, (sql, next, later, read, run, out)))) =
      let (done, rest, e, all, ended) =
        runs (record { versions = version_of file ∷ db.versions; state = next; faults = later }) in
      rw out (file ∷ done, rest, ap (λ fs. file ∷ fs) e, applied new read run all, ended)
  IsProgress-round file files db runs (inr (inr (e, later, out))) =
      rw out ([], file ∷ files, refl, nothing, λ h. absurd (cc h))

  pub IsProgress-apply_files :
      (files : List String) (db : Schema S)
      → IsProgress files db (apply_files exec_sql dir files db)
  IsProgress-apply_files [] db = ([], [], refl, nothing, λ h. refl)
  IsProgress-apply_files (file ∷ files) db =
      IsProgress-round file files db (IsProgress-apply_files files) (RoundEnd-apply_file file db)
