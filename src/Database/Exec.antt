-- ===== src/Database/Exec.antt =====
-- Actions on the database that may fail. What an action wrote before it failed stays written, as
-- each statement of the code commits by itself.
use trading_platform_backend.Prelude.{◌≡◌, refl, ap, Bool, true, false, List, [], ◌∷◌}
use trading_platform_backend.Database.{Db}

-- pgx.ErrNoRows, trades.ErrNotFound, and any other error of the server or of the driver.
pub data Error : Type 0 where
  no_rows not_found failed : Error

pub data Result {ℓ} (A : Type ℓ) : Type ℓ where
  ok : A → Result A
  err : Error → Result A

abbrev pub Exec : Type 0 → Type 0 → Type 0
Exec F A = Db F → Result A × Db F

module _ {F : Type 0} {A : Type 0} where
  abbrev pub pure : A → Exec F A
  pure a db = (ok a, db)

  abbrev pub raise : Error → Exec F A
  raise e db = (err e, db)

  abbrev pub attempt : List Bool → Exec F A → Exec F A
  attempt [] run db = run db
  attempt (true ∷ later) run db = (err failed, record db { faults = later })
  attempt (false ∷ later) run db = run (record db { faults = later })

  -- One statement: it runs unless the environment fails it.
  abbrev pub statement : Exec F A → Exec F A
  statement run db = attempt db.faults run db

  -- With no failing statement it runs.
  pub statement_calm : (run : Exec F A) (db : Db F) → db.faults ≡ [] → statement run db ≡ run db
  statement_calm run db calm = ap (λ faults. attempt faults run db) calm

module _ {F A B : Type 0} where
  abbrev pub continue : Result A → (A → Exec F B) → Exec F B
  continue (ok a) f db = f a db
  continue (err e) f db = (err e, db)

  infixl 10 ◌>>=◌ ◌>>◌
  abbrev pub ◌>>=◌ : Exec F A → (A → Exec F B) → Exec F B
  ◌>>=◌ m f db = continue (m db).0 f (m db).1

  abbrev pub ◌>>◌ : Exec F A → Exec F B → Exec F B
  m >> n = m >>= λ _. n

-- To prove a property of what a statement leaves: it holds when the statement fails, and when it
-- runs, whatever the environment chooses for the later ones.
module _ {F A : Type 0} (Q : Result A → Db F → Type 0) where
  attempt_rule :
      (faults : List Bool) (run : Exec F A) (db : Db F)
      → ((later : List Bool) → Q (err failed) (record db { faults = later }))
      → ((later : List Bool)
          → Q (run (record db { faults = later })).0 (run (record db { faults = later })).1)
      → Q
          (attempt faults run (record db { faults = faults })).0
          (attempt faults run (record db { faults = faults })).1
  attempt_rule [] run db fail pass = pass []
  attempt_rule (true ∷ later) run db fail pass = fail later
  attempt_rule (false ∷ later) run db fail pass = pass later

  pub statement_rule :
      (run : Exec F A) (db : Db F)
      → ((later : List Bool) → Q (err failed) (record db { faults = later }))
      → ((later : List Bool)
          → Q (run (record db { faults = later })).0 (run (record db { faults = later })).1)
      → Q (statement run db).0 (statement run db).1
  statement_rule run db fail pass = attempt_rule db.faults run db fail pass

-- The same for a statement with the rest of the block behind it.
module _ {F A B : Type 0} (Q : Result B → Db F → Type 0) where
  pub bind_rule :
      (run : Exec F A) (rest : A → Exec F B) (db : Db F)
      → ((later : List Bool) → Q (err failed) (record db { faults = later }))
      → ((later : List Bool)
          → let r = run (record db { faults = later }) in
            Q (continue r.0 rest r.1).0 (continue r.0 rest r.1).1)
      → Q ((statement run >>= rest) db).0 ((statement run >>= rest) db).1
  bind_rule run rest db fail pass =
      statement_rule (λ r d. Q (continue r rest d).0 (continue r rest d).1) run db fail pass

module _ {F A B : Type 0} where
  pub continue-pure :
      (r : Result A) (b : A → B) (db : Db F) → (continue r (λ a. pure (b a)) db).1 ≡ db
  continue-pure (ok a) b db = refl
  continue-pure (err e) b db = refl
