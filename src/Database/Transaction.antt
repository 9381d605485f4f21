-- ===== src/Database/Transaction.antt =====
-- A transaction of pgx: Begin, the statements, Commit, and the deferred Rollback. The environment may
-- also fail Begin and Commit; a Commit that fails has stored nothing.
use trading_platform_backend.Prelude.{◌≡◌, ◌≢◌, ◌⊎◌, refl, ap, inl, inr, Bool, List, []}
use trading_platform_backend.Database.Runs.{
  RunsAt, Runs, IsBlind, with_faults, Runs-statement, Runs-then,
}
use trading_platform_backend.Database.{Db}
use trading_platform_backend.Database.Exec.{Error, Result, ok, err, Exec, pure, statement, ◌>>◌}

module _ {F : Type 0} where
  -- Rollback after an error: the tables are as they were before Begin.
  abbrev pub end_transaction : Db F → Result (Unit {0}) × Db F → Result (Unit {0}) × Db F
  end_transaction db (ok u, after) = (ok u, after)
  end_transaction db (err e, after) = (err e, record db { faults = after.faults })

  unfoldable pub transaction : Exec F (Unit {0}) → Exec F (Unit {0})
  transaction body db =
      end_transaction db
        ((statement {A = Unit {0}} (pure tt) >> body >> statement {A = Unit {0}} (pure tt)) db)

module _ {F : Type 0} where
  -- The transaction succeeds with the effect f, or, which takes a fault, every table is as before.
  abbrev pub IsAtomic : (Db F → Db F) → Db F → Result (Unit {0}) × Db F → Type 0
  IsAtomic f db out =
      ((later : List Bool) × (out ≡ (ok tt, with_faults later (f db))))
      ⊎ ((e : Error) × (later : List Bool) × (out ≡ (err e, with_faults later db))
          × (db.faults ≢ []))

  end-IsAtomic :
      (f : Db F → Db F) (db : Db F) (out : Result (Unit {0}) × Db F)
      → RunsAt f db out
      → IsAtomic f db (end_transaction db out)
  end-IsAtomic f db out (inl (later, done, calm)) = inl (later, ap (end_transaction db) done)
  end-IsAtomic f db out (inr (e, next, stopped, faulty)) =
      inr (e, next.faults, ap (end_transaction db) stopped, faulty)

  Runs-empty : Runs (statement (pure tt)) (λ (db : Db F). db)
  Runs-empty = Runs-statement (λ db. db) (λ db later. refl)

  pub transaction-IsAtomic :
      (body : Exec F (Unit {0})) (f : Db F → Db F)
      → IsBlind f
      → Runs body f
      → (db : Db F) → IsAtomic f db (transaction body db)
  unfolding transaction
  transaction-IsAtomic body f blind runs db =
      end-IsAtomic f db ((statement (pure tt) >> body >> statement (pure tt)) db) (
        Runs-then f (λ d. d) (λ d before after. refl) (Runs-then (λ d. d) f blind Runs-empty runs)
          Runs-empty db)
