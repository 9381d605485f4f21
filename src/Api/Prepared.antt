-- ===== src/Api/Prepared.antt =====
-- What the api does to the trades before it serves (cmd/api/main.go).
use trading_platform_backend.Prelude.{
  String, ◌≡◌, ◌<◌, inl, inr, refl, Bool, true, false, Option, none, List, [], ◌∷◌, arith, length,
  find_row, All, if◌then◌else◌,
}
use trading_platform_backend.External.Float.{FloatOps}
use trading_platform_backend.External.Postgres.{NumericOps}
use trading_platform_backend.External.TimeText.{TimeText}
use trading_platform_backend.External.SeedText.{SeedText}
use trading_platform_backend.Config.{Config}
use trading_platform_backend.Database.{Db}
use trading_platform_backend.Database.Exec.{Result, Exec, pure, continue, ◌>>=◌}
use trading_platform_backend.Database.Runs.{with_faults}
use trading_platform_backend.Trades.Types.{Uuid, Trade}
use trading_platform_backend.Trades.Repo.{has_id, satisfies_checks}
use trading_platform_backend.Trades.Repo.Idempotence.{DistinctIds, IsTable}
use trading_platform_backend.Metrics.Posted.{posted, Keeps, Keeps-bind}
use trading_platform_backend.Metrics.Backfill.Flags.{has_snapshots}
use trading_platform_backend.Metrics.Backfill.Posted.{backfill-Keeps, has_snapshots-Keeps}
use trading_platform_backend.Seed.{seed_from_csv, parse_file}
use trading_platform_backend.Seed.Loaded.{IsSeed, IsLoad, seed_from_csv-IsSeed}
use trading_platform_backend.Api.{backfill_unless, seed_on_start, prepare}

module _ {F : Type 0} where
  find-posted :
      (id : Uuid) (ts : List (Trade F))
      → (find_row (has_id id) (posted ts) ≡ none → find_row (has_id id) ts ≡ none)
        × (find_row (has_id id) ts ≡ none → find_row (has_id id) (posted ts) ≡ none)
  find-posted id [] = (λ h. refl, λ h. refl)
  find-posted id (t ∷ ts) =
      let rest = find-posted id ts in (λ h. ground (arith, rest.0), λ h. ground (arith, rest.1))

  DistinctIds-posted : (ts : List (Trade F)) → DistinctIds (posted ts) → DistinctIds ts
  DistinctIds-posted [] d = tt
  DistinctIds-posted (t ∷ ts) d = ((find-posted t.trade_id ts).0 d.0, DistinctIds-posted ts d.1)

  posted-DistinctIds : (ts : List (Trade F)) → DistinctIds ts → DistinctIds (posted ts)
  posted-DistinctIds [] d = tt
  posted-DistinctIds (t ∷ ts) d = ((find-posted t.trade_id ts).1 d.0, posted-DistinctIds ts d.1)

module _ {F : Type 0} (ops : FloatOps F) (numeric : NumericOps F) where
  abbrev AreChecked : List (Trade F) → Type 0
  AreChecked ts = All (λ t. satisfies_checks ops numeric t ≡ true) ts

  AreChecked-posted : (ts : List (Trade F)) → AreChecked (posted ts) → AreChecked ts
  unfolding satisfies_checks
  AreChecked-posted [] c = tt
  AreChecked-posted (t ∷ ts) c = (c.0, AreChecked-posted ts c.1)

  posted-AreChecked : (ts : List (Trade F)) → AreChecked ts → AreChecked (posted ts)
  unfolding satisfies_checks
  posted-AreChecked [] c = tt
  posted-AreChecked (t ∷ ts) c = (c.0, posted-AreChecked ts c.1)

  -- The primary key and the CHECK clauses do not look at what the backfill writes.
  IsTable-posted :
      (ts us : List (Trade F))
      → posted us ≡ posted ts
      → IsTable ops numeric ts
      → IsTable ops numeric us
  IsTable-posted ts us same table = record {
    distinct = DistinctIds-posted us (rw same (posted-DistinctIds ts table.distinct));
    checked = AreChecked-posted us (rw same (posted-AreChecked ts table.checked));
  }

  -- A valid table stays one, and a table with a trade keeps its posted columns.
  pub record IsPrepared (db next : Db F) : Type 0 where
    pub table : IsTable ops numeric db.trades → IsTable ops numeric next.trades
    pub kept : 0 < length db.trades → posted next.trades ≡ posted db.trades

  IsPrepared-same : (db next : Db F) → posted next.trades ≡ posted db.trades → IsPrepared db next
  IsPrepared-same db next same = record {
    table = IsTable-posted db.trades next.trades same;
    kept = λ h. same;
  }

module _ {F : Type 0} (ops : FloatOps F) (numeric : NumericOps F) (times : TimeText)
    (texts : SeedText F) (users counted : List Uuid → List Uuid)
    (file : Option (List (Option (List String)))) where
  unless-Keeps : (b : Bool) → Keeps (backfill_unless ops numeric times texts users counted b)
  unless-Keeps true = λ db. refl
  unless-Keeps false = backfill-Keeps numeric users counted

  abbrev after_seed : Exec F (Unit {0})
  after_seed =
      has_snapshots >>= λ has_snap. backfill_unless ops numeric times texts users counted has_snap

  after_seed-Keeps : Keeps after_seed
  after_seed-Keeps =
      Keeps-bind has_snapshots (λ b. backfill_unless ops numeric times texts users counted b)
        has_snapshots-Keeps unless-Keeps

  abbrev and_rest : Result (Unit {0}) × Db F → Result (Unit {0}) × Db F
  and_rest out = continue out.0 (λ u. after_seed) out.1

  IsPrepared-load :
      (db : Db F) (out : Result (Unit {0}) × Db F)
      → db.trades ≡ []
      → IsLoad ops numeric texts (parse_file times texts file) db out
      → IsPrepared ops numeric db (and_rest out).1
  IsPrepared-load db out empty (inl (rows, ts, later, parsed, copies, table, done)) =
      let next : Db F = with_faults later (record db { trades = ts }) in
      rw done (record {
        table = λ h.
            IsTable-posted ops numeric ts (after_seed next).1.trades (after_seed-Keeps next) table;
        kept = λ h. absurd (ground (arith, empty));
      })
  IsPrepared-load db out empty (inr (e, later, stopped, reason)) =
      rw stopped (IsPrepared-same ops numeric db (with_faults later db) refl)

  IsPrepared-seed :
      (db : Db F) (out : Result (Unit {0}) × Db F)
      → IsSeed ops numeric texts times file db out
      → IsPrepared ops numeric db (and_rest out).1
  IsPrepared-seed db out (inl (populated, (later, done))) = rw done (
      IsPrepared-same ops numeric db (after_seed (with_faults later db)).1
        (after_seed-Keeps (with_faults later db)))
  IsPrepared-seed db out (inr (inl (empty, load))) = IsPrepared-load db out empty load
  IsPrepared-seed db out (inr (inr (later, stopped, faulty))) =
      rw stopped (IsPrepared-same ops numeric db (with_faults later db) refl)

  IsPrepared-if :
      (b : Bool) (db : Db F)
      → IsPrepared ops numeric db
          ((if b then seed_on_start ops numeric times texts users counted file else pure tt) db).1
  unfolding seed_on_start
  IsPrepared-if false db = IsPrepared-same ops numeric db db refl
  IsPrepared-if true db =
      IsPrepared-seed db (seed_from_csv ops numeric texts times file db)
        (seed_from_csv-IsSeed ops numeric texts times file db)

  -- The seed and the backfill at the start, whatever the file holds, whichever statements fail, and
  -- with SeedOnStart or without: a trades table within the primary key and the CHECK clauses is within
  -- them afterwards, and where it had a trade, it has the same rows in their order, with every posted
  -- and derived column as it was.
  pub prepare-IsPrepared :
      (cfg : Config) (db : Db F)
      → IsPrepared ops numeric db (prepare ops numeric times texts users counted cfg file db).1
  unfolding prepare
  prepare-IsPrepared cfg db = IsPrepared-if cfg.seed_on_start db
