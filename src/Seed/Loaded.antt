-- ===== src/Seed/Loaded.antt =====
-- What SeedFromCSV (internal/db/seed.go) leaves in the trades table.
use trading_platform_backend.Prelude.{
  ℕ, String, ◌≡◌, ◌≢◌, ◌<◌, ◌⊎◌, inl, inr, refl, Bool, true, false, ◌&&◌, Option, none, some, List,
  [], ◌∷◌, arith, ltb, if◌then◌else◌, length, find_row, all_rows, All, Bool-cases,
}
use trading_platform_backend.External.Float.{FloatOps}
use trading_platform_backend.External.Postgres.{NumericOps}
use trading_platform_backend.External.TimeText.{TimeText}
use trading_platform_backend.External.SeedText.{SeedText}
use trading_platform_backend.Database.{Db}
use trading_platform_backend.Database.Exec.{Error, failed, Result, ok, err, Exec, pure, attempt}
use trading_platform_backend.Database.Runs.{with_faults, ReadsAt-statement}
use trading_platform_backend.Trades.Types.{Time, Trade}
use trading_platform_backend.Trades.Repo.{has_id, satisfies_checks}
use trading_platform_backend.Trades.Repo.Idempotence.{DistinctIds, IsTable}
use trading_platform_backend.Seed.{
  SeedRow, and_then, parse_file, copied_row, copied_rows, is_accepted, is_missing, has_distinct_ids,
  store_rows, copy_from, seed_from_csv,
}

module _ {F : Type 0} (ops : FloatOps F) (numeric : NumericOps F) (texts : SeedText F) where
  -- Each row is the copy of the record in its place.
  abbrev pub AreCopies : Time → List (SeedRow F) → List (Trade F) → Type 0
  AreCopies now [] [] = Unit {0}
  AreCopies now [] (t ∷ ts) = true ≡ false
  AreCopies now (r ∷ rs) [] = true ≡ false
  AreCopies now (r ∷ rs) (t ∷ ts) =
      (copied_row ops numeric texts now r ≡ some t) × AreCopies now rs ts

  missing-none : (o : Option (Trade F)) → is_missing ops numeric texts o ≡ true → o ≡ none
  missing-none none h = refl
  missing-none (some t) h = absurd (cc h)

  DistinctIds-of :
      (ts : List (Trade F)) → has_distinct_ids ops numeric texts ts ≡ true → DistinctIds ts
  DistinctIds-of [] h = tt
  DistinctIds-of (t ∷ ts) h = (
    missing-none (find_row (has_id t.trade_id) ts) (ground arith),
    DistinctIds-of ts (ground arith),
  )

  All-checked :
      (ts : List (Trade F))
      → all_rows (is_accepted ops numeric texts) ts ≡ true
      → All (λ t. satisfies_checks ops numeric t ≡ true) ts
  All-checked [] h = tt
  All-checked (t ∷ ts) h = (ground arith, All-checked ts (ground arith))

  AreCopies-cons :
      (now : Time) (r : SeedRow F) (rs : List (SeedRow F)) (o : Option (Trade F))
      (p : Option (List (Trade F))) (ts : List (Trade F))
      → copied_row ops numeric texts now r ≡ o
      → ((us : List (Trade F)) → p ≡ some us → AreCopies now rs us)
      → and_then o (λ t. and_then p (λ us. some (t ∷ us))) ≡ some ts
      → AreCopies now (r ∷ rs) ts
  AreCopies-cons now r rs none p ts e later h = absurd (cc h)
  AreCopies-cons now r rs (some t) none ts e later h = absurd (cc h)
  AreCopies-cons now r rs (some t) (some us) ts e later h =
      let same : t ∷ us ≡ ts = cc h in rw⁻¹ same (e, later us refl)

  AreCopies-copied_rows :
      (now : Time) (rows : List (SeedRow F)) (ts : List (Trade F))
      → copied_rows ops numeric texts now rows ≡ some ts
      → AreCopies now rows ts
  AreCopies-copied_rows now [] [] h = tt
  AreCopies-copied_rows now [] (t ∷ ts) h = absurd (cc h)
  AreCopies-copied_rows now (r ∷ rs) ts h =
      AreCopies-cons now r rs (copied_row ops numeric texts now r)
        (copied_rows ops numeric texts now rs) ts refl (AreCopies-copied_rows now rs) h

  -- The rows that COPY makes are refused: one is outside the CHECK clauses, or an id comes twice.
  abbrev pub AreRefused : List (Trade F) → Type 0
  AreRefused ts =
      (all_rows (is_accepted ops numeric texts) ts && has_distinct_ids ops numeric texts ts) ≡ false

  -- What cannot be loaded: a file with a record that is not one of a trade, a value that does not fit
  -- its column, or refused rows.
  abbrev pub IsUnfit : Time → Option (List (SeedRow F)) → Type 0
  IsUnfit now parsed =
      (parsed ≡ none)
      ⊎ ((rows : List (SeedRow F)) × (parsed ≡ some rows)
          × ((copied_rows ops numeric texts now rows ≡ none)
              ⊎ ((ts : List (Trade F)) × (copied_rows ops numeric texts now rows ≡ some ts)
                  × AreRefused ts)))

  -- A seed from these rows: they are stored, or nothing changes, which takes a failing statement or a
  -- file that cannot be loaded.
  abbrev pub IsLoad : Option (List (SeedRow F)) → Db F → Result (Unit {0}) × Db F → Type 0
  IsLoad parsed db out =
      ((rows : List (SeedRow F)) × (ts : List (Trade F)) × (later : List Bool) × (parsed
          ≡ some rows)
        × AreCopies db.now rows ts
        × IsTable ops numeric ts
        × (out ≡ (ok tt, with_faults later (record db { trades = ts }))))
      ⊎ ((e : Error) × (later : List Bool) × (out ≡ (err e, with_faults later db))
          × ((db.faults ≢ []) ⊎ IsUnfit db.now parsed))

  IsLoad-store_rows :
      (rows : List (SeedRow F)) (db : Db F) (later : List Bool) (o : Option (List (Trade F)))
      → copied_rows ops numeric texts db.now rows ≡ o
      → IsLoad (some rows) db (store_rows ops numeric texts o (with_faults later db))
  IsLoad-store_rows rows db later none e = inr (failed, later, refl, inr (inr (rows, refl, inl e)))
  IsLoad-store_rows rows db later (some ts) e =
      elim (Bool-cases
        (all_rows (is_accepted ops numeric texts) ts && has_distinct_ids ops numeric texts ts)) [
          | inr refused ↦
              let unfit : IsUnfit db.now (some rows) = inr (rows, refl, inr (ts, e, refused)) in
              rw refused (inr (failed, later, refl, inr unfit))
          | inl accepted ↦ rw accepted (
              inl (
                rows,
                ts,
                later,
                refl,
                AreCopies-copied_rows db.now rows ts e,
                record {
                  distinct = DistinctIds-of ts (ground arith);
                  checked = All-checked ts (ground arith);
                },
                refl,
              ))
        ]

  IsLoad-attempt :
      (rows : List (SeedRow F)) (db : Db F) (faults : List Bool)
      → (db.faults ≡ [] → faults ≡ [])
      → IsLoad (some rows) db (
          attempt faults
            (λ d. store_rows ops numeric texts (copied_rows ops numeric texts d.now rows) d)
            (with_faults faults db))
  IsLoad-attempt rows db [] calm =
      IsLoad-store_rows rows db [] (copied_rows ops numeric texts db.now rows) refl
  IsLoad-attempt rows db (true ∷ later) calm =
      inr (failed, later, refl, inl (λ h. absurd (cc (calm h))))
  IsLoad-attempt rows db (false ∷ later) calm =
      IsLoad-store_rows rows db later (copied_rows ops numeric texts db.now rows) refl

  IsLoad-copy_from :
      (parsed : Option (List (SeedRow F))) (db : Db F) (start : List Bool)
      → (db.faults ≡ [] → start ≡ [])
      → IsLoad parsed db (copy_from ops numeric texts parsed (with_faults start db))
  IsLoad-copy_from none db start calm = inr (failed, start, refl, inr (inl refl))
  IsLoad-copy_from (some rows) db start calm = IsLoad-attempt rows db start calm

  abbrev pub IsSeed :
      TimeText → Option (List (Option (List String))) → Db F → Result (Unit {0}) × Db F → Type 0
  IsSeed times file db out =
      ((0 < length db.trades) × ((later : List Bool) × (out ≡ (ok tt, with_faults later db))))
      ⊎ ((db.trades ≡ []) × IsLoad (parse_file times texts file) db out)
      ⊎ ((later : List Bool) × (out ≡ (err failed, with_faults later db)) × (db.faults ≢ []))

  empty_of : (ts : List (Trade F)) → ltb 0 (length ts) ≡ false → ts ≡ []
  empty_of [] h = refl
  empty_of (t ∷ ts) h = absurd (ground arith)

  -- SeedFromCSV, whichever statements fail: over a table that has a trade it changes nothing. Over an
  -- empty one it either stores a trade for each record of the file, in the order of the file, with
  -- distinct ids and within the CHECK clauses, or it fails and changes nothing; it fails only by a
  -- failing statement, or by a file with a record, a value or rows that cannot be stored.
  pub seed_from_csv-IsSeed :
      (times : TimeText) (file : Option (List (Option (List String)))) (db : Db F)
      → IsSeed times file db (seed_from_csv ops numeric texts times file db)
  unfolding seed_from_csv
  seed_from_csv-IsSeed times file db =
      let parsed = parse_file times texts file in
      let rest : ℕ → Exec F (Unit {0}) =
        λ n. if ltb 0 n then pure tt else copy_from ops numeric texts parsed in
      elim (ReadsAt-statement (λ (d : Db F). length d.trades) rest db) [
        | inl (later, stopped, faulty) ↦ inr (inr (later, stopped, faulty))
        | inr (later, out, calm) ↦ elim (Bool-cases (ltb 0 (length db.trades))) [
          | inl populated ↦ rw (out, populated) (inl (ground arith, (later, refl)))
          | inr empty ↦
              rw (out, empty)
                (inr (inl (empty_of db.trades empty, IsLoad-copy_from parsed db later calm)))
        ]
      ]
