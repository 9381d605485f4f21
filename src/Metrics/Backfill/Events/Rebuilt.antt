-- ===== src/Metrics/Backfill/Events/Rebuilt.antt =====
-- What backfillOvertrading (internal/metrics/backfill.go) leaves in the tables.
use trading_platform_backend.Prelude.{
  ◌≡◌, ◌≢◌, ◌⊎◌, refl, sym, ap, ◌∙◌, Bool, true, List, [], ◌∷◌, ◌++◌, append-nil, append_assoc, inl,
  inr, update_rows,
}
use trading_platform_backend.Prelude.Keyed.{HasRow}
use trading_platform_backend.Prelude.Groups.{holds}
use trading_platform_backend.Database.{OvertradingRow, UserMetricsRow, Db}
use trading_platform_backend.Database.Exec.{Error, failed, Result, ok, err, Exec}
use trading_platform_backend.Database.Runs.{
  RunsAt, Runs, with_faults, Runs-statement, Runs-pure, Runs-then, ReadsAt-statement,
}
use trading_platform_backend.Database.Transaction.{transaction, IsAtomic, transaction-IsAtomic}
use trading_platform_backend.Trades.Types.{Uuid, Time, Trade}
use trading_platform_backend.Metrics.Repo.{new_user_row}
use trading_platform_backend.Metrics.Backfill.Flags.{upsert_users, user_ids}
use trading_platform_backend.Metrics.Backfill.Flags.Users.{HasRow-upsert_users}
use trading_platform_backend.Metrics.Backfill.Events.{
  events_over, count_of, counted_users, insert_events, set_count, set_counts, rebuild,
  backfill_overtrading,
}

module _ {F : Type 0} where
  abbrev with_events : List OvertradingRow → Db F → Db F
  with_events es db = record db { overtrading_events = db.overtrading_events ++ es }

  one_more :
      (e : OvertradingRow) (es : List OvertradingRow) (db : Db F) (out : Result (Unit {0}) × Db F)
      → RunsAt (λ d. with_events es (with_events (e ∷ []) d)) db out
      → RunsAt (with_events (e ∷ es)) db out
  one_more e es db out (inr stopped) = inr stopped
  one_more e es db out (inl (later, done, calm)) = inl (
    later,
    done
        ∙ ap (λ xs. (ok tt, with_faults later (record db { overtrading_events = xs })))
            (append_assoc db.overtrading_events (e ∷ []) es),
    calm,
  )

  Runs-insert_events : (es : List OvertradingRow) → Runs (insert_events {F = F} es) (with_events es)
  Runs-insert_events [] = λ db. inl (
    db.faults,
    ap (λ xs. (ok tt, record db { overtrading_events = xs }))
        (sym (append-nil db.overtrading_events)),
    λ h. h,
  )
  Runs-insert_events (e ∷ es) = λ db. one_more e es db (insert_events (e ∷ es) db) (
      Runs-then (with_events (e ∷ [])) (with_events es) (λ d before after. refl)
        (Runs-statement (with_events (e ∷ [])) (λ d later. refl)) (Runs-insert_events es) db)

  module _ (ts : List (Trade F)) where
    abbrev pub row_for : Time → Uuid → UserMetricsRow F
    row_for now id = record (new_user_row id now) { overtrading_events_count = count_of ts id }

    abbrev pub counted_row : Time → Uuid → UserMetricsRow F → UserMetricsRow F
    counted_row now id r = record r { overtrading_events_count = count_of ts id; updated_at = now }

    abbrev with_counts : List Uuid → Db F → Db F
    with_counts ids db = record db {
      user_metrics = upsert_users (row_for db.now) (counted_row db.now) ids db.user_metrics;
    }

    Runs-set_counts : (ids : List Uuid) → Runs (set_counts ts ids) (with_counts ids)
    unfolding set_count
    Runs-set_counts [] = Runs-pure
    Runs-set_counts (id ∷ ids) =
        Runs-then (with_counts (id ∷ [])) (with_counts ids) (λ d before after. refl)
          (Runs-statement (with_counts (id ∷ [])) (λ d later. refl)) (Runs-set_counts ids)

    abbrev cleared : Db F → Db F
    cleared db = record db { overtrading_events = [] }

    abbrev reset : Db F → Db F
    reset db = record db {
      user_metrics =
          update_rows (λ r. true) (λ r. record r { overtrading_events_count = 0 }) db.user_metrics;
    }

    abbrev rebuilt : List OvertradingRow → List Uuid → Db F → Db F
    rebuilt es ids db = with_counts ids (reset (with_events es (cleared db)))

    Runs-rebuild :
        (es : List OvertradingRow) (ids : List Uuid) → Runs (rebuild es ts ids) (rebuilt es ids)
    Runs-rebuild es ids =
        Runs-then cleared (λ db. with_counts ids (reset (with_events es db)))
          (λ d before after. refl) (Runs-statement cleared (λ d later. refl))
          (Runs-then (with_events es) (λ db. with_counts ids (reset db)) (λ d before after. refl)
            (Runs-insert_events es)
            (Runs-then reset (with_counts ids) (λ d before after. refl)
              (Runs-statement reset (λ d later. refl)) (Runs-set_counts ids)))

module _ {F : Type 0} (users counted : List Uuid → List Uuid) where
  abbrev HasCount : List (Trade F) → List (UserMetricsRow F) → Uuid → Type 0
  HasCount ts rows id =
      HasRow (λ (r : UserMetricsRow F). r.user_id)
        (λ i r. r.overtrading_events_count ≡ count_of ts i) rows id

  -- The tables after the rebuild, from those before it.
  pub record IsRebuilt (db : Db F) (next : Db F) : Type 0 where
    pub same_trades : next.trades ≡ db.trades
    pub events : next.overtrading_events ≡ events_over db.trades (users (user_ids db.trades))
    pub counts :
        (id : Uuid)
        → holds id (counted (counted_users db.trades)) ≡ true
        → HasCount db.trades next.user_metrics id

  rebuilt-IsRebuilt :
      (db : Db F) (later : List Bool)
      → IsRebuilt db (
          with_faults later (
            rebuilt db.trades
              (events_over db.trades (users (user_ids db.trades)))
              (counted (counted_users db.trades))
              db))
  rebuilt-IsRebuilt db later = record {
    same_trades = refl;
    events = refl;
    counts = λ id h.
        HasRow-upsert_users (λ i r. r.overtrading_events_count ≡ count_of db.trades i)
          (row_for db.trades db.now) (counted_row db.trades db.now) (λ i. refl) (λ i r. refl)
          (λ i. refl) (λ i r. refl) id (counted (counted_users db.trades))
          (update_rows (λ (r : UserMetricsRow F). true)
            (λ r. record r { overtrading_events_count = 0 }) db.user_metrics)
          h;
  }

  -- Rebuilt, or failed, which takes a fault, with every table as before.
  abbrev pub IsRebuild : Db F → Result (Unit {0}) × Db F → Type 0
  IsRebuild db out =
      ((out.0 ≡ ok tt) × IsRebuilt db out.1)
      ⊎ ((e : Error) × (later : List Bool) × (out ≡ (err e, with_faults later db))
          × (db.faults ≢ []))

  atomic-IsRebuild :
      (db : Db F) (start : List Bool) (out : Result (Unit {0}) × Db F)
      → IsAtomic
          (rebuilt db.trades
            (events_over db.trades (users (user_ids db.trades)))
            (counted (counted_users db.trades)))
          (with_faults start db)
          out
      → (db.faults ≡ [] → start ≡ [])
      → IsRebuild db out
  atomic-IsRebuild db start out (inl (later, done)) calm =
      rw done (inl (refl, rebuilt-IsRebuilt db later))
  atomic-IsRebuild db start out (inr (e, later, stopped, faulty)) calm =
      inr (e, later, stopped, λ h. faulty (calm h))

  -- backfillOvertrading, whichever statements fail and in whichever order the two maps are ranged
  -- over, either fails and leaves every table as it was, which takes a failing statement, or succeeds:
  -- the trades stay, the events are those of the walk over each user of the range in turn and no
  -- others, and each user of the second range has a row with the number of the user's events.
  pub backfill_overtrading-IsRebuild :
      (db : Db F) → IsRebuild db (backfill_overtrading users counted db)
  unfolding backfill_overtrading
  backfill_overtrading-IsRebuild db =
      let body : List (Trade F) → Exec F (Unit {0}) =
        λ ts. rebuild (events_over ts (users (user_ids ts))) ts (counted (counted_users ts)) in
      elim (ReadsAt-statement (λ (d : Db F). d.trades) (λ ts. transaction (body ts)) db) [
        | inl (later, failed_query, faulty) ↦ inr (failed, later, failed_query, faulty)
        | inr (later, out, calm) ↦
            let es : List OvertradingRow = events_over db.trades (users (user_ids db.trades)) in
            let ids : List Uuid = counted (counted_users db.trades) in
            let runs = Runs-rebuild db.trades es ids in
            rw out (
              atomic-IsRebuild db later (transaction (body db.trades) (with_faults later db))
                (transaction-IsAtomic (body db.trades) (rebuilt db.trades es ids)
                  (λ d before after. refl) runs (with_faults later db))
                calm)
      ]
