-- ===== src/Metrics/Backfill/Sessions/Agreement.antt =====
-- backfillSessionTilt (internal/metrics/backfill.go) against UpsertSessionTilt of the worker.
use trading_platform_backend.Prelude.{
  ◌≡◌, ◌⊎◌, refl, ap, ◌∙◌, true, false, List, [], ◌∷◌, arith, ◌==◌, All, where_rows, Bool-cases,
  inl, inr,
}
use trading_platform_backend.Prelude.Order.{order_by}
use trading_platform_backend.Prelude.Keyed.{HasRow-upsert}
use trading_platform_backend.Database.{SessionRow, Db}
use trading_platform_backend.Database.Exec.{failed, ok, err, Result, statement_calm}
use trading_platform_backend.Trades.Types.{Uuid, Trade}
use trading_platform_backend.Metrics.Repo.{
  closed_in_session, entered_before, update_session_row, upsert_groups, upsert_session_tilt,
}
use trading_platform_backend.Prelude.Groups.{holds, All-group_keys}
use trading_platform_backend.Metrics.Backfill.Sessions.{
  is_closed, session_ids, group_rows, upsert_sessions, all_or_nothing, backfill_session_tilt,
}
use trading_platform_backend.Metrics.Backfill.Sessions.Settled.{
  IsMixed, at_session, with_rows, new_row, put_row, row_of-session_id, group_cases, IsCurrent,
  IsCurrent-new, IsSettled, settled-recomputed, IsSettled-put,
}

module _ {F : Type 0} (db : Db F) where
  abbrev IsFinished : List Uuid → List SessionRow → Result (Unit {0}) × Db F → Type 0
  IsFinished ids rows out =
      (rows' : List SessionRow) × (out ≡ (ok tt, with_rows db rows'))
      × ((id : Uuid) → (holds id ids ≡ true) ⊎ IsSettled db rows id → IsSettled db rows' id)

  abbrev IsStopped : Result (Unit {0}) × Db F → Type 0
  IsStopped out = (next : Db F) × (out ≡ (err failed, next)) × ((id : Uuid) × IsMixed id db.trades)

  abbrev IsRun : List Uuid → List SessionRow → Type 0
  IsRun ids rows =
      IsFinished ids rows (upsert_sessions ids (with_rows db rows))
      ⊎ IsStopped (upsert_sessions ids (with_rows db rows))

  IsSettled-by :
      (j : Uuid) (ids : List Uuid) (rows next last : List SessionRow)
      → IsSettled db next j
      → ((id : Uuid) → IsSettled db rows id → IsSettled db next id)
      → ((id : Uuid) → (holds id ids ≡ true) ⊎ IsSettled db next id → IsSettled db last id)
      → (id : Uuid) → (holds id (j ∷ ids) ≡ true) ⊎ IsSettled db rows id
      → IsSettled db last id
  IsSettled-by j ids rows next last now keeps later id (inr s) = later id (inr (keeps id s))
  IsSettled-by j ids rows next last now keeps later id (inl h) = elim (Bool-cases (id == j)) [
    | inl same ↦ let e : j ≡ id = ground arith in later id (inr (rw e at now))
    | inr other ↦ later id (inl (rw other at h))
  ]

  continued :
      (j : Uuid) (ids : List Uuid) (rows next : List SessionRow)
      → upsert_groups j (group_rows j db) (with_rows db rows) ≡ (ok tt, with_rows db next)
      → IsSettled db next j
      → ((id : Uuid) → IsSettled db rows id → IsSettled db next id)
      → IsRun ids next
      → IsRun (j ∷ ids) rows
  continued j ids rows next step now keeps (inl (last, out, later)) =
      rw step (inl (last, out, IsSettled-by j ids rows next last now keeps later))
  continued j ids rows next step now keeps (inr stopped) = rw step (inr stopped)

  runs : (ids : List Uuid) (rows : List SessionRow) → IsRun ids rows
  runs [] rows = inl (rows, refl, λ id s. elim s [ inl h ↦ absurd (cc h) | inr s ↦ s ])
  runs (j ∷ ids) rows = elim (group_cases db j) [
    | inl none_closed ↦
        continued j ids rows rows (rw none_closed refl) (inl none_closed) (λ id s. s)
          (runs ids rows)
    | inr (inl uniform) ↦
        continued j ids rows (put_row db j rows) (uniform rows)
          (inr (
            uniform,
            HasRow-upsert at_session (IsCurrent db) (new_row db)
                (λ i r. update_session_row (new_row db i) r)
                (λ i. row_of-session_id i db.now (group_rows i db)) (λ i r. refl) (IsCurrent-new db)
                (λ i r. refl) j rows,
          ))
          (λ id s. IsSettled-put db rows id j s) (runs ids (put_row db j rows))
    | inr (inr (refused, mixed)) ↦ rw (refused rows) (inr (with_rows db rows, refl, (j, mixed)))
  ]

module _ {F : Type 0} where
  none-where_rows :
      (id : Uuid) (ks : List Uuid) (ts : List (Trade F))
      → All (λ t. holds t.session_id ks ≡ true) (where_rows is_closed ts)
      → holds id ks ≡ false
      → where_rows (closed_in_session id) ts ≡ []
  none-where_rows id ks [] a h = refl
  none-where_rows id ks (t ∷ ts) a h = elim (Bool-cases (is_closed t)) [
    | inr still_open ↦
        rw still_open (ground (arith, none-where_rows id ks ts (rw still_open at a) h))
    | inl closed ↦
        let both : All (λ (u : Trade F). holds u.session_id ks ≡ true)
            (t ∷ where_rows is_closed ts) =
          rw closed at a in
        elim (Bool-cases (t.session_id == id)) [
          | inl same ↦ let e : t.session_id ≡ id = ground arith in absurd (cc (both.0, h, e))
          | inr other ↦ rw (closed, other) (none-where_rows id ks ts both.1 h)
        ]
  ]

  all-IsSettled :
      (db : Db F) (rows last : List SessionRow)
      → ((id : Uuid)
          → (holds id (session_ids (where_rows is_closed db.trades)) ≡ true) ⊎ IsSettled db rows id
          → IsSettled db last id)
      → (id : Uuid) → IsSettled db last id
  all-IsSettled db rows last later id =
      let ks : List Uuid = session_ids (where_rows is_closed db.trades) in
      elim (Bool-cases (holds id ks)) [
        | inl h ↦ later id (inl h)
        | inr h ↦
            let keys =
              All-group_keys (λ (t : Trade F). t.session_id) (where_rows is_closed db.trades) in
            inl (ap (order_by entered_before) (none-where_rows id ks db.trades keys h))
      ]

  -- What the statement leaves: recomputing any session changes nothing, or it was refused.
  abbrev pub IsTiltBackfill : Db F → Result (Unit {0}) × Db F → Type 0
  IsTiltBackfill db out =
      ((out.0 ≡ ok tt) × ((id : Uuid) → upsert_session_tilt id out.1 ≡ (ok tt, out.1)))
      ⊎ ((out ≡ (err failed, db)) × ((id : Uuid) × IsMixed id db.trades))

  upsert-settled :
      (db : Db F) (rows : List SessionRow)
      → db.faults ≡ []
      → ((id : Uuid) → IsSettled db rows id)
      → (id : Uuid) → upsert_session_tilt id (with_rows db rows) ≡ (ok tt, with_rows db rows)
  unfolding upsert_session_tilt
  upsert-settled db rows calm settled id =
      statement_calm (λ (d : Db F). upsert_groups id (group_rows id d) d) (with_rows db rows) calm
      ∙ settled-recomputed db rows id (settled id)

  -- backfillSessionTilt with no failing statement either succeeds, and then UpsertSessionTilt of any
  -- session succeeds and changes nothing, so the rows are those that the worker computes; or it fails
  -- and changes nothing, and then some session has closed trades of two users.
  pub backfill_session_tilt-IsTiltBackfill :
      (db : Db F) → db.faults ≡ [] → IsTiltBackfill db (backfill_session_tilt db)
  unfolding backfill_session_tilt
  backfill_session_tilt-IsTiltBackfill db calm =
      let ids : List Uuid = session_ids (where_rows is_closed db.trades) in
      let body : Db F → Result (Unit {0}) × Db F =
        λ d. all_or_nothing (upsert_sessions (session_ids (where_rows is_closed d.trades)) d) d in
      let ran = statement_calm body db calm in
      elim (runs db ids db.session_metrics) [
        | inl (last, out, later) ↦
            let done = ran ∙ ap (λ o. all_or_nothing o db) out in
            rw done (
              inl (
                refl,
                upsert-settled db last calm (all-IsSettled db db.session_metrics last later),
              ))
        | inr (next, out, mixed) ↦ inr (ran ∙ ap (λ o. all_or_nothing o db) out, mixed)
      ]
