-- ===== src/Metrics/Backfill/Sessions/Settled.antt =====
-- The groups of backfillSessionTilt (internal/metrics/backfill.go), and the sessions whose row is
-- what UpsertSessionTilt computes.
use trading_platform_backend.Prelude.{
  ◌≡◌, ◌≢◌, ◌⊎◌, refl, sym, ap, ◌∙◌, Bool, true, false, ◌||◌, List, [], ◌∷◌, arith, ◌==◌,
  where_rows, any_row, all_rows, upsert_rows, Bool-cases, inl, inr, ==_refl,
}
use trading_platform_backend.Prelude.Order.{insert_by, order_by}
use trading_platform_backend.Prelude.Keyed.{HasRow, HasRow-step, upsert_rows_same}
use trading_platform_backend.Database.{SessionRow, Db}
use trading_platform_backend.Database.Exec.{failed, ok, err}
use trading_platform_backend.Trades.Types.{Uuid, Time, Trade}
use trading_platform_backend.Metrics.Repo.{
  closed_in_session, entered_before, session_row, update_session_row, upsert_groups,
}
use trading_platform_backend.Metrics.Repo.Tilt.{has_closed_of}
use trading_platform_backend.Metrics.Backfill.Sessions.{group_rows}

abbrev pub at_session : SessionRow → Uuid
at_session r = r.session_id

module _ {A : Type 0} (before : A → A → Bool) (p : A → Bool) where
  any-insert_by : (x : A) (ys : List A) → any_row p (insert_by before x ys) ≡ (p x || any_row p ys)
  any-insert_by x [] = refl
  any-insert_by x (y ∷ ys) = ground (arith, any-insert_by x ys)

  any-order_by : (xs : List A) → any_row p (order_by before xs) ≡ any_row p xs
  any-order_by [] = refl
  any-order_by (x ∷ xs) =
      any-insert_by x (order_by before xs) ∙ ap (λ b. p x || b) (any-order_by xs)

module _ {F : Type 0} where
  -- The session has closed trades of two users.
  abbrev pub IsMixed : Uuid → List (Trade F) → Type 0
  IsMixed id ts =
      (u : Uuid) × (v : Uuid) × (u ≢ v)
      × (has_closed_of id u ts ≡ true)
      × (has_closed_of id v ts ≡ true)

  any-where_rows :
      (id u : Uuid) (ts : List (Trade F))
      → any_row (λ (t : Trade F). t.user_id == u) (where_rows (closed_in_session id) ts)
        ≡ has_closed_of id u ts
  any-where_rows id u [] = refl
  any-where_rows id u (t ∷ ts) = ground (arith, any-where_rows id u ts)

  has_closed-group_rows :
      (id u : Uuid) (db : Db F)
      → any_row (λ (t : Trade F). t.user_id == u) (group_rows id db) ≡ has_closed_of id u db.trades
  has_closed-group_rows id u db =
      any-order_by entered_before (λ (t : Trade F). t.user_id == u)
        (where_rows (closed_in_session id) db.trades)
      ∙ any-where_rows id u db.trades

  -- Where not all rows are of u, one is of another user.
  another_user :
      (u : Uuid) (ts : List (Trade F))
      → all_rows (λ t. t.user_id == u) ts ≡ false
      → (v : Uuid) × (u ≢ v) × (any_row (λ (t : Trade F). t.user_id == v) ts ≡ true)
  another_user u [] h = absurd (cc h)
  another_user u (t ∷ ts) h = elim (Bool-cases (t.user_id == u)) [
    | inl same ↦
        let (v, differ, found) = another_user u ts (rw same at h) in (v, differ, ground arith)
    | inr other ↦ (t.user_id, ground arith, ground arith)
  ]

  -- The row of a session with closed trades; where there are none it is not used.
  abbrev pub row_of : Uuid → Time → List (Trade F) → SessionRow
  row_of id now [] = record {
    session_id = id;
    user_id = 0;
    total_trades = 0;
    loss_following_trades = 0;
    tilt_index = 0;
    updated_at = now;
  }
  row_of id now (t ∷ ts) = session_row id t.user_id (t ∷ ts) now

  pub row_of-session_id :
      (id : Uuid) (now : Time) (g : List (Trade F)) → at_session (row_of id now g) ≡ id
  row_of-session_id id now [] = refl
  row_of-session_id id now (t ∷ ts) = refl

module _ {F : Type 0} (db : Db F) where
  abbrev pub with_rows : List SessionRow → Db F
  with_rows rows = record db { session_metrics = rows }

  abbrev pub new_row : Uuid → SessionRow
  new_row id = row_of id db.now (group_rows id db)

  abbrev pub put_row : Uuid → List SessionRow → List SessionRow
  put_row id rows =
      upsert_rows (λ r. r.session_id == id) (new_row id) (update_session_row (new_row id)) rows

  abbrev pub IsUniform : Uuid → Type 0
  IsUniform id =
      (rows : List SessionRow)
      → upsert_groups id (group_rows id db) (with_rows rows) ≡ (ok tt, with_rows (put_row id rows))

  abbrev pub IsRefused : Uuid → Type 0
  IsRefused id =
      (rows : List SessionRow)
      → upsert_groups id (group_rows id db) (with_rows rows) ≡ (err failed, with_rows rows)

  group_cases_of :
      (id : Uuid) (g : List (Trade F))
      → group_rows id db ≡ g
      → (g ≡ []) ⊎ (IsUniform id ⊎ (IsRefused id × IsMixed id db.trades))
  group_cases_of id [] e = inl refl
  group_cases_of id (t ∷ ts) e =
      elim (Bool-cases (all_rows (λ (u : Trade F). u.user_id == t.user_id) ts)) [
        | inl same ↦ inr (inl (λ rows. rw (e, same) refl))
        | inr mixed ↦
            let (v, differ, found) = another_user t.user_id ts mixed in
            inr (
              inr (
                (λ rows. rw (e, mixed) refl),
                (
                  t.user_id,
                  v,
                  differ,
                  sym (has_closed-group_rows id t.user_id db) ∙ rw (e, ==_refl t.user_id) refl,
                  sym (has_closed-group_rows id v db) ∙ rw e (ground arith),
                ),
              ))
      ]

  pub group_cases :
      (id : Uuid) → (group_rows id db ≡ []) ⊎ (IsUniform id ⊎ (IsRefused id × IsMixed id db.trades))
  group_cases id = group_cases_of id (group_rows id db) refl

  abbrev pub IsCurrent : Uuid → SessionRow → Type 0
  IsCurrent id r = update_session_row (new_row id) r ≡ r

  -- Recomputing the session changes nothing.
  abbrev pub IsSettled : List SessionRow → Uuid → Type 0
  IsSettled rows id = (group_rows id db ≡ []) ⊎ (IsUniform id × HasRow at_session IsCurrent rows id)

  pub IsCurrent-new : (id : Uuid) → IsCurrent id (new_row id)
  IsCurrent-new id = refl

  pub settled-recomputed :
      (rows : List SessionRow) (id : Uuid)
      → IsSettled rows id
      → upsert_groups id (group_rows id db) (with_rows rows) ≡ (ok tt, with_rows rows)
  settled-recomputed rows id (inl none_closed) = rw none_closed refl
  settled-recomputed rows id (inr (uniform, (r, found, current))) =
      uniform rows
      ∙ ap (λ rs. (ok tt, with_rows rs))
          (upsert_rows_same at_session id (new_row id) (update_session_row (new_row id)) rows
            (r, found, current))

  pub IsSettled-put :
      (rows : List SessionRow) (id other : Uuid)
      → IsSettled rows id
      → IsSettled (put_row other rows) id
  IsSettled-put rows id other (inl none_closed) = inl none_closed
  IsSettled-put rows id other (inr (uniform, row)) = inr (
    uniform,
    HasRow-step at_session IsCurrent new_row (λ i r. update_session_row (new_row i) r)
        (λ i. row_of-session_id i db.now (group_rows i db)) (λ i r. refl) IsCurrent-new
        (λ i r. refl) id other rows row,
  )
