-- ===== src/Metrics/Repo/Tilt.antt =====
-- UpsertSessionTilt of internal/metrics/repo.go: the index, and sessions of two users.
use trading_platform_backend.Prelude.{
  ℕ, ◌+◌, ◌*◌, ◌≤◌, ◌<◌, ◌≡◌, ◌≢◌, refl, ap, ◌∙◌, sym, Bool, true, ◌&&◌, Option, none, some, List,
  [], ◌∷◌, arith, ◌==◌, All, length, if◌then◌else◌, find_row, any_row, all_rows, where_rows,
  count_rows, upserted, find_row-upsert_rows, Bool-cases, inl, inr, ==_refl, String,
}
use trading_platform_backend.Prelude.Order.{
  order_by, length-order_by, All-order_by, All-of-order_by,
}
use trading_platform_backend.Database.{Db, SessionRow}
use trading_platform_backend.Database.Exec.{failed, ok, err, attempt}
use trading_platform_backend.Trades.Types.{Uuid, Trade}
use trading_platform_backend.Metrics.Repo.{
  closed_in_session, entered_before, is_loss, count_loss_following, tilt_ratio, session_row,
  update_session_row, upsert_groups, upsert_session_tilt,
}

-- l of t as ten-thousandths, rounded to the nearest.
abbrev pub IsRatio : ℕ → ℕ → ℕ → Type 0
IsRatio l t index = (2 * (t * index) ≤ 20000 * l + t) × (20000 * l + t < 2 * (t * index) + 2 * t)

tilt_ratio-IsRatio : (l t : ℕ) → 0 < t → IsRatio l t (tilt_ratio l t)
unfolding tilt_ratio
tilt_ratio-IsRatio l t h = ground arith

-- All elements but the last.
abbrev pub all_but_last {ℓ} : {A : Type ℓ} → List A → List A
all_but_last [] = []
all_but_last (x ∷ []) = []
all_but_last (x ∷ y ∷ ys) = x ∷ all_but_last (y ∷ ys)

-- What the row of a session with `total` trades, of which `following` follow a loss, holds after the
-- upsert.
pub record IsTilt (total following : ℕ) (r : SessionRow) : Type 0 where
  pub total_exact : r.total_trades ≡ total
  pub following_exact : r.loss_following_trades ≡ following
  pub following_fewer : r.loss_following_trades < total
  pub index_nearest : IsRatio r.loss_following_trades total r.tilt_index
  pub index_at_most_one : r.tilt_index ≤ 10000

index-le : (l t i : ℕ) → l < t → IsRatio l t i → i ≤ 10000
index-le l t i h r = grind arith

upserted-IsTilt :
    (total following : ℕ) (new : SessionRow) (o : Option SessionRow)
    → IsTilt total following new
    → IsTilt total following (upserted new (update_session_row new) o)
upserted-IsTilt total following new none h = h
upserted-IsTilt total following new (some r) h = record {
  total_exact = h.total_exact;
  following_exact = h.following_exact;
  following_fewer = h.following_fewer;
  index_nearest = h.index_nearest;
  index_at_most_one = h.index_at_most_one;
}

module _ {F : Type 0} where
  count-le-length :
      (prev : Option String) (ts : List (Trade F)) → count_loss_following prev ts ≤ length ts
  count-le-length prev [] = omega arith
  count-le-length prev (t ∷ ts) = ground (arith, count-le-length t.outcome ts)

  -- The first trade of a session follows none.
  count-lt-length :
      (t : Trade F) (ts : List (Trade F)) → count_loss_following none (t ∷ ts) < length (t ∷ ts)
  count-lt-length t ts = omega (arith, count-le-length t.outcome ts)

  abbrev pub is_lost : Trade F → Bool
  is_lost t = is_loss t.outcome

  -- A trade follows a loss where a trade that is not the last of the session was lost.
  count-all_but_last :
      (prev : Option String) (t : Trade F) (ts : List (Trade F))
      → count_loss_following prev (t ∷ ts)
        ≡ (if is_loss prev then 1 else 0) + count_rows is_lost (all_but_last (t ∷ ts))
  count-all_but_last prev t [] = refl
  count-all_but_last prev t (u ∷ us) = ground (arith, count-all_but_last t.outcome u us)

  abbrev OneUser : Uuid → List (Trade F) → Type 0
  OneUser u ts = All (λ t. t.user_id ≡ u) ts

  all_rows-of_OneUser :
      (u : Uuid) (ts : List (Trade F)) → OneUser u ts → all_rows (λ t. t.user_id == u) ts ≡ true
  all_rows-of_OneUser u [] a = refl
  all_rows-of_OneUser u (t ∷ ts) a = ground (arith, all_rows-of_OneUser u ts a.1)

  OneUser-of_all_rows :
      (u : Uuid) (ts : List (Trade F)) → all_rows (λ t. t.user_id == u) ts ≡ true → OneUser u ts
  OneUser-of_all_rows u [] h = tt
  OneUser-of_all_rows u (t ∷ ts) h = (ground arith, OneUser-of_all_rows u ts (ground arith))

  row-IsTilt :
      (session_id user_id : Uuid) (t : Trade F) (ts : List (Trade F)) (now : ℕ)
      → IsTilt
          (length (t ∷ ts))
          (count_rows is_lost (all_but_last (t ∷ ts)))
          (session_row session_id user_id (t ∷ ts) now)
  row-IsTilt session_id user_id t ts now =
      let fewer = count-lt-length t ts in
      let total : ℕ = length (t ∷ ts) in
      let following : ℕ = count_loss_following none (t ∷ ts) in
      let nearest = tilt_ratio-IsRatio following total (omega arith) in
      record {
        total_exact = refl;
        following_exact = omega (arith, count-all_but_last none t ts);
        following_fewer = fewer;
        index_nearest = nearest;
        index_at_most_one = index-le following total (tilt_ratio following total) fewer nearest;
      }

  groups-IsTilt :
      (session_id user_id : Uuid) (db : Db F) (ordered : List (Trade F))
      → OneUser user_id ordered
      → 0 < length ordered
      → (r : SessionRow) × (find_row
            (λ x. x.session_id == session_id)
            (upsert_groups session_id ordered db).1.session_metrics
          ≡ some r)
        × IsTilt (length ordered) (count_rows is_lost (all_but_last ordered)) r
        × ((upsert_groups session_id ordered db).0 ≡ ok tt)
  groups-IsTilt session_id user_id db [] one h = absurd (omega arith)
  groups-IsTilt session_id user_id db (t ∷ ts) one h =
      let new : SessionRow = session_row session_id t.user_id (t ∷ ts) db.now in
      let key = λ (x : SessionRow). x.session_id == session_id in
      rw (all_rows-of_OneUser t.user_id ts (rw one.0 one.1)) (
        upserted new (update_session_row new) (find_row key db.session_metrics),
        find_row-upsert_rows key new (update_session_row new) db.session_metrics
            (==_refl session_id) (λ x. refl),
        upserted-IsTilt (length (t ∷ ts)) (count_rows is_lost (all_but_last (t ∷ ts))) new
            (find_row key db.session_metrics) (row-IsTilt session_id t.user_id t ts db.now),
        refl,
      )

  -- The two-user case, as a test on the closed trades of a session.
  abbrev pub has_closed_of : Uuid → Uuid → List (Trade F) → Bool
  has_closed_of session_id u ts = any_row (λ t. closed_in_session session_id t && t.user_id == u) ts

  OneUser-eq :
      (session_id u w : Uuid) (ts : List (Trade F))
      → OneUser w (where_rows (closed_in_session session_id) ts)
      → has_closed_of session_id u ts ≡ true
      → u ≡ w
  OneUser-eq session_id u w [] one h = cc
  OneUser-eq session_id u w (t ∷ ts) one h = elim (Bool-cases (closed_in_session session_id t)) [
    | inl closed ↦
        let both : OneUser w (t ∷ where_rows (closed_in_session session_id) ts) =
          rw closed at one in
        elim (Bool-cases (t.user_id == u)) [
          | inl same ↦ ground (arith, both.0)
          | inr other ↦ OneUser-eq session_id u w ts both.1 (ground arith)
        ]
    | inr open_trade ↦ OneUser-eq session_id u w ts (rw open_trade at one) (ground arith)
  ]

  groups_two_users :
      (session_id u v : Uuid) (db : Db F) (ordered : List (Trade F))
      → ((w : Uuid) → OneUser w ordered → (u ≡ w) × (v ≡ w))
      → u ≢ v
      → upsert_groups session_id ordered db ≡ (err failed, db)
  groups_two_users session_id u v db [] all different =
      absurd (different ((all u tt).0 ∙ sym (all u tt).1))
  groups_two_users session_id u v db (t ∷ ts) all different =
      elim (Bool-cases (all_rows (λ (x : Trade F). x.user_id == t.user_id) ts)) [
        | inl same ↦
            let both = all t.user_id (refl, OneUser-of_all_rows t.user_id ts same) in
            absurd (different (both.0 ∙ sym both.1))
        | inr mixed ↦ rw mixed refl
      ]

  -- UpsertSessionTilt with no failing statement, for a session whose closed trades are of one user,
  -- and of which there is one: the row of the session counts those trades; it counts as following a
  -- loss as many of them, fewer than all, as there are losses before the last one in the order of
  -- entry; and it holds the quotient to four places, at most 1.
  pub upsert_session_tilt-IsTilt :
      (session_id user_id : Uuid) (db : Db F)
      → db.faults ≡ []
      → All (λ t. t.user_id ≡ user_id) (where_rows (closed_in_session session_id) db.trades)
      → 0 < count_rows (closed_in_session session_id) db.trades
      → (r : SessionRow) × (find_row
            (λ x. x.session_id == session_id)
            (upsert_session_tilt session_id db).1.session_metrics
          ≡ some r)
        × IsTilt
            (count_rows (closed_in_session session_id) db.trades)
            (count_rows is_lost (
              all_but_last
                (order_by entered_before (where_rows (closed_in_session session_id) db.trades))))
            r
        × ((upsert_session_tilt session_id db).0 ≡ ok tt)
  unfolding upsert_session_tilt
  upsert_session_tilt-IsTilt session_id user_id db calm one some_closed =
      let rows : List (Trade F) = where_rows (closed_in_session session_id) db.trades in
      let sorted : List (Trade F) = order_by entered_before rows in
      let n = length-order_by entered_before rows in
      rw calm (
        rw n at (
          groups-IsTilt session_id user_id (record db { faults = [] }) sorted
            (All-order_by entered_before (λ t. t.user_id ≡ user_id) rows one) (omega (arith, n))))

  -- Where a session has closed trades of two users, UpsertSessionTilt fails and changes nothing,
  -- although no statement was made to fail by the environment.
  pub upsert_session_tilt_two_users :
      (session_id u v : Uuid) (db : Db F)
      → db.faults ≡ []
      → u ≢ v
      → has_closed_of session_id u db.trades ≡ true
      → has_closed_of session_id v db.trades ≡ true
      → upsert_session_tilt session_id db ≡ (err failed, db)
  unfolding upsert_session_tilt
  upsert_session_tilt_two_users session_id u v db calm different hu hv =
      let rows : List (Trade F) = where_rows (closed_in_session session_id) db.trades in
      ap
        (λ faults.
          attempt faults
            (λ (d : Db F).
              upsert_groups session_id
                (order_by entered_before (where_rows (closed_in_session session_id) d.trades)) d)
            db)
        calm
      ∙ groups_two_users session_id u v db (order_by entered_before rows)
          (λ w one.
            let all : OneUser w rows =
              All-of-order_by entered_before (λ t. t.user_id ≡ w) rows one in
            (
              OneUser-eq session_id u w db.trades all hu,
              OneUser-eq session_id v w db.trades all hv,
            ))
          different
