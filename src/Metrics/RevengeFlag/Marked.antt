-- ===== src/Metrics/RevengeFlag/Marked.antt =====
-- RevengeFlag of internal/metrics/revenge_flag.go against a definition of a revenge trade that is
-- stated apart from the code, and the tables that it leaves.
use trading_platform_backend.Prelude.{
  ◌+◌, ◌*◌, ◌≤◌, ◌≡◌, ◌↔◌, ◌⊎◌, inl, inr, refl, ap, ◌∙◌, true, ◌&&◌, Option, none, some, List, [],
  ◌∷◌, arith, ◌==◌, if◌then◌else◌, map, find_row, any_row, update_rows, upsert_rows, upserted,
  find_row-upsert_rows, Bool, Bool-cases, ==_refl, String, eq_iff,
}
use trading_platform_backend.Prelude.Keyed.{find_other}
use trading_platform_backend.Database.{UserMetricsRow, Db}
use trading_platform_backend.Database.Exec.{Result, ok}
use trading_platform_backend.Trades.Types.{
  Uuid, Time, second, status_closed, outcome_loss, emo_anxious, emo_fearful, Trade,
}
use trading_platform_backend.Trades.Repo.{has_id, set_revenge_flag}
use trading_platform_backend.Metrics.Repo.{of_user, new_user_row, increment_revenge_count}
use trading_platform_backend.Metrics.RevengeFlag.{
  is_tilted, is_loss_outcome, mark_revenge, revenge_flag,
}
use trading_platform_backend.Metrics.RevengeFlag.Window.{is_recent_loss, revenge_flag-mark_revenge}

-- Some row has the property.
abbrev pub AnyRow : {A : Type 0} → (A → Type 0) → List A → Type 0
AnyRow P [] = ⊥
AnyRow P (x ∷ xs) = P x ⊎ AnyRow P xs

abbrev pub IsTilted : Option String → Type 0
IsTilted o = (o ≡ some emo_anxious) ⊎ (o ≡ some emo_fearful)

is_tilted_iff : (o : Option String) → (is_tilted o ≡ true) ↔ IsTilted o
unfolding is_tilted
is_tilted_iff none = ground arith
is_tilted_iff (some emo) = ground (arith, eq_iff emo emo_anxious, eq_iff emo emo_fearful)

any_row_iff :
    {A : Type 0} (p : A → Bool) (P : A → Type 0)
    → ((x : A) → (p x ≡ true) ↔ P x)
    → (xs : List A) → (any_row p xs ≡ true) ↔ AnyRow P xs
any_row_iff p P agree [] = ground arith
any_row_iff p P agree (x ∷ xs) = ground (arith, agree x, any_row_iff p P agree xs)

module _ {F : Type 0} where
  -- The trade closed at a loss of this user, at most 90 seconds before the entry and not after it.
  pub record IsRecentLoss (user_id : Uuid) (entry_at : Time) (p : Trade F) : Type 0 where
    pub owner : p.user_id ≡ user_id
    pub closed : p.status ≡ status_closed
    pub lost : p.outcome ≡ some outcome_loss
    pub exit : Time
    pub exited : p.exit_at ≡ some exit
    pub not_later : exit ≤ entry_at
    pub recent : entry_at ≤ exit + 90 * second

  -- A revenge trade: its emotion is anxious or fearful, and it follows a loss of the user closely.
  abbrev pub IsRevenge : Uuid → List (Trade F) → Trade F → Type 0
  IsRevenge user_id ts t = IsTilted t.emotional_state × AnyRow (IsRecentLoss user_id t.entry_at) ts

  -- The user's row with one revenge trade more, or a new row that counts one.
  abbrev pub one_more : Uuid → Time → Option (UserMetricsRow F) → UserMetricsRow F
  one_more user_id now none = record {
    user_id = user_id;
    plan_adherence_score = none;
    plan_adherence_window = 0;
    revenge_trades_count = 1;
    overtrading_events_count = 0;
    updated_at = now;
  }
  one_more user_id now (some r) = record r {
    revenge_trades_count = r.revenge_trades_count + 1;
    updated_at = now;
  }

  abbrev pub user_row : Uuid → Db F → Option (UserMetricsRow F)
  user_row u db = find_row (λ r. r.user_id == u) db.user_metrics

  -- The trade has the flag, the user's row counts one more, and all else in the tables is as it was.
  pub record IsMarked (trade_id user_id : Uuid) (db : Db F) (r : Result (Unit {0})) (after : Db F)
      : Type 0 where
    pub succeeded : r ≡ ok tt
    pub flagged :
        after.trades
        ≡ map
            (λ t.
              if t.trade_id == trade_id
              then record t { revenge_flag = true; updated_at = db.now }
              else t)
            db.trades
    pub counted :
        (u : Uuid)
        → user_row u after
          ≡ (if user_id == u then some (one_more u db.now (user_row u db)) else user_row u db)
    pub emotions : after.emotion_metrics ≡ db.emotion_metrics
    pub sessions : after.session_metrics ≡ db.session_metrics
    pub events : after.overtrading_events ≡ db.overtrading_events

  -- The two readings on a row whose exit_at and outcome are split.
  recent_loss :
      (u : Uuid) (e : Time) (p : Trade F) (exit : Option Time) (outcome : Option String)
      → p.exit_at ≡ exit
      → p.outcome ≡ outcome
      → is_recent_loss u e p ≡ true
      → IsRecentLoss u e p
  unfolding is_loss_outcome
  recent_loss u e p none outcome exited lost h = absurd (ground arith)
  recent_loss u e p (some x) none exited lost h = absurd (ground arith)
  recent_loss u e p (some x) (some o) exited lost h = record {
    owner = ground arith;
    closed = ground (arith, eq_iff p.status status_closed);
    lost = ground (arith, eq_iff o outcome_loss);
    exit = x;
    exited = exited;
    not_later = ground arith;
    recent = ground arith;
  }

  loss_recent :
      (u : Uuid) (e : Time) (p : Trade F) → IsRecentLoss u e p → is_recent_loss u e p ≡ true
  unfolding is_loss_outcome
  loss_recent u e p l = ground (
    arith,
    l.exited,
    l.owner,
    l.closed,
    l.lost,
    l.not_later,
    l.recent,
    eq_iff p.status status_closed,
  )

  IsRecentLoss-iff :
      (u : Uuid) (e : Time) (p : Trade F) → (is_recent_loss u e p ≡ true) ↔ IsRecentLoss u e p
  IsRecentLoss-iff u e p = (recent_loss u e p p.exit_at p.outcome refl refl, loss_recent u e p)

  map-update :
      (p : Trade F → Bool) (f : Trade F → Trade F) (ts : List (Trade F))
      → update_rows p f ts ≡ map (λ t. if p t then f t else t) ts
  map-update p f [] = refl
  map-update p f (t ∷ ts) = rw (map-update p f ts) refl

  one_more-upserted :
      (u : Uuid) (now : Time) (o : Option (UserMetricsRow F))
      → upserted
          (record (new_user_row u now) { revenge_trades_count = 1 })
          (λ r. record r { revenge_trades_count = r.revenge_trades_count + 1; updated_at = now })
          o
        ≡ one_more u now o
  one_more-upserted u now none = refl
  one_more-upserted u now (some r) = refl

  abbrev counted_rows : Uuid → Time → List (UserMetricsRow F) → List (UserMetricsRow F)
  counted_rows user_id now rows =
      upsert_rows (of_user user_id) (record (new_user_row user_id now) { revenge_trades_count = 1 })
        (λ r. record r { revenge_trades_count = r.revenge_trades_count + 1; updated_at = now }) rows

  find-counted_rows :
      (user_id u : Uuid) (now : Time) (rows : List (UserMetricsRow F))
      → find_row (of_user u) (counted_rows user_id now rows) ≡ (
          if user_id == u
          then some (one_more u now (find_row (of_user u) rows))
          else find_row (of_user u) rows)
  find-counted_rows user_id u now rows = elim (Bool-cases (user_id == u)) [
    | inl same ↦ rw same (
        let e : user_id ≡ u = ground arith in
        rw e (
          find_row-upsert_rows (of_user u) _ _ rows (==_refl u) (λ r. refl)
          ∙ ap some (one_more-upserted u now (find_row (of_user u) rows))))
    | inr differ ↦ rw differ (
        find_other (λ (r : UserMetricsRow F). r.user_id) u user_id _ _ rows differ refl (λ r. refl))
  ]

  mark_revenge-IsMarked :
      (trade_id user_id : Uuid) (db : Db F)
      → db.faults ≡ []
      → IsMarked trade_id user_id db
          (mark_revenge trade_id user_id db).0
          (mark_revenge trade_id user_id db).1
  unfolding mark_revenge set_revenge_flag increment_revenge_count
  mark_revenge-IsMarked trade_id user_id db calm = rw calm (record {
    succeeded = refl;
    flagged = map-update (has_id trade_id) _ db.trades;
    counted = λ u. find-counted_rows user_id u db.now db.user_metrics;
    emotions = refl;
    sessions = refl;
    events = refl;
  })

  -- RevengeFlag on a stored trade, with no failing statement, in one of two ways. Where the trade is
  -- anxious or fearful and some trade of the user closed at a loss before its entry or with it, by at
  -- most 90 seconds, it succeeds, sets the flag of the trade, counts one more in the user's row, which
  -- it adds where there is none, and changes nothing else in the tables. Otherwise it succeeds and
  -- changes nothing.
  pub revenge_flag-IsMarked :
      (trade_id user_id : Uuid) (db : Db F) (t : Trade F)
      → db.faults ≡ []
      → find_row (has_id trade_id) db.trades ≡ some t
      → (IsRevenge user_id db.trades t
          × IsMarked trade_id user_id db
              (revenge_flag trade_id user_id db).0
              (revenge_flag trade_id user_id db).1)
        ⊎ ((¬ IsRevenge user_id db.trades t) × (revenge_flag trade_id user_id db ≡ (ok tt, db)))
  revenge_flag-IsMarked trade_id user_id db t calm found =
      let close : Bool = any_row (is_recent_loss user_id t.entry_at) db.trades in
      let (tilted, untilted) = is_tilted_iff t.emotional_state in
      let (recent, distant) =
        any_row_iff (is_recent_loss user_id t.entry_at) (IsRecentLoss user_id t.entry_at)
          (IsRecentLoss-iff user_id t.entry_at) db.trades in
      let run = revenge_flag-mark_revenge trade_id user_id db t calm found in
      elim (Bool-cases (is_tilted t.emotional_state && close)) [
        | inl both ↦ inl (
          (tilted (ground arith), recent (ground arith)),
          rw (run, both) (mark_revenge-IsMarked trade_id user_id db calm),
        )
        | inr not_both ↦
            inr ((λ h. ground (arith, untilted h.0, distant h.1)), rw (run, not_both) refl)
      ]
