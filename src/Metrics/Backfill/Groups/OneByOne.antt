-- ===== src/Metrics/Backfill/Groups/OneByOne.antt =====
-- WinRateByEmotion (internal/metrics/win_rate.go) trade after trade against
-- backfillWinRateByEmotion (internal/metrics/backfill.go) over the whole table.
use trading_platform_backend.Prelude.{
  ℕ, ◌≡◌, refl, ◌∙◌, ap, sym, String, true, false, ◌&&◌, none, List, [], ◌∷◌, ◌++◌, append-nil,
  append_assoc, arith, ◌==◌, str_eq, any_row, find_row, count_rows, Bool-cases, inl, inr,
}
use trading_platform_backend.Database.{Db}
use trading_platform_backend.Seed.{known_outcome}
use trading_platform_backend.Trades.Types.{Uuid, status_closed, outcome_win, outcome_loss, Trade}
use trading_platform_backend.Trades.Repo.{has_id}
use trading_platform_backend.Metrics.Buckets.{has_outcome}
use trading_platform_backend.Metrics.WinRate.Counts.{stat}
use trading_platform_backend.Metrics.Backfill.Groups.{felt_by, count_emotion, backfill_win_rate}
use trading_platform_backend.Metrics.Backfill.Groups.Emotions.{
  tallied, IsRecount, backfill_win_rate-IsRecount,
}
use trading_platform_backend.Metrics.Backfill.Groups.Measured.{
  has_outcome-some, felt, IsTallied, measured, measured-IsNext,
}

module _ {F : Type 0} where
  -- The trades are stored and measured one after the other.
  abbrev pub one_by_one : List (Trade F) → Db F → Db F
  one_by_one [] db = db
  one_by_one (t ∷ ts) db = one_by_one ts (measured t db)

  -- Closed trades with outcomes of the schema, under ids that the table does not have.
  abbrev pub IsNew : List (Trade F) → List (Trade F) → Type 0
  IsNew [] rows = Unit
  IsNew (t ∷ ts) rows =
      (find_row (has_id t.trade_id) rows ≡ none)
      × (str_eq t.status status_closed ≡ true)
      × (known_outcome t.outcome ≡ true)
      × IsNew ts (rows ++ t ∷ [])

  one_by_one-IsTallied :
      (ts : List (Trade F)) (db : Db F)
      → db.faults ≡ []
      → IsTallied db
      → IsNew ts db.trades
      → IsTallied (one_by_one ts db) × ((one_by_one ts db).trades ≡ (db.trades ++ ts))
  one_by_one-IsTallied [] db calm tallies new = (tallies, sym (append-nil db.trades))
  one_by_one-IsTallied (t ∷ ts) db calm tallies new =
      let next = measured-IsNext t db calm tallies new.0 new.1 new.2 in
      let rest =
        one_by_one-IsTallied ts (measured t db) next.calm next.tallies (rw next.kept new.3) in
      (rest.0, rest.1 ∙ ap (λ rows. rows ++ ts) next.kept ∙ append_assoc db.trades (t ∷ []) ts)

  none_felt :
      (v : Uuid) (f : String) (ts : List (Trade F))
      → any_row (felt_by v f) ts ≡ false
      → tallied v f ts ≡ (0, 0)
  none_felt v f [] h = refl
  none_felt v f (t ∷ ts) h = ground (arith, none_felt v f ts)

  -- A backfill into an empty table leaves the tallies.
  backfill-IsTallied :
      (db : Db F) → db.faults ≡ [] → db.emotion_metrics ≡ [] → IsTallied (backfill_win_rate db).1
  backfill-IsTallied db calm empty v f =
      let made = (backfill_win_rate-IsRecount db calm).1 in
      let kept : (backfill_win_rate db).1.trades ≡ db.trades = ap (λ d. d.trades) made.rest in
      rw kept (elim (Bool-cases (any_row (felt_by v f) (felt db.trades))) [
        | inl h ↦ made.counters v f ∙ rw h refl
        | inr h ↦
            made.counters v f ∙ rw h (ap (stat v f) empty ∙ sym (none_felt v f (felt db.trades) h))
      ])

  -- The closed trades of a user in one emotional state with an outcome.
  abbrev pub closes_of : Uuid → String → String → List (Trade F) → ℕ
  closes_of v f outcome ts =
      count_rows
        (λ t.
          str_eq t.status status_closed
          && t.user_id == v
          && has_outcome f t.emotional_state
          && has_outcome outcome t.outcome)
        ts

  count_emotion-felt :
      (v : Uuid) (f o : String) (ts : List (Trade F))
      → count_emotion v f o (felt ts) ≡ closes_of v f o ts
  count_emotion-felt v f o [] = refl
  count_emotion-felt v f o (t ∷ ts) = ground (
    arith,
    has_outcome-some f t.emotional_state,
    has_outcome-some o t.outcome,
    count_emotion-felt v f o ts,
  )

  tallied-felt :
      (v : Uuid) (f : String) (ts : List (Trade F))
      → tallied v f (felt ts) ≡ (closes_of v f outcome_win ts, closes_of v f outcome_loss ts)
  tallied-felt v f ts =
      rw (count_emotion-felt v f outcome_win ts, count_emotion-felt v f outcome_loss ts) refl

  -- Closed trades with outcomes of the schema and new ids, stored and given to WinRateByEmotion one
  -- after the other on a table that a backfill into no rows has left, with no failing statement:
  -- the counters of each user and emotion are those that backfillWinRateByEmotion computes into no
  -- rows when it runs on all the trades at once, and they are the wins and the losses among the closed
  -- trades.
  pub one_by_one-backfill :
      (ts : List (Trade F)) (db : Db F)
      → db.faults ≡ []
      → db.emotion_metrics ≡ []
      → IsNew ts db.trades
      → (v : Uuid) (f : String)
      → (stat v f (one_by_one ts (backfill_win_rate db).1).emotion_metrics
          ≡ stat v f (backfill_win_rate (record db { trades = db.trades ++ ts })).1.emotion_metrics)
        × (stat v f (one_by_one ts (backfill_win_rate db).1).emotion_metrics ≡ (
          closes_of v f outcome_win (db.trades ++ ts),
          closes_of v f outcome_loss (db.trades ++ ts),
        ))
  one_by_one-backfill ts db calm empty new v f =
      let all : Db F = record db { trades = db.trades ++ ts } in
      let made : IsRecount db (backfill_win_rate db).1 = (backfill_win_rate-IsRecount db calm).1 in
      let whole : IsRecount all (backfill_win_rate all).1 =
        (backfill_win_rate-IsRecount all calm).1 in
      let kept : (backfill_win_rate db).1.trades ≡ db.trades = ap (λ d. d.trades) made.rest in
      let grown : (backfill_win_rate all).1.trades ≡ (db.trades ++ ts) =
        ap (λ d. d.trades) whole.rest in
      let live =
        one_by_one-IsTallied ts (backfill_win_rate db).1 (ap (λ d. d.faults) made.rest ∙ calm)
          (backfill-IsTallied db calm empty) (rw kept new) in
      let tally =
        live.0 v f ∙ ap (λ rows. tallied v f (felt rows)) (live.1 ∙ ap (λ rows. rows ++ ts) kept) in
      let at_once =
        backfill-IsTallied all calm empty v f ∙ ap (λ rows. tallied v f (felt rows)) grown in
      (tally ∙ sym at_once, tally ∙ tallied-felt v f (db.trades ++ ts))
