-- ===== src/Metrics/Backfill/Groups/Measured.antt =====
-- One more closed trade, measured by WinRateByEmotion (internal/metrics/win_rate.go): the counters stay
-- those of the trades in the table.
use trading_platform_backend.Prelude.{
  ◌≡◌, refl, ◌∙◌, ap, sym, String, true, false, not, ◌&&◌, Option, none, some, List, [], ◌∷◌, ◌++◌,
  arith, ◌==◌, str_eq, eq_iff, find_row, where_rows, where_rows-append_one, where_rows-append_other,
  count_rows-append_one, Bool-cases, inl, inr,
}
use trading_platform_backend.Database.{Db}
use trading_platform_backend.Database.Exec.{ok}
use trading_platform_backend.Seed.{known_outcome}
use trading_platform_backend.Trades.Types.{Uuid, status_closed, outcome_win, outcome_loss, Trade}
use trading_platform_backend.Trades.Repo.{has_id}
use trading_platform_backend.Trades.Repo.Idempotence.{find_row-append}
use trading_platform_backend.Metrics.Buckets.{has_outcome}
use trading_platform_backend.Metrics.WinRate.{count_outcome, win_rate_by_emotion}
use trading_platform_backend.Metrics.WinRate.Counts.{stat, counted, stat-win_rate_by_emotion}
use trading_platform_backend.Metrics.Backfill.Groups.{has_some, is_felt_close, felt_by}
use trading_platform_backend.Metrics.Backfill.Groups.Emotions.{tallied}

win_or_loss :
    (o : String)
    → known_outcome (some o) ≡ true
    → str_eq o outcome_loss ≡ not (str_eq o outcome_win)
win_or_loss o h = elim (Bool-cases (str_eq o outcome_loss)) [
  | inl l ↦ let e : o ≡ outcome_loss = ground (arith, eq_iff o outcome_loss) in rw e refl
  | inr n ↦ ground arith
]

both_there :
    (felt ended : Option String)
    → (has_some felt && has_some ended) ≡ true
    → (emo : String) × (o : String) × (felt ≡ some emo) × (ended ≡ some o)
both_there none ended h = absurd (cc h)
both_there (some emo) none h = absurd (cc h)
both_there (some emo) (some o) h = (emo, o, refl, refl)

pub has_outcome-some :
    (s : String) (o : Option String) → has_outcome s o ≡ (has_some o && has_outcome s o)
has_outcome-some s none = refl
has_outcome-some s (some p) = refl

module _ {F : Type 0} where
  -- The closed trades with an emotion and an outcome.
  abbrev pub felt : List (Trade F) → List (Trade F)
  felt ts = where_rows is_felt_close ts

  tallied-append_one :
      (v : Uuid) (f emo o : String) (t : Trade F) (ts : List (Trade F))
      → t.emotional_state ≡ some emo
      → t.outcome ≡ some o
      → known_outcome t.outcome ≡ true
      → tallied v f (ts ++ t ∷ [])
        ≡ counted (t.user_id == v && str_eq emo f) (str_eq o outcome_win) (tallied v f ts)
  tallied-append_one v f emo o t ts at_emotion at_outcome known = ground (
    arith,
    win_or_loss o (ap known_outcome (sym at_outcome) ∙ known),
    count_rows-append_one (λ u. felt_by v f u && has_outcome outcome_win u.outcome) t ts,
    count_rows-append_one (λ u. felt_by v f u && has_outcome outcome_loss u.outcome) t ts,
  )

  -- The counters are the wins and losses among the closed trades of the table.
  abbrev pub IsTallied : Db F → Type 0
  IsTallied db =
      (v : Uuid) (f : String) → stat v f db.emotion_metrics ≡ tallied v f (felt db.trades)

  -- The trade is stored, then the worker measures it.
  abbrev pub stored : Trade F → Db F → Db F
  stored t db = record db { trades = db.trades ++ t ∷ [] }

  abbrev pub measured : Trade F → Db F → Db F
  measured t db = (win_rate_by_emotion t.trade_id t.user_id (stored t db)).1

  -- A state after a trade: measured, with the trade stored and no other one touched.
  pub record IsNext (db : Db F) (t : Trade F) (out : Db F) : Type 0 where
    pub tallies : IsTallied out
    pub kept : out.trades ≡ (db.trades ++ t ∷ [])
    pub calm : out.faults ≡ []

  measured-felt :
      (t : Trade F) (db : Db F) (emo o : String)
      → t.emotional_state ≡ some emo
      → t.outcome ≡ some o
      → db.faults ≡ []
      → IsTallied db
      → find_row (has_id t.trade_id) db.trades ≡ none
      → str_eq t.status status_closed ≡ true
      → known_outcome t.outcome ≡ true
      → IsNext db t (measured t db)
  measured-felt t db emo o at_emotion at_outcome calm tallies fresh closed known =
      let here : find_row (has_id t.trade_id) (db.trades ++ t ∷ []) ≡ some t =
        find_row-append t.trade_id t db.trades fresh refl in
      let one =
        stat-win_rate_by_emotion t.trade_id t.user_id 0 emo emo o (stored t db) t calm here
          at_emotion at_outcome in
      let felt_close : is_felt_close t ≡ true = ground arith in
      record {
        tallies = λ v f.
            (stat-win_rate_by_emotion t.trade_id t.user_id v f emo o (stored t db) t calm here
              at_emotion at_outcome).1
            ∙ ap (counted (t.user_id == v && str_eq emo f) (str_eq o outcome_win)) (tallies v f)
            ∙ sym (tallied-append_one v f emo o t (felt db.trades) at_emotion at_outcome known)
            ∙ ap (tallied v f) (
                sym (where_rows-append_one is_felt_close t db.trades felt_close)
                ∙ ap felt (sym one.2));
        kept = one.2;
        calm = one.3;
      }

  uncounted :
      (u : Uuid) (felt ended : Option String)
      → (has_some felt && has_some ended) ≡ false
      → (db : Db F) → count_outcome u felt ended db ≡ (ok tt, db)
  uncounted u none ended h db = refl
  uncounted u (some emo) none h db = refl
  uncounted u (some emo) (some o) h db = absurd (cc h)

  -- A trade without an emotion or without an outcome is not counted.
  measured-unfelt :
      (t : Trade F) (db : Db F)
      → is_felt_close t ≡ false
      → db.faults ≡ []
      → IsTallied db
      → find_row (has_id t.trade_id) db.trades ≡ none
      → str_eq t.status status_closed ≡ true
      → IsNext db t (measured t db)
  unfolding win_rate_by_emotion
  measured-unfelt t db unfelt calm tallies fresh closed =
      let here : find_row (has_id t.trade_id) (db.trades ++ t ∷ []) ≡ some t =
        find_row-append t.trade_id t db.trades fresh refl in
      let same : measured t db ≡ stored t db = ground (
        arith,
        here,
        uncounted t.user_id t.emotional_state t.outcome (ground arith) (stored t db),
      ) in
      rw same (record {
        tallies = λ v f.
            tallies v f
            ∙ ap (tallied v f) (sym (where_rows-append_other is_felt_close t db.trades unfelt));
        kept = refl;
        calm = calm;
      })

  pub measured-IsNext :
      (t : Trade F) (db : Db F)
      → db.faults ≡ []
      → IsTallied db
      → find_row (has_id t.trade_id) db.trades ≡ none
      → str_eq t.status status_closed ≡ true
      → known_outcome t.outcome ≡ true
      → IsNext db t (measured t db)
  measured-IsNext t db calm tallies fresh closed known = elim (Bool-cases (is_felt_close t)) [
    | inl felt_close ↦
        let (emo, o, at_emotion, at_outcome) =
          both_there t.emotional_state t.outcome (ground arith) in
        measured-felt t db emo o at_emotion at_outcome calm tallies fresh closed known
    | inr unfelt ↦ measured-unfelt t db unfelt calm tallies fresh closed
  ]
