-- ===== src/Metrics/WinRate/Counts.antt =====
-- The win and loss counters of internal/metrics/win_rate.go and UpsertEmotionStat of repo.go.
use trading_platform_backend.Prelude.{
  ℕ, ◌+◌, ◌≡◌, refl, Bool, true, false, ◌&&◌, Option, none, some, List, [], ◌∷◌, arith, ◌==◌,
  String, str_eq, eq_iff, if◌then◌else◌, find_row, upsert_rows, Bool-cases, inl, inr,
}
use trading_platform_backend.Database.{Db, EmotionRow}
use trading_platform_backend.Database.Exec.{ok}
use trading_platform_backend.Trades.Types.{Uuid, Time, outcome_win, Trade}
use trading_platform_backend.Trades.Repo.{has_id}
use trading_platform_backend.Metrics.Repo.{
  of_emotion, new_emotion_row, bump_emotion_row, upsert_emotion_stat,
}
use trading_platform_backend.Metrics.WinRate.{win_rate_by_emotion}

-- Wins and losses of a user in one emotional state, 0 where there is no row.
abbrev stat_of_row : Option EmotionRow → ℕ × ℕ
stat_of_row none = (0, 0)
stat_of_row (some r) = (r.wins, r.losses)

abbrev pub stat : Uuid → String → List EmotionRow → ℕ × ℕ
stat u emo rs = stat_of_row (find_row (of_emotion u emo) rs)

-- The counters of one key after one outcome of another key, or of the same.
abbrev pub counted : Bool → Bool → ℕ × ℕ → ℕ × ℕ
counted same won (w, l) = if same then (if won then (w + 1, l) else (w, l + 1)) else (w, l)

-- Two keys that one row matches are the same key.
pub of_emotion_hit :
    (u v : Uuid) (emo f : String) (r : EmotionRow)
    → of_emotion u emo r ≡ true
    → of_emotion v f r ≡ (u == v && str_eq emo f)
of_emotion_hit u v emo f r h =
    ground (arith, eq_iff emo f, eq_iff r.emotional_state emo, eq_iff r.emotional_state f)

pub of_emotion_miss :
    (u v : Uuid) (emo f : String) (r : EmotionRow)
    → of_emotion u emo r ≡ false
    → of_emotion v f r ≡ true
    → (u == v && str_eq emo f) ≡ false
of_emotion_miss u v emo f r h k =
    ground (arith, eq_iff emo f, eq_iff r.emotional_state emo, eq_iff r.emotional_state f)

bumped :
    (same won : Bool) (now : Time) (r : EmotionRow) (rest : Option EmotionRow)
    → stat_of_row (if same then some (bump_emotion_row won now r) else rest)
      ≡ counted same won (stat_of_row (if same then some r else rest))
bumped true true now r rest = refl
bumped true false now r rest = refl
bumped false won now r none = refl
bumped false won now r (some x) = refl

passed_over :
    (q same won : Bool) (r : EmotionRow) (new old : Option EmotionRow)
    → (q ≡ true → same ≡ false)
    → stat_of_row new ≡ counted same won (stat_of_row old)
    → stat_of_row (if q then some r else new)
      ≡ counted same won (stat_of_row (if q then some r else old))
passed_over true same won r new old h e = rw (h refl) refl
passed_over false same won r new old h e = e

added :
    (same won : Bool) (r : EmotionRow)
    → r.wins ≡ (if won then 1 else 0)
    → r.losses ≡ (if won then 0 else 1)
    → stat_of_row (if same then some r else none) ≡ counted same won (0, 0)
added true won r h k = ground arith
added false won r h k = refl

stat-upsert :
    (u v : Uuid) (emo f : String) (won : Bool) (now : Time) (rs : List EmotionRow)
    → stat v f (
        upsert_rows
          (of_emotion u emo)
          (new_emotion_row u emo won now)
          (bump_emotion_row won now)
          rs)
      ≡ counted (u == v && str_eq emo f) won (stat v f rs)
stat-upsert u v emo f won now [] =
    added (u == v && str_eq emo f) won (new_emotion_row u emo won now) refl refl
stat-upsert u v emo f won now (r ∷ rs) = elim (Bool-cases (of_emotion u emo r)) [
  | inl hit ↦ rw hit (
      rw (← of_emotion_hit u v emo f r hit)
        (bumped (of_emotion v f r) won now r (find_row (of_emotion v f) rs)))
  | inr miss ↦ rw miss (
      passed_over (of_emotion v f r) (u == v && str_eq emo f) won r _ _
        (of_emotion_miss u v emo f r miss) (stat-upsert u v emo f won now rs))
]

module _ {F : Type 0} where
  -- WinRateByEmotion of a stored trade that has an emotion and an outcome, with no failing
  -- statement, adds one win for the outcome "win" and one loss for any other, to the counters of
  -- this user and emotion and to no others; it leaves the trades and the fault list alone.
  pub stat-win_rate_by_emotion :
      (trade_id u v : Uuid) (f emo outcome : String) (db : Db F) (t : Trade F)
      → db.faults ≡ []
      → find_row (has_id trade_id) db.trades ≡ some t
      → t.emotional_state ≡ some emo
      → t.outcome ≡ some outcome
      → let (r, db') = win_rate_by_emotion trade_id u db in
        (r ≡ ok tt)
        × (stat v f db'.emotion_metrics
            ≡ counted
                (u == v && str_eq emo f)
                (str_eq outcome outcome_win)
                (stat v f db.emotion_metrics))
        × (db'.trades ≡ db.trades)
        × (db'.faults ≡ [])
  unfolding win_rate_by_emotion upsert_emotion_stat
  stat-win_rate_by_emotion trade_id u v f emo outcome db t calm found felt ended = (
    ground arith,
    ground (arith, stat-upsert u v emo f (str_eq outcome outcome_win) db.now db.emotion_metrics),
    ground arith,
    ground arith,
  )
