-- ===== src/Metrics/Backfill/Groups/Emotions.antt =====
-- backfillWinRateByEmotion (internal/metrics/backfill.go): the counters it leaves for each user and
-- emotion, and those of WinRateByEmotion (internal/metrics/win_rate.go) after it.
use trading_platform_backend.Prelude.{
  ℕ, ◌≡◌, refl, ◌∙◌, ap, String, Bool, false, ◌&&◌, ◌||◌, Option, none, some, List, [], ◌∷◌, arith,
  ◌==◌, if◌then◌else◌, str_eq, eq_iff, any_row, where_rows, upsert_rows, Bool-cases, inl, inr,
}
use trading_platform_backend.Database.{EmotionRow, Db}
use trading_platform_backend.Database.Exec.{ok}
use trading_platform_backend.Trades.Types.{Uuid, Time, outcome_win, outcome_loss, Trade}
use trading_platform_backend.Metrics.Repo.{of_emotion}
use trading_platform_backend.Metrics.Buckets.{has_outcome}
use trading_platform_backend.Metrics.WinRate.Counts.{stat, of_emotion_hit, of_emotion_miss}
use trading_platform_backend.Metrics.Backfill.Groups.{
  is_felt_close, felt_by, count_emotion, emotion_row, update_emotion_row, add_emotion, add_felt,
  emotion_keys, upsert_emotions, backfill_win_rate,
}

stat-set :
    (u v : Uuid) (emo f : String) (new : EmotionRow) (rs : List EmotionRow)
    → new.user_id ≡ u
    → new.emotional_state ≡ emo
    → stat v f (upsert_rows (of_emotion u emo) new (update_emotion_row new) rs)
      ≡ (if u == v && str_eq emo f then (new.wins, new.losses) else stat v f rs)
stat-set u v emo f new [] at_user at_emotion = ground (arith, at_user, at_emotion)
stat-set u v emo f new (r ∷ rs) at_user at_emotion = elim (Bool-cases (of_emotion u emo r)) [
  | inl hit ↦ ground (arith, of_emotion_hit u v emo f r hit)
  | inr miss ↦
      ground (arith, of_emotion_miss u v emo f r miss, stat-set u v emo f new rs at_user at_emotion)
]

abbrev has_key : Uuid → String → List (Uuid × String) → Bool
has_key v f [] = false
has_key v f ((i, e) ∷ keys) = (i == v && str_eq e f) || has_key v f keys

has_key-add_emotion :
    (id v : Uuid) (emo f : String) (keys : List (Uuid × String))
    → has_key v f (add_emotion id emo keys) ≡ ((id == v && str_eq emo f) || has_key v f keys)
has_key-add_emotion id v emo f [] = ground arith
has_key-add_emotion id v emo f ((i, e) ∷ keys) =
    ground (arith, eq_iff e emo, eq_iff e f, eq_iff emo f, has_key-add_emotion id v emo f keys)

has_key-add_felt :
    (id v : Uuid) (felt : Option String) (f : String) (keys : List (Uuid × String))
    → has_key v f (add_felt id felt keys) ≡ ((id == v && has_outcome f felt) || has_key v f keys)
has_key-add_felt id v none f keys = ground arith
has_key-add_felt id v (some emo) f keys = has_key-add_emotion id v emo f keys

module _ {F : Type 0} where
  has_key-emotion_keys :
      (v : Uuid) (f : String) (ts : List (Trade F))
      → has_key v f (emotion_keys ts) ≡ any_row (felt_by v f) ts
  has_key-emotion_keys v f [] = refl
  has_key-emotion_keys v f (t ∷ ts) =
      has_key-add_felt t.user_id v t.emotional_state f (emotion_keys ts)
      ∙ ap (λ b. felt_by v f t || b) (has_key-emotion_keys v f ts)

  -- Wins and losses of a user in one emotional state among the trades.
  abbrev pub tallied : Uuid → String → List (Trade F) → ℕ × ℕ
  tallied v f ts = (count_emotion v f outcome_win ts, count_emotion v f outcome_loss ts)

  stat-upsert_emotions :
      (now : Time) (ts : List (Trade F)) (v : Uuid) (f : String) (keys : List (Uuid × String))
      (rs : List EmotionRow)
      → stat v f (upsert_emotions now ts keys rs)
        ≡ (if has_key v f keys then tallied v f ts else stat v f rs)
  stat-upsert_emotions now ts v f [] rs = refl
  stat-upsert_emotions now ts v f ((id, emo) ∷ keys) rs =
      let new : EmotionRow = emotion_row id emo now ts in
      let set = stat-set id v emo f new rs refl refl in
      let rest =
        stat-upsert_emotions now ts v f keys
          (upsert_rows (of_emotion id emo) new (update_emotion_row new) rs) in
      elim (Bool-cases (id == v && str_eq emo f)) [
        | inl same ↦
            let e : id ≡ v = ground arith in
            let e' : emo ≡ f = ground (arith, eq_iff emo f) in
            let same' : tallied id emo ts ≡ tallied v f ts = rw (e, e') refl in
            ground (arith, set, rest, same')
        | inr other ↦ ground (arith, set, rest)
      ]

  -- The result of a backfill from db: where a user has a closed trade with an outcome in one
  -- emotional state, the counters of the two are the user's wins and losses among those trades; the
  -- other counters, the trades and the other tables are as they were.
  pub record IsRecount (db out : Db F) : Type 0 where
    pub counters :
        (v : Uuid) (f : String)
        → stat v f out.emotion_metrics ≡ (
            if any_row (felt_by v f) (where_rows is_felt_close db.trades)
            then tallied v f (where_rows is_felt_close db.trades)
            else stat v f db.emotion_metrics)
    pub rest : out ≡ record db { emotion_metrics = out.emotion_metrics }

  pub backfill_win_rate-IsRecount :
      (db : Db F)
      → db.faults ≡ []
      → ((backfill_win_rate db).0 ≡ ok tt) × IsRecount db (backfill_win_rate db).1
  unfolding backfill_win_rate
  backfill_win_rate-IsRecount db calm =
      let felt : List (Trade F) = where_rows is_felt_close db.trades in
      let stored : List EmotionRow =
        upsert_emotions db.now felt (emotion_keys felt) db.emotion_metrics in
      rw calm (
        refl,
        record {
          counters = λ v f.
              stat-upsert_emotions db.now felt v f (emotion_keys felt) db.emotion_metrics
              ∙ ap (λ b. if b then tallied v f felt else stat v f db.emotion_metrics)
                  (has_key-emotion_keys v f felt);
          rest = refl;
        },
      )
