-- ===== src/Metrics/Backfill/Flags/Revenge.antt =====
-- What backfillRevengeFlag (internal/metrics/backfill.go) leaves in the trades and the counters.
use trading_platform_backend.Prelude.{
  ◌-◌, ◌*◌, String, str_eq, ◌≡◌, refl, ◌∙◌, ap, Bool, true, false, not, ◌&&◌, ◌||◌, Option, none,
  some, List, [], ◌∷◌, arith, leb, ◌==◌, update_rows, count_rows, map, any_row, All, Bool-cases,
  inl, inr,
}
use trading_platform_backend.Database.{UserMetricsRow, Db}
use trading_platform_backend.Database.Exec.{ok}
use trading_platform_backend.Trades.Types.{Uuid, Time, second, emo_anxious, emo_fearful, Trade}
use trading_platform_backend.Metrics.Repo.{new_user_row}
use trading_platform_backend.Metrics.RevengeFlag.{is_tilted}
use trading_platform_backend.Metrics.RevengeFlag.Window.{is_recent_loss}
use trading_platform_backend.Metrics.Backfill.Flags.Users.{HasRow-upsert_users}
use trading_platform_backend.Prelude.Groups.{holds, All-group_keys}
use trading_platform_backend.Prelude.Keyed.{HasRow}
use trading_platform_backend.Metrics.Backfill.Flags.{
  latest, user_ids, earlier_losses, follows_closely, matches_last_loss, is_flagged, reset_flags,
  with_flag, flag_matching, store_counts, backfill_revenge_flag,
}

abbrev recent : Time → Option Time → Bool
recent e none = false
recent e (some x) = leb (e - x) (90 * second)

-- The latest of the times is recent where some time is.
recent-latest :
    (e : Time) (xs : List Time) → recent e (latest xs) ≡ any_row (λ x. leb (e - x) (90 * second)) xs
unfolding latest
recent-latest e [] = refl
recent-latest e (x ∷ xs) = ground (arith, recent-latest e xs)

-- The emotion is anxious or fearful.
abbrev pub anxious_or_fearful : Option String → Bool
anxious_or_fearful none = false
anxious_or_fearful (some emo) = str_eq emo emo_anxious || str_eq emo emo_fearful

tilted-anxious_or_fearful : (o : Option String) → is_tilted o ≡ anxious_or_fearful o
unfolding is_tilted
tilted-anxious_or_fearful none = refl
tilted-anxious_or_fearful (some emo) = refl

module _ {F : Type 0} where
  -- Another trade of the user closed at a loss at most 90 seconds before the entry of t.
  abbrev pub follows_loss_of : Trade F → Trade F → Bool
  follows_loss_of t p = is_recent_loss t.user_id t.entry_at p && not (p.trade_id == t.trade_id)

  -- The definition of a revenge trade.
  abbrev pub is_revenge : List (Trade F) → Trade F → Bool
  is_revenge ts t = anxious_or_fearful t.emotional_state && any_row (follows_loss_of t) ts

  follows-recent : (t : Trade F) (o : Option Time) → follows_closely t o ≡ recent t.entry_at o
  follows-recent t none = refl
  follows-recent t (some x) = refl

  any-earlier_losses :
      (t : Trade F) (ts : List (Trade F))
      → any_row (λ x. leb (t.entry_at - x) (90 * second)) (earlier_losses t ts)
        ≡ any_row (follows_loss_of t) ts
  any-earlier_losses t [] = refl
  any-earlier_losses t (p ∷ ps) = ground (arith, any-earlier_losses t ps)

  matches-is_revenge :
      (ts : List (Trade F)) (t : Trade F) → matches_last_loss ts t ≡ is_revenge ts t
  unfolding matches_last_loss
  matches-is_revenge ts t = ground (
    arith,
    follows-recent t (latest (earlier_losses t ts)),
    recent-latest t.entry_at (earlier_losses t ts),
    any-earlier_losses t ts,
    tilted-anxious_or_fearful t.emotional_state,
  )

  -- t as the backfill leaves it.
  abbrev pub recomputed : Time → List (Trade F) → Trade F → Trade F
  recomputed now ts t = with_flag (is_revenge ts t) now t

  any-reset_flags :
      (now : Time) (t : Trade F) (ts : List (Trade F))
      → any_row (follows_loss_of t) (reset_flags now ts) ≡ any_row (follows_loss_of t) ts
  unfolding reset_flags
  any-reset_flags now t [] = refl
  any-reset_flags now t (p ∷ ps) = ap (λ b. follows_loss_of t p || b) (any-reset_flags now t ps)

  matches-reset_flags :
      (now : Time) (ts : List (Trade F)) (t : Trade F)
      → matches_last_loss (reset_flags now ts) (with_flag false now t) ≡ is_revenge ts t
  matches-reset_flags now ts t =
      matches-is_revenge (reset_flags now ts) (with_flag false now t)
      ∙ ap (λ b. anxious_or_fearful t.emotional_state && b) (any-reset_flags now t ts)

  flag_each :
      (now : Time) (all ts : List (Trade F))
      → update_rows
          (matches_last_loss (reset_flags now all))
          (with_flag true now)
          (reset_flags now ts)
        ≡ map (recomputed now all) ts
  unfolding reset_flags
  flag_each now all [] = refl
  flag_each now all (t ∷ ts) = elim (Bool-cases (is_revenge all t)) [
    | inl h ↦
        rw (matches-reset_flags now all t, h)
          (ap (λ rest. with_flag true now t ∷ rest) (flag_each now all ts))
    | inr h ↦
        rw (matches-reset_flags now all t, h)
          (ap (λ rest. with_flag false now t ∷ rest) (flag_each now all ts))
  ]

  abbrev pub Counted : List (Trade F) → Uuid → UserMetricsRow F → Type 0
  Counted ts id r = r.revenge_trades_count ≡ count_rows (is_flagged id) ts

  HasRow-All :
      (now : Time) (rows : List (UserMetricsRow F)) (all ts : List (Trade F))
      → All (λ t. holds t.user_id (user_ids all) ≡ true) ts
      → All
          (λ t.
            HasRow
              (λ (r : UserMetricsRow F). r.user_id)
              (Counted all)
              (store_counts now all rows)
              t.user_id)
          ts
  unfolding store_counts
  HasRow-All now rows all [] a = tt
  HasRow-All now rows all (t ∷ ts) a = (
    HasRow-upsert_users (Counted all)
        (λ id. record (new_user_row id now) {
          revenge_trades_count = count_rows (is_flagged id) all;
        })
        (λ id r. record r {
          revenge_trades_count = count_rows (is_flagged id) all;
          updated_at = now;
        })
        (λ id. refl) (λ id r. refl) (λ id. refl) (λ id r. refl) t.user_id (user_ids all) rows a.0,
    HasRow-All now rows all ts a.1,
  )

  -- The result of a backfill from db: the trades differ in the flag and the time of the update, and
  -- each user with a trade has a row that counts the user's flagged trades.
  pub record IsFlagged (db out : Db F) : Type 0 where
    pub flags : out.trades ≡ map (recomputed db.now db.trades) db.trades
    pub counts :
        All
          (λ t.
            HasRow
              (λ (r : UserMetricsRow F). r.user_id)
              (Counted out.trades)
              out.user_metrics
              t.user_id)
          out.trades

  flagged_from :
      (now : Time) (rows : List (UserMetricsRow F)) (ts : List (Trade F))
      → All
          (λ t.
            HasRow
              (λ (r : UserMetricsRow F). r.user_id)
              (Counted ts)
              (store_counts now ts rows)
              t.user_id)
          ts
  flagged_from now rows ts =
      HasRow-All now rows ts ts (All-group_keys (λ (t : Trade F). t.user_id) ts)

  -- backfillRevengeFlag with no failing statement succeeds. It sets the flag of a trade exactly where
  -- the trade is anxious or fearful and another trade of the user closed at a loss at most 90 seconds
  -- before its entry, whatever the flags were, and leaves for each user with a trade a row of
  -- user_metrics that counts the user's flagged trades.
  pub backfill_revenge_flag-IsFlagged :
      (db : Db F)
      → db.faults ≡ []
      → ((backfill_revenge_flag db).0 ≡ ok tt) × IsFlagged db (backfill_revenge_flag db).1
  unfolding backfill_revenge_flag flag_matching reset_flags
  backfill_revenge_flag-IsFlagged db calm = rw calm (
    refl,
    record {
      flags = flag_each db.now db.trades db.trades;
      counts =
          flagged_from db.now db.user_metrics (flag_matching db.now (reset_flags db.now db.trades));
    },
  )
