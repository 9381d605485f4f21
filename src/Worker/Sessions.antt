-- ===== src/Worker/Sessions.antt =====
-- trade.closed events of a session that two users share: process and handle of
-- internal/worker/worker.go over UpsertSessionTilt.
use trading_platform_backend.Prelude.{
  ℕ, suc, ◌+◌, ◌<◌, ◌≡◌, ◌≢◌, refl, ap, ◌∙◌, sym, String, Bool, true, false, some, List, [], ◌∷◌,
  arith, ◌==◌, ◌&&◌, str_eq, find_row, All, length, if◌then◌else◌, eq_refl,
}
use trading_platform_backend.Database.{Db}
use trading_platform_backend.Database.Exec.{failed, err}
use trading_platform_backend.Queue.Event.{trade_closed}
use trading_platform_backend.Queue.Consumer.{Message}
use trading_platform_backend.Trades.Types.{Uuid, Trade, outcome_win}
use trading_platform_backend.Trades.Repo.{has_id}
use trading_platform_backend.Metrics.Repo.{upsert_session_tilt}
use trading_platform_backend.Metrics.Repo.Tilt.{has_closed_of, upsert_session_tilt_two_users}
use trading_platform_backend.Metrics.PlanAdherence.{plan_adherence}
use trading_platform_backend.Metrics.PlanAdherence.Frame.{SameButUsers, plan_adherence-SameButUsers}
use trading_platform_backend.Metrics.WinRate.{win_rate_by_emotion}
use trading_platform_backend.Metrics.WinRate.Counts.{stat, counted, stat-win_rate_by_emotion}
use trading_platform_backend.Worker.{World, Worker, max_deliveries, process_closed, process, handle}

same_key : (u : Uuid) (emo : String) → (u == u && str_eq emo emo) ≡ true
same_key u emo = ground (arith, eq_refl emo)

-- `k` more wins, or `k` more losses.
abbrev pub plus : Bool → ℕ → ℕ × ℕ → ℕ × ℕ
plus won k (wins, losses) = if won then (wins + k, losses) else (wins, losses + k)

plus_zero : (won : Bool) (x : ℕ × ℕ) → plus won 0 x ≡ x
plus_zero won (a, b) = ground arith

plus-counted :
    (won : Bool) (k : ℕ) (x : ℕ × ℕ) → plus won k (counted true won x) ≡ plus won (suc k) x
plus-counted won k (a, b) = ground arith

module _ {F R : Type 0} (w : Worker F R) (m : Message) where
  -- The message delivered again and again, with the counts given.
  abbrev pub redeliver : List ℕ → World F R → World F R
  redeliver [] s = s
  redeliver (n ∷ ns) s = redeliver ns (handle w (record m { delivery_count = n }) s)

module _ {F R : Type 0} (w : Worker F R) (m : Message) (ts : List (Trade F)) where
  open w use {floats, numeric, uuids}

  -- A trade.closed event for a stored trade with an emotion and an outcome, in a session where
  -- another user has a closed trade too.
  pub record IsShared (t : Trade F) (session_id user_id other : Uuid) (emo outcome : String)
      : Type 0 where
    pub closed : m.event.event_type ≡ trade_closed
    pub trade : uuids.parse m.event.trade_id ≡ some t.trade_id
    pub user : uuids.parse m.event.user_id ≡ some user_id
    pub session : uuids.parse m.event.session_id ≡ some session_id
    pub stored : find_row (has_id t.trade_id) ts ≡ some t
    pub felt : t.emotional_state ≡ some emo
    pub ended : t.outcome ≡ some outcome
    pub different : user_id ≢ other
    pub own_close : has_closed_of session_id user_id ts ≡ true
    pub other_close : has_closed_of session_id other ts ≡ true

  -- The trades are those given, and no statement fails.
  abbrev Calm : World F R → Type 0
  Calm s = (s.db.trades ≡ ts) × (s.db.faults ≡ [])

  module _ (t : Trade F) (session_id user_id other : Uuid) (emo outcome : String)
      (shared : IsShared t session_id user_id other emo outcome) where
    -- What one delivery does: it fails, and counts the outcome all the same.
    abbrev CountedOnce : World F R → World F R → Type 0
    CountedOnce s s' =
        Calm s'
        × (s'.redis ≡ s.redis)
        × (stat user_id emo s'.db.emotion_metrics
            ≡ counted true (str_eq outcome outcome_win) (stat user_id emo s.db.emotion_metrics))

    closed-CountedOnce :
        (s : World F R)
        → Calm s
        → let r = process_closed w t.trade_id user_id session_id s in
          (0 < r.0.failures) × (r.0.malformed ≡ false) × CountedOnce s r.1
    unfolding process_closed
    closed-CountedOnce s (trades, calm) =
        let db1 : Db F = (plan_adherence floats numeric user_id s.db).1 in
        let frame : SameButUsers db1 s.db =
          plan_adherence-SameButUsers floats numeric user_id s.db calm in
        let same1 : db1.trades ≡ ts = frame.trades ∙ trades in
        let won =
          stat-win_rate_by_emotion t.trade_id user_id user_id emo emo outcome db1 t
            (frame.faults ∙ calm) (ap (find_row (has_id t.trade_id)) same1 ∙ shared.stored)
            shared.felt shared.ended in
        let db2 : Db F = (win_rate_by_emotion t.trade_id user_id db1).1 in
        let same2 : db2.trades ≡ ts = won.2 ∙ same1 in
        let tilt : upsert_session_tilt session_id db2 ≡ (err failed, db2) =
          upsert_session_tilt_two_users session_id user_id other db2 won.3 shared.different
            (ap (has_closed_of session_id user_id) same2 ∙ shared.own_close)
            (ap (has_closed_of session_id other) same2 ∙ shared.other_close) in
        rw tilt (
          omega arith,
          refl,
          (
            (same2, won.3),
            refl,
            won.1
                ∙ ap
                    (λ b.
                      counted b (str_eq outcome outcome_win) (stat user_id emo db1.emotion_metrics))
                    (same_key user_id emo)
                ∙ ap (λ rows. counted true (str_eq outcome outcome_win) (stat user_id emo rows))
                    frame.emotion_metrics,
          ),
        )

    process-process_closed :
        (s : World F R) → process w m.event s ≡ process_closed w t.trade_id user_id session_id s
    unfolding process
    process-process_closed s = rw (shared.closed, shared.trade, shared.user, shared.session)

    handle-process :
        (n : ℕ) (s : World F R)
        → n < max_deliveries
        → 0 < (process w m.event s).0.failures
        → (process w m.event s).0.malformed ≡ false
        → handle w (record m { delivery_count = n }) s ≡ (process w m.event s).1
    unfolding handle
    handle-process n s h fails well_formed = ground arith

    handle-CountedOnce :
        (n : ℕ) (s : World F R)
        → n < max_deliveries
        → Calm s
        → CountedOnce s (handle w (record m { delivery_count = n }) s)
    handle-CountedOnce n s h calm =
        let e = process-process_closed s in
        let (fails, well_formed, once) = closed-CountedOnce s calm in
        rw (handle-process n s h (rw e fails) (rw e well_formed), e) once

    -- A trade.closed event of a stored trade that has an emotion and an outcome, whose session has
    -- closed trades of its user and of another one: where nothing but deliveries of this message,
    -- each below the limit of deliveries, acts on the tables, and no statement fails, n deliveries
    -- leave it unacknowledged and count the trade's outcome n times for its user and emotion.
    pub redeliver-plus :
        (ns : List ℕ) (s : World F R)
        → All (λ n. n < max_deliveries) ns
        → s.db.trades ≡ ts
        → s.db.faults ≡ []
        → ((redeliver w m ns s).redis ≡ s.redis)
          × (stat user_id emo (redeliver w m ns s).db.emotion_metrics
              ≡ plus
                  (str_eq outcome outcome_win)
                  (length ns)
                  (stat user_id emo s.db.emotion_metrics))
    redeliver-plus [] s below trades calm =
        (refl, sym (plus_zero (str_eq outcome outcome_win) (stat user_id emo s.db.emotion_metrics)))
    redeliver-plus (n ∷ ns) s below trades calm =
        let s' : World F R = handle w (record m { delivery_count = n }) s in
        let once : CountedOnce s s' = handle-CountedOnce n s below.0 (trades, calm) in
        let rest = redeliver-plus ns s' below.1 once.0.0 once.0.1 in
        (
          rest.0 ∙ once.1,
          rest.1
              ∙ ap (plus (str_eq outcome outcome_win) (length ns)) once.2
              ∙ plus-counted (str_eq outcome outcome_win) (length ns)
                  (stat user_id emo s.db.emotion_metrics),
        )
