-- ===== src/Metrics/Overtrading/Spacing.antt =====
-- The dedupe of internal/metrics/overtrading.go: the recorded windows of a user lie apart.
use trading_platform_backend.Prelude.{
  ap, ◌∙◌, ℕ, ◌+◌, ◌-◌, ◌≤◌, ◌<◌, ◌≡◌, refl, List, [], ◌∷◌, ◌++◌, arith, leb, ltb, All,
  All-append_one, count_rows, some, Bool-cases, ◌⊎◌, inl, inr,
}
use trading_platform_backend.Database.{Db, OvertradingRow}
use trading_platform_backend.Database.Exec.{statement_rule, bind_rule, continue-pure}
use trading_platform_backend.Trades.Types.{Uuid, Time}
use trading_platform_backend.Metrics.Repo.{add_overtrading_event, increment_overtrading_count}
use trading_platform_backend.Metrics.Overtrading.{
  window, ended_within, count_opens, count_existing, record_event, record_unless_known, overtrading,
}

-- `r` ends more than 30 minutes before `s`, if they are of one user.
abbrev pub Apart : OvertradingRow → OvertradingRow → Type 0
Apart r s = r.user_id ≡ s.user_id → r.window_end + window < s.window_end

abbrev pub Spaced : List OvertradingRow → Type 0
Spaced [] = Unit
Spaced (r ∷ rs) = All (Apart r) rs × Spaced rs

-- Every recorded window has more than ten trades, and those of one user lie apart.
pub record IsLog (rs : List OvertradingRow) : Type 0 where
  pub spaced : Spaced rs
  pub crowded : All (λ r. 10 < r.trade_count) rs

-- The events of the user recorded so far end no later than `at`.
abbrev pub InOrder : Uuid → Time → List OvertradingRow → Type 0
InOrder u at rs = All (λ r. r.user_id ≡ u → r.window_end ≤ at) rs

-- With no event in the last half hour, all earlier ones lie apart from a new one.
All-Apart :
    (new : OvertradingRow) (rs : List OvertradingRow)
    → window ≤ new.window_end
    → InOrder new.user_id new.window_end rs
    → count_rows (ended_within new.user_id (new.window_end - window) new.window_end) rs ≡ 0
    → All (λ r. Apart r new) rs
All-Apart new [] far order empty = tt
All-Apart new (r ∷ rs) far order empty =
    elim (Bool-cases (ended_within new.user_id (new.window_end - window) new.window_end r)) [
      | inl hit ↦ absurd (ground arith)
      | inr miss ↦ (ground arith, All-Apart new rs far order.1 (ground arith))
    ]

Spaced-append :
    (new : OvertradingRow) (rs : List OvertradingRow)
    → Spaced rs
    → All (λ r. Apart r new) rs
    → Spaced (rs ++ new ∷ [])
Spaced-append new [] s a = (tt, tt)
Spaced-append new (r ∷ rs) s a =
    (All-append_one (Apart r) new rs s.0 a.0, Spaced-append new rs s.1 a.1)

-- The event that Overtrading records.
abbrev pub new_event : Uuid → Time → ℕ → OvertradingRow
new_event user_id entry_at count = record {
  user_id = user_id;
  window_start = entry_at - window;
  window_end = entry_at;
  trade_count = count;
}

module _ {F : Type 0} (user_id : Uuid) (entry_at : Time) where
  -- The log afterwards is the old one, or has one event more.
  abbrev Logged : Db F → Db F → Type 0
  Logged db db' =
      (db'.overtrading_events ≡ db.overtrading_events)
      ⊎ ((10 < count_opens user_id entry_at db)
          × (count_existing user_id entry_at db ≡ 0)
          × (db'.overtrading_events ≡ (
              db.overtrading_events
              ++ new_event user_id entry_at (count_opens user_id entry_at db) ∷ [])))

  abbrev Recorded : ℕ → Db F → Db F → Type 0
  Recorded count db db' =
      (db'.overtrading_events ≡ db.overtrading_events)
      ⊎ (db'.overtrading_events ≡ (db.overtrading_events ++ new_event user_id entry_at count ∷ []))

  events-increment :
      (db : Db F)
      → (increment_overtrading_count user_id db).1.overtrading_events ≡ db.overtrading_events
  unfolding increment_overtrading_count
  events-increment db =
      statement_rule (λ r (d : Db F). d.overtrading_events ≡ db.overtrading_events) _ db (λ _. refl)
        (λ _. refl)

  record_event-Recorded :
      (count : ℕ) (db : Db F) → Recorded count db (record_event user_id entry_at count db).1
  unfolding add_overtrading_event
  record_event-Recorded count db =
      bind_rule (λ r. Recorded count db) _ _ db (λ _. inl refl)
        λ later.
          let new : OvertradingRow = new_event user_id entry_at count in
          let stored : Db F = record db {
            overtrading_events = db.overtrading_events ++ new ∷ [];
            faults = later;
          } in
          let r = increment_overtrading_count user_id stored in
          inr (
            ap (λ (d : Db F). d.overtrading_events) (continue-pure r.0 (λ _. some new) r.1)
            ∙ events-increment stored)

  Recorded-Logged :
      (db db' : Db F)
      → 10 < count_opens user_id entry_at db
      → count_existing user_id entry_at db ≡ 0
      → Recorded (count_opens user_id entry_at db) db db'
      → Logged db db'
  Recorded-Logged db db' many fresh (inl e) = inl e
  Recorded-Logged db db' many fresh (inr e) = inr (many, fresh, e)

  record_unless_known-Logged :
      (db : Db F)
      → 10 < count_opens user_id entry_at db
      → Logged db (record_unless_known user_id entry_at (count_opens user_id entry_at db) db).1
  record_unless_known-Logged db many =
      bind_rule (λ r. Logged db) _ _ db (λ _. inl refl)
        λ later. elim (Bool-cases (ltb 0 (count_existing user_id entry_at db))) [
          | inl known ↦ rw known (inl refl)
          | inr fresh ↦ rw fresh (
              Recorded-Logged db
                (record_event user_id entry_at (count_opens user_id entry_at db)
                  (record db { faults = later })).1
                many (ground arith)
                (record_event-Recorded (count_opens user_id entry_at db)
                  (record db { faults = later })))
        ]

  overtrading-Logged : (db : Db F) → Logged db (overtrading user_id entry_at db).1
  unfolding overtrading
  overtrading-Logged db =
      bind_rule (λ r. Logged db) _ _ db (λ _. inl refl)
        λ later. elim (Bool-cases (leb (count_opens user_id entry_at db) 10)) [
          | inl few ↦ rw few (inl refl)
          | inr many ↦
              rw many (record_unless_known-Logged (record db { faults = later }) (ground arith))
        ]

  -- Overtrading keeps the log of a user's events more than 30 minutes apart, and every event above
  -- ten trades, whatever statement fails, when events arrive in the order of their times.
  pub overtrading-IsLog :
      (db : Db F)
      → window ≤ entry_at
      → InOrder user_id entry_at db.overtrading_events
      → IsLog db.overtrading_events
      → IsLog (overtrading user_id entry_at db).1.overtrading_events
  overtrading-IsLog db far order h = elim (overtrading-Logged db) [
    | inl same ↦ rw same h
    | inr (many, fresh, e) ↦
        let new : OvertradingRow = new_event user_id entry_at (count_opens user_id entry_at db) in
        rw e (record {
          spaced =
              Spaced-append new db.overtrading_events h.spaced
                (All-Apart new db.overtrading_events far order fresh);
          crowded =
              All-append_one (λ r. 10 < r.trade_count) new db.overtrading_events h.crowded many;
        })
  ]
