-- ===== src/Metrics/PlanAdherence/Frame.antt =====
-- What PlanAdherence of internal/metrics/plan_adherence.go leaves alone.
use trading_platform_backend.Prelude.{◌≡◌, refl, [], arith, ◌==◌, Bool-cases, inl, inr, ℕ}
use trading_platform_backend.Prelude.Int.{ℤ, pos}
use trading_platform_backend.External.Float.{FloatOps}
use trading_platform_backend.External.Postgres.{NumericOps}
use trading_platform_backend.Database.{Db}
use trading_platform_backend.Trades.Types.{Uuid}
use trading_platform_backend.Metrics.Repo.{set_plan_adherence_score}
use trading_platform_backend.Metrics.PlanAdherence.{store_average, tally, last_ten, plan_adherence}

-- Two states of the database that agree on all but user_metrics.
pub record SameButUsers {F : Type 0} (a b : Db F) : Type 0 where
  pub trades : a.trades ≡ b.trades
  pub emotion_metrics : a.emotion_metrics ≡ b.emotion_metrics
  pub session_metrics : a.session_metrics ≡ b.session_metrics
  pub faults : a.faults ≡ b.faults
  pub now : a.now ≡ b.now

module _ {F : Type 0} (ops : FloatOps F) (numeric : NumericOps F) where
  set-SameButUsers :
      (u : Uuid) (score : F) (n : ℕ) (db : Db F)
      → db.faults ≡ []
      → SameButUsers (set_plan_adherence_score numeric u score n db).1 db
  unfolding set_plan_adherence_score
  set-SameButUsers u score n db calm = ground arith

  store-SameButUsers :
      (u : Uuid) (sum : ℤ) (count : ℕ) (db : Db F)
      → db.faults ≡ []
      → SameButUsers (store_average ops numeric u (sum, count) db).1 db
  store-SameButUsers u sum count db calm = elim (Bool-cases (count == 0)) [
    | inl z ↦ rw z (record {
      trades = refl;
      emotion_metrics = refl;
      session_metrics = refl;
      faults = refl;
      now = refl;
    })
    | inr p ↦
        rw p (set-SameButUsers u (ops.div (ops.of_int sum) (ops.of_int (pos count))) count db calm)
  ]

  -- With no failing statement PlanAdherence writes user_metrics only.
  pub plan_adherence-SameButUsers :
      (u : Uuid) (db : Db F) → db.faults ≡ [] → SameButUsers (plan_adherence ops numeric u db).1 db
  unfolding plan_adherence
  plan_adherence-SameButUsers u db calm =
      let t = tally (pos 0) 0 (last_ten u db.trades) in
      rw calm (store-SameButUsers u t.0 t.1 (record db { faults = [] }) refl)
