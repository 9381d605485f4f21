-- ===== src/Trades/Handler/Resubmit.antt =====
-- POST /trades (internal/trades/handler.go): what an answer of 200 shows of the body, and the answer
-- where the trade is there already.
use trading_platform_backend.Prelude.{◌≡◌, ap, inl, inr, Bool, true, false, none, some, arith}
use mathlib.Core.Path.{subst}
use trading_platform_backend.External.Float.{FloatOps}
use trading_platform_backend.External.Postgres.{NumericOps}
use trading_platform_backend.External.Uuid.{UuidText}
use trading_platform_backend.Database.{Db}
use trading_platform_backend.Database.Exec.{ok}
use trading_platform_backend.Httpx.{Context, Response, user_id, write_json}
use trading_platform_backend.Trades.Types.{TradeInput, Trade}
use trading_platform_backend.Trades.Validate.{validate}
use trading_platform_backend.Trades.Validate.Rules.{validate-none_iff}
use trading_platform_backend.Trades.Repo.{insert}
use trading_platform_backend.Trades.Handler.{decoded, create}
use trading_platform_backend.Trades.Handler.Tenancy.{create-CreateAnswer}

module _ {F : Type 0} (ops : FloatOps F) (numeric : NumericOps F) (uuids : UuidText) where
  pub created :
      (has_producer : Bool) (ctx : Context) (i : TradeInput F) (db : Db F) (t : Trade F)
      → (create ops numeric uuids has_producer ctx (decoded i) db).0.response ≡ write_json 200 t
      → (validate ops i ≡ none)
        × (user_id ctx ≡ some i.user_id)
        × ((fresh : Bool) × ((insert ops numeric i db).0 ≡ ok (t, fresh)))
        × ((create ops numeric uuids has_producer ctx (decoded i) db).1
            ≡ (insert ops numeric i db).1)
  created has_producer ctx i db t h =
      elim (create-CreateAnswer ops numeric uuids has_producer ctx i db) [
        | inl (_, (status, _, _)) ↦
            absurd (omega (arith, ap (λ (r : Response (Trade F)). r.status) h))
        | inr (inl (_, _, (status, _, _))) ↦
            absurd (omega (arith, ap (λ (r : Response (Trade F)). r.status) h))
        | inr (inr (inl (_, _, (status, _, _)))) ↦
            absurd (omega (arith, ap (λ (r : Response (Trade F)). r.status) h))
        | inr (inr (inr (inl (_, _, _, status, _, _)))) ↦
            absurd (omega (arith, ap (λ (r : Response (Trade F)). r.status) h))
        | inr (inr (inr (inr (u, fresh, v, own, stored, answer, _, e)))) ↦
            let same : u ≡ t = cc (h, answer) in
            (
              (validate-none_iff ops i).1 v,
              own,
              (
                fresh,
                subst (λ (w : Trade F). (insert ops numeric i db).0 ≡ ok (w, fresh)) same stored,
              ),
              e,
            )
      ]

  pub create_again :
      (has_producer : Bool) (ctx : Context) (i : TradeInput F) (db : Db F) (t : Trade F)
      → validate ops i ≡ none
      → user_id ctx ≡ some i.user_id
      → insert ops numeric i db ≡ (ok (t, false), db)
      → create ops numeric uuids has_producer ctx (decoded i) db
        ≡ (record { response = write_json 200 t; publishes = none }, db)
  unfolding create
  create_again true ctx i db t v u e = ground arith
  create_again false ctx i db t v u e = ground arith
