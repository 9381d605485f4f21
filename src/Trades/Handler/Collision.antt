-- ===== src/Trades/Handler/Collision.antt =====
-- POST /trades (internal/trades/handler.go) with the tradeId of a trade that is stored already.
use trading_platform_backend.Prelude.{◌≡◌, Bool, none, some, []}
use trading_platform_backend.External.Float.{FloatOps}
use trading_platform_backend.External.Postgres.{NumericOps}
use trading_platform_backend.External.Uuid.{UuidText}
use trading_platform_backend.Prelude.{find_row}
use trading_platform_backend.Database.{Db}
use trading_platform_backend.Httpx.{Context, user_id, write_json}
use trading_platform_backend.Trades.Types.{TradeInput, Trade}
use trading_platform_backend.Trades.Validate.Rules.{IsValid, validate-none_iff}
use trading_platform_backend.Trades.Repo.{has_id}
use trading_platform_backend.Trades.Repo.Idempotence.{IsStorable, insert_present}
use trading_platform_backend.Trades.Handler.{decoded, create}
use trading_platform_backend.Trades.Handler.Resubmit.{create_again}

module _ {F : Type 0} (ops : FloatOps F) (numeric : NumericOps F) (uuids : UuidText) where
  -- A caller who posts a valid and storable body of their own under the tradeId of a stored trade,
  -- with no failing statement, is answered 200 with that trade, whoever owns it and whatever else the
  -- body says; nothing is stored and no event is published. So a caller can read another user's trade
  -- this way, and an open trade cannot be closed by posting it again.
  pub create-stored :
      (has_producer : Bool) (ctx : Context) (i : TradeInput F) (db : Db F) (t row : Trade F)
      → IsValid ops i
      → user_id ctx ≡ some i.user_id
      → db.faults ≡ []
      → IsStorable ops numeric i db.now row
      → find_row (has_id i.trade_id) db.trades ≡ some t
      → create ops numeric uuids has_producer ctx (decoded i) db
        ≡ (record { response = write_json 200 t; publishes = none }, db)
  create-stored has_producer ctx i db t row valid own calm storable found =
      create_again ops numeric uuids has_producer ctx i db t ((validate-none_iff ops i).1 valid) own
        (insert_present ops numeric i db t row storable calm found)
