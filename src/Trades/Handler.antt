-- ===== src/Trades/Handler.antt =====
-- internal/trades/handler.go: POST /trades and GET /trades/{tradeId}.
pub mod Tenancy
pub mod Resubmit
pub mod Collision
use Prim.Native.String.{◌++◌}
use trading_platform_backend.Prelude.{
  String, Bool, true, false, ◌&&◌, Option, none, some, ◌==◌, if◌then◌else◌, str_eq,
}
use trading_platform_backend.External.Float.{FloatOps}
use trading_platform_backend.External.Postgres.{NumericOps}
use trading_platform_backend.External.Uuid.{UuidText}
use trading_platform_backend.Database.{Db}
use trading_platform_backend.Database.Exec.{no_rows, not_found, failed, Result, ok, err}
use trading_platform_backend.Httpx.{Context, Response, user_id, write_error, write_json}
use trading_platform_backend.Queue.Event.{Event, trade_opened, trade_closed}
use trading_platform_backend.Trades.Types.{Uuid, Time, nil_uuid, status_closed, TradeInput, Trade}
use trading_platform_backend.Trades.Validate.{validate}
use trading_platform_backend.Trades.Repo.{insert, get}

-- What dec.Decode made of the body: its error's text, or the input.
pub data Decoded (F : Type 0) : Type 0 where
  malformed : String → Decoded F
  decoded : TradeInput F → Decoded F

-- The response, and the event of the goroutine that was started, if one was.
pub record Reply (F : Type 0) : Type 0 where
  pub response : Response (Trade F)
  pub publishes : Option Event

-- the id that `tokenUID, _ := httpx.UserID(ctx)` leaves: uuid.Nil where there is none
abbrev pub token_or_nil : Option Uuid → Uuid
token_or_nil none = nil_uuid
token_or_nil (some id) = id

module _ {F : Type 0} (uuids : UuidText) where
  open uuids use {to_string, parse}

  abbrev event_at : Trade F → Option Time → Event
  event_at t none = record {
    event_type = trade_opened;
    trade_id = to_string t.trade_id;
    user_id = to_string t.user_id;
    session_id = to_string t.session_id;
    occurred_at = t.entry_at;
  }
  event_at t (some exit_at) = record {
    event_type = trade_closed;
    trade_id = to_string t.trade_id;
    user_id = to_string t.user_id;
    session_id = to_string t.session_id;
    occurred_at = exit_at;
  }

  -- eventFor: closed with an exit time, or else opened at the entry time
  unfoldable pub event_for : Trade F → Event
  event_for t = event_at t (if str_eq t.status status_closed then t.exit_at else none)

  abbrev pub found_reply : Context → Uuid → Trade F → Response (Trade F)
  found_reply ctx token_uid t =
      if t.user_id == token_uid
      then write_json 200 t
      else write_error ctx 403 "FORBIDDEN" "Cross-tenant access denied."

  abbrev pub get_reply : Context → Uuid → Result (Trade F) → Response (Trade F)
  get_reply ctx token_uid (ok t) = found_reply ctx token_uid t
  get_reply ctx token_uid (err not_found) =
      write_error ctx 404 "TRADE_NOT_FOUND" "Trade with the given tradeId does not exist."
  get_reply ctx token_uid (err no_rows) =
      write_error ctx 500 "INTERNAL_ERROR" "Could not load trade."
  get_reply ctx token_uid (err failed) =
      write_error ctx 500 "INTERNAL_ERROR" "Could not load trade."

  abbrev pub get_by_id : Context → Option Uuid → Db F → Response (Trade F) × Db F
  get_by_id ctx none db =
      (write_error ctx 400 "BAD_REQUEST" "tradeId path parameter must be a UUID.", db)
  get_by_id ctx (some id) db =
      let (r, db') = get id db in (get_reply ctx (token_or_nil (user_id ctx)) r, db')

  -- get, with the text of the path parameter
  unfoldable pub get_trade : Context → String → Db F → Response (Trade F) × Db F
  get_trade ctx path_id db = get_by_id ctx (parse path_id) db

module _ {F : Type 0} (ops : FloatOps F) (numeric : NumericOps F) (uuids : UuidText) where
  abbrev no_event : Response (Trade F) → Reply F
  no_event r = record { response = r; publishes = none }

  -- h.producer != nil && inserted
  abbrev pub stored_reply : Bool → Context → Result (Trade F × Bool) → Reply F
  stored_reply has_producer ctx (err e) =
      no_event (write_error ctx 500 "INTERNAL_ERROR" "Could not persist trade.")
  stored_reply has_producer ctx (ok (t, inserted)) = record {
    response = write_json 200 t;
    publishes = if has_producer && inserted then some (event_for uuids t) else none;
  }

  abbrev pub create_for : Bool → Context → TradeInput F → Option Uuid → Db F → Reply F × Db F
  create_for has_producer ctx i none db =
      (no_event (write_error ctx 401 "UNAUTHORIZED" "Missing authenticated user."), db)
  create_for has_producer ctx i (some token_uid) db =
      if token_uid == i.user_id
      then (let (r, db') = insert ops numeric i db in (stored_reply has_producer ctx r, db'))
      else (no_event (write_error ctx 403 "FORBIDDEN" "Cross-tenant write denied."), db)

  abbrev pub create_valid : Bool → Context → TradeInput F → Option String → Db F → Reply F × Db F
  create_valid has_producer ctx i (some message) db =
      (no_event (write_error ctx 400 "BAD_REQUEST" message), db)
  create_valid has_producer ctx i none db = create_for has_producer ctx i (user_id ctx) db

  -- create
  unfoldable pub create : Bool → Context → Decoded F → Db F → Reply F × Db F
  create has_producer ctx (malformed e) db =
      (no_event (write_error ctx 400 "BAD_REQUEST" ("Malformed JSON body: " ++ e)), db)
  create has_producer ctx (decoded i) db = create_valid has_producer ctx i (validate ops i) db
