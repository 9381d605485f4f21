-- ===== src/Api/Traced.antt =====
-- The trace id in the error bodies of the routes behind Authenticator (cmd/api/main.go).
use trading_platform_backend.Prelude.{
  String, Bool, true, ◌≡◌, refl, Option, none, some, List, Bool-cases, inl, inr, ltb, ◌==◌,
  if◌then◌else◌, str_eq,
}
use trading_platform_backend.External.Float.{FloatOps}
use trading_platform_backend.External.Postgres.{NumericOps}
use trading_platform_backend.External.Uuid.{UuidText}
use trading_platform_backend.External.TimeText.{TimeText}
use trading_platform_backend.External.Jwt.{JwtLibrary}
use trading_platform_backend.Database.{Db}
use trading_platform_backend.Database.Exec.{no_rows, not_found, failed, Result, ok, err}
use trading_platform_backend.Httpx.{Context, Response, with_trace_id, trace_id, user_id}
use trading_platform_backend.Middleware.{HttpHandler, authenticate, require_user_match, trace}
use trading_platform_backend.Queue.Event.{Event}
use trading_platform_backend.Trades.Types.{Uuid, Time, TradeInput, Trade}
use trading_platform_backend.Trades.Validate.{validate}
use trading_platform_backend.Trades.Repo.{get, insert}
use trading_platform_backend.Trades.Handler.{
  Decoded, malformed, decoded, token_or_nil, found_reply, get_reply, get_by_id, get_trade,
  stored_reply, create_for, create_valid, create,
}
use trading_platform_backend.Metrics.Snapshot.{UserMetrics, load_snapshot}
use trading_platform_backend.Metrics.Buckets.{Bucket, load_buckets}
use trading_platform_backend.Metrics.Query.{
  MetricsResponse, QueryValues, Granularity, granularity, refused, parse_granularity, parse_time,
  after_buckets, after_snapshot, with_granularity, with_times, with_user, get_metrics,
}
use trading_platform_backend.Api.{create_handler, post_trades, get_trades, get_user_metrics}
use trading_platform_backend.Middleware.Tracing.{
  IsTraced, IsTracing, new-trace_id, IsTraced-authenticate, IsTraced-require_user_match,
}

module _ {F : Type 0} (uuids : UuidText) (id : String) (ctx : Context) (h : trace_id ctx ≡ id) where
  IsTraced-found_reply : (user : Uuid) (t : Trade F) → IsTraced id (found_reply uuids ctx user t)
  IsTraced-found_reply user t = elim (Bool-cases (t.user_id == user)) [
    | inl own ↦ rw own tt
    | inr other ↦ rw other h
  ]

  IsTraced-get_reply :
      (user : Uuid) (r : Result (Trade F)) → IsTraced id (get_reply uuids ctx user r)
  IsTraced-get_reply user (ok t) = IsTraced-found_reply user t
  IsTraced-get_reply user (err not_found) = h
  IsTraced-get_reply user (err no_rows) = h
  IsTraced-get_reply user (err failed) = h

  IsTraced-get_by_id : (o : Option Uuid) (db : Db F) → IsTraced id (get_by_id uuids ctx o db).0
  IsTraced-get_by_id none db = h
  IsTraced-get_by_id (some trade_id) db =
      IsTraced-get_reply (token_or_nil (user_id ctx)) (get trade_id db).0

  IsTraced-get_trade : (path : String) (db : Db F) → IsTraced id (get_trade uuids ctx path db).0
  unfolding get_trade
  IsTraced-get_trade path db = IsTraced-get_by_id (uuids.parse path) db

module _ {F : Type 0} (ops : FloatOps F) (numeric : NumericOps F) (uuids : UuidText) (id : String)
    (ctx : Context) (h : trace_id ctx ≡ id) where
  IsTraced-stored_reply :
      (r : Result (Trade F × Bool))
      → IsTraced id (stored_reply ops numeric uuids true ctx r).response
  IsTraced-stored_reply (err e) = h
  IsTraced-stored_reply (ok (t, inserted)) = tt

  IsTraced-create_for :
      (i : TradeInput F) (o : Option Uuid) (db : Db F)
      → IsTraced id (create_for ops numeric uuids true ctx i o db).0.response
  IsTraced-create_for i none db = h
  IsTraced-create_for i (some user) db = elim (Bool-cases (user == i.user_id)) [
    | inl own ↦ rw own (IsTraced-stored_reply (insert ops numeric i db).0)
    | inr other ↦ rw other h
  ]

  IsTraced-create_valid :
      (i : TradeInput F) (o : Option String) (db : Db F)
      → IsTraced id (create_valid ops numeric uuids true ctx i o db).0.response
  IsTraced-create_valid i (some message) db = h
  IsTraced-create_valid i none db = IsTraced-create_for i (user_id ctx) db

  IsTraced-create :
      (body : Decoded F) (db : Db F)
      → IsTraced id (create ops numeric uuids true ctx body db).0.response
  unfolding create
  IsTraced-create (malformed e) db = h
  IsTraced-create (decoded i) db = IsTraced-create_valid i (validate ops i) db

module _ {F : Type 0} (ops : FloatOps F) (numeric : NumericOps F) (uuids : UuidText)
    (times : TimeText) (quote : String → String) (id : String) (ctx : Context)
    (h : trace_id ctx ≡ id) where
  IsTraced-after_buckets :
      (user : Uuid) (from to : Time) (gran : String) (snap : UserMetrics F)
      (out : Result (List (Bucket F)) × Db F)
      → IsTraced id (after_buckets ops numeric uuids times ctx user from to gran snap out).0
  IsTraced-after_buckets user from to gran snap (err e, db) = h
  IsTraced-after_buckets user from to gran snap (ok bs, db) = tt

  IsTraced-after_snapshot :
      (user : Uuid) (from to : Time) (gran : String) (out : Result (UserMetrics F) × Db F)
      → IsTraced id (after_snapshot ops numeric uuids times ctx user from to gran out).0
  IsTraced-after_snapshot user from to gran (err e, db) = h
  IsTraced-after_snapshot user from to gran (ok snap, db) =
      IsTraced-after_buckets user from to gran snap (load_buckets ops numeric user from to gran db)

  IsTraced-with_granularity :
      (user : Uuid) (from to : Time) (gran : Granularity) (db : Db F)
      → IsTraced id (with_granularity ops numeric uuids times ctx user from to gran db).0
  IsTraced-with_granularity user from to (refused message) db = h
  IsTraced-with_granularity user from to (granularity gran) db =
      IsTraced-after_snapshot user from to gran (load_snapshot ops numeric user db)

  IsTraced-with_times :
      (user : Uuid) (q : QueryValues) (from to : Option Time) (db : Db F)
      → IsTraced id (with_times ops numeric uuids times quote ctx user q from to db).0
  IsTraced-with_times user q (some from) (some to) db = elim (Bool-cases (ltb from to)) [
    | inl early ↦
        rw early
          (IsTraced-with_granularity user from to (parse_granularity quote q.granularity_text) db)
    | inr late ↦ rw late h
  ]
  IsTraced-with_times user q (some from) none db = h
  IsTraced-with_times user q none to db = h

  IsTraced-with_user :
      (q : QueryValues) (o : Option Uuid) (db : Db F)
      → IsTraced id (with_user ops numeric uuids times quote ctx q o db).0
  IsTraced-with_user q none db = h
  IsTraced-with_user q (some user) db =
      IsTraced-with_times user q (parse_time times q.from_text) (parse_time times q.to_text) db

  IsTraced-get_metrics :
      (path : String) (q : QueryValues) (db : Db F)
      → IsTraced id (get_metrics ops numeric uuids times quote ctx path q db).0
  unfolding get_metrics
  IsTraced-get_metrics path q db = IsTraced-with_user q (uuids.parse path) db

module _ {S A : Type 0} (id : String) where
  -- What Trace returns: the id of the header, and an answer that has it.
  abbrev pub IsTracedAnswer : String × (Response A × S) → Type 0
  IsTracedAnswer out = (out.0 ≡ id) × IsTraced id out.1.0

  IsTraced-trace :
      (fresh header : String) (next : HttpHandler S A) (ctx : Context) (s : S)
      → (if str_eq header "" then fresh else header) ≡ id
      → IsTracing id next
      → IsTracedAnswer (trace fresh header next ctx s)
  unfolding trace
  IsTraced-trace fresh header next ctx s e traced =
      rw e (refl, traced (with_trace_id ctx id) s (new-trace_id ctx id))

module _ {F : Type 0} (ops : FloatOps F) (numeric : NumericOps F) (uuids : UuidText)
    (times : TimeText) (jwt : JwtLibrary) (quote : String → String)
    (secret fresh trace_header header path : String) (body : Decoded F) (q : QueryValues)
    (ctx : Context) where
  IsTracing-create_handler :
      (id : String) → IsTracing id (create_handler ops numeric uuids times jwt quote secret body)
  IsTracing-create_handler id ctx (db, sent) h = IsTraced-create ops numeric uuids id ctx h body db

  -- The three routes behind Authenticator, whatever the request holds and whichever statements fail:
  -- the id in the header of the response is the one of the request, or a fresh one where it has none,
  -- and every error body, be it of the middleware or of the handler, has that id.
  pub routes-IsTracedAnswer :
      (db : Db F) (sent : List Event)
      → let id = if str_eq trace_header "" then fresh else trace_header in
        IsTracedAnswer id (
          post_trades ops numeric uuids times jwt quote secret fresh trace_header header body ctx
            (db, sent))
        × IsTracedAnswer id (
            get_trades ops numeric uuids times jwt quote secret fresh trace_header header path ctx
              db)
        × IsTracedAnswer id (
            get_user_metrics ops numeric uuids times jwt quote secret fresh trace_header header path
              q ctx db)
  unfolding post_trades get_trades get_user_metrics
  routes-IsTracedAnswer db sent =
      let id : String = if str_eq trace_header "" then fresh else trace_header in
      (
        IsTraced-trace id fresh trace_header
            (authenticate jwt uuids secret header
              (create_handler ops numeric uuids times jwt quote secret body))
            ctx (db, sent) refl
            (IsTraced-authenticate id jwt uuids secret header
              (create_handler ops numeric uuids times jwt quote secret body)
              (IsTracing-create_handler id)),
        IsTraced-trace id fresh trace_header
            (authenticate jwt uuids secret header (λ c d. get_trade uuids c path d)) ctx db refl
            (IsTraced-authenticate id jwt uuids secret header (λ c d. get_trade uuids c path d)
              (λ c d h. IsTraced-get_trade uuids id c h path d)),
        (let handler : HttpHandler (Db F) (MetricsResponse F) =
              λ c d. get_metrics ops numeric uuids times quote c path q d in
            IsTraced-trace id fresh trace_header
              (authenticate jwt uuids secret header (require_user_match uuids path handler)) ctx db
              refl
              (IsTraced-authenticate id jwt uuids secret header
                (require_user_match uuids path handler)
                (IsTraced-require_user_match id uuids path handler
                  (λ c d h. IsTraced-get_metrics ops numeric uuids times quote id c h path q d)))),
      )
