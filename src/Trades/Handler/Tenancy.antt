-- ===== src/Trades/Handler/Tenancy.antt =====
-- Who may write and read what through internal/trades/handler.go, and with which status.
use trading_platform_backend.Prelude.{
  ℕ, String, ◌≡◌, ◌≢◌, ◌⊎◌, inl, inr, refl, Bool, true, false, Option, none, some, [], ◌∷◌, ◌++◌,
  arith, ◌==◌, ◌∙◌, ap, sym, ◌&&◌, if◌then◌else◌, find_row, Bool-cases, Option-cases,
}
use trading_platform_backend.External.Float.{FloatOps}
use trading_platform_backend.External.Postgres.{NumericOps}
use trading_platform_backend.External.Uuid.{UuidText}
use trading_platform_backend.Database.{Db}
use trading_platform_backend.Database.Exec.{Error, Result, ok, err}
use trading_platform_backend.Httpx.{Context, Response, user_id, write_json}
use trading_platform_backend.Trades.Types.{Uuid, Time, TradeInput, Trade}
use trading_platform_backend.Trades.Validate.{validate}
use trading_platform_backend.Trades.Validate.Rules.{IsValid, validate-none_iff}
use trading_platform_backend.Trades.Repo.{has_id, derive, row_of, insert, get}
use trading_platform_backend.Trades.Repo.Idempotence.{Inserted, insert-Inserted}
use trading_platform_backend.Trades.Handler.{
  Decoded, malformed, decoded, Reply, token_or_nil, get_trade, stored_reply, create_for,
  create_valid, create, event_for,
}

module _ {F : Type 0} (uuids : UuidText) where
  -- The four answers of GET /trades/{tradeId}.
  abbrev pub GetAnswer : Context → String → Db F → Response (Trade F) → Type 0
  GetAnswer ctx path_id db r =
      ((uuids.parse path_id ≡ none) × (r.status ≡ 400))
      ⊎ ((id : Uuid) × (uuids.parse path_id ≡ some id)
          × (find_row (has_id id) db.trades ≡ none)
          × (r.status ≡ 404))
      ⊎ ((id : Uuid) × (t : Trade F) × (uuids.parse path_id ≡ some id)
          × (find_row (has_id id) db.trades ≡ some t)
          × (t.user_id ≢ token_or_nil (user_id ctx))
          × (r.status ≡ 403))
      ⊎ ((id : Uuid) × (t : Trade F) × (uuids.parse path_id ≡ some id)
          × (find_row (has_id id) db.trades ≡ some t)
          × (t.user_id ≡ token_or_nil (user_id ctx))
          × (r ≡ write_json 200 t))

  get_by_id-GetAnswer :
      (ctx : Context) (path_id : String) (id : Uuid) (db : Db F) (o : Option (Trade F))
      → db.faults ≡ []
      → uuids.parse path_id ≡ some id
      → find_row (has_id id) db.trades ≡ o
      → ((get_trade uuids ctx path_id db).1 ≡ db)
        × GetAnswer ctx path_id db (get_trade uuids ctx path_id db).0
  unfolding get_trade get
  get_by_id-GetAnswer ctx path_id id db none calm parsed e =
      (ground arith, inr (inl (id, parsed, e, ground arith)))
  get_by_id-GetAnswer ctx path_id id db (some t) calm parsed e =
      elim (Bool-cases (t.user_id == token_or_nil (user_id ctx))) [
        | inl own ↦ (ground arith, inr (inr (inr (id, t, parsed, e, ground arith, ground arith))))
        | inr other ↦ (ground arith, inr (inr (inl (id, t, parsed, e, ground arith, ground arith))))
      ]

  -- GET /trades/{tradeId} with no failing statement changes nothing and gives one of four answers:
  -- 400 where the path is no UUID, 404 where no row has the id, 403 where the row belongs to another
  -- user, 200 with the row where it is the caller's own.
  pub get_trade-GetAnswer :
      (ctx : Context) (path_id : String) (db : Db F)
      → db.faults ≡ []
      → ((get_trade uuids ctx path_id db).1 ≡ db)
        × GetAnswer ctx path_id db (get_trade uuids ctx path_id db).0
  get_trade-GetAnswer ctx path_id db calm = elim (Option-cases (uuids.parse path_id)) [
    | inl e ↦ (unfold get_trade in ground arith, inl (e, unfold get_trade in ground arith))
    | inr (id, e) ↦
        get_by_id-GetAnswer ctx path_id id db (find_row (has_id id) db.trades) calm e refl
  ]

module _ {F : Type 0} (ops : FloatOps F) (numeric : NumericOps F) (uuids : UuidText) where
  -- A refusal: the status, no event, and the database as it was.
  abbrev Refused : ℕ → Db F → Reply F → Db F → Type 0
  Refused status db r db' = (r.response.status ≡ status) × (r.publishes ≡ none) × (db' ≡ db)

  -- The answers of POST /trades to an input that was decoded.
  abbrev pub CreateAnswer : Bool → Context → TradeInput F → Db F → Reply F → Db F → Type 0
  CreateAnswer has_producer ctx i db r db' =
      ((¬ (IsValid ops i)) × Refused 400 db r db')
      ⊎ (IsValid ops i × (user_id ctx ≡ none) × Refused 401 db r db')
      ⊎ (IsValid ops i
          × ((u : Uuid) × (user_id ctx ≡ some u) × (u ≢ i.user_id))
          × Refused 403 db r db')
      ⊎ (IsValid ops i
          × (user_id ctx ≡ some i.user_id)
          × ((e : Error) × ((insert ops numeric i db).0 ≡ err e))
          × (r.response.status ≡ 500)
          × (r.publishes ≡ none)
          × (db' ≡ (insert ops numeric i db).1))
      ⊎ ((t : Trade F) × (fresh : Bool) × IsValid ops i
          × (user_id ctx ≡ some i.user_id)
          × ((insert ops numeric i db).0 ≡ ok (t, fresh))
          × (r.response ≡ write_json 200 t)
          × (r.publishes ≡ (if has_producer && fresh then some (event_for uuids t) else none))
          × (db' ≡ (insert ops numeric i db).1))

  stored-CreateAnswer :
      (has_producer : Bool) (ctx : Context) (i : TradeInput F) (db : Db F)
      (result : Result (Trade F × Bool))
      → IsValid ops i
      → user_id ctx ≡ some i.user_id
      → (insert ops numeric i db).0 ≡ result
      → CreateAnswer has_producer ctx i db
          (stored_reply ops numeric uuids has_producer ctx result)
          (insert ops numeric i db).1
  stored-CreateAnswer has_producer ctx i db (err e) v u h =
      inr (inr (inr (inl (v, u, (e, h), refl, refl, refl))))
  stored-CreateAnswer has_producer ctx i db (ok (t, fresh)) v u h =
      inr (inr (inr (inr (t, fresh, v, u, h, refl, refl, refl))))

  user-CreateAnswer :
      (has_producer : Bool) (ctx : Context) (i : TradeInput F) (db : Db F) (o : Option Uuid)
      → IsValid ops i
      → user_id ctx ≡ o
      → let r = create_for ops numeric uuids has_producer ctx i o db in
        CreateAnswer has_producer ctx i db r.0 r.1
  user-CreateAnswer has_producer ctx i db none v e = inr (inl (v, e, (refl, refl, refl)))
  user-CreateAnswer has_producer ctx i db (some u) v e = elim (Bool-cases (u == i.user_id)) [
    | inl same ↦ rw same (
        stored-CreateAnswer has_producer ctx i db (insert ops numeric i db).0 v (ground arith) refl)
    | inr other ↦ rw other (inr (inr (inl (v, (u, e, ground arith), (refl, refl, refl)))))
  ]

  valid-CreateAnswer :
      (has_producer : Bool) (ctx : Context) (i : TradeInput F) (db : Db F) (o : Option String)
      → validate ops i ≡ o
      → let r = create_valid ops numeric uuids has_producer ctx i o db in
        CreateAnswer has_producer ctx i db r.0 r.1
  valid-CreateAnswer has_producer ctx i db (some m) e =
      inl ((λ v. cc ((validate-none_iff ops i).1 v, e)), (refl, refl, refl))
  valid-CreateAnswer has_producer ctx i db none e =
      user-CreateAnswer has_producer ctx i db (user_id ctx) ((validate-none_iff ops i).0 e) refl

  -- POST /trades answers a decoded body in one of five ways: 400 where it is not valid, 401 without
  -- a user, 403 for another user's trade, and these three change nothing; for the caller's own valid
  -- trade 500 where Insert fails, and else 200 with the stored trade, with an event for it exactly
  -- where it is new and there is a producer.
  pub create-CreateAnswer :
      (has_producer : Bool) (ctx : Context) (i : TradeInput F) (db : Db F)
      → let r = create ops numeric uuids has_producer ctx (decoded i) db in
        CreateAnswer has_producer ctx i db r.0 r.1
  unfolding create
  create-CreateAnswer has_producer ctx i db =
      valid-CreateAnswer has_producer ctx i db (validate ops i) refl

  user_id-row_of :
      (i : TradeInput F) (now : Time) (t : Trade F)
      → row_of ops numeric i (derive ops i) now ≡ some t
      → t.user_id ≡ i.user_id
  unfolding row_of
  user_id-row_of i now t h = ground arith

  -- The table is unchanged, or has one more row at its end, the caller's own.
  abbrev pub OwnRowOnly : Context → Db F → Db F → Type 0
  OwnRowOnly ctx db db' =
      (db'.trades ≡ db.trades)
      ⊎ ((t : Trade F) × (user_id ctx ≡ some t.user_id) × (db'.trades ≡ (db.trades ++ t ∷ [])))

  insert-OwnRowOnly :
      (ctx : Context) (i : TradeInput F) (db db' : Db F) (r : Result (Trade F × Bool))
      → user_id ctx ≡ some i.user_id
      → Inserted ops numeric i db r db'
      → OwnRowOnly ctx db db'
  insert-OwnRowOnly ctx i db db' (ok (t, true)) u ((row, _, _), _, e) =
      inr (t, u ∙ ap some (sym (user_id-row_of i db.now t row)), e)
  insert-OwnRowOnly ctx i db db' (ok (t, false)) u (_, e, _) = inl e
  insert-OwnRowOnly ctx i db db' (err x) u e = inl e

  -- Whatever is posted and whatever fails, POST /trades leaves every stored trade as it is and adds
  -- at most one, whose owner is the authenticated user.
  pub create-OwnRowOnly :
      (has_producer : Bool) (ctx : Context) (d : Decoded F) (db : Db F)
      → OwnRowOnly ctx db (create ops numeric uuids has_producer ctx d db).1
  create-OwnRowOnly has_producer ctx (malformed e) db = inl (unfold create in refl)
  create-OwnRowOnly has_producer ctx (decoded i) db =
      elim (create-CreateAnswer has_producer ctx i db) [
        | inl (_, (_, _, same)) ↦ inl (ap (λ (x : Db F). x.trades) same)
        | inr (inl (_, _, (_, _, same))) ↦ inl (ap (λ (x : Db F). x.trades) same)
        | inr (inr (inl (_, _, (_, _, same)))) ↦ inl (ap (λ (x : Db F). x.trades) same)
        | inr (inr (inr (inl (_, u, _, _, _, e)))) ↦ rw e (
            insert-OwnRowOnly ctx i db (insert ops numeric i db).1 (insert ops numeric i db).0 u
              (insert-Inserted ops numeric i db))
        | inr (inr (inr (inr (t, fresh, _, u, _, _, _, e)))) ↦ rw e (
            insert-OwnRowOnly ctx i db (insert ops numeric i db).1 (insert ops numeric i db).0 u
              (insert-Inserted ops numeric i db))
      ]
