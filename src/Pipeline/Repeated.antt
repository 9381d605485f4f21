-- ===== src/Pipeline/Repeated.antt =====
-- The idempotent contract of POST /trades (internal/trades/handler.go) over the life of the service:
-- other posts, and the worker (internal/worker/worker.go), act on the tables in between.
use trading_platform_backend.Prelude.{
  ◌≡◌, refl, sym, ap, ◌∙◌, Bool, false, Option, none, some, List, [], ◌∷◌, ◌++◌, find_row,
  Bool-cases, inl, inr,
}
use trading_platform_backend.Database.{Db}
use trading_platform_backend.Httpx.{Context, user_id, write_json}
use trading_platform_backend.Queue.Consumer.{Consumer}
use trading_platform_backend.Trades.Types.{Uuid, Time, TradeInput, Trade}
use trading_platform_backend.Trades.Repo.{has_id, insert}
use trading_platform_backend.Trades.Repo.Idempotence.{
  insert-Inserted, IsStorable-later, after_insert, insert_present,
}
use trading_platform_backend.Trades.Handler.{Decoded, decoded, create}
use trading_platform_backend.Trades.Handler.Tenancy.{OwnRowOnly, create-OwnRowOnly}
use trading_platform_backend.Trades.Handler.Resubmit.{created, create_again}
use trading_platform_backend.Metrics.Posted.{posted}
use trading_platform_backend.Worker.{World, Worker}
use trading_platform_backend.Worker.Loop.{Turn, run}
use trading_platform_backend.Worker.Posted.{run-SamePosted}

module _ {F : Type 0} where
  -- The trade without the two columns that the worker writes.
  abbrev pub unflagged : Trade F → Trade F
  unflagged t = record t { revenge_flag = false; updated_at = 0 }

  -- The trade of the id is there, with the posted and derived columns of t.
  abbrev HasTrade : Uuid → Trade F → List (Trade F) → Type 0
  HasTrade id t ts =
      (u : Trade F) × (find_row (has_id id) ts ≡ some u) × (unflagged u ≡ unflagged t)

  abbrev unflagged_row : Option (Trade F) → Option (Trade F)
  unflagged_row none = none
  unflagged_row (some t) = some (unflagged t)

  find-posted :
      (id : Uuid) (ts : List (Trade F))
      → find_row (has_id id) (posted ts) ≡ unflagged_row (find_row (has_id id) ts)
  find-posted id [] = refl
  find-posted id (t ∷ ts) = elim (Bool-cases (has_id id t)) [
    | inl h ↦ rw h refl
    | inr h ↦ rw h (find-posted id ts)
  ]

  row_of-unflagged :
      (u : Trade F) (o : Option (Trade F))
      → unflagged_row o ≡ some (unflagged u)
      → (v : Trade F) × (o ≡ some v) × (unflagged v ≡ unflagged u)
  row_of-unflagged u none h = absurd (cc h)
  row_of-unflagged u (some v) h = (v, refl, cc h)

  HasTrade-posted :
      (id : Uuid) (t : Trade F) (before after : List (Trade F))
      → posted after ≡ posted before
      → HasTrade id t before
      → HasTrade id t after
  HasTrade-posted id t before after same (u, found, e) =
      let (v, there, f) = row_of-unflagged u (find_row (has_id id) after) (
        sym (find-posted id after)
        ∙ ap (find_row (has_id id)) same
        ∙ find-posted id before
        ∙ ap unflagged_row found) in
      (v, there, f ∙ e)

  find-append :
      (id : Uuid) (u : Trade F) (ts us : List (Trade F))
      → find_row (has_id id) ts ≡ some u
      → find_row (has_id id) (ts ++ us) ≡ some u
  find-append id u [] us h = absurd (cc h)
  find-append id u (t ∷ ts) us h = elim (Bool-cases (has_id id t)) [
    | inl e ↦ rw e (rw e at h)
    | inr e ↦ rw e (find-append id u ts us (rw e at h))
  ]

module _ {F R : Type 0} (w : Worker F R) where
  open w use {floats, numeric, uuids}

  HasTrade-OwnRowOnly :
      (ctx : Context) (id : Uuid) (t : Trade F) (db db' : Db F)
      → OwnRowOnly floats numeric uuids ctx db db'
      → HasTrade id t db.trades
      → HasTrade id t db'.trades
  HasTrade-OwnRowOnly ctx id t db db' (inl same) (u, found, e) =
      (u, ap (find_row (has_id id)) same ∙ found, e)
  HasTrade-OwnRowOnly ctx id t db db' (inr (row, _, more)) (u, found, e) =
      (u, ap (find_row (has_id id)) more ∙ find-append id u db.trades (row ∷ []) found, e)

  -- What may happen to the tables after a state of them: posts of anybody, and runs of the worker, at
  -- any time of the clock and whatever fails.
  pub data Later (db : Db F) : Db F → Type 0 where
    at_once : Later db db
    post :
        {now_db : Db F}
        → Later db now_db
        → (has_producer : Bool) (ctx : Context) (d : Decoded F) (now : Time) (faults : List Bool)
        → Later db
            (create floats numeric uuids has_producer ctx d
              (record now_db { now = now; faults = faults })).1
    work :
        {now_db : Db F}
        → Later db now_db
        → (c : Consumer) (turns : List Turn) (redis : R) (now : Time) (faults : List Bool)
        → Later db
            (run w c turns
              (record { db = record now_db { now = now; faults = faults }; redis = redis })).1.db

  HasTrade-Later :
      (id : Uuid) (t : Trade F) {db db' : Db F}
      → Later db db'
      → HasTrade id t db.trades
      → HasTrade id t db'.trades
  HasTrade-Later id t at_once h = h
  HasTrade-Later id t (post {now_db} so_far has_producer ctx d now faults) h =
      let before : Db F = record now_db { now = now; faults = faults } in
      HasTrade-OwnRowOnly ctx id t before (create floats numeric uuids has_producer ctx d before).1
        (create-OwnRowOnly floats numeric uuids has_producer ctx d before)
        (HasTrade-Later id t so_far h)
  HasTrade-Later id t (work {now_db} so_far c turns redis now faults) h =
      let s : World F R = record {
        db = record now_db { now = now; faults = faults };
        redis = redis;
      } in
      HasTrade-posted id t now_db.trades (run w c turns s).1.db.trades (run-SamePosted w c turns s)
        (HasTrade-Later id t so_far h)

  -- Idempotent contract: when POST /trades answered 200 with trade t, then whatever is posted by
  -- anybody and however long the worker runs in between, at any times of the clock and whatever fails
  -- there, a POST of the same body by the same user, with no failing statement, answers 200 with the
  -- trade t, of which only revenge_flag and updated_at may have changed, starts no publishing goroutine
  -- and changes nothing in the database.
  pub create-Later :
      (has_producer has_producer' : Bool) (ctx ctx' : Context) (i : TradeInput F) (db later : Db F)
      (now : Time) (t : Trade F)
      → (create floats numeric uuids has_producer ctx (decoded i) db).0.response ≡ write_json 200 t
      → Later (create floats numeric uuids has_producer ctx (decoded i) db).1 later
      → user_id ctx' ≡ some i.user_id
      → let db' = record later { now = now; faults = [] } in
        (u : Trade F) × (unflagged u ≡ unflagged t)
        × (create floats numeric uuids has_producer' ctx' (decoded i) db'
            ≡ (record { response = write_json 200 u; publishes = none }, db'))
  create-Later has_producer has_producer' ctx ctx' i db later now t answer so_far own =
      let (valid, _, (fresh, stored), e) =
        created floats numeric uuids has_producer ctx i db t answer in
      let (found, (row, storable)) =
        after_insert floats numeric i db (insert floats numeric i db).1 t fresh
          (rw stored at (insert-Inserted floats numeric i db)) in
      let (u, there, same) =
        HasTrade-Later i.trade_id t so_far
          (t, ap (λ (d : Db F). find_row (has_id i.trade_id) d.trades) e ∙ found, refl) in
      let db' : Db F = record later { now = now; faults = [] } in
      (
        u,
        same,
        create_again floats numeric uuids has_producer' ctx' i db' u valid own (
            insert_present floats numeric i db' u
              (record row { created_at = now; updated_at = now })
              (IsStorable-later floats numeric i db.now now row storable) refl there),
      )
