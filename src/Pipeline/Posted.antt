-- ===== src/Pipeline/Posted.antt =====
-- A closed trade on its way from POST /trades through the stream and the worker.
use mathlib.Core.Path.{subst}
use trading_platform_backend.Prelude.{
  ◌≡◌, inl, inr, refl, ap, sym, ◌∙◌, Bool, true, false, none, some, [], ◌∷◌, ◌++◌, arith,
  if◌then◌else◌, find_row,
}
use trading_platform_backend.External.Float.{FloatOps}
use trading_platform_backend.External.Postgres.{NumericOps}
use trading_platform_backend.External.Uuid.{UuidText}
use trading_platform_backend.Database.{Db}
use trading_platform_backend.Database.Exec.{Result, ok}
use trading_platform_backend.Httpx.{Context}
use trading_platform_backend.Queue.Event.{Event}
use trading_platform_backend.Trades.Types.{Time, TradeInput, Trade}
use trading_platform_backend.Trades.Validate.Rules.{IsValid}
use trading_platform_backend.Trades.Repo.{has_id, derive, row_of, insert}
use trading_platform_backend.Trades.Repo.Idempotence.{IsStorable, Inserted, insert-Inserted}
use trading_platform_backend.Trades.Repo.Refinement.{insert_fresh}
use trading_platform_backend.Trades.Handler.{decoded, event_for, create}
use trading_platform_backend.Trades.Handler.Tenancy.{create-CreateAnswer}

module _ {F : Type 0} (ops : FloatOps F) (numeric : NumericOps F) (uuids : UuidText) where
  -- What a POST has done that started to publish this event: the body is valid, and its row is new.
  pub record IsPosted (i : TradeInput F) (db : Db F) (ev : Event) (db' : Db F) : Type 0 where
    pub stored : Trade F
    pub valid : IsValid ops i
    pub storable : IsStorable ops numeric i db.now stored
    pub absent : find_row (has_id i.trade_id) db.trades ≡ none
    pub event : ev ≡ event_for uuids stored
    pub tables : db' ≡ record db { trades = db.trades ++ stored ∷ [] }

  IsPosted-Inserted :
      (i : TradeInput F) (db : Db F) (ev : Event) (db' : Db F) (t : Trade F) (fresh : Bool)
      → db.faults ≡ []
      → IsValid ops i
      → (insert ops numeric i db).0 ≡ ok (t, fresh)
      → Inserted ops numeric i db (ok (t, fresh)) (insert ops numeric i db).1
      → (if fresh then some (event_for uuids t) else none) ≡ some ev
      → db' ≡ (insert ops numeric i db).1
      → IsPosted i db ev db'
  IsPosted-Inserted i db ev db' t false calm valid ins how e same = absurd (cc e)
  IsPosted-Inserted i db ev db' t true calm valid ins (storable, absent, table) e same =
      let (row, checks, id) = storable in
      record {
        stored = t;
        valid = valid;
        storable = storable;
        absent = absent;
        event = cc e;
        tables =
            same
            ∙ ap (λ (out : Result (Trade F × Bool) × Db F). out.1)
                (insert_fresh ops numeric i db t calm (rw (row, checks) refl) id absent);
      }

  pub create-IsPosted :
      (ctx : Context) (i : TradeInput F) (db : Db F) (ev : Event)
      → db.faults ≡ []
      → (create ops numeric uuids true ctx (decoded i) db).0.publishes ≡ some ev
      → IsPosted i db ev (create ops numeric uuids true ctx (decoded i) db).1
  create-IsPosted ctx i db ev calm published =
      let out = create ops numeric uuids true ctx (decoded i) db in
      elim (create-CreateAnswer ops numeric uuids true ctx i db) [
        | inl (_, (_, silent, _)) ↦ absurd (cc (silent, published))
        | inr (inl (_, _, (_, silent, _))) ↦ absurd (cc (silent, published))
        | inr (inr (inl (_, _, (_, silent, _)))) ↦ absurd (cc (silent, published))
        | inr (inr (inr (inl (_, _, _, _, silent, _)))) ↦ absurd (cc (silent, published))
        | inr (inr (inr (inr (t, fresh, valid, _, ins, _, pub_ev, same)))) ↦
            IsPosted-Inserted i db ev out.1 t fresh calm valid ins
              (subst (λ r. Inserted ops numeric i db r (insert ops numeric i db).1) ins
                (insert-Inserted ops numeric i db))
              (sym pub_ev ∙ published) same
      ]

  -- The columns of a body that its row repeats.
  pub record HasColumns (i : TradeInput F) (t : Trade F) : Type 0 where
    pub trade_id : t.trade_id ≡ i.trade_id
    pub user_id : t.user_id ≡ i.user_id
    pub session_id : t.session_id ≡ i.session_id
    pub status : t.status ≡ i.status
    pub exit_at : t.exit_at ≡ i.exit_at
    pub emotional_state : t.emotional_state ≡ i.emotional_state
    pub outcome : t.outcome ≡ (derive ops i).outcome

  pub row_of-HasColumns :
      (i : TradeInput F) (now : Time) (t : Trade F)
      → row_of ops numeric i (derive ops i) now ≡ some t
      → HasColumns i t
  unfolding row_of
  row_of-HasColumns i now t h = ground arith
