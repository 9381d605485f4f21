-- ===== src/Trades/Repo/Refinement.antt =====
-- Insert, Get and SetRevengeFlag of internal/trades/repo.go as operations on an abstract store: a
-- function from ids to trades, which forgets the order of the table.
use mathlib.Core.Path.{fun_ext}
use trading_platform_backend.Prelude.{
  ◌≡◌, refl, ap, Bool, true, false, Option, none, some, List, [], ◌∷◌, ◌++◌, arith, ◌==◌,
  if◌then◌else◌, find_row, update_rows, Bool-cases, Option-cases, inl, inr,
}
use trading_platform_backend.External.Float.{FloatOps}
use trading_platform_backend.External.Postgres.{NumericOps}
use trading_platform_backend.Database.{Db}
use trading_platform_backend.Database.Exec.{failed, Result, ok, err}
use trading_platform_backend.Trades.Types.{Uuid, Time, TradeInput, Trade}
use trading_platform_backend.Trades.Repo.{
  derive, row_of, satisfies_checks, has_id, row_or_missing, insert, get, set_revenge_flag,
}
use trading_platform_backend.Trades.Repo.Idempotence.{IsStorable, trade_id-row_of, insert_present}

abbrev pub Store : Type 0 → Type 0
Store F = Uuid → Option (Trade F)

module _ {F : Type 0} where
  -- The store that a table of trades stands for.
  abbrev pub store_of : List (Trade F) → Store F
  store_of ts id = find_row (has_id id) ts

  -- The store changed at one id.
  abbrev pub put : Store F → Uuid → Option (Trade F) → Store F
  put s id o k = if id == k then o else s k

  abbrev pub flagged : Bool → Time → Option (Trade F) → Option (Trade F)
  flagged flag now none = none
  flagged flag now (some t) = some (record t { revenge_flag = flag; updated_at = now })

  lookup-append :
      (t : Trade F) (ts : List (Trade F)) (k : Uuid)
      → find_row (has_id t.trade_id) ts ≡ none
      → find_row (has_id k) (ts ++ t ∷ [])
        ≡ (if t.trade_id == k then some t else find_row (has_id k) ts)
  lookup-append t [] k h = ground arith
  lookup-append t (u ∷ us) k h = ground (arith, lookup-append t us k)

  lookup-flag :
      (id : Uuid) (flag : Bool) (now : Time) (ts : List (Trade F)) (k : Uuid)
      → find_row
          (has_id k)
          (update_rows (has_id id) (λ t. record t { revenge_flag = flag; updated_at = now }) ts)
        ≡ (if id == k then flagged flag now (find_row (has_id id) ts) else find_row (has_id k) ts)
  lookup-flag id flag now [] k = ground arith
  lookup-flag id flag now (u ∷ us) k = elim (Bool-cases (u.trade_id == id)) [
    | inl hit ↦ rw hit (ground (arith, lookup-flag id flag now us k))
    | inr miss ↦ rw miss (ground (arith, lookup-flag id flag now us k))
  ]

  lookup-inserted :
      (i : TradeInput F) (t : Trade F) (ts : List (Trade F)) (k : Uuid)
      → t.trade_id ≡ i.trade_id
      → find_row (has_id i.trade_id) ts ≡ none
      → find_row (has_id k) (ts ++ t ∷ [])
        ≡ (if i.trade_id == k then some t else find_row (has_id k) ts)
  lookup-inserted i t ts k same absent = rw (← same) (lookup-append t ts k (rw same absent))

-- The calls of the repository, and the passing of time.
pub data Op (F : Type 0) : Type 0 where
  insert_op : TradeInput F → Op F
  get_op : Uuid → Op F
  flag_op : Uuid → Bool → Op F
  tick : Time → Op F

pub data Answer (F : Type 0) : Type 0 where
  inserted : Result (Trade F × Bool) → Answer F
  got : Result (Trade F) → Answer F
  quiet : Answer F

module _ {F : Type 0} (ops : FloatOps F) (numeric : NumericOps F) where
  -- One call on the database.
  abbrev pub step : Op F → Db F → Answer F × Db F
  step (insert_op i) db = (inserted (insert ops numeric i db).0, (insert ops numeric i db).1)
  step (get_op id) db = (got (get id db).0, (get id db).1)
  step (flag_op id flag) db = (quiet, (set_revenge_flag id flag db).1)
  step (tick later) db = (quiet, record db { now = later })

  -- The row of a body, where the table accepts it.
  abbrev pub accepted : Option (Trade F) → Option (Trade F)
  accepted none = none
  accepted (some t) = if satisfies_checks ops numeric t then some t else none

  abbrev insert_new : Store F → Uuid → Option (Trade F) → Option (Trade F) → Answer F × Store F
  insert_new s id none old = (inserted (err failed), s)
  insert_new s id (some t) none = (inserted (ok (t, true)), put s id (some t))
  insert_new s id (some t) (some old) = (inserted (ok (old, false)), s)

  -- The same call on an abstract store: Insert adds what is absent, and answers what is stored.
  abbrev pub spec : Op F → Time × Store F → Answer F × (Time × Store F)
  spec (insert_op i) (now, s) =
      let (a, s') =
        insert_new s i.trade_id (accepted (row_of ops numeric i (derive ops i) now))
          (s i.trade_id) in
      (a, (now, s'))
  spec (get_op id) (now, s) = (got (row_or_missing (s id)), (now, s))
  spec (flag_op id flag) (now, s) = (quiet, (now, put s id (flagged flag now (s id))))
  spec (tick later) (now, s) = (quiet, (later, s))

  -- The abstract state of a database.
  abbrev pub view : Db F → Time × Store F
  view db = (db.now, store_of db.trades)

  -- An answer and a database match an answer and an abstract state, and no failure is to come.
  pub record Matches (r : Answer F × Db F) (a : Answer F × (Time × Store F)) : Type 0 where
    pub answer : r.0 ≡ a.0
    pub state : view r.1 ≡ a.1
    pub calm : r.1.faults ≡ []

  insert_rejected :
      (i : TradeInput F) (db : Db F)
      → db.faults ≡ []
      → accepted (row_of ops numeric i (derive ops i) db.now) ≡ none
      → insert ops numeric i db ≡ (err failed, db)
  unfolding insert
  insert_rejected i db calm h = ground arith

  pub insert_fresh :
      (i : TradeInput F) (db : Db F) (t : Trade F)
      → db.faults ≡ []
      → accepted (row_of ops numeric i (derive ops i) db.now) ≡ some t
      → t.trade_id ≡ i.trade_id
      → find_row (has_id i.trade_id) db.trades ≡ none
      → insert ops numeric i db ≡ (ok (t, true), record db { trades = db.trades ++ t ∷ [] })
  unfolding insert
  insert_fresh i db t calm h same absent = ground arith

  accepted-IsStorable :
      (i : TradeInput F) (now : Time) (t : Trade F)
      → accepted (row_of ops numeric i (derive ops i) now) ≡ some t
      → IsStorable ops numeric i now t
  accepted-IsStorable i now t h = elim (Option-cases (row_of ops numeric i (derive ops i) now)) [
    | inl e ↦ absurd (cc (rw e at h))
    | inr (u, e) ↦ elim (Bool-cases (satisfies_checks ops numeric u)) [
      | inl checks ↦
          let same : u ≡ t = ground arith in
          rw (← same) (e, checks, trade_id-row_of ops numeric i (derive ops i) now u e)
      | inr bad ↦ absurd (ground arith)
    ]
  ]

  insert-refines :
      (i : TradeInput F) (db : Db F)
      → db.faults ≡ []
      → Matches (step (insert_op i) db) (spec (insert_op i) (view db))
  insert-refines i db calm =
      elim (Option-cases (accepted (row_of ops numeric i (derive ops i) db.now))) [
        | inl e ↦
            rw (e, insert_rejected i db calm e)
              (record { answer = refl; state = refl; calm = calm })
        | inr (t, e) ↦
            let storable = accepted-IsStorable i db.now t e in
            elim (Option-cases (find_row (has_id i.trade_id) db.trades)) [
              | inr (old, present) ↦
                  rw (e, present, insert_present ops numeric i db old t storable calm present)
                    (record { answer = refl; state = refl; calm = calm })
              | inl absent ↦
                  rw (e, absent, insert_fresh i db t calm e storable.2 absent)
                    (record {
                      answer = refl;
                      state =
                          ap (λ (st : Store F). (db.now, st))
                            (fun_ext (λ k. lookup-inserted i t db.trades k storable.2 absent));
                      calm = calm;
                    })
            ]
      ]

  step-refines : (op : Op F) (db : Db F) → db.faults ≡ [] → Matches (step op db) (spec op (view db))
  unfolding get set_revenge_flag
  step-refines (insert_op i) db calm = insert-refines i db calm
  step-refines (get_op id) db calm = rw calm (record { answer = refl; state = refl; calm = refl })
  step-refines (flag_op id flag) db calm = rw calm (record {
    answer = refl;
    state = ap (λ (st : Store F). (db.now, st)) (fun_ext (lookup-flag id flag db.now db.trades));
    calm = refl;
  })
  step-refines (tick later) db calm = record { answer = refl; state = refl; calm = calm }

  -- A run of calls, on the database and on the abstract store.
  pub run_ops : List (Op F) → Db F → List (Answer F) × Db F
  run_ops [] db = ([], db)
  run_ops (op ∷ rest) db =
      let later = run_ops rest (step op db).1 in ((step op db).0 ∷ later.0, later.1)

  pub run_spec : List (Op F) → Time × Store F → List (Answer F) × (Time × Store F)
  run_spec [] s = ([], s)
  run_spec (op ∷ rest) s =
      let later = run_spec rest (spec op s).1 in ((spec op s).0 ∷ later.0, later.1)

  -- Refinement: with no failing statement, every sequence of Insert, Get and SetRevengeFlag, at any
  -- times of the clock, gives the answers of an abstract store, a function from ids to trades in
  -- which an insert adds only what is absent, and ends in a table that stands for the store's state.
  pub run_ops-refines :
      (todo : List (Op F)) (db : Db F)
      → db.faults ≡ []
      → ((run_ops todo db).0 ≡ (run_spec todo (view db)).0)
        × (view (run_ops todo db).1 ≡ (run_spec todo (view db)).1)
  unfolding run_ops run_spec
  run_ops-refines [] db calm = (refl, refl)
  run_ops-refines (op ∷ rest) db calm =
      let first = step-refines op db calm in
      let later = run_ops-refines rest (step op db).1 first.calm in
      rw (← first.state, ← first.answer)
        (ap (λ (rs : List (Answer F)). (step op db).0 ∷ rs) later.0, later.1)
