-- ===== src/Trades/Repo/Idempotence.antt =====
-- Insert and Get of internal/trades/repo.go: every branch, the table's invariant, idempotence.
use trading_platform_backend.Prelude.{
  ◌≡◌, refl, sym, ◌∙◌, ap, Bool, true, false, Option, none, some, List, [], ◌∷◌, ◌++◌, arith, ◌==◌,
  find_row, Bool-cases, inl, inr, All, All-append_one,
}
use trading_platform_backend.External.Float.{FloatOps}
use trading_platform_backend.External.Postgres.{NumericOps}
use trading_platform_backend.Database.{Db}
use trading_platform_backend.Database.Exec.{
  no_rows, not_found, failed, Result, ok, err, attempt, continue, pure,
}
use trading_platform_backend.Trades.Types.{Uuid, Time, TradeInput, Trade}
use trading_platform_backend.Trades.Repo.{
  Derived, derive, row_of, satisfies_checks, has_id, append_unless_present, checked_insert,
  insert_statement, finish_insert, row_or_missing, insert, get,
}

module _ {F : Type 0} where
  -- No two rows have the same trade_id.
  abbrev pub DistinctIds : List (Trade F) → Type 0
  DistinctIds [] = Unit
  DistinctIds (t ∷ ts) = (find_row (has_id t.trade_id) ts ≡ none) × DistinctIds ts

  pub find_row-append :
      (id : Uuid) (t : Trade F) (ts : List (Trade F))
      → find_row (has_id id) ts ≡ none
      → t.trade_id ≡ id
      → find_row (has_id id) (ts ++ t ∷ []) ≡ some t
  find_row-append id t [] h e = ground arith
  find_row-append id t (u ∷ ts) h e = ground (arith, find_row-append id t ts)

  find_row-append_other :
      (id : Uuid) (t : Trade F) (ts : List (Trade F))
      → find_row (has_id id) ts ≡ none
      → (t.trade_id == id) ≡ false
      → find_row (has_id id) (ts ++ t ∷ []) ≡ none
  find_row-append_other id t [] h e = ground arith
  find_row-append_other id t (u ∷ ts) h e = ground (arith, find_row-append_other id t ts)

  DistinctIds-append :
      (t : Trade F) (ts : List (Trade F))
      → DistinctIds ts
      → find_row (has_id t.trade_id) ts ≡ none
      → DistinctIds (ts ++ t ∷ [])
  DistinctIds-append t [] d h = (refl, tt)
  DistinctIds-append t (u ∷ ts) d h = (
    find_row-append_other u.trade_id t ts d.0 (ground arith),
    DistinctIds-append t ts d.1 (ground arith),
  )

module _ {F : Type 0} (ops : FloatOps F) (numeric : NumericOps F) where
  -- The primary key and the CHECK clauses hold of every row.
  pub record IsTable (ts : List (Trade F)) : Type 0 where
    pub distinct : DistinctIds ts
    pub checked : All (λ t. satisfies_checks ops numeric t ≡ true) ts

  -- The body describes a row that the table accepts.
  abbrev pub IsStorable : TradeInput F → Time → Trade F → Type 0
  IsStorable i now t =
      (row_of ops numeric i (derive ops i) now ≡ some t)
      × (satisfies_checks ops numeric t ≡ true)
      × (t.trade_id ≡ i.trade_id)

  -- What Insert promises on each of its three ways out.
  abbrev pub Inserted : TradeInput F → Db F → Result (Trade F × Bool) → Db F → Type 0
  Inserted i db (ok (t, true)) db' =
      IsStorable i db.now t
      × (find_row (has_id i.trade_id) db.trades ≡ none)
      × (db'.trades ≡ (db.trades ++ t ∷ []))
  Inserted i db (ok (t, false)) db' =
      (find_row (has_id i.trade_id) db.trades ≡ some t)
      × (db'.trades ≡ db.trades)
      × ((u : Trade F) × IsStorable i db.now u)
  Inserted i db (err e) db' = db'.trades ≡ db.trades

  pub trade_id-row_of :
      (i : TradeInput F) (d : Derived F) (now : Time) (t : Trade F)
      → row_of ops numeric i d now ≡ some t
      → t.trade_id ≡ i.trade_id
  unfolding row_of
  trade_id-row_of i d now t h = ground arith

  -- What the INSERT statement alone does.
  abbrev Attempted : TradeInput F → Db F → Result (Trade F) → Db F → Type 0
  Attempted i db (ok t) db' =
      IsStorable i db.now t
      × (find_row (has_id i.trade_id) db.trades ≡ none)
      × (db'.trades ≡ (db.trades ++ t ∷ []))
  Attempted i db (err no_rows) db' =
      ((t : Trade F) × (find_row (has_id i.trade_id) db.trades ≡ some t))
      × ((u : Trade F) × IsStorable i db.now u)
      × (db'.trades ≡ db.trades)
  Attempted i db (err _) db' = db'.trades ≡ db.trades

  present-Attempted :
      (i : TradeInput F) (db : Db F) (t : Trade F) (o : Option (Trade F))
      → find_row (has_id t.trade_id) db.trades ≡ o
      → IsStorable i db.now t
      → Attempted i db (append_unless_present o t db).0 (append_unless_present o t db).1
  present-Attempted i db t none e s =
      (s, ap (λ k. find_row (has_id k) db.trades) (sym s.2) ∙ e, refl)
  present-Attempted i db t (some old) e s =
      ((old, ap (λ k. find_row (has_id k) db.trades) (sym s.2) ∙ e), (t, s), refl)

  checked-Attempted :
      (i : TradeInput F) (db : Db F) (o : Option (Trade F))
      → row_of ops numeric i (derive ops i) db.now ≡ o
      → Attempted i db (checked_insert ops numeric o db).0 (checked_insert ops numeric o db).1
  checked-Attempted i db none e = refl
  checked-Attempted i db (some t) e = elim (Bool-cases (satisfies_checks ops numeric t)) [
    | inl h ↦ rw h (
        present-Attempted i db t (find_row (has_id t.trade_id) db.trades) refl
          (e, h, trade_id-row_of i (derive ops i) db.now t e))
    | inr h ↦ rw h refl
  ]

  statement-Attempted :
      (i : TradeInput F) (faults : List Bool) (db : Db F)
      → let run =
          λ (d : Db F). checked_insert ops numeric (row_of ops numeric i (derive ops i) d.now) d in
        Attempted i db (attempt faults run db).0 (attempt faults run db).1
  statement-Attempted i [] db =
      checked-Attempted i db (row_of ops numeric i (derive ops i) db.now) refl
  statement-Attempted i (true ∷ later) db = refl
  statement-Attempted i (false ∷ later) db =
      checked-Attempted i (record db { faults = later })
        (row_of ops numeric i (derive ops i) db.now) refl

  fetch-Inserted :
      (i : TradeInput F) (db db' : Db F) (faults : List Bool)
      → Attempted i db (err no_rows) db'
      → let r =
          attempt faults
            (λ (d : Db F). (row_or_missing (find_row (has_id i.trade_id) d.trades), d))
            db' in
        Inserted i db
          (continue r.0 (λ got. pure {A = Trade F × Bool} (got, false)) r.1).0
          (continue r.0 (λ got. pure {A = Trade F × Bool} (got, false)) r.1).1
  fetch-Inserted i db db' [] ((t, e), u, same) =
      rw (ap (find_row (has_id i.trade_id)) same ∙ e) (e, same, u)
  fetch-Inserted i db db' (true ∷ later) ((t, e), u, same) = same
  fetch-Inserted i db db' (false ∷ later) ((t, e), u, same) =
      rw (ap (find_row (has_id i.trade_id)) same ∙ e) (e, same, u)

  finish-Inserted :
      (i : TradeInput F) (db db' : Db F) (r : Result (Trade F))
      → Attempted i db r db'
      → Inserted i db
          (finish_insert ops numeric i.trade_id r db').0
          (finish_insert ops numeric i.trade_id r db').1
  unfolding get
  finish-Inserted i db db' (ok t) a = a
  finish-Inserted i db db' (err no_rows) a = fetch-Inserted i db db' db'.faults a
  finish-Inserted i db db' (err not_found) a = a
  finish-Inserted i db db' (err failed) a = a

  -- On every way out of Insert, whatever fails: a new row is the storable row of the body, its id
  -- was free, and it is the only change of the table; a row that was there is the stored row of the
  -- id, and the table is unchanged, as it is on an error.
  pub insert-Inserted :
      (i : TradeInput F) (db : Db F)
      → Inserted i db (insert ops numeric i db).0 (insert ops numeric i db).1
  unfolding insert
  insert-Inserted i db =
      finish-Inserted i db (insert_statement ops numeric i db).1
        (insert_statement ops numeric i db).0 (statement-Attempted i db.faults db)

  -- Insert keeps the table's primary key and CHECK clauses, whatever the body, on success and on
  -- every failure.
  pub insert-IsTable :
      (i : TradeInput F) (db : Db F)
      → IsTable db.trades
      → IsTable (insert ops numeric i db).1.trades
  insert-IsTable i db h =
      go (insert ops numeric i db).0 (insert ops numeric i db).1 (insert-Inserted i db)
    where
      go : (r : Result (Trade F × Bool)) (db' : Db F) → Inserted i db r db' → IsTable db'.trades
      go (ok (t, true)) db' ((row, checks, same), fresh, e) = rw e (record {
        distinct =
            DistinctIds-append t db.trades h.distinct
              (ap (λ k. find_row (has_id k) db.trades) same ∙ fresh);
        checked =
            All-append_one (λ u. satisfies_checks ops numeric u ≡ true) t db.trades h.checked
              checks;
      })
      go (ok (t, false)) db' (found, e, _) = rw e h
      go (err x) db' e = rw e h

  -- The VALUES list depends on the clock in its two time stamps only.
  pub IsStorable-later :
      (i : TradeInput F) (now later : Time) (u : Trade F)
      → IsStorable i now u
      → IsStorable i later (record u { created_at = later; updated_at = later })
  unfolding row_of satisfies_checks
  IsStorable-later i now later u (row, checks, same) = (ground arith, checks, same)

  pub insert_present :
      (i : TradeInput F) (db : Db F) (t u : Trade F)
      → IsStorable i db.now u
      → db.faults ≡ []
      → find_row (has_id i.trade_id) db.trades ≡ some t
      → insert ops numeric i db ≡ (ok (t, false), db)
  unfolding insert get
  insert_present i db t u s calm found = ground (arith)

  -- The table after a successful Insert: the row of this id is the one that was returned, and the
  -- body is one that the table accepts.
  pub after_insert :
      (i : TradeInput F) (db db' : Db F) (t : Trade F) (fresh : Bool)
      → Inserted i db (ok (t, fresh)) db'
      → (find_row (has_id i.trade_id) db'.trades ≡ some t) × ((u : Trade F) × IsStorable i db.now u)
  after_insert i db db' t true ((row, checks, same), absent, e) =
      (rw e (find_row-append i.trade_id t db.trades absent same), (t, (row, checks, same)))
  after_insert i db db' t false (found, e, s) = (rw e found, s)

  -- When a body was stored or found (result t), a second Insert of it into the tables that this left,
  -- at any time of the database clock and with no failing statement, returns t with inserted = false,
  -- and changes nothing.
  pub insert-insert :
      (i : TradeInput F) (db : Db F) (later : Time) (t : Trade F) (fresh : Bool)
      → (insert ops numeric i db).0 ≡ ok (t, fresh)
      → let db' = record (insert ops numeric i db).1 { now = later; faults = [] } in
        insert ops numeric i db' ≡ (ok (t, false), db')
  insert-insert i db later t fresh h =
      let db' : Db F = record (insert ops numeric i db).1 { now = later; faults = [] } in
      let (found, body) =
        after_insert i db (insert ops numeric i db).1 t fresh (rw h at (insert-Inserted i db)) in
      insert_present i db' t (record body.0 { created_at = later; updated_at = later })
        (IsStorable-later i db.now later body.0 body.1) refl found

  -- Round trip: the trade that Insert returned is what Get returns for its id afterwards.
  get-insert :
      (i : TradeInput F) (db : Db F) (t : Trade F) (fresh : Bool)
      → (insert ops numeric i db).0 ≡ ok (t, fresh)
      → let db' = record (insert ops numeric i db).1 { faults = [] } in
        get i.trade_id db' ≡ (ok t, db')
  unfolding get
  get-insert i db t fresh h =
      let (found, _) =
        after_insert i db (insert ops numeric i db).1 t fresh (rw h at (insert-Inserted i db)) in
      ground (arith, found)
