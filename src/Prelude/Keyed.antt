-- ===== src/Prelude/Keyed.antt =====
-- Tables keyed by a number, and the upsert of a row under its key.
use Prim.Native.Nat.{ℕ}
use mathlib.Core.Path.{◌≡◌, ap, ◌∙◌}
use mathlib.Core.Bool.{Bool, false}
use mathlib.Core.Option.{Option, none, some}
use mathlib.Core.List.{List, [], ◌∷◌}
use mathlib.Core.Logic.{inl, inr}
use native.Mathlib.Omega.{arith}
use trading_platform_backend.Prelude.Tests.{◌==◌, Bool-cases, ==_refl}
use trading_platform_backend.Prelude.Lists.{find_row, upsert_rows, upserted, find_row-upsert_rows}

module _ {R : Type 0} (key : R → ℕ) where
  abbrev pub keyed : ℕ → R → Bool
  keyed id r = key r == id

  -- The row of a key, with a property.
  abbrev pub HasRow : (ℕ → R → Type 0) → List R → ℕ → Type 0
  HasRow Q rows id = (r : R) × (find_row (keyed id) rows ≡ some r) × Q id r

  -- An upsert under another key keeps the row.
  pub find_other :
      (id other : ℕ) (new : R) (f : R → R) (rows : List R)
      → (other == id) ≡ false
      → key new ≡ other
      → ((r : R) → key (f r) ≡ key r)
      → find_row (keyed id) (upsert_rows (keyed other) new f rows) ≡ find_row (keyed id) rows
  find_other id other new f [] differ e keeps = ground arith
  find_other id other new f (r ∷ rows) differ e keeps =
      ground (arith, keeps r, find_other id other new f rows differ e keeps)

  -- An upsert that leaves the row as it is leaves the table as it is.
  pub upsert_rows_same :
      (id : ℕ) (new : R) (f : R → R) (rows : List R)
      → HasRow (λ i r. f r ≡ r) rows id
      → upsert_rows (keyed id) new f rows ≡ rows
  upsert_rows_same id new f [] (r, found, same) = absurd (cc found)
  upsert_rows_same id new f (x ∷ rows) (r, found, same) = elim (Bool-cases (key x == id)) [
    | inl hit ↦
        let e : some x ≡ some r = rw hit at found in
        let first : x ≡ r = cc e in rw hit (ap (λ y. y ∷ rows) (cc (first, same)))
    | inr miss ↦
        let later : find_row (keyed id) rows ≡ some r = rw miss at found in
        rw miss (ap (λ ys. x ∷ ys) (upsert_rows_same id new f rows (r, later, same)))
  ]

module _ {R : Type 0} (key : R → ℕ) (Q : ℕ → R → Type 0) (new : ℕ → R) (set : ℕ → R → R)
    (named : (id : ℕ) → key (new id) ≡ id) (keeps : (id : ℕ) (r : R) → key (set id r) ≡ key r)
    (made : (id : ℕ) → Q id (new id)) (updated : (id : ℕ) (r : R) → Q id (set id r)) where
  abbrev put : ℕ → List R → List R
  put id rows = upsert_rows (keyed key id) (new id) (set id) rows

  upserted-holds : (id : ℕ) (o : Option R) → Q id (upserted (new id) (set id) o)
  upserted-holds id none = made id
  upserted-holds id (some r) = updated id r

  pub HasRow-upsert : (id : ℕ) (rows : List R) → HasRow key Q (put id rows) id
  HasRow-upsert id rows = (
    upserted (new id) (set id) (find_row (keyed key id) rows),
    find_row-upsert_rows (keyed key id) (new id) (set id) rows
        (ap (λ k. k == id) (named id) ∙ ==_refl id) (λ r. ap (λ k. k == id) (keeps id r)),
    upserted-holds id (find_row (keyed key id) rows),
  )

  HasRow-other :
      (id other : ℕ) (rows : List R)
      → (other == id) ≡ false
      → HasRow key Q rows id
      → HasRow key Q (put other rows) id
  HasRow-other id other rows differ (r, found, q) = (
    r,
    find_other key id other (new other) (set other) rows differ (named other) (keeps other) ∙ found,
    q,
  )

  pub HasRow-step :
      (id other : ℕ) (rows : List R) → HasRow key Q rows id → HasRow key Q (put other rows) id
  HasRow-step id other rows row = elim (Bool-cases (other == id)) [
    | inr differ ↦ HasRow-other id other rows differ row
    | inl same ↦ let e : other ≡ id = ground arith in rw e (HasRow-upsert id rows)
  ]
