-- ===== src/Prelude/Order.antt =====
-- ORDER BY: a stable insertion sort. Rows that compare equal keep the order of the table, which is
-- one of the orders that SQL allows.
use trading_platform_backend.Prelude.Tests.{if◌then◌else◌, Bool-cases}
use trading_platform_backend.Prelude.Lists.{All, length}
use mathlib.Core.Path.{◌≡◌, refl}
use mathlib.Core.Bool.{Bool}
use mathlib.Core.Logic.{inl, inr}
use mathlib.Core.List.{List, [], ◌∷◌}
use native.Mathlib.Omega.{arith}

module _ {A : Type 0} (before : A → A → Bool) where
  -- `x` goes in front of the first row that is not strictly before it.
  abbrev pub insert_by : A → List A → List A
  insert_by x [] = x ∷ []
  insert_by x (y ∷ ys) = let rest = insert_by x ys in if before y x then y ∷ rest else x ∷ y ∷ ys

  abbrev pub order_by : List A → List A
  order_by [] = []
  order_by (x ∷ xs) = insert_by x (order_by xs)

  pub length-insert_by : (x : A) (ys : List A) → length (insert_by x ys) ≡ length (x ∷ ys)
  length-insert_by x [] = refl
  length-insert_by x (y ∷ ys) = ground (arith, length-insert_by x ys)

  pub length-order_by : (xs : List A) → length (order_by xs) ≡ length xs
  length-order_by [] = refl
  length-order_by (x ∷ xs) = omega (arith, length-insert_by x (order_by xs), length-order_by xs)

  pub All-insert_by :
      (P : A → Type 0) (x : A) (ys : List A) → P x → All P ys → All P (insert_by x ys)
  All-insert_by P x [] p a = (p, tt)
  All-insert_by P x (y ∷ ys) p a = elim (Bool-cases (before y x)) [
    | inl h ↦ rw h (a.0, All-insert_by P x ys p a.1)
    | inr h ↦ rw h (p, a)
  ]

  pub All-order_by : (P : A → Type 0) (xs : List A) → All P xs → All P (order_by xs)
  All-order_by P [] a = tt
  All-order_by P (x ∷ xs) a = All-insert_by P x (order_by xs) a.0 (All-order_by P xs a.1)

  All-of-insert_by :
      (P : A → Type 0) (x : A) (ys : List A) → All P (insert_by x ys) → P x × All P ys
  All-of-insert_by P x [] a = a
  All-of-insert_by P x (y ∷ ys) a = elim (Bool-cases (before y x)) [
    | inl h ↦
        let b : All P (y ∷ insert_by x ys) = rw h at a in
        let rest = All-of-insert_by P x ys b.1 in (rest.0, (b.0, rest.1))
    | inr h ↦ let b : All P (x ∷ y ∷ ys) = rw h at a in b
  ]

  pub All-of-order_by : (P : A → Type 0) (xs : List A) → All P (order_by xs) → All P xs
  All-of-order_by P [] a = tt
  All-of-order_by P (x ∷ xs) a =
      let parts = All-of-insert_by P x (order_by xs) a in (parts.0, All-of-order_by P xs parts.1)

module _ {A : Type 0} (P : A → Type 0) (before before' : A → A → Bool)
    (agree : (x y : A) → P x → P y → before x y ≡ before' x y) where
  insert_by_same :
      (x : A) (ys : List A) → P x → All P ys → insert_by before x ys ≡ insert_by before' x ys
  insert_by_same x [] p a = refl
  insert_by_same x (y ∷ ys) p a = rw (agree y x a.0 p, insert_by_same x ys p a.1) refl

  -- Two orders that agree on the rows sort them alike.
  pub order_by_same : (xs : List A) → All P xs → order_by before xs ≡ order_by before' xs
  order_by_same [] a = refl
  order_by_same (x ∷ xs) a =
      rw (order_by_same xs a.1)
        (insert_by_same x (order_by before' xs) a.0 (All-order_by before' P xs a.1))
