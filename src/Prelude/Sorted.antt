-- ===== src/Prelude/Sorted.antt =====
-- What ORDER BY and LIMIT select: the rows of the table in another order, the first ones no later in
-- the order than the others.
use Prim.Native.Nat.{ℕ, zero, suc}
use mathlib.Core.Path.{◌≡◌, refl, ap}
use mathlib.Core.Bool.{Bool, true, false, not}
use mathlib.Core.Logic.{inl, inr}
use mathlib.Core.List.Perm
use mathlib.Core.List.{List, [], ◌∷◌, ◌++◌, Perm, perm_middle}
use trading_platform_backend.Prelude.Tests.{Bool-cases}
use trading_platform_backend.Prelude.Lists.{All, take, where_rows}
use trading_platform_backend.Prelude.Order.{insert_by, order_by, All-insert_by}

module _ {A : Type 0} where
  abbrev pub drop : ℕ → List A → List A
  drop zero xs = xs
  drop (suc n) [] = []
  drop (suc n) (x ∷ xs) = drop n xs

  pub take-drop : (n : ℕ) (xs : List A) → take n xs ++ drop n xs ≡ xs
  take-drop zero xs = refl
  take-drop (suc n) [] = refl
  take-drop (suc n) (x ∷ xs) = ap (λ ys. x ∷ ys) (take-drop n xs)

  -- The rows that pass a test, and behind them those that do not.
  pub where_rows-perm :
      (p : A → Bool) (xs : List A) → Perm (where_rows p xs ++ where_rows (λ x. not (p x)) xs) xs
  where_rows-perm p [] = Perm.nil
  where_rows-perm p (x ∷ xs) = elim (Bool-cases (p x)) [
    | inl h ↦ rw h (Perm.cons x (where_rows-perm p xs))
    | inr h ↦ rw h (
        Perm.trans (perm_middle (where_rows p xs) (where_rows (λ y. not (p y)) xs))
          (Perm.cons x (where_rows-perm p xs)))
  ]

  pub All-where :
      (p : A → Bool) (P : A → Type 0)
      → ((x : A) → p x ≡ true → P x)
      → (xs : List A) → All P (where_rows p xs)
  All-where p P keep [] = tt
  All-where p P keep (x ∷ xs) = elim (Bool-cases (p x)) [
    | inl h ↦ rw h (keep x h, All-where p P keep xs)
    | inr h ↦ rw h (All-where p P keep xs)
  ]

  pub All-take : (P : A → Type 0) (n : ℕ) (xs : List A) → All P xs → All P (take n xs)
  All-take P zero xs a = tt
  All-take P (suc n) [] a = tt
  All-take P (suc n) (x ∷ xs) a = (a.0, All-take P n xs a.1)

  pub All-drop : (P : A → Type 0) (n : ℕ) (xs : List A) → All P xs → All P (drop n xs)
  All-drop P zero xs a = a
  All-drop P (suc n) [] a = tt
  All-drop P (suc n) (x ∷ xs) a = All-drop P n xs a.1

  pub All-map : (P Q : A → Type 0) → ((x : A) → P x → Q x) → (xs : List A) → All P xs → All Q xs
  All-map P Q f [] a = tt
  All-map P Q f (x ∷ xs) a = (f x a.0, All-map P Q f xs a.1)

module _ {A : Type 0} (before : A → A → Bool) where
  insert_by-perm : (x : A) (ys : List A) → Perm (insert_by before x ys) (x ∷ ys)
  insert_by-perm x [] = Perm.refl (x ∷ [])
  insert_by-perm x (y ∷ ys) = elim (Bool-cases (before y x)) [
    | inl h ↦ rw h (Perm.trans (Perm.cons y (insert_by-perm x ys)) (Perm.swap x y ys))
    | inr h ↦ rw h (Perm.refl (x ∷ y ∷ ys))
  ]

  pub order_by-perm : (xs : List A) → Perm (order_by before xs) xs
  order_by-perm [] = Perm.nil
  order_by-perm (x ∷ xs) =
      Perm.trans (insert_by-perm x (order_by before xs)) (Perm.cons x (order_by-perm xs))

  -- No row is before one that stands in front of it.
  abbrev pub IsOrdered : List A → Type 0
  IsOrdered [] = Unit {0}
  IsOrdered (x ∷ xs) = All (λ y. before y x ≡ false) xs × IsOrdered xs

  pub IsOrdered-take :
      (n : ℕ) (xs : List A)
      → IsOrdered xs
      → All (λ x. All (λ y. before y x ≡ false) (drop n xs)) (take n xs)
  IsOrdered-take zero xs s = tt
  IsOrdered-take (suc n) [] s = tt
  IsOrdered-take (suc n) (x ∷ xs) s =
      (All-drop (λ y. before y x ≡ false) n xs s.0, IsOrdered-take n xs s.1)

  module _ (asymm : (x y : A) → before x y ≡ true → before y x ≡ false)
      (not_trans : (x y z : A) → before z y ≡ false → before y x ≡ false → before z x ≡ false) where
    insert_by-IsOrdered : (x : A) (ys : List A) → IsOrdered ys → IsOrdered (insert_by before x ys)
    insert_by-IsOrdered x [] s = (tt, tt)
    insert_by-IsOrdered x (y ∷ ys) s = elim (Bool-cases (before y x)) [
      | inl h ↦ rw h (
        All-insert_by before (λ z. before z y ≡ false) x ys (asymm y x h) s.0,
        insert_by-IsOrdered x ys s.1,
      )
      | inr h ↦ rw h (
        (
          h,
          All-map (λ z. before z y ≡ false) (λ z. before z x ≡ false) (λ z e. not_trans x y z e h)
              ys s.0,
        ),
        s,
      )
    ]

    pub order_by-IsOrdered : (xs : List A) → IsOrdered (order_by before xs)
    order_by-IsOrdered [] = tt
    order_by-IsOrdered (x ∷ xs) = insert_by-IsOrdered x (order_by before xs) (order_by-IsOrdered xs)
