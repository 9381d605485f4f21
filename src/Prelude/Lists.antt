-- ===== src/Prelude/Lists.antt =====
-- Lists measured by native numbers and filtered by Boolean tests.
use Prim.Native.Nat.{ℕ, zero, suc, ◌+◌, ◌≤◌}
use mathlib.Core.Path.{◌≡◌, refl, ◌∙◌}
use mathlib.Core.Bool.{Bool, true, false, ◌&&◌, ◌||◌}
use mathlib.Core.List.{List, [], ◌∷◌, ◌++◌}
use mathlib.Core.Option.{Option, none, some}
use native.Mathlib.Omega.{arith}
use mathlib.Core.Logic.{inl, inr}
use trading_platform_backend.Prelude.Tests.{if◌then◌else◌, Bool-cases}

module _ {ℓ} {A : Type ℓ} where
  abbrev pub length : List A → ℕ
  length [] = 0
  length (x ∷ xs) = suc (length xs)

  abbrev pub take : ℕ → List A → List A
  take zero xs = []
  take (suc n) [] = []
  take (suc n) (x ∷ xs) = x ∷ take n xs

  -- The rows that pass a WHERE clause, in the order of the table.
  abbrev pub where_rows : (A → Bool) → List A → List A
  where_rows p [] = []
  where_rows p (x ∷ xs) = let rest = where_rows p xs in if p x then x ∷ rest else rest

  -- COUNT(*) FILTER (WHERE p).
  abbrev pub count_rows : (A → Bool) → List A → ℕ
  count_rows p xs = length (where_rows p xs)

  -- The first row that passes the test.
  abbrev pub find_row : (A → Bool) → List A → Option A
  find_row p [] = none
  find_row p (x ∷ xs) = let rest = find_row p xs in if p x then some x else rest

  -- UPDATE: every row that passes the test is replaced.
  abbrev pub update_rows : (A → Bool) → (A → A) → List A → List A
  update_rows p f [] = []
  update_rows p f (x ∷ xs) = (if p x then f x else x) ∷ update_rows p f xs

  -- INSERT ... ON CONFLICT (key) DO UPDATE: the row with the key is updated, or the new row is
  -- added.
  abbrev pub upsert_rows : (A → Bool) → A → (A → A) → List A → List A
  upsert_rows p new f [] = new ∷ []
  upsert_rows p new f (x ∷ xs) =
      let rest = upsert_rows p new f xs in if p x then f x ∷ xs else x ∷ rest

  abbrev pub any_row : (A → Bool) → List A → Bool
  any_row p [] = false
  any_row p (x ∷ xs) = p x || any_row p xs

  abbrev pub all_rows : (A → Bool) → List A → Bool
  all_rows p [] = true
  all_rows p (x ∷ xs) = p x && all_rows p xs

  abbrev pub All {κ} : (A → Type κ) → List A → Type κ
  All P [] = Unit
  All P (x ∷ xs) = P x × All P xs

  pub All-append_one {κ} :
      (P : A → Type κ) (x : A) (xs : List A) → All P xs → P x → All P (xs ++ x ∷ [])
  All-append_one P x [] a p = (p, tt)
  All-append_one P x (y ∷ ys) a p = (a.0, All-append_one P x ys a.1 p)

  pub where_rows-append_one :
      (p : A → Bool) (x : A) (xs : List A)
      → p x ≡ true
      → where_rows p (xs ++ x ∷ []) ≡ where_rows p xs ++ x ∷ []
  where_rows-append_one p x [] h = rw h refl
  where_rows-append_one p x (y ∷ ys) h = elim (Bool-cases (p y)) [
    | inl hit ↦ rw (hit, where_rows-append_one p x ys h) refl
    | inr miss ↦ rw (miss, where_rows-append_one p x ys h) refl
  ]

  pub where_rows-append_other :
      (p : A → Bool) (x : A) (xs : List A)
      → p x ≡ false
      → where_rows p (xs ++ x ∷ []) ≡ where_rows p xs
  where_rows-append_other p x [] h = rw h refl
  where_rows-append_other p x (y ∷ ys) h = rw (where_rows-append_other p x ys h) refl

  pub count_rows-append_one :
      (p : A → Bool) (x : A) (xs : List A)
      → count_rows p (xs ++ x ∷ []) ≡ (if p x then count_rows p xs + 1 else count_rows p xs)
  count_rows-append_one p x [] = ground arith
  count_rows-append_one p x (y ∷ ys) = ground (arith, count_rows-append_one p x ys)

  pub length-append : (xs ys : List A) → length (xs ++ ys) ≡ length xs + length ys
  length-append [] ys = omega arith
  length-append (x ∷ xs) ys = omega (arith, length-append xs ys)

  pub length-take-le : (n : ℕ) (xs : List A) → length (take n xs) ≤ n
  length-take-le zero xs = omega arith
  length-take-le (suc n) [] = omega arith
  length-take-le (suc n) (x ∷ xs) = omega (arith, length-take-le n xs)

module _ {A : Type 0} where
  abbrev pub upserted : A → (A → A) → Option A → A
  upserted new f none = new
  upserted new f (some x) = f x

  -- The row with the key after an upsert.
  pub find_row-upsert_rows :
      (p : A → Bool) (new : A) (f : A → A) (xs : List A)
      → p new ≡ true
      → ((x : A) → p (f x) ≡ p x)
      → find_row p (upsert_rows p new f xs) ≡ some (upserted new f (find_row p xs))
  find_row-upsert_rows p new f [] h keeps = rw h refl
  find_row-upsert_rows p new f (x ∷ xs) h keeps = elim (Bool-cases (p x)) [
    | inl hit ↦ rw hit (rw (keeps x ∙ hit) refl)
    | inr miss ↦ rw miss (rw miss (find_row-upsert_rows p new f xs h keeps))
  ]
