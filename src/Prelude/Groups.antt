-- ===== src/Prelude/Groups.antt =====
-- GROUP BY: the keys of the groups, and which keys there are.
use Prim.Native.Nat.{ℕ}
use mathlib.Core.Path.{◌≡◌, refl}
use mathlib.Core.Bool.{Bool, true, false}
use mathlib.Core.List.{List, [], ◌∷◌}
use native.Mathlib.Omega.{arith}
use trading_platform_backend.Prelude.Tests.{◌==◌, ltb, if◌then◌else◌}
use trading_platform_backend.Prelude.Lists.{All, any_row}

-- the keys, each once, in ascending order
abbrev pub add_key : ℕ → List ℕ → List ℕ
add_key k [] = k ∷ []
add_key k (j ∷ js) =
    let rest = add_key k js in if k == j then j ∷ js else if ltb k j then k ∷ j ∷ js else j ∷ rest

abbrev pub holds : ℕ → List ℕ → Bool
holds k [] = false
holds k (j ∷ js) = if k == j then true else holds k js

pub holds-add_key : (k : ℕ) (ks : List ℕ) → holds k (add_key k ks) ≡ true
holds-add_key k [] = ground arith
holds-add_key k (j ∷ js) = ground (arith, holds-add_key k js)

pub holds-add_other : (i k : ℕ) (ks : List ℕ) → holds i ks ≡ true → holds i (add_key k ks) ≡ true
holds-add_other i k [] h = absurd (cc h)
holds-add_other i k (j ∷ js) h = ground (arith, holds-add_other i k js)

held-add_key :
    (i k : ℕ) (ks : List ℕ) → holds i (add_key k ks) ≡ (if i == k then true else holds i ks)
held-add_key i k [] = refl
held-add_key i k (j ∷ js) = ground (arith, held-add_key i k js)

module _ {A : Type 0} (key : A → ℕ) where
  -- GROUP BY a column
  abbrev pub group_keys : List A → List ℕ
  group_keys [] = []
  group_keys (x ∷ xs) = add_key (key x) (group_keys xs)

  held_after :
      (k : ℕ) (ks : List ℕ) (xs : List A)
      → All (λ x. holds (key x) ks ≡ true) xs
      → All (λ x. holds (key x) (add_key k ks) ≡ true) xs
  held_after k ks [] a = tt
  held_after k ks (x ∷ xs) a = (holds-add_other (key x) k ks a.0, held_after k ks xs a.1)

  pub All-group_keys : (xs : List A) → All (λ x. holds (key x) (group_keys xs) ≡ true) xs
  All-group_keys [] = tt
  All-group_keys (x ∷ xs) = (
    holds-add_key (key x) (group_keys xs),
    held_after (key x) (group_keys xs) xs (All-group_keys xs),
  )

  -- The keys are those of the rows.
  pub holds-group_keys :
      (i : ℕ) (xs : List A) → holds i (group_keys xs) ≡ any_row (λ x. key x == i) xs
  holds-group_keys i [] = refl
  holds-group_keys i (x ∷ xs) =
      ground (arith, held-add_key i (key x) (group_keys xs), holds-group_keys i xs)
