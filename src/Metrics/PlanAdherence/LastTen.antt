-- ===== src/Metrics/PlanAdherence/LastTen.antt =====
-- PlanAdherence of internal/metrics/plan_adherence.go: which trades it averages, and what it stores.
use trading_platform_backend.Prelude.{
  ℕ, zero, suc, ◌+◌, ◌≤◌, ◌≡◌, ◌⊎◌, inl, inr, refl, ap, ◌∙◌, Bool, true, false, not, Option, none,
  some, List, [], ◌∷◌, ◌++◌, map, arith, All, length, take, where_rows, Bool-cases, eq_iff,
}
use mathlib.Core.List.{Perm}
use mathlib.Core.List.Perm
use trading_platform_backend.Prelude.Int.{ℤ, pos, ◌+ℤ◌}
use trading_platform_backend.Prelude.Order.{order_by, All-order_by}
use trading_platform_backend.Prelude.Sorted.{
  drop, take-drop, where_rows-perm, All-where, All-take, All-drop, All-map, order_by-perm,
  IsOrdered-take, order_by-IsOrdered,
}
use trading_platform_backend.Trades.Types.{Uuid, Time, status_closed, Trade}
use trading_platform_backend.Metrics.PlanAdherence.{
  tally, rated_close, exits_later, exits_first, ratings,
}

-- The sum of the stars.
abbrev pub sum_stars : List ℕ → ℕ
sum_stars [] = 0
sum_stars (n ∷ ns) = n + sum_stars ns

-- The first exit is not after the second, where no exit counts as the latest.
abbrev pub NotAfter : Option Time → Option Time → Type 0
NotAfter x none = Unit {0}
NotAfter none (some b) = ⊥
NotAfter (some a) (some b) = a ≤ b

-- A rating of one to five stars.
abbrev pub IsStars : Option ℤ → Type 0
IsStars o = (n : ℕ) × (o ≡ some (pos n)) × (1 ≤ n) × (n ≤ 5)

-- Where there is a rating, it has one to five stars.
abbrev pub IsChecked : {F : Type 0} → Trade F → Type 0
IsChecked t = (t.plan_adherence ≡ none) ⊎ IsStars t.plan_adherence

exits_later-NotAfter : (x y : Option Time) → exits_later x y ≡ false → NotAfter x y
exits_later-NotAfter none none h = tt
exits_later-NotAfter none (some b) h = absurd (cc h)
exits_later-NotAfter (some a) none h = tt
exits_later-NotAfter (some a) (some b) h = ground arith

exits_later_asymm : (x y : Option Time) → exits_later x y ≡ true → exits_later y x ≡ false
exits_later_asymm none none h = refl
exits_later_asymm none (some b) h = refl
exits_later_asymm (some a) none h = absurd (cc h)
exits_later_asymm (some a) (some b) h = ground arith

exits_later_not_trans :
    (x y z : Option Time)
    → exits_later z y ≡ false
    → exits_later y x ≡ false
    → exits_later z x ≡ false
exits_later_not_trans none none none h k = refl
exits_later_not_trans none none (some c) h k = refl
exits_later_not_trans none (some b) none h k = refl
exits_later_not_trans none (some b) (some c) h k = refl
exits_later_not_trans (some a) none z h k = absurd (cc k)
exits_later_not_trans (some a) (some b) none h k = absurd (cc h)
exits_later_not_trans (some a) (some b) (some c) h k = ground arith

tally_stars :
    (a c : ℕ) (ns : List ℕ) → tally (pos a) c (map pos ns) ≡ (pos (a + sum_stars ns), c + length ns)
tally_stars a c [] = ground arith
tally_stars a c (n ∷ ns) =
    let e : pos a +ℤ pos n ≡ pos (a + n) = ground arith in
    ap (λ sum. tally sum (c + 1) (map pos ns)) e ∙ tally_stars (a + n) (c + 1) ns ∙ ground arith

pub tally_all : (ns : List ℕ) → tally (pos 0) 0 (map pos ns) ≡ (pos (sum_stars ns), length ns)
tally_all ns = tally_stars 0 0 ns ∙ ground arith

module _ {F : Type 0} where
  -- A closed trade of the user with a rating.
  pub record IsRatedClose (u : Uuid) (t : Trade F) : Type 0 where
    pub owner : t.user_id ≡ u
    pub closed : t.status ≡ status_closed
    pub rated : (p : ℤ) × (t.plan_adherence ≡ some p)

  -- The ten rated closed trades of the user that exit last, or all of them where there are fewer.
  pub record IsLastTen (u : Uuid) (ts newest : List (Trade F)) : Type 0 where
    pub older : List (Trade F)
    pub rest : List (Trade F)
    pub parted : Perm ((newest ++ older) ++ rest) ts
    pub newest_rated : All (IsRatedClose u) newest
    pub older_rated : All (IsRatedClose u) older
    pub rest_unrated : All (λ t. ¬ IsRatedClose u t) rest
    pub latest : All (λ t. All (λ (o : Trade F). NotAfter o.exit_at t.exit_at) older) newest
    pub few : (length newest ≡ 10) ⊎ ((length newest ≤ 10) × (older ≡ []))

  rated_close-IsRatedClose :
      (u : Uuid) (t : Trade F) (o : Option ℤ)
      → t.plan_adherence ≡ o
      → rated_close u t ≡ true
      → IsRatedClose u t
  rated_close-IsRatedClose u t none e h = absurd (ground arith)
  rated_close-IsRatedClose u t (some p) e h = record {
    owner = ground arith;
    closed = ground (arith, eq_iff t.status status_closed);
    rated = (p, e);
  }

  unrated : (u : Uuid) (t : Trade F) → not (rated_close u t) ≡ true → ¬ IsRatedClose u t
  unrated u t h r = ground (arith, r.owner, r.closed, r.rated.1, eq_iff t.status status_closed)

  take-few :
      (n : ℕ) (ts : List (Trade F))
      → (length (take n ts) ≡ n) ⊎ ((length (take n ts) ≤ n) × (drop n ts ≡ []))
  take-few zero ts = inl refl
  take-few (suc n) [] = inr (omega arith, refl)
  take-few (suc n) (t ∷ ts) = elim (take-few n ts) [
    | inl e ↦ inl (ap suc e)
    | inr (le, e) ↦ inr (omega arith, e)
  ]

  module _ (u : Uuid) (ts : List (Trade F)) where
    abbrev pub ordered : List (Trade F)
    ordered = order_by exits_first (where_rows (rated_close u) ts)

    pub ordered_rated : All (IsRatedClose u) ordered
    ordered_rated = All-order_by exits_first (IsRatedClose u) (where_rows (rated_close u) ts) (
        All-where (rated_close u) (IsRatedClose u)
          (λ t h. rated_close-IsRatedClose u t t.plan_adherence refl h) ts)

    pub ordered-IsLastTen : IsLastTen u ts (take 10 ordered)
    ordered-IsLastTen = record {
      older = drop 10 ordered;
      rest = where_rows (λ t. not (rated_close u t)) ts;
      parted = rw (take-drop 10 ordered) (
          Perm.trans
            (Perm.append_right _ (order_by-perm exits_first (where_rows (rated_close u) ts)))
            (where_rows-perm (rated_close u) ts));
      newest_rated = All-take (IsRatedClose u) 10 ordered ordered_rated;
      older_rated = All-drop (IsRatedClose u) 10 ordered ordered_rated;
      rest_unrated = All-where (λ t. not (rated_close u t)) _ (λ t h. unrated u t h) ts;
      latest =
          All-map _ _
            (λ t a.
              All-map _ _ (λ o e. exits_later-NotAfter o.exit_at t.exit_at e) (drop 10 ordered) a)
            (take 10 ordered)
            (IsOrdered-take exits_first 10 ordered (
              order_by-IsOrdered exits_first (λ x y. exits_later_asymm x.exit_at y.exit_at)
                (λ x y z. exits_later_not_trans x.exit_at y.exit_at z.exit_at)
                (where_rows (rated_close u) ts)));
      few = take-few 10 ordered;
    }

  -- The column of the rated trades, as stars.
  abbrev pub Shows : List (Trade F) → List ℕ → Type 0
  Shows ts stars =
      (map (λ (t : Trade F). t.plan_adherence) ts ≡ map (λ n. some (pos n)) stars)
      × All (λ n. (1 ≤ n) × (n ≤ 5)) stars

  pub stars_of :
      (u : Uuid) (ts : List (Trade F))
      → All (IsRatedClose u) ts
      → All IsChecked ts
      → (stars : List ℕ) × (ratings ts ≡ map pos stars) × Shows ts stars
  stars_of u [] rated checked = ([], refl, (refl, tt))
  stars_of u (t ∷ ts) rated checked = elim checked.0 [
    | inl missing ↦ absurd (cc (missing, rated.0.rated.1))
    | inr (n, e, low, high) ↦
        let (ns, same, (column, within)) = stars_of u ts rated.1 checked.1 in
        (n ∷ ns, rw e (ap (λ vs. pos n ∷ vs) same), (rw (e, column) refl, ((low, high), within)))
  ]

  pub All-where-IsChecked :
      (p : Trade F → Bool) (ts : List (Trade F))
      → All IsChecked ts
      → All IsChecked (where_rows p ts)
  All-where-IsChecked p [] a = tt
  All-where-IsChecked p (t ∷ ts) a = elim (Bool-cases (p t)) [
    | inl h ↦ rw h (a.0, All-where-IsChecked p ts a.1)
    | inr h ↦ rw h (All-where-IsChecked p ts a.1)
  ]
