-- ===== src/Metrics/Buckets/Partition.antt =====
-- The buckets of LoadBuckets (internal/metrics/repo.go) share out the trades of the range.
use trading_platform_backend.Prelude.{
  ℕ, ◌+◌, ◌<◌, String, ◌≡◌, refl, ap, true, some, List, [], ◌∷◌, arith, ltb, ◌==◌, All, map,
  where_rows, count_rows, length, Bool-cases, inl, inr, if◌then◌else◌,
}
use trading_platform_backend.Prelude.Groups.{add_key, holds, All-group_keys}
use trading_platform_backend.External.Float.{FloatOps}
use trading_platform_backend.External.Postgres.{NumericOps}
use trading_platform_backend.Database.{Db}
use trading_platform_backend.Database.Exec.{ok}
use trading_platform_backend.Trades.Types.{Uuid, Time, Trade}
use trading_platform_backend.Metrics.Buckets.{
  Bucket, bucket_of, bucket_unit, date_trunc, in_range, keys, in_bucket, buckets, load_buckets,
}

abbrev pub Ascending : List Time → Type 0
Ascending [] = Unit
Ascending (k ∷ ks) = All (λ j. k < j) ks × Ascending ks

All-add_key :
    (P : Time → Type 0) (k : Time) (ks : List Time) → P k → All P ks → All P (add_key k ks)
All-add_key P k [] p a = (p, tt)
All-add_key P k (j ∷ js) p a = elim (Bool-cases (k == j)) [
  | inl same ↦ rw same a
  | inr other ↦ elim (Bool-cases (ltb k j)) [
    | inl before ↦ rw (other, before) (p, a)
    | inr behind ↦ rw (other, behind) (a.0, All-add_key P k js p a.1)
  ]
]

All-before : (k j : Time) (ks : List Time) → k < j → All (λ i. j < i) ks → All (λ i. k < i) ks
All-before k j [] h a = tt
All-before k j (i ∷ ks) h a = (omega (arith, a.0), All-before k j ks h a.1)

Ascending-add_key : (k : Time) (ks : List Time) → Ascending ks → Ascending (add_key k ks)
Ascending-add_key k [] a = (tt, tt)
Ascending-add_key k (j ∷ js) a = elim (Bool-cases (k == j)) [
  | inl same ↦ rw same a
  | inr other ↦ elim (Bool-cases (ltb k j)) [
    | inl before ↦ rw (other, before) ((ground arith, All-before k j js (ground arith) a.0), a)
    | inr behind ↦
        rw (other, behind)
          (All-add_key (λ i. j < i) k js (ground arith) a.0, Ascending-add_key k js a.1)
  ]
]

-- The sum of f over the keys.
abbrev total_over : (Time → ℕ) → List Time → ℕ
total_over f [] = 0
total_over f (k ∷ ks) = f k + total_over f ks

abbrev one_at : Time → Time → ℕ
one_at k j = if k == j then 1 else 0

total-none_at : (k : Time) (ks : List Time) → All (λ j. k < j) ks → total_over (one_at k) ks ≡ 0
total-none_at k [] a = refl
total-none_at k (j ∷ js) a = ground (arith, total-none_at k js)

total-one_at :
    (k : Time) (ks : List Time) → Ascending ks → holds k ks ≡ true → total_over (one_at k) ks ≡ 1
total-one_at k [] a h = absurd (cc h)
total-one_at k (j ∷ js) a h = elim (Bool-cases (k == j)) [
  | inl same ↦
      let e : k ≡ j = ground arith in
      let nowhere : total_over (one_at k) js ≡ 0 = total-none_at k js (rw e a.0) in
      ground (arith, nowhere)
  | inr other ↦
      let rest : total_over (one_at k) js ≡ 1 = total-one_at k js a.1 (rw other at h) in
      rw other (omega (arith, rest))
]

total-plus :
    (f g h : Time → ℕ) (ks : List Time)
    → ((k : Time) → h k ≡ f k + g k)
    → total_over h ks ≡ total_over f ks + total_over g ks
total-plus f g h [] e = refl
total-plus f g h (k ∷ ks) e = omega (arith, e k, total-plus f g h ks e)

total-zero : (ks : List Time) → total_over (λ k. 0) ks ≡ 0
total-zero [] = refl
total-zero (k ∷ ks) = omega (arith, total-zero ks)

module _ {F : Type 0} (unit : ℕ) where
  abbrev key_of : Trade F → Time
  key_of t = date_trunc unit t.entry_at

  abbrev size : List (Trade F) → Time → ℕ
  size ts k = length (where_rows (in_bucket unit k) ts)

  Ascending-keys : (ts : List (Trade F)) → Ascending (keys unit ts)
  Ascending-keys [] = tt
  Ascending-keys (t ∷ ts) = Ascending-add_key (key_of t) (keys unit ts) (Ascending-keys ts)

  All-held : (ts : List (Trade F)) → All (λ t. holds (key_of t) (keys unit ts) ≡ true) ts
  All-held ts = All-group_keys key_of ts

  size-cons :
      (t : Trade F) (ts : List (Trade F)) (k : Time)
      → size (t ∷ ts) k ≡ one_at (key_of t) k + size ts k
  size-cons t ts k = ground arith

  total-size :
      (ks : List Time) (ts : List (Trade F))
      → Ascending ks
      → All (λ t. holds (key_of t) ks ≡ true) ts
      → total_over (size ts) ks ≡ length ts
  total-size ks [] a h = total-zero ks
  total-size ks (t ∷ ts) a h = omega (
    arith,
    total-plus (one_at (key_of t)) (size ts) (size (t ∷ ts)) ks (size-cons t ts),
    total-one_at (key_of t) ks a h.0,
    total-size ks ts a h.1,
  )

module _ {F : Type 0} where
  -- The number of trades in all buckets.
  abbrev pub total_count : List (Bucket F) → ℕ
  total_count [] = 0
  total_count (b ∷ bs) = b.trade_count + total_count bs

  abbrev pub times_of : List (Bucket F) → List Time
  times_of = map (λ (b : Bucket F). b.bucket_at)

module _ {F : Type 0} (ops : FloatOps F) (numeric : NumericOps F) where
  buckets_of_keys :
      (unit : ℕ) (ts : List (Trade F)) (ks : List Time)
      → let bs = map (λ k. bucket_of ops numeric k (where_rows (in_bucket unit k) ts)) ks in
        (total_count bs ≡ total_over (size unit ts) ks) × (times_of bs ≡ ks)
  buckets_of_keys unit ts [] = (refl, refl)
  buckets_of_keys unit ts (k ∷ ks) =
      let rest = buckets_of_keys unit ts ks in (omega (arith, rest.0), ap (λ js. k ∷ js) rest.1)

  -- LoadBuckets with no failing statement, for a granularity that has a unit, changes nothing and
  -- returns buckets in strictly ascending order of their times, and their trade counts add up to the
  -- number of the user's trades with from ≤ entry_at < to: each of them is in one bucket.
  pub load_buckets-Ascending :
      (id : Uuid) (from to : Time) (gran : String) (unit : ℕ) (db : Db F)
      → db.faults ≡ []
      → bucket_unit gran ≡ some unit
      → (bs : List (Bucket F)) × (load_buckets ops numeric id from to gran db ≡ (ok bs, db))
        × Ascending (times_of bs)
        × (total_count bs ≡ count_rows (in_range id from to) db.trades)
  unfolding load_buckets
  load_buckets-Ascending id from to gran unit db calm known =
      let rows : List (Trade F) = where_rows (in_range id from to) db.trades in
      let parts = buckets_of_keys unit rows (keys unit rows) in
      (
        buckets ops numeric unit rows,
        ground arith,
        rw parts.1 (Ascending-keys unit rows),
        omega (
          arith,
          parts.0,
          total-size unit (keys unit rows) rows (Ascending-keys unit rows) (All-held unit rows),
        ),
      )
