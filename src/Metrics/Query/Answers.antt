-- ===== src/Metrics/Query/Answers.antt =====
-- What GET /users/{userId}/metrics (internal/metrics/handler.go) answers to which query.
use trading_platform_backend.Prelude.{
  ℕ, ◌<◌, String, ◌≡◌, ◌⊎◌, inl, inr, refl, false, some, List, [], arith, ltb, eq_iff, Bool-cases,
  Option-cases, str_eq,
}
use Prim.Native.String.{◌++◌}
use trading_platform_backend.External.Float.{FloatOps}
use trading_platform_backend.External.Postgres.{NumericOps}
use trading_platform_backend.External.Uuid.{UuidText}
use trading_platform_backend.External.TimeText.{TimeText}
use trading_platform_backend.Database.{Db}
use trading_platform_backend.Database.Exec.{ok}
use trading_platform_backend.Httpx.{Context, Response, write_json}
use trading_platform_backend.Trades.Types.{Uuid, Time}
use trading_platform_backend.Metrics.Snapshot.{UserMetrics, load_snapshot}
use trading_platform_backend.Metrics.Buckets.{
  Bucket, hour, day, gran_hourly, gran_daily, gran_rolling30, bucket_unit, load_buckets,
}
use trading_platform_backend.Metrics.Buckets.Partition.{load_buckets-Ascending}
use trading_platform_backend.Metrics.Query.{
  MetricsResponse, QueryValues, granularity, refused, parse_granularity, parse_time, response_of,
  with_times, get_metrics,
}

abbrev pub IsGranularity : String → Type 0
IsGranularity s = (s ≡ gran_hourly) ⊎ (s ≡ gran_daily) ⊎ (s ≡ gran_rolling30)

not_a_granularity :
    (quote : String → String) (s : String)
    → str_eq s gran_hourly ≡ false
    → str_eq s gran_daily ≡ false
    → str_eq s gran_rolling30 ≡ false
    → (m : String) × (parse_granularity quote s ≡ refused m)
unfolding parse_granularity
not_a_granularity quote s a b c = elim (Bool-cases (str_eq s "")) [
  | inl missing ↦ ("granularity is required (hourly|daily|rolling30d)", rw (a, b, c, missing) refl)
  | inr other ↦ (
    "granularity " ++ (quote s ++ " invalid; want hourly|daily|rolling30d"),
    rw (a, b, c, other) refl,
  )
]

-- A text that the parser accepts is one of the three, and has a unit.
granularity_cases :
    (quote : String → String) (s : String)
    → ((parse_granularity quote s ≡ granularity s)
        × IsGranularity s
        × ((unit : ℕ) × (bucket_unit s ≡ some unit)))
      ⊎ (((m : String) × (parse_granularity quote s ≡ refused m)) × (¬ (IsGranularity s)))
unfolding parse_granularity bucket_unit
granularity_cases quote s = elim (Bool-cases (str_eq s gran_hourly)) [
  | inl h ↦ inl (rw h refl, inl ((eq_iff s gran_hourly).0 h), (hour, rw h refl))
  | inr not_hourly ↦ elim (Bool-cases (str_eq s gran_daily)) [
    | inl h ↦ inl (
      rw (not_hourly, h) refl,
      inr (inl ((eq_iff s gran_daily).0 h)),
      (day, rw (not_hourly, h) refl),
    )
    | inr not_daily ↦ elim (Bool-cases (str_eq s gran_rolling30)) [
      | inl h ↦ inl (
        rw (not_hourly, not_daily, h) refl,
        inr (inr ((eq_iff s gran_rolling30).0 h)),
        (day, rw (not_hourly, not_daily, h) refl),
      )
      | inr not_rolling ↦ inr (
        not_a_granularity quote s not_hourly not_daily not_rolling,
        ground (arith, eq_iff s gran_hourly, eq_iff s gran_daily, eq_iff s gran_rolling30),
      )
    ]
  ]
]

module _ {F : Type 0} (ops : FloatOps F) (numeric : NumericOps F) (uuids : UuidText)
    (times : TimeText) (quote : String → String) (ctx : Context) (path : String)
    (q : QueryValues) where
  -- The path names a user, and the query has two times in order and a granularity.
  pub record IsQuery (id : Uuid) (from to : Time) : Type 0 where
    pub user : uuids.parse path ≡ some id
    pub from_parsed : parse_time times q.from_text ≡ some from
    pub to_parsed : parse_time times q.to_text ≡ some to
    pub in_order : from < to
    pub known : IsGranularity q.granularity_text

  -- 200 with what LoadSnapshot and LoadBuckets return.
  abbrev pub Reported : Db F → Uuid → Time → Time → Response (MetricsResponse F) × Db F → Type 0
  Reported db id from to out =
      (snap : UserMetrics F) × (bs : List (Bucket F)) × (load_snapshot ops numeric id db
        ≡ (ok snap, db))
      × (load_buckets ops numeric id from to q.granularity_text db ≡ (ok bs, db))
      × (out ≡ (
        write_json 200 (response_of ops numeric uuids times id from to q.granularity_text snap bs),
        db,
      ))

  -- The two kinds of answers.
  abbrev pub QueryAnswer : Db F → Response (MetricsResponse F) × Db F → Type 0
  QueryAnswer db out =
      ((id : Uuid) × (from : Time) × (to : Time) × IsQuery id from to × Reported db id from to out)
      ⊎ (((id : Uuid) (from to : Time) → ¬ (IsQuery id from to))
          × (out.0.status ≡ 400)
          × (out.1 ≡ db))

  loaded :
      (id : Uuid) (db : Db F)
      → db.faults ≡ []
      → (snap : UserMetrics F) × (load_snapshot ops numeric id db ≡ (ok snap, db))
  unfolding load_snapshot
  loaded id db calm = rw calm (_, refl)

  bucketed :
      (id : Uuid) (from to : Time) (unit : ℕ) (db : Db F)
      → db.faults ≡ []
      → bucket_unit q.granularity_text ≡ some unit
      → (bs : List (Bucket F)) × (load_buckets ops numeric id from to q.granularity_text db
          ≡ (ok bs, db))
  bucketed id from to unit db calm known =
      let r = load_buckets-Ascending ops numeric id from to q.granularity_text unit db calm known in
      (r.0, r.1)

  timely :
      (id : Uuid) (from to : Time) (db : Db F)
      → db.faults ≡ []
      → uuids.parse path ≡ some id
      → parse_time times q.from_text ≡ some from
      → parse_time times q.to_text ≡ some to
      → QueryAnswer db (with_times ops numeric uuids times quote ctx id q (some from) (some to) db)
  timely id from to db calm user f t = elim (Bool-cases (ltb from to)) [
    | inr late ↦ rw late (
        inr (
          (λ i a b v.
              let same_from : a ≡ from = cc (v.from_parsed, f) in
              let same_to : b ≡ to = cc (v.to_parsed, t) in
              let before = v.in_order in absurd (ground arith)),
          refl,
          refl,
        ))
    | inl early ↦ elim (granularity_cases quote q.granularity_text) [
      | inr ((m, e), unknown) ↦ rw (early, e) (inr ((λ i a b v. unknown v.known), refl, refl))
      | inl (e, known, (unit, has_unit)) ↦
          let (snap, l) = loaded id db calm in
          let (bs, b) = bucketed id from to unit db calm has_unit in
          rw (early, e, l, b)
            (inl (
              id,
              from,
              to,
              record {
                user = user;
                from_parsed = f;
                to_parsed = t;
                in_order = ground arith;
                known = known;
              },
              (snap, bs, l, b, refl),
            ))
    ]
  ]

  -- GET /users/{userId}/metrics with no failing statement changes nothing. Where the path names a
  -- user and the query has two times in order and one of the three granularities, the answer is 200
  -- with the snapshot and the buckets of that user and range; otherwise it is 400.
  pub get_metrics-QueryAnswer :
      (db : Db F)
      → db.faults ≡ []
      → QueryAnswer db (get_metrics ops numeric uuids times quote ctx path q db)
  unfolding get_metrics
  get_metrics-QueryAnswer db calm = elim (Option-cases (uuids.parse path)) [
    | inl e ↦ rw e (inr ((λ i a b v. cc (v.user, e)), refl, refl))
    | inr (id, e) ↦ elim (Option-cases (parse_time times q.from_text)) [
      | inl f ↦ rw (e, f) (inr ((λ i a b v. cc (v.from_parsed, f)), refl, refl))
      | inr (from, f) ↦ elim (Option-cases (parse_time times q.to_text)) [
        | inl t ↦ rw (e, f, t) (inr ((λ i a b v. cc (v.to_parsed, t)), refl, refl))
        | inr (to, t) ↦ rw (e, f, t) (timely id from to db calm e f t)
      ]
    ]
  ]
