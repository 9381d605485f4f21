-- ===== src/Metrics/Backfill/Recount.antt =====
-- The sliding window of backfillOvertrading in internal/metrics/backfill.go against a recount.
use trading_platform_backend.Prelude.{
  ℕ, ◌-◌, ◌≤◌, ◌≡◌, refl, ap, ◌∙◌, sym, Bool, false, not, ◌&&◌, List, [], ◌∷◌, ◌++◌, arith, leb,
  ltb, if◌then◌else◌, length, All, All-append_one, where_rows, Bool-cases, inl, inr,
}
use trading_platform_backend.Trades.Types.{Time}
use trading_platform_backend.Metrics.Overtrading.{window}
use trading_platform_backend.Metrics.Backfill.{
  Detected, drop_before, first_of, slide, next_spike, walk,
}

-- The times of `earlier` in the 30 minutes up to `at`, and `at`.
abbrev pub opened_around : Time → List Time → List Time
opened_around at earlier = where_rows (leb (at - window)) earlier ++ at ∷ []

-- Every trade's window counted anew over all earlier trades: an event where a window has more than
-- ten trades and the window of the trade before (`crowded`) has not.
pub recount : List Time → Bool → List Time → List Detected
recount earlier crowded [] = []
recount earlier crowded (at ∷ later) =
    let around = opened_around at earlier in
    let n = length around in
    let rest = recount (earlier ++ at ∷ []) (ltb 10 n) later in
    if ltb 10 n && not crowded
    then record { window_start = first_of at around; window_end = at; count = n } ∷ rest
    else rest

-- From `p` on, no time lies before the one in front of it.
abbrev pub Ascends : Time → List Time → Type 0
Ascends p [] = Unit
Ascends p (t ∷ ts) = (p ≤ t) × Ascends t ts

abbrev InOrder : List Time → Type 0
InOrder [] = Unit
InOrder (t ∷ ts) = All (λ u. t ≤ u) ts × InOrder ts

where-All : (c x : Time) (ts : List Time) → c ≤ x → All (λ u. x ≤ u) ts → where_rows (leb c) ts ≡ ts
where-All c x [] h a = refl
where-All c x (t ∷ ts) h a = ground (arith, where-All c x ts h a.1)

drop_before-where :
    (c d : Time) (ts : List Time)
    → c ≤ d
    → InOrder ts
    → drop_before d (where_rows (leb c) ts) ≡ where_rows (leb d) ts
unfolding drop_before
drop_before-where c d [] h o = refl
drop_before-where c d (t ∷ ts) h o = elim (Bool-cases (leb d t)) [
  | inl inside ↦
      ground (arith, where-All c t ts (ground arith) o.0, where-All d t ts (ground arith) o.0)
  | inr outside ↦ ground (arith, drop_before-where c d ts h o.1)
]

All-weaken : (p at : Time) (ts : List Time) → p ≤ at → All (λ t. t ≤ p) ts → All (λ t. t ≤ at) ts
All-weaken p at [] h a = tt
All-weaken p at (t ∷ ts) h a = (omega (arith, a.0), All-weaken p at ts h a.1)

InOrder-append :
    (at : Time) (ts : List Time) → InOrder ts → All (λ t. t ≤ at) ts → InOrder (ts ++ at ∷ [])
InOrder-append at [] o a = (tt, tt)
InOrder-append at (t ∷ ts) o a =
    (All-append_one (λ u. t ≤ u) at ts o.0 a.0, InOrder-append at ts o.1 a.1)

where-append :
    (at : Time) (ts : List Time)
    → where_rows (leb (at - window)) (ts ++ at ∷ []) ≡ opened_around at ts
where-append at [] = ground arith
where-append at (t ∷ ts) = ground (arith, where-append at ts)

next_spike_lem : (in_spike : Bool) (n : ℕ) → next_spike in_spike n ≡ ltb 10 n
unfolding next_spike
next_spike_lem in_spike n = ground arith

slide-opened_around :
    (p at : Time) (earlier : List Time)
    → p ≤ at
    → InOrder earlier
    → slide at (where_rows (leb (p - window)) earlier) ≡ opened_around at earlier
slide-opened_around p at earlier h o =
    ap (λ ts. ts ++ at ∷ []) (drop_before-where (p - window) (at - window) earlier (omega arith) o)

walk-recount_from :
    (p : Time) (earlier : List Time) (crowded : Bool) (ts : List Time)
    → InOrder earlier
    → All (λ t. t ≤ p) earlier
    → Ascends p ts
    → walk (where_rows (leb (p - window)) earlier) crowded ts ≡ recount earlier crowded ts
unfolding walk recount
walk-recount_from p earlier crowded [] o a h = refl
walk-recount_from p earlier crowded (at ∷ later) o a h =
    let around : List Time = opened_around at earlier in
    let below : All (λ t. t ≤ at) earlier = All-weaken p at earlier h.0 a in
    let rest =
      walk-recount_from at (earlier ++ at ∷ []) (ltb 10 (length around)) later
        (InOrder-append at earlier o below)
        (All-append_one (λ t. t ≤ at) at earlier below (omega arith)) h.1 in
    let same : walk around (ltb 10 (length around)) later
        ≡ recount (earlier ++ at ∷ []) (ltb 10 (length around)) later =
      ap (λ w. walk w (ltb 10 (length around)) later) (sym (where-append at earlier)) ∙ rest in
    let event : Detected = record {
      window_start = first_of at around;
      window_end = at;
      count = length around;
    } in
    rw (slide-opened_around p at earlier h.0 o, next_spike_lem crowded (length around))
      (ap (λ es. if ltb 10 (length around) && not crowded then event ∷ es else es) same)

-- The walk, which keeps one window and a flag, emits the events that a recount of the window of
-- every trade gives: one for each trade with more than ten entries in the 30 minutes up to it, itself
-- included, of which the trade before it had at most ten. The times come in ascending order, as the
-- query orders them.
pub walk-recount : (ts : List Time) → Ascends 0 ts → walk [] false ts ≡ recount [] false ts
walk-recount ts h = walk-recount_from 0 [] false ts tt tt h
