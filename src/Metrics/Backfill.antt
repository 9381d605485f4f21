-- ===== src/Metrics/Backfill.antt =====
-- internal/metrics/backfill.go: the walk of backfillOvertrading over the entry times of one user.
pub mod Recount
pub mod Flags
pub mod Groups
pub mod Sessions
pub mod Events
pub mod Posted
use trading_platform_backend.Prelude.{
  ℕ, ◌-◌, Bool, true, false, not, ◌&&◌, List, [], ◌∷◌, ◌++◌, leb, ltb, if◌then◌else◌, length,
}
use trading_platform_backend.Trades.Types.{Time}
use trading_platform_backend.Metrics.Overtrading.{window}

-- detectedEvent; its userID is that of the walk
pub record Detected : Type 0 where
  pub window_start : Time
  pub window_end : Time
  pub count : ℕ

-- `for len(window) > 0 && window[0].Before(cutoff) { window = window[1:] }`
unfoldable pub drop_before : Time → List Time → List Time
drop_before cutoff [] = []
drop_before cutoff (t ∷ ts) =
    let rest = drop_before cutoff ts in if ltb t cutoff then rest else t ∷ ts

-- window[0] of a window that ends with `at`
abbrev pub first_of : Time → List Time → Time
first_of at [] = at
first_of at (t ∷ ts) = t

-- the window after the trade at `at`
abbrev pub slide : Time → List Time → List Time
slide at entries = drop_before (at - window) entries ++ at ∷ []

-- the first case of the switch
abbrev pub starts_spike : Bool → ℕ → Bool
starts_spike in_spike n = ltb 10 n && not in_spike

-- inSpike after the switch
unfoldable pub next_spike : Bool → ℕ → Bool
next_spike in_spike n =
    if starts_spike in_spike n then true else if leb n 10 then false else in_spike

-- The loop over the times, and the events it appends.
unfoldable pub walk : List Time → Bool → List Time → List Detected
walk entries in_spike [] = []
walk entries in_spike (at ∷ later) =
    let entries' = slide at entries in
    let n = length entries' in
    let rest = walk entries' (next_spike in_spike n) later in
    if starts_spike in_spike n
    then record { window_start = first_of at entries'; window_end = at; count = n } ∷ rest
    else rest
