-- ===== src/Examples.antt =====
-- Concrete libraries, rows and requests, on which the theorems are applied.
-- The libraries here are small: floats are whole numbers, every float fits its column, an id and
-- a time are written in unary, and the Redis server is the log of the commands sent.
pub mod TradeExamples
pub mod MetricsExamples
pub mod QueueExamples
pub mod AccessExamples
pub mod RepoExamples
pub mod BackfillExamples
pub mod BootExamples
pub mod ApiExamples
pub mod ProgramExamples
pub mod PipelineExamples
use Prim.Native.String.{len, ◌++◌}
use text.Mathlib.TextPositions.{len-append}
use trading_platform_backend.Prelude.{
  ℕ, zero, suc, ◌+◌, ◌*◌, ◌/◌, String, ◌≡◌, refl, Bool, false, not, Option, none, some, List, [],
  ◌∷◌, if◌then◌else◌, str_eq, eq_refl, arith,
}
use trading_platform_backend.Prelude.Int.{ℤ, pos, negsuc, ◌+ℤ◌, ◌-ℤ◌, ◌*ℤ◌, quotient, ltb_ℤ}
use trading_platform_backend.External.Float.{FloatOps}
use trading_platform_backend.External.Postgres.{NumericOps}
use trading_platform_backend.External.Uuid.{UuidText}
use trading_platform_backend.External.TimeText.{TimeText}
use trading_platform_backend.External.Redis.{Redis, reply}
use trading_platform_backend.Database.{Db}
use trading_platform_backend.Httpx.{Context}
use trading_platform_backend.Trades.Types.{
  asset_equity, dir_long, status_closed, status_open, emo_anxious, emo_calm, outcome_win,
  outcome_loss, second, TradeInput, Trade,
}

abbrev pub whole_floats : FloatOps ℤ
whole_floats = record {
  neg = λ a. pos 0 -ℤ a;
  add = λ a b. a +ℤ b;
  sub = λ a b. a -ℤ b;
  mul = λ a b. a *ℤ b;
  div = quotient;
  less = ltb_ℤ;
  at_most = λ a b. not (ltb_ℤ b a);
  of_int = λ a. a;
  half = pos 0;
  trunc = λ a. a;
}

-- the quotient of a sum and a count that are carried along
abbrev pub average_of : ℕ → ℕ → List ℕ → ℕ
average_of sum count [] = sum / count
average_of sum count (x ∷ xs) = average_of (sum + x) (count + 1) xs

abbrev pub sum_of : ℤ → List ℤ → ℤ
sum_of sum [] = sum
sum_of sum (x ∷ xs) = sum_of (sum +ℤ x) xs

abbrev pub mean_of : ℤ → ℕ → List ℤ → ℤ
mean_of sum count [] = quotient sum (pos count)
mean_of sum count (x ∷ xs) = mean_of (sum +ℤ x) (count + 1) xs

abbrev pub any_numeric : NumericOps ℤ
any_numeric = record {
  numeric_18_8 = some;
  numeric_5_4 = some;
  sum_18_8 = sum_of (pos 0);
  average_smallint = λ xs. mean_of (pos 0) 0 xs;
  average_to_5_4 = λ xs. some (mean_of (pos 0) 0 xs);
  average_5_4 = λ xs. pos (average_of 0 0 xs / 10000);
}

-- n strokes
unfoldable pub ones : ℕ → String
ones zero = ""
ones (suc n) = "1" ++ ones n

abbrev pub count_ones : String → Option ℕ
count_ones s = if str_eq s (ones (len s)) then some (len s) else none

len-ones : (n : ℕ) → len (ones n) ≡ n
unfolding ones
len-ones zero = refl
len-ones (suc n) = omega (arith, len-append "1" (ones n), len-ones n)

pub count_ones-ones : (n : ℕ) → count_ones (ones n) ≡ some n
count_ones-ones n = rw (len-ones n, eq_refl (ones n)) refl

abbrev pub milliseconds : Option ℕ → Option ℕ
milliseconds none = none
milliseconds (some n) = some (n * 1000)

pub milliseconds-count : (n : ℕ) → milliseconds (count_ones (ones n)) ≡ some (n * 1000)
milliseconds-count n = rw (count_ones-ones n) refl

abbrev pub unary_ids : UuidText
unary_ids = record { to_string = ones; parse = count_ones; parse-to_string = count_ones-ones }

abbrev pub unary_times : TimeText
unary_times = record {
  format = λ t. ones (t / 1000);
  parse = λ s. milliseconds (count_ones s);
  parse_rfc3339 = λ s. milliseconds (count_ones s);
  parse-format = λ t. milliseconds-count (t / 1000);
}

abbrev pub log_server : Redis (List String)
log_server = record {
  xadd = λ stream values r. (reply "1-0", "XADD" ∷ r);
  xack = λ stream group id r. (reply tt, id ∷ "XACK" ∷ r);
  xread_group = λ group consumer stream count block r. (reply [], r);
  xpending_ext = λ stream group idle count r. (reply [], r);
  xpending = λ stream group r. (reply 0, r);
  xclaim = λ stream group consumer idle ids r. (reply [], r);
}

-- A win of 10 for user 7: bought 5 at 10, sold at 12.
abbrev pub sold : TradeInput ℤ
sold = record {
  trade_id = 1;
  user_id = 7;
  session_id = 3;
  asset = "ACME";
  asset_class = asset_equity;
  direction = dir_long;
  entry_price = pos 10;
  exit_price = some (pos 12);
  quantity = pos 5;
  entry_at = 10 * second;
  exit_at = some (20 * second);
  status = status_closed;
  plan_adherence = some (pos 4);
  emotional_state = some emo_calm;
  entry_rationale = none;
}

abbrev pub sold_row : Trade ℤ
sold_row = record {
  input = sold;
  outcome = some outcome_win;
  pnl = some (pos 10);
  revenge_flag = false;
  created_at = 100;
  updated_at = 100;
}

-- A loss of the same user and session.
abbrev pub lost_row : Trade ℤ
lost_row = record sold_row {
  input = record sold { trade_id = 2; exit_price = some (pos 8); exit_at = some (30 * second) };
  outcome = some outcome_loss;
  pnl = some (negsuc 9);
}

-- Opened 60 seconds after the loss, by a trader who is anxious.
abbrev pub opened_row : Trade ℤ
opened_row = record {
  input = record sold {
    trade_id = 4;
    exit_price = none;
    entry_at = 90 * second;
    exit_at = none;
    status = status_open;
    emotional_state = some emo_anxious;
  };
  outcome = none;
  pnl = none;
  revenge_flag = false;
  created_at = 100;
  updated_at = 100;
}

-- A closed trade of user 8 in the session of user 7.
abbrev pub intruder_row : Trade ℤ
intruder_row = record sold_row { input = record sold { trade_id = 5; user_id = 8 } }

abbrev pub with_trades : List (Trade ℤ) → Db ℤ
with_trades ts = record {
  trades = ts;
  user_metrics = [];
  emotion_metrics = [];
  session_metrics = [];
  overtrading_events = [];
  now = 100;
  faults = [];
}

-- The request's context of user 7.
abbrev pub as_trader : Context
as_trader = record { trace_value = some "trace"; user_value = some 7 }
