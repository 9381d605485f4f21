-- ===== src/Trades/Types.antt =====
-- internal/trades/types.go: the enums, the POST body and the stored trade.
-- An instant is a number of microseconds, the resolution of TIMESTAMPTZ. It is counted from
-- two years before Go's zero time, so that no instant of RFC 3339 lies before the origin.
use trading_platform_backend.Prelude.{ℕ, ◌*◌, String, Bool, Option}
use trading_platform_backend.Prelude.Int.{ℤ}

abbrev pub Uuid : Type 0
Uuid = ℕ

-- uuid.Nil
abbrev pub nil_uuid : Uuid
nil_uuid = 0

abbrev pub Time : Type 0
Time = ℕ

abbrev pub second : ℕ
second = 1000000

abbrev pub minute : ℕ
minute = 60 * second

-- time.Time{}
abbrev pub zero_time : Time
zero_time = 731 * (1440 * minute)

abbrev pub asset_equity : String
asset_equity = "equity"

abbrev pub asset_crypto : String
asset_crypto = "crypto"

abbrev pub asset_forex : String
asset_forex = "forex"

abbrev pub dir_long : String
dir_long = "long"

abbrev pub dir_short : String
dir_short = "short"

abbrev pub status_open : String
status_open = "open"

abbrev pub status_closed : String
status_closed = "closed"

abbrev pub status_cancelled : String
status_cancelled = "cancelled"

abbrev pub emo_calm : String
emo_calm = "calm"

abbrev pub emo_anxious : String
emo_anxious = "anxious"

abbrev pub emo_greedy : String
emo_greedy = "greedy"

abbrev pub emo_fearful : String
emo_fearful = "fearful"

abbrev pub emo_neutral : String
emo_neutral = "neutral"

abbrev pub outcome_win : String
outcome_win = "win"

abbrev pub outcome_loss : String
outcome_loss = "loss"

-- TradeInput; a pointer field is an `Option`.
pub record TradeInput (F : Type 0) : Type 0 where
  pub trade_id : Uuid
  pub user_id : Uuid
  pub session_id : Uuid
  pub asset : String
  pub asset_class : String
  pub direction : String
  pub entry_price : F
  pub exit_price : Option F
  pub quantity : F
  pub entry_at : Time
  pub exit_at : Option Time
  pub status : String
  pub plan_adherence : Option ℤ
  pub emotional_state : Option String
  pub entry_rationale : Option String

-- Trade: the input with the fields that the server adds.
pub record Trade (F : Type 0) : Type 0 where
  pub input : TradeInput F
  pub open input use *
  pub outcome : Option String
  pub pnl : Option F
  pub revenge_flag : Bool
  pub created_at : Time
  pub updated_at : Time
