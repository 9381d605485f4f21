-- ===== src/Trades/Validate.antt =====
-- internal/trades/validate.go: the checks on a POST body, in the order of the source.
-- The result is the error's text, or none.
pub mod Rules
use Prim.Native.String.{len}
use trading_platform_backend.Prelude.{
  ℕ, String, Bool, true, false, not, ◌&&◌, ◌||◌, Option, none, some, ltb, ◌==◌, if◌then◌else◌,
  str_eq,
}
use trading_platform_backend.Prelude.Int.{ℤ, pos, ltb_ℤ}
use trading_platform_backend.External.Float.{FloatOps}
use trading_platform_backend.Trades.Types.{
  Time, nil_uuid, zero_time, asset_equity, asset_crypto, asset_forex, dir_long, dir_short,
  status_open, status_closed, status_cancelled, emo_calm, emo_anxious, emo_greedy, emo_fearful,
  emo_neutral, TradeInput,
}

-- the `case AssetEquity, AssetCrypto, AssetForex` of the switch
unfoldable pub known_asset_class : String → Bool
known_asset_class s = str_eq s asset_equity || str_eq s asset_crypto || str_eq s asset_forex

unfoldable pub known_direction : String → Bool
known_direction s = str_eq s dir_long || str_eq s dir_short

unfoldable pub known_status : String → Bool
known_status s = str_eq s status_open || str_eq s status_closed || str_eq s status_cancelled

unfoldable pub known_emotion : String → Bool
known_emotion s =
    str_eq s emo_calm
    || str_eq s emo_anxious
    || str_eq s emo_greedy
    || str_eq s emo_fearful
    || str_eq s emo_neutral

-- in.ExitAt == nil || in.ExitAt.IsZero()
abbrev pub lacks_exit_at : Option Time → Bool
lacks_exit_at none = true
lacks_exit_at (some t) = t == zero_time

-- in.PlanAdherence != nil && (*in.PlanAdherence < 1 || *in.PlanAdherence > 5)
abbrev pub bad_plan_adherence : Option ℤ → Bool
bad_plan_adherence none = false
bad_plan_adherence (some p) = ltb_ℤ p (pos 1) || ltb_ℤ (pos 5) p

unfoldable pub bad_emotion : Option String → Bool
unfolding known_emotion
bad_emotion none = false
bad_emotion (some e) = not (known_emotion e)

-- `len` counts bytes
abbrev pub bad_rationale : Option String → Bool
bad_rationale none = false
bad_rationale (some s) = ltb 500 (len s)

module _ {F : Type 0} (ops : FloatOps F) where
  open ops use {at_most, of_int}

  -- in.ExitPrice == nil || *in.ExitPrice <= 0
  abbrev pub lacks_exit_price : Option F → Bool
  lacks_exit_price none = true
  lacks_exit_price (some p) = at_most p (of_int (pos 0))

  -- the checks from the optional fields on
  unfoldable pub validate_optional : TradeInput F → Option String
  validate_optional i =
      if bad_plan_adherence i.plan_adherence
      then some "validation failed: planAdherence must be 1..5"
      else if bad_emotion i.emotional_state
      then some "validation failed: emotionalState invalid"
      else if bad_rationale i.entry_rationale
      then some "validation failed: entryRationale must be <= 500 chars"
      else none

  -- the checks of the times and of the status
  unfoldable pub validate_status : TradeInput F → Option String
  validate_status i =
      if i.entry_at == zero_time
      then some "validation failed: entryAt required"
      else if not (known_status i.status)
      then some "validation failed: status must be open|closed|cancelled"
      else if str_eq i.status status_closed && lacks_exit_at i.exit_at
      then some "validation failed: closed trade requires exitAt"
      else if str_eq i.status status_closed && lacks_exit_price i.exit_price
      then some "validation failed: closed trade requires exitPrice > 0"
      else validate_optional i

  unfoldable pub validate : TradeInput F → Option String
  validate i =
      if i.trade_id == nil_uuid
      then some "validation failed: tradeId required"
      else if i.user_id == nil_uuid
      then some "validation failed: userId required"
      else if i.session_id == nil_uuid
      then some "validation failed: sessionId required"
      else if str_eq i.asset ""
      then some "validation failed: asset required"
      else if not (known_asset_class i.asset_class)
      then some "validation failed: assetClass must be equity|crypto|forex"
      else if not (known_direction i.direction)
      then some "validation failed: direction must be long|short"
      else if at_most i.entry_price (of_int (pos 0))
      then some "validation failed: entryPrice must be > 0"
      else if at_most i.quantity (of_int (pos 0))
      then some "validation failed: quantity must be > 0"
      else validate_status i
