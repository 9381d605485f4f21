-- ===== src/Trades/Validate/Rules.antt =====
-- The rules of a valid trade, stated apart from the code, and that validate of
-- internal/trades/validate.go accepts exactly that. They are not those of the TradeInput schema of
-- openapi.yaml, which has no rule on the nil id, an empty asset, the signs of prices and quantity or
-- the exit of a closed trade, and counts characters of the rationale.
use Prim.Native.String.{len}
use trading_platform_backend.Prelude.{
  ℕ, String, ◌≡◌, ◌≢◌, ◌↔◌, ◌⊎◌, ◌≤◌, true, false, Option, none, some, arith, str_eq, eq_iff, refl,
}
use trading_platform_backend.Prelude.Int.{ℤ, pos, negsuc}
use trading_platform_backend.External.Float.{FloatOps}
use trading_platform_backend.Trades.Types.{
  Time, nil_uuid, zero_time, asset_equity, asset_crypto, asset_forex, dir_long, dir_short,
  status_open, status_closed, status_cancelled, emo_calm, emo_anxious, emo_greedy, emo_fearful,
  emo_neutral, TradeInput,
}
use trading_platform_backend.Trades.Validate.{
  known_asset_class, known_direction, known_status, known_emotion, lacks_exit_at,
  bad_plan_adherence, bad_emotion, bad_rationale, lacks_exit_price, validate_optional,
  validate_status, validate,
}

abbrev pub IsAssetClass : String → Type 0
IsAssetClass s = (s ≡ asset_equity) ⊎ (s ≡ asset_crypto) ⊎ (s ≡ asset_forex)

abbrev pub IsDirection : String → Type 0
IsDirection s = (s ≡ dir_long) ⊎ (s ≡ dir_short)

abbrev pub IsStatus : String → Type 0
IsStatus s = (s ≡ status_open) ⊎ (s ≡ status_closed) ⊎ (s ≡ status_cancelled)

abbrev pub IsEmotion : String → Type 0
IsEmotion s =
    (s ≡ emo_calm) ⊎ (s ≡ emo_anxious) ⊎ (s ≡ emo_greedy) ⊎ (s ≡ emo_fearful) ⊎ (s ≡ emo_neutral)

-- A condition on a field that may be null.
abbrev pub IfPresent : {A : Type 0} → (A → Type 0) → Option A → Type 0
IfPresent P none = Unit
IfPresent P (some a) = P a

-- A condition on a field that may not be null.
abbrev pub Present : {A : Type 0} → (A → Type 0) → Option A → Type 0
Present P none = ⊥
Present P (some a) = P a

-- The whole numbers from 1 to 5.
abbrev pub IsRating : ℤ → Type 0
IsRating p = (n : ℕ) × (p ≡ pos n) × (1 ≤ n) × (n ≤ 5)

known_asset_class_iff : (s : String) → (known_asset_class s ≡ true) ↔ IsAssetClass s
unfolding known_asset_class
known_asset_class_iff s =
    ground (arith, eq_iff s asset_equity, eq_iff s asset_crypto, eq_iff s asset_forex)

known_direction_iff : (s : String) → (known_direction s ≡ true) ↔ IsDirection s
unfolding known_direction
known_direction_iff s = ground (arith, eq_iff s dir_long, eq_iff s dir_short)

known_status_iff : (s : String) → (known_status s ≡ true) ↔ IsStatus s
unfolding known_status
known_status_iff s =
    ground (arith, eq_iff s status_open, eq_iff s status_closed, eq_iff s status_cancelled)

known_emotion_iff : (s : String) → (known_emotion s ≡ true) ↔ IsEmotion s
unfolding known_emotion
known_emotion_iff s = ground (
  arith,
  eq_iff s emo_calm,
  eq_iff s emo_anxious,
  eq_iff s emo_greedy,
  eq_iff s emo_fearful,
  eq_iff s emo_neutral,
)

bad_emotion_iff : (o : Option String) → (bad_emotion o ≡ false) ↔ IfPresent IsEmotion o
unfolding bad_emotion
bad_emotion_iff none = ((λ _. tt), λ _. refl)
bad_emotion_iff (some e) = ground (arith, known_emotion_iff e)

rating : (p : ℤ) → bad_plan_adherence (some p) ≡ false → IsRating p
rating (pos n) h = (n, refl, ground arith, ground arith)
rating (negsuc n) h = absurd (ground arith)

bad_plan_adherence_iff : (o : Option ℤ) → (bad_plan_adherence o ≡ false) ↔ IfPresent IsRating o
bad_plan_adherence_iff none = ((λ _. tt), λ _. refl)
bad_plan_adherence_iff (some p) = (rating p, λ (n, e, a, b). ground arith)

bad_rationale_iff : (o : Option String) → (bad_rationale o ≡ false) ↔ IfPresent (λ s. len s ≤ 500) o
bad_rationale_iff none = ((λ _. tt), λ _. refl)
bad_rationale_iff (some s) = ground arith

lacks_exit_at_iff : (o : Option Time) → (lacks_exit_at o ≡ false) ↔ Present (λ t. t ≢ zero_time) o
lacks_exit_at_iff none = ((λ e. cc), λ h. absurd h)
lacks_exit_at_iff (some t) = ground arith

module _ {F : Type 0} (ops : FloatOps F) where
  open ops use {at_most, of_int}

  abbrev pub IsPositive : F → Type 0
  IsPositive x = at_most x (of_int (pos 0)) ≡ false

  pub record IsValid (i : TradeInput F) : Type 0 where
    pub has_trade_id : i.trade_id ≢ nil_uuid
    pub has_user_id : i.user_id ≢ nil_uuid
    pub has_session_id : i.session_id ≢ nil_uuid
    pub has_asset : i.asset ≢ ""
    pub asset_class_known : IsAssetClass i.asset_class
    pub direction_known : IsDirection i.direction
    pub entry_price_positive : IsPositive i.entry_price
    pub quantity_positive : IsPositive i.quantity
    pub has_entry_at : i.entry_at ≢ zero_time
    pub status_known : IsStatus i.status
    pub closed_has_exit_at : i.status ≡ status_closed → Present (λ t. t ≢ zero_time) i.exit_at
    pub closed_has_exit_price : i.status ≡ status_closed → Present IsPositive i.exit_price
    pub plan_adherence_rated : IfPresent IsRating i.plan_adherence
    pub emotional_state_known : IfPresent IsEmotion i.emotional_state
    pub rationale_short : IfPresent (λ s. len s ≤ 500) i.entry_rationale

  lacks_exit_price_iff : (o : Option F) → (lacks_exit_price ops o ≡ false) ↔ Present IsPositive o
  lacks_exit_price_iff none = ((λ e. cc), λ h. absurd h)
  lacks_exit_price_iff (some p) = ((λ e. e), λ e. e)

  -- The tests of the times and the status fail, and so do those of the optional fields.
  record StatusTestsFail (i : TradeInput F) : Type 0 where
    entry_at : i.entry_at ≢ zero_time
    status : known_status i.status ≡ true
    exit_at : str_eq i.status status_closed ≡ true → lacks_exit_at i.exit_at ≡ false
    exit_price : str_eq i.status status_closed ≡ true → lacks_exit_price ops i.exit_price ≡ false
    plan_adherence : bad_plan_adherence i.plan_adherence ≡ false
    emotional_state : bad_emotion i.emotional_state ≡ false
    entry_rationale : bad_rationale i.entry_rationale ≡ false

  record TestsFail (i : TradeInput F) : Type 0 where
    trade_id : i.trade_id ≢ nil_uuid
    user_id : i.user_id ≢ nil_uuid
    session_id : i.session_id ≢ nil_uuid
    asset : str_eq i.asset "" ≡ false
    asset_class : known_asset_class i.asset_class ≡ true
    direction : known_direction i.direction ≡ true
    entry_price : at_most i.entry_price (of_int (pos 0)) ≡ false
    quantity : at_most i.quantity (of_int (pos 0)) ≡ false
    rest : validate_status ops i ≡ none

  validate_status-StatusTestsFail :
      (i : TradeInput F) → validate_status ops i ≡ none → StatusTestsFail i
  unfolding validate_status validate_optional
  validate_status-StatusTestsFail i h = ground arith

  StatusTestsFail-validate_status :
      (i : TradeInput F) → StatusTestsFail i → validate_status ops i ≡ none
  unfolding validate_status validate_optional
  StatusTestsFail-validate_status i t = ground arith

  validate-TestsFail : (i : TradeInput F) → validate ops i ≡ none → TestsFail i
  unfolding validate
  validate-TestsFail i h = ground arith

  TestsFail-validate : (i : TradeInput F) → TestsFail i → validate ops i ≡ none
  unfolding validate
  TestsFail-validate i t = ground arith

  validate-IsValid : (i : TradeInput F) → validate ops i ≡ none → IsValid i
  validate-IsValid i h =
      let t : TestsFail i = validate-TestsFail i h in
      let u : StatusTestsFail i = validate_status-StatusTestsFail i t.rest in
      record {
        has_trade_id = t.trade_id;
        has_user_id = t.user_id;
        has_session_id = t.session_id;
        has_asset = λ e. cc ((eq_iff i.asset "").1 e, t.asset);
        asset_class_known = (known_asset_class_iff i.asset_class).0 t.asset_class;
        direction_known = (known_direction_iff i.direction).0 t.direction;
        entry_price_positive = t.entry_price;
        quantity_positive = t.quantity;
        has_entry_at = u.entry_at;
        status_known = (known_status_iff i.status).0 u.status;
        closed_has_exit_at =
            λ e. (lacks_exit_at_iff i.exit_at).0 (u.exit_at ((eq_iff i.status status_closed).1 e));
        closed_has_exit_price = λ e.
            (lacks_exit_price_iff i.exit_price).0
              (u.exit_price ((eq_iff i.status status_closed).1 e));
        plan_adherence_rated = (bad_plan_adherence_iff i.plan_adherence).0 u.plan_adherence;
        emotional_state_known = (bad_emotion_iff i.emotional_state).0 u.emotional_state;
        rationale_short = (bad_rationale_iff i.entry_rationale).0 u.entry_rationale;
      }

  IsValid-status : (i : TradeInput F) → IsValid i → StatusTestsFail i
  IsValid-status i v = record {
    entry_at = v.has_entry_at;
    status = (known_status_iff i.status).1 v.status_known;
    exit_at = λ e.
        (lacks_exit_at_iff i.exit_at).1
          (v.closed_has_exit_at ((eq_iff i.status status_closed).0 e));
    exit_price = λ e.
        (lacks_exit_price_iff i.exit_price).1
          (v.closed_has_exit_price ((eq_iff i.status status_closed).0 e));
    plan_adherence = (bad_plan_adherence_iff i.plan_adherence).1 v.plan_adherence_rated;
    emotional_state = (bad_emotion_iff i.emotional_state).1 v.emotional_state_known;
    entry_rationale = (bad_rationale_iff i.entry_rationale).1 v.rationale_short;
  }

  IsValid-validate : (i : TradeInput F) → IsValid i → validate ops i ≡ none
  IsValid-validate i v = TestsFail-validate i (record {
    trade_id = v.has_trade_id;
    user_id = v.has_user_id;
    session_id = v.has_session_id;
    asset = asset_false;
    asset_class = (known_asset_class_iff i.asset_class).1 v.asset_class_known;
    direction = (known_direction_iff i.direction).1 v.direction_known;
    entry_price = v.entry_price_positive;
    quantity = v.quantity_positive;
    rest = StatusTestsFail-validate_status i (IsValid-status i v);
  })
    where
      asset_false : str_eq i.asset "" ≡ false
      asset_false = ground (arith, eq_iff i.asset "", v.has_asset)

  -- validate accepts an input (returns no error) exactly when it meets these rules: the three ids are
  -- not nil, the asset is not empty, asset class, direction, status and an emotion that is there are
  -- of their lists, entry price and quantity are positive, the entry time is not zero, a closed trade
  -- has an exit time that is not zero and a positive exit price, a rating that is there is from 1 to
  -- 5, and a rationale that is there has at most 500 bytes.
  pub validate-none_iff : (i : TradeInput F) → (validate ops i ≡ none) ↔ IsValid i
  validate-none_iff i = (validate-IsValid i, IsValid-validate i)
