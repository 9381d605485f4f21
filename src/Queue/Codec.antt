-- ===== src/Queue/Codec.antt =====
-- The stream entry of an event: the Values of publishOnce in internal/queue/producer.go, and
-- decodeValues of internal/queue/consumer.go.
use trading_platform_backend.Prelude.{
  ℕ, ◌*◌, ◌/◌, String, ◌≡◌, Option, none, some, [], ◌∷◌, if◌then◌else◌, str_eq,
}
use trading_platform_backend.External.Redis.{Value, text, not_text, Values}
use trading_platform_backend.External.TimeText.{TimeText}
use trading_platform_backend.Queue.Event.{Event}

-- v[k].(string), and "" where there is no text under the key
abbrev pub text_of : Option Value → String
text_of none = ""
text_of (some (text s)) = s
text_of (some not_text) = ""

abbrev pub lookup : String → Values → Option Value
lookup k [] = none
lookup k ((j, v) ∷ rest) = let later = lookup k rest in if str_eq j k then some v else later

abbrev pub get : Values → String → String
get v k = text_of (lookup k v)

module _ (times : TimeText) where
  open times use {format, parse, parse-format}

  unfoldable pub encode_values : Event → Values
  encode_values ev =
      ("type", text ev.event_type)
      ∷ ("tradeId", text ev.trade_id)
      ∷ ("userId", text ev.user_id)
      ∷ ("sessionId", text ev.session_id)
      ∷ ("occurredAt", text (format ev.occurred_at))
      ∷ []

  abbrev decode_at : Values → Option ℕ → Option Event
  decode_at v none = none
  decode_at v (some t) = some (record {
    event_type = get v "type";
    trade_id = get v "tradeId";
    user_id = get v "userId";
    session_id = get v "sessionId";
    occurred_at = t;
  })

  -- decodeValues; none is its error
  unfoldable pub decode_values : Values → Option Event
  decode_values v = decode_at v (parse (get v "occurredAt"))

  -- Round trip: a consumer decodes what a producer encoded to the same event, with the time cut to
  -- milliseconds.
  pub decode-encode_values :
      (ev : Event)
      → decode_values (encode_values ev)
        ≡ some (record ev { occurred_at = ev.occurred_at / 1000 * 1000 })
  unfolding decode_values encode_values
  decode-encode_values ev = rw (parse-format ev.occurred_at)
