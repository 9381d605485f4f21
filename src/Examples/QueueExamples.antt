-- ===== src/Examples/QueueExamples.antt =====
-- Concrete instances of the theorems on the queue and the worker.
use trading_platform_backend.Prelude.{
  ℕ, ◌*◌, ◌/◌, ◌≡◌, refl, String, false, none, some, List, [], ◌∷◌, arith, inl, inr, str_eq, length,
}
use trading_platform_backend.Prelude.Int.{ℤ}
use trading_platform_backend.External.Redis.{Entry, text, canceled, other, reply, fail, Redis}
use trading_platform_backend.Queue.Event.{Event, trade_closed}
use trading_platform_backend.Queue.Codec.{encode_values, decode_values, decode-encode_values}
use trading_platform_backend.Queue.Producer.{Deadline, publish_once, publish}
use trading_platform_backend.Queue.Producer.Retry.{Published, publish-Published}
use trading_platform_backend.Queue.Consumer.{Message, Consumer, decode_entries}
use trading_platform_backend.Queue.Consumer.Delivery.{
  delivered, poison, ack_all, decode_entries-delivered,
}
use trading_platform_backend.Trades.Types.{emo_calm, outcome_win}
use trading_platform_backend.Metrics.WinRate.Counts.{stat}
use trading_platform_backend.Worker.{World, Worker, handle}
use trading_platform_backend.Worker.Poison.{handle-acked}
use trading_platform_backend.Worker.Sessions.{plus, redeliver, IsShared, redeliver-plus}
use trading_platform_backend.Examples.{
  whole_floats, any_numeric, unary_ids, unary_times, ones, log_server, sold_row, intruder_row,
  with_trades,
}

-- The closing of trade 1, at a time with microseconds.
abbrev pub closing : Event
closing = record {
  event_type = trade_closed;
  trade_id = "1";
  user_id = "1111111";
  session_id = "111";
  occurred_at = 12345;
}

decode-encode_values_example :
    decode_values unary_times (encode_values unary_times closing)
    ≡ some (record closing { occurred_at = 12345 / 1000 * 1000 })
decode-encode_values_example = decode-encode_values unary_times closing

abbrev pub soon : Deadline
soon = record { expired = false; ends_in_backoff = false; cause = canceled }

-- A server whose first XADD fails, by no fault of the context.
abbrev flaky_server : Redis (List String)
flaky_server = record log_server {
  xadd = λ stream values r. elim r [
    | [] ↦ (fail other, "XADD" ∷ [])
    | x ∷ xs ↦ (reply "1-0", "XADD" ∷ x ∷ xs)
  ];
}

publish-Published_example :
    let (first, r') = publish_once flaky_server unary_times "trades.events" closing [] in
    Published flaky_server unary_times soon "trades.events" closing first r'
      (publish flaky_server unary_times soon "trades.events" closing [])
publish-Published_example =
    publish-Published flaky_server unary_times soon "trades.events" closing []

abbrev pub group : Consumer
group = record { stream = "trades.events"; group = "metrics"; consumer_name = "worker-1" }

-- An entry without a time, and one that decodes.
abbrev entries : List Entry
entries =
    record { id = "1-0"; values = ("type", text "x") ∷ ("occurredAt", text "x") ∷ [] }
    ∷ record { id = "2-0"; values = encode_values unary_times closing }
    ∷ []

decode_entries-delivered_example :
    decode_entries log_server unary_times group (λ id. 1) entries [] ≡ (
      delivered log_server unary_times group (λ id. 1) entries,
      ack_all log_server unary_times group (poison log_server unary_times entries) [],
    )
decode_entries-delivered_example =
    decode_entries-delivered log_server unary_times group (λ id. 1) entries []

abbrev pub worker : Worker ℤ (List String)
worker = record {
  floats = whole_floats;
  numeric = any_numeric;
  uuids = unary_ids;
  times = unary_times;
  server = log_server;
  producer = none;
  deadline = soon;
}

abbrev pub message : Message
message = record {
  id = "2-0";
  stream = "trades.events";
  group = "metrics";
  event = closing;
  delivery_count = 1;
}

abbrev pub world : World ℤ (List String)
world = record { db = with_trades (sold_row ∷ intruder_row ∷ []); redis = [] }

abbrev moved : Message
moved = record message { event = record closing { event_type = "trade.moved" } }

handle-acked_example :
    handle worker moved world
    ≡ record world { redis = (log_server.xack "trades.events" "metrics" "2-0" []).1 }
handle-acked_example =
    handle-acked worker moved world (inl (inr (inr ((λ e. cc e), (λ e. cc e), (λ e. cc e)))))

closing-IsShared :
    IsShared worker message (sold_row ∷ intruder_row ∷ []) sold_row 3 7 8 emo_calm outcome_win
unfolding ones
closing-IsShared = record {
  closed = refl;
  trade = refl;
  user = refl;
  session = refl;
  stored = refl;
  felt = refl;
  ended = refl;
  different = λ e. omega arith;
  own_close = refl;
  other_close = refl;
}

redeliver-plus_example :
    ((redeliver worker message (1 ∷ 2 ∷ []) world).redis ≡ [])
    × (stat 7 emo_calm (redeliver worker message (1 ∷ 2 ∷ []) world).db.emotion_metrics
        ≡ plus
            (str_eq outcome_win outcome_win)
            (length {A = ℕ} (1 ∷ 2 ∷ []))
            (stat 7 emo_calm world.db.emotion_metrics))
redeliver-plus_example =
    redeliver-plus worker message (sold_row ∷ intruder_row ∷ []) sold_row 3 7 8 emo_calm outcome_win
      closing-IsShared (1 ∷ 2 ∷ []) world (omega arith, (omega arith, tt)) refl refl
