-- ===== src/Queue/Consumer/Delivery.antt =====
-- The loop that Read and ClaimStuck of internal/queue/consumer.go share: what is handed to the
-- worker, and what is acknowledged at once.
use trading_platform_backend.Prelude.{
  ℕ, String, ◌≡◌, refl, Option, none, some, List, [], ◌∷◌, Option-cases, inl, inr,
}
use trading_platform_backend.External.Redis.{Entry, Redis}
use trading_platform_backend.External.TimeText.{TimeText}
use trading_platform_backend.Queue.Event.{Event}
use trading_platform_backend.Queue.Codec.{decode_values}
use trading_platform_backend.Queue.Consumer.{Message, Consumer, decode_entries}

-- A message for an entry that decodes, in the order of the stream.
abbrev pub add_message :
    Consumer → (String → ℕ) → Entry → Option Event → List Message → List Message
add_message c deliveries m none out = out
add_message c deliveries m (some ev) out =
    (record {
      id = m.id;
      stream = c.stream;
      group = c.group;
      event = ev;
      delivery_count = deliveries m.id;
    })
    ∷ out

abbrev pub add_poison : Entry → Option Event → List String → List String
add_poison m none ids = m.id ∷ ids
add_poison m (some ev) ids = ids

module _ {R : Type 0} (redis : Redis R) (times : TimeText) where
  abbrev pub delivered : Consumer → (String → ℕ) → List Entry → List Message
  delivered c deliveries [] = []
  delivered c deliveries (m ∷ ms) =
      add_message c deliveries m (decode_values times m.values) (delivered c deliveries ms)

  -- The ids of the entries that do not decode.
  abbrev pub poison : List Entry → List String
  poison [] = []
  poison (m ∷ ms) = add_poison m (decode_values times m.values) (poison ms)

  -- One XACK for each id, in order.
  abbrev pub ack_all : Consumer → List String → R → R
  ack_all c [] r = r
  ack_all c (id ∷ ids) r = ack_all c ids (redis.xack c.stream c.group id r).1

  -- The loop hands on one message for each entry that decodes, in order and with the group's
  -- delivery count, and sends one XACK for each entry that does not, and no other command.
  pub decode_entries-delivered :
      (c : Consumer) (deliveries : String → ℕ) (ms : List Entry) (r : R)
      → decode_entries redis times c deliveries ms r
        ≡ (delivered c deliveries ms, ack_all c (poison ms) r)
  unfolding decode_entries
  decode_entries-delivered c deliveries [] r = refl
  decode_entries-delivered c deliveries (m ∷ ms) r =
      elim (Option-cases (decode_values times m.values)) [
        | inl e ↦
            rw e (decode_entries-delivered c deliveries ms (redis.xack c.stream c.group m.id r).1)
        | inr (ev, e) ↦ rw e (rw (decode_entries-delivered c deliveries ms r) refl)
      ]
