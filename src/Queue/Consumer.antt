-- ===== src/Queue/Consumer.antt =====
-- internal/queue/consumer.go.
pub mod Delivery
use trading_platform_backend.Prelude.{
  ℕ, String, Option, none, some, List, [], ◌∷◌, ◌++◌, map, if◌then◌else◌, str_eq,
}
use trading_platform_backend.Prelude.Int.{ℤ}
use trading_platform_backend.External.Redis.{
  RedisError, redis_nil, canceled, deadline_exceeded, other, Reply, reply, fail, Entry, Pending,
  Redis,
}
use trading_platform_backend.External.TimeText.{TimeText}
use trading_platform_backend.Queue.Event.{Event}
use trading_platform_backend.Queue.Codec.{decode_values}

pub record Message : Type 0 where
  pub id : String
  pub stream : String
  pub group : String
  pub event : Event
  pub delivery_count : ℕ

pub record Consumer : Type 0 where
  pub stream : String
  pub group : String
  pub consumer_name : String

-- The map after the loop: a later entry overwrites an earlier one.
unfoldable pub last_count : List Pending → String → ℕ → ℕ
last_count [] id n = n
last_count (p ∷ ps) id n = last_count ps id (if str_eq p.id id then p.retry_count else n)

-- deliveries[id]; 0 where the map has no entry
unfoldable pub deliveries_of : List Pending → String → ℕ
deliveries_of ps id = last_count ps id 0

-- The two nested loops of Read, in one list.
abbrev join : List (List Entry) → List Entry
join [] = []
join (ms ∷ rest) = ms ++ join rest

module _ {R : Type 0} (redis : Redis R) (times : TimeText) where
  -- Ack
  unfoldable pub ack : Message → R → Reply (Unit {0}) × R
  ack m r = redis.xack m.stream m.group m.id r

  -- One entry: a message, or an acknowledged poison entry.
  abbrev keep_or_drop :
      Consumer → (String → ℕ) → Entry → Option Event → List Message × R → List Message × R
  keep_or_drop c deliveries m (some ev) (out, r) = (
    record {
      id = m.id;
      stream = c.stream;
      group = c.group;
      event = ev;
      delivery_count = deliveries m.id;
    }
        ∷ out,
    r,
  )
  keep_or_drop c deliveries m none (out, r) = (out, r)

  abbrev ack_if_poison : Consumer → Entry → Option Event → R → R
  ack_if_poison c m (some ev) r = r
  ack_if_poison c m none r = (redis.xack c.stream c.group m.id r).1

  -- The loop over the entries of Read and of ClaimStuck: the error of XAck is dropped.
  unfoldable pub decode_entries : Consumer → (String → ℕ) → List Entry → R → List Message × R
  decode_entries c deliveries [] r = ([], r)
  decode_entries c deliveries (m ∷ ms) r =
      let ev = decode_values times m.values in
      keep_or_drop c deliveries m ev (decode_entries c deliveries ms (ack_if_poison c m ev r))

  abbrev read_reply : Consumer → Reply (List (List Entry)) → R → Reply (List Message) × R
  read_reply c (fail redis_nil) r = (reply [], r)
  read_reply c (fail canceled) r = (fail canceled, r)
  read_reply c (fail deadline_exceeded) r = (fail deadline_exceeded, r)
  read_reply c (fail other) r = (fail other, r)
  read_reply c (reply streams) r =
      let (out, r') = decode_entries c (λ id. 1) (join streams) r in (reply out, r')

  -- Read
  unfoldable pub read : Consumer → ℕ → ℤ → R → Reply (List Message) × R
  read c count block r =
      let (res, r') = redis.xread_group c.group c.consumer_name c.stream count block r in
      read_reply c res r'

  abbrev claim_reply : Consumer → List Pending → Reply (List Entry) → R → Reply (List Message) × R
  claim_reply c pending (fail e) r = (fail e, r)
  claim_reply c pending (reply claimed) r =
      let (out, r') = decode_entries c (deliveries_of pending) claimed r in (reply out, r')

  abbrev claim_pending : Consumer → ℕ → Reply (List Pending) → R → Reply (List Message) × R
  claim_pending c min_idle (fail redis_nil) r = (reply [], r)
  claim_pending c min_idle (fail canceled) r = (fail canceled, r)
  claim_pending c min_idle (fail deadline_exceeded) r = (fail deadline_exceeded, r)
  claim_pending c min_idle (fail other) r = (fail other, r)
  claim_pending c min_idle (reply []) r = (reply [], r)
  claim_pending c min_idle (reply (p ∷ ps)) r =
      let (claimed, r') =
        redis.xclaim c.stream c.group c.consumer_name min_idle
          (map (λ (x : Pending). x.id) (p ∷ ps)) r in
      claim_reply c (p ∷ ps) claimed r'

  -- ClaimStuck
  unfoldable pub claim_stuck : Consumer → ℕ → ℕ → R → Reply (List Message) × R
  claim_stuck c min_idle count r =
      let (pending, r') = redis.xpending_ext c.stream c.group min_idle count r in
      claim_pending c min_idle pending r'

  abbrev lag_reply : Reply ℕ → Reply ℕ
  lag_reply (reply n) = reply n
  lag_reply (fail redis_nil) = reply 0
  lag_reply (fail canceled) = fail canceled
  lag_reply (fail deadline_exceeded) = fail deadline_exceeded
  lag_reply (fail other) = fail other

  -- QueueLag
  unfoldable pub queue_lag : Consumer → R → Reply ℕ × R
  queue_lag c r = let (pending, r') = redis.xpending c.stream c.group r in (lag_reply pending, r')
