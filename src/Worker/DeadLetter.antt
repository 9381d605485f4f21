-- ===== src/Worker/DeadLetter.antt =====
-- A message that keeps failing: handle of internal/worker/worker.go on what Read and ClaimStuck of
-- internal/queue/consumer.go hand on of one entry.
use trading_platform_backend.Prelude.{
  ℕ, suc, ◌+◌, ◌≤◌, ◌<◌, ◌≡◌, inl, inr, refl, ap, ◌∙◌, some, List, [], ◌∷◌, ◌++◌, map, length, leb,
  Bool-cases, eq_refl, arith,
}
use trading_platform_backend.External.Redis.{Entry, Pending}
use trading_platform_backend.Queue.Event.{Event}
use trading_platform_backend.Queue.Codec.{decode_values}
use trading_platform_backend.Queue.Consumer.{
  Message, Consumer, last_count, deliveries_of, decode_entries,
}
use trading_platform_backend.Queue.Consumer.Delivery.{decode_entries-delivered}
use trading_platform_backend.Worker.{World, Worker, max_deliveries, handle, handle_all}
use trading_platform_backend.Worker.Poison.{handle-acked}

-- Each count is above the one before it, the first at least n.
abbrev pub Rising : ℕ → List ℕ → Type 0
Rising n [] = Unit {0}
Rising n (k ∷ ks) = (n ≤ k) × Rising (suc k) ks

-- The entry as a message that was delivered k times.
abbrev message_of : Consumer → Entry → Event → ℕ → Message
message_of c e ev k = record {
  id = e.id;
  stream = c.stream;
  group = c.group;
  event = ev;
  delivery_count = k;
}

-- The line of XPENDING for the entry, with its count before the claim.
abbrev pub shown : Entry → ℕ → List Pending
shown e k = record { id = e.id; retry_count = k } ∷ []

module _ {F R : Type 0} (w : Worker F R) where
  open w use {server, times}

  -- Of these deliveries one is acknowledged unprocessed, behind at most five minus n others.
  pub record IsDeadLettered (n : ℕ) (ms : List Message) (s : World F R) : Type 0 where
    pub before : List Message
    pub last : Message
    pub after : List Message
    pub split : ms ≡ before ++ last ∷ after
    pub few : length before + n ≤ max_deliveries
    pub acknowledged :
        let t = handle_all w before s in
        handle w last t
        ≡ record t { redis = (w.server.xack last.stream last.group last.id t.redis).1 }

  -- What the loop of ClaimStuck hands on of the entry, claim after claim.
  abbrev pub claims : Consumer → Entry → List ℕ → R → List Message
  claims c e [] r = []
  claims c e (k ∷ ks) r =
      (decode_entries server times c (deliveries_of (shown e k)) (e ∷ []) r).0 ++ claims c e ks r

  -- The same behind what the loop of Read hands on of it.
  abbrev pub deliveries : Consumer → Entry → List ℕ → R → List Message
  deliveries c e ks r = (decode_entries server times c (λ id. 1) (e ∷ []) r).0 ++ claims c e ks r

  module _ (c : Consumer) (e : Entry) (ev : Event)
      (decodes : decode_values times e.values ≡ some ev) where
    shown_count : (k : ℕ) → deliveries_of (shown e k) e.id ≡ k
    unfolding deliveries_of last_count
    shown_count k = rw (eq_refl e.id) refl

    claims-map : (ks : List ℕ) (r : R) → claims c e ks r ≡ map (message_of c e ev) ks
    claims-map [] r = refl
    claims-map (k ∷ ks) r =
        rw (decode_entries-delivered server times c (deliveries_of (shown e k)) (e ∷ []) r, decodes)
          (rw (shown_count k, claims-map ks r) refl)

    deliveries-map :
        (ks : List ℕ) (r : R)
        → deliveries c e ks r ≡ message_of c e ev 1 ∷ map (message_of c e ev) ks
    deliveries-map ks r =
        rw (decode_entries-delivered server times c (λ id. 1) (e ∷ []) r, decodes)
          (rw (claims-map ks r) refl)

    claimed-IsDeadLettered :
        (n : ℕ) (ks : List ℕ) (s : World F R)
        → Rising n ks
        → n ≤ max_deliveries
        → max_deliveries < length ks + n
        → IsDeadLettered n (map (message_of c e ev) ks) s
    unfolding handle_all
    claimed-IsDeadLettered n [] s rising below many = absurd (omega arith)
    claimed-IsDeadLettered n (k ∷ ks) s rising below many =
        elim (Bool-cases (leb max_deliveries k)) [
          | inl enough ↦ record {
            before = [];
            last = message_of c e ev k;
            after = map (message_of c e ev) ks;
            split = refl;
            few = omega arith;
            acknowledged = handle-acked w (message_of c e ev k) s (inr (ground arith));
          }
          | inr fewer ↦
              let later =
                claimed-IsDeadLettered (suc k) ks (handle w (message_of c e ev k) s) rising.1
                  (ground arith) (omega (arith, rising.0)) in
              record {
                before = message_of c e ev k ∷ later.before;
                last = later.last;
                after = later.after;
                split = ap (λ ms. message_of c e ev k ∷ ms) later.split;
                few = omega (arith, later.few, rising.0);
                acknowledged = later.acknowledged;
              }
        ]

    -- The deliveries of one entry that decodes, as the consumer hands them on: the first by the loop of
    -- Read; then one by the loop of ClaimStuck for each of five claims or more, with the counts that
    -- XPENDING shows before each claim, the first at least 1, and rising from claim to claim. One of
    -- them is acknowledged without a calculator, whatever the calculators, the database and the server
    -- do, and at most five come before it. No message is handed to the calculators for ever.
    pub deliveries-IsDeadLettered :
        (ks : List ℕ) (r : R) (s : World F R)
        → Rising 1 ks
        → max_deliveries ≤ length ks
        → IsDeadLettered 0 (deliveries c e ks r) s
    unfolding handle_all
    deliveries-IsDeadLettered ks r s rising many =
        let m : Message = message_of c e ev 1 in
        let later = claimed-IsDeadLettered 1 ks (handle w m s) rising (omega arith) (omega arith) in
        record {
          before = m ∷ later.before;
          last = later.last;
          after = later.after;
          split = deliveries-map ks r ∙ ap (λ ms. m ∷ ms) later.split;
          few = omega (arith, later.few);
          acknowledged = later.acknowledged;
        }
