-- ===== src/Pipeline/Measured.antt =====
-- A closed trade on its way from POST /trades through the stream and the worker.
use trading_platform_backend.Prelude.{
  ℕ, ◌*◌, ◌/◌, ◌<◌, ◌≡◌, inl, inr, refl, ap, ◌∙◌, String, true, false, none, some, List, [], ◌∷◌,
  ◌++◌, arith, str_eq, find_row, where_rows-append_one, length-append, All, All-append_one, leb,
  Option-cases,
}
use trading_platform_backend.Database.{Db}
use trading_platform_backend.Database.Exec.{ok}
use trading_platform_backend.Httpx.{Context}
use trading_platform_backend.Queue.Event.{Event, trade_closed}
use trading_platform_backend.Queue.Codec.{encode_values, decode-encode_values}
use trading_platform_backend.Queue.Consumer.{Message, Consumer, decode_entries, ack}
use trading_platform_backend.Metrics.Repo.{closed_in_session}
use trading_platform_backend.Metrics.PlanAdherence.{plan_adherence}
use trading_platform_backend.Worker.{
  Processed, World, Worker, max_deliveries, process, process_closed, handle, handle_all,
}
use trading_platform_backend.Pipeline.Counted.{IsCounted, process_closed-IsCounted, closed_of}
use trading_platform_backend.Trades.Types.{Time, TradeInput, Trade, status_closed}
use trading_platform_backend.Trades.Validate.Rules.{IsValid}
use trading_platform_backend.Trades.Repo.{has_id, derive}
use trading_platform_backend.Trades.Repo.Idempotence.{IsStorable, find_row-append}
use trading_platform_backend.Trades.Handler.{decoded, event_for, create}
use trading_platform_backend.Pipeline.Posted.{create-IsPosted, HasColumns, row_of-HasColumns}

module _ {F R : Type 0} (w : Worker F R) where
  open w use {floats, numeric, uuids, times, server}

  -- The event of a closed trade, at its exit time.
  abbrev closing : TradeInput F → Time → Event
  closing i at = record {
    event_type = trade_closed;
    trade_id = uuids.to_string i.trade_id;
    user_id = uuids.to_string i.user_id;
    session_id = uuids.to_string i.session_id;
    occurred_at = at;
  }

  event_for-closed :
      (i : TradeInput F) (t : Trade F)
      → IsValid floats i
      → HasColumns floats numeric uuids i t
      → i.status ≡ status_closed
      → (at : Time) × (event_for uuids t ≡ closing i at)
  unfolding event_for
  event_for-closed i t valid same closed = elim (Option-cases i.exit_at) [
    | inl missing ↦ absurd (rw missing at (valid.closed_has_exit_at closed))
    | inr (at, given) ↦
        let is_closed : str_eq t.status status_closed ≡ true = rw (same.status, closed) refl in
        (at, rw (is_closed, same.exit_at, given, same.trade_id, same.user_id, same.session_id) refl)
  ]

  outcome-closed :
      (i : TradeInput F)
      → IsValid floats i
      → i.status ≡ status_closed
      → (outcome : String) × ((derive floats i).outcome ≡ some outcome)
  unfolding derive
  outcome-closed i valid closed = elim (Option-cases i.exit_price) [
    | inl missing ↦ absurd (rw missing at (valid.closed_has_exit_price closed))
    | inr (price, given) ↦ elim (Option-cases (derive floats i).outcome) [
      | inl open_trade ↦ absurd (cc (rw (closed, given) at open_trade))
      | inr known ↦ known
    ]
  ]

  -- The message that the consumer makes of the producer's entry for an event.
  abbrev pub received : Consumer → (String → ℕ) → String → Event → R → List Message × R
  received c deliveries id ev r =
      decode_entries server times c deliveries
        (record { id = id; values = encode_values times ev } ∷ []) r

  abbrev message_of : Consumer → ℕ → String → Event → Message
  message_of c n id ev = record {
    id = id;
    stream = c.stream;
    group = c.group;
    event = record ev { occurred_at = ev.occurred_at / 1000 * 1000 };
    delivery_count = n;
  }

  received_lem :
      (c : Consumer) (deliveries : String → ℕ) (id : String) (ev : Event) (r : R)
      → received c deliveries id ev r ≡ (message_of c (deliveries id) id ev ∷ [], r)
  unfolding decode_entries
  received_lem c deliveries id ev r = rw (decode-encode_values times ev) refl

  process-closing :
      (i : TradeInput F) (at : Time) (s : World F R)
      → process w (closing i at) s ≡ process_closed w i.trade_id i.user_id i.session_id s
  unfolding process
  process-closing i at s =
      rw
        (
          uuids.parse-to_string i.trade_id,
          uuids.parse-to_string i.user_id,
          uuids.parse-to_string i.session_id,
        )
        refl

  handle-succeeded :
      (m : Message) (s s' : World F R)
      → m.delivery_count < max_deliveries
      → process w m.event s ≡ (record { failures = 0; malformed = false }, s')
      → handle w m s ≡ record s' { redis = (server.xack m.stream m.group m.id s'.redis).1 }
  unfolding handle ack
  handle-succeeded m s s' few e =
      let early : leb max_deliveries m.delivery_count ≡ false = ground arith in rw (early, e) refl

  -- What has come of a posted trade, with its event handled: the new row is the storable row of the
  -- body, its outcome is counted, the session's row is up to date, and the message is acknowledged.
  pub record IsMeasured (i : TradeInput F) (emo : String) (c : Consumer) (id : String) (db : Db F)
      (r : R) (after : World F R) : Type 0 where
    pub stored : Trade F
    pub outcome : String
    pub storable : IsStorable floats numeric i db.now stored
    pub derived : (derive floats i).outcome ≡ some outcome
    pub is_counted :
        IsCounted w i.user_id i.session_id emo outcome
          (record { db = record db { trades = db.trades ++ stored ∷ [] }; redis = r })
          after
    pub acknowledged : after.redis ≡ (server.xack c.stream c.group id r).1

  handled-IsMeasured :
      (i : TradeInput F) (emo outcome : String) (c : Consumer) (deliveries : String → ℕ)
      (id : String) (at : Time) (t : Trade F) (db : Db F) (r : R)
      → let posted : Db F = record db { trades = db.trades ++ t ∷ [] } in
        db.faults ≡ []
        → IsStorable floats numeric i db.now t
        → HasColumns floats numeric uuids i t
        → find_row (has_id i.trade_id) db.trades ≡ none
        → i.status ≡ status_closed
        → i.emotional_state ≡ some emo
        → (derive floats i).outcome ≡ some outcome
        → deliveries id < max_deliveries
        → All (λ u. u.user_id ≡ i.user_id) (closed_of i.session_id db.trades)
        → (plan_adherence floats numeric i.user_id posted).0 ≡ ok tt
        → let (ms, r') = received c deliveries id (closing i at) r in
          IsMeasured i emo c id db r (handle_all w ms (record { db = posted; redis = r' }))
  unfolding handle_all
  handled-IsMeasured i emo outcome c deliveries id at t db r calm storable same absent closed felt
        derived few own scored =
      let posted : Db F = record db { trades = db.trades ++ t ∷ [] } in
      let s : World F R = record { db = posted; redis = r } in
      let mine : closed_in_session i.session_id t ≡ true =
        rw (same.session_id, same.status, closed) (ground arith) in
      let rows = where_rows-append_one (closed_in_session i.session_id) t db.trades mine in
      let counts =
        process_closed-IsCounted w i.trade_id i.user_id i.session_id emo outcome t s calm
          (find_row-append i.trade_id t db.trades absent same.trade_id)
          (same.emotional_state ∙ felt) (same.outcome ∙ derived)
          (rw rows (
            All-append_one (λ (u : Trade F). u.user_id ≡ i.user_id) t
              (closed_of i.session_id db.trades) own same.user_id))
          (rw rows (omega (arith, length-append (closed_of i.session_id db.trades) (t ∷ []))))
          scored in
      let out : Processed × World F R = process_closed w i.trade_id i.user_id i.session_id s in
      let m : Message = message_of c (deliveries id) id (closing i at) in
      let handled =
        handle-succeeded m s out.1 few
          (process-closing i (at / 1000 * 1000) s ∙ ap (λ p. (p, out.1)) counts.0) in
      rw (received_lem c deliveries id (closing i at) r, handled)
        (record {
          stored = t;
          outcome = outcome;
          storable = storable;
          derived = derived;
          is_counted = record {
            trades = counts.2.trades;
            stats = counts.2.stats;
            tilt = counts.2.tilt;
          };
          acknowledged = ap (λ x. (server.xack c.stream c.group id x).1) counts.1;
        })

  -- A closed trade with an emotion that POST /trades stored and gave to the producer, whose event the
  -- consumer hands to the worker below the limit of deliveries, where no statement fails, the closed
  -- trades of the session are all of this user and the user's score fits its column: the table has the
  -- storable row of the body, its outcome is counted once for the user and the emotion and for no
  -- others, the row of the session is up to date, and the message is acknowledged.
  pub create-IsMeasured :
      (ctx : Context) (i : TradeInput F) (emo : String) (c : Consumer) (deliveries : String → ℕ)
      (id : String) (ev : Event) (db : Db F) (r : R)
      → let out = create floats numeric uuids true ctx (decoded i) db in
        db.faults ≡ []
        → out.0.publishes ≡ some ev
        → i.status ≡ status_closed
        → i.emotional_state ≡ some emo
        → deliveries id < max_deliveries
        → All (λ u. u.user_id ≡ i.user_id) (closed_of i.session_id db.trades)
        → (plan_adherence floats numeric i.user_id out.1).0 ≡ ok tt
        → IsMeasured i emo c id db r (
            handle_all w
              (received c deliveries id ev r).0
              (record { db = out.1; redis = (received c deliveries id ev r).1 }))
  create-IsMeasured ctx i emo c deliveries id ev db r calm published closed felt few own scored =
      let p = create-IsPosted floats numeric uuids ctx i db ev calm published in
      let same = row_of-HasColumns floats numeric uuids i db.now p.stored p.storable.0 in
      let (at, is_closing) = event_for-closed i p.stored p.valid same closed in
      let (outcome, derived) = outcome-closed i p.valid closed in
      let e : ev ≡ closing i at = p.event ∙ is_closing in
      rw (e, p.tables)
        (handled-IsMeasured i emo outcome c deliveries id at p.stored db r calm p.storable same
          p.absent closed felt derived few own (rw p.tables at scored))
