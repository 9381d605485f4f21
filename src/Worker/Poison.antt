-- ===== src/Worker/Poison.antt =====
-- Messages that no retry can help: process and handle of internal/worker/worker.go.
use trading_platform_backend.Prelude.{
  ◌≤◌, ◌≡◌, ◌≢◌, ◌⊎◌, inl, inr, refl, String, true, false, Option, none, some, arith, str_eq,
  eq_iff,
}
use trading_platform_backend.Queue.Event.{Event, trade_opened, trade_closed, overtrading_detected}
use trading_platform_backend.Queue.Consumer.{Message, ack}
use trading_platform_backend.Trades.Types.{Uuid}
use trading_platform_backend.Worker.{
  World, Worker, max_deliveries, opened_ids, closed_ids, process, handle, dropped,
}

module _ {F R : Type 0} (w : Worker F R) where
  open w use {uuids, server, times}

  abbrev IsNoId : String → Type 0
  IsNoId s = uuids.parse s ≡ none

  -- An event of an unknown type, or one without an id that its calculators need.
  abbrev pub IsPoison : Event → Type 0
  IsPoison ev =
      ((ev.event_type ≡ trade_opened) × (IsNoId ev.trade_id ⊎ IsNoId ev.user_id))
      ⊎ ((ev.event_type ≡ trade_closed)
          × (IsNoId ev.trade_id ⊎ IsNoId ev.user_id ⊎ IsNoId ev.session_id))
      ⊎ ((ev.event_type ≢ trade_opened)
          × (ev.event_type ≢ trade_closed)
          × (ev.event_type ≢ overtrading_detected))

  opened-dropped :
      (a b : Option Uuid) (ev : Event) (s : World F R)
      → (a ≡ none) ⊎ (b ≡ none)
      → opened_ids w a b ev s ≡ (dropped w, s)
  opened-dropped none b ev s h = refl
  opened-dropped (some a) none ev s h = refl
  opened-dropped (some a) (some b) ev s (inl e) = absurd (cc e)
  opened-dropped (some a) (some b) ev s (inr e) = absurd (cc e)

  closed-dropped :
      (a b c : Option Uuid) (s : World F R)
      → (a ≡ none) ⊎ (b ≡ none) ⊎ (c ≡ none)
      → closed_ids w a b c s ≡ (dropped w, s)
  closed-dropped none b c s h = refl
  closed-dropped (some a) none c s h = refl
  closed-dropped (some a) (some b) none s h = refl
  closed-dropped (some a) (some b) (some c) s (inl e) = absurd (cc e)
  closed-dropped (some a) (some b) (some c) s (inr (inl e)) = absurd (cc e)
  closed-dropped (some a) (some b) (some c) s (inr (inr e)) = absurd (cc e)

  process_poison : (ev : Event) (s : World F R) → IsPoison ev → process w ev s ≡ (dropped w, s)
  unfolding process
  process_poison ev s (inl (e, h)) =
      let same : str_eq ev.event_type trade_opened ≡ true =
        (eq_iff ev.event_type trade_opened).1 e in
      rw same (opened-dropped (uuids.parse ev.trade_id) (uuids.parse ev.user_id) ev s h)
  process_poison ev s (inr (inl (e, h))) =
      let same : str_eq ev.event_type trade_closed ≡ true =
        (eq_iff ev.event_type trade_closed).1 e in
      let other : str_eq ev.event_type trade_opened ≡ false = rw e refl in
      rw (other, same)
        (closed-dropped (uuids.parse ev.trade_id) (uuids.parse ev.user_id)
          (uuids.parse ev.session_id) s h)
  process_poison ev s (inr (inr (a, b, c))) = ground (
    arith,
    eq_iff ev.event_type trade_opened,
    eq_iff ev.event_type trade_closed,
    eq_iff ev.event_type overtrading_detected,
  )

  -- A message of a poison event (an unknown type, or an id missing that its calculators need), and
  -- any message delivered five times or more, is acknowledged at once, and the database is as
  -- before: neither can hold up the stream or run a calculator.
  pub handle-acked :
      (m : Message) (s : World F R)
      → IsPoison m.event ⊎ (max_deliveries ≤ m.delivery_count)
      → handle w m s ≡ record s { redis = (server.xack m.stream m.group m.id s.redis).1 }
  unfolding handle ack
  handle-acked m s (inl h) = rw (process_poison m.event s h) (ground arith)
  handle-acked m s (inr h) = ground arith
