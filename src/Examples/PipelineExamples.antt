-- ===== src/Examples/PipelineExamples.antt =====
-- Concrete instances of the theorems on the way of a trade: user 7 posts a win behind a loss, and
-- posts it again.
use trading_platform_backend.Prelude.{◌≡◌, refl, [], ◌∷◌, none, some, true, arith}
use trading_platform_backend.Prelude.Int.{ℤ}
use trading_platform_backend.Database.{Db}
use trading_platform_backend.Queue.Event.{Event}
use trading_platform_backend.Trades.Types.{emo_calm, Trade}
use trading_platform_backend.Database.Exec.{ok}
use trading_platform_backend.Trades.Validate.{
  validate, known_asset_class, known_direction, validate_status, known_status, validate_optional,
  bad_emotion,
}
use trading_platform_backend.Trades.Repo.{
  insert, row_of, derive, satisfies_checks, round8, signf, signed_delta,
}
use trading_platform_backend.Metrics.Repo.{set_plan_adherence_score}
use trading_platform_backend.Metrics.PlanAdherence.{plan_adherence, last_ten}
use trading_platform_backend.Trades.Handler.{decoded, event_for, create}
use trading_platform_backend.Httpx.{write_json}
use trading_platform_backend.Worker.{handle_all}
use trading_platform_backend.Worker.Loop.{run}
use trading_platform_backend.Pipeline.Repeated.{unflagged, Later, at_once, post, work, create-Later}
use trading_platform_backend.Pipeline.Measured.{IsMeasured, received, create-IsMeasured}
use trading_platform_backend.Examples.{
  whole_floats, any_numeric, unary_ids, sold, sold_row, lost_row, opened_row, with_trades,
  as_trader,
}
use trading_platform_backend.Examples.QueueExamples.{worker, group}
use trading_platform_backend.Examples.AccessExamples.{turn_at_tick, turn_at_end}

abbrev after_loss : Db ℤ
after_loss = with_trades (lost_row ∷ [])

abbrev sold_event : Event
sold_event = event_for unary_ids sold_row

sold_published :
    (create whole_floats any_numeric unary_ids true as_trader (decoded sold) after_loss).0.publishes
    ≡ some sold_event
unfolding create validate known_asset_class known_direction validate_status known_status
    validate_optional bad_emotion insert row_of derive satisfies_checks event_for
sold_published = refl

sold_scored :
    (plan_adherence whole_floats any_numeric 7
      (create whole_floats any_numeric unary_ids true as_trader (decoded sold) after_loss).1).0
    ≡ ok tt
unfolding create validate known_asset_class known_direction validate_status known_status
    validate_optional bad_emotion insert row_of derive satisfies_checks plan_adherence last_ten
    set_plan_adherence_score
sold_scored = refl

create-IsMeasured_example :
    let out = create whole_floats any_numeric unary_ids true as_trader (decoded sold) after_loss in
    let (ms, r) = received worker group (λ id. 1) "5-0" sold_event [] in
    IsMeasured worker sold emo_calm group "5-0" after_loss []
      (handle_all worker ms (record { db = out.1; redis = r }))
create-IsMeasured_example =
    create-IsMeasured worker as_trader sold emo_calm group (λ id. 1) "5-0" sold_event after_loss []
      refl sold_published refl refl (omega arith) (omega arith) sold_scored

sold_created :
    (create whole_floats any_numeric unary_ids true as_trader (decoded sold) after_loss).0.response
    ≡ write_json 200 sold_row
unfolding create validate validate_status validate_optional insert derive row_of satisfies_checks
    round8 signf signed_delta known_asset_class known_direction known_status bad_emotion
sold_created = refl

-- Another body is posted, one statement of which fails, and the worker makes two passes.
posted_and_worked :
    (d : Db ℤ)
    → Later worker d
        (run worker group (turn_at_tick ∷ turn_at_end ∷ []) (record {
          db =
              record (create whole_floats any_numeric unary_ids true as_trader
                (decoded opened_row.input)
                (record d { now = 300; faults = true ∷ [] })).1 { now = 400; faults = [] };
          redis = [];
        })).1.db
posted_and_worked d =
    work (post at_once true as_trader (decoded opened_row.input) 300 (true ∷ [])) group
      (turn_at_tick ∷ turn_at_end ∷ []) [] 400 []

create-Later_example :
    let db1 =
      (create whole_floats any_numeric unary_ids true as_trader (decoded sold) after_loss).1 in
    let db2 =
      (run worker group (turn_at_tick ∷ turn_at_end ∷ []) (record {
        db =
            record (create whole_floats any_numeric unary_ids true as_trader
              (decoded opened_row.input)
              (record db1 { now = 300; faults = true ∷ [] })).1 { now = 400; faults = [] };
        redis = [];
      })).1.db in
    let db' = record db2 { now = 500; faults = [] } in
    (u : Trade ℤ) × (unflagged u ≡ unflagged sold_row)
    × (create whole_floats any_numeric unary_ids true as_trader (decoded sold) db'
        ≡ (record { response = write_json 200 u; publishes = none }, db'))
create-Later_example =
    create-Later worker true true as_trader as_trader sold after_loss
      (run worker group (turn_at_tick ∷ turn_at_end ∷ []) (record {
        db =
            record (create whole_floats any_numeric unary_ids true as_trader
              (decoded opened_row.input)
              (record (create whole_floats any_numeric unary_ids true as_trader (decoded sold)
                after_loss).1 { now = 300; faults = true ∷ [] })).1 { now = 400; faults = [] };
        redis = [];
      })).1.db
      500 sold_row sold_created
      (posted_and_worked
        (create whole_floats any_numeric unary_ids true as_trader (decoded sold) after_loss).1)
      refl
