-- ===== src/Examples/ApiExamples.antt =====
-- Concrete instances of the theorems on the trace id, with a request of user 7 that has an id of its
-- own, and on the work before the api serves.
use trading_platform_backend.Prelude.{true, [], ◌∷◌}
use trading_platform_backend.Trades.Handler.{decoded}
use trading_platform_backend.Prelude.Int.{pos}
use trading_platform_backend.Config.{Config, config_of}
use trading_platform_backend.Api.Prepared.{IsPrepared, prepare-IsPrepared}
use trading_platform_backend.Examples.BootExamples.{seed_text, one_line}
use trading_platform_backend.Api.{post_trades, get_trades, get_user_metrics, prepare}
use trading_platform_backend.Api.Traced.{IsTracedAnswer, routes-IsTracedAnswer}
use trading_platform_backend.Examples.{
  whole_floats, any_numeric, unary_ids, unary_times, sold, lost_row, with_trades, as_trader,
}
use trading_platform_backend.Examples.AccessExamples.{any_token}
use trading_platform_backend.Examples.RepoExamples.{daily}

routes-IsTracedAnswer_example :
    let db = with_trades (lost_row ∷ []) in
    IsTracedAnswer "abc" (
      post_trades whole_floats any_numeric unary_ids unary_times any_token
        (λ s. s)
        "secret"
        "fresh"
        "abc"
        "Bearer a.b.c"
        (decoded sold)
        as_trader
        (db, []))
    × IsTracedAnswer "abc" (
        get_trades whole_floats any_numeric unary_ids unary_times any_token
          (λ s. s)
          "secret"
          "fresh"
          "abc"
          "Bearer a.b.c"
          "111"
          as_trader
          db)
    × IsTracedAnswer "abc" (
        get_user_metrics whole_floats any_numeric unary_ids unary_times any_token
          (λ s. s)
          "secret"
          "fresh"
          "abc"
          "Bearer a.b.c"
          "111"
          daily
          as_trader
          db)
routes-IsTracedAnswer_example =
    routes-IsTracedAnswer whole_floats any_numeric unary_ids unary_times any_token (λ s. s) "secret"
      "fresh" "abc" "Bearer a.b.c" "111" (decoded sold) daily as_trader
      (with_trades (lost_row ∷ [])) []

abbrev seeding : Config
seeding = record (config_of (λ key. "set") (pos 8080)) { seed_on_start = true }

prepare-IsPrepared_example :
    IsPrepared whole_floats any_numeric
      (with_trades (lost_row ∷ []))
      (prepare whole_floats any_numeric unary_times seed_text
        (λ ids. ids)
        (λ ids. ids)
        seeding
        one_line
        (with_trades (lost_row ∷ []))).1
prepare-IsPrepared_example =
    prepare-IsPrepared whole_floats any_numeric unary_times seed_text (λ ids. ids) (λ ids. ids)
      one_line seeding (with_trades (lost_row ∷ []))
