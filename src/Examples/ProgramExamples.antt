-- ===== src/Examples/ProgramExamples.antt =====
-- Concrete instances of the theorems on the two programs, the log and the end of the worker's loop.
use trading_platform_backend.Prelude.{
  ℕ, ◌*◌, ◌/◌, ◌≡◌, refl, inl, String, true, none, some, List, [], ◌∷◌, arith, if◌then◌else◌,
  str_eq,
}
use trading_platform_backend.Prelude.Int.{ℤ}
use trading_platform_backend.External.Redis.{Redis, Entry, canceled, fail}
use trading_platform_backend.Config.{Environment, load}
use trading_platform_backend.Config.Required.{IsLoad, load-IsLoad}
use trading_platform_backend.Httpx.{Context}
use trading_platform_backend.Middleware.{authenticate}
use trading_platform_backend.Middleware.Log.{Writer, Request, calls_of}
use trading_platform_backend.Middleware.Recover.{Ran}
use trading_platform_backend.Queue.Event.{Event}
use trading_platform_backend.Queue.Codec.{encode_values, decode-encode_values}
use trading_platform_backend.Worker.{Worker}
use trading_platform_backend.Worker.DeadLetter.{
  IsDeadLettered, deliveries, deliveries-IsDeadLettered,
}
use trading_platform_backend.Worker.Loop.{returned, run}
use trading_platform_backend.Worker.Loop.Done.{IsDone, run-done}
use trading_platform_backend.Programs.{Held, Libraries}
use trading_platform_backend.Programs.ApiMain.{Servers, Sources, signalled, run_api}
use trading_platform_backend.Programs.ApiMain.Boots.{IsApiEnd, run_api-IsApiEnd}
use trading_platform_backend.Examples.{
  whole_floats, any_numeric, unary_ids, unary_times, log_server, lost_row, with_trades,
}
use trading_platform_backend.Examples.AccessExamples.{
  any_token, say_seven, turn_at_tick, turn_at_end,
}
use trading_platform_backend.Examples.BootExamples.{
  two_files, append_text, half_migrated, seed_text, one_line,
}
use trading_platform_backend.Examples.QueueExamples.{worker, world, group, closing}

-- The connection is the texts that were written to it.
abbrev texts_written : Writer (List String)
texts_written = record { write_header = λ status w. w; write = λ b w. ((1, true), b ∷ w) }

abbrev get_seven : Request
get_seven = record { method = "GET"; path = "/seven" }

-- A request context without a user.
abbrev new_request : Context
new_request = record { trace_value = none; user_value = none }

-- The handler behind Authenticator, with a panic once the answer is written.
abbrev guarded_seven : Context → ℕ → Ran × ℕ
guarded_seven ctx s =
    let (r, s') = authenticate any_token unary_ids "secret" "Bearer a.b.c" say_seven ctx s in
    (record { calls = calls_of (λ body. "{}") r; panicked = true }, s')

abbrev seven_ran : Ran × ℕ
seven_ran = guarded_seven (record new_request { trace_value = some "abc" }) 0

-- All that is required is set, and PORT is not.
abbrev complete : Environment
complete key =
    if str_eq key "PORT" then "" else if str_eq key "SEED_ON_START" then "true" else "set"

load-IsLoad_example : IsLoad complete (load complete)
load-IsLoad_example = load-IsLoad complete

abbrev up_and_running : Libraries (List String)
up_and_running = record {
  pool_driver = record {
    parse_config = λ dsn. none;
    new_with_config = λ cfg. none;
    ping = λ cfg. none;
  };
  parse_url = λ url. none;
  create_group =
      λ stream group r. (some "BUSYGROUP Consumer Group name already exists", "XGROUP" ∷ r);
}

abbrev nothing_open : Held
nothing_open = record { pools = 0; clients = 0 }

abbrev boot_sources : Sources (List String) ℤ
boot_sources = record {
  exec_sql = append_text;
  directory = two_files;
  pattern = λ dir. "/migrations/*.up.sql";
  seed_file = λ path. one_line;
  floats = whole_floats;
  numeric = any_numeric;
  times = unary_times;
  texts = seed_text;
  users = λ ids. ids;
  counted = λ ids. ids;
}

abbrev boot_servers : Servers (List String) ℤ (List String)
boot_servers = record { schema = half_migrated; db = with_trades (lost_row ∷ []); redis = [] }

run_api-IsApiEnd_example :
    IsApiEnd up_and_running boot_sources
      (signalled none)
      (load complete)
      nothing_open
      boot_servers
      (run_api up_and_running boot_sources (signalled none) complete nothing_open boot_servers)
run_api-IsApiEnd_example =
    run_api-IsApiEnd up_and_running boot_sources (signalled none) complete nothing_open boot_servers

-- A server whose commands are under a cancelled context.
abbrev silent_server : Redis (List String)
silent_server = record log_server {
  xread_group = λ group consumer stream count block r. (fail canceled, r);
  xpending_ext = λ stream group idle count r. (fail canceled, r);
}

silent-IsDone : IsDone silent_server canceled []
silent-IsDone = record {
  is_context_error = inl refl;
  unread = λ group consumer stream count block. refl;
  unclaimed = λ stream group idle count. refl;
}

abbrev silent_worker : Worker ℤ (List String)
silent_worker = record worker { server = silent_server }

run-done_example :
    run silent_worker group (turn_at_tick ∷ turn_at_end ∷ []) world ≡ (returned canceled, world)
unfolding run
run-done_example =
    run-done silent_worker group [] (turn_at_end ∷ []) turn_at_tick world world canceled refl
      silent-IsDone refl

abbrev closing_entry : Entry
closing_entry = record { id = "2-0"; values = encode_values unary_times closing }

abbrev closing_decoded : Event
closing_decoded = record closing { occurred_at = 12345 / 1000 * 1000 }

-- Redis counts the deliveries: Read makes it 1, and each claim one more than XPENDING showed.
deliveries-IsDeadLettered_example :
    IsDeadLettered worker 0
      (deliveries worker group closing_entry (1 ∷ 2 ∷ 3 ∷ 4 ∷ 5 ∷ []) [])
      world
deliveries-IsDeadLettered_example =
    deliveries-IsDeadLettered worker group closing_entry closing_decoded
      (decode-encode_values unary_times closing) (1 ∷ 2 ∷ 3 ∷ 4 ∷ 5 ∷ []) [] world (omega arith)
      (omega arith)
