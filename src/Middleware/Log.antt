-- ===== src/Middleware/Log.antt =====
-- internal/middleware/log.go: Logger and its statusRecorder. W is the connection that the response is
-- written to. What the handlers do with it is a list of calls, since none of them looks at the result
-- of Write; headers are left out.
pub mod Recorded
use trading_platform_backend.Prelude.{
  ℕ, ◌+◌, ◌-◌, ◌/◌, String, Bool, Option, List, [], ◌∷◌, leb, ◌==◌, if◌then◌else◌,
}
use trading_platform_backend.Httpx.{Context, Body, Response, trace_id, user_id}
use trading_platform_backend.Trades.Types.{Uuid}
use trading_platform_backend.Logging.{Level, info, warn, error, is_enabled}

-- http.ResponseWriter
pub record Writer (W : Type 0) : Type 0 where
  pub write_header : ℕ → W → W
  -- the number of bytes written, and whether there was no error
  pub write : String → W → (ℕ × Bool) × W

pub data Call : Type 0 where
  header : ℕ → Call
  chunk : String → Call

module _ {W : Type 0} where
  unfoldable pub perform : Writer W → List Call → W → W
  perform to [] w = w
  perform to (header status ∷ calls) w = perform to calls (to.write_header status w)
  perform to (chunk b ∷ calls) w = perform to calls (to.write b w).1

-- statusRecorder
pub record StatusRecorder (W : Type 0) : Type 0 where
  pub response_writer : W
  pub status : ℕ
  pub bytes : ℕ

module _ {W : Type 0} (to : Writer W) where
  abbrev recorded_write : String → StatusRecorder W → (ℕ × Bool) × StatusRecorder W
  recorded_write b s =
      let (r, w) = to.write b s.response_writer in
      (
        r,
        record {
          response_writer = w;
          status = if s.status == 0 then 200 else s.status;
          bytes = s.bytes + r.0;
        },
      )

  -- the methods of *statusRecorder over those of its ResponseWriter
  abbrev pub recorder : Writer (StatusRecorder W)
  recorder = record {
    write_header = λ status s. record s {
      response_writer = to.write_header status s.response_writer;
      status = status;
    };
    write = recorded_write;
  }

pub record Request : Type 0 where
  pub method : String
  pub path : String

-- the line that is given to base, with its fields
pub record LogLine : Type 0 where
  pub level : Level
  pub trace : String
  pub method : String
  pub path : String
  pub status_code : ℕ
  -- in milliseconds
  pub latency : ℕ
  pub bytes : ℕ
  pub user : Option Uuid

abbrev pub level_of_status : ℕ → Level
level_of_status status = if leb 500 status then error else if leb 400 status then warn else info

abbrev pub emit : String → LogLine → List LogLine → List LogLine
emit log_level line lines = if is_enabled log_level line.level then line ∷ lines else lines

module _ (log_level : String) (req : Request) (start end : ℕ) where
  abbrev pub line_of : {W : Type 0} → Context → StatusRecorder W → LogLine
  line_of ctx rec = record {
    level = level_of_status rec.status;
    trace = trace_id ctx;
    method = req.method;
    path = req.path;
    status_code = rec.status;
    latency = (end - start) / 1000000;
    bytes = rec.bytes;
    user = user_id ctx;
  }

  -- Logger, over the logger of New(log_level); `start` and `end` are the clock in nanoseconds. The
  -- logger that it puts into the context is left out.
  unfoldable pub logger :
      {W S : Type 0}
      → Writer W
      → (Context → S → List Call × S)
      → Context
      → W × List LogLine × S
      → W × List LogLine × S
  logger to next ctx (w, lines, s) =
      let (calls, s') = next ctx s in
      let rec =
        perform (recorder to) calls (record { response_writer = w; status = 0; bytes = 0 }) in
      (rec.response_writer, emit log_level (line_of ctx rec) lines, s')

-- What WriteError and WriteJSON call; `encode` is encoding/json.
abbrev pub calls_of : {A : Type 0} → (Body A → String) → Response A → List Call
calls_of encode r = header r.status ∷ chunk (encode r.body) ∷ []
