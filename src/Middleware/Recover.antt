-- ===== src/Middleware/Recover.antt =====
-- internal/middleware/recover.go. The log line of a panic is left out.
use trading_platform_backend.Prelude.{Bool, List, ◌++◌, if◌then◌else◌, String}
use trading_platform_backend.Httpx.{Context, Body, write_error}
use trading_platform_backend.Middleware.Log.{Call, calls_of}

-- What a handler does with its ResponseWriter: the calls it makes, and whether it panics after them.
pub record Ran : Type 0 where
  pub calls : List Call
  pub panicked : Bool

-- Recoverer: the calls of the handler, and after a panic those of WriteError, whatever was written
-- before; `encode` is encoding/json.
unfoldable pub recoverer : {A : Type 0} → (Body A → String) → Context → Ran → List Call
recoverer encode ctx r =
    if r.panicked
    then r.calls ++ calls_of encode (write_error ctx 500 "INTERNAL_ERROR" "Unexpected error.")
    else r.calls
