-- ===== src/Httpx.antt =====
-- internal/httpx/httpx.go: the request's context, the error envelope, and the two writers.
use trading_platform_backend.Prelude.{ℕ, String, Option, none, some}

-- The values under keyTraceID and keyUserID. A logger has no effect that the model shows.
pub record Context : Type 0 where
  pub trace_value : Option String
  pub user_value : Option ℕ

unfoldable pub with_trace_id : Context → String → Context
with_trace_id ctx id = record ctx { trace_value = some id }

abbrev pub text_or_empty : Option String → String
text_or_empty none = ""
text_or_empty (some s) = s

-- TraceID: "" where the context has none
unfoldable pub trace_id : Context → String
trace_id ctx = text_or_empty ctx.trace_value

unfoldable pub with_user_id : Context → ℕ → Context
with_user_id ctx id = record ctx { user_value = some id }

abbrev pub user_id : Context → Option ℕ
user_id ctx = ctx.user_value

-- ErrorResponse
pub record ErrorResponse : Type 0 where
  pub error : String
  pub message : String
  pub trace : String

pub data Body (A : Type 0) : Type 0 where
  error_body : ErrorResponse → Body A
  json : A → Body A

-- The status and the body that were written.
pub record Response (A : Type 0) : Type 0 where
  pub status : ℕ
  pub body : Body A

module _ {A : Type 0} where
  abbrev pub write_error : Context → ℕ → String → String → Response A
  write_error ctx status code msg = record {
    status = status;
    body = error_body (record { error = code; message = msg; trace = trace_id ctx });
  }

  abbrev pub write_json : ℕ → A → Response A
  write_json status v = record { status = status; body = json v }
