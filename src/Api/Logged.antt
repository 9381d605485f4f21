-- ===== src/Api/Logged.antt =====
-- The answer and the log line of a request of the api (cmd/api/main.go), where the handler may panic.
use trading_platform_backend.Prelude.{
  ℕ, String, ◌≡◌, ◌≢◌, ◌⊎◌, Bool, true, false, none, List, [], ◌∷◌, ◌++◌, All,
}
use trading_platform_backend.Httpx.{Body, error_body}
use trading_platform_backend.Middleware.{trace}
use trading_platform_backend.Middleware.Log.{Writer, Call, header, chunk, Request, LogLine}
use trading_platform_backend.Middleware.Log.Recorded.{IsStatus, WritesOnce, sent_status, IsLogged}
use trading_platform_backend.Middleware.Recover.{Ran}

-- A handler that returns has written one response; one that panics has called what it likes, with no
-- interim status.
abbrev pub Writes : Bool → List Call → Type 0
Writes false calls = WritesOnce calls
Writes true calls = All IsStatus calls

-- The status in the log: that of the response, and 500 after a panic.
abbrev pub logged_status : Bool → List Call → ℕ
logged_status false calls = sent_status calls
logged_status true calls = 500

module _ {A : Type 0} (encode : Body A → String) (id : String) where
  -- The 500 of Recoverer, with its body.
  abbrev pub error_calls : List Call
  error_calls =
      header 500
      ∷ chunk (
          encode (
            error_body
              (record { error = "INTERNAL_ERROR"; message = "Unexpected error."; trace = id })))
      ∷ []

  -- All that is called of the connection: what the handler called, and the 500 behind it after a panic.
  abbrev pub all_calls : Bool → List Call → List Call
  all_calls false calls = calls
  all_calls true calls = calls ++ error_calls

  -- The status that is sent is the one in the log, but where the handler panicked with its response
  -- begun: then the status of that response is sent, and the log has 500.
  abbrev pub IsSent : Bool → List Call → Type 0
  IsSent panicked calls =
      (sent_status (all_calls panicked calls) ≡ logged_status panicked calls)
      ⊎ ((panicked ≡ true)
          × (calls ≢ [])
          × (sent_status (all_calls panicked calls) ≡ sent_status calls))

module _ {W S A : Type 0} (to : Writer W) (log_level : String) (encode : Body A → String)
    (req : Request) (start end : ℕ) where
  -- What comes of a request with this id, where the handler ran like this and left this state.
  pub record IsServed (id : String) (outcome : Ran × S) (before : W × List LogLine × S)
      (out : String × (W × List LogLine × S)) : Type 0 where
    pub carries_id : out.0 ≡ id
    pub is_sent : IsSent encode id outcome.0.panicked outcome.0.calls
    pub is_logged :
        IsLogged to log_level req
          (all_calls encode id outcome.0.panicked outcome.0.calls)
          (logged_status outcome.0.panicked outcome.0.calls)
          outcome.1
          id
          none
          before
          out.1
