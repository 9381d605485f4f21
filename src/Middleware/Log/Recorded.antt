-- ===== src/Middleware/Log/Recorded.antt =====
-- What Logger of internal/middleware/log.go writes to the connection and to the log.
use trading_platform_backend.Prelude.{
  ℕ, ◌≤◌, ◌<◌, String, ◌≡◌, ◌≢◌, ◌⊎◌, inl, inr, refl, ap, ◌∙◌, false, Option, List, [], ◌∷◌, ◌++◌,
  Bool-cases, All, arith, leb, ◌==◌,
}
use trading_platform_backend.Httpx.{Context, trace_id, user_id}
use trading_platform_backend.Trades.Types.{Uuid}
use trading_platform_backend.Logging.{
  Level, debug, info, warn, error, severity, parse_level, is_enabled,
}
use trading_platform_backend.Middleware.Log.{
  Writer, Call, header, chunk, perform, StatusRecorder, recorder, Request, LogLine, level_of_status,
  line_of, emit, logger,
}

abbrev IsChunk : Call → Type 0
IsChunk (header status) = ⊥
IsChunk (chunk b) = Unit {0}

-- The status of a response, not of an interim one.
abbrev pub IsStatus : Call → Type 0
IsStatus (header status) = 200 ≤ status
IsStatus (chunk b) = Unit {0}

-- The handler calls WriteHeader at most once, before it writes, and does not leave both out.
abbrev pub WritesOnce : List Call → Type 0
WritesOnce [] = ⊥
WritesOnce (c ∷ calls) = IsStatus c × All IsChunk calls

-- The status that net/http sends: that of the first WriteHeader, and 200 for a Write before it.
abbrev pub sent_status : List Call → ℕ
sent_status [] = 200
sent_status (header status ∷ calls) = status
sent_status (chunk b ∷ calls) = 200

-- The line's level for a status, read off the status alone.
abbrev pub IsLevel : ℕ → Level → Type 0
IsLevel status level =
    ((500 ≤ status) × (level ≡ error))
    ⊎ ((400 ≤ status) × (status < 500) × (level ≡ warn))
    ⊎ ((status < 400) × (level ≡ info))

-- One line more, or none, which takes a level of the log above that of the line.
abbrev pub IsAppended : String → ℕ → LogLine → List LogLine → List LogLine → Type 0
IsAppended log_level status line before after =
    (after ≡ line ∷ before)
    ⊎ ((after ≡ before)
        × (((parse_level log_level ≡ warn) × (status < 400))
            ⊎ ((parse_level log_level ≡ error) × (status < 500))))

IsLevel-of_status : (status : ℕ) → IsLevel status (level_of_status status)
IsLevel-of_status status = elim (Bool-cases (leb 500 status)) [
  | inl high ↦ inl (ground arith, rw high refl)
  | inr low ↦ elim (Bool-cases (leb 400 status)) [
    | inl bad ↦ inr (inl (ground arith, ground arith, rw (low, bad) refl))
    | inr good ↦ inr (inr (ground arith, rw (low, good) refl))
  ]
]

silent-above :
    (min level : Level) (status : ℕ)
    → IsLevel status level
    → leb (severity min) (severity level) ≡ false
    → ((min ≡ warn) × (status < 400)) ⊎ ((min ≡ error) × (status < 500))
silent-above debug level status h off = absurd (ground arith)
silent-above info level status (inl (a, e)) off = absurd (ground arith)
silent-above info level status (inr (inl (a, b, e))) off = absurd (ground arith)
silent-above info level status (inr (inr (a, e))) off = absurd (ground arith)
silent-above warn level status (inl (a, e)) off = absurd (ground arith)
silent-above warn level status (inr (inl (a, b, e))) off = absurd (ground arith)
silent-above warn level status (inr (inr (a, e))) off = inl (refl, a)
silent-above error level status (inl (a, e)) off = absurd (ground arith)
silent-above error level status (inr (inl (a, b, e))) off = inr (refl, b)
silent-above error level status (inr (inr (a, e))) off = inr (refl, omega arith)

IsAppended-emit :
    (log_level : String) (status : ℕ) (line : LogLine) (lines : List LogLine)
    → IsLevel status line.level
    → IsAppended log_level status line lines (emit log_level line lines)
unfolding is_enabled
IsAppended-emit log_level status line lines h =
    elim (Bool-cases (leb (severity (parse_level log_level)) (severity line.level))) [
      | inl on ↦ inl (rw on refl)
      | inr off ↦ inr (rw off refl, silent-above (parse_level log_level) line.level status h off)
    ]

module _ {W : Type 0} (to : Writer W) where
  writer-recorder :
      (calls : List Call) (rec : StatusRecorder W)
      → (perform (recorder to) calls rec).response_writer ≡ perform to calls rec.response_writer
  unfolding perform
  writer-recorder [] rec = refl
  writer-recorder (header next ∷ calls) rec =
      writer-recorder calls ((recorder to).write_header next rec)
  writer-recorder (chunk b ∷ calls) rec = writer-recorder calls ((recorder to).write b rec).1

  perform-append :
      (calls more : List Call) (w : W)
      → perform to (calls ++ more) w ≡ perform to more (perform to calls w)
  unfolding perform
  perform-append [] more w = refl
  perform-append (header status ∷ calls) more w =
      perform-append calls more (to.write_header status w)
  perform-append (chunk b ∷ calls) more w = perform-append calls more (to.write b w).1

  status_kept :
      (calls : List Call) (rec : StatusRecorder W)
      → rec.status ≢ 0
      → All IsChunk calls
      → (perform (recorder to) calls rec).status ≡ rec.status
  unfolding perform
  status_kept [] rec some_status h = refl
  status_kept (header next ∷ calls) rec some_status h = absurd h.0
  status_kept (chunk b ∷ calls) rec some_status h =
      let e : (rec.status == 0) ≡ false = ground arith in
      status_kept calls ((recorder to).write b rec).1 (rw e some_status) h.1 ∙ (rw e refl)

  pub sent-recorded :
      (calls : List Call) (w : W)
      → WritesOnce calls
      → (perform (recorder to) calls (record { response_writer = w; status = 0; bytes = 0 })).status
        ≡ sent_status calls
  unfolding perform
  sent-recorded [] w h = absurd h
  sent-recorded (header status ∷ calls) w h =
      status_kept calls
        ((recorder to).write_header status (record { response_writer = w; status = 0; bytes = 0 }))
        (omega (arith, h.0)) h.1
  sent-recorded (chunk b ∷ calls) w h =
      status_kept calls
        ((recorder to).write b (record { response_writer = w; status = 0; bytes = 0 })).1
        (omega arith) h.1

module _ {W : Type 0} (to : Writer W) where
  -- An error that is written behind other calls sets the status.
  pub error-recorded :
      (calls : List Call) (status : ℕ) (b : String) (w : W)
      → status ≢ 0
      → (perform
          (recorder to)
          (calls ++ header status ∷ chunk b ∷ [])
          (record { response_writer = w; status = 0; bytes = 0 })).status
        ≡ status
  unfolding perform
  error-recorded calls status b w some_status =
      let e : (status == 0) ≡ false = ground arith in
      ap (λ (rec : StatusRecorder W). rec.status)
        (perform-append (recorder to) calls (header status ∷ chunk b ∷ [])
          (record { response_writer = w; status = 0; bytes = 0 }))
      ∙ rw e refl

module _ {W S : Type 0} (to : Writer W) (log_level : String) (req : Request) where
  -- What Logger leaves of a handler that made these calls, with this status recorded: the connection
  -- has seen them, and the log has one line more, unless its level is above the line's; the line has
  -- this trace id and user, and the status.
  abbrev pub IsLogged :
      List Call
      → ℕ
      → S
      → String
      → Option Uuid
      → W × List LogLine × S
      → W × List LogLine × S
      → Type 0
  IsLogged calls status s' trace user (w, lines, s) out =
      (out.0 ≡ perform to calls w)
      × (out.2 ≡ s')
      × ((line : LogLine) × (line.trace ≡ trace)
          × (line.method ≡ req.method)
          × (line.path ≡ req.path)
          × (line.status_code ≡ status)
          × (line.user ≡ user)
          × IsLevel status line.level
          × IsAppended log_level status line lines out.1)

  pub IsLogged-eq :
      (calls : List Call) (status : ℕ) (s' : S) (before after : W × List LogLine × S)
      {trace trace' : String} {user user' : Option Uuid}
      → trace ≡ trace'
      → user ≡ user'
      → IsLogged calls status s' trace user before after
      → IsLogged calls status s' trace' user' before after
  IsLogged-eq calls status s' before after same_trace same_user h = rw (← same_trace, ← same_user) h

  pub logger-IsLogged :
      (start end : ℕ) (next : Context → S → List Call × S) (ctx : Context) (w : W)
      (lines : List LogLine) (s : S) (status : ℕ)
      → (perform
          (recorder to)
          (next ctx s).0
          (record { response_writer = w; status = 0; bytes = 0 })).status
        ≡ status
      → IsLogged
          (next ctx s).0
          status
          (next ctx s).1
          (trace_id ctx)
          (user_id ctx)
          (w, lines, s)
          (logger log_level req start end to next ctx (w, lines, s))
  unfolding logger
  logger-IsLogged start end next ctx w lines s status e =
      let calls : List Call = (next ctx s).0 in
      let rec : StatusRecorder W =
        perform (recorder to) calls (record { response_writer = w; status = 0; bytes = 0 }) in
      let line : LogLine = line_of log_level req start end ctx rec in
      let level : IsLevel status line.level = rw (← e) (IsLevel-of_status rec.status) in
      (
        writer-recorder to calls (record { response_writer = w; status = 0; bytes = 0 }),
        refl,
        (line, refl, refl, refl, e, refl, level, IsAppended-emit log_level status line lines level),
      )
