-- ===== src/Lib.antt =====
-- Trading platform backend: a trade journal whose API stores trades and publishes events, and whose
-- worker computes five behavioural metrics from them.
--
-- The parts, and how they interact. POST /trades validates a body, checks that it is the caller's
-- own, inserts it once for each trade_id, and publishes an event on a Redis stream where the row is
-- new. The worker reads the stream as a consumer group, parses the event, runs the calculators of
-- its type on the same database, and acknowledges the message where all of them succeeded; what
-- stays pending is claimed again until the fifth delivery.
--
-- Which file models what:
--   Trades/Types          internal/trades/types.go: TradeInput, Trade, the enums
--   Trades/Validate       internal/trades/validate.go: TradeInput.validate
--   Trades/Repo           internal/trades/repo.go: derive, Repo.Insert, Repo.Get,
--                         Repo.SetRevengeFlag; the checks of migrations/0001_init.up.sql
--   Trades/Handler        internal/trades/handler.go: Handler.create (create), Handler.get
--                         (get_trade), eventFor
--   Logging               internal/logger/logger.go: New, parseLevel
--   Httpx                 internal/httpx/httpx.go: the context's values, WriteError, WriteJSON
--   Database              the rows of migrations/*.up.sql, as far as the modelled code uses them
--   Database/Exec, Runs, Transaction
--                         actions on the database that may fail, blocks of them, transactions
--   Database/Migrations   internal/db/db.go: RunMigrations, applyOne
--   Seed                  internal/db/seed.go: SeedFromCSV, parseSeedRow
--   Config                internal/config/config.go: Load
--   Queue/Event, Codec    internal/queue/queue.go: Event; publishOnce's values and decodeValues
--   Queue/Producer        internal/queue/producer.go: Publish, publishOnce, shouldRetry
--   Queue/Consumer        internal/queue/consumer.go: Read, ClaimStuck, Ack, QueueLag
--   Metrics/Repo          internal/metrics/repo.go: the writes that the worker calls
--   Metrics/RevengeFlag, Overtrading, PlanAdherence, WinRate
--                         the files of internal/metrics of these names; session_tilt.go only calls
--                         UpsertSessionTilt of Metrics/Repo
--   Metrics/Backfill      internal/metrics/backfill.go: the walk of backfillOvertrading; below it
--                         Flags (backfillRevengeFlag, HasSnapshots), Groups (backfillPlanAdherence,
--                         backfillWinRateByEmotion), Sessions (backfillSessionTilt), Events
--                         (backfillOvertrading, BackfillFromTrades)
--   Metrics/Snapshot      internal/metrics/repo.go: LoadSnapshot
--   Metrics/Buckets       internal/metrics/repo.go: LoadBuckets, bucketExpression
--   Metrics/Query         internal/metrics/handler.go: getMetrics, parseGranularity, parseRFC3339
--   Health                internal/health/handler.go: Handler.check
--   Middleware            internal/middleware/auth.go, trace.go; Middleware/Log: log.go;
--                         Middleware/Recover: recover.go
--   Api                   cmd/api/main.go: the data work of run, the routes, serveStatic
--   Programs              cmd/api/main.go, cmd/worker/main.go: run and main; NewPool of
--                         internal/db/db.go, NewClient and EnsureGroup of internal/queue/queue.go
--   Auth                  internal/auth/jwt.go: Verifier.Parse; internal/auth/token.go: IssueToken
--   Worker                internal/worker/worker.go: process, handle, recoverStuck, Run,
--                         publishOvertradingEvent
--   Pipeline              POST /trades, the stream and the worker in one: the way of a closed trade,
--                         and a resubmission after posts and runs of the worker
--   External              what the code uses and does not implement, as parameters
--   Prelude               lists, numbers, sorting and tests that the parts share
--   Examples              small concrete libraries and data, on which the theorems are applied
-- The modules below a part (such as Trades/Repo/Idempotence) hold its theorems.
--
-- State. A Db is the tables as lists of rows, the database clock, and `faults`: the environment's
-- choice, for each statement to come, whether it fails. A statement that fails changes nothing; an
-- empty list lets all that follow pass. What was written before a failure stays, but for the one
-- transaction of the backfill. Each SQL text is a function on the lists; where ORDER BY leaves a tie,
-- the order of the table decides. The Redis server is a state type with one function for each
-- command.
--
-- Numbers. Instants are microseconds, the resolution of TIMESTAMPTZ, from an origin two years before
-- Go's zero time. float64 is a parameter (External/Float) and so is what a NUMERIC column makes of a
-- float (External/Postgres), since antt has no floats; laws of them are hypotheses of the theorems
-- that use them. An id is the number of its 16 bytes; its text and RFC 3339 text are parameters with
-- their round trips. time.Duration stops at the ends of int64. tilt_index is kept in
-- ten-thousandths. Counters of the tables and delivery counts are natural numbers; their overflow
-- is not modelled. No function here takes fuel: every loop is over a list.
--
-- Before it serves, the api applies the migrations, loads the seed into an empty table, and where no
-- metrics are stored computes them from the trades, five steps in turn of which the last is a
-- transaction. A Schema is what the migrations act on: the recorded versions, and a state that the
-- SQL texts change, through a parameter. A seed file is the records that csv.Reader returns from it.
--
-- Around every request stand Trace, Logger and Recoverer. A response is the calls that a handler
-- makes of its ResponseWriter, on a connection whose state is a parameter; the handler may panic
-- after any of them. Each program opens a pool and a Redis client, closes them by defer, and ends
-- by the environment's choice: the signals, the results of Shutdown and ListenAndServe, and what
-- the libraries answer.
--
-- Not modelled: the JSON and CSV decoders (their outcomes are arguments), the goroutine that
-- publishes an event (the reply says which event it is given), log lines but those of requests, the driver,
-- result sets that break off in mid-stream, columns that nothing here reads (trader_name,
-- ground_truth_pathologies, event_id, detected_at), parts of an instant below a microsecond, and
-- the landing page.
pub mod Prelude
pub mod External
pub mod Database
pub mod Config
pub mod Httpx
pub mod Logging
pub mod Queue
pub mod Trades
pub mod Seed
pub mod Metrics
pub mod Auth
pub mod Middleware
pub mod Health
pub mod Worker
pub mod Pipeline
pub mod Api
pub mod Programs
pub mod Examples
