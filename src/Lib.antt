-- ===== src/Lib.antt =====
-- The casino transaction system: a processor that takes bets and wins from Kafka and stores them in
-- PostgreSQL, and an HTTP service that lists them.
--
-- Parts:
-- * Money models pkg/money/amount.go: ParseToMinorUnits is `parse_to_minor_units`, with int64 arithmetic
--   that wraps (Prelude/Int).
-- * TimeUtil models pkg/timeutil/parser.go; time.ParseInLocation is a parameter.
-- * Domain models internal/domain: the transaction and Validate.
-- * Errors and Boundary model the chains of wrapped errors and Classify of
--   internal/boundary/error_mapping.go.
-- * Config models internal/config/config.go: the settings with their defaults, and in Config/Loading
--   loadConfig and the instance of NewConfig; cleanenv, the file system and the environment are
--   parameters. Kafka/Settings holds the defaults of the consumer.
-- * Repository models Save, SaveBulk and Get of internal/repository/postgresql.go: the statements, their
--   arguments and the metrics. database/sql is a parameter. Its constructor and Close are in
--   App/Connection.
-- * Service models internal/service/service.go; Service/Composition puts the consumer over the service
--   over the repository. Service/Table is the table of migrations/000001_init.up.sql as a set of rows known
--   by their unique key: what PostgreSQL does with the repository's statements is the record `IsPostgres`
--   of named hypotheses, which Service/Table/Shop shows of a concrete database. Service/Landing puts
--   Kafka, the consumer, the table and a query of the API together. Service/ReadOnly puts the API's router
--   over the handler, the service and the repository, as NewApiApp of bootstrap does.
-- * Metrics models internal/observability/metrics: Key, and in Metrics/Sink and Metrics/Stats the
--   LogSink with the summaries of its timers. The operations of float64 are a parameter, with what the
--   sink relies on as laws, which speak of numbers from 0 to 2^53 where IEEE 754 and Go's conversions
--   need it; a panic is `none`. The specification of the sink is one cell for each key. Metrics/Flusher
--   is the goroutine of Start that flushes the sink.
-- * App models both programs from main to the exit: internal/app, internal/bootstrap and cmd. The HTTP
--   server and the consumer's Start are parameters there. App/Wiring holds what bootstrap and the
--   constructors pass on: settings, topics and durations. Logger models SetupLogger of
--   pkg/logger/logger.go.
-- * Http models GetTransactions of internal/transport/http/handler.go; the service and the JSON encoder
--   are parameters. Http/Create models CreateTransactionRequest of dto.go, which no route uses. Http/Router
--   models the route table and the health check of router.go, where the matching of the patterns is a
--   parameter.
-- * Kafka models internal/transport/kafka: Dto and Decode turn the payload into a transaction (dto.go,
--   parseAndValidateMsg), and Kafka/Consumer holds the methods of consumer.go: Backoff (sleepBackoff),
--   Process (processMessageWithRetries), DeadLetter (routeToDLQ and its loop), Handle (handleMessage),
--   Batch (flushBatch) and Worker (partitionWorker). Kafka/Fetch is the fetch loop of Start with the
--   channels of the workers, as a step relation: each step of the loop, of a worker at its channel and
--   of the context is one step, and any may come next that its guard allows.
--   Kafka/Drain is the deferred function behind it. Kafka/System runs the loop and one worker for each
--   partition on one shared state: what a worker does with one message or tick is one step, and between
--   such steps the loop, the other workers and the outside move.
-- * Go holds what the program uses of the packages strings, strconv and sort.
--
-- A method of the consumer is a function on a state: the world that the outside calls change, the
-- inflight counter, the fatal error of Start, the metrics, and a trace of the calls that others see (what
-- was stored, dead-lettered and committed, with the error of each). The outside is the record `Outside` of
-- Kafka/Outside: the service, the Kafka reader and writer, the context, the clock and the timer.
-- `IsLawful` says that a cancelled context stays cancelled, `IsPatient` that outages end and the payload
-- of the dead letter queue can be encoded. Each branch of a method is a helper by clauses on the value
-- that the code tests. The worker takes what its `select` receives as a list of inputs.
--
-- The two loops for commits and the loop for dead letters have no bound in the code. They run on fuel,
-- and `none` means that it has run out. Each error of the broker uses up one of the failures to come, so
-- fuel above the number of failures to come is enough (Kafka/Termination). The loops over retries are
-- structural: there are max_process_retries + 1 rounds.
--
-- Kafka/Trace says when a message is settled (its transaction stored, or the message dead-lettered) and
-- when a trace is safe (each commit is of messages that were settled before), and Kafka/Trace/Order when
-- its commits are in order; Kafka/Delivery follows these through the methods, and Kafka/Correctness puts
-- them together with termination. Kafka/Retries counts calls of the service, Kafka/Bounds is about the
-- backoff, and Kafka/Shutdown about a flush that a shutdown aborts.
--
-- Kafka/Keeping shows that the methods keep every property of the world and the trace that all outside calls
-- keep; Service/Landing uses it for the rows of the table.
--
-- Kafka/Interference lets the other workers, signals and other users of the database move the world before
-- and behind each call that a worker makes.
--
-- Not modelled: the panics of time.NewTicker and rand.Int63n on settings that wrap; a Close of the Kafka writer
-- or reader that does not return; what slog does with a logger; the pages of the Swagger UI and of net/http; how the traces of two
-- workers mix while both are within one message. The generated API documentation and the helpers of the
-- tests hold no logic of the programs, and the port of the repository is an interface without code.
-- The texts of errors are left out; an error is the chain of its wraps. Durations are given by their ends.
mod Prelude
pub mod Go
pub mod Metrics
pub mod Money
pub mod TimeUtil
pub mod Domain
pub mod Errors
pub mod Boundary
pub mod Config
pub mod Http
pub mod Logger
pub mod Repository
pub mod Kafka
pub mod Service
pub mod App
