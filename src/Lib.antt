-- ===== src/Lib.antt =====
-- Verification of GophProfile, the service that stores the avatars of users.
--
-- A client uploads an image over HTTP. The service checks it, puts it into an S3 bucket, and inserts
-- its row, together with an upload event in an outbox table, in one transaction of PostgreSQL. A
-- worker publishes the events of the outbox to Kafka; consumers take them, make two thumbnails of the
-- image, put them into the bucket and complete the row. A deletion marks the row and leaves a delete
-- event in the outbox, whose consumer removes the objects.
--
-- How the files follow the code (each also begins with the code that it is about):
--   Domain      internal/domain: the avatar, its statuses and keys, the events, the errors as trees
--               of fmt.Errorf and errors.Is, and the checks of user ids, sizes and formats.
--   Image       internal/imageutil: the detection of MIME types, the limits, and the conversions,
--               over a parameter `Codec` for the image libraries.
--   Services    internal/services: one function for each method of AvatarService, over the
--               interfaces AvatarStore, ObjectStore and EventPublisher of deps.go, which are records
--               of operations on a state of any type. Services/X models a part of avatar.go:
--               Upload (`Upload`, `upload`), Delete (`Delete`, `delete`, the reads, `ProcessDelete`),
--               Outbox (`FlushOutbox`, `publishWithRetry`), Fetch (`FetchImage`, `PublicURL`),
--               Process (`ProcessUpload`, `RecoverStuck`), FileName (`sanitizeFileName`).
--   World       what the program acts on: the two tables of migrations/, the bucket, the topics, the
--               clock, and a list of turns that says whether each external call works, fails, or has
--               its effect and loses its reply. The theorems quantify over the list.
--   Repository  internal/repository/postgres.go: Tables has the clauses of the SQL statements,
--               Statements the statements, Tx the transactions with rollback, and Queries the
--               methods, each of which takes turns from the world.
--               Steps has the abstract machine of the tables, one step for each write that is
--               committed; Refines, Invariant, History and Announced relate the methods to it. Contract
--               states what each method does to the rows, without the statements.
--   Storage     internal/storage/s3.go on the bucket of the world.
--   Broker      internal/broker/kafka.go: the producer, EventIDFrom and the creation of topics;
--               Broker/Clients has the clients of Kafka, with their configuration.
--   Worker      internal/worker/worker.go: the consumer loop, its retries and its handlers; Worker/Run
--               has the goroutines of `Run` as a step relation.
--   Handlers    internal/handlers: each handler as a function from a request to the response and the
--               next state; Http has the responses. The form of an upload is what a parameter reads.
--   Middleware, Router
--               internal/middleware and internal/api/router.go: the middleware as functions from
--               handlers to handlers, and the table of routes with the middleware of each.
--   Config      internal/config/config.go, on an environment that is a parameter.
--   Migrate     internal/migrate/migrate.go, on a store of its own: what the scripts have made, the
--               recorded versions, and the turns of the calls.
--   Observability
--               internal/observability: the carrier of headers, `Setup`, the spans, the loggers, the
--               metrics, and what is counted of a request.
--   App         internal/app/deps.go: the service on the repository, the bucket and the producer,
--               the theorems on all of them together (App/Requests: any sequence of calls;
--               App/Announced and App/Delivered: the outbox behind it), and the start and end of the
--               connections (App/Lifecycle).
--   Programs    cmd/server/main.go and cmd/worker/main.go: what a process opens and closes, and how it
--               ends.
--   Prelude, Text, Result, Tests
--               shared names and lemmas, the functions of package strings on bytes, results and the
--               monad of fallible steps, and concrete runs.
--
-- Conventions: text is a list of bytes; an error is a value of `Err`, and a Go function that
-- returns (T, error) is a `Result T`, in a state an `Exec S T`. Times are nanoseconds. Go's int is
-- ℤ; where a product or a sum can wrap around, the wrapping is written out (`mul64`, `add64`). A
-- retry loop is structural recursion on the attempts that are left, five in the worker and three in
-- the outbox, as in the code. `Run` is a step relation: each of its goroutines goes on whenever it
-- can, the context of the caller and the functions may end it at any time or never, and errCh has
-- room for three results. The endless loop of a consumer is `consume` on a number of rounds; its
-- theorem gives one round for each message, and says that the loop is still running then. A
-- transaction is a single step of the tables: statements of two transactions do not interleave. The
-- calls of App/Requests run one behind the other; the writes of Repository/Steps come in any order,
-- from any number of processes.
--
-- Parameters, which stand for code outside of the repository: the image codecs, JSON, UUID parsing,
-- SHA-256, the propagation of traces, the broker's reader, the reading of multipart forms, how chi
-- matches a pattern, the packages of CORS and rate limits, the environment, what a migration script
-- does to the database, and what the constructors of clients and exporters return.
--
-- Not modelled: the text of log records and the places of spans, which change nothing that the
-- theorems are about; durations in metrics; RequestID, Recoverer and Timeout of chi; the embedded
-- files; the lengths of VARCHAR columns. A time is cut to the microsecond where it is inserted,
-- while NOW() is the clock's time as it is, and a rollback restores the sequence of the outbox,
-- too, where PostgreSQL leaves a gap in it. What a signal interrupts is the caller's context, which
-- shows as a failing call.
pub mod Prelude
pub mod Text
pub mod Migrate
pub mod Result
pub mod Domain
pub mod Image
pub mod Services
pub mod World
pub mod Repository
pub mod Storage
pub mod Broker
pub mod Worker
pub mod App
pub mod Config
pub mod Http
pub mod Handlers
pub mod Observability
pub mod Middleware
pub mod Router
pub mod Programs
pub mod Tests
