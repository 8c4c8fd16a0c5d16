-- ===== src/Lib.antt =====
-- A model of the FlowCast backend, an incident-response service, and what is proved of it.
--
-- The program's parts and the modules that model them:
--   * backend/internal/models: the records that the service stores and their validation. Models/Enum
--     and Models/Issues (enum.go, errors.go), Models/Sort (sort.go), Models/Identity and Models/Email
--     (identity.go), Models/Incident, Models/Event, Models/Analysis, Models/Simulation and
--     Models/Postmortem (the files of those names). A validator is a list of issues that each check
--     extends, as in the code; `validate_...` returns none for the nil error.
--     Models/Validity puts the validators side by side.
--   * backend/internal/api: Api/Ids (requestid.go, identity.go), Api/Decode (request.go), Api/Payload
--     and Api/Respond (response.go). A handler's effect on its writer is a list of actions, which Http
--     performs on a writer: headers and cookies count only until the status line goes out, which an
--     informational status (1xx but 101) leaves open, as in net/http.
--   * backend/internal/auth: Auth/Password (password.go) and Auth/Tokens (token.go).
--   * backend/internal/queue: Sessions (sessions.go), the store of withdrawn refresh tokens.
--   * backend/internal/handlers: Handlers/Registration, Handlers/Login, Handlers/Refresh and
--     Handlers/Cookies (auth.go), Handlers/Health (health.go) and Handlers/Router (router.go). Handlers/Env
--     holds what the handlers of auth.go are built on. The goroutines of a health check are a step
--     relation: each ends once, in any order, and writes its own slot.
--   * backend/internal/middleware: Middleware/Authenticate (auth.go), Middleware/Recorder (recorder.go
--     and the level of logging.go), Middleware/Recovery (recovery.go), Middleware/RequestId
--     (requestid.go), Middleware/Cors (cors.go).
--   * backend/internal/config: Config/Types, Config/Loading and Config/Validating (config.go) and
--     Config/Reader (reader.go, the types of errors.go), Config/Errors (the rest of errors.go),
--     Config/Logging (logging.go) and Config/DotEnv (dotenv.go). Config/Reporting lists the variables that
--     can fail to be read. The reader's problems are passed from read to read.
--   * backend/internal/db: Migrations and Migrations/Files (migrate.go). A connection is what is
--     committed and the working copy of an open transaction; which commands fail is an argument.
--     Startup/Connecting (Connect of postgres.go and of queue/redis.go, embedding.go), Startup/Waiting
--     (waitForReady of both) and Startup/Pool (the sizes of the pool).
--   * backend/internal/server and backend/cmd/server: Startup/Serving (server.go) and Startup/Running
--     (main.go), which puts the configuration, the connections, the migrations, the handlers and the
--     server together.
--   * backend/internal/repository: Repository, the queries that List and Update of incident.go build,
--     with their placeholders and arguments; Repository/Incidents and Repository/Users, the operations of
--     incident.go and user.go carried out on tables of rows. Repository/Updates and
--     Repository/Placeholders are about the text of the queries.
--
-- Base holds what the modules share: texts as lists of bytes, integers, times, floats, results. Strings
-- is the part of Go's string handling that the program relies on: UTF-8 decoding, TrimSpace and ToLower.
--
-- The handlers interact through stores. A handler takes the store of withdrawn tokens and the store of
-- users and returns the changed one with its actions; requests that follow one another are runs on the
-- stores that the earlier ones left. What a request reads from outside, the clock at each place and the
-- drawn ids, is a record `Draws`.
--
-- The operations of the two repositories are calls on one list of rows (Repository/Incidents/Calls); the
-- handlers of auth.go run on the user repository as their UserStore (Repository/Users/Accounts).
--
-- Code outside the repository is a parameter: the JWT and UUID libraries (JwtLib, UuidLib), bcrypt
-- (Bcrypt), the Redis client (RedisLib), the store of users (UserStore), the JSON codec, the media type
-- parser, the environment, the SQL of a migration, the file system, the parsers of URLs and connection
-- strings, the router and CORS middleware of go-chi, net/http, the answers and times of a ping, and how
-- Unicode beyond ASCII is lowered (Letters). Where theorems need something of such code, a record states
-- it; Examples has concrete instances of each, on which the theorems are applied.
--
-- What PostgreSQL does with a statement is written out on the rows: the conditions, the order, the
-- limit, the unique indexes and the commit of a transaction. Whether a statement goes through at all, and
-- the ids and times that the server gives, are arguments. A row of incidents is read without its
-- embedding, as the code reads it.
--
-- Numbers are natural numbers and integers without bounds where the program's own checks keep them
-- small. The sizes of the pool are converted to 32 bits as the code converts them. Times are nanoseconds
-- from year 1, a duration is what time.Sub makes of a difference, which it cuts to 64 bits. Loops are
-- structural recursion, but for the wait for a ping that is answered: that one has as fuel the number of
-- pauses that fit into the timeout and one more, and each turn takes at least a pause. Log records are
-- left out, as are the texts that wrap an error for the log.
--
-- Not modelled: how go-chi matches a path, log records and loggers, the database schema with its
-- cascades, and packages that hold only their description.
pub mod Base
pub mod Startup
pub mod Strings
pub mod Models
pub mod Http
pub mod Api
pub mod Config
pub mod Auth
pub mod Sessions
pub mod Handlers
pub mod Middleware
pub mod Migrations
pub mod Repository
pub mod Examples
