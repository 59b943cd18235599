-- ===== src/Lib.antt =====
-- The guards of mysql-mcp-server, a Go server that gives AI clients read access to MySQL: what a
-- tool call may send to a database, which connection it reaches, how the server is configured and
-- how often its REST API may be called.
--
-- A tool call (cmd/mysql-mcp-server/tools.go) validates its texts with internal/util, takes the
-- connection of its MCP session from the connection manager (cmd/mysql-mcp-server/connection.go) and
-- runs the query there. internal/config builds the configuration of the manager and the transports
-- from a file and the environment. internal/api stands in front of the REST handlers.
--
-- Files and code:
--   Prelude: Go strings as lists of bytes (Text, Trim), maps as association lists (Assoc), results
--     with errors (Results), tests and lists. Case and white space are those of ASCII.
--   Util: internal/util. Identifiers is identifiers.go. Literals is stripSQLLiterals, a loop over the
--     bytes with the open quote as its state. Regex has the regular expressions as lists of branches
--     of atoms, with a matcher that is recursive in branch and text; Validator, WhereClause and
--     Columns are the three validators of sql_validator.go, with its tables in Validator/Patterns.
--   Connection: cmd/mysql-mcp-server. Dial is the part of addConnectionWithPoolConfig that runs
--     without the lock, Manager has its locked sections and the other operations of
--     ConnectionManager, Manager/Steps their interleavings. Session is sessionConn, Call the choice
--     of a connection by a call (ActiveFor, SetActiveFor, PinFor), AddTool the tool add_connection
--     and closeSessionConnections.
--   Config: internal/config. Types has the records, Env the numbers, switches and lists of variables,
--     Overrides applyEnvOverrides, Connections loadConnections, Transport the MCP HTTP defaults and
--     ValidateTransport, File the decoded file and ToConfig, Load the functions Load and
--     ValidateConfigFile.
--   Api: internal/api. RateLimit is ratelimit.go, with the events of a limiter as a list; Middleware
--     is middleware.go and response.go, with handlers as functions that answer by their calls on the
--     response writer.
--   Access: cmd/mysql-mcp-server/access.go, the allow list of databases, with AllowedDatabaseSet of
--     internal/config/config.go. The parser layer's reading of a query is an argument, which
--     Parser/Schemas gives.
--   Parser: internal/util/sql_parser.go. Syntax has the statement types of the third-party parser, as
--     far as the code matches on them; Validate is ValidateSQLWithParser and ValidateSQLCombined,
--     Schemas the databases that a statement refers to, Limit the LIMIT and OFFSET that are appended.
--   Retry: internal/dbretry/retry.go, over what the backoff package is documented to do.
--   Tools: cmd/mysql-mcp-server/tools.go. Scan is runQueryScan over the answers of database/sql, Mask
--     maskResults, and Query toolRunQuery, where the n-th run of the statement has a server of its own.
--     Catalog has the tools that list databases, tables and columns, Sessions those on connections.
--   McpHttp: the checks of cmd/mysql-mcp-server/mcp_http.go in front of the MCP handler, with getClientIP
--     and WithRateLimit of internal/api/ratelimit.go.
--   Labels: cmd/mysql-mcp-server/labels.go, the comment in front of a statement and the attributes of a
--     connection.
--   Guard: cmd/mysql-mcp-server/guard.go, the refusals of the server's guard and their explanation.
--   Metrics: token_metrics.go and the limited writer of token_estimator.go in cmd/mysql-mcp-server.
--   Tests, in each part: the theorems at concrete inputs.
--
-- State and world: an operation takes and returns the state it changes. What drivers, servers, the
-- SSH client, the file system, the environment and the parsers of URLs, addresses and JSON answer is
-- an argument (World in Connection/Dial, Host in Config/Types), so a theorem holds for every answer.
-- Errors are constructors without their texts.
--
-- Bounds: a Go int and a Duration of the configuration are 64-bit words in two's complement, wrapped
-- where the source multiplies; the numbers elsewhere (lengths, counters, tokens, nanoseconds) are
-- naturals. Loops are structural recursion, but for that of stripOuterBackticks, whose fuel is the
-- length of the text, of which each round takes two bytes, and the digits of a number in decimal, of
-- which twenty are enough for 64 bits. The rounding of floating point
-- numbers, in the token buckets and in reading a duration back in seconds, is left out.
--
-- Not modelled: the middlewares for timeouts and logging, the REST routes, the driver wrapper that
-- applies labels, server_info, the extended and diagnostic tools, prompts, the costs of tokens and the
-- tool pack, and the input and output of drivers, logs and files. Of the connection manager, Close and
-- the cached clients of GetActiveClient are left out.
pub mod Prelude
pub mod Util
pub mod Config
pub mod Connection
pub mod Api
pub mod Access
pub mod Parser
pub mod Retry
pub mod Tools
pub mod McpHttp
pub mod Labels
pub mod Metrics
pub mod Guard
