-- ===== src/Lib.antt =====
-- eMCP: a verification development for the gateway's core.
--
-- The gateway takes an HTTP request with a Bearer API key, authenticates it against
-- Postgres with a negative cache in Redis, passes it by a sliding-window rate limiter in
-- Redis, runs the tool, which may fetch from outside through a pool of proxies, and counts
-- the request in Postgres. Beside that, background
-- workers run by a cron schedule. The parts and their files:
--
-- * module Prelude: Boolean tests on the native ℕ and lemmas on lists that the parts share.
-- * module Keys (src/db/repos/api-keys.ts): the repository of API keys. `Db` is the two tables it
--   writes, `api_keys` and `api_key_tool_usage`; each method is a function of the database.
--   The transaction of `recordUsage` runs over statements each of which may fail. Keys/Rows
--   has what the statements do to one row, Keys/Operations the calls as one data type.
-- * module Auth (src/core/auth.ts, src/core/auth-hash.ts): `authenticate` over the repository and
--   the cache of missed keys. A Redis that fails answers none.
-- * module Cli (src/cli/keys.ts, src/cli/common.ts, src/cli/keys): the command line for keys, with its
--   exit codes, over module Keys.
-- * module RateLimit (src/core/rate-limiter.ts): the Lua script on one sorted set, with expiry,
--   and what `check` makes of its reply.
-- * module Proxy (src/shared/net/proxy/pool.ts, src/shared/net/proxy/types.ts): the pool of outbound proxies, its
--   selection, its reports of success and failure with cooldowns, and its snapshots; Proxy/Redact
--   (src/shared/net/proxy/redact.ts) masks the credentials of its URLs.
-- * module Egress (src/shared/net/egress.ts): `fetchExternal`, its retries over the pool and its
--   metrics. The replies of the fetcher are inputs.
-- * module Scheduler (src/shared/workers/scheduler.ts): the cron scheduler of the workers as
--   a step relation; `runOnce` is cut at its awaits, and the events of the workers come in
--   any order.
-- * module Expr (src/shared/math/expr/parser.ts): the expressions of the math tools.
--   Expr/Tokenizer has `tokenize`, Expr/Parser the class `Parser`, whose depth limit is the
--   recursion: a parser that is one `enter` deeper is one level `below`. Expr/Parser/Printed
--   prints trees, and the modules beside it read them back level by level of the grammar.
--   Expr/Evaluator has the evaluator (src/shared/math/expr/evaluator.ts) over an abstract type of
--   numbers, and Expr/Calculator the checks of src/tools/calculator.ts before it.
-- * module Address (src/core/client-ip.ts, src/shared/net/ssrf.ts): addresses as texts. CIDR
--   blocks and the client's address stand in Address and Address/Cidr, the guard against
--   private addresses in Address/Private.
-- * module Headers (src/core/headers.ts): the checks of the Host and Origin headers, which a
--   request passes before it is authenticated. Headers/Fields is about the values of a header,
--   Headers/Hosts about the name in a host.
-- * module Fetch (src/shared/net/http.ts): `fetchSafe` and its pinned fetcher, over Address. The
--   network is a record of functions of the hop. The loop has fuel; one turn more than
--   `maxRedirects` is enough, since each turn but the last counts a redirect.
-- * module Shutdown (src/lib/shutdown.ts): the registry of shutdown handlers.
-- * module Loader (src/shared/tools/loader.ts, src/shared/workers/loader.ts,
--   src/shared/tools/redact.ts): the registries of tools and workers, and the redactor of arguments.
-- * module Errors (src/lib/errors.ts): the classes of errors with their HTTP status and JSON-RPC code.
-- * module Server (src/server.ts): the HTTP server. Server/Gate has `handleMcp` up to the session
--   table, over Headers, Address, RateLimit and Auth; Server/Route the rest of it; Server/Sessions the
--   table, and requests that overlap as a step relation; Server/Requests the routing and the pages;
--   Server/ToolCall the wrapper of a tool's handler, with the usage it records over Keys.
--
-- Time is a natural number of milliseconds that a call takes as an argument. Where
-- no other call can come between, promises are run to their end and a handler is one
-- function from state to state. Loops are structural
-- recursion on a list or on the number of attempts left that the source itself sets
-- (`maxRetries` and the size of the pool). `tokenize` has as many turns as its source has
-- code units, since each turn reads one, and each loop of the parser as many as there are
-- tokens, since each turn takes one.
--
-- Parameters, as their code is not in the repository: the HMAC of node:crypto, the number that
-- math.random gives first in a Lua script (one for all runs, since Redis seeds it with a constant
-- before each), those of Math.random, the ids, hashes and times that Postgres supplies, the replies
-- of undici, what a DNS lookup returns, what `Number` makes of a literal, the operations on doubles
-- and the built-in functions, and what `JSON.parse` makes of a body.
--
-- Not modelled: the tools but for one mode of the calculator, the loggers and the
-- metrics registry, the migrations; text of messages; closing of
-- connections; several gateways that share one Redis, apart from the order of their
-- commands, which the script makes atomic.

mod Prelude
pub mod Proxy
pub mod Egress
pub mod Keys
pub mod Auth
pub mod Cli
pub mod RateLimit
pub mod Scheduler
pub mod Errors
pub mod Loader
pub mod Shutdown
pub mod Fetch
pub mod Server
pub mod Expr
pub mod Address
pub mod Headers
