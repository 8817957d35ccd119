-- ===== src/Lib.antt =====
-- Verification library of review-raven, an MCP server that requests and follows GitHub Copilot
-- reviews. It models the parts that hold the program's own state and decisions; the imports of the
-- modules follow the calls of the program.
--
-- * Common has the types that all parts share: numbers, times, lists, maps, the tests on them.
-- * Autherr (internal/autherr/autherr.go) has the blocking errors that tools return; Errors has Go's
--   error chains as the program inspects them.
-- * Github.Classify (internal/github/classify.go) sorts errors. The rest of Github is
--   internal/github/client.go: Review derives the status of a review from what GitHub answered, Fetch is
--   GetReviewData, Checks GetCIStatus, Threads the calls on review threads, Request
--   RequestCopilotReview, and Pages the loop over pages that they share. Github.Gateway
--   (internal/github/gateway_token_source.go) checks the gateway's endpoint and reads its tokens.
-- * Store (internal/store/db.go) has the tables trigger_log (Store.Trigger) and review_watch
--   (Store.Watches) with one function for each method of DB; each method is one SQL statement.
--   Store.Open is Open with its schema and migrations, on a file that is known by its columns and rows;
--   which of its statements the engine refuses is a function among its arguments.
-- * Watch (internal/watch/manager.go) has the manager of the background watches: State its data,
--   Persist persistLocked, persistOrDegradeLocked and finishLocked, Start and Cancel the calls that
--   create and end watches, Reads those that only read, Outcome and Poll the worker's pollOnce, and
--   Backed the database as its store. A function that changes the manager takes it and returns the
--   changed one; a mutex section is one step. pollOnce is cut where it holds no lock, so that other
--   calls may run between the pieces. Watch.Life is the abstract machine of the watches, and
--   Watch.Life.Runs every sequence of the calls; Closing and Isolation look at Close and CancelByID.
--   Watch.Worker is the worker of a watch, run, as a list of rounds with any calls between its steps.
-- * Middleware (internal/middleware/auth.go) gives each request its login and token.
-- * Tools (internal/tools) has the handlers of the MCP tools: Auth (auth_request.go) the login and the
--   client of a call, Reply (auth_result.go) the results, Cycle (cycle.go) get_pr_review_cycle_status,
--   Status (status.go), Request (request.go) and Wait (wait.go) the tools on the trigger log, Threads
--   (threads.go) those on review threads, and Watches (watch.go) those on the watch manager. A handler
--   takes the state that it changes, of the database, of GitHub or of the manager, and returns it; what
--   others do to the database between two of its statements is a function among its arguments.
--   Diagnostics (diagnostics.go) shows the login and the scopes of a token, from Github.Diagnostics.
-- * Server has the program around these: Config and Main (cmd/server/main.go) the environment, the
--   start-up and the endpoints, Handler (internal/tools/server.go) the handler of /mcp, its Close and the
--   authorization of subscriptions, Handshake (internal/tools/legacy_handshake.go) the refusal of the
--   initialize handshake.
-- * Examples has the theorems at concrete inputs.
--
-- A time is the number of nanoseconds since Go's zero time; the columns of the database hold whole
-- seconds. An int is the library's own ℤ, without overflow: the program compares and counts with small
-- values only. One product that can overflow, the whole wait of the wait tool, is wrapped to 64 bits.
-- The loops over the pages of GitHub's lists take fuel, a page number or cursor being the service's
-- answer; where the answers count pages upwards, as many steps as there are pages are enough. The polls
-- of the wait tool are counted down, the rounds of a worker are a list that may be of any length, and
-- all other loops run over lists.
--
-- What other code does is a parameter: the texts of fmt and strconv (`Format`, `CycleEnv` and the
-- environments of the other tools), the answers of GitHub and of the gateway, the order of strings, the
-- clock, and the failures and rowids of SQLite (`Db`). A
-- map is an association list, read only by lookup where its order could matter. The watch ids are
-- assumed to differ for different sequence numbers, as the rendering of newly counted ids does.
--
-- Not modelled: the construction of HTTP clients and what the libraries for HTTP, GraphQL and JSON do,
-- the registration of the tools with the MCP library, the options of the HTTP server, the clock of the
-- timers, the rendering of the watch resource, and the logs.
pub mod Common
pub mod Autherr
pub mod Errors
pub mod Github
pub mod Store
pub mod Watch
pub mod Middleware
pub mod Tools
pub mod Server
mod Examples
