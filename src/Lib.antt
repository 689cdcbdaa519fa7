-- ===== src/Lib.antt =====
-- Merch: a shop for employees, an HTTP server over PostgreSQL. A user logs in with a name and a
-- password, which creates the user at first, gets a token, sends coins to other users, buys items
-- and reads the history of both.
--
-- How the parts interact. `newHTTPServer` (cmd/server/main.go) puts `Authentication` around the
-- router of api/merch/merch.gen.go. The middleware turns a token into the user's id; a route's
-- strict handler decodes the body and calls the handler of cmd/server, which calls the packages of
-- internal; these send SQL statements to the pool, or within one transaction.
--
-- The files and the code:
--   Base              names of the library, Boolean tests, signed integers, lists, reorderings
--   Go.Errors         error values, errors.Is, errors.As, fmt.Errorf, panics
--   Go.Words          the wrap-around of Go's 64-bit int
--   Go.Results        chains of calls that return an error, without the database
--   Go.*              what the hasher and the set-up use of strings, strconv, fmt and base64, on
--                     bytes: Strings, Decimal, Atoi, Texts, Scan, Base64
--   Postgres.Schema   the tables of internal/app/migrationdata/0_init.up.sql
--   Postgres.Session  `app.PgxExecutor` (internal/app/pgxexecutor.go): statements, Begin, Commit,
--                     the deferred Rollback; lost requests and other clients
--   Postgres.Rows     pgx.CollectRows and pgx.CollectExactlyOneRow
--   Postgres.*        reasoning about such actions: Triples, Transactions, Pool, Keeping,
--                     Splitting, Delivery
--   Users             internal/user: Model (user.go), Getter, Creator, Argon2 (passwordhasher.go);
--                     Balance is `updateUserBalance`; Hashing is what internal/auth takes of the hasher
--   Items, Coins      internal/item, internal/coin
--   Transfers         internal/transfer: Model (transfer.go), Transferer, Getter
--   Purchases         internal/purchase: Model (purchase.go), Purchaser, Getter
--   Ledger            the specification: what the tables must satisfy (Invariant) and the three
--                     steps that may change them (Change), over the sums of Accounts
--   Auth              internal/auth: Password, Tokens; Claims has what it uses of jwt and uuid
--   Server            cmd/server and the server's half of api/merch/merch.gen.go: Responses,
--                     Handlers, Info, Middleware, Router; Wrapper is HandlerWithOptions with its
--                     options; Process is main.go's start
--   App               internal/app: Keys (ed25519.go), JwtSetup (jwtsetup.go), Database
--                     (postgressetup.go, postgrespool.go); Files is what the first two use of os
--   Setup             cmd/setup: Users (usertest.go), Tokens (authtest.go), Apptest (apptest.go),
--                     Configuration and Command (main.go, app.go)
--   Client            the client in api/merch/merch.gen.go: its options, Requests (the builders), Calls
--                     (the methods of Client and ClientWithResponses), Replies, Parsers, Payloads
--                     (the JSON values); Network puts it at the server's end, Remote has what its calls
--                     come to there, Options, Fields, Expected and RoundTrip the laws of
--                     its parts
--   Interleaving      the transactions of Transferer and Purchaser side by side, as a step relation on
--                     the committed tables, the row locks and the stages of the sessions: Program (the
--                     tie to the code), Locks, Plans, Facts, Progress (the invariant), Serial
--   Tests             concrete tables, requests and tokens
--
-- State. A `World` has the committed tables, the tables as the open transaction sees them, and the
-- number of requests made. An `Action A` takes a world to a `Result A` (a value, an error or a panic)
-- and a world. Each SQL statement is a function from the tables to rows and tables, or a refusal
-- with PostgreSQL's error code and the constraint's name; it stands beside the Go function that sends
-- it. An `Env` has what the program does not choose: whether a request arrives and its answer comes
-- back, what other clients commit before a request on the pool, new UUIDs and the time. Loops are
-- structural recursion, and the digits of a number recursion on `Acc`, so nothing runs on fuel. A
-- `FileAction` does the same over the state of a file system.
--
-- Integers. A Go int has 64 bits: the two sums of a transfer and the difference of a purchase wrap
-- around. A column of type integer has 32 bits and refuses what does not fit.
--
-- Two views of a transaction. In a `World` other clients commit before a request on the pool, and an
-- open transaction is alone. Interleaving drops this: there the statements of any number of sessions
-- are steps, a statement sees what has been committed by then, a query FOR UPDATE takes a row that
-- no other session has locked, in any order, and a transaction may end in a rollback at any time.
-- What PostgreSQL does at the level READ COMMITTED is described there as far as the two transactions
-- use it; Program has the statements that they consist of.
--
-- Parameters. The database's collation, `runtime.BindStyledParameterWithOptions` and json.Decoder
-- (a request has its decoded bodies) are arguments without laws. `Libraries` has jwt's signing and
-- parsing and uuid's printing and parsing, with the laws that a signed token parses until it
-- expires and that a printed UUID is not empty and parses. `PasswordHasher` has Hash and Verify,
-- with the law that a hash verifies; Users.Argon2 fills it, over a `Cryptography` (argon2.IDKey,
-- which gives a key of the length asked for, and random salts). `FileSystem` (os) reads what was
-- written, and a write to one file leaves the others that could be read, as do os.Create and
-- os.MkdirAll; `KeyFormats` (crypto/x509, encoding/pem) decodes what was encoded. `RowOrder` is
-- PostgreSQL's choice of the order in which the bulk INSERT of CreateUsers, which has no ORDER BY,
-- scans the temporary table and returns the new rows; the law is that it drops and repeats none.
-- `MigrateLibrary` (database/sql, golang-migrate) has no laws. What cmd/server and cmd/setup get
-- from NewPostgresPool, SetupPostgres and ListenAndServe has no laws there. The client's
-- `HttpLibrary` (net/url, http.NewRequest, runtime.StyleParamWithLocation) and `JsonLibrary`
-- (encoding/json at each type) have none either: a theorem that needs one says for which URL, body
-- or response, or for all errors, it is assumed to work as documented.
--
-- Not modelled: logging and contexts; text that PostgreSQL refuses (a NUL byte, bytes that are not
-- UTF-8); locks that a registration waits for, and the
-- detection of deadlocks, which is one of the reasons for a rollback; NULL in
-- columns that are NOT NULL; redirects, escaped slashes and HEAD's empty body in net/http; failing
-- writes of a response, and the closing of its body; the flags of cmd/setup and the text of its JSON files; what migrations do to
-- the tables; of merch.gen.go a base router with
-- patterns of its own, and the middlewares of strict handlers, of which the server has none.
pub mod Base
pub mod Go
pub mod Postgres
pub mod Users
pub mod Items
pub mod Coins
pub mod Transfers
pub mod Purchases
pub mod Ledger
pub mod Interleaving
pub mod Auth
pub mod Server
pub mod App
pub mod Client
pub mod Setup
pub mod Tests
