-- ===== src/Lib.antt =====
-- Verification library of golang_fin, an anti-bruteforce service. The server answers whether an
-- attempt to log in may go on: it looks the address up in a black list and a white list of networks
-- and counts the attempts for a login, a password and an address, up to a limit each; a ticker
-- clears the counters.
--
-- The parts and how they interact:
-- - internal/storage/storageData/storageData.go, helpers/helper.go: the data that all parts share,
--   in StorageData and Errors. Every error value that a modelled part returns is a
--   constructor of `GoError`.
-- - internal/app/validate.go: App/Validate. Go's `strings.Split` and `strconv.Atoi` are written out
--   in Std.
-- - internal/app/app.go: App/Service and App/Subnets. Its two interfaces are the records of
--   Interfaces, a component's methods over a state of its own; `Stores` pairs the two states.
--   `CheckRequest` is `check_request`, its three counters are `check_login_rate`,
--   `check_password_rate` and `check_ip_rate`, each of which goes on with the next.
-- - internal/storage/storageSQLMock/storageSQLMock.go: StorageSqlMock, which fills `Storage`.
-- - internal/storage/sqldb/sqldb.go: SqlDb, which fills `Storage`. The package database/sql is the
--   parameter `SqlClient`; `IsSql` says what is relied on of the four statements, with the equality of
--   the columns as a parameter, since migrations/001_migration.sql stores the address as inet;
--   SqlDb/Memory is a database that meets it and compares addresses as numbers.
-- - internal/storage/redis/redis.go: Redis, which fills `BucketStorage`. The library go-redis is the
--   parameter `RedisClient`; `IsRedis` says what is relied on of it, and Redis/Memory is a server
--   that meets it.
-- - internal/server/http: Server. A handler works on the state of the application, the log and a
--   response (`Served`); `serve_http` is a request to a path, through the route, the middleware and
--   the handler. An answer is kept as the value that is encoded, since `Marshal` does not fail on
--   these types. The handlers take the scanner of encoding/json as a record, `JsonSyntax`, so that
--   their theorems hold for any.
-- - the package encoding/json: Std/Json. The scanner is a state machine over the characters, as in the
--   package; `json_syntax` is the record made of it, `print` the text of `Marshal`. What `Unmarshal`
--   makes of a scanned value is in Std/Json, Server/Decode and Cli/Decode, what `Marshal` makes of a
--   struct in Server/Encode. The texts of its errors stay a parameter, which takes the struct and the
--   body, and the limit of 10000 nested values is left out.
-- - cmd/cli: Cli. A command works on a network with a state, through the parameter `HttpClient`, and
--   gives the text that is printed; `main_loop` is the loop over the lines, and `run` the program from
--   its first request on. Cli/Connected puts the client in front of the modelled server: the network
--   is then the server's state, and a request is one call of `serve_http`. The tables of
--   `unicode.ToLower` beyond ASCII are a parameter.
-- - cmd/antibruteforce: Program. `run_server` goes from the configuration to the exit status; what
--   `ListenAndServe` does is a parameter. Both configurations are read through the parameter `Viper`.
-- - the goroutine of `RateLimitTicker`: App/Ticker, over the events that its select finds.
-- What the application relies on of its storages are the records Interfaces/Counting and
-- Interfaces/Listing. They allow any call to fail, before or after it has had its effect.
--
-- A method is a function from a state and a log to a result, a state and a log (Exec). Go's int is
-- an integer (Prelude/Int); the code adds to no such number but the counters, which the server
-- keeps within 64 bits, and the identifiers of the mock, which StorageSqlMock/Bounds is about. The
-- loops are recursions on lists and texts; `format_digits` alone has fuel, one more than the number
-- that it prints.
--
-- The operations of a sequence run one after another. App/Service/Race alone takes two calls apart:
-- it splits `IPAddToList` at the call that adds.
--
-- A handler is called with its context, which is done or not for the whole of it. A path is taken as
-- clean and not redirected; the status of a response is always 200 and left out.
--
-- Not modelled: the listening socket of the server, the mutex of the mock and
-- the clock of the ticker; the flags, the version and the signal handlers of the programs. The
-- timeout of a request of the client is one of the errors that the request may end with. The loggers
-- are wrappers of a library; the model keeps the messages. integrationtests has tests and a copy of
-- the configuration. Std/Net has no IPv6 zones, which `ParseIP` refuses.
mod Prelude
pub mod Std
pub mod Errors
pub mod StorageData
pub mod Exec
pub mod Interfaces
pub mod StorageSqlMock
pub mod SqlDb
pub mod Redis
pub mod App
pub mod Server
pub mod Cli
pub mod Viper
pub mod Program
