-- ===== src/Lib.antt =====
-- A model of the server catalog service: a REST service that loads a catalog of servers from CSV,
-- keeps it in memory with an index, answers filtered and paged queries, and takes new catalogs by
-- an authorized upload.
--
-- The parts, from the leaves up, and the files that model them:
-- - Text: Go strings as lists of bytes, with the functions of packages strings and strconv that the
--   program calls. Text.Case takes the Unicode tables and `%q` as the parameter Unicode; its own
--   paths for ASCII are written out. Base has lists and integers over native numbers; a Go `int` is
--   an integer in 64 bits, and its arithmetic wraps (Base.Int).
-- - Errors: APIError, CSVParseError, ServiceError and StoreError as one type of error chains
--   (internal/platform/httperr/httperr.go, internal/service/errors.go, internal/store/errors.go).
-- - Model: the fields of a server (internal/model/server.go). Model.Pattern has the regular
--   expressions as matchers; ParsePrice, ParseRAM, ParseHDD, NormalizeDiskType, RAMFamily,
--   ParseStorageValue, ValidateRAM and ValidateHDD are parse_price, parse_ram, parse_hdd,
--   normalize_disk_type, ram_family, parse_storage_value, validate_ram and validate_hdd. `float64`
--   and ParseFloat are the parameter Floats.
-- - Store: the repository (internal/store/store.go, internal/store/memory_repo.go). list_servers and
--   replace_servers work on the record MemoryRepository; a nil repository is `none`. Store.Upload
--   is SaveUpload, as explicit steps on the files. Package os is the parameter FileSystem, and what
--   it documents of its operations is IsFileSystem (Store.Files); Tests.Parts has a file system in
--   memory that satisfies it. Store.Path has package path/filepath.
-- - Service: CSVParser.Parse and ServerService (internal/service/parser.go,
--   internal/service/service.go). What csv.Reader makes of the bytes is the parameter CsvReader.
--   ServiceState is the repository and the files; upload_server_data and load_server_data take a
--   state to a state and an error.
-- - Api: MapError (internal/api/errors.go). errors.As and errors.Is walk the chain. MapError calls
--   itself on a part of the chain: map_error_from does so on fuel, and map_error gives it the depth
--   of the chain.
-- - Handlers: the request builder, the two handlers, and paging (internal/server/handlers). A slice
--   expression out of range is a panic, which is a value of Outcome.
-- - Wire: what an http.ResponseWriter of package net/http makes of the calls of a handler, as a list of
--   actions, and the reply that a client receives.
-- - Middleware: recover, request id, logging, gzip, auth and Chain (internal/server/middleware). A
--   handler takes a request and a state to a Run: the state after it, its actions on the writer, the
--   lines it logs, and whether it returned or panicked. A middleware is a function on handlers, and
--   with_middlewares is the chain of internal/server/routes.go. The eight random bytes of an
--   identifier come with the request; the compressor is an argument. The limit on a body is
--   max_bytes_middleware, around the upload route; what net/http makes of a body as a form comes with
--   the request.
-- - Adapter: Adapt and writeJSON (internal/server/handlers/adapters.go): a result becomes a Response,
--   and response_actions is what is then done with the writer. JSON encoding and the hash are the
--   parameter Encoding.
-- - Mux: the choice of http.ServeMux among patterns, by the segments of the escaped path, as far as the
--   routes use it.
-- - Server: the handlers of the routes, readiness and start-up (internal/server/routes.go, cmd/main.go).
--   `serve` takes a call and a state to a state and a response, which is missing after a panic;
--   Server.Running has the states that a server reaches. Server.Routes has the registered patterns,
--   the Swagger page (internal/server/swaggerui.go), and serve_http, which is ServeHTTP; the file
--   servers and redirects of net/http are the parameter Library. Server.Cache has NewServer, and the
--   routes that a server keeps once it has built them (internal/server/server.go).
-- - Concurrency: ListServers and ReplaceServers of internal/store/memory_repo.go under the RWMutex, as
--   steps of goroutines over shared memory.
-- - Concurrency.Uploads: UploadServerData of internal/service/service.go with SaveUpload and
--   ReplaceServers of internal/store/memory_repo.go, as steps of goroutines over the files, the
--   catalog and the mutex.
-- - Main: the process (cmd/main.go). boot is what main does behind the construction of the logger, up
--   to the listener; http_server has the listener's address and time limits, in nanoseconds as an int64.
--   Main.Lifecycle is the process from there on: the goroutine of the listener, the one of main, the
--   signals (internal/platform/shutdown/shutdown.go) and the time, in steps of a nanosecond; a signal
--   before `signal.Notify` ends the process.
-- - Logging: parseLevel and NewLogger (internal/platform/log/logger.go) and the logging service around
--   a service (internal/service/logging.go).
-- - Config: Load, the overrides from the environment, and Validate (internal/config/config.go). The
--   YAML and JSON decoders and the environment are arguments.
-- - Fixtures: the sample catalog of internal/testutil/fixtures.go; Tests.FixtureRuns parses it and
--   compares its index with the values that its comments give.
-- - Tests: the parameters at concrete values, runs of the code, and the results applied.
--
-- How they interact: a request passes the middlewares and the multiplexer and becomes a call of Server,
-- which reads a query with Handlers and asks Service, which asks Store; an upload is parsed by Service
-- before Store keeps the file and then replaces the catalog; errors go up as chains and meet Api, which
-- gives the status and the body; Adapter writes them, and the middlewares see to the rest. Main loads
-- the configuration with Config, starts Server, and ends with the first signal.
--
-- Fuel: the depth of an error chain for map_error_from; n + 1 digits for the number n in Text.Decimal.
--
-- Not modelled: the end of the connection behind a body over the limit, the removal of temporary files
-- of a multipart form, what zap makes of the configuration of a logger, the parsing of flags, how
-- net/http serves and shuts down, of which Main.Lifecycle has only the results, and requests at once,
-- but for what they do to the repository, its mutex and its files. A reply to HEAD has the body that the
-- handler writes; net/http drops it. Outside Concurrency a method of the repository is one step, as its
-- mutex makes it. Of log lines the times, durations and stacks are left out.
pub mod Base
pub mod Text
pub mod Errors
pub mod Model
pub mod Store
pub mod Service
pub mod Api
pub mod Handlers
pub mod Mux
pub mod Wire
pub mod Middleware
pub mod Adapter
pub mod Server
pub mod Concurrency
pub mod Logging
pub mod Main
pub mod Config
pub mod Tests
pub mod Fixtures
