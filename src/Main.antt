-- ===== src/Main.antt =====
-- The process, from its configuration to its listener. (cmd/main.go, internal/server/server.go)
pub mod Boot
pub mod Secrecy
pub mod Timeouts
pub mod Lifecycle
pub mod Serving
use leasewebassignment.Base.{
  ℕ, suc, ◌*◌, Bool, true, false, not, List, [], ◌∷◌, ◌++◌, map, Option, none, some, Result, ok,
  err,
}
use leasewebassignment.Base.Int.{ℤ, pos, negsuc, mul_int}
use leasewebassignment.Text.{Bytes, codes, is_empty}
use leasewebassignment.Text.Case.{Unicode}
use leasewebassignment.Text.Decimal.{decimal}
use leasewebassignment.Errors.{Error, message}
use leasewebassignment.Store.{new_repository}
use leasewebassignment.Store.Files.{FileSystem}
use leasewebassignment.Service.{ServiceState, Parser}
use leasewebassignment.Config.{Config, Decoders, Environment, load}
use leasewebassignment.Adapter.{Encoding}
use leasewebassignment.Server.Cache.{ServerConfig, Server, new_server}
use leasewebassignment.Logging.{Level, parse_level, new_logger, Line}
use leasewebassignment.Logging.Service.{WithLog, main_service}

-- What `logEffectiveConfig` logs.
pub record EffectiveConfig : Type 0 where
  pub server_host : Bytes
  pub server_port : ℤ
  pub server_timeout_seconds : ℤ
  pub data_file : Bytes
  pub upload_dir : Bytes
  pub admin_token_set : Bool
  pub logging_level : Bytes
  pub allowed_ram : List Bytes
  pub allowed_disk_types : List Bytes

-- The calls of the logger.
pub data StartLine : Type 0 where
  effective_config : EffectiveConfig → StartLine
  service_line : Line → StartLine
  -- `Errorw("failed to load startup data …")`: the data file and the text of the error
  load_failed : Bytes → Bytes → StartLine
  -- `Infof("listening on %s")`
  listening_on : Bytes → StartLine

unfoldable pub log_effective_config : Config → StartLine
log_effective_config cfg = effective_config (record {
  server_host = cfg.server.host;
  server_port = cfg.server.port;
  server_timeout_seconds = cfg.server.timeout;
  data_file = cfg.app.data_file;
  upload_dir = cfg.app.upload_dir;
  admin_token_set = not (is_empty cfg.app.admin_token);
  logging_level = cfg.app.logging.level;
  allowed_ram = cfg.app.allowed_ram;
  allowed_disk_types = cfg.app.allowed_disk_types;
})

-- `%d` of an `int`
abbrev pub print_int : ℤ → Bytes
print_int (pos n) = decimal n
print_int (negsuc n) = b'-' ∷ decimal (suc n)

-- `time.Second`, of a `time.Duration` in nanoseconds, which is an `int64`
abbrev pub second : ℕ
second = 1000000000

-- `http.Server` without its handler
pub record HttpServer : Type 0 where
  pub addr : Bytes
  pub read_header_timeout : ℤ
  pub read_timeout : ℤ
  pub write_timeout : ℤ
  pub idle_timeout : ℤ

-- `time.Duration(cfg.Server.Timeout) * time.Second`
unfoldable pub request_timeout : Config → ℤ
unfolding mul_int
request_timeout cfg = mul_int cfg.server.timeout (pos second)

unfoldable pub http_server : Config → HttpServer
unfolding request_timeout decimal
http_server cfg = record {
  addr = cfg.server.host ++ codes ":" ++ print_int cfg.server.port;
  read_header_timeout = pos (5 * second);
  read_timeout = request_timeout cfg;
  write_timeout = request_timeout cfg;
  idle_timeout = pos (60 * second);
}

-- A process that listens: its server, its listener, and what it has logged.
pub record Process {ℓ} (fs : FileSystem) (F : Type ℓ) : Type ℓ where
  pub server : Server fs F
  pub http : HttpServer
  pub level : Level
  pub lines : List StartLine

pub data Outcome {ℓ} (fs : FileSystem) (F : Type ℓ) : Type ℓ where
  -- `log.Fatalf`
  fatal : Bytes → Outcome fs F
  running : Process fs F → Outcome fs F

module _ {ℓ} (fs : FileSystem) {F : Type ℓ} ⦃U : Unicode⦄ (parse : Parser F)
    (encoding : Encoding F) where
  -- what `NewServer` is given
  abbrev server_config : Config → ServiceState fs F → Bool → ServerConfig fs F
  server_config cfg service ready = record {
    service = service;
    logger = true;
    auth_key = cfg.app.admin_token;
    allowed_ram = cfg.app.allowed_ram;
    allowed_disk_types = cfg.app.allowed_disk_types;
    ready = some ready;
  }

  -- The line that follows a load, and the flag.
  abbrev load_lines : Bytes → Option Error → List StartLine
  load_lines data_file none = []
  load_lines data_file (some e) = load_failed data_file (message e) ∷ []

  abbrev is_loaded : Option Error → Bool
  is_loaded none = true
  is_loaded (some e) = false

  -- `main` behind the construction of the logger, and `runServer` up to its listener
  unfoldable pub boot : Level → Config → fs.State → Process fs F
  unfolding new_server log_effective_config http_server message
  boot level cfg files =
      let service = main_service fs parse in
      let repo = new_repository (record { upload_dir = cfg.app.upload_dir }) in
      let ((st, lines), failed) =
        service.load_of cfg.app.data_file (record { repo = some repo; files = files }, []) in
      let http = http_server cfg in
      record {
        server = new_server fs parse encoding (server_config cfg st (is_loaded failed));
        http = http;
        level = level;
        lines =
            log_effective_config cfg ∷ map service_line lines
            ++ load_lines cfg.app.data_file failed
            ++ (listening_on http.addr ∷ []);
      }

  -- `main`: `read` is what `os.ReadFile` gives of the configuration, and `build` what zap makes of a
  -- level.
  unfoldable pub main :
      Decoders
      → Environment
      → (Level → Option Error)
      → Bytes
      → Result Error Bytes
      → fs.State
      → Outcome fs F
  unfolding boot load parse_level message
  main dec getenv build path read files = elim (load dec getenv path read) [
    | err e ↦ fatal (codes "failed to load config: " ++ message e)
    | ok cfg ↦ elim (new_logger build cfg.app.logging.level) [
      | err e ↦ fatal (codes "failed to initialize logger: " ++ message e)
      | ok level ↦ running (boot level cfg files)
    ]
  ]
