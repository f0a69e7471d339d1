-- ===== src/Config.antt =====
-- The configuration: reading it, overriding it from the environment, and validating it.
-- (internal/config/config.go)
pub mod Validity
pub mod Loading
use leasewebassignment.Base.{
  ℕ, ◌-◌, Bool, not, ◌&&◌, ◌||◌, List, [], ◌∷◌, ◌++◌, Option, none, some, if◌then◌else◌, Result, ok,
  err, ◌>>=◌, drop, length, leb,
}
use leasewebassignment.Base.Int.{ℤ, pos, ltb_ℤ, leb_ℤ}
use leasewebassignment.Text.{Bytes, codes, same, is_empty}
use leasewebassignment.Text.Case.{Unicode}
use leasewebassignment.Text.Decimal.{atoi}
use leasewebassignment.Errors.{Error, plain}

pub record ServerConfig : Type 0 where
  pub host : Bytes
  pub port : ℤ
  pub timeout : ℤ

pub record LoggingConfig : Type 0 where
  pub level : Bytes

pub record AppConfig : Type 0 where
  pub data_file : Bytes
  pub upload_dir : Bytes
  pub admin_token : Bytes
  pub logging : LoggingConfig
  pub allowed_ram : List Bytes
  pub allowed_disk_types : List Bytes

pub record Config : Type 0 where
  pub server : ServerConfig
  pub app : AppConfig

-- `yaml.Unmarshal` and `json.Unmarshal` into an empty configuration
pub record Decoders : Type 0 where
  pub yaml : Bytes → Result Error Config
  pub json : Bytes → Result Error Config

-- `len(path) >= 5 && path[len(path)-5:] == suffix`
unfoldable pub last_five_are : Bytes → Bytes → Bool
unfolding same
last_five_are path suffix = leb 5 (length path) && same (drop (length path - 5) path) suffix

-- the switch of `Load`
unfoldable pub decode : Decoders → Bytes → Bytes → Result Error Config
unfolding last_five_are
decode dec path content =
    if last_five_are path (codes ".yaml")
    then dec.yaml content
    else if last_five_are path (codes ".yml")
    then dec.yaml content
    else dec.json content

-- `os.Getenv`
abbrev pub Environment : Type 0
Environment = Bytes → Bytes

-- the first half of `applyEnvOverrides`
unfoldable pub override_token : Environment → Config → Config
override_token getenv c =
    let token = getenv (codes "ADMIN_TOKEN") in
    if not (is_empty token) then record c { app = record c.app { admin_token = token } } else c

abbrev pub invalid_port : ⦃U : Unicode⦄ → Bytes → Error
invalid_port ⦃U⦄ raw = plain (
    codes "invalid PORT environment variable "
    ++ U.quote raw
    ++ codes ": must be a positive integer")

-- the second half
unfoldable pub override_port : ⦃U : Unicode⦄ → Environment → Config → Result Error Config
override_port getenv c =
    let raw = getenv (codes "PORT") in
    if not (is_empty raw)
    then elim (atoi raw) [
      | err _ ↦ err (invalid_port raw)
      | ok port ↦
          if leb_ℤ port (pos 0)
          then err (invalid_port raw)
          else ok (record c { server = record c.server { port = port } })
    ]
    else ok c

unfoldable pub apply_env_overrides : ⦃U : Unicode⦄ → Environment → Config → Result Error Config
unfolding override_token override_port
apply_env_overrides getenv c = override_port getenv (override_token getenv c)

abbrev is_zero : ℤ → Bool
is_zero z = leb_ℤ z (pos 0) && leb_ℤ (pos 0) z

unfoldable pub validate : Config → Option Error
validate c =
    if is_empty c.server.host
    then some (plain (codes "server.host is required"))
    else if is_zero c.server.port
    then some (plain (codes "server.port is required"))
    else if leb_ℤ c.server.timeout (pos 0)
    then some (plain (codes "server.timeout must be a positive number of seconds"))
    else if is_empty c.app.data_file
    then some (plain (codes "app.data_file is required"))
    else if is_empty c.app.upload_dir
    then some (plain (codes "app.upload_dir is required"))
    else none

-- `if err := cfg.Validate(); err != nil { return nil, err }; return cfg, nil`
abbrev pub checked : Config → Result Error Config
checked c = elim (validate c) [ some e ↦ err e | none ↦ ok c ]

-- `Load`; the argument `read` is what `os.ReadFile(path)` gives.
unfoldable pub load :
    ⦃U : Unicode⦄ → Decoders → Environment → Bytes → Result Error Bytes → Result Error Config
load dec getenv path read = do
  content ← read
  decoded ← decode dec path content
  overridden ← apply_env_overrides getenv decoded
  checked overridden
