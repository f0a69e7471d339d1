-- ===== src/Main/Secrecy.antt =====
-- What the start of a process writes to its log. (cmd/main.go)
use leasewebassignment.Base.{◌≡◌}
use leasewebassignment.Text.{Bytes, is_empty}
use leasewebassignment.Text.Case.{Unicode}
use leasewebassignment.Store.Files.{FileSystem}
use leasewebassignment.Service.{Parser}
use leasewebassignment.Config.{Config}
use leasewebassignment.Logging.{Level}
use leasewebassignment.Adapter.{Encoding}
use leasewebassignment.Main.{log_effective_config, boot}

-- the configuration with another admin token
abbrev pub with_token : Bytes → Config → Config
with_token token cfg = record cfg { app = record cfg.app { admin_token = token } }

log_effective_config-with_token :
    (cfg : Config) (token : Bytes)
    → is_empty token ≡ is_empty cfg.app.admin_token
    → log_effective_config (with_token token cfg) ≡ log_effective_config cfg
unfolding log_effective_config
log_effective_config-with_token cfg token e = rw e

module _ {ℓ} (fs : FileSystem) {F : Type ℓ} ⦃U : Unicode⦄ (parse : Parser F)
    (encoding : Encoding F) where
  -- What a process logs up to its listener tells nothing of the admin token but whether there is one:
  -- with any other token, both empty or both not, it logs the same.
  pub lines-boot-with_token :
      (level : Level) (cfg : Config) (files : fs.State) (token : Bytes)
      → is_empty token ≡ is_empty cfg.app.admin_token
      → (boot fs parse encoding level (with_token token cfg) files).lines
        ≡ (boot fs parse encoding level cfg files).lines
  unfolding boot
  lines-boot-with_token level cfg files token e = rw (log_effective_config-with_token cfg token e)
