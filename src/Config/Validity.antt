-- ===== src/Config/Validity.antt =====
-- `Validate`: which configurations are valid. (internal/config/config.go)
use leasewebassignment.Base.{false, none, ◌≡◌, ◌≢◌, ◌↔◌, arith}
use leasewebassignment.Base.Int.{pos, ◌<ℤ◌}
use leasewebassignment.Text.{is_empty}
use leasewebassignment.Config.{Config, validate}

pub record IsValid (c : Config) : Type 0 where
  pub host_given : is_empty c.server.host ≡ false
  pub port_given : c.server.port ≢ pos 0
  pub timeout_positive : pos 0 <ℤ c.server.timeout
  pub data_file_given : is_empty c.app.data_file ≡ false
  pub upload_dir_given : is_empty c.app.upload_dir ≡ false

validate-IsValid : (c : Config) → validate c ≡ none → IsValid c
unfolding validate
validate-IsValid c e = record {
  host_given = ground arith;
  port_given = ground arith;
  timeout_positive = ground arith;
  data_file_given = ground arith;
  upload_dir_given = ground arith;
}

ladder_none :
    (c : Config)
    → is_empty c.server.host ≡ false
    → c.server.port ≢ pos 0
    → pos 0 <ℤ c.server.timeout
    → is_empty c.app.data_file ≡ false
    → is_empty c.app.upload_dir ≡ false
    → validate c ≡ none
unfolding validate
ladder_none c a b t d u = ground arith

IsValid-validate : (c : Config) → IsValid c → validate c ≡ none
IsValid-validate c h =
    ladder_none c h.host_given h.port_given h.timeout_positive h.data_file_given h.upload_dir_given

-- `Validate` accepts a configuration exactly when it has a host, a port that is not zero, a positive
-- timeout, a data file and an upload directory.
pub validate_iff : (c : Config) → (validate c ≡ none) ↔ IsValid c
validate_iff c = (validate-IsValid c, IsValid-validate c)
