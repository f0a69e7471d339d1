-- ===== src/Tests/ConfigRuns.antt =====
-- The configuration at concrete values.
use leasewebassignment.Base.{◌≢◌, ◌⊎◌, [], ◌++◌, ◌≡◌, refl, if◌then◌else◌, Result, ok, err}
use leasewebassignment.Base.Int.{pos}
use leasewebassignment.Text.{Bytes, codes, same}
use leasewebassignment.Text.Decimal.{atoi}
use leasewebassignment.Errors.{Error, plain}
use leasewebassignment.Config.{
  Config, Decoders, Environment, last_five_are, decode, override_token, override_port,
  apply_env_overrides, validate, load,
}
use leasewebassignment.Config.Loading.{Overridden, decode_lem, load_ok}
use leasewebassignment.Config.Validity.{IsValid}
use leasewebassignment.Tests.Parts.{plain_unicode}

abbrev pub sample : Config
sample = record {
  server = record { host = codes "0.0.0.0"; port = pos 8080; timeout = pos 10 };
  app = record {
    data_file = codes "data.csv";
    upload_dir = codes "up";
    admin_token = codes "file";
    logging = record { level = codes "info" };
    allowed_ram = [];
    allowed_disk_types = [];
  };
}

abbrev pub decoders : Decoders
decoders = record { yaml = λ content. ok sample; json = λ content. err (plain (codes "not json")) }

abbrev pub getenv : Environment
getenv name =
    if same name (codes "PORT")
    then codes "9000"
    else if same name (codes "ADMIN_TOKEN")
    then codes "env"
    else []

abbrev pub overridden : Config
overridden = record sample {
  server = record sample.server { port = pos 9000 };
  app = record sample.app { admin_token = codes "env" };
}

pub load_run : load decoders getenv (codes "config.yaml") (ok (codes "x")) ≡ ok overridden
unfolding load decode last_five_are apply_env_overrides override_token override_port validate same
    atoi
load_run = refl

decode_lem_example :
    (((front : Bytes) × (codes "config" ≡ front ++ codes ".yaml")
        × (decode decoders (codes "config") (codes "x") ≡ ok sample))
      ⊎ (((front : Bytes) → codes "config" ≢ front ++ codes ".yaml")
          × (decode decoders (codes "config") (codes "x") ≡ err (plain (codes "not json")))))
    × (decode decoders (codes "config" ++ codes ".yml") (codes "x")
        ≡ err (plain (codes "not json")))
decode_lem_example = decode_lem decoders (codes "config") (codes "x")

load_ok_example :
    (content : Bytes) × (decoded : Config) × (◌≡◌ {A = Result Error Bytes}
      (ok (codes "x"))
      (ok content))
    × (decode decoders (codes "config.yaml") content ≡ ok decoded)
    × Overridden getenv decoded overridden
    × IsValid overridden
load_ok_example = load_ok decoders getenv (codes "config.yaml") (ok (codes "x")) overridden load_run
