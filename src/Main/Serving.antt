-- ===== src/Main/Serving.antt =====
-- What the server of a process answers. (cmd/main.go, internal/server/server.go)
use leasewebassignment.Base.{ok, List, Option, ◌≡◌, refl, Result}
use leasewebassignment.Text.{Bytes}
use leasewebassignment.Text.Case.{Unicode}
use leasewebassignment.Errors.{Error}
use leasewebassignment.Store.Files.{FileSystem, IsFileSystem}
use leasewebassignment.Service.{Parser}
use leasewebassignment.Config.{Config, Decoders, Environment, decode}
use leasewebassignment.Config.Loading.{Overridden}
use leasewebassignment.Config.Validity.{IsValid}
use leasewebassignment.Adapter.{Encoding}
use leasewebassignment.Middleware.{Request}
use leasewebassignment.Server.{start}
use leasewebassignment.Server.Running.{IsRunning}
use leasewebassignment.Server.Requests.{after_requests, after_requests-IsRunning}
use leasewebassignment.Server.Routes.{Library}
use leasewebassignment.Server.Cache.{serve_all, serve_each, serve_all-unbuilt}
use leasewebassignment.Logging.{Level}
use leasewebassignment.Main.{Process, running, main}
use leasewebassignment.Main.Boot.{settings_of, main-Booted}

module _ {ℓ} (fs : FileSystem) {F : Type ℓ} ⦃U : Unicode⦄ (parse : Parser F) (encoding : Encoding F)
    (lib : Library) where
  -- A process serves with the key and the lists of the configuration that was read and decoded, with the
  -- token and the port of the environment where it sets them, and that is valid, from the state that its
  -- directory and its data file give, and its answers are those of routes that are built for each
  -- request; behind them its state is sound.
  pub record Serves (dec : Decoders) (getenv : Environment) (path : Bytes)
      (read : Result Error Bytes) (p : Process fs F) (files : fs.State) (requests : List Request)
      : Type ℓ where
    pub cfg : Config
    pub decoded : Config
    pub content : Bytes
    pub content_is : read ≡ ok content
    pub decoded_is : decode dec path content ≡ ok decoded
    pub overridden : Overridden getenv decoded cfg
    pub valid : IsValid cfg
    pub answers :
        serve_all fs lib requests p.server
        ≡ serve_each fs lib p.server.logger (settings_of fs parse encoding cfg) requests (
            start fs (settings_of fs parse encoding cfg) cfg.app.upload_dir cfg.app.data_file files)
    pub sound :
        IsRunning fs (after_requests fs lib p.server.logger p.server.settings requests p.server.app)

  -- When `main` gets to its listener, its server answers any requests, one after another, as the
  -- settings of the configuration that it has read and the state of a start from its data file call for, with the
  -- routes that it keeps as with new ones, and its state stays sound, if the file system does what it
  -- documents.
  pub main-Serves :
      (dec : Decoders) (getenv : Environment) (build : Level → Option Error) (path : Bytes)
      (read : Result Error Bytes) (files : fs.State)
      → IsFileSystem fs
      → (p : Process fs F) → main fs parse encoding dec getenv build path read files ≡ running p
      → (requests : List Request) → Serves dec getenv path read p files requests
  main-Serves dec getenv build path read files ax p h requests =
      let booted = main-Booted fs parse encoding dec getenv build path read files ax p h in
      let cfg = booted.cfg in
      record {
        cfg = cfg;
        decoded = booted.decoded;
        content = booted.content;
        content_is = booted.content_is;
        decoded_is = booted.decoded_is;
        overridden = booted.overridden;
        valid = booted.valid;
        answers =
            rw
              (
                serve_all-unbuilt fs lib requests p.server booted.unbuilt,
                booted.app_is,
                booted.settings_is,
              )
              refl;
        sound = rw booted.app_is (
            after_requests-IsRunning fs lib p.server.logger p.server.settings cfg.app.upload_dir
              cfg.app.data_file files ax requests);
      }
