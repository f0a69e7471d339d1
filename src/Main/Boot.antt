-- ===== src/Main/Boot.antt =====
-- Which configurations start a process, and in which state. (cmd/main.go, internal/config/config.go)
use leasewebassignment.Base.{
  inl, inr, Option, none, some, ◌≡◌, refl, sym, ◌↔◌, Result, ok, Option-cases, Result-cases,
}
use leasewebassignment.Text.{Bytes}
use leasewebassignment.Text.Case.{Unicode}
use leasewebassignment.Errors.{Error}
use leasewebassignment.Store.{new_memory_repository}
use leasewebassignment.Store.Files.{FileSystem, IsFileSystem}
use leasewebassignment.Service.{ServiceState, Parser, load_server_data}
use leasewebassignment.Config.{Config, Decoders, Environment, decode, load}
use leasewebassignment.Config.Validity.{IsValid}
use leasewebassignment.Config.Loading.{Overridden, load_ok}
use leasewebassignment.Adapter.{Encoding}
use leasewebassignment.Server.{Settings, start}
use leasewebassignment.Server.Cache.{new_server}
use leasewebassignment.Server.Running.{IsRunning, started, Reaches-IsRunning}
use leasewebassignment.Logging.{Level, parse_level}
use leasewebassignment.Logging.Service.{new_logging_service, server_service}
use leasewebassignment.Main.{Process, running, http_server, boot, main}

module _ {ℓ} (fs : FileSystem) {F : Type ℓ} ⦃U : Unicode⦄ (parse : Parser F)
    (encoding : Encoding F) where
  -- the settings that a configuration stands for
  abbrev pub settings_of : Config → Settings F
  settings_of cfg = record {
    auth_key = cfg.app.admin_token;
    allowed = record { ram = cfg.app.allowed_ram; disk_types = cfg.app.allowed_disk_types };
    parse = parse;
    encoding = encoding;
  }

  app-boot :
      (level : Level) (cfg : Config) (files : fs.State)
      → (boot fs parse encoding level cfg files).server.app
        ≡ start fs (settings_of cfg) cfg.app.upload_dir cfg.app.data_file files
  unfolding boot start new_logging_service server_service new_server
  app-boot level cfg files =
      let st : ServiceState fs F = record {
        repo = some (new_memory_repository cfg.app.upload_dir);
        files = files;
      } in
      elim (Option-cases (load_server_data fs parse cfg.app.data_file st).1) [
        | inl done ↦ rw (done, start)
        | inr (e, failed) ↦ rw (failed, start)
      ]

  -- A process that listens has loaded its configuration, which the environment has overridden and
  -- which is valid; its key and its allowed values are those of the configuration, its state is the one
  -- that `start` describes, and its listener has the address and the time limits given.
  pub record Booted (dec : Decoders) (getenv : Environment) (path : Bytes)
      (read : Result Error Bytes) (files : fs.State) (p : Process fs F) : Type ℓ where
    pub cfg : Config
    pub decoded : Config
    pub content : Bytes
    pub content_is : read ≡ ok content
    pub decoded_is : decode dec path content ≡ ok decoded
    pub overridden : Overridden getenv decoded cfg
    pub valid : IsValid cfg
    pub settings_is : p.server.settings ≡ settings_of cfg
    pub app_is :
        p.server.app ≡ start fs p.server.settings cfg.app.upload_dir cfg.app.data_file files
    pub unbuilt : p.server.once ≡ none
    pub http_is : p.http ≡ http_server cfg
    pub sound : IsRunning fs p.server.app

  module _ (dec : Decoders) (getenv : Environment) (build : Level → Option Error) (path : Bytes)
      (read : Result Error Bytes) (files : fs.State) where
    -- What `main` needs.
    abbrev pub CanBoot : Config → Type 0
    CanBoot cfg =
        (load dec getenv path read ≡ ok cfg) × (build (parse_level cfg.app.logging.level) ≡ none)

    pub main-CanBoot :
        (cfg : Config)
        → CanBoot cfg
        → main fs parse encoding dec getenv build path read files
          ≡ running (boot fs parse encoding (parse_level cfg.app.logging.level) cfg files)
    unfolding main
    main-CanBoot cfg (loaded, built) = rw (loaded, built, main)

    CanBoot-main :
        (p : Process fs F)
        → main fs parse encoding dec getenv build path read files ≡ running p
        → (cfg : Config) × CanBoot cfg
          × (p ≡ boot fs parse encoding (parse_level cfg.app.logging.level) cfg files)
    unfolding main
    CanBoot-main p h = elim (Result-cases (load dec getenv path read)) [
      | inr (e, failed) ↦ absurd (cc (rw (failed, main) at h))
      | inl (cfg, loaded) ↦ elim (Option-cases (build (parse_level cfg.app.logging.level))) [
        | inr (e, failed) ↦ absurd (cc (rw (loaded, failed, main) at h))
        | inl built ↦ (cfg, (loaded, built), sym (cc (rw (loaded, built, main) at h)))
      ]
    ]

    -- `main` gets to its listener exactly when the configuration loads and the logger can be built:
    -- whether the data file can be loaded does not matter.
    pub main_iff :
        ((p : Process fs F) × (main fs parse encoding dec getenv build path read files ≡ running p))
        ↔ ((cfg : Config) × CanBoot cfg)
    main_iff = (
      λ (p, h). let (cfg, can, _) = CanBoot-main p h in (cfg, can),
      λ (cfg, can). (
        boot fs parse encoding (parse_level cfg.app.logging.level) cfg files,
        main-CanBoot cfg can,
      ),
    )

    -- When `main` gets to its listener, the configuration was read, decoded, overridden from the
    -- environment and is valid; the server has its key and its lists, and the state of a start with
    -- its directory and its data file, which is a sound one if the file system does what it documents.
    pub main-Booted :
        IsFileSystem fs
        → (p : Process fs F) → main fs parse encoding dec getenv build path read files ≡ running p
        → Booted dec getenv path read files p
    unfolding boot new_server
    main-Booted ax p h =
        let (cfg, (loaded, _), is_boot) = CanBoot-main p h in
        let (content, decoded, got, at_decoded, over, valid) =
          load_ok dec getenv path read cfg loaded in
        rw is_boot (record {
          cfg = cfg;
          decoded = decoded;
          content = content;
          content_is = got;
          decoded_is = at_decoded;
          overridden = over;
          valid = valid;
          settings_is = refl;
          app_is = app-boot (parse_level cfg.app.logging.level) cfg files;
          unbuilt = refl;
          http_is = refl;
          sound = rw (app-boot (parse_level cfg.app.logging.level) cfg files) (
              Reaches-IsRunning fs ax (settings_of cfg) cfg.app.upload_dir cfg.app.data_file files _
                started);
        })
