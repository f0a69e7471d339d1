-- ===== src/Tests/MainRuns.antt =====
-- A process at concrete values, from its configuration to its exit.
use leasewebassignment.Base.{
  ◌⊎◌, ℕ, true, false, List, Option, [], ◌∷◌, none, some, ◌≡◌, refl, ok, inl, inr, arith, ◌*◌, ◌^◌,
}
use leasewebassignment.Base.Int.{pos}
use leasewebassignment.Text.{codes}
use leasewebassignment.Errors.{Error, message}
use leasewebassignment.Config.{Config, validate}
use leasewebassignment.Config.Validity.{IsValid}
use leasewebassignment.Logging.{Level, info_level, parse_level}
use leasewebassignment.Main.{Process, running, boot, main, http_server}
use leasewebassignment.Main.Boot.{CanBoot, Booted, main-CanBoot, main-Booted}
use leasewebassignment.Main.Serving.{Serves, main-Serves}
use leasewebassignment.Tests.HttpRuns.{library, request}
use leasewebassignment.Main.Secrecy.{with_token, lines-boot-with_token}
use leasewebassignment.Main.Timeouts.{http_server_overflow}
use leasewebassignment.Main.Lifecycle.{
  interrupt, terminate, notify, wait_for_signals, Context, graceful_shutdown, LifeLine,
  server_error, received, shutting_down, alive, exited, end_lines, Event, tick, arrival,
  shutdown_call, other_event, time_passes, notified, signal_arrives, receive, calls_shutdown,
  shutdown_returns, Runs, here, stepped, Reaches,
}
use leasewebassignment.Main.Lifecycle.Stopping.{
  Called, Said, arrivals, Reaches-exited, Reaches-stops,
}
use leasewebassignment.Tests.Parts.{plain_unicode, empty_disk, parse_one, memory_disk_lawful}
use leasewebassignment.Tests.Instance.{disk, plain_encoding}
use leasewebassignment.Tests.ConfigRuns.{sample, decoders, getenv, overridden, load_run}

abbrev build : Level → Option Error
build level = none

abbrev process : Process disk ℕ
process =
    boot disk parse_one plain_encoding (parse_level overridden.app.logging.level) overridden
      empty_disk

can_boot :
    CanBoot disk parse_one plain_encoding decoders getenv build
      (codes "config.yaml")
      (ok (codes "x"))
      empty_disk
      overridden
can_boot = (load_run, refl)

main_run :
    main disk parse_one plain_encoding decoders getenv build
      (codes "config.yaml")
      (ok (codes "x"))
      empty_disk
    ≡ running process
main_run =
    main-CanBoot disk parse_one plain_encoding decoders getenv build (codes "config.yaml")
      (ok (codes "x")) empty_disk overridden can_boot

main-Booted_example :
    Booted disk parse_one plain_encoding decoders getenv
      (codes "config.yaml")
      (ok (codes "x"))
      empty_disk
      process
main-Booted_example =
    main-Booted disk parse_one plain_encoding decoders getenv build (codes "config.yaml")
      (ok (codes "x")) empty_disk (memory_disk_lawful false) process main_run

main-Serves_example :
    Serves disk parse_one plain_encoding library decoders getenv
      (codes "config.yaml")
      (ok (codes "x"))
      process
      empty_disk
      (request ∷ request ∷ [])
main-Serves_example =
    main-Serves disk parse_one plain_encoding library decoders getenv build (codes "config.yaml")
      (ok (codes "x")) empty_disk (memory_disk_lawful false) process main_run
      (request ∷ request ∷ [])

lines-boot-with_token_example :
    (boot disk parse_one plain_encoding info_level
      (with_token (codes "another secret") sample)
      empty_disk).lines
    ≡ (boot disk parse_one plain_encoding info_level sample empty_disk).lines
lines-boot-with_token_example =
    lines-boot-with_token disk parse_one plain_encoding info_level sample empty_disk
      (codes "another secret") refl

sample-IsValid : IsValid sample
sample-IsValid = record {
  host_given = refl;
  port_given = λ e. cc;
  timeout_positive = omega arith;
  data_file_given = refl;
  upload_dir_given = refl;
}

abbrev endless : Config
endless = record sample { server = record sample.server { timeout = pos (1 * 2 ^ 55) } }

http_server_overflow_example :
    (validate endless ≡ none)
    × ((http_server endless).read_timeout ≡ pos 0)
    × ((http_server endless).write_timeout ≡ pos 0)
http_server_overflow_example =
    http_server_overflow sample 1 sample-IsValid (omega arith) (omega arith)

-- A shutdown that is over in time.
abbrev shutdown : Context → Option Error
shutdown ctx = none

-- A process that got an interrupt a nanosecond after it listened, and another signal while it shut
-- down.
abbrev asked_once : List Event
asked_once = other_event ∷ arrival interrupt ∷ tick ∷ other_event ∷ []

received_one : Reaches shutdown asked_once (alive none true received)
unfolding notify wait_for_signals
received_one =
    stepped
      (stepped (stepped (stepped here notified) time_passes)
        (signal_arrives interrupt (inl refl) (λ e. cc)))
      receive

asked_twice :
    Reaches shutdown
      (arrival terminate ∷ shutdown_call ∷ asked_once)
      (alive (some terminate) true (shutting_down (some 5000000001)))
unfolding notify wait_for_signals graceful_shutdown
asked_twice =
    stepped (stepped received_one calls_shutdown)
      (signal_arrives terminate (inr (inl refl)) (λ e. cc))

Reaches-exited_example :
    ((◌≡◌ {A = ℕ} 0 0)
      × (ctx : Context) × Called (other_event ∷ arrival terminate ∷ shutdown_call ∷ asked_once) ctx
      × Said shutdown ctx (end_lines none))
    ⊎ ((◌≡◌ {A = ℕ} 0 1) × (e : Error) × (end_lines none ≡ server_error (message e) ∷ []))
Reaches-exited_example = Reaches-exited shutdown (stepped asked_twice shutdown_returns)

Reaches-stops_example :
    (later : List Event) × (lines : List LifeLine) × Runs shutdown
      (arrival terminate ∷ shutdown_call ∷ asked_once)
      (alive (some terminate) true (shutting_down (some 5000000001)))
      later
      (exited 0 lines)
    × (arrivals later ≡ terminate ∷ interrupt ∷ [])
Reaches-stops_example = Reaches-stops shutdown asked_twice (λ e. cc)
