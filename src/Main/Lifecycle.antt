-- ===== src/Main/Lifecycle.antt =====
-- The life of a process that listens: the goroutine of the listener, the one of `main`, and the signals
-- of the system. (cmd/main.go, internal/platform/shutdown/shutdown.go)
pub mod Stopping
use leasewebassignment.Base.{
  ℕ, ◌+◌, ◌*◌, Bool, true, false, List, [], ◌∷◌, ◌++◌, Option, none, some, ltb, ◌≡◌, ◌≢◌, ◌⊎◌,
  if◌then◌else◌,
}
use leasewebassignment.Text.{Bytes}
use leasewebassignment.Errors.{Error, message}
use leasewebassignment.Main.{second}

pub data Signal : Type 0 where
  interrupt : Signal
  terminate : Signal
  other : ℕ → Signal

-- The signals that `WaitForSignals` asks for.
unfoldable pub wait_for_signals : List Signal → List Signal
wait_for_signals [] = interrupt ∷ terminate ∷ []
wait_for_signals (sig ∷ signals) = sig ∷ signals

abbrev pub IsOneOf : List Signal → Signal → Type 0
IsOneOf [] sig = ⊥
IsOneOf (s ∷ signals) sig = (sig ≡ s) ⊎ IsOneOf signals sig

-- The signal is one of those that `main` waits for.
abbrev pub IsAsked : Signal → Type 0
IsAsked sig = IsOneOf (wait_for_signals []) sig

-- `signal.Notify` sends without waiting to a channel that holds one signal.
unfoldable pub notify : Signal → Option Signal → Option Signal
notify sig none = some sig
notify sig (some held) = some held

-- A context, as its deadline, and `context.WithTimeout`
abbrev pub Context : Type 0
Context = Option ℕ

abbrev pub with_timeout : ℕ → ℕ → Context → Context
with_timeout now timeout none = some (now + timeout)
with_timeout now timeout (some deadline) =
    some (if ltb deadline (now + timeout) then deadline else now + timeout)

unfoldable pub graceful_shutdown {ℓ} : {A : Type ℓ} → ℕ → Context → ℕ → (Context → A) → A
graceful_shutdown now parent timeout shutdown_fn = shutdown_fn (with_timeout now timeout parent)

pub data LifeLine : Type 0 where
  -- `Fatalf("server error: %v")`, `Errorf("graceful shutdown failed: %v")`, `Info("server stopped")`
  server_error : Bytes → LifeLine
  shutdown_failed : Bytes → LifeLine
  server_stopped : LifeLine

-- Where `main` is behind the go statement.
pub data MainPc : Type 0 where
  -- before `signal.Notify`, with the line that says where it listens logged
  starting : MainPc
  -- at `<-stop`
  receiving : MainPc
  -- behind it
  received : MainPc
  -- in `srv.Shutdown`, with its context
  shutting_down : Context → MainPc

pub data Life : Type 0 where
  -- the channel of `WaitForSignals`, whether `ListenAndServe` still runs, and where `main` is
  alive : Option Signal → Bool → MainPc → Life
  -- the exit status, and what was logged at the end
  exited : ℕ → List LifeLine → Life
  -- ended by the default action of a signal that nobody has asked for yet
  killed : Signal → Life

abbrev pub end_lines : Option Error → List LifeLine
end_lines none = server_stopped ∷ []
end_lines (some e) = shutdown_failed (message e) ∷ server_stopped ∷ []

-- The five seconds that `main` gives to the shutdown, from `now` on
abbrev pub shutdown_limit : ℕ
shutdown_limit = 5 * second

-- What happens: a nanosecond passes, a signal arrives, `main` calls `srv.Shutdown`, or something else.
pub data Event : Type 0 where
  tick : Event
  arrival : Signal → Event
  shutdown_call : Event
  other_event : Event

-- The time behind some events, the last first.
abbrev pub clock_of : List Event → ℕ
clock_of [] = 0
clock_of (tick ∷ events) = clock_of events + 1
clock_of (arrival sig ∷ events) = clock_of events
clock_of (shutdown_call ∷ events) = clock_of events
clock_of (other_event ∷ events) = clock_of events

-- `srv.Shutdown` is a parameter: what it returns, by the deadline of its context.
module _ (shutdown : Context → Option Error) where
  -- A step at a time.
  pub data Step (now : ℕ) : Life → Event → Life → Type 0 where
    time_passes :
        {channel : Option Signal} {serving : Bool} {pc : MainPc}
        → Step now (alive channel serving pc) tick (alive channel serving pc)
    -- Before `signal.Notify` an interrupt or a termination has its default action.
    signal_kills :
        {channel : Option Signal} {serving : Bool} (sig : Signal)
        → IsAsked sig
        → Step now (alive channel serving starting) (arrival sig) (killed sig)
    notified :
        {channel : Option Signal} {serving : Bool}
        → Step now (alive channel serving starting) other_event (alive channel serving receiving)
    signal_arrives :
        {channel : Option Signal} {serving : Bool} {pc : MainPc} (sig : Signal)
        → IsAsked sig
        → pc ≢ starting
        → Step now (alive channel serving pc) (arrival sig) (alive (notify sig channel) serving pc)
    receive :
        {serving : Bool} {sig : Signal}
        → Step now (alive (some sig) serving receiving) other_event (alive none serving received)
    calls_shutdown :
        {channel : Option Signal} {serving : Bool}
        → Step now (alive channel serving received) shutdown_call (
            alive channel serving
              (shutting_down (graceful_shutdown now none shutdown_limit (λ ctx. ctx))))
    -- `ListenAndServe` returns `http.ErrServerClosed` once `Shutdown` has been called, and another
    -- error at any time.
    listener_closes :
        {channel : Option Signal} {ctx : Context}
        → Step now
            (alive channel true (shutting_down ctx))
            other_event
            (alive channel false (shutting_down ctx))
    listener_fails :
        {channel : Option Signal} {pc : MainPc} (e : Error)
        → Step now (alive channel true pc) other_event (exited 1 (server_error (message e) ∷ []))
    shutdown_returns :
        {channel : Option Signal} {serving : Bool} {ctx : Context}
        → Step now
            (alive channel serving (shutting_down ctx))
            other_event
            (exited 0 (end_lines (shutdown ctx)))

  -- From one life, behind some events, to another, behind more.
  pub data Runs (before : List Event) (from : Life) : List Event → Life → Type 0 where
    here : Runs before from before from
    stepped :
        {events : List Event} {event : Event} {life life' : Life}
        → Runs before from events life
        → Step (clock_of events) life event life'
        → Runs before from (event ∷ events) life'

  -- From the start of the listener on.
  abbrev pub Reaches : List Event → Life → Type 0
  Reaches events life = Runs [] (alive none true starting) events life
