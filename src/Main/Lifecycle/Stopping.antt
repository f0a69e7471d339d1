-- ===== src/Main/Lifecycle/Stopping.antt =====
-- When a process stops. (cmd/main.go, internal/platform/shutdown/shutdown.go)
use leasewebassignment.Base.{
  ℕ, zero, suc, ◌+◌, Bool, List, [], ◌∷◌, ◌++◌, Option, none, some, ◌≡◌, ◌≢◌, refl, ap, ◌⊎◌, inl,
  inr, Option-cases,
}
use leasewebassignment.Errors.{Error, message}
use leasewebassignment.Main.Lifecycle.{
  Signal, interrupt, terminate, notify, wait_for_signals, IsAsked, Context, graceful_shutdown,
  LifeLine, server_error, shutdown_failed, server_stopped, MainPc, starting, receiving, received,
  shutting_down, Life, alive, exited, killed, end_lines, Event, tick, arrival, shutdown_call,
  other_event, clock_of, Step, time_passes, signal_kills, notified, signal_arrives, receive,
  calls_shutdown, listener_closes, listener_fails, shutdown_returns, Runs, here, stepped, Reaches,
}

-- The signals that have arrived, the last first.
abbrev pub arrivals : List Event → List Signal
arrivals [] = []
arrivals (tick ∷ events) = arrivals events
arrivals (arrival sig ∷ events) = sig ∷ arrivals events
arrivals (shutdown_call ∷ events) = arrivals events
arrivals (other_event ∷ events) = arrivals events

-- An interrupt or a termination has arrived.
pub data Stopped : List Signal → Type 0 where
  by_interrupt : {sigs : List Signal} → Stopped (interrupt ∷ sigs)
  by_terminate : {sigs : List Signal} → Stopped (terminate ∷ sigs)
  earlier : {sig : Signal} {sigs : List Signal} → Stopped sigs → Stopped (sig ∷ sigs)

asked-Stopped : {sig : Signal} {sigs : List Signal} → IsAsked sig → Stopped (sig ∷ sigs)
unfolding wait_for_signals
asked-Stopped {sigs} (inl e) = rw e by_interrupt
asked-Stopped {sigs} (inr (inl e)) = rw e by_terminate
asked-Stopped {sigs} (inr (inr none_asked)) = elim none_asked [ ]

-- The shutdown was called behind some of the events, among which is the arrival of a signal, and its
-- deadline is five seconds, in nanoseconds, behind that call.
pub record Called (events : List Event) (ctx : Context) : Type 0 where
  pub after : List Event
  pub before : List Event
  pub events_are : events ≡ after ++ (shutdown_call ∷ before)
  pub signalled : Stopped (arrivals before)
  pub deadline : ctx ≡ some (clock_of before + 5000000000)

Called-later :
    {events : List Event} {ctx : Context} (event : Event)
    → Called events ctx
    → Called (event ∷ events) ctx
Called-later event c = record {
  after = event ∷ c.after;
  before = c.before;
  events_are = ap (◌∷◌ event) c.events_are;
  signalled = c.signalled;
  deadline = c.deadline;
}

-- Where the signals are: none has arrived before `signal.Notify`; the first is in the channel, or `main`
-- has taken it.
Kept : List Event → Option Signal → MainPc → Type 0
Kept events channel starting = (channel ≡ none) × (arrivals events ≡ [])
Kept events none receiving = arrivals events ≡ []
Kept events (some held) receiving = Stopped (arrivals events)
Kept events channel received = Stopped (arrivals events)
Kept events channel (shutting_down ctx) = Called events ctx

module _ (shutdown : Context → Option Error) where
  -- What is logged when `srv.Shutdown` has returned.
  pub Said : Context → List LifeLine → Type 0
  Said ctx lines =
      ((shutdown ctx ≡ none) × (lines ≡ server_stopped ∷ []))
      ⊎ ((e : Error) × (shutdown ctx ≡ some e)
          × (lines ≡ shutdown_failed (message e) ∷ server_stopped ∷ []))

  end_lines-Said : (ctx : Context) → Said ctx (end_lines (shutdown ctx))
  unfolding Said
  end_lines-Said ctx = elim (Option-cases (shutdown ctx)) [
    | inl fine ↦ inl (fine, rw (fine, end_lines) refl)
    | inr (e, failed) ↦ inr (e, failed, rw (failed, end_lines) refl)
  ]

  -- What holds of a life; it has ended with status 0 when a shutdown has returned that was called behind a signal,
  -- with a deadline of five seconds behind the call, and it has logged what that gave; with status 1,
  -- when its listener has failed; and by a signal that came before it had asked for any.
  Ends : List Event → Life → Type 0
  Ends events (alive channel serving pc) = Kept events channel pc
  Ends events (exited zero lines) = (ctx : Context) × Called events ctx × Said ctx lines
  Ends events (exited (suc n) lines) =
      (n ≡ 0) × (e : Error) × (lines ≡ server_error (message e) ∷ [])
  Ends events (killed sig) = Stopped (arrivals events)

  Kept-tick :
      (events : List Event) (channel : Option Signal) (pc : MainPc)
      → Kept events channel pc
      → Kept (tick ∷ events) channel pc
  unfolding Kept
  Kept-tick events channel starting h = h
  Kept-tick events none receiving h = h
  Kept-tick events (some held) receiving h = h
  Kept-tick events channel received h = h
  Kept-tick events channel (shutting_down ctx) h = Called-later tick h

  Kept-arrival :
      (events : List Event) (channel : Option Signal) (pc : MainPc) (sig : Signal)
      → IsAsked sig
      → pc ≢ starting
      → Kept events channel pc
      → Kept (arrival sig ∷ events) (notify sig channel) pc
  unfolding Kept notify
  Kept-arrival events channel starting sig asked late h = absurd (late refl)
  Kept-arrival events none receiving sig asked late h = asked-Stopped asked
  Kept-arrival events (some held) receiving sig asked late h = earlier h
  Kept-arrival events channel received sig asked late h = earlier h
  Kept-arrival events channel (shutting_down ctx) sig asked late h = Called-later (arrival sig) h

  Ends-Step :
      (events : List Event) {event : Event} {life life' : Life}
      → Step shutdown (clock_of events) life event life'
      → Ends events life
      → Ends (event ∷ events) life'
  unfolding Ends Kept graceful_shutdown
  Ends-Step events (time_passes {channel} {pc}) h = Kept-tick events channel pc h
  Ends-Step events (signal_kills sig asked) h = asked-Stopped asked
  Ends-Step events (notified {channel = none}) (_, e) = e
  Ends-Step events (notified {channel = some held}) (e, _) = cc
  Ends-Step events (signal_arrives {channel} {pc} sig asked late) h =
      Kept-arrival events channel pc sig asked late h
  Ends-Step events receive h = h
  Ends-Step events calls_shutdown h = record {
    after = [];
    before = events;
    events_are = refl;
    signalled = h;
    deadline = refl;
  }
  Ends-Step events listener_closes h = Called-later other_event h
  Ends-Step events (listener_fails e) h = (refl, e, refl)
  Ends-Step events (shutdown_returns {ctx}) h =
      (ctx, Called-later other_event h, end_lines-Said ctx)

  Reaches-Ends :
      {events : List Event} {life : Life} → Reaches shutdown events life → Ends events life
  unfolding Ends Kept
  Reaches-Ends here = (refl, refl)
  Reaches-Ends (stepped {events} runs step) = Ends-Step events step (Reaches-Ends runs)

  -- A process that has exited with status 0 has called its shutdown behind an interrupt or a
  -- termination, with a deadline of five seconds behind the call, and has logged what that gave; one
  -- that has exited with another status, which is 1, has logged the failure of its listener.
  pub Reaches-exited :
      {events : List Event} {status : ℕ} {lines : List LifeLine}
      → Reaches shutdown events (exited status lines)
      → ((status ≡ 0) × (ctx : Context) × Called events ctx × Said ctx lines)
        ⊎ ((status ≡ 1) × (e : Error) × (lines ≡ server_error (message e) ∷ []))
  unfolding Ends
  Reaches-exited {status = zero} runs =
      let (ctx, called, said) = Reaches-Ends runs in inl (refl, ctx, called, said)
  Reaches-exited {status = suc n} runs =
      let (is_zero, e, logged) = Reaches-Ends runs in inr (ap suc is_zero, e, logged)

  -- A signal that has arrived is not lost: a process that is alive behind the arrival of one can go on,
  -- from where it is and without another signal, to exit with status 0.
  pub Reaches-stops :
      {events : List Event} {channel : Option Signal} {serving : Bool} {pc : MainPc}
      → Reaches shutdown events (alive channel serving pc)
      → arrivals events ≢ []
      → (later : List Event) × (lines : List LifeLine) × Runs shutdown events
          (alive channel serving pc)
          later
          (exited 0 lines)
        × (arrivals later ≡ arrivals events)
  unfolding Ends Kept
  Reaches-stops {events} {channel} {pc = starting} runs some_arrived =
      let (_, nothing) : (channel ≡ none) × (arrivals events ≡ []) = Reaches-Ends runs in
      absurd (some_arrived nothing)
  Reaches-stops {channel = none} {pc = receiving} runs some_arrived =
      absurd (some_arrived (Reaches-Ends runs))
  Reaches-stops {channel = some held} {pc = receiving} runs some_arrived =
      (_, _, stepped (stepped (stepped here receive) calls_shutdown) shutdown_returns, refl)
  Reaches-stops {pc = received} runs some_arrived =
      (_, _, stepped (stepped here calls_shutdown) shutdown_returns, refl)
  Reaches-stops {pc = shutting_down ctx} runs some_arrived =
      (_, _, stepped here shutdown_returns, refl)
