-- ===== src/Middleware/Replies.antt =====
-- The replies and the log of the middlewares, read off the actions of the handler inside.
use leasewebassignment.Base.{
  ℕ, Bool, true, false, List, [], ◌∷◌, ◌++◌, ◌≡◌, refl, sym, ap, ◌∙◌, if◌then◌else◌,
}
use mathlib.Core.List.{append_assoc, append-nil}
use leasewebassignment.Text.{Bytes, same}
use leasewebassignment.Wire.{Action, set_header, add_header, write_header, write}
use leasewebassignment.Wire.Laws.{first_status, written, commits, sent_values}
use leasewebassignment.Middleware.{recorded, squeeze}

-- No status is set once one has been sent.
abbrev pub IsProper : Bool → List Action → Type 0
IsProper sent [] = Unit
IsProper sent (set_header key value ∷ rest) = IsProper sent rest
IsProper sent (add_header key value ∷ rest) = IsProper sent rest
IsProper sent (write_header status ∷ rest) = (sent ≡ false) × IsProper true rest
IsProper sent (write bytes ∷ rest) = IsProper true rest

-- No value of the key is set.
abbrev pub Leaves : Bytes → List Action → Type 0
Leaves key [] = Unit
Leaves key (set_header k value ∷ rest) = (same key k ≡ false) × Leaves key rest
Leaves key (add_header k value ∷ rest) = (same key k ≡ false) × Leaves key rest
Leaves key (write_header status ∷ rest) = Leaves key rest
Leaves key (write bytes ∷ rest) = Leaves key rest

recorded-sent :
    (actions : List Action) (status : ℕ) → IsProper true actions → recorded status actions ≡ status
unfolding recorded
recorded-sent [] status h = refl
recorded-sent (set_header key value ∷ rest) status h = recorded-sent rest status h
recorded-sent (add_header key value ∷ rest) status h = recorded-sent rest status h
recorded-sent (write_header n ∷ rest) status (h, _) = cc
recorded-sent (write bytes ∷ rest) status h = recorded-sent rest status h

-- The recorded status is the one that is sent.
pub recorded-first_status :
    (actions : List Action) → IsProper false actions → recorded 200 actions ≡ first_status actions
unfolding recorded first_status
recorded-first_status [] h = refl
recorded-first_status (set_header key value ∷ rest) h = recorded-first_status rest h
recorded-first_status (add_header key value ∷ rest) h = recorded-first_status rest h
recorded-first_status (write_header n ∷ rest) (_, h) = recorded-sent rest n h
recorded-first_status (write bytes ∷ rest) h = recorded-sent rest 200 h

module _ (compress : Bytes → Bytes) where
  pub first_status-squeeze :
      (actions more : List Action) (buffer : Bytes)
      → first_status (squeeze compress buffer actions ++ more) ≡ first_status actions
  unfolding squeeze first_status
  first_status-squeeze [] more buffer = refl
  first_status-squeeze (set_header key value ∷ rest) more buffer =
      first_status-squeeze rest more buffer
  first_status-squeeze (add_header key value ∷ rest) more buffer =
      first_status-squeeze rest more buffer
  first_status-squeeze (write_header n ∷ rest) more buffer = refl
  first_status-squeeze (write bytes ∷ rest) more buffer = refl

  pub written-squeeze :
      (actions more : List Action) (buffer : Bytes)
      → written (squeeze compress buffer actions ++ more)
        ≡ compress (buffer ++ written actions) ++ written more
  unfolding squeeze written
  written-squeeze [] more buffer = rw (append-nil buffer)
  written-squeeze (set_header key value ∷ rest) more buffer = written-squeeze rest more buffer
  written-squeeze (add_header key value ∷ rest) more buffer = written-squeeze rest more buffer
  written-squeeze (write_header n ∷ rest) more buffer = written-squeeze rest more buffer
  written-squeeze (write bytes ∷ rest) more buffer =
      written-squeeze rest more (buffer ++ bytes)
      ∙ ap (λ b. compress b ++ written more) (append_assoc buffer bytes (written rest))

  pub Leaves-squeeze :
      (key : Bytes) (actions : List Action) (buffer : Bytes)
      → Leaves key actions
      → Leaves key (squeeze compress buffer actions)
  unfolding squeeze
  Leaves-squeeze key [] buffer h = tt
  Leaves-squeeze key (set_header k value ∷ rest) buffer (p, h) =
      (p, Leaves-squeeze key rest buffer h)
  Leaves-squeeze key (add_header k value ∷ rest) buffer (p, h) =
      (p, Leaves-squeeze key rest buffer h)
  Leaves-squeeze key (write_header n ∷ rest) buffer h = Leaves-squeeze key rest buffer h
  Leaves-squeeze key (write bytes ∷ rest) buffer h = Leaves-squeeze key rest (buffer ++ bytes) h

  pub IsProper-squeeze :
      (sent : Bool) (actions : List Action) (buffer : Bytes)
      → IsProper sent actions
      → IsProper sent (squeeze compress buffer actions)
  unfolding squeeze
  IsProper-squeeze sent [] buffer h = tt
  IsProper-squeeze sent (set_header k value ∷ rest) buffer h = IsProper-squeeze sent rest buffer h
  IsProper-squeeze sent (add_header k value ∷ rest) buffer h = IsProper-squeeze sent rest buffer h
  IsProper-squeeze sent (write_header n ∷ rest) buffer (e, h) =
      (e, IsProper-squeeze true rest buffer h)
  IsProper-squeeze sent (write bytes ∷ rest) buffer h =
      IsProper-squeeze true rest (buffer ++ bytes) h

-- A key that is left alone is sent with the values that it has.
pub sent_values-Leaves :
    (key : Bytes) (now : List Bytes) (actions : List Action)
    → Leaves key actions
    → sent_values key now actions ≡ now
unfolding sent_values
sent_values-Leaves key now [] h = refl
sent_values-Leaves key now (set_header k value ∷ rest) (p, h) =
    rw p (sent_values-Leaves key now rest h)
sent_values-Leaves key now (add_header k value ∷ rest) (p, h) =
    rw p (sent_values-Leaves key now rest h)
sent_values-Leaves key now (write_header n ∷ rest) h = refl
sent_values-Leaves key now (write bytes ∷ rest) h = refl

-- Where nothing has been sent, later actions decide.
pub first_status-append :
    (actions more : List Action)
    → first_status (actions ++ more)
      ≡ (if commits actions then first_status actions else first_status more)
unfolding first_status commits
first_status-append [] more = refl
first_status-append (set_header key value ∷ rest) more = first_status-append rest more
first_status-append (add_header key value ∷ rest) more = first_status-append rest more
first_status-append (write_header n ∷ rest) more = refl
first_status-append (write bytes ∷ rest) more = refl

pub written-append :
    (actions more : List Action) → written (actions ++ more) ≡ written actions ++ written more
unfolding written
written-append [] more = refl
written-append (set_header key value ∷ rest) more = written-append rest more
written-append (add_header key value ∷ rest) more = written-append rest more
written-append (write_header n ∷ rest) more = written-append rest more
written-append (write bytes ∷ rest) more =
    ap (◌++◌ bytes) (written-append rest more)
    ∙ sym (append_assoc bytes (written rest) (written more))

-- What has sent no status has written nothing.
pub written-commits : (actions : List Action) → commits actions ≡ false → written actions ≡ []
unfolding written commits
written-commits [] h = refl
written-commits (set_header key value ∷ rest) h = written-commits rest h
written-commits (add_header key value ∷ rest) h = written-commits rest h
written-commits (write_header n ∷ rest) h = cc
written-commits (write bytes ∷ rest) h = cc

pub first_status-commits :
    (actions : List Action) → commits actions ≡ false → first_status actions ≡ 200
unfolding first_status commits
first_status-commits [] h = refl
first_status-commits (set_header key value ∷ rest) h = first_status-commits rest h
first_status-commits (add_header key value ∷ rest) h = first_status-commits rest h
first_status-commits (write_header n ∷ rest) h = cc
first_status-commits (write bytes ∷ rest) h = refl
