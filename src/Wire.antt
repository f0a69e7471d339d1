-- ===== src/Wire.antt =====
-- What a client receives: the operations of an `http.ResponseWriter` of package net/http, in the
-- order in which a handler calls them, and the reply that they add up to. Status codes below 200,
-- which the program does not send, the headers that the package adds by itself, and that it leaves out
-- the body of a reply to HEAD, are not in the model.
pub mod Laws
use leasewebassignment.Base.{
  ℕ, Bool, true, false, not, ◌&&◌, ◌||◌, List, [], ◌∷◌, ◌++◌, Option, none, some, ◌==◌,
  if◌then◌else◌,
}
use leasewebassignment.Text.{Bytes, same}

-- `http.Header`: the values of a key.
abbrev pub Headers : Type 0
Headers = Bytes → List Bytes

abbrev pub no_headers : Headers
no_headers key = []

pub data Action : Type 0 where
  -- `w.Header().Set(key, value)` and `w.Header().Add(key, value)`
  set_header : Bytes → Bytes → Action
  add_header : Bytes → Bytes → Action
  -- `w.WriteHeader(status)`
  write_header : ℕ → Action
  -- `w.Write(bytes)`
  write : Bytes → Action

-- The headers that are still to be sent, the status and headers that have been sent, and the body.
pub record Wire : Type 0 where
  pub pending : Headers
  pub sent : Option (ℕ × Headers)
  pub body : Bytes

pub record Reply : Type 0 where
  pub status : ℕ
  pub headers : Headers
  pub body : Bytes

abbrev pub blank : Wire
blank = record { pending = no_headers; sent = none; body = [] }

-- A reply with status 204 or 304 has no body: `Write` then returns `http.ErrBodyNotAllowed`.
abbrev pub allows_body : ℕ → Bool
allows_body status = not (status == 204) && not (status == 304)

unfoldable pub set_value : Bytes → Bytes → Headers → Headers
unfolding same
set_value key value h k = if same k key then value ∷ [] else h k

unfoldable pub add_value : Bytes → Bytes → Headers → Headers
unfolding same
add_value key value h k = if same k key then h k ++ (value ∷ []) else h k

-- A second `WriteHeader` is superfluous.
unfoldable pub commit : ℕ → Wire → Wire
commit status w = elim w.sent [ none ↦ record w { sent = some (status, w.pending) } | some _ ↦ w ]

unfoldable pub append_body : Bytes → Wire → Wire
append_body bytes w = elim w.sent [
  | none ↦ w
  | some (status, _) ↦ if allows_body status then record w { body = w.body ++ bytes } else w
]

-- A `Write` before any `WriteHeader` sends status 200.
unfoldable pub act : Action → Wire → Wire
unfolding set_value add_value commit append_body
act (set_header key value) w = record w { pending = set_value key value w.pending }
act (add_header key value) w = record w { pending = add_value key value w.pending }
act (write_header status) w = commit status w
act (write bytes) w = append_body bytes (commit 200 w)

unfoldable pub play : List Action → Wire → Wire
play [] w = w
play (a ∷ actions) w = play actions (act a w)

-- When the handler has returned, the status is sent if it has not been.
unfoldable pub reply_of : Wire → Reply
reply_of w = elim w.sent [
  | none ↦ record { status = 200; headers = w.pending; body = w.body }
  | some (status, headers) ↦ record { status = status; headers = headers; body = w.body }
]

unfoldable pub run : List Action → Reply
run actions = reply_of (play actions blank)
