-- ===== src/Wire/Laws.antt =====
-- The reply to a list of actions, read off the list.
use leasewebassignment.Base.{
  ℕ, Bool, true, false, List, [], ◌∷◌, ◌++◌, none, some, ◌≡◌, refl, sym, ◌∙◌, if◌then◌else◌, inl,
  inr, Bool-cases,
}
use mathlib.Core.List.{append_assoc, append-nil}
use leasewebassignment.Text.{Bytes, same}
use leasewebassignment.Wire.{
  Headers, Action, set_header, add_header, write_header, write, Wire, Reply, allows_body, set_value,
  add_value, act, play, reply_of, run,
}

-- The status of the first action that sends one.
unfoldable pub first_status : List Action → ℕ
first_status [] = 200
first_status (set_header key value ∷ rest) = first_status rest
first_status (add_header key value ∷ rest) = first_status rest
first_status (write_header status ∷ rest) = status
first_status (write bytes ∷ rest) = 200

-- All that is written.
unfoldable pub written : List Action → Bytes
written [] = []
written (set_header key value ∷ rest) = written rest
written (add_header key value ∷ rest) = written rest
written (write_header status ∷ rest) = written rest
written (write bytes ∷ rest) = bytes ++ written rest

-- Some action sends the status.
unfoldable pub commits : List Action → Bool
commits [] = false
commits (set_header key value ∷ rest) = commits rest
commits (add_header key value ∷ rest) = commits rest
commits (write_header status ∷ rest) = true
commits (write bytes ∷ rest) = true

-- The values of a key when the status is sent.
unfoldable pub sent_values : Bytes → List Bytes → List Action → List Bytes
sent_values key now [] = now
sent_values key now (set_header k value ∷ rest) =
    sent_values key (if same key k then value ∷ [] else now) rest
sent_values key now (add_header k value ∷ rest) =
    sent_values key (if same key k then now ++ (value ∷ []) else now) rest
sent_values key now (write_header status ∷ rest) = now
sent_values key now (write bytes ∷ rest) = now

abbrev pub body_for : ℕ → Bytes → Bytes
body_for status bytes = if allows_body status then bytes else []

body_for-nil : (status : ℕ) (body : Bytes) → body ++ body_for status [] ≡ body
body_for-nil status body = elim (Bool-cases (allows_body status)) [
  | inl has ↦ rw has (append-nil body)
  | inr lacks ↦ rw lacks (append-nil body)
]

body_for-append :
    (status : ℕ) (b xs ys : Bytes)
    → (b ++ body_for status xs) ++ body_for status ys ≡ b ++ body_for status (xs ++ ys)
body_for-append status b xs ys = elim (Bool-cases (allows_body status)) [
  | inl has ↦ rw has (append_assoc b xs ys)
  | inr lacks ↦ rw lacks (append-nil (b ++ []))
]

act-write_sent :
    (pending headers : Headers) (status : ℕ) (body bytes : Bytes)
    → act (write bytes) (record { pending = pending; sent = some (status, headers); body = body })
      ≡ record {
        pending = pending;
        sent = some (status, headers);
        body = body ++ body_for status bytes;
      }
unfolding act
act-write_sent pending headers status body bytes = elim (Bool-cases (allows_body status)) [
  | inl has ↦ rw (has, act)
  | inr lacks ↦ rw (lacks, act) (rw (append-nil body))
]

abbrev Settled : ℕ → Headers → Bytes → Wire → Type 0
Settled status headers body w = (w.sent ≡ some (status, headers)) × (w.body ≡ body)

Settled-write :
    (rest : List Action) (pending headers : Headers) (status : ℕ) (body bytes out : Bytes)
    → Settled status headers out (
        play rest (record {
          pending = pending;
          sent = some (status, headers);
          body = body ++ body_for status bytes;
        }))
    → Settled status headers out (
        play
          (write bytes ∷ rest)
          (record { pending = pending; sent = some (status, headers); body = body }))
unfolding play
Settled-write rest pending headers status body bytes out h =
    rw (act-write_sent pending headers status body bytes, play) h

-- Once the status is sent it stays, with its headers, and what is written is the body.
play-sent :
    (actions : List Action) (pending headers : Headers) (status : ℕ) (body : Bytes)
    → Settled status headers
        (body ++ body_for status (written actions))
        (play actions (record { pending = pending; sent = some (status, headers); body = body }))
unfolding play act written
play-sent [] pending headers status body = (refl, sym (body_for-nil status body))
play-sent (set_header key value ∷ rest) pending headers status body =
    play-sent rest (set_value key value pending) headers status body
play-sent (add_header key value ∷ rest) pending headers status body =
    play-sent rest (add_value key value pending) headers status body
play-sent (write_header n ∷ rest) pending headers status body =
    play-sent rest pending headers status body
play-sent (write bytes ∷ rest) pending headers status body =
    let (kept, held) = play-sent rest pending headers status (body ++ body_for status bytes) in
    Settled-write rest pending headers status body bytes _
      (kept, held ∙ body_for-append status body bytes (written rest))

reply_of-sent :
    (w : Wire) {status : ℕ} {headers : Headers} {bytes : Bytes}
    → w.sent ≡ some (status, headers)
    → w.body ≡ bytes
    → reply_of w ≡ record { status = status; headers = headers; body = bytes }
unfolding reply_of
reply_of-sent w sent body = rw (sent, reply_of) (rw body)

-- From the moment that a status is sent, the reply is settled but for its body.
settled :
    (actions : List Action) (pending headers : Headers) (status : ℕ) (body : Bytes)
    → reply_of
        (play actions (record { pending = pending; sent = some (status, headers); body = body }))
      ≡ record {
        status = status;
        headers = headers;
        body = body ++ body_for status (written actions);
      }
settled actions pending headers status body =
    let (sent, held) = play-sent actions pending headers status body in reply_of-sent _ sent held

abbrev starting : Headers → Wire
starting pending = record { pending = pending; sent = none; body = [] }

-- What a list of actions adds up to.
pub record Sends (actions : List Action) (pending : Headers) (reply : Reply) : Type 0 where
  pub status_is : reply.status ≡ first_status actions
  pub body_is : reply.body ≡ body_for (first_status actions) (written actions)
  pub headers_are : (key : Bytes) → reply.headers key ≡ sent_values key (pending key) actions

commit-Sends :
    (actions rest : List Action) (pending : Headers) (status : ℕ) (body : Bytes)
    → first_status actions ≡ status
    → body_for status (written actions) ≡ body ++ body_for status (written rest)
    → ((key : Bytes) → sent_values key (pending key) actions ≡ pending key)
    → Sends actions pending (
        reply_of
          (play rest (record { pending = pending; sent = some (status, pending); body = body })))
commit-Sends actions rest pending status body s w h =
    rw (settled rest pending pending status body)
      (record { status_is = sym s; body_is = sym w ∙ rw s; headers_are = λ key. sym (h key) })

play-Sends :
    (actions : List Action) (pending : Headers)
    → Sends actions pending (reply_of (play actions (starting pending)))
unfolding play act written first_status sent_values reply_of set_value add_value
play-Sends [] pending = record { status_is = refl; body_is = refl; headers_are = λ key. refl }
play-Sends (set_header key value ∷ rest) pending =
    let h = play-Sends rest (set_value key value pending) in
    record { status_is = h.status_is; body_is = h.body_is; headers_are = λ k. h.headers_are k }
play-Sends (add_header key value ∷ rest) pending =
    let h = play-Sends rest (add_value key value pending) in
    record { status_is = h.status_is; body_is = h.body_is; headers_are = λ k. h.headers_are k }
play-Sends (write_header status ∷ rest) pending =
    commit-Sends (write_header status ∷ rest) rest pending status [] refl refl (λ key. refl)
play-Sends (write bytes ∷ rest) pending =
    commit-Sends (write bytes ∷ rest) rest pending 200 bytes refl refl (λ key. refl)

pub run-Sends : (actions : List Action) → Sends actions (λ key. []) (run actions)
unfolding run
run-Sends actions = play-Sends actions (λ key. [])
