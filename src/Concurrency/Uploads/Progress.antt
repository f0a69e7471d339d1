-- ===== src/Concurrency/Uploads/Progress.antt =====
-- The steps that are left of an upload. (internal/service/service.go, internal/store/memory_repo.go)
use leasewebassignment.Base.{
  true, ℕ, ◌<◌, ◌≤◌, List, ◌≡◌, ◌≢◌, refl, ap, ◌∙◌, ◌⊎◌, inl, inr, ok, Bool-cases, Option-cases,
  Result-cases, arith,
}
use leasewebassignment.Text.{Bytes, is_empty}
use leasewebassignment.Text.Case.{Unicode}
use leasewebassignment.Model.{Server}
use leasewebassignment.Store.Files.{FileSystem}
use leasewebassignment.Service.{Parser}
use leasewebassignment.Concurrency.Uploads.Guard.{is_holding}
use leasewebassignment.Concurrency.Uploads.{
  Job, Pc, waiting, parsed, dir_made, created, written, synced, discarding, renamed, removed, saved,
  replacing, replaced, stored, failed, Shared, final_path, temp_pattern, Move, begin, parse_fails,
  name_missing, mkdir, mkdir_fails, create, create_fails, write, write_fails, sync, sync_fails,
  rename, rename_fails, remove, close, close_failed, lock, assign, unlock,
}

-- The most steps that are left of an upload.
unfoldable pub steps_left : Pc → ℕ
steps_left waiting = 11
steps_left parsed = 10
steps_left dir_made = 9
steps_left (created tmp) = 8
steps_left (written tmp) = 7
steps_left (synced tmp) = 6
steps_left (discarding tmp) = 5
steps_left (renamed tmp) = 4
steps_left (removed tmp) = 4
steps_left saved = 3
steps_left replacing = 2
steps_left replaced = 1
steps_left stored = 0
steps_left failed = 0

module _ {ℓ} (fs : FileSystem) {F : Type ℓ} ⦃U : Unicode⦄ (parse : Parser F) (dir : Bytes) where
  -- The servers of a job are those that the parser makes of its bytes, if it makes any.
  abbrev pub HasServers : Job F → Type ℓ
  HasServers job =
      (servers : List (Server F)) → parse job.content ≡ ok servers → servers ≡ job.servers

  module _ (job : Job F) where
    pub steps_left-Move :
        {m m' : Shared fs F} {pc pc' : Pc}
        → Move fs parse dir job m pc m' pc'
        → steps_left pc' < steps_left pc
    unfolding steps_left
    steps_left-Move (begin good named) = omega arith
    steps_left-Move (parse_fails bad) = omega arith
    steps_left-Move (name_missing good unnamed) = omega arith
    steps_left-Move (mkdir done) = omega arith
    steps_left-Move (mkdir_fails e) = omega arith
    steps_left-Move (create done) = omega arith
    steps_left-Move (create_fails e) = omega arith
    steps_left-Move (write done) = omega arith
    steps_left-Move (write_fails e) = omega arith
    steps_left-Move (sync done) = omega arith
    steps_left-Move (sync_fails e) = omega arith
    steps_left-Move (rename done) = omega arith
    steps_left-Move (rename_fails e) = omega arith
    steps_left-Move remove = omega arith
    steps_left-Move close = omega arith
    steps_left-Move close_failed = omega arith
    steps_left-Move (lock free) = omega arith
    steps_left-Move assign = omega arith
    steps_left-Move unlock = omega arith

    abbrev pub CanMove : Shared fs F → Pc → Type ℓ
    CanMove m pc = (m' : Shared fs F) × (pc' : Pc) × Move fs parse dir job m pc m' pc'

    begin-CanMove : HasServers job → (m : Shared fs F) → CanMove m waiting
    begin-CanMove has m = elim (Result-cases (parse job.content)) [
      | inr (e, bad) ↦ (_, _, parse_fails bad)
      | inl (servers, good) ↦
          let good' = good ∙ ap (λ l. ok l) (has servers good) in
          elim (Bool-cases (is_empty job.filename)) [
            | inl unnamed ↦ (_, _, name_missing good' unnamed)
            | inr named ↦ (_, _, begin good' named)
          ]
    ]

    abbrev pub IsBlocked : Shared fs F → Pc → Type 0
    IsBlocked m pc = (pc ≡ saved) × (m.locked ≡ true)

    -- Before its end an upload can go on, or waits for the mutex.
    pub pc-CanMove :
        HasServers job
        → (m : Shared fs F) (pc : Pc) → steps_left pc ≢ 0
        → CanMove m pc ⊎ IsBlocked m pc
    unfolding steps_left
    pc-CanMove has m waiting on = inl (begin-CanMove has m)
    pc-CanMove has m parsed on = elim (Option-cases (fs.mkdir_all dir m.files).1) [
      | inl done ↦ inl (_, _, mkdir done)
      | inr (e, bad) ↦ inl (_, _, mkdir_fails bad)
    ]
    pc-CanMove has m dir_made on =
        elim (Result-cases (fs.create_temp dir (temp_pattern job) m.files).1) [
          | inl (tmp, done) ↦ inl (_, _, create done)
          | inr (e, bad) ↦ inl (_, _, create_fails bad)
        ]
    pc-CanMove has m (created tmp) on = elim (Option-cases (fs.write tmp job.content m.files).1) [
      | inl done ↦ inl (_, _, write done)
      | inr (e, bad) ↦ inl (_, _, write_fails bad)
    ]
    pc-CanMove has m (written tmp) on = elim (Option-cases (fs.sync tmp m.files).1) [
      | inl done ↦ inl (_, _, sync done)
      | inr (e, bad) ↦ inl (_, _, sync_fails bad)
    ]
    pc-CanMove has m (synced tmp) on =
        elim (Option-cases (fs.rename tmp (final_path dir job) m.files).1) [
          | inl done ↦ inl (_, _, rename done)
          | inr (e, bad) ↦ inl (_, _, rename_fails bad)
        ]
    pc-CanMove has m (discarding tmp) on = inl (_, _, remove)
    pc-CanMove has m (renamed tmp) on = inl (_, _, close)
    pc-CanMove has m (removed tmp) on = inl (_, _, close_failed)
    pc-CanMove has m saved on = elim (Bool-cases m.locked) [
      | inl held ↦ inr (refl, held)
      | inr free ↦ inl (_, _, lock free)
    ]
    pc-CanMove has m replacing on = inl (_, _, assign)
    pc-CanMove has m replaced on = inl (_, _, unlock)
    pc-CanMove has m stored on = absurd (on refl)
    pc-CanMove has m failed on = absurd (on refl)

    pub holding-CanMove : (m : Shared fs F) (pc : Pc) → is_holding pc ≡ true → CanMove m pc
    holding-CanMove m replacing held = (_, _, assign)
    holding-CanMove m replaced held = (_, _, unlock)
    holding-CanMove m waiting held = cc
    holding-CanMove m parsed held = cc
    holding-CanMove m dir_made held = cc
    holding-CanMove m (created tmp) held = cc
    holding-CanMove m (written tmp) held = cc
    holding-CanMove m (synced tmp) held = cc
    holding-CanMove m (discarding tmp) held = cc
    holding-CanMove m (renamed tmp) held = cc
    holding-CanMove m (removed tmp) held = cc
    holding-CanMove m saved held = cc
    holding-CanMove m stored held = cc
    holding-CanMove m failed held = cc

pub steps_left_bound : (pc : Pc) → steps_left pc ≤ 11
unfolding steps_left
steps_left_bound waiting = omega arith
steps_left_bound parsed = omega arith
steps_left_bound dir_made = omega arith
steps_left_bound (created tmp) = omega arith
steps_left_bound (written tmp) = omega arith
steps_left_bound (synced tmp) = omega arith
steps_left_bound (discarding tmp) = omega arith
steps_left_bound (renamed tmp) = omega arith
steps_left_bound (removed tmp) = omega arith
steps_left_bound saved = omega arith
steps_left_bound replacing = omega arith
steps_left_bound replaced = omega arith
steps_left_bound stored = omega arith
steps_left_bound failed = omega arith

abbrev pub IsOver : Pc → Type 0
IsOver pc = (pc ≡ stored) ⊎ (pc ≡ failed)

pub steps_left-IsOver : (pc : Pc) → steps_left pc ≡ 0 → IsOver pc
unfolding steps_left
steps_left-IsOver waiting e = absurd (omega (arith, e))
steps_left-IsOver parsed e = absurd (omega (arith, e))
steps_left-IsOver dir_made e = absurd (omega (arith, e))
steps_left-IsOver (created tmp) e = absurd (omega (arith, e))
steps_left-IsOver (written tmp) e = absurd (omega (arith, e))
steps_left-IsOver (synced tmp) e = absurd (omega (arith, e))
steps_left-IsOver (discarding tmp) e = absurd (omega (arith, e))
steps_left-IsOver (renamed tmp) e = absurd (omega (arith, e))
steps_left-IsOver (removed tmp) e = absurd (omega (arith, e))
steps_left-IsOver saved e = absurd (omega (arith, e))
steps_left-IsOver replacing e = absurd (omega (arith, e))
steps_left-IsOver replaced e = absurd (omega (arith, e))
steps_left-IsOver stored e = inl refl
steps_left-IsOver failed e = inr refl
