-- ===== src/Tests/Parts.antt =====
-- The parameters at concrete values: a Unicode table, floating point numbers, a file system in
-- memory; and a small catalog.
use leasewebassignment.Base.{
  ℕ, Bool, true, false, List, [], ◌∷◌, ◌++◌, Option, none, some, ◌≡◌, ◌≢◌, refl, sym, ◌∙◌, inl, inr,
  if◌then◌else◌, Bool-cases, Option-cases, Result, ok, err, ok-injective,
}
use leasewebassignment.Base.Int.{pos_part}
use leasewebassignment.Text.{Bytes, codes, same}
use leasewebassignment.Text.Laws.{same_iff, same_self}
use leasewebassignment.Text.Case.{Unicode}
use leasewebassignment.Text.Decimal.{atoi}
use leasewebassignment.Errors.{Error, plain, not_exist}
use leasewebassignment.Model.{Server, Floats}
use leasewebassignment.Service.{invalid_upload}
use leasewebassignment.Store.{MemoryRepository}
use leasewebassignment.Store.Files.{FileSystem, IsFileSystem}

-- A table that leaves text beyond ASCII alone.
instance abbrev pub plain_unicode : Unicode
plain_unicode = record { upper = λ s. s; lower = λ s. s; fold_eq = λ s t. same s t; quote = λ s. s }

-- Numbers without a fraction stand for `float64`.
abbrev parse_whole : Bytes → Result Error ℕ
parse_whole s = elim (atoi s) [ ok z ↦ ok (pos_part z) | err _ ↦ err (plain (codes "syntax")) ]

instance abbrev pub whole_floats : Floats ℕ
whole_floats = record { zero_float = 0; parse_float = parse_whole }

-- The files at their paths.
abbrev Disk : Type 0
Disk = Bytes → Option Bytes

abbrev pub empty_disk : Disk
empty_disk path = none

abbrev update : Bytes → Option Bytes → Disk → Disk
update name held s path = if same path name then held else s path

abbrev create : Bytes → Disk → Disk × Result Error Bytes
create name s = elim (s name) [
  | none ↦ (update name (some []) s, ok name)
  | some _ ↦ (s, err (plain (codes "exists")))
]

abbrev move : Bool → Bytes → Bytes → Disk → Disk × Option Error
move true old new s = (s, some (plain (codes "rename")))
move false old new s = (update new (s old) (update old none s), none)

-- A file system in memory, in which `os.Rename` works or never does.
abbrev pub memory_disk : Bool → FileSystem
memory_disk broken = record {
  State = Disk;
  content = λ s path. s path;
  mkdir_all = λ dir s. (s, none);
  create_temp = λ dir pattern s. create (dir ++ codes "/" ++ pattern) s;
  write = λ name bytes s. (update name (some bytes) s, none);
  sync = λ name s. (s, none);
  close = λ name s. s;
  remove = λ name s. (update name none s, none);
  rename = λ old new s. move broken old new s;
  open_file = λ path s. elim (s path) [
    | none ↦ err (not_exist (codes "open"))
    | some bytes ↦ ok (ok bytes)
  ];
}

differ : {a b : Bytes} → a ≢ b → same a b ≡ false
differ {a} {b} ne = elim (Bool-cases (same a b)) [
  | inl e ↦ absurd (ne ((same_iff a b).0 e))
  | inr e ↦ e
]

update_here : (name : Bytes) (held : Option Bytes) (s : Disk) → update name held s name ≡ held
update_here name held s = rw (same_self name)

held_there : (name bytes : Bytes) (s : Disk) → update name (some bytes) s name ≢ none
held_there name bytes s e = absurd (cc (sym (update_here name (some bytes) s) ∙ e))

update_there :
    (name : Bytes) (held : Option Bytes) (s : Disk) (p : Bytes)
    → p ≢ name
    → update name held s p ≡ s p
update_there name held s p ne = rw (differ ne)

create_new :
    (name : Bytes) (s : Disk) (made : Bytes)
    → (create name s).1 ≡ ok made
    → (s made ≡ none)
      × ((create name s).0 made ≡ some [])
      × ((p : Bytes) → p ≢ made → (create name s).0 p ≡ s p)
create_new name s made e = elim (Option-cases (s name)) [
  | inr (held, there) ↦ absurd (cc (rw (there, create) at e))
  | inl free ↦
      let same_name : name ≡ made = ok-injective (rw (free, create) at e) in
      rw (← same_name, free, create)
        (refl, update_here name (some []) s, λ p ne. update_there name (some []) s p ne)
]

pub create_name :
    (name : Bytes) (s : Disk) (made : Bytes) → (create name s).1 ≡ ok made → name ≡ made
create_name name s made e = elim (Option-cases (s name)) [
  | inr (held, there) ↦ absurd (cc (rw (there, create) at e))
  | inl free ↦ ok-injective (rw (free, create) at e)
]

create_same :
    (name : Bytes) (s : Disk) (e : Error)
    → (create name s).1 ≡ err e
    → (p : Bytes) → (create name s).0 p ≡ s p
create_same name s e h p = elim (Option-cases (s name)) [
  | inr (held, there) ↦ rw (there, create)
  | inl free ↦ absurd (cc (rw (free, create) at h))
]

move_new :
    (broken : Bool) (old new : Bytes) (s : Disk)
    → (move broken old new s).1 ≡ none
    → (move broken old new s).0 new ≡ s old
move_new true old new s e = cc
move_new false old new s e = update_here new (s old) (update old none s)

move_old :
    (broken : Bool) (old new : Bytes) (s : Disk)
    → (move broken old new s).1 ≡ none
    → old ≢ new
    → (move broken old new s).0 old ≡ none
move_old true old new s e ne = cc
move_old false old new s e ne =
    update_there new (s old) (update old none s) old ne ∙ update_here old none s

move_others :
    (broken : Bool) (old new : Bytes) (s : Disk) (p : Bytes)
    → p ≢ old
    → p ≢ new
    → (move broken old new s).0 p ≡ s p
move_others true old new s p h k = refl
move_others false old new s p h k =
    update_there new (s old) (update old none s) p k ∙ update_there old none s p h

move_same :
    (broken : Bool) (old new : Bytes) (s : Disk) (e : Error)
    → (move broken old new s).1 ≡ some e
    → (p : Bytes) → (move broken old new s).0 p ≡ s p
move_same true old new s e h p = refl
move_same false old new s e h p = cc

pub memory_disk_lawful : (broken : Bool) → IsFileSystem (memory_disk broken)
memory_disk_lawful broken = record {
  mkdir_all_same = λ dir s p. refl;
  create_temp_new = λ dir pattern s made e. create_new (dir ++ codes "/" ++ pattern) s made e;
  create_temp_same = λ dir pattern s e h. create_same (dir ++ codes "/" ++ pattern) s e h;
  write_content = λ name bytes s h e. update_here name (some bytes) s;
  write_stays = λ name bytes s h. held_there name bytes s;
  write_others = λ name bytes s p ne. update_there name (some bytes) s p ne;
  sync_same = λ name s p. refl;
  close_same = λ name s p. refl;
  remove_gone = λ name s e. update_here name none s;
  remove_others = λ name s p ne. update_there name none s p ne;
  rename_new = move_new broken;
  rename_old = move_old broken;
  rename_others = move_others broken;
  rename_same = move_same broken;
}

abbrev pub dell : Server ℕ
dell = record {
  model = codes "Dell R210";
  ram = codes "16GBDDR3";
  hdd = codes "2x2TBSATA2";
  location = codes "AmsterdamAMS-01";
  price = 49;
}

abbrev pub supermicro : Server ℕ
supermicro = record {
  model = codes "Supermicro SC846";
  ram = codes "4GBDDR3";
  hdd = codes "4x480GBSSD";
  location = codes "San FranciscoSFO-12";
  price = 120;
}

abbrev pub empty_repository : MemoryRepository ℕ
empty_repository = record { servers = []; upload_dir = codes "up" }

-- A parser that knows one file.
abbrev pub parse_one : Bytes → Result Error (List (Server ℕ))
parse_one content = if same content (codes "x") then ok (dell ∷ []) else err invalid_upload
