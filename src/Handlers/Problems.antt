-- ===== src/Handlers/Problems.antt =====
-- What is wrong with a query, parameter by parameter, and what each `With` method makes of it.
-- (internal/server/handlers/filter.go)
use mathlib.Core.List.{append-nil, append_assoc}
use leasewebassignment.Base.{
  Bool, false, ◌||◌, refl, ap, not, ◌&&◌, List, [], ◌∷◌, ◌++◌, map, Option, some, ◌≡◌, ◌∙◌, inl,
  inr, if◌then◌else◌, ok, err, Result-cases, Bool-cases, keep,
}
use leasewebassignment.Base.Int.{ℤ}
use leasewebassignment.Text.{Bytes, codes, is_empty, join}
use leasewebassignment.Text.Case.{Unicode, equal_fold}
use leasewebassignment.Errors.{message}
use leasewebassignment.Model.{parse_storage_value}
use leasewebassignment.Handlers.{
  Builder, GetServersRequest, get, values_of, contains_fold, add_ram, add_rams, with_ram,
  with_disk_type, with_storage_min, with_storage_max,
}

-- The builder with more problems.
abbrev pub plus : Builder → GetServersRequest → List Bytes → Builder
plus b request problems = record b { request = request; errs = b.errs ++ problems }

module _ ⦃U : Unicode⦄ where
  -- The value is one of those of the list, upper and lower case apart.
  unfoldable pub is_one_of : List Bytes → Bytes → Bool
  is_one_of [] v = false
  is_one_of (item ∷ items) v = equal_fold item v || is_one_of items v

  contains_fold-is_one_of :
      (list : List Bytes) (v : Bytes) → contains_fold list v ≡ is_one_of list v
  unfolding contains_fold is_one_of
  contains_fold-is_one_of [] v = refl
  contains_fold-is_one_of (item ∷ items) v =
      ap (◌||◌ (equal_fold item v)) (contains_fold-is_one_of items v)

  abbrev pub is_accepted : List Bytes → Bytes → Bool
  is_accepted allowed v = not (is_empty v) && is_one_of allowed v

  abbrev pub is_rejected : List Bytes → Bytes → Bool
  is_rejected allowed v = not (is_empty v) && not (is_one_of allowed v)

  -- What is said of a value that is not allowed.
  abbrev pub refusal : Bytes → Bytes → List Bytes → Bytes
  refusal name v allowed =
      name
      ++ codes ": "
      ++ U.quote v
      ++ codes " is invalid, must be one of: "
      ++ join allowed (codes ", ")

  unfoldable pub ram_problems : List Bytes → List Bytes → List Bytes
  ram_problems allowed vals =
      map (λ v. refusal (codes "ram") v allowed) (keep (is_rejected allowed) vals)

  -- The RAM values that are given and allowed.
  unfoldable pub accepted_rams : List Bytes → List Bytes → List Bytes
  accepted_rams allowed vals = keep (is_accepted allowed) vals

  unfoldable pub disk_problems : List Bytes → Bytes → List Bytes
  disk_problems allowed v =
      if is_rejected allowed v then refusal (codes "disk_type") v allowed ∷ [] else []

  unfoldable pub storage_problems : Bytes → Bytes → List Bytes
  storage_problems name v =
      if is_empty v
      then []
      else elim (parse_storage_value v) [ err e ↦ (name ++ message e) ∷ [] | ok _ ↦ [] ]

  -- The bound that a storage parameter sets, beside the one there was.
  unfoldable pub storage_bound : Bytes → Option ℤ → Option ℤ
  storage_bound v old =
      if is_empty v then old else elim (parse_storage_value v) [ err e ↦ old | ok z ↦ some z ]

  plus_nothing : (b : Builder) → plus b b.request [] ≡ b
  plus_nothing b = rw append-nil

  add_rams_lem :
      (vals : List Bytes) (b : Builder)
      → add_rams b vals
        ≡ plus b
            (record b.request { ram = b.request.ram ++ accepted_rams b.allowed_ram vals })
            (ram_problems b.allowed_ram vals)
  unfolding add_rams add_ram accepted_rams ram_problems
  add_rams_lem [] b = rw (append-nil b.errs, append-nil b.request.ram)
  add_rams_lem (v ∷ vals) b = elim (Bool-cases (is_empty v)) [
    | inl nil ↦ rw nil (add_rams_lem vals b)
    | inr given ↦ elim (Bool-cases (is_one_of b.allowed_ram v)) [
      | inl allowed ↦
          rw (contains_fold-is_one_of b.allowed_ram v, given, allowed, add_rams, add_ram)
            (add_rams_lem vals _ ∙ rw append_assoc)
      | inr refused ↦
          rw (contains_fold-is_one_of b.allowed_ram v, given, refused, add_rams, add_ram)
            (add_rams_lem vals _ ∙ rw append_assoc)
    ]
  ]

  pub with_ram_lem :
      (b : Builder)
      → with_ram b ≡ (
          let vals = values_of b.values (codes "ram") in
          plus b
            (record b.request { ram = b.request.ram ++ accepted_rams b.allowed_ram vals })
            (ram_problems b.allowed_ram vals))
  unfolding with_ram
  with_ram_lem b = add_rams_lem (values_of b.values (codes "ram")) b

  pub with_disk_type_lem :
      (b : Builder)
      → with_disk_type b ≡ (
          let v = get b.values (codes "disk_type") in
          plus b (record b.request { disk_type = v }) (disk_problems b.allowed_disk_types v))
  unfolding with_disk_type disk_problems
  with_disk_type_lem b =
      let v = get b.values (codes "disk_type") in
      elim (Bool-cases (is_empty v)) [
        | inl nil ↦ rw (nil, append-nil)
        | inr given ↦ elim (Bool-cases (is_one_of b.allowed_disk_types v)) [
          | inl allowed ↦
              rw (contains_fold-is_one_of b.allowed_disk_types v, given, allowed, append-nil)
          | inr refused ↦ rw (contains_fold-is_one_of b.allowed_disk_types v, given, refused)
        ]
      ]

  pub with_storage_min_lem :
      (b : Builder)
      → with_storage_min b ≡ (
          let v = get b.values (codes "storage_min") in
          plus b
            (record b.request { storage_min = storage_bound v b.request.storage_min })
            (storage_problems (codes "storage_min: ") v))
  unfolding with_storage_min storage_problems storage_bound
  with_storage_min_lem b =
      let v = get b.values (codes "storage_min") in
      elim (Bool-cases (is_empty v)) [
        | inl nil ↦ rw (nil, append-nil)
        | inr given ↦ elim (Result-cases (parse_storage_value v)) [
          | inl (z, parsed) ↦ rw (given, parsed, append-nil)
          | inr (e, failed) ↦ rw (given, failed)
        ]
      ]

  pub with_storage_max_lem :
      (b : Builder)
      → with_storage_max b ≡ (
          let v = get b.values (codes "storage_max") in
          plus b
            (record b.request { storage_max = storage_bound v b.request.storage_max })
            (storage_problems (codes "storage_max: ") v))
  unfolding with_storage_max storage_problems storage_bound
  with_storage_max_lem b =
      let v = get b.values (codes "storage_max") in
      elim (Bool-cases (is_empty v)) [
        | inl nil ↦ rw (nil, append-nil)
        | inr given ↦ elim (Result-cases (parse_storage_value v)) [
          | inl (z, parsed) ↦ rw (given, parsed, append-nil)
          | inr (e, failed) ↦ rw (given, failed)
        ]
      ]
