-- ===== src/Store/Matching.antt =====
-- What a filter asks of a server, stated without the index, and `matchesFilter` against it.
-- (internal/store/store.go)
use leasewebassignment.Base.{
  Bool, true, false, not, ◌&&◌, List, [], ◌∷◌, ◌++◌, map, Option, none, some, ◌≡◌, refl, sym, ◌∙◌,
  ◌↔◌, ◌⊎◌, inl, inr, arith, if◌then◌else◌, Bool-cases,
}
use leasewebassignment.Base.Int.{ℤ, ◌≤ℤ◌}
use leasewebassignment.Text.{Bytes, is_empty, contains_string, same}
use leasewebassignment.Text.Laws.{same_iff, contains-append, contains-parts}
use leasewebassignment.Text.Case.{Unicode, to_lower, equal_fold}
use leasewebassignment.Text.Space.{trim_space}
use leasewebassignment.Model.{Server, ServerFilter, ram_family}
use leasewebassignment.Store.{
  indexed_hdd, new_indexed_server, prepare_filter, string_matches, matches_filter, below_min,
  above_max,
}

-- `sub` stands in `s`, case and outer white space apart.
abbrev pub Occurs : ⦃U : Unicode⦄ → Bytes → Bytes → Type 0
Occurs sub s =
    (a : Bytes) × (b : Bytes) × (to_lower (trim_space s) ≡ a ++ (to_lower (trim_space sub) ++ b))

-- One of the values has the family.
pub data HasFamily ⦃U : Unicode⦄ (family : Bytes) : List Bytes → Type 0 where
  here : {ram : Bytes} {rams : List Bytes} → ram_family ram ≡ family → HasFamily family (ram ∷ rams)
  there : {ram : Bytes} {rams : List Bytes} → HasFamily family rams → HasFamily family (ram ∷ rams)

abbrev pub AtLeast : Option ℤ → ℤ → Type 0
AtLeast none total = Unit
AtLeast (some least) total = least ≤ℤ total

abbrev pub AtMost : Option ℤ → ℤ → Type 0
AtMost none total = Unit
AtMost (some most) total = total ≤ℤ most

-- A server matches a filter if it meets each criterion that the filter gives: any one of the RAM
-- values, and all of the others.
pub record Matches {ℓ} ⦃U : Unicode⦄ {F : Type ℓ} (s : Server F) (f : ServerFilter) : Type 0 where
  pub model : (f.model ≡ []) ⊎ Occurs f.model s.model
  pub ram : (f.ram ≡ []) ⊎ HasFamily (ram_family s.ram) f.ram
  pub location : (f.location ≡ []) ⊎ Occurs f.location s.location
  pub disk_type : (f.disk_type ≡ []) ⊎ (equal_fold f.disk_type (indexed_hdd s.hdd).1 ≡ true)
  pub at_least : AtLeast f.storage_min (indexed_hdd s.hdd).0
  pub at_most : AtMost f.storage_max (indexed_hdd s.hdd).0

module _ ⦃U : Unicode⦄ where
  string_matches_iff : (s sub : Bytes) → (string_matches s sub ≡ true) ↔ Occurs sub s
  unfolding string_matches
  string_matches_iff s sub = (
    contains-parts (to_lower (trim_space s)) (to_lower (trim_space sub)),
    λ (a, b, e). rw e (contains-append a (to_lower (trim_space sub)) b),
  )

  contains-HasFamily :
      (family : Bytes) (rams : List Bytes)
      → contains_string (map ram_family rams) family ≡ true
      → HasFamily family rams
  unfolding contains_string
  contains-HasFamily family [] h = cc
  contains-HasFamily family (ram ∷ rams) h = elim (Bool-cases (same (ram_family ram) family)) [
    | inl e ↦ here ((same_iff _ _).0 e)
    | inr e ↦ there (contains-HasFamily family rams (ground arith))
  ]

  HasFamily-contains :
      {family : Bytes} {rams : List Bytes}
      → HasFamily family rams
      → contains_string (map ram_family rams) family ≡ true
  unfolding contains_string
  HasFamily-contains (here e) = rw ((same_iff _ _).1 e)
  HasFamily-contains {family} (there {ram} {rams} h) = ground (arith, HasFamily-contains h)

  -- a criterion that is not given, or a test that passes
  given_iff :
      {P : Type 0} (v : Bytes) (test : Bool)
      → (test ≡ true) ↔ P
      → ((not (is_empty v) && not test) ≡ false) ↔ ((v ≡ []) ⊎ P)
  given_iff [] test h = (λ _. inl refl, λ _. refl)
  given_iff (c ∷ v) true h = (λ _. inr (h.0 refl), λ _. refl)
  given_iff (c ∷ v) false h =
      (λ e. absurd (cc e), λ k. elim k [ inl e ↦ absurd (cc e) | inr p ↦ absurd (cc (h.1 p)) ])

  ram_given_iff :
      (family : Bytes) (rams : List Bytes)
      → ((not (is_empty (map ram_family rams))
            && not (contains_string (map ram_family rams) family))
          ≡ false)
        ↔ ((rams ≡ []) ⊎ HasFamily family rams)
  ram_given_iff family [] = (λ _. inl refl, λ _. refl)
  ram_given_iff family (ram ∷ rams) =
      elim (Bool-cases (contains_string (map ram_family (ram ∷ rams)) family)) [
        | inl e ↦ (λ _. inr (contains-HasFamily family (ram ∷ rams) e), λ _. rw e refl)
        | inr e ↦ (
          λ h. absurd (ground arith),
          λ h. elim h [
            | inl nil ↦ absurd (cc nil)
            | inr some_there ↦ absurd (cc (sym e ∙ HasFamily-contains some_there))
          ],
        )
      ]

  below_min_iff : (o : Option ℤ) (total : ℤ) → (below_min o total ≡ false) ↔ AtLeast o total
  below_min_iff none total = (λ _. tt, λ _. refl)
  below_min_iff (some least) total = ground arith

  above_max_iff : (o : Option ℤ) (total : ℤ) → (above_max o total ≡ false) ↔ AtMost o total
  above_max_iff none total = (λ _. tt, λ _. refl)
  above_max_iff (some most) total = ground arith

-- A ladder of guards lets through what no guard stops.
ladder_iff :
    (a b c d e f : Bool)
    → ((if a
          then false
          else if b
          then false
          else if c
          then false
          else if d
          then false
          else if e
          then false
          else if f
          then false
          else true)
        ≡ true)
      ↔ ((a ≡ false) × (b ≡ false) × (c ≡ false) × (d ≡ false) × (e ≡ false) × (f ≡ false))
ladder_iff a b c d e f = ground arith

module _ {ℓ} ⦃U : Unicode⦄ {F : Type ℓ} where
  -- Evaluating a prepared filter on an indexed server decides whether the server matches the filter.
  pub matches_filter_iff :
      (s : Server F) (f : ServerFilter)
      → (matches_filter (new_indexed_server s) (prepare_filter f) ≡ true) ↔ Matches s f
  unfolding matches_filter new_indexed_server prepare_filter
  matches_filter_iff s f =
      let model_test = given_iff f.model _ (string_matches_iff s.model f.model) in
      let location_test = given_iff f.location _ (string_matches_iff s.location f.location) in
      let disk_test =
        given_iff f.disk_type (equal_fold f.disk_type (indexed_hdd s.hdd).1) (λ h. h, λ h. h) in
      let ram_test = ram_given_iff (ram_family s.ram) f.ram in
      let min_test = below_min_iff f.storage_min (indexed_hdd s.hdd).0 in
      let max_test = above_max_iff f.storage_max (indexed_hdd s.hdd).0 in
      let ladder = ladder_iff _ _ _ _ _ _ in
      (
        λ h.
            let (a, b, c, d, e, g) = ladder.0 h in
            record {
              model = model_test.0 a;
              ram = ram_test.0 b;
              location = location_test.0 c;
              disk_type = disk_test.0 d;
              at_least = min_test.0 e;
              at_most = max_test.0 g;
            },
        λ m. ladder.1 (
          model_test.1 m.model,
          ram_test.1 m.ram,
          location_test.1 m.location,
          disk_test.1 m.disk_type,
          min_test.1 m.at_least,
          max_test.1 m.at_most,
        ),
      )
