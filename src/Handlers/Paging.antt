-- ===== src/Handlers/Paging.antt =====
-- Pages of the result, one and many. (internal/server/handlers/contracts.go)
use mathlib.Core.List.{map-append}
use Prim.Native.Nat.{min}
use leasewebassignment.Base.{
  Option, ℕ, zero, suc, ◌+◌, ◌-◌, ◌*◌, ◌≤◌, ◌<◌, false, ◌||◌, List, [], ◌∷◌, ◌++◌, map, some, ◌≡◌,
  refl, sym, ap, ◌∙◌, inl, inr, arith, if◌then◌else◌, length, take, drop, ltb, Bool-cases,
  length-drop,
}
use leasewebassignment.Base.Int.{pos, ltb_ℤ, add_int-pos, int_half}
use leasewebassignment.Base.Options.{◌>>=◌}
use leasewebassignment.Model.{Server}
use leasewebassignment.Handlers.Page.{
  ServerResponse, slice, map_server_response, map_servers_response,
}

suc_add : (a b : ℕ) → suc a + b ≡ suc (a + b)
suc_add a b = omega arith

start_lem : (n o : ℕ) → (if ltb_ℤ (pos n) (pos o) then pos n else pos o) ≡ pos (min n o)
start_lem n o = ground arith

zero_mul : (n : ℕ) → 0 * n ≡ 0
zero_mul n = omega arith

suc_mul : (l r : ℕ) → l + r * l ≡ suc r * l
suc_mul l r = omega arith

slice_test :
    (lo hi n : ℕ)
    → lo ≤ hi
    → hi ≤ n
    → (ltb_ℤ (pos lo) (pos 0) || ltb_ℤ (pos hi) (pos lo) || ltb_ℤ (pos n) (pos hi)) ≡ false
slice_test lo hi n h k = ground arith

module _ {ℓ} {A : Type ℓ} where
  take-le : (n : ℕ) (xs : List A) → length xs ≤ n → take n xs ≡ xs
  take-le zero [] h = refl
  take-le zero (x ∷ xs) h = absurd (omega arith)
  take-le (suc n) [] h = refl
  take-le (suc n) (x ∷ xs) h = ap (◌∷◌ x) (take-le n xs (omega arith))

  drop-le : (n : ℕ) (xs : List A) → length xs ≤ n → drop n xs ≡ []
  drop-le zero [] h = refl
  drop-le zero (x ∷ xs) h = absurd (omega arith)
  drop-le (suc n) [] h = refl
  drop-le (suc n) (x ∷ xs) h = drop-le n xs (omega arith)

  take-nil : (n : ℕ) → ◌≡◌ {A = List A} (take n []) []
  take-nil zero = refl
  take-nil (suc n) = refl

  drop-nil : (n : ℕ) → ◌≡◌ {A = List A} (drop n []) []
  drop-nil zero = refl
  drop-nil (suc n) = refl

  drop-add : (a b : ℕ) (xs : List A) → drop (a + b) xs ≡ drop b (drop a xs)
  drop-add zero b xs = ap (λ (k : ℕ). drop k xs) (omega arith)
  drop-add (suc a) b [] = drop-nil (suc a + b) ∙ sym (drop-nil b)
  drop-add (suc a) b (x ∷ xs) = ap (λ (k : ℕ). drop k (x ∷ xs)) (suc_add a b) ∙ drop-add a b xs

  take-add : (a b : ℕ) (xs : List A) → take (a + b) xs ≡ take a xs ++ take b (drop a xs)
  take-add zero b xs = ap (λ (k : ℕ). take k xs) (omega arith)
  take-add (suc a) b [] = take-nil (suc a + b) ∙ sym (take-nil b)
  take-add (suc a) b (x ∷ xs) =
      ap (λ (k : ℕ). take k (x ∷ xs)) (suc_add a b) ∙ ap (◌∷◌ x) (take-add a b xs)

  -- the part of the list that the two bounds of a page cut out
  pub page_of : ℕ → ℕ → List A → List A
  page_of limit offset xs = take limit (drop offset xs)

  take-drop-min :
      (limit offset : ℕ) (xs : List A)
      → take
          (min (length xs) (min (length xs) offset + limit) - min (length xs) offset)
          (drop (min (length xs) offset) xs)
        ≡ take limit (drop offset xs)
  take-drop-min limit offset xs = elim (Bool-cases (ltb (length xs) offset)) [
    | inl beyond ↦
        ap (take _) (drop-le (min (length xs) offset) xs (ground arith))
        ∙ take-nil _
        ∙ sym (ap (take limit) (drop-le offset xs (ground arith)) ∙ take-nil limit)
    | inr inside ↦
        let at_offset : min (length xs) offset ≡ offset = ground arith in
        ap (λ (k : ℕ). take (min (length xs) (k + limit) - k) (drop k xs)) at_offset
        ∙ elim (Bool-cases (ltb (length xs) (offset + limit))) [
          | inl last ↦
              take-le (min (length xs) (offset + limit) - offset) (drop offset xs)
                (ground (arith, length-drop offset xs))
              ∙ sym (take-le limit (drop offset xs) (ground (arith, length-drop offset xs)))
          | inr full ↦ ap (λ (k : ℕ). take k (drop offset xs)) (ground arith)
        ]
  ]

  slice_within :
      (xs : List A) (lo hi : ℕ)
      → lo ≤ hi
      → hi ≤ length xs
      → slice xs (pos lo) (pos hi) ≡ some (take (hi - lo) (drop lo xs))
  unfolding slice
  slice_within xs lo hi h k = rw (slice_test lo hi (length xs) h k)

module _ {ℓ} {F : Type ℓ} where
  -- A server as a client is to see it.
  abbrev pub shown : Server F → ServerResponse F
  shown s = record {
    model = s.model;
    ram = s.ram;
    hdd = s.hdd;
    location = s.location;
    price = s.price;
  }

  -- The servers of a page, as responses.
  abbrev pub responses : ℕ → ℕ → List (Server F) → List (ServerResponse F)
  responses limit offset servers = map shown (page_of limit offset servers)

  -- With a limit and an offset that are not negative, and a list whose length leaves room for the
  -- limit in an `int`, the response does not panic: it holds the page, in order, and the length of
  -- the whole list.
  pub map_servers_response_lem :
      (servers : List (Server F)) (limit offset : ℕ)
      → length servers + limit < int_half
      → map_servers_response servers (pos limit) (pos offset)
        ≡ some (record {
          page = responses limit offset servers;
          meta = record { total = pos (length servers); limit = pos limit; offset = pos offset };
        })
  unfolding map_servers_response page_of map_server_response
  map_servers_response_lem servers limit offset h =
      let n = length servers in
      rw (start_lem n offset, map_servers_response)
        (rw (add_int-pos (min n offset) limit (omega arith)) (
          rw (start_lem n (min n offset + limit)) (
            rw
              (slice_within servers (min n offset) (min n (min n offset + limit)) (omega arith)
                (omega arith))
              (rw (take-drop-min limit offset servers)))))

  -- The pages that a client puts together, moving the offset on by the limit `rounds` times; `none`
  -- if the server panics.
  pub fetch : (rounds : ℕ) (limit offset : ℕ) → List (Server F) → Option (List (ServerResponse F))
  fetch zero limit offset servers = some []
  fetch (suc rounds) limit offset servers = do
    response ← map_servers_response servers (pos limit) (pos offset)
    rest ← fetch rounds limit (offset + limit) servers
    some (response.page ++ rest)

  responses-round :
      (rounds limit offset : ℕ) (servers : List (Server F))
      → responses limit offset servers
          ++ map shown (take (rounds * limit) (drop (offset + limit) servers))
        ≡ map shown (take (suc rounds * limit) (drop offset servers))
  unfolding page_of
  responses-round rounds limit offset servers =
      ap (λ t. responses limit offset servers ++ map shown (take (rounds * limit) t))
        (drop-add offset limit servers)
      ∙ sym (map-append shown _ _)
      ∙ ap (map shown) (
          sym (take-add limit (rounds * limit) (drop offset servers))
          ∙ ap (λ (k : ℕ). take k (drop offset servers)) (suc_mul limit rounds))

  -- When the length of the list leaves room for the limit in an `int`, successive pages put together
  -- are the list from the first offset on, in order, with nothing left out or twice, up to the
  -- number of entries asked for; none of the calls panics.
  pub fetch_lem :
      (rounds limit offset : ℕ) (servers : List (Server F))
      → length servers + limit < int_half
      → fetch rounds limit offset servers
        ≡ some (map shown (take (rounds * limit) (drop offset servers)))
  unfolding fetch
  fetch_lem zero limit offset servers room =
      sym (ap (λ (k : ℕ). some (map shown (take k (drop offset servers)))) (zero_mul limit))
  fetch_lem (suc rounds) limit offset servers room =
      rw (map_servers_response_lem servers limit offset room) (
        rw (fetch_lem rounds limit (offset + limit) servers room)
          (ap some (responses-round rounds limit offset servers)))
