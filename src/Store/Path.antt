-- ===== src/Store/Path.antt =====
-- `filepath.Base`, `filepath.Join` and `filepath.Clean` on a system whose separator is '/'.
use leasewebassignment.Base.{
  Bool, false, not, ◌&&◌, ◌||◌, List, [], ◌∷◌, ◌++◌, reverse, ◌==◌, if◌then◌else◌,
}
use leasewebassignment.Text.{Bytes, codes, is_empty, same, join}

-- The elements between the separators; `cur` is the one being read.
split_from : Bytes → Bytes → List Bytes
split_from cur [] = cur ∷ []
split_from cur (c ∷ s) =
    let closed = cur ∷ split_from [] s in
    let longer = split_from (cur ++ (c ∷ [])) s in if c == b'/' then closed else longer

pub split_slash : Bytes → List Bytes
split_slash = split_from []

-- One element of a path, on the stack of those before it.
clean_step : Bool → List Bytes → Bytes → List Bytes
clean_step rooted [] part =
    if is_empty part || same part (codes ".")
    then []
    else if same part (codes "..") && rooted
    then []
    else part ∷ []
clean_step rooted (top ∷ stack) part =
    if is_empty part || same part (codes ".")
    then top ∷ stack
    else if same part (codes "..") && not (same top (codes ".."))
    then stack
    else part ∷ top ∷ stack

clean_from : Bool → List Bytes → List Bytes → List Bytes
clean_from rooted stack [] = reverse stack
clean_from rooted stack (part ∷ parts) = clean_from rooted (clean_step rooted stack part) parts

abbrev is_rooted : Bytes → Bool
is_rooted [] = false
is_rooted (c ∷ _) = c == b'/'

-- `filepath.Clean`
unfoldable pub clean : Bytes → Bytes
unfolding split_from split_slash clean_step clean_from same join
clean path =
    let parts = join (clean_from (is_rooted path) [] (split_slash path)) (codes "/") in
    if is_rooted path then b'/' ∷ parts else if is_empty parts then codes "." else parts

drop_empty : List Bytes → List Bytes
drop_empty [] = []
drop_empty (e ∷ es) = if is_empty e then drop_empty es else e ∷ es

-- `filepath.Join`
unfoldable pub join_path : List Bytes → Bytes
unfolding drop_empty join clean
join_path elems =
    let parts = join (drop_empty elems) (codes "/") in if is_empty parts then [] else clean parts

-- a text in reverse order, without the separators at its end
after_slashes : Bytes → Bytes
after_slashes [] = []
after_slashes (c ∷ s) = if c == b'/' then after_slashes s else c ∷ s

until_slash : Bytes → Bytes
until_slash [] = []
until_slash (c ∷ s) = if c == b'/' then [] else c ∷ until_slash s

-- `filepath.Base`
unfoldable pub base : Bytes → Bytes
unfolding after_slashes until_slash
base [] = codes "."
base (c ∷ path) =
    let name = reverse (until_slash (after_slashes (reverse (c ∷ path)))) in
    if is_empty name then codes "/" else name
