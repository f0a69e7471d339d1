-- ===== src/Mux.antt =====
-- `http.ServeMux` as far as the routes use it: patterns of an optional method and a path without
-- wildcards, of which the most specific that matches is chosen, and the redirects to clean paths. The
-- path of a request is the escaped one, and each of its segments is unescaped before it is matched.
-- (the calls of it in internal/server/routes.go)
use leasewebassignment.Base.{
  ℕ, ◌+◌, ◌*◌, ◌-◌, leb, Bool, true, false, not, ◌||◌, ◌&&◌, List, [], ◌∷◌, ◌++◌, Option, none,
  some, ltb, ◌==◌, if◌then◌else◌, length,
}
use leasewebassignment.Text.{Bytes, codes, same, is_some, cut_prefix}
use leasewebassignment.Store.Path.{clean}

-- A pattern: "GET /path", "/path", or, with a slash at the end, all paths below it.
pub record Pattern : Type 0 where
  pub method : Option Bytes
  pub path : Bytes

abbrev pub ends_in_slash : Bytes → Bool
ends_in_slash [] = false
ends_in_slash (c ∷ []) = c == b'/'
ends_in_slash (c ∷ d ∷ s) = ends_in_slash (d ∷ s)

-- GET takes HEAD too.
unfoldable pub method_matches : Option Bytes → Bytes → Bool
unfolding same
method_matches none method = true
method_matches (some m) method =
    same method m || (same m (codes "GET") && same method (codes "HEAD"))

unfoldable pub path_matches : Bytes → Bytes → Bool
unfolding same cut_prefix
path_matches pattern path =
    if ends_in_slash pattern then is_some (cut_prefix path pattern) else same path pattern

-- Of two patterns that match a request, the one with the longer path is the more specific, and of
-- two with one path the one with a method.
unfoldable pub more_specific : Pattern → Pattern → Bool
more_specific p q =
    ltb (length q.path) (length p.path)
    || (length p.path == length q.path && is_some p.method && not (is_some q.method))

module _ {ℓ} {H : Type ℓ} where
  abbrev pub better : Option (Pattern × H) → Pattern → H → Option (Pattern × H)
  better none p h = some (p, h)
  better (some (q, k)) p h = if more_specific p q then some (p, h) else some (q, k)

  -- The most specific route that matches, beside the best of those before.
  unfoldable pub find_from :
      Option (Pattern × H) → List (Pattern × H) → Bytes → Bytes → Option (Pattern × H)
  unfolding method_matches path_matches more_specific
  find_from best [] method path = best
  find_from best ((p, h) ∷ routes) method path =
      find_from
        (if path_matches p.path path && method_matches p.method method
          then better best p h
          else best)
        routes method path

  unfoldable pub find : List (Pattern × H) → Bytes → Bytes → Option (Pattern × H)
  unfolding find_from
  find routes method path = find_from none routes method path

-- The value of a hexadecimal digit.
abbrev digit_value : ℕ → ℕ
digit_value c =
    if leb c b'9' then c - b'0' else (if leb c b'F' then (c - b'A') + 10 else (c - b'a') + 10)

-- The byte of an escape; a slash inside a segment stays escaped, since it separates nothing.
abbrev unescaped : ℕ → ℕ → Bytes
unescaped high low =
    let c = digit_value high * 16 + digit_value low in
    if c == b'/' then b'%' ∷ high ∷ low ∷ [] else c ∷ []

-- The first bytes of an escape have been read, or none.
unescape_from : Bytes → Bytes → Bytes
unescape_from pending [] = pending
unescape_from [] (c ∷ s) =
    let is_escape = c == b'%' in
    let rest = unescape_from (if is_escape then c ∷ [] else []) s in
    if is_escape then rest else c ∷ rest
unescape_from (percent ∷ []) (c ∷ s) = unescape_from (percent ∷ c ∷ []) s
unescape_from (percent ∷ high ∷ more) (c ∷ s) = unescaped high c ++ unescape_from [] s

-- The segments of an escaped path as they are matched.
unfoldable pub unescape_segments : Bytes → Bytes
unfolding unescape_from
unescape_segments path = unescape_from [] path

-- `path.Clean` of a path that starts with a slash, which keeps the slash at its end
unfoldable pub clean_path : Bytes → Bytes
unfolding clean same
clean_path [] = codes "/"
clean_path (c ∷ path) =
    let rooted = if c == b'/' then c ∷ path else b'/' ∷ c ∷ path in
    let np = clean rooted in
    if ends_in_slash rooted && not (same np (codes "/")) then np ++ codes "/" else np

pub data Target {ℓ} (H : Type ℓ) : Type ℓ where
  -- `RedirectHandler(path, StatusMovedPermanently)`
  moved : Bytes → Target H
  found : H → Target H
  nowhere : Target H

module _ {ℓ} {H : Type ℓ} where
  -- the match is the path itself, not a path above it
  abbrev pub is_exact : Option (Pattern × H) → Bytes → Bool
  is_exact none path = false
  is_exact (some (p, h)) path = same p.path path

  abbrev pub target_of : Option (Pattern × H) → Target H
  target_of none = nowhere
  target_of (some (p, h)) = found h

  unfoldable pub handler_for : List (Pattern × H) → Bytes → Bytes → Target H
  unfolding find clean_path unescape_segments same
  handler_for routes method path =
      let cleaned = clean_path path in
      let key = unescape_segments cleaned in
      let match = find routes method key in
      if not (is_exact match key)
        && not (ends_in_slash key)
        && is_exact (find routes method (key ++ codes "/")) (key ++ codes "/")
      then moved (key ++ codes "/")
      else if not (same cleaned path)
      then moved cleaned
      else target_of match
