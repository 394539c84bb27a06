-- ===== src/Oidc/Scopes.antt =====
-- `parsePrompt` and `validateScopes` of oidc/oidc-authorization.service.ts.
use oid.Shared.{
  String, ◌==◌, List, [], ◌∷◌, Option, none, some, is_empty, concat, trim, split, join, includes,
  if◌then◌else◌,
}
use oid.Store.{Result, ok, err, bad_request}

unfoldable pub keep_full : List String → List String
keep_full [] = []
keep_full (w ∷ ws) = let rest = keep_full ws in if is_empty w then rest else w ∷ rest

unfoldable pub trim_each : List String → List String
trim_each [] = []
trim_each (w ∷ ws) = trim w ∷ trim_each ws

-- `(text ?? '').split(' ').map(trim).filter(full)`
unfoldable pub words_of : Option String → List String
words_of none = []
words_of (some text) = keep_full (trim_each (split b' ' text))

unfoldable pub remove : String → List String → List String
remove w [] = []
remove w (v ∷ vs) = let rest = remove w vs in if v == w then rest else v ∷ rest

-- `[...new Set(words)]`: the first of equal words stays.
unfoldable pub distinct : List String → List String
unfolding remove
distinct [] = []
distinct (w ∷ ws) = w ∷ remove w (distinct ws)

-- `words.find((word) => !allowed.includes(word))`
unfoldable pub find_disallowed : List String → List String → Option String
find_disallowed allowed [] = none
find_disallowed allowed (w ∷ ws) = if includes w allowed then find_disallowed allowed ws else some w

abbrev unless_disallowed : List String → Option String → Result String
unless_disallowed words none = ok (join " " (distinct words))
unless_disallowed words (some w) =
    err (bad_request (concat "Scope is not allowed: " (concat w ".")))

unfoldable pub validate_scopes : Option String → List String → Result String
validate_scopes requested allowed =
    let words = words_of requested in
    if includes "openid" words
    then unless_disallowed words (find_disallowed allowed words)
    else err (bad_request "openid scope is required.")
