-- ===== src/Cookies.antt =====
-- authentication/request-context.ts: the cookies of a request. The guards of src/admin have their own
-- copies of `parseCookies`.
use Prim.Native.Char.{Char, code}
use oid.Shared.{
  String, ◌==◌, ◌&&◌, leb, is_empty, split, trim, if◌then◌else◌, List, [], ◌∷◌, Option, none, some,
}
use oid.Platform.{Platform}
use oid.Store.{Result, ok, err, unexpected}

-- What stands before the first `=` of a part, and what stands after it, if there is one.
abbrev after_letter : Char → String × Option String → String × Option String
after_letter c (name, value) = (String.◌∷◌ c name, value)

unfoldable pub cut_cookie : String → String × Option String
cut_cookie String.[] = (String.[], none)
cut_cookie (String.◌∷◌ c s) =
    let rest = cut_cookie s in
    if leb (code c) b'=' && leb b'=' (code c) then (String.[], some s) else after_letter c rest

unfoldable pub not_blank : List String → List String
not_blank [] = []
not_blank (part ∷ parts) =
    let rest = not_blank parts in if is_empty (trim part) then rest else trim part ∷ rest

module _ (p : Platform) where
  -- The pair of one part, where the value is decoded.
  abbrev cookie_pair : String × Option String → Option (String × String)
  cookie_pair (name, none) = some (name, "")
  cookie_pair (name, some value) = decoded (p.decode_uri_component value)
    where
      decoded : Option String → Option (String × String)
      decoded none = none
      decoded (some text) = some (name, text)

  abbrev with_pair :
      Option (String × String) → Option (List (String × String)) → Option (List (String × String))
  with_pair (some pair) (some pairs) = some (pair ∷ pairs)
  with_pair _ _ = none

  cookie_pairs : List String → Option (List (String × String))
  cookie_pairs [] = some []
  cookie_pairs (part ∷ parts) = with_pair (cookie_pair (cut_cookie part)) (cookie_pairs parts)

  abbrev or_uri_error : Option (List (String × String)) → Result (List (String × String))
  or_uri_error none = err unexpected
  or_uri_error (some pairs) = ok pairs

  -- `parseCookies`: the entries in their order.
  unfoldable pub parse_cookies : Option String → Result (List (String × String))
  unfolding cookie_pairs
  parse_cookies none = ok []
  parse_cookies (some header) = or_uri_error (cookie_pairs (not_blank (split b';' header)))

-- `Object.fromEntries(entries)[name]`: the last entry of that name.
unfoldable pub cookie : String → List (String × String) → Option String
cookie name [] = none
cookie name ((key, value) ∷ pairs) = last (cookie name pairs)
  where
    last : Option String → Option String
    last (some found) = some found
    last none = if key == name then some value else none
