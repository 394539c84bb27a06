-- ===== src/Pages.antt =====
-- admin/admin-pagination.ts: the pages of the lists of the back office, and the queries that fill them.
pub mod Walk
pub mod Lists
pub mod Order
pub mod Listing
use Prim.Native.Nat.{zero, suc}
use oid.Shared.{
  ℕ, String, Bool, ltb, leb, length, is_empty, if◌then◌else◌, List, [], ◌∷◌, Option, none, some,
  find_rows,
}
use oid.Store.{Result, ok, err, HttpException, bad_request}
use oid.Admin.Clients.{GivenNumber, natural, not_natural}

-- `Math.min(parsed, max)`
abbrev capped : ℕ → ℕ → ℕ
capped max n = if leb n max then n else max

-- `normalizeLimit`, with the default 20 and the maximum 100 here, and 50 and 200 in the list of audit
-- events. A limit that is not given, or is the empty text, is none; another one is what Number.parseInt
-- makes of it.
unfoldable pub normalize_limit : ℕ → ℕ → Option GivenNumber → Result ℕ
normalize_limit otherwise max none = ok otherwise
normalize_limit otherwise max (some not_natural) =
    err (bad_request "limit must be a positive integer.")
normalize_limit otherwise max (some (natural n)) =
    if ltb 0 n then ok (capped max n) else err (bad_request "limit must be a positive integer.")

module _ {A : Type 0} where
  -- `rows.slice(0, n)`, and the query's `take(n)`.
  unfoldable pub take : ℕ → List A → List A
  take zero rows = []
  take (suc n) [] = []
  take (suc n) (r ∷ rows) = r ∷ take n rows

pub record CursorPage (A : Type 0) : Type 0 where
  pub items : List A
  pub next_cursor : Option String

module _ {A : Type 0} (id_of : A → String) where
  -- `items[items.length - 1]?.id ?? null`
  unfoldable pub last_id : List A → Option String
  last_id [] = none
  last_id (r ∷ []) = some (id_of r)
  last_id (r ∷ s ∷ rows) = last_id (s ∷ rows)

  unfoldable pub to_cursor_page : List A → ℕ → CursorPage A
  to_cursor_page rows limit =
      if ltb limit (length rows)
      then record { items = take limit rows; next_cursor = last_id (take limit rows) }
      else record { items = rows; next_cursor = none }

  -- `query.andWhere('id < :cursor')`, if there is a cursor that is not empty; `below` is the order of the
  -- database.
  unfoldable pub older : (String → String → Bool) → Option String → List A → List A
  older below none rows = rows
  older below (some cursor) rows =
      if is_empty cursor then rows else find_rows (λ r. below (id_of r) cursor) rows

  -- One page of a list: `rows` are the rows that pass the other conditions, in descending order of id.
  unfoldable pub list_page : (String → String → Bool) → List A → ℕ → Option String → CursorPage A
  list_page below rows limit cursor =
      to_cursor_page (take (suc limit) (older below cursor rows)) limit
