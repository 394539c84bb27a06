-- ===== src/Pages/Listing.antt =====
-- Following the cursors of the lists of users and clients.
use Prim.Native.Nat.{zero, suc}
use oid.Shared.{
  HasUniqueKeys, is_empty, false, count, ℕ, String, Bool, length, List, [], ◌∷◌, ◌++◌, Option, none,
  some, ◌≡◌, refl, ap, ◌∙◌, arith, All, find_rows, Bool-cases, inl, inr,
}
use oid.Platform.{Platform}
use oid.Store.{Result, ok, err, User, Client}
use oid.Pages.{CursorPage, normalize_limit, list_page}
use oid.Pages.Order.{IsOrder, order_by_id_desc-IsDescending, count-order_by_id_desc}
use oid.Pages.Walk.{IsDescending, on_cursor, walk, walk-normalize_limit}
use oid.Pages.Lists.{
  Database, AdminUserListParams, AdminClientListParams, is_listed, is_listed_client,
  order_by_id_desc, list_users, list_clients,
}
use oid.Admin.Clients.{GivenNumber}

module _ {A : Type 0} where
  abbrev on_page : (String → List A) → Result (CursorPage A) → List A
  on_page go (err e) = []
  on_page go (ok page) = page.items ++ on_cursor go page.next_cursor

  -- What a client sees that asks for a page, and follows the cursors for at most `fuel` pages.
  unfoldable pub follow : (Option String → Result (CursorPage A)) → ℕ → Option String → List A
  follow ask zero cursor = []
  follow ask (suc fuel) cursor = on_page (λ next. follow ask fuel (some next)) (ask cursor)

module _ {A : Type 0} (id_of : A → String) (below : String → String → Bool) where
  same_next :
      (go go' : String → List A)
      → ((next : String) → go next ≡ go' next)
      → (o : Option String) → on_cursor go o ≡ on_cursor go' o
  same_next go go' h none = refl
  same_next go go' h (some next) = h next

  follow-walk :
      (ask : Option String → Result (CursorPage A)) (rows : List A) (limit fuel : ℕ)
      → ((cursor : Option String) → ask cursor ≡ ok (list_page id_of below rows limit cursor))
      → (cursor : Option String) → follow ask fuel cursor ≡ walk id_of below fuel rows limit cursor
  unfolding follow walk
  follow-walk ask rows limit zero h cursor = refl
  follow-walk ask rows limit (suc fuel) h cursor =
      let page = list_page id_of below rows limit cursor in
      rw (h cursor) (
        ap (λ l. page.items ++ l)
          (same_next (λ next. follow ask fuel (some next))
            (λ next. walk id_of below fuel rows limit (some next))
            (λ next. follow-walk ask rows limit fuel h (some next)) page.next_cursor))

  All-find_rows :
      (P : A → Type 0) (test : A → Bool) (rows : List A) → All P rows → All P (find_rows test rows)
  unfolding find_rows
  All-find_rows P test [] h = tt
  All-find_rows P test (r ∷ rows) (h, hs) = elim (Bool-cases (test r)) [
    | inl t ↦ rw t (h, All-find_rows P test rows hs)
    | inr t ↦ rw t (All-find_rows P test rows hs)
  ]

  find_rows-IsDescending :
      (test : A → Bool) (rows : List A)
      → IsDescending id_of below rows
      → IsDescending id_of below (find_rows test rows)
  unfolding find_rows
  find_rows-IsDescending test [] h = tt
  find_rows-IsDescending test (r ∷ rows) (full, same, after, rest) = elim (Bool-cases (test r)) [
    | inl t ↦
        rw t (full, same, All-find_rows _ test rows after, find_rows-IsDescending test rows rest)
    | inr t ↦ rw t (find_rows-IsDescending test rows rest)
  ]

  follow-list_page :
      (ask : Option String → Result (CursorPage A)) (test : A → Bool) (rows : List A)
      (given : Option GivenNumber) (limit : ℕ)
      → normalize_limit 20 100 given ≡ ok limit
      → IsDescending id_of below rows
      → ((cursor : Option String)
          → ask cursor ≡ ok (list_page id_of below (find_rows test rows) limit cursor))
      → follow ask (length (find_rows test rows)) none ≡ find_rows test rows
  follow-list_page ask test rows given limit e v h =
      follow-walk ask (find_rows test rows) limit (length (find_rows test rows)) h none
      ∙ walk-normalize_limit id_of below 20 100 given limit (find_rows test rows) (omega arith)
          (omega arith) e (find_rows-IsDescending test rows v)

-- When the ids of the users differ and are not empty, the database orders texts strictly, and the limit
-- is accepted, a client that follows the cursors of listUsers for as many pages as there are users listed
-- sees exactly the users that pass the filters, each once, in descending order of their ids: the rows it
-- sees are those of the ordered table that pass, and the ordered table has every user as often as the
-- table itself.
pub list_users-follow :
    (p : Platform) (db : Database) (users : List User) (params : AdminUserListParams) (limit : ℕ)
    → normalize_limit 20 100 params.limit ≡ ok limit
    → IsOrder db.below
    → HasUniqueKeys (λ u. u.id) users
    → All (λ u. is_empty u.id ≡ false) users
    → let ordered = order_by_id_desc (λ u. u.id) db.below users in
      (follow
          (λ cursor. list_users p db users (record params { cursor = cursor }))
          (length (find_rows (is_listed p db params) ordered))
          none
        ≡ find_rows (is_listed p db params) ordered)
      × IsDescending (λ u. u.id) db.below ordered
      × ((test : User → Bool) → count test ordered ≡ count test users)
unfolding list_users
list_users-follow p db users params limit e order unique full =
    let ordered = order_by_id_desc (λ u. u.id) db.below users in
    let descending = order_by_id_desc-IsDescending (λ u. u.id) db.below order users unique full in
    (
      follow-list_page (λ u. u.id) db.below
          (λ cursor. list_users p db users (record params { cursor = cursor }))
          (is_listed p db params) ordered params.limit limit e descending (λ cursor. rw e refl),
      descending,
      λ test. count-order_by_id_desc (λ u. u.id) db.below test users,
    )

-- The same of the table of clients and listClients.
list_clients-follow :
    (p : Platform) (db : Database) (clients : List Client) (params : AdminClientListParams)
    (limit : ℕ)
    → normalize_limit 20 100 params.limit ≡ ok limit
    → IsOrder db.below
    → HasUniqueKeys (λ c. c.id) clients
    → All (λ c. is_empty c.id ≡ false) clients
    → let ordered = order_by_id_desc (λ c. c.id) db.below clients in
      (follow
          (λ cursor. list_clients p db clients (record params { cursor = cursor }))
          (length (find_rows (is_listed_client p db params) ordered))
          none
        ≡ find_rows (is_listed_client p db params) ordered)
      × IsDescending (λ c. c.id) db.below ordered
      × ((test : Client → Bool) → count test ordered ≡ count test clients)
unfolding list_clients
list_clients-follow p db clients params limit e order unique full =
    let ordered = order_by_id_desc (λ c. c.id) db.below clients in
    let descending = order_by_id_desc-IsDescending (λ c. c.id) db.below order clients unique full in
    (
      follow-list_page (λ c. c.id) db.below
          (λ cursor. list_clients p db clients (record params { cursor = cursor }))
          (is_listed_client p db params) ordered params.limit limit e descending
          (λ cursor. rw e refl),
      descending,
      λ test. count-order_by_id_desc (λ c. c.id) db.below test clients,
    )
