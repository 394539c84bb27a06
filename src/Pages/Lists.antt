-- ===== src/Pages/Lists.antt =====
-- The lists of users and clients of admin/admin-user.service.ts and admin-client.service.ts. LOWER, LIKE
-- and the order of texts are the database's.
use oid.Shared.{
  String, Bool, true, false, ◌==◌, ◌&&◌, ◌||◌, is_empty, trim, concat, if◌then◌else◌, List, Option,
  [], ◌∷◌, none, some, find_rows,
}
use oid.Platform.{Platform}
use oid.Store.{Result, ok, err, User, UserStatus, Client, ClientStatus}
use oid.Admin.Common.{status_name}
use oid.Admin.Clients.{GivenNumber, client_status_name}
use oid.Pages.{CursorPage, normalize_limit, list_page}
use oid.Shared.{ℕ}

pub record Database : Type 0 where
  pub below : String → String → Bool
  pub lower : String → String
  pub like : String → String → Bool

pub record AdminUserListParams : Type 0 where
  pub cursor : Option String
  pub limit : Option GivenNumber
  pub status : Option UserStatus
  pub q : Option String

abbrev has_status : Option UserStatus → User → Bool
has_status none user = true
has_status (some status) user = status_name user.status == status_name status

-- NULL is like no text.
abbrev is_like : Database → Option String → String → Bool
is_like db none term = false
is_like db (some text) term = db.like text term

abbrev has_text : Database → String → User → Bool
has_text db term user =
    db.like (db.lower user.email) term
    || (db.like (db.lower user.display_name) term || is_like db user.normalized_username term)

-- `if (params.q)`: the text to look for is trimmed and in lower case.
abbrev answers : Platform → (String → Bool) → Option String → Bool
answers p found none = true
answers p found (some q) =
    if is_empty q then true else found (concat "%" (concat (p.to_lower_case (trim q)) "%"))

abbrev pub is_listed : Platform → Database → AdminUserListParams → User → Bool
is_listed p db params user =
    has_status params.status user && answers p (λ term. has_text db term user) params.q

pub record AdminClientListParams : Type 0 where
  pub cursor : Option String
  pub limit : Option GivenNumber
  pub status : Option ClientStatus
  pub q : Option String

abbrev client_has_status : Option ClientStatus → Client → Bool
client_has_status none client = true
client_has_status (some status) client =
    client_status_name client.status == client_status_name status

abbrev is_lower_like : Database → Option String → String → Bool
is_lower_like db none term = false
is_lower_like db (some text) term = db.like (db.lower text) term

abbrev client_has_text : Database → String → Client → Bool
client_has_text db term client =
    db.like (db.lower client.client_id) term
    || (db.like (db.lower client.name) term || is_lower_like db client.owner_team term)

abbrev pub is_listed_client : Platform → Database → AdminClientListParams → Client → Bool
is_listed_client p db params client =
    client_has_status params.status client
    && answers p (λ term. client_has_text db term client) params.q

-- `orderBy('id', 'DESC')`
module _ {A : Type 0} (id_of : A → String) (below : String → String → Bool) where
  abbrev pub insert_row : A → List A → List A
  insert_row r [] = r ∷ []
  insert_row r (s ∷ rows) =
      let rest = insert_row r rows in if below (id_of s) (id_of r) then r ∷ s ∷ rows else s ∷ rest

  unfoldable pub order_by_id_desc : List A → List A
  order_by_id_desc [] = []
  order_by_id_desc (r ∷ rows) = insert_row r (order_by_id_desc rows)

module _ {A : Type 0} where
  abbrev with_limit : (ℕ → CursorPage A) → Result ℕ → Result (CursorPage A)
  with_limit page (ok limit) = ok (page limit)
  with_limit page (err e) = err e

-- `users` is the table.
unfoldable pub list_users :
    Platform → Database → List User → AdminUserListParams → Result (CursorPage User)
list_users p db users params =
    with_limit
      (λ limit.
        list_page (λ u. u.id) db.below
          (find_rows (is_listed p db params) (order_by_id_desc (λ u. u.id) db.below users)) limit
          params.cursor)
      (normalize_limit 20 100 params.limit)

-- `clients` is the table.
unfoldable pub list_clients :
    Platform → Database → List Client → AdminClientListParams → Result (CursorPage Client)
list_clients p db clients params =
    with_limit
      (λ limit.
        list_page (λ c. c.id) db.below
          (find_rows (is_listed_client p db params) (order_by_id_desc (λ c. c.id) db.below clients))
          limit params.cursor)
      (normalize_limit 20 100 params.limit)
