-- ===== src/Examples/PageRuns.antt =====
-- Active users of the back office, seen one at a time.
use oid.Shared.{
  Bool, arith, eq_iff, ◌≢◌, count, false, String, [], ◌∷◌, List, none, some, ◌≡◌, refl, ◌==◌,
  find_rows,
}
use oid.Store.{User, UserStatus}
use oid.Admin.Clients.{natural}
use oid.Pages.Lists.{Database, AdminUserListParams, order_by_id_desc, list_users}
use oid.Pages.Walk.{IsDescending}
use oid.Pages.Listing
use oid.Pages.Listing.{follow}
use oid.Examples.Host.{host}
use oid.Examples.Rows.{user}
use oid.Examples.TextOrder.{comes_before, comes_before-IsOrder}

abbrev database : Database
database = record { below = comes_before; lower = λ text. text; like = λ text term. text == term }

abbrev users : List User
users =
    user
    ∷ (record user { id = "usr_3" })
    ∷ (record user { id = "usr_2"; status = UserStatus.suspended })
    ∷ []

abbrev params : AdminUserListParams
params = record {
  cursor = none;
  limit = some (natural 1);
  status = some UserStatus.active;
  q = none;
}

abbrev ordered : List User
ordered =
    (record user { id = "usr_3" })
    ∷ (record user { id = "usr_2"; status = UserStatus.suspended })
    ∷ user
    ∷ []

apart : {a b : String} → (a == b) ≡ false → a ≢ b
apart e h = ground (arith, e, (eq_iff _ _).1 h)

list_users-follow_example :
    (follow (λ cursor. list_users host database users (record params { cursor = cursor })) 2 none
      ≡ (record user { id = "usr_3" }) ∷ user ∷ [])
    × IsDescending (λ u. u.id) comes_before ordered
    × ((test : User → Bool) → count test ordered ≡ count test users)
unfolding oid.Pages.normalize_limit order_by_id_desc find_rows comes_before
list_users-follow_example =
    Listing.list_users-follow host database users params 1 refl comes_before-IsOrder
      ((apart refl, (apart refl, tt)), ((apart refl, tt), (tt, tt))) (refl, (refl, (refl, tt)))
