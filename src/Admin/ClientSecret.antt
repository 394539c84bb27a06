-- ===== src/Admin/ClientSecret.antt =====
-- What a new client secret is good for.
use oid.Shared.{
  ℕ, String, ◌==◌, is_empty, eq_refl, false, List, some, ◌≡◌, refl, find_one, find_one-passes,
  find_one-save_self, HasUniqueKeys,
}
use oid.Platform.{Platform, hash_secret}
use oid.Store.{Store, ok, Client, is_public}
use oid.Audit.{record_event}
use oid.Tokens.{assert_client_secret}
use oid.Admin.Common.{AdminMutationContext}
use oid.Admin.ClientEdits.{new_secret, rotate_client_secret}
use oid.Admin.Catalog.{id_of}

-- The client with the hash of a secret.
abbrev pub with_secret : Platform → Client → String → Client
with_secret p c secret = record c { client_secret_hash = some (hash_secret p secret) }

-- Rotating the secret of a confidential client, where row ids are unique and a digest is not empty,
-- returns the client id and the new secret; the stored client differs in the hash of the secret alone,
-- and the token endpoint accepts the returned secret for it.
pub rotate_client_secret_lem :
    (p : Platform) (id : String) (context : AdminMutationContext) (raw_bytes : List ℕ) (s : Store)
    (client : Client)
    → HasUniqueKeys id_of s.clients
    → find_one (λ c. c.id == id) s.clients ≡ some client
    → is_public client.type ≡ false
    → is_empty (hash_secret p (new_secret p raw_bytes)) ≡ false
    → let (r, t) = rotate_client_secret p id context raw_bytes s in
      (r ≡ ok (client.client_id, new_secret p raw_bytes))
      × (find_one (λ c. c.id == id) t.clients
          ≡ some (with_secret p client (new_secret p raw_bytes)))
      × (assert_client_secret p
            (with_secret p client (new_secret p raw_bytes))
            (some (new_secret p raw_bytes))
          ≡ ok tt)
unfolding rotate_client_secret record_event assert_client_secret
rotate_client_secret_lem p id context raw_bytes s client unique found confidential full =
    let secret = new_secret p raw_bytes in
    let passes = find_one-passes (λ c. c.id == id) s.clients found in
    rw (found, confidential)
      (
        refl,
        find_one-save_self id_of (λ c. c.id == id) client (with_secret p client secret) s.clients
            unique found refl passes,
        rw (full, eq_refl (hash_secret p secret)) refl,
      )
