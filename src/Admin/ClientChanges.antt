-- ===== src/Admin/ClientChanges.antt =====
-- Runs of changes of clients.
use oid.Shared.{
  ℕ, String, ◌==◌, eq_iff, Bool, false, List, [], ◌∷◌, some, ◌≡◌, refl, sym, subst, ◌⊎◌, inl, inr,
  All-save, Bool-cases, Option-cases, find_one, count, IsFresh, save-HasUniqueKeys, count-none,
  claim-save_fresh, Run, run_keeps,
}
use oid.Platform.{Platform, prefixed_ulid}
use oid.Store.{
  Store, ok, err, HttpException, conflict, Result-cases, Client, ClientStatus, is_public,
}
use oid.Audit.{record_event}
use oid.Admin.Common.{AdminMutationContext, normalize_required}
use oid.Admin.Clients.{
  natural, AdminCreateClientInput, AdminUpdateClientInput, default_to, normalize_string_list,
  normalize_positive_integer, build_refresh_token_policy, has_client_id, assert_client_id_available,
  changed,
}
use oid.Admin.ClientEdits.{
  update_policy, update_found_client, update_client, set_client_status, create_client,
  rotate_client_secret,
}
use oid.Admin.Catalog.{
  id_of, IsConfigured, IsCatalog, positive, changed-positive, built-IsPolicy, updated-IsPolicy,
  edited-IsCatalog, old-IsConfigured,
}

abbrev IsCatalogStore : Store → Type 0
IsCatalogStore s = IsCatalog s.clients

available_client_id :
    (client_id : String) (clients : List Client)
    → ((x : HttpException) × (assert_client_id_available client_id clients ≡ err x))
      ⊎ ((count (has_client_id client_id) clients ≡ 0)
          × (assert_client_id_available client_id clients ≡ ok tt))
unfolding assert_client_id_available
available_client_id client_id clients =
    elim (Option-cases (find_one (has_client_id client_id) clients)) [
      | inl e ↦ inr (count-none _ clients e, rw e refl)
      | inr (c, e) ↦ inl (conflict "Client ID is already in use.", rw e refl)
    ]

module _ (s : Store) (v : IsCatalogStore s) (context : AdminMutationContext) where
  update_found-IsCatalog :
      (p : Client → Bool) (old : Client) (input : AdminUpdateClientInput)
      → find_one p s.clients ≡ some old
      → IsCatalogStore (update_found_client input context old s).1
  unfolding record_event
  update_found-IsCatalog p old input found =
      let fine = old-IsConfigured p s.clients v found in
      elim (Result-cases (changed input.name (λ n. normalize_required n "name") old.name)) [
        | inl (x, a) ↦ rw a v
        | inr (name, a) ↦
            elim (Result-cases
              (changed input.allowed_scopes normalize_string_list old.allowed_scopes)) [
                | inl (x, b) ↦ rw (a, b) v
                | inr (scopes, b) ↦
                    elim (Result-cases
                      (changed input.allowed_claims normalize_string_list old.allowed_claims)) [
                        | inl (x, c) ↦ rw (a, b, c) v
                        | inr (claims, c) ↦
                            elim (Result-cases (
                              changed input.access_token_ttl_seconds
                                (normalize_positive_integer "accessTokenTtlSeconds")
                                old.access_token_ttl_seconds)) [
                                  | inl (x, d) ↦ rw (a, b, c, d) v
                                  | inr (access, d) ↦
                                      elim (Result-cases (
                                        changed input.id_token_ttl_seconds
                                          (normalize_positive_integer "idTokenTtlSeconds")
                                          old.id_token_ttl_seconds)) [
                                            | inl (x, e) ↦ rw (a, b, c, d, e) v
                                            | inr (id, e) ↦
                                                elim (Result-cases (update_policy input old)) [
                                                  | inl (x, f) ↦ rw (a, b, c, d, e, f) v
                                                  | inr (policy, f) ↦
                                                      rw (a, b, c, d, e, f)
                                                        (edited-IsCatalog p old _ s.clients v found
                                                          refl refl
                                                          (record {
                                                            access =
                                                            changed-positive _
                                                            input.access_token_ttl_seconds
                                                            old.access_token_ttl_seconds fine.access
                                                            d;
                                                            id =
                                                            changed-positive _
                                                            input.id_token_ttl_seconds
                                                            old.id_token_ttl_seconds fine.id e;
                                                            policy =
                                                            updated-IsPolicy input old fine.policy
                                                            f;
                                                          }))
                                                ]
                                          ]
                                ]
                      ]
              ]
      ]

  update_client-IsCatalog :
      (id : String) (input : AdminUpdateClientInput)
      → IsCatalogStore (update_client id input context s).1
  unfolding update_client
  update_client-IsCatalog id input = elim (Option-cases (find_one (λ c. c.id == id) s.clients)) [
    | inl e ↦ rw e v
    | inr (old, e) ↦ rw e (update_found-IsCatalog (λ c. c.id == id) old input e)
  ]

  set_client_status-IsCatalog :
      (id : String) (status : ClientStatus)
      → IsCatalogStore (set_client_status id status context s).1
  unfolding set_client_status record_event
  set_client_status-IsCatalog id status =
      elim (Option-cases (find_one (λ c. c.id == id) s.clients)) [
        | inl e ↦ rw e v
        | inr (old, e) ↦
            let fine = old-IsConfigured (λ c. c.id == id) s.clients v e in
            rw e (
              edited-IsCatalog (λ c. c.id == id) old _ s.clients v e refl refl
                (record { access = fine.access; id = fine.id; policy = fine.policy }))
      ]

  rotate_client_secret-IsCatalog :
      (p : Platform) (id : String) (raw_bytes : List ℕ)
      → IsCatalogStore (rotate_client_secret p id context raw_bytes s).1
  unfolding rotate_client_secret record_event
  rotate_client_secret-IsCatalog p id raw_bytes =
      elim (Option-cases (find_one (λ c. c.id == id) s.clients)) [
        | inl e ↦ rw e v
        | inr (old, e) ↦ elim (Bool-cases (is_public old.type)) [
          | inl t ↦ rw (e, t) v
          | inr t ↦
              let fine = old-IsConfigured (λ c. c.id == id) s.clients v e in
              rw (e, t)
                (edited-IsCatalog (λ c. c.id == id) old _ s.clients v e refl refl
                  (record { access = fine.access; id = fine.id; policy = fine.policy }))
        ]
      ]

  create_client-IsCatalog :
      (p : Platform) (input : AdminCreateClientInput) (ulid : String)
      → IsFresh id_of (prefixed_ulid p "cli" ulid) s.clients
      → IsCatalogStore (create_client p input context ulid s).1
  unfolding create_client record_event
  create_client-IsCatalog p input ulid fresh =
      elim (Result-cases (normalize_required input.client_id "clientId")) [
        | inl (x, a) ↦ rw a v
        | inr (client_id, a) ↦ elim (available_client_id client_id s.clients) [
          | inl (x, b) ↦ rw (a, b) v
          | inr (free, b) ↦ elim (Result-cases (normalize_required input.name "name")) [
            | inl (x, c) ↦ rw (a, b, c) v
            | inr (name, c) ↦
                elim (Result-cases
                  (normalize_string_list (default_to ("openid" ∷ []) input.allowed_scopes))) [
                    | inl (x, d) ↦ rw (a, b, c, d) v
                    | inr (scopes, d) ↦
                        elim (Result-cases
                          (normalize_string_list (default_to ("sub" ∷ []) input.allowed_claims))) [
                            | inl (x, e) ↦ rw (a, b, c, d, e) v
                            | inr (claims, e) ↦
                                elim (Result-cases (
                                  normalize_positive_integer "accessTokenTtlSeconds"
                                    (default_to (natural 900) input.access_token_ttl_seconds))) [
                                      | inl (x, f) ↦ rw (a, b, c, d, e, f) v
                                      | inr (access, f) ↦
                                          elim (Result-cases (
                                            normalize_positive_integer "idTokenTtlSeconds" (
                                              default_to (natural 900)
                                                input.id_token_ttl_seconds))) [
                                                  | inl (x, g) ↦ rw (a, b, c, d, e, f, g) v
                                                  | inr (id, g) ↦
                                                      elim (Result-cases (
                                                        build_refresh_token_policy
                                                          input.refresh_token_idle_ttl_seconds
                                                          input.refresh_token_absolute_ttl_seconds
                                                          (default_to false
                                                            input.allow_refresh_tokens))) [
                                                              | inl (x, h) ↦
                                                                rw (a, b, c, d, e, f, g, h) v
                                                              | inr (policy, h) ↦
                                                                rw (a, b, c, d, e, f, g, h)
                                                                (record {
                                                                unique =
                                                                save-HasUniqueKeys id_of _ s.clients
                                                                v.unique;
                                                                client_ids = λ i.
                                                                claim-save_fresh id_of
                                                                (has_client_id i) _ s.clients fresh
                                                                (v.client_ids i)
                                                                (λ same.
                                                                rw (← (eq_iff _ _).0 same) free);
                                                                configured =
                                                                All-save id_of IsConfigured _
                                                                s.clients
                                                                (record {
                                                                access = positive _ _ f;
                                                                id = positive _ _ g;
                                                                policy = built-IsPolicy _ _ _ h;
                                                                })
                                                                v.configured;
                                                                })
                                                            ]
                                                ]
                                    ]
                          ]
                  ]
          ]
        ]
      ]

-- One change of the clients from the back office, or a change of other tables.
pub data IsClientChange (p : Platform) (s : Store) : Store → Type 0 where
  create_change :
      (input : AdminCreateClientInput) (context : AdminMutationContext) (ulid : String)
      → IsFresh id_of (prefixed_ulid p "cli" ulid) s.clients
      → IsClientChange p s (create_client p input context ulid s).1
  update_change :
      (id : String) (input : AdminUpdateClientInput) (context : AdminMutationContext)
      → IsClientChange p s (update_client id input context s).1
  status_change :
      (id : String) (status : ClientStatus) (context : AdminMutationContext)
      → IsClientChange p s (set_client_status id status context s).1
  secret_change :
      (id : String) (context : AdminMutationContext) (raw_bytes : List ℕ)
      → IsClientChange p s (rotate_client_secret p id context raw_bytes s).1
  other_change : (t : Store) → t.clients ≡ s.clients → IsClientChange p s t

-- In every run of changes of clients from the back office, in which each new client's row id is new to the
-- table: ids and client ids stay unique, the lifetimes of access and id tokens are positive, and a
-- client has both lifetimes of refresh tokens, positive ones, if it may have refresh tokens, and
-- neither if it may not.
pub client_run-IsCatalog :
    (p : Platform) (s t : Store)
    → IsCatalog s.clients
    → Run (IsClientChange p) s t
    → IsCatalog t.clients
client_run-IsCatalog p s t = run_keeps (IsClientChange p) IsCatalogStore keep s t
  where
    keep : (a b : Store) → IsCatalogStore a → IsClientChange p a b → IsCatalogStore b
    keep a _ v (create_change input context ulid fresh) =
        create_client-IsCatalog a v context p input ulid fresh
    keep a _ v (update_change id input context) = update_client-IsCatalog a v context id input
    keep a _ v (status_change id status context) = set_client_status-IsCatalog a v context id status
    keep a _ v (secret_change id context raw_bytes) =
        rotate_client_secret-IsCatalog a v context p id raw_bytes
    keep a b v (other_change _ e) = subst IsCatalog (sym e) v
