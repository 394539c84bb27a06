-- ===== src/Examples/ClientRuns.antt =====
-- Clients: one is created, one gets another secret.
use oid.Shared.{
  arith, ◌==◌, eq_iff, true, false, is_empty, [], ◌∷◌, none, some, ◌≡◌, refl, count, find_one, Run,
}
use oid.Store.{Store, ok, ClientStatus}
use oid.Platform.{hash_secret}
use oid.Tokens.{assert_client_secret}
use oid.Admin.Clients.{AdminCreateClientInput, GivenNumber}
use oid.Admin.ClientEdits.{create_client, rotate_client_secret, set_client_status, new_secret}
use oid.Admin.Catalog.{IsCatalog}
use oid.Admin.ClientChanges
use oid.Admin.ClientChanges.{IsClientChange}
use oid.Admin.ClientSecret
use oid.Admin.ClientSecret.{with_secret}
use oid.Examples.Host.{host}
use oid.Examples.Rows.{rows, client}
use oid.Examples.TokenRuns.{apart}
use oid.Examples.AdminRuns.{context}

abbrev input : AdminCreateClientInput
input = record {
  client_id = " web ";
  name = "Web";
  type = none;
  allowed_scopes = none;
  allowed_claims = none;
  require_pkce = none;
  allow_refresh_tokens = some true;
  access_token_ttl_seconds = some (GivenNumber.natural 60);
  id_token_ttl_seconds = none;
  refresh_token_idle_ttl_seconds = none;
  refresh_token_absolute_ttl_seconds = none;
  owner_team = none;
}

abbrev with_client : Store
with_client = (create_client host input context "2" rows).1

abbrev disabled : Store
disabled = (set_client_status "cli_1" ClientStatus.disabled context with_client).1

rows-IsCatalog : IsCatalog rows.clients
unfolding count
rows-IsCatalog = record {
  unique = (tt, tt);
  client_ids = λ client_id. ground (arith, eq_iff "app" client_id);
  configured =
      (record { access = omega arith; id = omega arith; policy = (omega arith, omega arith) }, tt);
}

client_run-IsCatalog_example : IsCatalog disabled.clients
client_run-IsCatalog_example =
    ClientChanges.client_run-IsCatalog host rows disabled rows-IsCatalog (
      Run.next with_client disabled
        (Run.next rows with_client Run.start
          (IsClientChange.create_change input context "2" (apart "cli_1" "cli_2" refl, tt)))
        (IsClientChange.status_change "cli_1" ClientStatus.disabled context))

found_client : find_one (λ c. c.id == "cli_1") rows.clients ≡ some client
unfolding find_one
found_client = refl

full_digest : is_empty (hash_secret host (new_secret host (1 ∷ []))) ≡ false
unfolding hash_secret
full_digest = refl

rotate_client_secret_lem_example :
    ((rotate_client_secret host "cli_1" context (1 ∷ []) rows).0
      ≡ ok ("app", new_secret host (1 ∷ [])))
    × (find_one
          (λ c. c.id == "cli_1")
          (rotate_client_secret host "cli_1" context (1 ∷ []) rows).1.clients
        ≡ some (with_secret host client (new_secret host (1 ∷ []))))
    × (assert_client_secret host
          (with_secret host client (new_secret host (1 ∷ [])))
          (some (new_secret host (1 ∷ [])))
        ≡ ok tt)
rotate_client_secret_lem_example =
    ClientSecret.rotate_client_secret_lem host "cli_1" context (1 ∷ []) rows client (tt, tt)
      found_client refl full_digest
