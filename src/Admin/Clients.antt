-- ===== src/Admin/Clients.antt =====
-- admin/admin-client.service.ts: clients, their secrets and their redirect URIs.
-- What randomBytes(32) and ulid draw are arguments.
use oid.Shared.{
  ℕ, String, ◌==◌, Bool, true, false, ltb, is_some, concat, if◌then◌else◌, List, [], ◌∷◌, Option,
  none, some, find_one, save,
}
use oid.Json.{Items, nil, cons, Fields, str}
use oid.Store.{
  Store, Action, Result, ok, err, or_throw, bad_request, not_found, conflict, Client, ClientType,
  ClientStatus, AuditSeverity,
}
use oid.Audit.{record_event}
use oid.Cookies.{not_blank}
use oid.Oidc.Scopes.{distinct}
use oid.Admin.Common.{AdminMutationContext, admin_event}

-- A number of the request: a natural one, or a negative or broken one.
pub data GivenNumber : Type 0 where
  natural : ℕ → GivenNumber
  not_natural : GivenNumber

-- For the nullable inputs of a new client, null and undefined are the same `none`.
pub record AdminCreateClientInput : Type 0 where
  pub client_id : String
  pub name : String
  pub type : Option ClientType
  pub allowed_scopes : Option (List String)
  pub allowed_claims : Option (List String)
  pub require_pkce : Option Bool
  pub allow_refresh_tokens : Option Bool
  pub access_token_ttl_seconds : Option GivenNumber
  pub id_token_ttl_seconds : Option GivenNumber
  pub refresh_token_idle_ttl_seconds : Option GivenNumber
  pub refresh_token_absolute_ttl_seconds : Option GivenNumber
  pub owner_team : Option String

-- A field that is absent is `none`; one that is null is `some none`.
pub record AdminUpdateClientInput : Type 0 where
  pub name : Option String
  pub allowed_scopes : Option (List String)
  pub allowed_claims : Option (List String)
  pub require_pkce : Option Bool
  pub allow_refresh_tokens : Option Bool
  pub access_token_ttl_seconds : Option GivenNumber
  pub id_token_ttl_seconds : Option GivenNumber
  pub refresh_token_idle_ttl_seconds : Option (Option GivenNumber)
  pub refresh_token_absolute_ttl_seconds : Option (Option GivenNumber)
  pub owner_team : Option (Option String)

-- `value ?? otherwise`
abbrev pub default_to : {A : Type 0} → A → Option A → A
default_to otherwise none = otherwise
default_to otherwise (some a) = a

abbrev at_least_one : List String → Result (List String)
at_least_one [] = err (bad_request "At least one value is required.")
at_least_one (v ∷ vs) = ok (distinct (v ∷ vs))

unfoldable pub normalize_string_list : List String → Result (List String)
normalize_string_list values = at_least_one (not_blank values)

abbrev pub not_positive : {A : Type 0} → String → Result A
not_positive field_name = err (bad_request (concat field_name " must be a positive integer."))

unfoldable pub normalize_positive_integer : String → GivenNumber → Result ℕ
normalize_positive_integer field_name not_natural = not_positive field_name
normalize_positive_integer field_name (natural n) =
    if ltb 0 n then ok n else not_positive field_name

-- The columns of the refresh token policy.
pub record RefreshTokenPolicy : Type 0 where
  pub allow_refresh_tokens : Bool
  pub refresh_token_idle_ttl_seconds : Option ℕ
  pub refresh_token_absolute_ttl_seconds : Option ℕ

abbrev with_absolute : ℕ → Result ℕ → Result RefreshTokenPolicy
with_absolute idle (err e) = err e
with_absolute idle (ok absolute) = ok (record {
  allow_refresh_tokens = true;
  refresh_token_idle_ttl_seconds = some idle;
  refresh_token_absolute_ttl_seconds = some absolute;
})

abbrev with_idle : Result ℕ → Result ℕ → Result RefreshTokenPolicy
with_idle (err e) absolute = err e
with_idle (ok idle) absolute = with_absolute idle absolute

abbrev no_policy : RefreshTokenPolicy
no_policy = record {
  allow_refresh_tokens = false;
  refresh_token_idle_ttl_seconds = none;
  refresh_token_absolute_ttl_seconds = none;
}

-- `buildRefreshTokenPolicy`: a week and thirty days, if nothing is given.
unfoldable pub build_refresh_token_policy :
    Option GivenNumber → Option GivenNumber → Bool → Result RefreshTokenPolicy
build_refresh_token_policy idle absolute allow =
    if allow
    then with_idle
        (normalize_positive_integer "refreshTokenIdleTtlSeconds" (default_to (natural 604800) idle))
        (normalize_positive_integer "refreshTokenAbsoluteTtlSeconds"
          (default_to (natural 2592000) absolute))
    else ok no_policy

abbrev pub existing_client : String → List Client → Result Client
existing_client id clients =
    or_throw (find_one (λ c. c.id == id) clients) (not_found "Client not found.")

abbrev pub has_client_id : String → Client → Bool
has_client_id client_id c = c.client_id == client_id

unfoldable pub assert_client_id_available : String → List Client → Result (Unit {0})
assert_client_id_available client_id clients =
    if is_some (find_one (has_client_id client_id) clients)
    then err (conflict "Client ID is already in use.")
    else ok tt

abbrev pub save_client : Client → Store → Store
save_client c s = record s { clients = save (λ r. r.id) c s.clients }

abbrev pub audit_client_mutation :
    String → AuditSeverity → Client → AdminMutationContext → Fields → Action (Unit {0})
audit_client_mutation event_type severity client context metadata =
    record_event (record (admin_event event_type context metadata) {
      severity = severity;
      client_id = some client.id;
    })

abbrev pub client_status_name : ClientStatus → String
client_status_name ClientStatus.active = "active"
client_status_name ClientStatus.disabled = "disabled"

abbrev pub type_name : ClientType → String
type_name ClientType.confidential = "confidential"
type_name ClientType.public = "public"

-- `if (input.field !== undefined)`: the value is normalized, or the column stays as it is.
abbrev pub changed : {A B : Type 0} → Option A → (A → Result B) → B → Result B
changed none f old = ok old
changed (some a) f old = f a

abbrev pub texts : List String → Items
texts [] = nil
texts (t ∷ ts) = cons (str t) (texts ts)
