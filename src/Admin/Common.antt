-- ===== src/Admin/Common.antt =====
-- What the services of src/admin share: the context of a change, the normalization of inputs, and the
-- audit events of changes. Each service has its own copy of these functions.
use oid.Shared.{String, is_empty, concat, trim, Option, none, some, if◌then◌else◌}
use oid.Json.{Fields, obj}
use oid.Store.{
  Result, ok, err, bad_request, User, UserStatus, UserProfileType, employee, contractor, service,
  ProviderSession, AuditEvent,
}
use oid.Audit.{no_event}

-- admin-access.service.ts
pub record AdminPrincipal : Type 0 where
  pub user : User
  pub provider_session : ProviderSession

-- admin-user.service.ts
pub record AdminMutationContext : Type 0 where
  pub principal : AdminPrincipal
  pub ip_address : Option String
  pub user_agent : Option String

unfoldable pub normalize_required : String → String → Result String
normalize_required value field_name =
    if is_empty (trim value)
    then err (bad_request (concat field_name " is required."))
    else ok (trim value)

unfoldable pub normalize_optional : Option String → Option String
normalize_optional none = none
normalize_optional (some value) = if is_empty (trim value) then none else some (trim value)

abbrev pub status_name : UserStatus → String
status_name UserStatus.pending = "pending"
status_name UserStatus.active = "active"
status_name UserStatus.suspended = "suspended"
status_name UserStatus.deactivated = "deactivated"

abbrev pub profile_name : UserProfileType → String
profile_name employee = "employee"
profile_name contractor = "contractor"
profile_name service = "service"

-- The columns that every event about a change shares.
abbrev pub admin_event : String → AdminMutationContext → Fields → AuditEvent
admin_event event_type context metadata = record no_event {
  event_type = event_type;
  actor_user_id = some context.principal.user.id;
  provider_session_id = some context.principal.provider_session.id;
  ip_address = context.ip_address;
  user_agent = context.user_agent;
  metadata_json = some (obj metadata);
}
