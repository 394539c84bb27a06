-- ===== src/Admin/Status.antt =====
-- `setUserStatus` of admin/admin-user.service.ts, and what a deactivation revokes.
use oid.Shared.{ℕ, String, Option, none, some, count}
use oid.Json.{Fields, str, num, end, field}
use oid.Store.{Action, pure, gets, lift, modify, ◌>>=◌, ◌>>◌, User, UserStatus}
use oid.Audit.{record_event}
use oid.Closing.{is_open_session, is_open_token, close_all}
use oid.Admin.Common.{AdminMutationContext, status_name, admin_event}
use oid.Admin.Users.{SetUserStatusResult, existing_user, save_user}

-- `revokeUserSecurityState`: how many rows each update changed.
unfoldable pub revoke_user_security_state : String → ℕ → Action (ℕ × ℕ)
revoke_user_security_state user_id now = do
  sessions ← gets (λ s. count (is_open_session user_id) s.sessions)
  tokens ← gets (λ s. count (is_open_token user_id) s.refresh_tokens)
  close_all user_id now "user_deactivated"
  pure (sessions, tokens)

-- The user with the status, and the time of a deactivation.
abbrev pub with_status : User → UserStatus → ℕ → User
with_status u UserStatus.deactivated now = record u {
  status = UserStatus.deactivated;
  deactivated_at = some now;
}
with_status u status now = record u { status = status; deactivated_at = none }

abbrev record_status :
    User
    → UserStatus
    → AdminMutationContext
    → Fields
    → Option ℕ
    → Option ℕ
    → Action SetUserStatusResult
record_status user status context counts sessions tokens = do
  record_event
      (record (admin_event "admin.user.status_changed" context
        (field "status" (str (status_name status)) counts)) { target_user_id = some user.id })
  pure (record {
    user = user;
    revoked_provider_session_count = sessions;
    revoked_refresh_token_count = tokens;
  })

abbrev pub revoke_and_record :
    User → UserStatus → AdminMutationContext → ℕ → Action SetUserStatusResult
revoke_and_record user UserStatus.deactivated context now = do
  counts ← revoke_user_security_state user.id now
  record_status user UserStatus.deactivated context
      (field "revokedProviderSessionCount" (num counts.0)
        (field "revokedRefreshTokenCount" (num counts.1) end))
      (some counts.0) (some counts.1)
revoke_and_record user status context now = record_status user status context end none none

unfoldable pub set_user_status :
    String → UserStatus → AdminMutationContext → ℕ → Action SetUserStatusResult
set_user_status user_id status context now = do
  users ← gets (λ s. s.users)
  user ← lift (existing_user user_id users)
  modify (save_user (with_status user status now))
  revoke_and_record (with_status user status now) status context now
