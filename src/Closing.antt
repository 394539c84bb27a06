-- ===== src/Closing.antt =====
-- The two updates that end all sessions and refresh tokens of a user: a deactivation makes them
-- (admin/admin-user.service.ts), and a password reset (authentication/password-reset.service.ts).
pub mod Effect
use oid.Shared.{ℕ, String, ◌==◌, Bool, not, ◌&&◌, is_some, some, update_rows}
use oid.Store.{Action, modify, ◌>>=◌, ◌>>◌, ProviderSession, RefreshToken}

-- `{ userId, revokedAt: IsNull() }`
abbrev pub is_open_session : String → ProviderSession → Bool
is_open_session user_id r = r.user_id == user_id && not (is_some r.revoked_at)

abbrev pub is_open_token : String → RefreshToken → Bool
is_open_token user_id r = r.user_id == user_id && not (is_some r.revoked_at)

abbrev pub close_session : ℕ → String → ProviderSession → ProviderSession
close_session now reason r = record r { revoked_at = some now; revocation_reason = some reason }

abbrev pub close_token : ℕ → String → RefreshToken → RefreshToken
close_token now reason r = record r { revoked_at = some now; revocation_reason = some reason }

-- The two updates of `revokeUserSecurityState` and of `resetPassword`.
unfoldable pub close_all : String → ℕ → String → Action (Unit {0})
close_all user_id now reason = do
  modify (λ s. record s {
    sessions = update_rows (is_open_session user_id) (close_session now reason) s.sessions;
  })
  modify (λ s. record s {
    refresh_tokens = update_rows (is_open_token user_id) (close_token now reason) s.refresh_tokens;
  })
