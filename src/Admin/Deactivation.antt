-- ===== src/Admin/Deactivation.antt =====
-- What the deactivation of a user does to the user's sessions and refresh tokens.
use oid.Shared.{
  ℕ, String, ◌==◌, eq_iff, ◌≡◌, refl, some, subst, count, find_one, find_one-save_self,
  find_one-passes, HasUniqueKeys,
}
use oid.Store.{Store, ok, User, UserStatus}
use oid.Audit.{record_event}
use oid.Closing.{is_open_session, is_open_token, close_all}
use oid.Closing.Effect.{
  IsClosedTo, IsKeptFromOthers, close_all-IsClosedTo, close_all-IsKeptFromOthers,
}
use oid.Admin.Common.{AdminMutationContext}
use oid.Admin.Users.{SetUserStatusResult, save_user}
use oid.Admin.Status.{set_user_status, revoke_user_security_state}
use oid.Admin.Identity.{id_of}

-- The user's row, but for its status and the time of the deactivation.
abbrev pub deactivated_row : User → ℕ → User
deactivated_row user now = record user {
  status = UserStatus.deactivated;
  deactivated_at = some now;
}

-- The answer to a deactivation: the user, and how many rows were revoked.
abbrev pub deactivation_of : User → ℕ → Store → SetUserStatusResult
deactivation_of user now s = record {
  user = deactivated_row user now;
  revoked_provider_session_count = some (count (is_open_session user.id) s.sessions);
  revoked_refresh_token_count = some (count (is_open_token user.id) s.refresh_tokens);
}

-- Deactivating a user who exists returns the user with the number of sessions and of refresh tokens
-- that were not revoked yet; afterwards the user is stored as deactivated at that time, every session and refresh
-- token of the user is revoked, and those of every other user are as they were.
pub deactivate_user_lem :
    (user_id : String) (context : AdminMutationContext) (now : ℕ) (s : Store) (user : User)
    → HasUniqueKeys id_of s.users
    → find_one (λ u. u.id == user_id) s.users ≡ some user
    → let (r, t) = set_user_status user_id UserStatus.deactivated context now s in
      (r ≡ ok (deactivation_of user now s))
      × (find_one (λ u. u.id == user_id) t.users ≡ some (deactivated_row user now))
      × IsClosedTo user_id t
      × IsKeptFromOthers user_id s t
unfolding set_user_status revoke_user_security_state record_event close_all
deactivate_user_lem user_id context now s user unique found =
    let passes = find_one-passes (λ u. u.id == user_id) s.users found in
    let new = deactivated_row user now in
    let saved = save_user new s in
    let ended = (close_all user.id now "user_deactivated" saved).1 in
    let closed =
      subst (λ i. IsClosedTo i ended) ((eq_iff _ _).0 passes)
        (close_all-IsClosedTo user.id now "user_deactivated" saved) in
    let kept =
      subst (λ i. IsKeptFromOthers i saved ended) ((eq_iff _ _).0 passes)
        (close_all-IsKeptFromOthers user.id now "user_deactivated" saved) in
    rw found (
      refl,
      find_one-save_self id_of (λ u. u.id == user_id) user new s.users unique found refl passes,
      record { sessions = closed.sessions; tokens = closed.tokens },
      record { sessions = kept.sessions; tokens = kept.tokens },
    )
