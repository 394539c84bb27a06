-- ===== src/Examples/LinkRuns.antt =====
-- The links of password resets and invites.
use oid.Shared.{
  ◌==◌, true, ◌&&◌, [], ◌∷◌, none, some, ◌≡◌, refl, count, find_one, trim, concat, utf16_length,
  if◌then◌else◌,
}
use oid.Store.{Store, ok, UserStatus, is_active_user, PasswordReset, UserInvite}
use oid.Audit.{record_event}
use oid.Platform.{hash_secret}
use oid.Closing.{close_all}
use oid.Credentials.{CredentialDraw, upsert_credential}
use oid.Resets.{
  PasswordResetRequestContext, ResetDraw, is_open_reset, request_reset, resolve_valid_reset,
  reset_password,
}
use oid.Resets.Completion
use oid.Resets.Completion.{IsReset}
use oid.Resets.Newest
use oid.Invites.{resolve_valid_invite, accept_invite, accepted_user}
use oid.Invites.Acceptance
use oid.Invites.Acceptance.{IsAccepted}
use oid.Examples.Host.{host}
use oid.Examples.Rows.{rows, user}
use oid.Examples.TokenRuns.{apart}

abbrev reset : PasswordReset
reset = record {
  id = "pwr_1";
  user_id = "usr_1";
  token_hash = hash_secret host "bac";
  expires_at = 9000;
  consumed_at = none;
  revoked_at = none;
}

abbrev invite : UserInvite
invite = record {
  id = "inv_1";
  user_id = "usr_1";
  token_hash = hash_secret host "cab";
  invited_by_user_id = "usr_2";
  expires_at = 9000;
  consumed_at = none;
  revoked_at = none;
}

abbrev linked : Store
linked = record rows { resets = reset ∷ []; invites = invite ∷ [] }

abbrev invited : Store
invited = record linked { users = record user { status = UserStatus.pending } ∷ [] }

abbrev context : PasswordResetRequestContext
context = record { ip_address = none; user_agent = none }

abbrev draw : CredentialDraw
draw = record {
  tables_exist = true;
  hash_password = λ password. concat "h" password;
  account_ulid = "1";
}

abbrev reset_draw : ResetDraw
reset_draw = record { raw_bytes = 1 ∷ 2 ∷ []; ulid = "2"; mail_sent = true }

reset-ok : (reset_password host "bac" "abcabcabc" context draw 2000 linked).0 ≡ ok tt
unfolding reset_password resolve_valid_reset upsert_credential find_one hash_secret close_all
    record_event utf16_length
reset-ok = refl

reset_password-IsReset_example :
    IsReset host "bac" "habcabcabc" 2000 linked
      (reset_password host "bac" "abcabcabc" context draw 2000 linked).1
reset_password-IsReset_example =
    Completion.reset_password-IsReset host "bac" "abcabcabc" context draw 2000 linked (tt, tt)
      reset-ok

accept-ok : (accept_invite host "cab" "abcabcabc" context draw 2000 invited).0 ≡ ok tt
unfolding accept_invite resolve_valid_invite upsert_credential find_one hash_secret accepted_user
    record_event utf16_length
accept-ok = refl

accept_invite-IsAccepted_example :
    IsAccepted host "cab" "habcabcabc" 2000 invited
      (accept_invite host "cab" "abcabcabc" context draw 2000 invited).1
accept_invite-IsAccepted_example =
    Acceptance.accept_invite-IsAccepted host "cab" "abcabcabc" context draw 2000 invited (tt, tt)
      (tt, tt) accept-ok

found_by_address :
    find_one (λ u. u.normalized_email == host.to_lower_case (trim " a ")) linked.users ≡ some user
unfolding find_one trim
found_by_address = refl

request_reset_lem_example :
    ((request_reset host 1 " a " context reset_draw 2000 linked).0 ≡ ok tt)
    × (count
          (is_open_reset "usr_1")
          (request_reset host 1 " a " context reset_draw 2000 linked).1.resets
        ≡ (if is_active_user user.status && true
            then 1
            else count (is_open_reset "usr_1") linked.resets))
request_reset_lem_example =
    Newest.request_reset_lem host 1 " a " context reset_draw 2000 linked user found_by_address
      (apart "pwr_1" "pwr_2" refl, tt)
