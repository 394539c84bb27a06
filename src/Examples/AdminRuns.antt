-- ===== src/Examples/AdminRuns.antt =====
-- The back office: an administrator, a group and its members.
use oid.Shared.{
  String, ◌==◌, eq_iff, arith, true, [], ◌∷◌, none, some, ◌≡◌, ◌≢◌, ◌↔◌, ◌⊎◌, refl, count, find_one,
  update_rows, truthy, Run,
}
use oid.Store.{Store, ok, UserStatus, Group, Membership, ProviderSession, RefreshToken}
use oid.Audit.{record_event}
use oid.Platform.{hash_secret}
use oid.Tokens.{rotate_token_for_client, find_token}
use oid.Tokens.Reach.{IsThrown}
use oid.Oidc.SessionLookup.{resolve_provider_session}
use oid.Closing.Effect.{IsClosedTo, IsKeptFromOthers}
use oid.Closing.Effect
use oid.Admin.Common.{AdminPrincipal, AdminMutationContext}
use oid.Admin.Users.{AdminCreateUserInput, create_user}
use oid.Admin.Status.{set_user_status, revoke_user_security_state}
use oid.Closing.{close_all}
use oid.Admin.Identity.{IsIdentified}
use oid.Admin.Accounts
use oid.Admin.Accounts.{IsUserChange}
use oid.Admin.Deactivation
use oid.Admin.Deactivation.{deactivated_row, deactivation_of}
use oid.Admin.Access.{require_admin_access}
use oid.Admin.AccessRule
use oid.Admin.AccessRule.{IsAdmin}
use oid.Admin.Groups.{AdminCreateGroupInput, create_group, add_membership, remove_membership}
use oid.Admin.Membership.{IsLinkedStore}
use oid.Admin.GroupChanges
use oid.Admin.GroupChanges.{IsGroupChange}
use oid.Admin.Demotion
use oid.Examples.Host.{host}
use oid.Examples.Rows.{rows, user, fresh}
use oid.Examples.TokenRuns.{rotation, apart}

abbrev pub session : ProviderSession
session = record {
  id = "psn_1";
  user_id = "usr_1";
  session_hash = hash_secret host "cab";
  last_seen_at = 1000;
  auth_time = 1000;
  idle_expires_at = 11000;
  absolute_expires_at = 21000;
  revoked_at = none;
  revocation_reason = none;
  ip_address = none;
  user_agent = none;
}

abbrev admins : Group
admins = record { id = "grp_1"; slug = "admins"; display_name = "A"; description = none }

abbrev principal : AdminPrincipal
principal = record { user = user; provider_session = session }

abbrev pub context : AdminMutationContext
context = record { principal = principal; ip_address = none; user_agent = none }

abbrev membership : Membership
membership = record { user_id = "usr_1"; group_id = "grp_1"; created_by_id = none }

abbrev pub office : Store
office = record rows {
  sessions = session ∷ [];
  groups = admins ∷ [];
  memberships = membership ∷ [];
}

office-IsIdentified : IsIdentified host office.users
unfolding count
office-IsIdentified = record {
  unique = (tt, tt);
  emails = λ email. ground (arith, eq_iff "a" email);
  names = λ name full. omega arith;
  folded = (record { address = refl; name = refl }, tt);
}

abbrev new_user : AdminCreateUserInput
new_user = record {
  email = " b ";
  display_name = "B";
  given_name = none;
  family_name = none;
  username = some "bb";
  profile_type = none;
}

abbrev with_user : Store
with_user = (create_user host new_user context "2" office).1

abbrev without_user : Store
without_user = (set_user_status "usr_2" UserStatus.deactivated context 2000 with_user).1

user_run-IsIdentified_example : IsIdentified host without_user.users
user_run-IsIdentified_example =
    Accounts.user_run-IsIdentified host office without_user office-IsIdentified (
      Run.next with_user without_user
        (Run.next office with_user Run.start
          (IsUserChange.create_change new_user context "2" (apart "usr_1" "usr_2" refl, tt)))
        (IsUserChange.status_change "usr_2" UserStatus.deactivated context 2000))

abbrev deactivated : Store
deactivated = (set_user_status "usr_1" UserStatus.deactivated context 2000 office).1

user_found : find_one (λ u. u.id == "usr_1") office.users ≡ some user
unfolding find_one
user_found = refl

deactivate_user_closed : IsClosedTo "usr_1" deactivated
deactivate_user_closed =
    (Deactivation.deactivate_user_lem "usr_1" context 2000 office user (tt, tt) user_found).2

mine_only :
    (found : RefreshToken)
    → find_token host "abc" deactivated.refresh_tokens ≡ some found
    → found.user_id ≡ "usr_1"
unfolding find_one hash_secret set_user_status revoke_user_security_state close_all record_event
    update_rows
mine_only found e = cc

deactivate_user_lem_example :
    ((set_user_status "usr_1" UserStatus.deactivated context 2000 office).0
      ≡ ok (deactivation_of user 2000 office))
    × (find_one (λ u. u.id == "usr_1") deactivated.users ≡ some (deactivated_row user 2000))
    × IsClosedTo "usr_1" deactivated
    × IsKeptFromOthers "usr_1" office deactivated
deactivate_user_lem_example =
    Deactivation.deactivate_user_lem "usr_1" context 2000 office user (tt, tt) user_found

closed_user_refused_example :
    ((resolve_provider_session host (some "cab") 3000 deactivated ≡ (ok none, deactivated))
      ⊎ ((r : ProviderSession) × (r.user_id ≢ "usr_1")
          × (resolve_provider_session host (some "cab") 3000 deactivated
              ≡ (ok (some r), deactivated))))
    × IsThrown (rotate_token_for_client host rotation fresh 3000 deactivated).0
closed_user_refused_example =
    Effect.closed_user_refused host "usr_1" deactivated 3000 (some "cab") rotation fresh
      deactivate_user_closed mine_only

office-let_in : find_one (λ g. g.slug == "admins") office.groups ≡ some admins
unfolding find_one
office-let_in = refl

require_admin_access-IsAdmin_example :
    (require_admin_access host "admins" (some "cab") 2000 office ≡ (ok principal, office)) ↔ (
      (raw : String) × (some "cab" ≡ some raw)
      × (truthy (some "cab") ≡ true)
      × IsAdmin host "admins" raw 2000 office principal)
require_admin_access-IsAdmin_example =
    AccessRule.require_admin_access-IsAdmin host "admins" (some "cab") 2000 office principal

-- The administrator of the office is let in.
office_test : (require_admin_access host "admins" (some "cab") 2000 office).0 ≡ ok principal
unfolding require_admin_access find_one hash_secret
office_test = refl

removal-ok : (remove_membership "grp_1" "usr_1" context office).0 ≡ ok tt
unfolding remove_membership find_one record_event
removal-ok = refl

removed_admin_refused_example :
    require_admin_access host "admins"
      (some "cab")
      2000
      (remove_membership "grp_1" "usr_1" context office).1
    ≢ (ok principal, (remove_membership "grp_1" "usr_1" context office).1)
removed_admin_refused_example =
    Demotion.removed_admin_refused host "admins" admins "usr_1" context office (some "cab") 2000
      principal office-let_in refl removal-ok

abbrev group_input : AdminCreateGroupInput
group_input = record { slug = "b"; display_name = "B"; description = none }

office-IsLinked : IsLinkedStore office
unfolding count
office-IsLinked = record {
  unique = (tt, tt);
  slugs = λ slug. ground (arith, eq_iff "admins" slug);
  pairs = λ u g. ground (arith, eq_iff "usr_1" u, eq_iff "grp_1" g);
  links = ((omega arith, omega arith), tt);
}

abbrev two_groups : Store
two_groups = (create_group host group_input context "2" office).1

abbrev two_members : Store
two_members = (add_membership "grp_2" "usr_1" context two_groups).1

group_run-IsLinked_example : IsLinkedStore two_members
group_run-IsLinked_example =
    GroupChanges.group_run-IsLinked host office two_members office-IsLinked (
      Run.next two_groups two_members
        (Run.next office two_groups Run.start
          (IsGroupChange.create_change group_input context "2" (apart "grp_1" "grp_2" refl, tt)))
        (IsGroupChange.add_change "grp_2" "usr_1" context))
