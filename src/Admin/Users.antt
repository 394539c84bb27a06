-- ===== src/Admin/Users.antt =====
-- admin/admin-user.service.ts: users are created, changed, and given a status.
-- What monotonicFactory's ulid draws is the argument `ulid`, and `now` is `new Date()`.
use oid.Shared.{
  ℕ, String, ◌==◌, Bool, true, false, ◌&&◌, truthy, is_some, if◌then◌else◌, List, Option, none,
  some, find_one, save,
}
use oid.Json.{str, end, field, nullable_str}
use oid.Platform.{Platform, prefixed_ulid}
use oid.Store.{
  Store, Action, Result, ok, err, pure, gets, lift, modify, or_throw, ◌>>=◌, ◌>>◌, not_found,
  conflict, User, UserStatus, UserProfileType, employee,
}
use oid.Audit.{record_event}
use oid.Admin.Common.{
  AdminMutationContext, normalize_required, normalize_optional, status_name, profile_name,
  admin_event,
}

pub record AdminCreateUserInput : Type 0 where
  pub email : String
  pub display_name : String
  pub given_name : Option String
  pub family_name : Option String
  pub username : Option String
  pub profile_type : Option UserProfileType

-- A field that is absent is `none`; one that is null is `some none`.
pub record AdminUpdateUserInput : Type 0 where
  pub email : Option String
  pub display_name : Option String
  pub given_name : Option (Option String)
  pub family_name : Option (Option String)
  pub username : Option (Option String)
  pub profile_type : Option UserProfileType

pub record SetUserStatusResult : Type 0 where
  pub user : User
  pub revoked_provider_session_count : Option ℕ
  pub revoked_refresh_token_count : Option ℕ

abbrev pub has_email : String → User → Bool
has_email email u = u.normalized_email == email

abbrev pub is_text : Option String → String → Bool
is_text none text = false
is_text (some value) text = value == text

abbrev pub has_username : String → User → Bool
has_username name u = is_text u.normalized_username name

abbrev pub save_user : User → Store → Store
save_user u s = record s { users = save (λ r. r.id) u s.users }

-- `getExistingUser`
abbrev pub existing_user : String → List User → Result User
existing_user user_id users =
    or_throw (find_one (λ u. u.id == user_id) users) (not_found "User not found.")

unfoldable pub assert_email_available : String → List User → Result (Unit {0})
assert_email_available email users =
    if is_some (find_one (has_email email) users)
    then err (conflict "Email is already in use.")
    else ok tt

taken_username : String → List User → Result (Unit {0})
taken_username name users =
    if truthy (some name) && is_some (find_one (has_username name) users)
    then err (conflict "Username is already in use.")
    else ok tt

unfoldable pub assert_username_available : Option String → List User → Result (Unit {0})
unfolding taken_username
assert_username_available none users = ok tt
assert_username_available (some name) users = taken_username name users

-- A field that is absent is left as it is.
abbrev pub given_or : {A : Type 0} → Option A → A → A
given_or none old = old
given_or (some a) old = a

abbrev optional_or : Option (Option String) → Option String → Option String
optional_or none old = old
optional_or (some value) old = normalize_optional value

-- The body of `if (input.displayName !== undefined)`.
unfoldable pub update_display_name : Option String → User → Action User
update_display_name none u = pure u
update_display_name (some value) u = do
  name ← lift (normalize_required value "displayName")
  pure (record u { display_name = name })

module _ (p : Platform) where
  abbrev pub lower_optional : Option String → Option String
  lower_optional none = none
  lower_optional (some value) = some (p.to_lower_case value)

  abbrev pub same_username : Option String → Option String → Bool
  same_username none none = true
  same_username (some a) (some b) = a == b
  same_username _ _ = false

  -- The body of `if (input.email !== undefined)`.
  unfoldable pub update_email : Option String → User → Action User
  update_email none u = pure u
  update_email (some value) u = do
    email ← lift (normalize_required value "email")
    users ← gets (λ s. s.users)
    lift (
        if p.to_lower_case email == u.normalized_email
        then ok tt
        else assert_email_available (p.to_lower_case email) users)
    pure (record u { email = email; normalized_email = p.to_lower_case email })

  -- The body of `if (input.username !== undefined)`.
  unfoldable pub update_username : Option (Option String) → User → Action User
  update_username none u = pure u
  update_username (some value) u = do
    let username = normalize_optional value
    users ← gets (λ s. s.users)
    lift (
        if same_username (lower_optional username) u.normalized_username
        then ok tt
        else assert_username_available (lower_optional username) users)
    pure (record u { username = username; normalized_username = lower_optional username })

  abbrev pub created_user : AdminCreateUserInput → String → String → String → User
  created_user input ulid email name = record {
    id = prefixed_ulid p "usr" ulid;
    email = email;
    normalized_email = p.to_lower_case email;
    email_verified_at = none;
    username = normalize_optional input.username;
    normalized_username = lower_optional (normalize_optional input.username);
    display_name = name;
    given_name = normalize_optional input.given_name;
    family_name = normalize_optional input.family_name;
    profile_type = given_or input.profile_type employee;
    status = UserStatus.pending;
    deactivated_at = none;
  }

  unfoldable pub create_user : AdminCreateUserInput → AdminMutationContext → String → Action User
  create_user input context ulid = do
    email ← lift (normalize_required input.email "email")
    users ← gets (λ s. s.users)
    lift (assert_email_available (p.to_lower_case email) users)
    lift (assert_username_available (lower_optional (normalize_optional input.username)) users)
    name ← lift (normalize_required input.display_name "displayName")
    let user = created_user input ulid email name
    modify (save_user user)
    record_event
        (record (admin_event "admin.user.created" context (
          field "normalizedEmail" (str user.normalized_email) (
            field "profileType" (str (profile_name user.profile_type))
              (field "status" (str (status_name user.status)) end)))) {
                target_user_id = some user.id;
              })
    pure user

  -- What `updateUser` does with the remaining fields, and the save.
  abbrev pub store_update : AdminUpdateUserInput → AdminMutationContext → User → Action User
  store_update input context u = do
    let user = record u {
      given_name = optional_or input.given_name u.given_name;
      family_name = optional_or input.family_name u.family_name;
      profile_type = given_or input.profile_type u.profile_type;
    }
    modify (save_user user)
    record_event
        (record (admin_event "admin.user.updated" context (
          field "normalizedEmail" (str user.normalized_email) (
            field "normalizedUsername" (nullable_str user.normalized_username)
              (field "profileType" (str (profile_name user.profile_type)) end)))) {
                target_user_id = some user.id;
              })
    pure user

  -- `updateUser` once the user is found.
  abbrev pub update_found : AdminUpdateUserInput → AdminMutationContext → User → Action User
  update_found input context user = do
    with_email ← update_email input.email user
    named ← update_display_name input.display_name with_email
    with_username ← update_username input.username named
    store_update input context with_username

  unfoldable pub update_user : String → AdminUpdateUserInput → AdminMutationContext → Action User
  update_user user_id input context = do
    users ← gets (λ s. s.users)
    user ← lift (existing_user user_id users)
    update_found input context user
