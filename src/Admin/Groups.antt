-- ===== src/Admin/Groups.antt =====
-- admin/admin-group.service.ts: groups and their members.
use oid.Shared.{
  String, ◌==◌, Bool, ltb, if◌then◌else◌, List, [], ◌∷◌, Option, none, some, find_one, save,
  remove_rows, count, is_some,
}
use oid.Json.{Fields, str, end, field}
use oid.Platform.{Platform, prefixed_ulid}
use oid.Store.{
  Store, Action, Result, ok, err, pure, gets, lift, modify, or_throw, ◌>>=◌, ◌>>◌, not_found,
  conflict, User, Group, Membership,
}
use oid.Audit.{record_event}
use oid.Admin.Common.{AdminMutationContext, normalize_required, normalize_optional, admin_event}
use oid.Admin.Access.{is_membership}

pub record AdminCreateGroupInput : Type 0 where
  pub slug : String
  pub display_name : String
  pub description : Option String

-- A field that is absent is `none`; one that is null is `some none`.
pub record AdminUpdateGroupInput : Type 0 where
  pub slug : Option String
  pub display_name : Option String
  pub description : Option (Option String)

abbrev pub has_slug : String → Group → Bool
has_slug slug g = g.slug == slug

abbrev pub save_group : Group → Store → Store
save_group g s = record s { groups = save (λ r. r.id) g s.groups }

-- `membershipRepository.save(membership)`, whose key is the pair of the ids.
unfoldable pub save_membership : Membership → List Membership → List Membership
save_membership m [] = m ∷ []
save_membership m (r ∷ rs) =
    let rest = save_membership m rs in
    if is_membership m.user_id m.group_id r then m ∷ rs else r ∷ rest

abbrev pub existing_group : String → List Group → Result Group
existing_group group_id groups =
    or_throw (find_one (λ g. g.id == group_id) groups) (not_found "Group not found.")

abbrev pub assert_user_exists : String → List User → Result User
assert_user_exists user_id users =
    or_throw (find_one (λ u. u.id == user_id) users) (not_found "User not found.")

unfoldable pub assert_slug_available : String → List Group → Result (Unit {0})
assert_slug_available slug groups =
    if is_some (find_one (has_slug slug) groups)
    then err (conflict "Group slug is already in use.")
    else ok tt

abbrev pub audit_group_mutation : String → Group → AdminMutationContext → Fields → Action (Unit {0})
audit_group_mutation event_type group context metadata =
    record_event (admin_event event_type context (field "groupId" (str group.id) metadata))

abbrev of_slug : Group → Fields
of_slug group = field "slug" (str group.slug) end

abbrev of_member : String → String → Fields
of_member user_id group_id = field "userId" (str user_id) (field "groupId" (str group_id) end)

-- The body of `if (input.displayName !== undefined)`.
unfoldable pub rename_group : Option String → Group → Action Group
rename_group none g = pure g
rename_group (some value) g = do
  name ← lift (normalize_required value "displayName")
  pure (record g { display_name = name })

abbrev description_or : Option (Option String) → Option String → Option String
description_or none old = old
description_or (some value) old = normalize_optional value

module _ (p : Platform) where
  -- `normalizeSlug`
  abbrev pub normalize_slug : String → Action String
  normalize_slug slug = do
    value ← lift (normalize_required slug "slug")
    pure (p.to_lower_case value)

  abbrev pub created_group : AdminCreateGroupInput → String → String → String → Group
  created_group input ulid slug name = record {
    id = prefixed_ulid p "grp" ulid;
    slug = slug;
    display_name = name;
    description = normalize_optional input.description;
  }

  unfoldable pub create_group : AdminCreateGroupInput → AdminMutationContext → String → Action Group
  create_group input context ulid = do
    slug ← normalize_slug input.slug
    groups ← gets (λ s. s.groups)
    lift (assert_slug_available slug groups)
    name ← lift (normalize_required input.display_name "displayName")
    let group = created_group input ulid slug name
    modify (save_group group)
    audit_group_mutation "admin.group.created" group context (of_slug group)
    pure group

  -- The body of `if (input.slug !== undefined)`.
  unfoldable pub update_slug : Option String → Group → Action Group
  update_slug none g = pure g
  update_slug (some value) g = do
    slug ← normalize_slug value
    groups ← gets (λ s. s.groups)
    lift (if slug == g.slug then ok tt else assert_slug_available slug groups)
    pure (record g { slug = slug })

  abbrev pub update_found_group :
      AdminUpdateGroupInput → AdminMutationContext → Group → Action Group
  update_found_group input context found = do
    with_slug ← update_slug input.slug found
    named ← rename_group input.display_name with_slug
    let group = record named { description = description_or input.description named.description }
    modify (save_group group)
    audit_group_mutation "admin.group.updated" group context (of_slug group)
    pure group

  unfoldable pub update_group : String → AdminUpdateGroupInput → AdminMutationContext → Action Group
  update_group group_id input context = do
    groups ← gets (λ s. s.groups)
    group ← lift (existing_group group_id groups)
    update_found_group input context group

-- `remove` leaves the entity without its id, so the event has no groupId: it is undefined, and the JSON of
-- the column leaves it out.
unfoldable pub delete_group : String → AdminMutationContext → Action (Unit {0})
delete_group group_id context = do
  groups ← gets (λ s. s.groups)
  group ← lift (existing_group group_id groups)
  members ← gets (λ s. count (λ m. m.group_id == group_id) s.memberships)
  lift (
      if ltb 0 members
      then err (conflict "Remove all members before deleting the group.")
      else ok tt)
  modify (λ s. record s { groups = remove_rows (λ g. g.id == group.id) s.groups })
  record_event (admin_event "admin.group.deleted" context (of_slug group))

abbrev pub new_membership : String → String → AdminMutationContext → Membership
new_membership group_id user_id context = record {
  user_id = user_id;
  group_id = group_id;
  created_by_id = some context.principal.user.id;
}

abbrev pub add_unless_member :
    Group → String → String → AdminMutationContext → Option Membership → Action Membership
add_unless_member group group_id user_id context (some existing) = pure existing
add_unless_member group group_id user_id context none = do
  let membership = new_membership group_id user_id context
  modify (λ s. record s { memberships = save_membership membership s.memberships })
  audit_group_mutation "admin.group.membership_added" group context (of_member user_id group_id)
  pure membership

unfoldable pub add_membership : String → String → AdminMutationContext → Action Membership
add_membership group_id user_id context = do
  groups ← gets (λ s. s.groups)
  group ← lift (existing_group group_id groups)
  users ← gets (λ s. s.users)
  lift (assert_user_exists user_id users)
  existing ← gets (λ s. find_one (is_membership user_id group_id) s.memberships)
  add_unless_member group group_id user_id context existing

unfoldable pub remove_membership : String → String → AdminMutationContext → Action (Unit {0})
remove_membership group_id user_id context = do
  groups ← gets (λ s. s.groups)
  group ← lift (existing_group group_id groups)
  found ← gets (λ s. find_one (is_membership user_id group_id) s.memberships)
  membership ← lift (or_throw found (not_found "Group membership not found."))
  modify (λ s. record s {
    memberships = remove_rows (is_membership membership.user_id membership.group_id) s.memberships;
  })
  audit_group_mutation "admin.group.membership_removed" group context (of_member user_id group_id)

-- `getGroupById`
unfoldable pub get_group_by_id : String → Action Group
get_group_by_id group_id = do groups ← gets (λ s. s.groups); lift (existing_group group_id groups)
