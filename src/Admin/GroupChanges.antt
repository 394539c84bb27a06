-- ===== src/Admin/GroupChanges.antt =====
-- Runs of changes of groups and memberships.
use oid.Shared.{String, ◌≤◌, ◌≡◌, arith, count, All-imp, IsFresh, Run, run_keeps}
use oid.Platform.{Platform, prefixed_ulid}
use oid.Store.{Store}
use oid.Admin.Common.{AdminMutationContext}
use oid.Admin.Groups.{
  AdminCreateGroupInput, AdminUpdateGroupInput, create_group, update_group, delete_group,
  add_membership, remove_membership,
}
use oid.Admin.Integrity.{id_of, is_user, IsLinked}
use oid.Admin.Membership.{
  IsLinkedStore, create_group-IsLinked, update_group-IsLinked, delete_group-IsLinked,
  add_membership-IsLinked, remove_membership-IsLinked,
}

-- One change of the groups from the back office, or a change of other tables, which deletes no user.
pub data IsGroupChange (p : Platform) (s : Store) : Store → Type 0 where
  create_change :
      (input : AdminCreateGroupInput) (context : AdminMutationContext) (ulid : String)
      → IsFresh id_of (prefixed_ulid p "grp" ulid) s.groups
      → IsGroupChange p s (create_group p input context ulid s).1
  update_change :
      (group_id : String) (input : AdminUpdateGroupInput) (context : AdminMutationContext)
      → IsGroupChange p s (update_group p group_id input context s).1
  delete_change :
      (group_id : String) (context : AdminMutationContext)
      → IsGroupChange p s (delete_group group_id context s).1
  add_change :
      (group_id user_id : String) (context : AdminMutationContext)
      → IsGroupChange p s (add_membership group_id user_id context s).1
  remove_change :
      (group_id user_id : String) (context : AdminMutationContext)
      → IsGroupChange p s (remove_membership group_id user_id context s).1
  other_change :
      (t : Store)
      → t.groups ≡ s.groups
      → t.memberships ≡ s.memberships
      → ((user_id : String) → count (is_user user_id) s.users ≤ count (is_user user_id) t.users)
      → IsGroupChange p s t

-- In every run of changes of groups and memberships from the back office, in which each new group's id
-- is new to the table and nothing else deletes users: ids and slugs of groups stay unique, nobody is a
-- member of a group twice, and every membership's user and group exist.
pub group_run-IsLinked :
    (p : Platform) (s t : Store) → IsLinkedStore s → Run (IsGroupChange p) s t → IsLinkedStore t
group_run-IsLinked p s t = run_keeps (IsGroupChange p) IsLinkedStore keep s t
  where
    moved :
        (a b : Store)
        → IsLinkedStore a
        → ((user_id : String) → count (is_user user_id) a.users ≤ count (is_user user_id) b.users)
        → IsLinked b.users a.groups a.memberships
    moved a b v more = record {
      unique = v.unique;
      slugs = v.slugs;
      pairs = v.pairs;
      links = All-imp _ _ (λ m (h, k). (omega (arith, h, more m.user_id), k)) a.memberships v.links;
    }

    keep : (a b : Store) → IsLinkedStore a → IsGroupChange p a b → IsLinkedStore b
    keep a _ v (create_change input context ulid fresh) =
        create_group-IsLinked p a v context input ulid fresh
    keep a _ v (update_change group_id input context) =
        update_group-IsLinked p a v context group_id input
    keep a _ v (delete_change group_id context) = delete_group-IsLinked p a v context group_id
    keep a _ v (add_change group_id user_id context) =
        add_membership-IsLinked p a v context group_id user_id
    keep a _ v (remove_change group_id user_id context) =
        remove_membership-IsLinked p a v context group_id user_id
    keep a b v (other_change _ same same' more) = rw (same, same') (moved a b v more)
