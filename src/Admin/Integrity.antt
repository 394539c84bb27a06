-- ===== src/Admin/Integrity.antt =====
-- Groups and memberships under changes from the back office.
use oid.Shared.{
  ◌≤◌, String, ◌==◌, eq_iff, Bool, false, List, some, ◌≡◌, refl, arith, bit, All, All-imp, All-both,
  All-count_zero, All-remove_rows, find_one, count, save, remove_rows, HasUniqueKeys, IsFresh,
  IsClaim, claim-save, claim-save_fresh, count-save, count-save_fresh, save-HasUniqueKeys,
  count-remove_rows-le, count-remove_rows_other, remove_rows-HasUniqueKeys,
}
use oid.Store.{User, Group, Membership}
use oid.Admin.Access.{is_membership}
use oid.Admin.Groups.{has_slug}

abbrev pub id_of : Group → String
id_of g = g.id

abbrev pub is_user : String → User → Bool
is_user user_id u = u.id == user_id

abbrev pub is_group : String → Group → Bool
is_group group_id g = g.id == group_id

-- The user and the group of a membership exist.
abbrev pub IsLink : List User → List Group → Membership → Type 0
IsLink users groups m =
    (1 ≤ count (is_user m.user_id) users) × (1 ≤ count (is_group m.group_id) groups)

-- Ids and slugs of groups are unique, nobody is a member of a group twice, and every membership's
-- user and group exist.
pub record IsLinked (users : List User) (groups : List Group) (memberships : List Membership)
    : Type 0 where
  pub unique : HasUniqueKeys id_of groups
  pub slugs : (slug : String) → count (has_slug slug) groups ≤ 1
  pub pairs : (user_id group_id : String) → count (is_membership user_id group_id) memberships ≤ 1
  pub links : All (IsLink users groups) memberships

module _ (users : List User) (groups : List Group) (memberships : List Membership)
    (v : IsLinked users groups memberships) where
  pub created-IsLinked :
      (new : Group)
      → IsFresh id_of new.id groups
      → count (has_slug new.slug) groups ≡ 0
      → IsLinked users (save id_of new groups) memberships
  created-IsLinked new fresh free = record {
    unique = save-HasUniqueKeys id_of new groups v.unique;
    slugs = λ slug.
        claim-save_fresh id_of (has_slug slug) new groups fresh (v.slugs slug)
          (λ e. rw (← (eq_iff _ _).0 e) free);
    pairs = v.pairs;
    links =
        All-imp (IsLink users groups) _
          (λ m (h, k).
            (h, omega (arith, k, count-save_fresh id_of (is_group m.group_id) new groups fresh)))
          memberships v.links;
  }

  pub updated-IsLinked :
      (p : Group → Bool) (old new : Group)
      → find_one p groups ≡ some old
      → new.id ≡ old.id
      → ((slug : String) → IsClaim (has_slug slug) groups old new)
      → IsLinked users (save id_of new groups) memberships
  updated-IsLinked p old new found same claim = record {
    unique = save-HasUniqueKeys id_of new groups v.unique;
    slugs = λ slug.
        claim-save id_of (has_slug slug) p old new groups v.unique found same (v.slugs slug)
          (claim slug);
    pairs = v.pairs;
    links =
        All-imp (IsLink users groups) _ (λ m (h, k). (h, omega (arith, k, counted m.group_id)))
          memberships v.links;
  }
    where
      counted :
          (i : String) → count (is_group i) (save id_of new groups) ≡ count (is_group i) groups
      counted i =
          let alike : bit (is_group i new) ≡ bit (is_group i old) = rw same refl in
          omega (arith, alike, count-save id_of (is_group i) p old new groups v.unique found same)

  -- Removing a group that has no members.
  pub deleted-IsLinked :
      (group_id : String)
      → count (λ m. m.group_id == group_id) memberships ≡ 0
      → IsLinked users (remove_rows (is_group group_id) groups) memberships
  deleted-IsLinked group_id empty = record {
    unique = remove_rows-HasUniqueKeys id_of _ groups v.unique;
    slugs = λ slug.
        omega
          (arith, v.slugs slug, count-remove_rows-le (has_slug slug) (is_group group_id) groups);
    pairs = v.pairs;
    links =
        All-imp _ _ (λ m ((h, k), other). (h, omega (arith, k, kept m.group_id other))) memberships
          (All-both _ _ memberships v.links (All-count_zero _ memberships empty));
  }
    where
      kept :
          (i : String)
          → (i == group_id) ≡ false
          → count (is_group i) (remove_rows (is_group group_id) groups) ≡ count (is_group i) groups
      kept i other =
          count-remove_rows_other (is_group i) (is_group group_id)
            (λ g e. ground (arith, eq_iff g.id group_id, eq_iff g.id i, eq_iff i group_id)) groups

  pub removed-IsLinked : (p : Membership → Bool) → IsLinked users groups (remove_rows p memberships)
  removed-IsLinked p = record {
    unique = v.unique;
    slugs = v.slugs;
    pairs =
        λ u g. omega (arith, v.pairs u g, count-remove_rows-le (is_membership u g) p memberships);
    links = All-remove_rows _ p memberships v.links;
  }
