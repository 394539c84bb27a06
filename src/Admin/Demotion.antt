-- ===== src/Admin/Demotion.antt =====
-- What the removal from the group of administrators does.
use oid.Shared.{
  ℕ, String, ◌&&◌, eq_iff, ◌≡◌, ◌≢◌, refl, sym, inl, inr, arith, Bool, true, false, Option, some,
  Option-cases, find_one, find_one-passes, count, count-remove_rows,
}
use oid.Platform.{Platform}
use oid.Store.{Store, Result, ok, err, HttpException, Group}
use oid.Audit.{record_event}
use oid.Admin.Common.{AdminMutationContext, AdminPrincipal}
use oid.Admin.Access.{is_membership, require_admin_access}
use oid.Admin.AccessRule.{require_admin_access-IsAdmin}
use oid.Admin.Groups.{has_slug, remove_membership}
use oid.Admin.Integrity.{is_group}

-- What a removal that returned has done.
record IsRemoved (group_id user_id : String) (s t : Store) : Type 0 where
  pub groups : t.groups ≡ s.groups
  pub gone : count (is_membership user_id group_id) t.memberships ≡ 0

both : (a b : Bool) → (a && b) ≡ true → (a ≡ true) × (b ≡ true)
both true b e = (refl, e)
both false b e = cc

remove_membership-IsRemoved :
    (group_id user_id : String) (context : AdminMutationContext) (s : Store)
    → (remove_membership group_id user_id context s).0 ≡ ok tt
    → IsRemoved group_id user_id s (remove_membership group_id user_id context s).1
unfolding remove_membership record_event
remove_membership-IsRemoved group_id user_id context s h =
    elim (Option-cases (find_one (is_group group_id) s.groups)) [
      | inl e ↦ absurd (err-≢-ok (rw e at h))
      | inr (g, e) ↦ elim (Option-cases (find_one (is_membership user_id group_id) s.memberships)) [
        | inl e' ↦ absurd (err-≢-ok (rw (e, e') at h))
        | inr (m, e') ↦
            let (same_user, same_group) =
              both _ _ (find_one-passes (is_membership user_id group_id) s.memberships e') in
            let of_user : m.user_id ≡ user_id = (eq_iff _ _).0 same_user in
            let of_group : m.group_id ≡ group_id = (eq_iff _ _).0 same_group in
            rw (e, e', of_user, of_group)
              (record {
                groups = refl;
                gone = count-remove_rows (is_membership user_id group_id) s.memberships;
              })
      ]
    ]
  where
    err-≢-ok : {x : HttpException} → ◌≡◌ {A = Result (Unit {0})} (err x) (ok tt) → ⊥
    err-≢-ok e = cc

-- Once a user's membership in the group of administrators is removed, no request is let into the back
-- office with that user as its principal, whatever its token and time, while the tables stay so.
pub removed_admin_refused :
    (p : Platform) (slug : String) (group : Group) (user_id : String)
    (context : AdminMutationContext) (s : Store) (token : Option String) (now : ℕ)
    (principal : AdminPrincipal)
    → find_one (has_slug slug) s.groups ≡ some group
    → principal.user.id ≡ user_id
    → (remove_membership group.id user_id context s).0 ≡ ok tt
    → require_admin_access p slug token now (remove_membership group.id user_id context s).1
      ≢ (ok principal, (remove_membership group.id user_id context s).1)
removed_admin_refused p slug group user_id context s token now principal admin same removed let_in =
    let t = (remove_membership group.id user_id context s).1 in
    let z = remove_membership-IsRemoved group.id user_id context s removed in
    let (raw, given, full, v) =
      (require_admin_access-IsAdmin p slug token now t principal).0 let_in in
    let same_group : v.group ≡ group = sym (some_lem (rw (z.groups, admin) at v.group_found)) in
    omega (arith, z.gone, rw (same, same_group) at v.member)
  where
    some_lem : {a b : Group} → some a ≡ some b → a ≡ b
    some_lem e = cc
