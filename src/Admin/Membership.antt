-- ===== src/Admin/Membership.antt =====
-- The operations on groups and the integrity of their tables.
use oid.Shared.{
  ℕ, ◌+◌, ◌≤◌, String, ◌==◌, eq_iff, Bool, true, List, [], ◌∷◌, Option, none, some, ◌≡◌, refl,
  subst, ◌⊎◌, inl, inr, arith, bit, All, ltb, Bool-cases, Option-cases, find_one, find_one-passes,
  count, count-none, count-found, IsFresh, IsClaim,
}
use oid.Platform.{Platform, prefixed_ulid}
use oid.Store.{Store, Result, ok, err, HttpException, conflict, Result-cases, Group, Membership}
use oid.Audit.{record_event}
use oid.Admin.Common.{AdminMutationContext, normalize_required}
use oid.Admin.Access.{is_membership}
use oid.Admin.Groups.{
  AdminCreateGroupInput, AdminUpdateGroupInput, has_slug, save_membership, created_group,
  update_slug, rename_group, assert_slug_available, create_group, update_group, delete_group,
  new_membership, add_membership, remove_membership,
}
use oid.Admin.Integrity.{
  id_of, is_user, is_group, IsLink, IsLinked, created-IsLinked, updated-IsLinked, deleted-IsLinked,
  removed-IsLinked,
}

abbrev pub IsLinkedStore : Store → Type 0
IsLinkedStore s = IsLinked s.users s.groups s.memberships

count-save_membership :
    (q : Membership → Bool) (m : Membership) (rs : List Membership)
    → find_one (is_membership m.user_id m.group_id) rs ≡ none
    → count q (save_membership m rs) ≡ count q rs + bit (q m)
unfolding count save_membership find_one
count-save_membership q m [] e = omega arith
count-save_membership q m (r ∷ rs) e = elim (Bool-cases (is_membership m.user_id m.group_id r)) [
  | inl t ↦ absurd (some-≢-none (rw t at e))
  | inr t ↦ rw t (omega (arith, count-save_membership q m rs (rw t at e)))
]
  where
    some-≢-none : {x : Membership} → some x ≡ none → ⊥
    some-≢-none e = cc

-- A membership that was not there does not make a second one of any pair.
new_pairs :
    (m : Membership) (rs : List Membership)
    → find_one (is_membership m.user_id m.group_id) rs ≡ none
    → ((u g : String) → count (is_membership u g) rs ≤ 1)
    → (u g : String) → count (is_membership u g) (save_membership m rs) ≤ 1
new_pairs m rs e few u g =
    let counted = count-save_membership (is_membership u g) m rs e in
    elim (Bool-cases (m.user_id == u)) [
      | inr a ↦ omega (arith, rw a at counted, few u g)
      | inl a ↦ elim (Bool-cases (m.group_id == g)) [
        | inr b ↦ omega (arith, rw (a, b) at counted, few u g)
        | inl b ↦
            let nobody : count (is_membership u g) rs ≡ 0 =
              subst (λ x. count (is_membership x g) rs ≡ 0) ((eq_iff _ _).0 a)
                (subst (λ y. count (is_membership m.user_id y) rs ≡ 0) ((eq_iff _ _).0 b)
                  (count-none _ rs e)) in
            omega (arith, rw (a, b) at counted, nobody)
      ]
    ]

All-save_membership :
    (P : Membership → Type 0) (m : Membership) (rs : List Membership)
    → P m
    → All P rs
    → All P (save_membership m rs)
unfolding save_membership
All-save_membership P m [] h hs = (h, tt)
All-save_membership P m (r ∷ rs) h (k, ks) =
    elim (Bool-cases (is_membership m.user_id m.group_id r)) [
      | inl e ↦ rw e (h, ks)
      | inr e ↦ rw e (k, All-save_membership P m rs h ks)
    ]

found_one :
    {A : Type 0} (q : A → Bool) (rs : List A) {a : A} → find_one q rs ≡ some a → 1 ≤ count q rs
found_one q rs e = counted _ (find_one-passes q rs e) (count-found q q rs e)
  where
    counted : {n : ℕ} (b : Bool) → b ≡ true → bit b ≤ n → 1 ≤ n
    counted b t h = rw t at h

available_slug :
    (slug : String) (groups : List Group)
    → ((x : HttpException) × (assert_slug_available slug groups ≡ err x))
      ⊎ ((count (has_slug slug) groups ≡ 0) × (assert_slug_available slug groups ≡ ok tt))
unfolding assert_slug_available
available_slug slug groups = elim (Option-cases (find_one (has_slug slug) groups)) [
  | inl e ↦ inr (count-none _ groups e, rw e refl)
  | inr (u, e) ↦ inl (conflict "Group slug is already in use.", rw e refl)
]

module _ (p : Platform) (s : Store) (v : IsLinkedStore s) (context : AdminMutationContext) where
  pub create_group-IsLinked :
      (input : AdminCreateGroupInput) (ulid : String)
      → IsFresh id_of (prefixed_ulid p "grp" ulid) s.groups
      → IsLinkedStore (create_group p input context ulid s).1
  unfolding create_group record_event
  create_group-IsLinked input ulid fresh =
      elim (Result-cases (normalize_required input.slug "slug")) [
        | inl (x, e) ↦ rw e v
        | inr (slug, e) ↦ elim (available_slug (p.to_lower_case slug) s.groups) [
          | inl (x, e') ↦ rw (e, e') v
          | inr (free, e') ↦
              elim (Result-cases (normalize_required input.display_name "displayName")) [
                | inl (x, e'') ↦ rw (e, e', e'') v
                | inr (name, e'') ↦
                    rw (e, e', e'')
                      (created-IsLinked s.users s.groups s.memberships v
                        (created_group p input ulid (p.to_lower_case slug) name) fresh free)
              ]
        ]
      ]

  -- How a change of one field of a group ends.
  abbrev Outcome : Group → Result Group × Store → Type 0
  Outcome old o =
      ((e : HttpException) × (o ≡ (err e, s)))
      ⊎ ((g : Group) × (g.id ≡ old.id)
          × ((slug : String) → IsClaim (has_slug slug) s.groups old g)
          × (o ≡ (ok g, s)))

  slug_outcome : (old : Group) (value : Option String) → Outcome old (update_slug p value old s)
  unfolding update_slug
  slug_outcome old none = inr (old, refl, (λ slug h. rw h (v.slugs slug)), refl)
  slug_outcome old (some value) = elim (Result-cases (normalize_required value "slug")) [
    | inl (x, e) ↦ inl (x, rw e refl)
    | inr (slug, e) ↦ elim (Bool-cases (p.to_lower_case slug == old.slug)) [
      | inl same ↦ inr (
        record old { slug = p.to_lower_case slug },
        refl,
        (λ other h. rw (rw ((eq_iff _ _).0 same) at h) (v.slugs other)),
        rw (e, same) refl,
      )
      | inr new ↦ elim (available_slug (p.to_lower_case slug) s.groups) [
        | inl (x, e') ↦ inl (x, rw (e, new, e') refl)
        | inr (free, e') ↦ inr (
          record old { slug = p.to_lower_case slug },
          refl,
          (λ other h. rw (← (eq_iff _ _).0 h, free) (omega arith)),
          rw (e, new, e') refl,
        )
      ]
    ]
  ]

  rename_outcome :
      (g : Group) (value : Option String)
      → ((x : HttpException) × (rename_group value g s ≡ (err x, s)))
        ⊎ ((name : String) × (rename_group value g s ≡ (ok (record g { display_name = name }), s)))
  unfolding rename_group
  rename_outcome g none = inr (g.display_name, refl)
  rename_outcome g (some value) = elim (Result-cases (normalize_required value "displayName")) [
    | inl (x, e) ↦ inl (x, rw e refl)
    | inr (name, e) ↦ inr (name, rw e refl)
  ]

  pub update_group-IsLinked :
      (group_id : String) (input : AdminUpdateGroupInput)
      → IsLinkedStore (update_group p group_id input context s).1
  unfolding update_group record_event
  update_group-IsLinked group_id input =
      elim (Option-cases (find_one (is_group group_id) s.groups)) [
        | inl e ↦ rw e v
        | inr (old, e) ↦ elim (slug_outcome old input.slug) [
          | inl (x, e') ↦ rw (e, e') v
          | inr (g, same, claim, e') ↦ elim (rename_outcome g input.display_name) [
            | inl (x, e'') ↦ rw (e, e', e'') v
            | inr (name, e'') ↦
                rw (e, e', e'')
                  (updated-IsLinked s.users s.groups s.memberships v (is_group group_id) old _ e
                    same claim)
          ]
        ]
      ]

  pub delete_group-IsLinked :
      (group_id : String) → IsLinkedStore (delete_group group_id context s).1
  unfolding delete_group record_event
  delete_group-IsLinked group_id = elim (Option-cases (find_one (is_group group_id) s.groups)) [
    | inl e ↦ rw e v
    | inr (g, e) ↦
        let members = count (λ m. m.group_id == group_id) s.memberships in
        let same : g.id ≡ group_id =
          (eq_iff _ _).0 (find_one-passes (is_group group_id) s.groups e) in
        elim (Bool-cases (ltb 0 members)) [
          | inl t ↦ rw (e, t) v
          | inr t ↦
              rw (e, t, same)
                (deleted-IsLinked s.users s.groups s.memberships v group_id (ground (arith, t)))
        ]
  ]

  pub add_membership-IsLinked :
      (group_id user_id : String) → IsLinkedStore (add_membership group_id user_id context s).1
  unfolding add_membership record_event
  add_membership-IsLinked group_id user_id =
      elim (Option-cases (find_one (is_group group_id) s.groups)) [
        | inl e ↦ rw e v
        | inr (g, e) ↦ elim (Option-cases (find_one (is_user user_id) s.users)) [
          | inl e' ↦ rw (e, e') v
          | inr (u, e') ↦
              elim (Option-cases (find_one (is_membership user_id group_id) s.memberships)) [
                | inr (m, e'') ↦ rw (e, e', e'') v
                | inl e'' ↦
                    rw (e, e', e'')
                      (record {
                        unique = v.unique;
                        slugs = v.slugs;
                        pairs =
                            new_pairs (new_membership group_id user_id context) s.memberships e''
                              v.pairs;
                        links =
                            All-save_membership (IsLink s.users s.groups)
                              (new_membership group_id user_id context) s.memberships
                              (
                                found_one (is_user user_id) s.users e',
                                found_one (is_group group_id) s.groups e,
                              )
                              v.links;
                      })
              ]
        ]
      ]

  pub remove_membership-IsLinked :
      (group_id user_id : String) → IsLinkedStore (remove_membership group_id user_id context s).1
  unfolding remove_membership record_event
  remove_membership-IsLinked group_id user_id =
      elim (Option-cases (find_one (is_group group_id) s.groups)) [
        | inl e ↦ rw e v
        | inr (g, e) ↦
            elim (Option-cases (find_one (is_membership user_id group_id) s.memberships)) [
              | inl e' ↦ rw (e, e') v
              | inr (m, e') ↦
                  rw (e, e')
                    (removed-IsLinked s.users s.groups s.memberships v
                      (is_membership m.user_id m.group_id))
            ]
      ]
