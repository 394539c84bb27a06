-- ===== src/Admin/Accounts.antt =====
-- The operations on users and the uniqueness of addresses and names.
use oid.Shared.{
  Run, run_keeps, subst, sym, ◌⊎◌, List, String, ◌==◌, eq_iff, Option, none, some, ◌≡◌, refl, inl,
  inr, Option-cases, find_one, IsFresh, ℕ, true,
}
use oid.Platform.{Platform, prefixed_ulid}
use oid.Store.{Store, Result, ok, err, HttpException, Result-cases, User, UserStatus}
use oid.Audit.{record_event}
use oid.Admin.Common.{AdminMutationContext, normalize_required, normalize_optional}
use oid.Admin.Users.{
  AdminCreateUserInput, AdminUpdateUserInput, lower_optional, is_text, created_user, create_user,
  save_user, update_user, update_found,
}
use oid.Admin.Status.{revoke_and_record, with_status, set_user_status, revoke_user_security_state}
use oid.Closing.{close_all}
use oid.Admin.Identity.{
  id_of, IsFolded, found-IsFolded, lower_optional-lowered, IsIdentified, IsSuccessor,
  successor-IsIdentified, added-IsIdentified, display_name_cases, email_cases, username_cases,
  available_email, available_name,
}

abbrev IsIdentifiedStore : Platform → Store → Type 0
IsIdentifiedStore p s = IsIdentified p s.users

-- A user takes no value from another by staying as it is.
old-IsSuccessor :
    (p : Platform) (users : List User) (old : User)
    → IsIdentified p users
    → IsFolded p old
    → IsSuccessor p users old old
old-IsSuccessor p users old v folded = record {
  same_id = refl;
  email = λ e h. rw h (v.emails e);
  name = λ n full h. rw h (v.names n full);
  folded = folded;
}

is_text-eq : (name : Option String) (n : String) → is_text name n ≡ true → name ≡ some n
is_text-eq none n h = cc
is_text-eq (some name) n h = rw ((eq_iff _ _).0 h) refl

-- Creating a user, with an id new to the table, keeps users apart, whether it succeeds or not: ids
-- are unique, and no two users have the same address, or the same name, without regard to case.
pub create_user-IsIdentified :
    (p : Platform) (input : AdminCreateUserInput) (context : AdminMutationContext) (ulid : String)
    (s : Store)
    → IsIdentified p s.users
    → IsFresh id_of (prefixed_ulid p "usr" ulid) s.users
    → IsIdentified p (create_user p input context ulid s).1.users
unfolding create_user record_event
create_user-IsIdentified p input context ulid s v fresh =
    elim (Result-cases (normalize_required input.email "email")) [
      | inl (x, e) ↦ rw e v
      | inr (email, e) ↦ elim (available_email (p.to_lower_case email) s.users) [
        | inl (x, e') ↦ rw (e, e') v
        | inr (free, e') ↦
            elim (available_name (lower_optional p (normalize_optional input.username)) s.users) [
              | inl (x, e'') ↦ rw (e, e', e'') v
              | inr (free_name', e'') ↦
                  elim (Result-cases (normalize_required input.display_name "displayName")) [
                    | inl (x, d) ↦ rw (e, e', e'', d) v
                    | inr (name, d) ↦
                        rw (e, e', e'', d)
                          (added-IsIdentified p (created_user p input ulid email name) s.users v
                            fresh
                            (record {
                              address = refl;
                              name = lower_optional-lowered p (normalize_optional input.username);
                            })
                            (λ a h. rw (← (eq_iff _ _).0 h) free)
                            (λ n full h. free_name' n (is_text-eq _ n h) full))
                  ]
            ]
      ]
    ]

-- How a change of one field ends: with an exception, or with a user who takes no other's values.
abbrev Outcome : Platform → User → Store → Result User × Store → Type 0
Outcome p old s o =
    ((e : HttpException) × (o ≡ (err e, s)))
    ⊎ ((u : User) × IsSuccessor p s.users old u × (o ≡ (ok u, s)))

update_found-IsIdentified :
    (p : Platform) (user_id : String) (input : AdminUpdateUserInput)
    (context : AdminMutationContext) (s : Store) (old : User)
    → IsIdentified p s.users
    → find_one (λ u. u.id == user_id) s.users ≡ some old
    → IsIdentifiedStore p (update_found p input context old s).1
unfolding record_event
update_found-IsIdentified p user_id input context s old v found =
    elim (email_cases p old s (Outcome p old s) refused kept old
      (old-IsSuccessor p s.users old v (found-IsFolded p user_id s.users old v found))
      input.email) [
        | inl (x, e) ↦ rw e v
        | inr (u, z, e) ↦
            elim (display_name_cases p old s (Outcome p old s) refused kept u z
              input.display_name) [
                | inl (x, e') ↦ rw (e, e') v
                | inr (u', z', e') ↦
                    elim (username_cases p old s (Outcome p old s) refused kept u' z'
                      input.username) [
                        | inl (x, e'') ↦ rw (e, e', e'') v
                        | inr (u'', z'', e'') ↦
                            rw (e, e', e'')
                              (successor-IsIdentified p user_id old _ s.users v found (record {
                                same_id = z''.same_id;
                                email = z''.email;
                                name = z''.name;
                                folded = record {
                                  address = z''.folded.address;
                                  name = z''.folded.name;
                                };
                              }))
                      ]
              ]
      ]
  where
    refused : (e : HttpException) → Outcome p old s (err e, s)
    refused e = inl (e, refl)

    kept : (u : User) → IsSuccessor p s.users old u → Outcome p old s (ok u, s)
    kept u z = inr (u, z, refl)

-- Changing a user keeps users apart, whether it succeeds or not: ids are unique, and no two users
-- have the same address, or the same name, without regard to case.
pub update_user-IsIdentified :
    (p : Platform) (user_id : String) (input : AdminUpdateUserInput)
    (context : AdminMutationContext) (s : Store)
    → IsIdentified p s.users
    → IsIdentified p (update_user p user_id input context s).1.users
unfolding update_user record_event
update_user-IsIdentified p user_id input context s v =
    elim (Option-cases (find_one (λ u. u.id == user_id) s.users)) [
      | inl e ↦ rw e v
      | inr (old, e) ↦ rw e (update_found-IsIdentified p user_id input context s old v e)
    ]

with_status-IsSuccessor :
    (p : Platform) (users : List User) (old : User) (status : UserStatus) (now : ℕ)
    → IsSuccessor p users old old
    → IsSuccessor p users old (with_status old status now)
with_status-IsSuccessor p users old UserStatus.pending now z = record {
  same_id = refl;
  email = z.email;
  name = z.name;
  folded = record { address = z.folded.address; name = z.folded.name };
}
with_status-IsSuccessor p users old UserStatus.active now z = record {
  same_id = refl;
  email = z.email;
  name = z.name;
  folded = record { address = z.folded.address; name = z.folded.name };
}
with_status-IsSuccessor p users old UserStatus.suspended now z = record {
  same_id = refl;
  email = z.email;
  name = z.name;
  folded = record { address = z.folded.address; name = z.folded.name };
}
with_status-IsSuccessor p users old UserStatus.deactivated now z = record {
  same_id = refl;
  email = z.email;
  name = z.name;
  folded = record { address = z.folded.address; name = z.folded.name };
}

-- What a deactivation revokes are no users.
revoke_and_record-users :
    (u : User) (status : UserStatus) (context : AdminMutationContext) (now : ℕ) (s : Store)
    → (revoke_and_record u status context now s).1.users ≡ s.users
unfolding revoke_user_security_state close_all record_event
revoke_and_record-users u UserStatus.pending context now s = refl
revoke_and_record-users u UserStatus.active context now s = refl
revoke_and_record-users u UserStatus.suspended context now s = refl
revoke_and_record-users u UserStatus.deactivated context now s = refl

-- Setting a user's status keeps users apart: ids are unique, and no two users have the same address,
-- or the same name, without regard to case.
pub set_user_status-IsIdentified :
    (p : Platform) (user_id : String) (status : UserStatus) (context : AdminMutationContext)
    (now : ℕ) (s : Store)
    → IsIdentified p s.users
    → IsIdentified p (set_user_status user_id status context now s).1.users
unfolding set_user_status revoke_user_security_state close_all record_event
set_user_status-IsIdentified p user_id status context now s v =
    elim (Option-cases (find_one (λ u. u.id == user_id) s.users)) [
      | inl e ↦ rw e v
      | inr (old, e) ↦
          rw
            (
              e,
              revoke_and_record-users (with_status old status now) status context now
                  (save_user (with_status old status now) s),
            )
            (successor-IsIdentified p user_id old (with_status old status now) s.users v e (
              with_status-IsSuccessor p s.users old status now
                (old-IsSuccessor p s.users old v (found-IsFolded p user_id s.users old v e))))
    ]

-- One change of the users from the back office, or a change of other tables.
pub data IsUserChange (p : Platform) (s : Store) : Store → Type 0 where
  create_change :
      (input : AdminCreateUserInput) (context : AdminMutationContext) (ulid : String)
      → IsFresh id_of (prefixed_ulid p "usr" ulid) s.users
      → IsUserChange p s (create_user p input context ulid s).1
  update_change :
      (user_id : String) (input : AdminUpdateUserInput) (context : AdminMutationContext)
      → IsUserChange p s (update_user p user_id input context s).1
  status_change :
      (user_id : String) (status : UserStatus) (context : AdminMutationContext) (now : ℕ)
      → IsUserChange p s (set_user_status user_id status context now s).1
  other_change : (t : Store) → t.users ≡ s.users → IsUserChange p s t

-- In every run of user changes from the back office, in which each new user's id is new to the table,
-- users stay apart, whether the single calls succeed or not: ids are unique, the normalized address and
-- name of a user are the address and the name in lower case, and no two users have the same normalized
-- address, or the same normalized name that is not empty.
pub user_run-IsIdentified :
    (p : Platform) (s t : Store)
    → IsIdentified p s.users
    → Run (IsUserChange p) s t
    → IsIdentified p t.users
user_run-IsIdentified p s t = run_keeps (IsUserChange p) (IsIdentifiedStore p) keep s t
  where
    keep : (a b : Store) → IsIdentified p a.users → IsUserChange p a b → IsIdentified p b.users
    keep a _ v (create_change input context ulid fresh) =
        create_user-IsIdentified p input context ulid a v fresh
    keep a _ v (update_change user_id input context) =
        update_user-IsIdentified p user_id input context a v
    keep a _ v (status_change user_id status context now) =
        set_user_status-IsIdentified p user_id status context now a v
    keep a b v (other_change _ e) = subst (IsIdentified p) (sym e) v
