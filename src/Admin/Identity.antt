-- ===== src/Admin/Identity.antt =====
-- The e-mail addresses and names of users under changes from the back office.
use oid.Shared.{
  All, All-save, Bool, [], ◌∷◌, ◌≤◌, String, ◌==◌, eq_iff, true, false, is_empty, List, Option,
  none, some, ◌≡◌, subst, refl, inl, inr, Bool-cases, Option-cases, arith, bit, find_one, count,
  save, HasUniqueKeys, IsFresh, save-HasUniqueKeys, count-none, IsClaim, claim-save,
  claim-save_fresh, ◌⊎◌,
}
use oid.Platform.{Platform}
use oid.Store.{Store, Result, ok, err, conflict, HttpException, Result-cases, User}
use oid.Admin.Common.{normalize_required, normalize_optional}
use oid.Admin.Users.{
  has_email, has_username, assert_email_available, assert_username_available, update_display_name,
  is_text, same_username, lower_optional, update_email, update_username,
}

abbrev pub id_of : User → String
id_of u = u.id

-- A name in lower case, if there is one.
abbrev pub lowered : Platform → Option String → Option String
lowered p none = none
lowered p (some name) = some (p.to_lower_case name)

pub lower_optional-lowered :
    (p : Platform) (name : Option String) → lower_optional p name ≡ lowered p name
lower_optional-lowered p none = refl
lower_optional-lowered p (some name) = refl

-- The normalized columns are the user's address and name in lower case.
pub record IsFolded (p : Platform) (u : User) : Type 0 where
  pub address : u.normalized_email ≡ p.to_lower_case u.email
  pub name : u.normalized_username ≡ lowered p u.username

-- Ids are unique, the normalized columns are the addresses and names in lower case, and no two users have
-- the same normalized address, or the same normalized name that is not empty.
pub record IsIdentified (p : Platform) (users : List User) : Type 0 where
  pub unique : HasUniqueKeys id_of users
  pub emails : (email : String) → count (has_email email) users ≤ 1
  pub names : (name : String) → is_empty name ≡ false → count (has_username name) users ≤ 1
  pub folded : All (IsFolded p) users

find_one-All :
    (P : User → Type 0) (q : User → Bool) (users : List User) (u : User)
    → All P users
    → find_one q users ≡ some u
    → P u
unfolding find_one
find_one-All P q [] u h e = cc
find_one-All P q (r ∷ rs) u (h, hs) e = elim (Bool-cases (q r)) [
  | inl t ↦ subst P (some-eq (rw t at e)) h
  | inr t ↦ find_one-All P q rs u hs (rw t at e)
]
  where
    some-eq : {a b : User} → some a ≡ some b → a ≡ b
    some-eq e = cc

pub found-IsFolded :
    (p : Platform) (user_id : String) (users : List User) (old : User)
    → IsIdentified p users
    → find_one (λ u. u.id == user_id) users ≡ some old
    → IsFolded p old
found-IsFolded p user_id users old v found =
    find_one-All (IsFolded p) (λ u. u.id == user_id) users old v.folded found

pub record IsSuccessor (p : Platform) (users : List User) (old new : User) : Type 0 where
  pub same_id : new.id ≡ old.id
  pub email : (e : String) → IsClaim (has_email e) users old new
  pub name : (n : String) → is_empty n ≡ false → IsClaim (has_username n) users old new
  pub folded : IsFolded p new

pub successor-IsIdentified :
    (p : Platform) (user_id : String) (old new : User) (users : List User)
    → IsIdentified p users
    → find_one (λ u. u.id == user_id) users ≡ some old
    → IsSuccessor p users old new
    → IsIdentified p (save id_of new users)
successor-IsIdentified p user_id old new users v found z = record {
  unique = save-HasUniqueKeys id_of new users v.unique;
  emails = λ e.
      claim-save id_of (has_email e) (λ u. u.id == user_id) old new users v.unique found z.same_id
        (v.emails e) (z.email e);
  names = λ n full.
      claim-save id_of (has_username n) (λ u. u.id == user_id) old new users v.unique found
        z.same_id (v.names n full) (z.name n full);
  folded = All-save id_of (IsFolded p) new users z.folded v.folded;
}

pub added-IsIdentified :
    (p : Platform) (new : User) (users : List User)
    → IsIdentified p users
    → IsFresh id_of new.id users
    → IsFolded p new
    → ((e : String) → has_email e new ≡ true → count (has_email e) users ≡ 0)
    → ((n : String)
        → is_empty n ≡ false
        → has_username n new ≡ true
        → count (has_username n) users ≡ 0)
    → IsIdentified p (save id_of new users)
added-IsIdentified p new users v fresh folded email name = record {
  unique = save-HasUniqueKeys id_of new users v.unique;
  emails = λ e. claim-save_fresh id_of (has_email e) new users fresh (v.emails e) (email e);
  names = λ n full.
      claim-save_fresh id_of (has_username n) new users fresh (v.names n full) (name n full);
  folded = All-save id_of (IsFolded p) new users folded v.folded;
}

pub available_email :
    (email : String) (users : List User)
    → ((x : HttpException) × (assert_email_available email users ≡ err x))
      ⊎ ((count (has_email email) users ≡ 0) × (assert_email_available email users ≡ ok tt))
unfolding assert_email_available
available_email email users = elim (Option-cases (find_one (has_email email) users)) [
  | inl e ↦ inr (count-none _ users e, rw e refl)
  | inr (u, e) ↦ inl (conflict "Email is already in use.", rw e refl)
]

pub available_name :
    (name : Option String) (users : List User)
    → ((x : HttpException) × (assert_username_available name users ≡ err x))
      ⊎ (((n : String) → name ≡ some n → is_empty n ≡ false → count (has_username n) users ≡ 0)
          × (assert_username_available name users ≡ ok tt))
unfolding assert_username_available
available_name none users = inr (λ n e. cc, refl)
available_name (some name) users = elim (Bool-cases (is_empty name)) [
  | inl e ↦ inr (λ n same full. absurd (full_name (some_lem same) e full), rw e refl)
  | inr e ↦ elim (Option-cases (find_one (has_username name) users)) [
    | inl e' ↦ inr (λ n same full. rw (← some_lem same) (count-none _ users e'), rw (e, e') refl)
    | inr (u, e') ↦ inl (conflict "Username is already in use.", rw (e, e') refl)
  ]
]
  where
    some_lem : {a b : String} → some a ≡ some b → a ≡ b
    some_lem e = cc

    full_name : {a b : String} → a ≡ b → is_empty a ≡ true → is_empty b ≡ false → ⊥
    full_name same e full = true-≢-false (rw (same, full) at e)
      where
        true-≢-false : false ≡ true → ⊥
        true-≢-false e = cc

same_username-eq : (p : Platform) (a b : Option String) → same_username p a b ≡ true → a ≡ b
same_username-eq p none none e = refl
same_username-eq p (some a) (some b) e = rw ((eq_iff a b).0 e) refl
same_username-eq p none (some b) e = cc
same_username-eq p (some a) none e = cc

-- A free name may be taken.
pub free_name :
    (name : Option String) (users : List User) (old : User)
    → ((n : String) → name ≡ some n → is_empty n ≡ false → count (has_username n) users ≡ 0)
    → (n : String) → is_empty n ≡ false
    → is_text name n ≡ true
    → count (has_username n) users ≤ bit (has_username n old)
free_name none users old free n full h = cc
free_name (some name) users old free n full h =
    rw (free n (rw ((eq_iff _ _).0 h) refl) full) (omega arith)

module _ (p : Platform) (old : User) (s : Store) (P : Result User × Store → Type 0)
    (refused : (e : HttpException) → P (err e, s))
    (updated : (u : User) → IsSuccessor p s.users old u → P (ok u, s)) (u : User)
    (z : IsSuccessor p s.users old u) where
  pub display_name_cases : (value : Option String) → P (update_display_name value u s)
  unfolding update_display_name
  display_name_cases none = updated u z
  display_name_cases (some value) = elim (Result-cases (normalize_required value "displayName")) [
    | inl (x, e) ↦ rw e (refused x)
    | inr (name, e) ↦ rw e (
        updated _ (record {
          same_id = z.same_id;
          email = z.email;
          name = z.name;
          folded = record { address = z.folded.address; name = z.folded.name };
        }))
  ]

  pub email_cases : (value : Option String) → P (update_email p value u s)
  unfolding update_email
  email_cases none = updated u z
  email_cases (some value) = elim (Result-cases (normalize_required value "email")) [
    | inl (x, e) ↦ rw e (refused x)
    | inr (email, e) ↦ elim (Bool-cases (p.to_lower_case email == u.normalized_email)) [
      | inl same ↦
          rw (e, same)
            (updated _ (record {
              same_id = z.same_id;
              email = λ a h. z.email a (rw (← (eq_iff _ _).0 same) h);
              name = z.name;
              folded = record { address = refl; name = z.folded.name };
            }))
      | inr other ↦ elim (available_email (p.to_lower_case email) s.users) [
        | inl (x, e') ↦ rw (e, other, e') (refused x)
        | inr (free, e') ↦
            rw (e, other, e')
              (updated _ (record {
                same_id = z.same_id;
                email = λ a h. rw (← (eq_iff _ _).0 h, free) (omega arith);
                name = z.name;
                folded = record { address = refl; name = z.folded.name };
              }))
      ]
    ]
  ]

  pub username_cases : (value : Option (Option String)) → P (update_username p value u s)
  unfolding update_username
  username_cases none = updated u z
  username_cases (some value) =
      let name = lower_optional p (normalize_optional value) in
      elim (Bool-cases (same_username p name u.normalized_username)) [
        | inl same ↦ rw same (
            updated _ (record {
              same_id = z.same_id;
              email = z.email;
              name = λ n full h. z.name n full (
                  subst (λ m. is_text m n ≡ true)
                    (same_username-eq p name u.normalized_username same) h);
              folded = record {
                address = z.folded.address;
                name = lower_optional-lowered p (normalize_optional value);
              };
            }))
        | inr other ↦ elim (available_name name s.users) [
          | inl (x, e) ↦ rw (other, e) (refused x)
          | inr (free, e) ↦
              rw (other, e)
                (updated _ (record {
                  same_id = z.same_id;
                  email = z.email;
                  name = free_name name s.users old free;
                  folded = record {
                    address = z.folded.address;
                    name = lower_optional-lowered p (normalize_optional value);
                  };
                }))
        ]
      ]
