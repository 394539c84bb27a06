-- ===== src/Credentials/Stored.antt =====
-- What storing a password leaves behind.
use oid.Shared.{
  String, ◌==◌, eq_refl, Bool, true, ◌||◌, List, [], ◌∷◌, ◌++◌, Option, none, some, ◌≡◌, refl, ◌∙◌,
  ◌⊎◌, inl, inr, arith, Bool-cases, Option-cases, find_one, find_one-update_rows,
}
use oid.Platform.{Platform}
use oid.Store.{Store, ok, err, HttpException, unexpected, AuthAccount}
use oid.Credentials.{
  UpsertBetterAuthCredentialInput, CredentialDraw, is_credential, new_account, with_password,
  upsert_credential, store_user, store_account,
}

-- better-auth has the password for the user.
pub record IsPassword (user_id hash : String) (t : Store) : Type 0 where
  pub account : AuthAccount
  pub found : find_one (is_credential user_id) t.auth_accounts ≡ some account
  pub password : account.password ≡ some hash

-- The user's password is the new one, and other tables than those of better-auth are as they were.
pub record IsStored (user_id hash : String) (s t : Store) : Type 0 where
  pub users : t.users ≡ s.users
  pub resets : t.resets ≡ s.resets
  pub invites : t.invites ≡ s.invites
  pub credential : IsPassword user_id hash t

find_one-append :
    (q : AuthAccount → Bool) (rs : List AuthAccount) (a : AuthAccount)
    → find_one q rs ≡ none
    → q a ≡ true
    → find_one q (rs ++ a ∷ []) ≡ some a
unfolding find_one
find_one-append q [] a e h = rw h refl
find_one-append q (r ∷ rs) a e h = ground (arith, find_one-append q rs a)

module _ (p : Platform) (input : UpsertBetterAuthCredentialInput) (draw : CredentialDraw) where
  store_account-IsStored :
      (s : Store) (o : Option AuthAccount)
      → find_one (is_credential input.user_id) s.auth_accounts ≡ o
      → IsStored input.user_id
          (draw.hash_password input.password)
          s
          (store_account p input draw o s).1
  unfolding store_account
  store_account-IsStored s none e = record {
    users = refl;
    resets = refl;
    invites = refl;
    credential = record {
      account = new_account p input draw;
      found = find_one-append _ s.auth_accounts _ e (rw (eq_refl input.user_id) refl);
      password = refl;
    };
  }
  store_account-IsStored s (some a) e = record {
    users = refl;
    resets = refl;
    invites = refl;
    credential = record {
      account = with_password p input draw a;
      found =
          rw
            (find_one-update_rows (is_credential input.user_id) (λ r. r.id == a.id)
              (with_password p input draw) (λ r. refl) s.auth_accounts e)
            (rw (eq_refl a.id) refl);
      password = refl;
    };
  }

  store_account-ok :
      (s : Store) (o : Option AuthAccount) → (store_account p input draw o s).0 ≡ ok tt
  unfolding store_account
  store_account-ok s none = refl
  store_account-ok s (some a) = refl

  -- What was done to the table "user" before.
  after_user-IsStored :
      (s t u : Store)
      → t.users ≡ s.users
      → t.resets ≡ s.resets
      → t.invites ≡ s.invites
      → IsStored input.user_id (draw.hash_password input.password) t u
      → IsStored input.user_id (draw.hash_password input.password) s u
  after_user-IsStored s t u a b c z = record {
    users = z.users ∙ a;
    resets = z.resets ∙ b;
    invites = z.invites ∙ c;
    credential = z.credential;
  }

  pub upsert_outcome :
      (s : Store)
      → ((e : HttpException) × ((upsert_credential p input draw s).0 ≡ err e))
        ⊎ (((upsert_credential p input draw s).0 ≡ ok tt)
            × IsStored input.user_id
                (draw.hash_password input.password)
                s
                (upsert_credential p input draw s).1)
  unfolding upsert_credential store_user store_account
  upsert_outcome s = elim (Bool-cases draw.tables_exist) [
    | inr t ↦ inl (unexpected, rw t refl)
    | inl t ↦
        elim (Option-cases (
          find_one (λ r. r.id == input.user_id || r.email == p.to_lower_case input.email)
            s.auth_users)) [
              | inl e ↦ inr (
                rw (t, e) (store_account-ok _ _),
                rw (t, e)
                    (after_user-IsStored s _ _ refl refl refl (store_account-IsStored _ _ refl)),
              )
              | inr (u, e) ↦ elim (Bool-cases (u.id == input.user_id)) [
                | inr m ↦ inl (unexpected, rw (t, e, m) refl)
                | inl m ↦ inr (
                  rw (t, e, m) (store_account-ok _ _),
                  rw (t, e, m)
                      (after_user-IsStored s _ _ refl refl refl (store_account-IsStored _ _ refl)),
                )
              ]
            ]
  ]
