-- ===== src/Credentials.antt =====
-- better-auth/better-auth-credential.ts: the password of a user, in the tables of better-auth.
-- What hashPassword makes of a password, what ulid draws, and whether the two tables exist are arguments. The
-- tables' own constraints of uniqueness are not modelled.
pub mod Stored
use oid.Shared.{
  String, ◌==◌, Bool, true, false, ◌&&◌, ◌||◌, List, [], ◌∷◌, ◌++◌, Option, none, some, find_one,
  update_rows, if◌then◌else◌,
}
use oid.Platform.{Platform, prefixed_ulid}
use oid.Store.{
  Store, Action, ok, err, pure, gets, lift, modify, require, ◌>>=◌, ◌>>◌, unexpected, AuthUser,
  AuthAccount,
}

pub record UpsertBetterAuthCredentialInput : Type 0 where
  pub user_id : String
  pub email : String
  pub display_name : String
  pub password : String

-- What the call gets from outside; `hash_password` is hashPassword with the salt that it draws.
pub record CredentialDraw : Type 0 where
  pub tables_exist : Bool
  pub hash_password : String → String
  pub account_ulid : String

abbrev insert_user : AuthUser → Action (Unit {0})
insert_user u = modify (λ s. record s { auth_users = s.auth_users ++ u ∷ [] })

abbrev rename_user : String → String → String → AuthUser → AuthUser
rename_user id name email r = record r { name = name; email = email }

abbrev pub is_credential : String → AuthAccount → Bool
is_credential user_id a = a.user_id == user_id && a.provider_id == "credential"

module _ (p : Platform) (input : UpsertBetterAuthCredentialInput) (draw : CredentialDraw) where
  abbrev pub new_account : AuthAccount
  new_account = record {
    id = prefixed_ulid p "bac" draw.account_ulid;
    account_id = input.user_id;
    provider_id = "credential";
    user_id = input.user_id;
    password = some (draw.hash_password input.password);
  }

  -- A row that exists is changed before its id is compared.
  store_user : Option AuthUser → Action (Unit {0})
  store_user none = insert_user (record {
    id = input.user_id;
    name = input.display_name;
    email = p.to_lower_case input.email;
    email_verified = false;
  })
  store_user (some existing) = do
    modify (λ s. record s {
      auth_users =
          update_rows (λ r. r.id == existing.id)
            (rename_user existing.id input.display_name (p.to_lower_case input.email)) s.auth_users;
    })
    lift (require (existing.id == input.user_id) unexpected)

  abbrev pub with_password : AuthAccount → AuthAccount
  with_password a = record a {
    account_id = input.user_id;
    password = some (draw.hash_password input.password);
  }

  store_account : Option AuthAccount → Action (Unit {0})
  store_account none =
      modify (λ s. record s { auth_accounts = s.auth_accounts ++ new_account ∷ [] })
  store_account (some existing) = modify (λ s. record s {
    auth_accounts = update_rows (λ r. r.id == existing.id) with_password s.auth_accounts;
  })

  unfoldable pub upsert_credential : Action (Unit {0})
  unfolding store_user store_account
  upsert_credential = do
    lift (require draw.tables_exist unexpected)
    found_user ← gets (λ s.
        find_one (λ r. r.id == input.user_id || r.email == p.to_lower_case input.email)
          s.auth_users)
    store_user found_user
    found_account ← gets (λ s. find_one (is_credential input.user_id) s.auth_accounts)
    store_account found_account
