-- ===== src/Store/Calls.antt =====
-- A call of a service: it reads and writes the tables, and returns or throws. What a call wrote
-- before it threw stays written, unless a transaction takes it back.
use oid.Shared.{◌≡◌, refl, ◌⊎◌, inl, inr, String, Bool, true, false, List, Option, none, some}
use oid.Store.Entities.{
  User, Client, RedirectUri, ProviderSession, AuthorizationCode, RefreshToken, SigningKey,
  AuditEvent, Group, Membership, PostLogoutUri, UserInvite, PasswordReset, AuthUser, AuthAccount,
}

pub record Store : Type 0 where
  pub users : List User
  pub clients : List Client
  pub redirect_uris : List RedirectUri
  pub sessions : List ProviderSession
  pub codes : List AuthorizationCode
  pub refresh_tokens : List RefreshToken
  pub signing_keys : List SigningKey
  pub audit_events : List AuditEvent
  pub groups : List Group
  pub memberships : List Membership
  pub post_logout_uris : List PostLogoutUri
  pub invites : List UserInvite
  pub resets : List PasswordReset
  pub auth_users : List AuthUser
  pub auth_accounts : List AuthAccount

-- The exceptions of @nestjs/common that the services throw, with their messages.
pub data HttpException : Type 0 where
  bad_request : String → HttpException
  unauthorized : String → HttpException
  forbidden : String → HttpException
  not_found : String → HttpException
  conflict : String → HttpException
  too_many_requests : String → HttpException
  internal_server_error : String → HttpException
  -- An exception of the language or of a library, which the filters answer as a status 500.
  unexpected : HttpException

pub data Result {ℓ} (A : Type ℓ) : Type ℓ where
  ok : A → Result A
  err : HttpException → Result A

abbrev pub Action : Type 0 → Type 0
Action A = Store → Result A × Store

module _ {A : Type 0} where
  abbrev pub pure : A → Action A
  pure a s = (ok a, s)

  abbrev pub throw : HttpException → Action A
  throw e s = (err e, s)

  abbrev pub gets : (Store → A) → Action A
  gets f s = (ok (f s), s)

  abbrev pub lift : Result A → Action A
  lift r s = (r, s)

  -- `if (!value) throw e`
  abbrev pub or_throw : Option A → HttpException → Result A
  or_throw none e = err e
  or_throw (some a) e = ok a

abbrev pub modify : (Store → Store) → Action (Unit {0})
modify f s = (ok tt, f s)

-- `if (!test) throw e`
abbrev pub require : Bool → HttpException → Result (Unit {0})
require true e = ok tt
require false e = err e

-- What follows a call runs only if the call returned.
abbrev pub and_then : {A B : Type 0} → Result A → Store → (A → Action B) → Result B × Store
and_then (ok a) t f = f a t
and_then (err e) t f = (err e, t)

infixl 5 ◌>>=◌ ◌>>◌
abbrev pub ◌>>=◌ : {A B : Type 0} → Action A → (A → Action B) → Action B
◌>>=◌ m f s = and_then (m s).0 (m s).1 f

abbrev pub ◌>>◌ : {A B : Type 0} → Action A → Action B → Action B
m >> k = m >>= λ _. k

-- The tables after a transaction that ended with the given result.
abbrev pub end_transaction : {A : Type 0} → (Store → Store) → Result A → Store → Result A × Store
end_transaction rollback (ok a) t = (ok a, t)
end_transaction rollback (err e) t = (err e, rollback t)

-- `dataSource.transaction`: on a throw, `restore before after` takes back the tables that the
-- callback writes through its manager. Other writes of the callback run outside the transaction.
abbrev pub transaction : {A : Type 0} → (Store → Store → Store) → Action A → Action A
transaction restore m s = end_transaction (restore s) (m s).0 (m s).1

pub Result-cases {ℓ} :
    {A : Type ℓ} (r : Result A) → ((e : HttpException) × (r ≡ err e)) ⊎ ((a : A) × (r ≡ ok a))
Result-cases (ok a) = inr (a, refl)
Result-cases (err e) = inl (e, refl)
