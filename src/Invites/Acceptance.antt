-- ===== src/Invites/Acceptance.antt =====
-- What accepting an invite does, and that its link works once.
use oid.Shared.{
  ap, Option, is_some, if◌then◌else◌, ℕ, ◌<◌, String, ◌==◌, false, leb, leb→lt, ltb, is_empty,
  utf16_length, none, some, ◌≡◌, ◌∙◌, refl, ◌⊎◌, inl, inr, Bool-cases, Option-cases, find_one,
  find_one-passes, find_one-save_self, HasUniqueKeys,
}
use oid.Platform.{Platform, hash_secret}
use oid.Store.{Store, Result, ok, err, HttpException, unexpected, User, UserInvite, UserStatus}
use oid.Audit.{record_event}
use oid.Credentials.{CredentialDraw, upsert_credential}
use oid.Credentials.Stored.{IsPassword, IsStored, upsert_outcome}
use oid.Resets.{PasswordResetRequestContext, credential_of}
use oid.Invites.{
  invalid_invite, assert_valid_invite, is_pending, accepted_user, resolve_valid_invite,
  finish_accept, accept_invite, save_invite, save_if_changed,
}

abbrev pub id_of : UserInvite → String
id_of r = r.id

abbrev pub user_id_of : User → String
user_id_of u = u.id

-- A link that works: it stands for an invite that is neither used, superseded nor expired.
pub record IsValidInvite (p : Platform) (token : String) (now : ℕ) (s : Store) (invite : UserInvite)
    (user : User) : Type 0 where
  pub full : is_empty token ≡ false
  pub found : find_one (λ r. r.token_hash == hash_secret p token) s.invites ≡ some invite
  pub unused : invite.consumed_at ≡ none
  pub newest : invite.revoked_at ≡ none
  pub unexpired : now < invite.expires_at
  pub user_found : find_one (λ u. u.id == invite.user_id) s.users ≡ some user

valid_cases :
    (r : UserInvite) (now : ℕ)
    → (assert_valid_invite r now ≡ err invalid_invite)
      ⊎ ((r.revoked_at ≡ none)
          × (r.consumed_at ≡ none)
          × (now < r.expires_at)
          × (assert_valid_invite r now ≡ ok tt))
valid_cases r now = elim (Option-cases r.revoked_at) [
  | inr (at, e) ↦ inl (rw e refl)
  | inl e ↦ elim (Option-cases r.consumed_at) [
    | inr (at, e') ↦ inl (rw (e, e') refl)
    | inl e' ↦ elim (Bool-cases (leb r.expires_at now)) [
      | inl e'' ↦ inl (rw (e, e', e'') refl)
      | inr e'' ↦ inr (e, e', leb→lt _ _ e'', rw (e, e', e'') refl)
    ]
  ]
]

module _ (p : Platform) (token : String) (now : ℕ) (s : Store) where
  abbrev Outcome : Type 0
  Outcome =
      ((e : HttpException) × (resolve_valid_invite p token now s ≡ (err e, s)))
      ⊎ ((r : UserInvite) × (u : User) × IsValidInvite p token now s r u
          × (resolve_valid_invite p token now s ≡ (ok (r, u), s)))

  resolve_outcome : Outcome
  unfolding resolve_valid_invite
  resolve_outcome = elim (Bool-cases (is_empty token)) [
    | inl t ↦ inl (invalid_invite, rw t refl)
    | inr t ↦ elim (Option-cases (find_one (λ r. r.token_hash == hash_secret p token) s.invites)) [
      | inl e ↦ inl (invalid_invite, rw (t, e) refl)
      | inr (r, e) ↦ elim (valid_cases r now) [
        | inl e' ↦ inl (invalid_invite, rw (t, e, e') refl)
        | inr (newest, unused, unexpired, e') ↦
            elim (Option-cases (find_one (λ u. u.id == r.user_id) s.users)) [
              | inl u ↦ inl (unexpected, rw (t, e, e', u) refl)
              | inr (u, e'') ↦ inr (
                r,
                u,
                record {
                  full = t;
                  found = e;
                  unused = unused;
                  newest = newest;
                  unexpired = unexpired;
                  user_found = e'';
                },
                rw (t, e, e', e'') refl,
              )
            ]
      ]
    ]
  ]

abbrev pub accepted_status : UserStatus → UserStatus
accepted_status UserStatus.pending = UserStatus.active
accepted_status UserStatus.active = UserStatus.active
accepted_status UserStatus.suspended = UserStatus.suspended
accepted_status UserStatus.deactivated = UserStatus.deactivated

-- An address that was verified before keeps its time.
abbrev pub verified_at : Option ℕ → ℕ → Option ℕ
verified_at none now = some now
verified_at (some at) now = some at

-- The row of a user who accepted: active, if it was pending, and with a verified address.
abbrev pub accepted_row : User → ℕ → User
accepted_row user now = record user {
  status = accepted_status user.status;
  email_verified_at = verified_at user.email_verified_at now;
}

accepted_status_lem :
    (status : UserStatus)
    → (if is_pending status then UserStatus.active else status) ≡ accepted_status status
accepted_status_lem UserStatus.pending = refl
accepted_status_lem UserStatus.active = refl
accepted_status_lem UserStatus.suspended = refl
accepted_status_lem UserStatus.deactivated = refl

verified_at_lem :
    (at : Option ℕ) (now : ℕ) → (if is_some at then at else some now) ≡ verified_at at now
verified_at_lem none now = refl
verified_at_lem (some at) now = refl

accepted_user_lem : (user : User) (now : ℕ) → accepted_user user now ≡ accepted_row user now
unfolding accepted_user
accepted_user_lem user now =
    rw (accepted_status_lem user.status, verified_at_lem user.email_verified_at now) refl

-- What an acceptance that returned has done.
pub record IsAccepted (p : Platform) (token hash : String) (now : ℕ) (s t : Store) : Type 0 where
  pub invite : UserInvite
  pub user : User
  pub valid : IsValidInvite p token now s invite user
  pub stored : IsPassword user.id hash t
  pub user_stored : find_one (λ u. u.id == invite.user_id) t.users ≡ some (accepted_row user now)
  pub spent : (later : ℕ) → resolve_valid_invite p token later t ≡ (err invalid_invite, t)

spent_token :
    (p : Platform) (token : String) (now later : ℕ) (s t : Store) (r : UserInvite)
    → HasUniqueKeys id_of s.invites
    → is_empty token ≡ false
    → find_one (λ r. r.token_hash == hash_secret p token) s.invites ≡ some r
    → t.invites ≡ (save_invite (record r { consumed_at = some now }) s).invites
    → resolve_valid_invite p token later t ≡ (err invalid_invite, t)
unfolding resolve_valid_invite
spent_token p token now later s t r unique full found same =
    let hashed = λ (x : UserInvite). x.token_hash == hash_secret p token in
    let used = record r { consumed_at = some now } in
    let found_used =
      find_one-save_self id_of hashed r used s.invites unique found refl
        (find_one-passes hashed s.invites found) in
    elim (Option-cases r.revoked_at) [
      | inl e ↦ rw (full, same, found_used, e) refl
      | inr (at, e) ↦ rw (full, same, found_used, e) refl
    ]

unchanged :
    (user : User) {at : ℕ}
    → is_pending user.status ≡ false
    → user.email_verified_at ≡ some at
    → some user ≡ some (record user { status = user.status; email_verified_at = some at })
unchanged user e e' = rw (← e') refl

-- The saved user is found; a user who is not saved was as accepted before.
user_saved :
    (p : Platform) (now : ℕ) (invite : UserInvite) (user : User) (s : Store)
    → HasUniqueKeys user_id_of s.users
    → find_one (λ u. u.id == invite.user_id) s.users ≡ some user
    → let (r, t) = save_if_changed p user now s in
      (r ≡ ok tt)
      × (t.invites ≡ s.invites)
      × (t.auth_accounts ≡ s.auth_accounts)
      × (find_one (λ u. u.id == invite.user_id) t.users ≡ some (accepted_user user now))
unfolding accepted_user
user_saved p now invite user s unique found =
    let passes = find_one-passes (λ u. u.id == invite.user_id) s.users found in
    let saved =
      find_one-save_self user_id_of (λ u. u.id == invite.user_id) user (accepted_user user now)
        s.users unique found refl passes in
    elim (Bool-cases (is_pending user.status)) [
      | inl e ↦ rw e (refl, refl, refl, rw e at saved)
      | inr e ↦ elim (Option-cases user.email_verified_at) [
        | inl e' ↦ rw (e, e') (refl, refl, refl, rw (e, e') at saved)
        | inr (at, e') ↦ rw (e, e') (refl, refl, refl, found ∙ unchanged user e e')
      ]
    ]

finished-IsAccepted :
    (p : Platform) (token password : String) (context : PasswordResetRequestContext)
    (draw : CredentialDraw) (now : ℕ) (s : Store) (r : UserInvite) (u : User)
    → HasUniqueKeys id_of s.invites
    → HasUniqueKeys user_id_of s.users
    → IsValidInvite p token now s r u
    → (upsert_credential p (credential_of p u password) draw s).0 ≡ ok tt
    → IsStored u.id
        (draw.hash_password password)
        s
        (upsert_credential p (credential_of p u password) draw s).1
    → IsAccepted p token
        (draw.hash_password password)
        now
        s
        (finish_accept p r u password context draw now s).1
unfolding record_event
finished-IsAccepted p token password context draw now s r u unique unique_users v returned stored =
    let t = (upsert_credential p (credential_of p u password) draw s).1 in
    let saved = save_invite (record r { consumed_at = some now }) t in
    let (fine, same_invites, same_accounts, user_stored) =
      user_saved p now r u saved (rw stored.users unique_users) (rw stored.users v.user_found) in
    rw (returned, fine)
      (record {
        invite = r;
        user = u;
        valid = v;
        stored = record {
          account = stored.credential.account;
          found = rw same_accounts stored.credential.found;
          password = stored.credential.password;
        };
        user_stored = user_stored ∙ ap some (accepted_user_lem u now);
        spent = λ later.
            spent_token p token now later s _ r unique v.full v.found
              (rw (same_invites, stored.invites) refl);
      })

-- Accepting an invite that returned had a working link: its row was neither used, superseded nor
-- expired. Where the ids of invites and of users are unique, afterwards better-auth has the hash
-- of the submitted password as the invited user's; the user is active, if the account was pending, and has a verified address,
-- and is otherwise as before; and the link is refused at any later time.
pub accept_invite-IsAccepted :
    (p : Platform) (token password : String) (context : PasswordResetRequestContext)
    (draw : CredentialDraw) (now : ℕ) (s : Store)
    → HasUniqueKeys id_of s.invites
    → HasUniqueKeys user_id_of s.users
    → (accept_invite p token password context draw now s).0 ≡ ok tt
    → IsAccepted p token
        (draw.hash_password password)
        now
        s
        (accept_invite p token password context draw now s).1
unfolding accept_invite
accept_invite-IsAccepted p token password context draw now s unique unique_users h =
    elim (resolve_outcome p token now s) [
      | inl (x, e) ↦ absurd (err-≢-ok (rw e at h))
      | inr (r, u, v, e) ↦ elim (Bool-cases (ltb (utf16_length password) 8)) [
        | inl e' ↦ absurd (err-≢-ok (rw (e, e') at h))
        | inr e' ↦ elim (upsert_outcome p (credential_of p u password) draw s) [
          | inl (x, e'') ↦ absurd (err-≢-ok (rw (e, e', e'') at h))
          | inr (returned, stored) ↦
              rw (e, e')
                (finished-IsAccepted p token password context draw now s r u unique unique_users v
                  returned stored)
        ]
      ]
    ]
  where
    err-≢-ok : {x : HttpException} → ◌≡◌ {A = Result (Unit {0})} (err x) (ok tt) → ⊥
    err-≢-ok e = cc
