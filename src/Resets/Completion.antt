-- ===== src/Resets/Completion.antt =====
-- What a password reset does, and that its link works once.
use oid.Shared.{
  ℕ, ◌<◌, String, ◌==◌, false, leb, leb→lt, ltb, is_empty, utf16_length, none, some, ◌≡◌, refl, ◌⊎◌,
  inl, inr, Bool-cases, Option-cases, find_one, find_one-passes, find_one-save_self, HasUniqueKeys,
}
use oid.Platform.{Platform, hash_secret}
use oid.Store.{
  Store, Result, ok, err, HttpException, unexpected, User, UserStatus, is_active_user,
  PasswordReset,
}
use oid.Store.Statuses.{is_active_user-eq}
use oid.Audit.{record_event}
use oid.Closing.{close_all}
use oid.Closing.Effect.{IsClosedTo, close_all-IsClosedTo}
use oid.Credentials.{CredentialDraw, upsert_credential}
use oid.Credentials.Stored.{IsPassword, IsStored, upsert_outcome}
use oid.Resets.{
  PasswordResetRequestContext, generic_reset_error, assert_valid_reset, resolve_valid_reset,
  credential_of, finish_reset, reset_password, save_reset,
}

abbrev pub id_of : PasswordReset → String
id_of r = r.id

-- A link that works: it stands for a reset that is neither used, superseded nor expired, of an active
-- user.
pub record IsValidReset (p : Platform) (token : String) (now : ℕ) (s : Store)
    (reset : PasswordReset) (user : User) : Type 0 where
  pub full : is_empty token ≡ false
  pub found : find_one (λ r. r.token_hash == hash_secret p token) s.resets ≡ some reset
  pub unused : reset.consumed_at ≡ none
  pub newest : reset.revoked_at ≡ none
  pub unexpired : now < reset.expires_at
  pub user_found : find_one (λ u. u.id == reset.user_id) s.users ≡ some user
  pub is_active : user.status ≡ UserStatus.active

assert_valid_cases :
    (r : PasswordReset) (now : ℕ)
    → (assert_valid_reset r now ≡ err generic_reset_error)
      ⊎ ((r.revoked_at ≡ none)
          × (r.consumed_at ≡ none)
          × (now < r.expires_at)
          × (assert_valid_reset r now ≡ ok tt))
assert_valid_cases r now = elim (Option-cases r.revoked_at) [
  | inr (at, e) ↦ inl (rw e refl)
  | inl e ↦ elim (Option-cases r.consumed_at) [
    | inr (at, e') ↦ inl (rw (e, e') refl)
    | inl e' ↦ elim (Bool-cases (leb r.expires_at now)) [
      | inl e'' ↦ inl (rw (e, e', e'') refl)
      | inr e'' ↦ inr (e, e', leb→lt _ _ e'', rw (e, e', e'') refl)
    ]
  ]
]

module _ (p : Platform) (token : String) (now : ℕ) (s : Store) where
  abbrev Outcome : Type 0
  Outcome =
      ((e : HttpException) × (resolve_valid_reset p token now s ≡ (err e, s)))
      ⊎ ((r : PasswordReset) × (u : User) × IsValidReset p token now s r u
          × (resolve_valid_reset p token now s ≡ (ok (r, u), s)))

  pub resolve_outcome : Outcome
  unfolding resolve_valid_reset
  resolve_outcome = elim (Bool-cases (is_empty token)) [
    | inl t ↦ inl (generic_reset_error, rw t refl)
    | inr t ↦ elim (Option-cases (find_one (λ r. r.token_hash == hash_secret p token) s.resets)) [
      | inl e ↦ inl (generic_reset_error, rw (t, e) refl)
      | inr (r, e) ↦ elim (assert_valid_cases r now) [
        | inl e' ↦ inl (generic_reset_error, rw (t, e, e') refl)
        | inr (newest, unused, unexpired, e') ↦
            elim (Option-cases (find_one (λ u. u.id == r.user_id) s.users)) [
              | inl u ↦ inl (unexpected, rw (t, e, e', u) refl)
              | inr (u, e'') ↦ elim (Bool-cases (is_active_user u.status)) [
                | inr a ↦ inl (generic_reset_error, rw (t, e, e', e'', a) refl)
                | inl a ↦ inr (
                  r,
                  u,
                  record {
                    full = t;
                    found = e;
                    unused = unused;
                    newest = newest;
                    unexpired = unexpired;
                    user_found = e'';
                    is_active = is_active_user-eq u.status a;
                  },
                  rw (t, e, e', e'', a) refl,
                )
              ]
            ]
      ]
    ]
  ]

-- What a reset that returned has done.
pub record IsReset (p : Platform) (token hash : String) (now : ℕ) (s t : Store) : Type 0 where
  pub reset : PasswordReset
  pub user : User
  pub valid : IsValidReset p token now s reset user
  pub stored : IsPassword user.id hash t
  pub closed : IsClosedTo user.id t
  pub spent : (later : ℕ) → resolve_valid_reset p token later t ≡ (err generic_reset_error, t)

spent_token :
    (p : Platform) (token : String) (now later : ℕ) (s t : Store) (r : PasswordReset)
    → HasUniqueKeys id_of s.resets
    → is_empty token ≡ false
    → find_one (λ r. r.token_hash == hash_secret p token) s.resets ≡ some r
    → t.resets ≡ (save_reset (record r { consumed_at = some now }) s).resets
    → resolve_valid_reset p token later t ≡ (err generic_reset_error, t)
unfolding resolve_valid_reset
spent_token p token now later s t r unique full found same =
    let hashed = λ (x : PasswordReset). x.token_hash == hash_secret p token in
    let used = record r { consumed_at = some now } in
    let found_used =
      find_one-save_self id_of hashed r used s.resets unique found refl
        (find_one-passes hashed s.resets found) in
    elim (Option-cases r.revoked_at) [
      | inl e ↦ rw (full, same, found_used, e) refl
      | inr (at, e) ↦ rw (full, same, found_used, e) refl
    ]

finished-IsReset :
    (p : Platform) (token password : String) (context : PasswordResetRequestContext)
    (draw : CredentialDraw) (now : ℕ) (s : Store) (r : PasswordReset) (u : User)
    → HasUniqueKeys id_of s.resets
    → IsValidReset p token now s r u
    → (upsert_credential p (credential_of p u password) draw s).0 ≡ ok tt
    → IsStored u.id
        (draw.hash_password password)
        s
        (upsert_credential p (credential_of p u password) draw s).1
    → ((finish_reset p r u password context draw now s).0 ≡ ok tt)
      × IsReset p token
          (draw.hash_password password)
          now
          s
          (finish_reset p r u password context draw now s).1
unfolding close_all record_event
finished-IsReset p token password context draw now s r u unique v returned stored =
    let t = (upsert_credential p (credential_of p u password) draw s).1 in
    let saved = save_reset (record r { consumed_at = some now }) t in
    let closed = close_all-IsClosedTo u.id now "password_reset" saved in
    rw returned (
      refl,
      record {
        reset = r;
        user = u;
        valid = v;
        stored = record {
          account = stored.credential.account;
          found = stored.credential.found;
          password = stored.credential.password;
        };
        closed = record { sessions = closed.sessions; tokens = closed.tokens };
        spent = λ later.
            spent_token p token now later s _ r unique v.full v.found (rw stored.resets refl);
      },
    )

-- A password reset that returned had a working link: its row was neither used, superseded nor expired,
-- and its user active. Where the ids of resets are unique, afterwards better-auth has the hash
-- of the submitted password as that user's, all of the user's sessions and refresh tokens are revoked, and the link is refused
-- at any later time.
pub reset_password-IsReset :
    (p : Platform) (token password : String) (context : PasswordResetRequestContext)
    (draw : CredentialDraw) (now : ℕ) (s : Store)
    → HasUniqueKeys id_of s.resets
    → (reset_password p token password context draw now s).0 ≡ ok tt
    → IsReset p token
        (draw.hash_password password)
        now
        s
        (reset_password p token password context draw now s).1
unfolding reset_password
reset_password-IsReset p token password context draw now s unique h =
    elim (resolve_outcome p token now s) [
      | inl (x, e) ↦ absurd (err-≢-ok (rw e at h))
      | inr (r, u, v, e) ↦ elim (Bool-cases (ltb (utf16_length password) 8)) [
        | inl e' ↦ absurd (err-≢-ok (rw (e, e') at h))
        | inr e' ↦ elim (upsert_outcome p (credential_of p u password) draw s) [
          | inl (x, e'') ↦ absurd (err-≢-ok (rw (e, e', e'') at h))
          | inr (returned, stored) ↦
              rw (e, e')
                (finished-IsReset p token password context draw now s r u unique v returned
                  stored).1
        ]
      ]
    ]
  where
    err-≢-ok : {x : HttpException} → ◌≡◌ {A = Result (Unit {0})} (err x) (ok tt) → ⊥
    err-≢-ok e = cc
