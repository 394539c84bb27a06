-- ===== src/Tokens/Successor.antt =====
-- A rotation that returns: the old token, the new one, and the client that asked for it.
use oid.Shared.{
  subst, ap, All-imp, ==-eq-false, ℕ, ◌<◌, String, ◌==◌, eq_refl, ◌≡◌, refl, sym, ◌≢◌, Option, none,
  some, All, find_one-passes, find_one-save_self, find_one-save_last, find_one-save_fresh,
  find_one-save_other, save, save-HasUniqueKeys, All-of-find_one, lt→leb,
}
use oid.Platform.{Platform, hash_secret, add_seconds}
use oid.Store.{Store, Result, ok, err, RefreshToken, Client}
use oid.Audit.{record_event}
use oid.Tokens.Model.{
  Fresh, IssueResult, RotateInput, RotateForClientInput, RotateForClientResult, checked,
  assert_token_is_usable,
}
use oid.Tokens.Service.{
  find_token, replace_token, rotate_token, rotated_away, successor_of, issue_result, present_token,
}
use oid.Tokens.ForClient.{client_summary, rotate_token_for_client}
use oid.Tokens.Family.{id_of}
use oid.Tokens.Presented.{IsUsable, settled, rotation_cases}
use oid.Tokens.Authorized.{IsAuthorized, authorized_cases, next_token}
use oid.Tokens.Invariant.{IsSoundStore, IsNewToken}
use oid.Tokens.Rotation.{IsRetired}

-- No stored token has the hash of the drawn one.
abbrev pub IsNewHash : Platform → Fresh → Store → Type 0
IsNewHash p fresh s =
    All (λ t. t.token_hash ≢ hash_secret p (p.base64url fresh.raw_bytes)) s.refresh_tokens

-- The text `raw` stands for a token that can be used until both of its expiries.
abbrev pub CanPresent : Platform → String → RefreshToken → Store → Type 0
CanPresent p raw t s =
    (later : ℕ)
    → later < t.idle_expires_at
    → later < t.absolute_expires_at
    → present_token p raw later s ≡ (ok (checked t), s)

pub can_present :
    (p : Platform) (raw : String) (t : RefreshToken) (s : Store)
    → find_token p raw s.refresh_tokens ≡ some t
    → t.rotated_to_token_id ≡ none
    → t.revoked_at ≡ none
    → CanPresent p raw t s
unfolding present_token assert_token_is_usable
can_present p raw t s found unrotated live later idle absolute =
    rw (found, unrotated, live, lt→leb _ _ idle, lt→leb _ _ absolute)

module _ (p : Platform) (fresh : Fresh) (now : ℕ) (s : Store) (v : IsSoundStore s)
    (new : IsNewToken p fresh s) (raw : String) (t : RefreshToken)
    (found : find_token p raw s.refresh_tokens ≡ some t) (ciphertext : Option String)
    (idle absolute : ℕ) where
  abbrev next : RefreshToken
  next = successor_of p t ciphertext idle absolute fresh now

  abbrev new_raw : String
  new_raw = p.base64url fresh.raw_bytes

  replaced-IsRetired : IsRetired p raw t.family_id (replace_token t next new_raw now s).1
  unfolding replace_token record_event
  replaced-IsRetired = (
    rotated_away t next.id now,
    find_one-save_self id_of _ t (rotated_away t next.id now) (save id_of next s.refresh_tokens)
        (save-HasUniqueKeys id_of next s.refresh_tokens v.unique)
        (find_one-save_fresh id_of _ t next s.refresh_tokens new found) refl
        (find_one-passes _ s.refresh_tokens found),
    refl,
    refl,
  )

  replaced-found :
      IsNewHash p fresh s
      → find_token p new_raw (replace_token t next new_raw now s).1.refresh_tokens ≡ some next
  unfolding replace_token record_event
  replaced-found hash =
      find_one-save_other id_of (λ r. r.token_hash == hash_secret p new_raw) next
        (rotated_away t next.id now) (save id_of next s.refresh_tokens)
        (find_one-save_last id_of _ next s.refresh_tokens new
          (All-imp _ _ (λ r h. ==-eq-false _ _ h) s.refresh_tokens hash) (eq_refl _))
        (All-of-find_one _ _ s.refresh_tokens new found)
        (==-eq-false _ _ (All-of-find_one _ _ s.refresh_tokens hash found))

abbrev result_of : RotateForClientResult → Result RotateForClientResult → RotateForClientResult
result_of default (ok r) = r
result_of default (err e) = default

-- What a rotation at `now` with the drawn values `fresh` leaves behind.
pub record IsRotated (p : Platform) (raw : String) (fresh : Fresh) (now : ℕ) (before : Store)
    (issued : IssueResult) (after : Store) : Type 0 where
  -- The token that was presented, which was usable.
  pub old : RefreshToken
  pub presented : find_token p raw before.refresh_tokens ≡ some old
  pub usable : IsUsable old now
  -- The token that was issued, of the same family, user, client and session.
  pub new : RefreshToken
  pub same_family : new.family_id ≡ old.family_id
  pub same_user : new.user_id ≡ old.user_id
  pub same_client : new.client_id ≡ old.client_id
  pub same_session : new.provider_session_id ≡ old.provider_session_id
  pub parent : new.parent_token_id ≡ some old.id
  pub issued_family : issued.family_id ≡ old.family_id
  pub issued_id : issued.token_id ≡ new.id
  pub issued_now : new.issued_at ≡ now
  -- The new text can be presented, and the old one is a trap.
  pub stored : find_token p issued.refresh_token after.refresh_tokens ≡ some new
  pub unrotated : new.rotated_to_token_id ≡ none
  pub can_continue : CanPresent p issued.refresh_token new after
  pub retired : IsRetired p raw old.family_id after

module _ (p : Platform) (fresh : Fresh) (now : ℕ) (s : Store) (v : IsSoundStore s)
    (new : IsNewToken p fresh s) (hash : IsNewHash p fresh s) where
  module _ (raw : String) (t : RefreshToken) (found : find_token p raw s.refresh_tokens ≡ some t)
      (u : IsUsable t now) (ciphertext : Option String) (idle absolute : ℕ) where
    replaced-IsRotated :
        let n = successor_of p t ciphertext idle absolute fresh now in
        let r = p.base64url fresh.raw_bytes in
        IsRotated p raw fresh now s (issue_result r n) (replace_token t n r now s).1
    replaced-IsRotated = record {
      old = t;
      presented = found;
      usable = u;
      new = successor_of p t ciphertext idle absolute fresh now;
      same_family = refl;
      same_user = refl;
      same_client = refl;
      same_session = refl;
      parent = refl;
      issued_family = refl;
      issued_id = refl;
      issued_now = refl;
      stored = replaced-found p fresh now s v new raw t found ciphertext idle absolute hash;
      unrotated = refl;
      can_continue =
          can_present p _ _ _
            (replaced-found p fresh now s v new raw t found ciphertext idle absolute hash) refl
            refl;
      retired = replaced-IsRetired p fresh now s v new raw t found ciphertext idle absolute;
    }

    settled-IsRotated :
        (issued : IssueResult)
        → let n = successor_of p t ciphertext idle absolute fresh now in
          let o = settled s (replace_token t n (p.base64url fresh.raw_bytes) now s) in
          o.0 ≡ ok issued → IsRotated p raw fresh now s issued o.1
    unfolding replace_token record_event
    settled-IsRotated issued h =
        let n = successor_of p t ciphertext idle absolute fresh now in
        let same : issue_result (p.base64url fresh.raw_bytes) n ≡ issued = cc in
        subst
          (λ i.
            IsRotated p raw fresh now s i (replace_token t n (p.base64url fresh.raw_bytes) now s).1)
          same replaced-IsRotated

  -- If `rotateToken` returns, in a sound table where the drawn id and hash are new, then the
  -- presented token was usable; the issued token continues its family for the same user, client and
  -- session, and can be presented until it expires; the old token is retired.
  pub rotate_token-IsRotated :
      (input : RotateInput) (issued : IssueResult)
      → (rotate_token p input fresh now s).0 ≡ ok issued
      → IsRotated p input.refresh_token fresh now s issued (rotate_token p input fresh now s).1
  unfolding rotate_token
  rotate_token-IsRotated input issued =
      rotation_cases p input.refresh_token now s _
        (λ o. o.0 ≡ ok issued → IsRotated p input.refresh_token fresh now s issued o.1) (λ e h. cc)
        (λ t found r h. cc)
        (λ t found r u h. settled-IsRotated input.refresh_token t found u _ _ _ issued h)

  -- If the rotation of the token endpoint returns, in a sound table where the drawn id and hash are
  -- new, then the presented token was usable; the issued token continues its family for the same
  -- user, client and session, and can be presented until it expires; the old token is retired.
  pub rotate_token_for_client-IsRotated :
      (input : RotateForClientInput) (result : RotateForClientResult)
      → (rotate_token_for_client p input fresh now s).0 ≡ ok result
      → IsRotated p input.refresh_token fresh now s result.issued
          (rotate_token_for_client p input fresh now s).1
  unfolding rotate_token_for_client
  rotate_token_for_client-IsRotated input result =
      rotation_cases p input.refresh_token now s _
        (λ o. o.0 ≡ ok result → IsRotated p input.refresh_token fresh now s result.issued o.1)
        (λ e h. cc) (λ t found r h. cc)
        (λ t found r u.
          authorized_cases p input fresh now t s
            (λ o.
              (settled s o).0 ≡ ok result
              → IsRotated p input.refresh_token fresh now s result.issued (settled s o).1)
            (λ e h. cc)
            (λ c idle absolute a h.
              subst
                (λ i.
                  IsRotated p input.refresh_token fresh now s i
                    (replace_token t (next_token p input fresh now t s idle absolute)
                      (p.base64url fresh.raw_bytes) now s).1)
                (ap (λ r. (result_of result r).issued) h)
                (replaced-IsRotated input.refresh_token t found u _ idle absolute)))

-- The caller may rotate: the token is usable, the client authorized, and the result's lifetimes
-- and client are that client's.
abbrev pub IsPermitted :
    Platform → RotateForClientInput → ℕ → Store → RotateForClientResult → Type 0
IsPermitted p input now s result =
    (t : RefreshToken) × (c : Client) × (idle : ℕ) × (absolute : ℕ) × (find_token p
        input.refresh_token s.refresh_tokens
      ≡ some t)
    × IsUsable t now
    × IsAuthorized p input t s c idle absolute
    × (result.client ≡ client_summary c)
    × (result.issued.idle_expires_at ≡ add_seconds now idle)
    × (result.issued.absolute_expires_at ≡ add_seconds t.issued_at absolute)

-- If a rotation at the token endpoint returns, then the presented token was usable; its client is
-- the presented one, is enabled, may have refresh tokens and has authenticated unless it is public;
-- its user is active; and the result's expiries are counted with that client's lifetimes.
pub rotate_token_for_client-IsAuthorized :
    (p : Platform) (input : RotateForClientInput) (fresh : Fresh) (now : ℕ) (s : Store)
    (result : RotateForClientResult)
    → (rotate_token_for_client p input fresh now s).0 ≡ ok result
    → IsPermitted p input now s result
unfolding rotate_token_for_client
rotate_token_for_client-IsAuthorized p input fresh now s result =
    rotation_cases p input.refresh_token now s _
      (λ o. o.0 ≡ ok result → IsPermitted p input now s result) (λ e h. cc) (λ t found r h. cc)
      (λ t found r u.
        authorized_cases p input fresh now t s
          (λ o. (settled s o).0 ≡ ok result → IsPermitted p input now s result) (λ e h. cc)
          (λ c idle absolute a h. (
            t,
            c,
            idle,
            absolute,
            found,
            u,
            a,
            sym (ap (λ r. (result_of result r).client) h),
            sym (ap (λ r. (result_of result r).issued.idle_expires_at) h),
            sym (ap (λ r. (result_of result r).issued.absolute_expires_at) h),
          )))
