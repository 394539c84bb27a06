-- ===== src/Tokens/Invariant.antt =====
-- The operations on refresh tokens and the soundness of their table.
use oid.Shared.{
  List-cases, find_rows, ◌==◌, eq_iff, ℕ, String, ◌≡◌, refl, List, [], ◌∷◌, none, some, update_rows,
  save, count, All, IsFresh, inl, inr, Option-cases, arith, ◌≢◌,
}
use oid.Platform.{Platform, hash_secret, prefixed_ulid}
use oid.Store.{Store, ok, RefreshToken}
use oid.Audit.{record_event}
use oid.Tokens.Model.{
  Fresh, IssueInput, RotateInput, RotateForClientInput, in_family, mark_revoked, revoke_family,
}
use oid.Tokens.Service.{
  find_token, detect_replay, replace_token, rotate_token, rotated_away, issue_token, first_token,
  issue_result,
}
use oid.Tokens.ForClient.{rotate_token_for_client}
use oid.Tokens.Revoke.{revoke_token_family, revoke_presented_token}
use oid.Tokens.Family.{id_of, is_live_in, IsSound, revoked-IsSound, added-IsSound, replaced-IsSound}
use oid.Tokens.Authorized.{replace_token-ok, authorized_cases}
use oid.Tokens.Presented.{settled-ok, IsUsable, settled, detect_replay-tokens, rotation_cases}

abbrev pub IsSoundStore : Store → Type 0
IsSoundStore s = IsSound s.refresh_tokens

pub detect_replay-IsSound :
    (t : RefreshToken) (now : ℕ) (s : Store)
    → IsSoundStore s
    → IsSoundStore (detect_replay t now s).1
detect_replay-IsSound t now s v =
    rw (detect_replay-tokens t now s).1 (revoked-IsSound t.family_id now _ s.refresh_tokens v)

replace_token-tokens :
    (cur next : RefreshToken) (raw : String) (now : ℕ) (s : Store)
    → ((replace_token cur next raw now s).0 ≡ ok (issue_result raw next))
      × ((replace_token cur next raw now s).1.refresh_tokens
          ≡ save id_of (rotated_away cur next.id now) (save id_of next s.refresh_tokens))
unfolding replace_token record_event
replace_token-tokens cur next raw now s = (refl, refl)

-- The id that ulid draws for the token is new to the table.
abbrev pub IsNewToken : Platform → Fresh → Store → Type 0
IsNewToken p fresh s = IsFresh id_of (prefixed_ulid p "rtk" fresh.token_ulid) s.refresh_tokens

-- So is the family that ulid draws.
abbrev pub IsNewFamily : Platform → Fresh → Store → Type 0
IsNewFamily p fresh s =
    All (λ t. t.family_id ≢ prefixed_ulid p "rtf" fresh.family_ulid) s.refresh_tokens

none_live_in_new :
    (family : String) (rows : List RefreshToken)
    → All (λ t. t.family_id ≢ family) rows
    → count (is_live_in family) rows ≡ 0
unfolding count
none_live_in_new family [] h = refl
none_live_in_new family (t ∷ rows) (h, hs) =
    ground (arith, eq_iff t.family_id family, none_live_in_new family rows hs)

-- Issuing a token, with an id and a family new to the table, keeps the refresh tokens sound: ids are
-- unique, no family has two tokens that are not revoked, and a token that was rotated away is revoked.
pub issue_token-IsSound :
    (p : Platform) (input : IssueInput) (fresh : Fresh) (now : ℕ) (s : Store)
    → IsSoundStore s
    → IsNewToken p fresh s
    → IsNewFamily p fresh s
    → IsSoundStore (issue_token p input fresh now s).1
unfolding issue_token record_event
issue_token-IsSound p input fresh now s v token family =
    added-IsSound (first_token p input fresh now) s.refresh_tokens v token refl
      (none_live_in_new _ s.refresh_tokens family)

module _ (p : Platform) (fresh : Fresh) (now : ℕ) (s : Store) (v : IsSoundStore s)
    (new : IsNewToken p fresh s) where
  module _ (raw : String) (t : RefreshToken) (found : find_token p raw s.refresh_tokens ≡ some t)
      (u : IsUsable t now) where
    replaced-IsSoundStore :
        (next : RefreshToken)
        → next.id ≡ prefixed_ulid p "rtk" fresh.token_ulid
        → next.family_id ≡ t.family_id
        → next.rotated_to_token_id ≡ none
        → (raw' : String) → IsSoundStore (replace_token t next raw' now s).1
    unfolding replace_token record_event
    replaced-IsSoundStore next id family unrotated raw' =
        replaced-IsSound (λ r. r.token_hash == hash_secret p raw) t next now s.refresh_tokens v
          found u.unrevoked (rw id new) family unrotated

    settled-IsSoundStore :
        (next : RefreshToken)
        → next.id ≡ prefixed_ulid p "rtk" fresh.token_ulid
        → next.family_id ≡ t.family_id
        → next.rotated_to_token_id ≡ none
        → (raw' : String) → IsSoundStore (settled s (replace_token t next raw' now s)).1
    settled-IsSoundStore next id family unrotated raw' =
        rw (settled-ok s (replace_token t next raw' now s) (replace_token-ok t next raw' now s))
          (replaced-IsSoundStore next id family unrotated raw')

  -- `rotateToken`, whose new token has an id new to the table, keeps the refresh tokens sound however
  -- it ends: ids are unique, no family has two tokens that are not revoked, and a token that was
  -- rotated away is revoked.
  pub rotate_token-IsSound :
      (input : RotateInput) → IsSoundStore (rotate_token p input fresh now s).1
  unfolding rotate_token
  rotate_token-IsSound input =
      rotation_cases p input.refresh_token now s _ (λ o. IsSoundStore o.1) (λ e. v)
        (λ t found r. detect_replay-IsSound t now s v)
        (λ t found r u. settled-IsSoundStore input.refresh_token t found u _ refl refl refl _)

  -- A rotation at the token endpoint, whose new token has an id new to the table, keeps the refresh
  -- tokens sound however it ends: ids are unique, no family has two tokens that are not revoked, and
  -- a token that was rotated away is revoked.
  pub rotate_token_for_client-IsSound :
      (input : RotateForClientInput) → IsSoundStore (rotate_token_for_client p input fresh now s).1
  unfolding rotate_token_for_client
  rotate_token_for_client-IsSound input =
      rotation_cases p input.refresh_token now s _ (λ o. IsSoundStore o.1) (λ e. v)
        (λ t found r. detect_replay-IsSound t now s v)
        (λ t found r u.
          authorized_cases p input fresh now t s (λ o. IsSoundStore (settled s o).1) (λ e. v)
            (λ c idle absolute a.
              replaced-IsSoundStore input.refresh_token t found u _ refl refl refl _))

-- Revoking a family keeps the refresh tokens sound: ids are unique, no family has two tokens that
-- are not revoked, and a token that was rotated away is revoked.
pub revoke_token_family-IsSound :
    (family reason : String) (now : ℕ) (s : Store)
    → IsSoundStore s
    → IsSoundStore (revoke_token_family family reason now s).1
unfolding revoke_token_family revoke_family record_event
revoke_token_family-IsSound family reason now s v =
    let rows = update_rows (in_family family) (mark_revoked now reason) s.refresh_tokens in
    let v' = revoked-IsSound family now reason s.refresh_tokens v in
    elim (List-cases (find_rows (in_family family) rows)) [
      | inl e ↦ rw e v'
      | inr (t, ts, e) ↦ rw e v'
    ]

-- Revoking the family of a presented token, stored or not, keeps the refresh tokens sound: ids are
-- unique, no family has two tokens that are not revoked, and a token that was rotated away is revoked.
pub revoke_presented_token-IsSound :
    (p : Platform) (raw reason : String) (now : ℕ) (s : Store)
    → IsSoundStore s
    → IsSoundStore (revoke_presented_token p raw reason now s).1
unfolding revoke_presented_token revoke_family record_event
revoke_presented_token-IsSound p raw reason now s v =
    elim (Option-cases (find_token p raw s.refresh_tokens)) [
      | inl e ↦ rw e v
      | inr (t, e) ↦ rw e (revoked-IsSound t.family_id now reason s.refresh_tokens v)
    ]
