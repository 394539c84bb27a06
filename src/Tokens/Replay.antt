-- ===== src/Tokens/Replay.antt =====
-- A whole attack: a token is rotated, and its old text is presented again.
use oid.Shared.{
  ℕ, String, ◌==◌, eq_iff, ◌≡◌, refl, sym, ap, ◌∙◌, true, Option, none, some, is_some, arith,
  find_one-update_rows,
}
use oid.Platform.{Platform, hash_secret, add_seconds}
use oid.Store.{Store, Result, ok, err, RefreshToken, unauthorized}
use oid.Tokens.Model.{
  Fresh, IssueResult, RotateInput, RotateForClientInput, RotateForClientResult, in_family,
  mark_revoked, assert_token_is_usable,
}
use oid.Audit.{record_event}
use oid.Tokens.Service.{
  replace_token, successor_of, find_token, detect_replay, rotate_token, present_token,
}
use oid.Tokens.ForClient.{rotate_checked, rotate_token_for_client}
use oid.Tokens.Presented.{settled, rotation_cases, detect_replay-tokens}
use oid.Tokens.Invariant.{IsSoundStore, IsNewToken}
use oid.Tokens.Rotation.{IsRetired, IsCaught, retired-thrown, rotate_token_for_client-IsCaught}
use oid.Tokens.Successor.{IsNewHash, rotate_token_for_client-IsRotated, rotate_token-IsRotated}

-- Presenting `raw` is refused and changes nothing.
abbrev pub IsRefused : Platform → String → Store → Type 0
IsRefused p raw s =
    (now : ℕ)
    → present_token p raw now s ≡ (err (unauthorized "Refresh token has been revoked."), s)

revoked-IsRefused :
    (p : Platform) (raw : String) (t : RefreshToken) (s : Store)
    → find_token p raw s.refresh_tokens ≡ some t
    → t.rotated_to_token_id ≡ none
    → is_some t.revoked_at ≡ true
    → IsRefused p raw s
unfolding present_token assert_token_is_usable
revoked-IsRefused p raw t s found unrotated revoked now = rw (found, unrotated, revoked)

marked-revoked :
    (now : ℕ) (reason : String) (t : RefreshToken)
    → is_some (mark_revoked now reason t).revoked_at ≡ true
marked-revoked now reason t = ground arith

-- After a replay, the tokens of the family that could be presented are refused.
replayed-IsRefused :
    (p : Platform) (raw : String) (t new : RefreshToken) (now : ℕ) (s : Store)
    → find_token p raw s.refresh_tokens ≡ some new
    → new.rotated_to_token_id ≡ none
    → new.family_id ≡ t.family_id
    → IsRefused p raw (detect_replay t now s).1
replayed-IsRefused p raw t new now s found unrotated same =
    revoked-IsRefused p raw (mark_revoked now "replay_detected" new) (detect_replay t now s).1
      (rw (detect_replay-tokens t now s).1 (
        find_one-update_rows (λ r. r.token_hash == hash_secret p raw) (in_family t.family_id)
          (mark_revoked now "replay_detected") (λ a. refl) s.refresh_tokens found
        ∙ (rw ((eq_iff _ _).1 same))))
      unrotated (marked-revoked now "replay_detected" new)

again-IsRefused :
    (p : Platform) (again : RotateForClientInput) (fresh : Fresh) (later : ℕ) (s : Store)
    (family : String) (retired : IsRetired p again.refresh_token family s) (n : RefreshToken)
    (raw : String)
    → find_token p raw s.refresh_tokens ≡ some n
    → n.rotated_to_token_id ≡ none
    → n.family_id ≡ family
    → IsRefused p raw (rotate_token_for_client p again fresh later s).1
unfolding rotate_token_for_client
again-IsRefused p again fresh later s family retired n raw stored unrotated same =
    rw
      (retired-thrown p again.refresh_token family later s retired
        (rotate_checked p again fresh later))
      (replayed-IsRefused p raw retired.0 n later s stored unrotated (same ∙ sym retired.3))

abbrev issued_at_or : ℕ → Option RefreshToken → ℕ
issued_at_or default none = default
issued_at_or default (some t) = t.issued_at

abbrev absolute_of : ℕ → Result IssueResult → ℕ
absolute_of default (ok r) = r.absolute_expires_at
absolute_of default (err e) = default

settled_absolute :
    (p : Platform) (t : RefreshToken) (ciphertext : Option String) (idle absolute : ℕ)
    (fresh : Fresh) (now : ℕ) (raw : String) (s : Store) (second : IssueResult)
    → (settled s
        (replace_token t (successor_of p t ciphertext idle absolute fresh now) raw now s)).0
      ≡ ok second
    → second.absolute_expires_at ≡ add_seconds t.issued_at absolute
unfolding replace_token record_event
settled_absolute p t ciphertext idle absolute fresh now raw s second h =
    sym (ap (absolute_of second.absolute_expires_at) h)

rotated_absolute :
    (p : Platform) (input : RotateInput) (fresh : Fresh) (now : ℕ) (s : Store)
    (second : IssueResult)
    → (rotate_token p input fresh now s).0 ≡ ok second
    → (t : RefreshToken) × (find_token p input.refresh_token s.refresh_tokens ≡ some t)
      × (second.absolute_expires_at ≡ add_seconds t.issued_at input.absolute_ttl_seconds)
unfolding rotate_token
rotated_absolute p input fresh now s second =
    rotation_cases p input.refresh_token now s _
      (λ o.
        o.0 ≡ ok second
        → (t : RefreshToken) × (find_token p input.refresh_token s.refresh_tokens ≡ some t)
          × (second.absolute_expires_at ≡ add_seconds t.issued_at input.absolute_ttl_seconds))
      (λ e h. cc) (λ t found r h. cc)
      (λ t found r u h. (t, found, settled_absolute p t _ _ _ fresh now _ s second h))

module _ (p : Platform) (fresh : Fresh) (now : ℕ) (s : Store) (v : IsSoundStore s)
    (new : IsNewToken p fresh s) (hash : IsNewHash p fresh s) where
  -- In a sound table where the drawn id and hash are new: when a token is rotated and its old text is presented again, by anyone and with any secret, the
  -- second call throws the replay conflict and revokes the family, tokens of other families stay
  -- as they were, and the text that the first call issued is refused from then on.
  pub replay_after_rotation :
      (input again : RotateForClientInput) (fresh' : Fresh) (later : ℕ)
      (result : RotateForClientResult)
      → (rotate_token_for_client p input fresh now s).0 ≡ ok result
      → again.refresh_token ≡ input.refresh_token
      → let rotated = (rotate_token_for_client p input fresh now s).1 in
        let (r, caught) = rotate_token_for_client p again fresh' later rotated in
        IsCaught result.issued.family_id rotated caught RotateForClientResult r
        × IsRefused p result.issued.refresh_token caught
  replay_after_rotation input again fresh' later result done same =
      let rotated = (rotate_token_for_client p input fresh now s).1 in
      let z = rotate_token_for_client-IsRotated p fresh now s v new hash input result done in
      let retired : IsRetired p again.refresh_token z.old.family_id rotated = rw same z.retired in
      (
        rw z.issued_family
            (rotate_token_for_client-IsCaught p again fresh' later rotated z.old.family_id retired),
        again-IsRefused p again fresh' later rotated z.old.family_id retired z.new
            result.issued.refresh_token z.stored z.unrotated z.same_family,
      )

  -- In a sound table where the drawn id and hash are new, of two rotations in a row: the last token's absolute expiry is counted from the time of the first
  -- rotation, whenever the family began.
  pub absolute_expiry_slides :
      (input input' : RotateInput) (fresh' : Fresh) (later : ℕ) (first second : IssueResult)
      → (rotate_token p input fresh now s).0 ≡ ok first
      → (rotate_token p input' fresh' later (rotate_token p input fresh now s).1).0 ≡ ok second
      → input'.refresh_token ≡ first.refresh_token
      → second.absolute_expires_at ≡ add_seconds now input'.absolute_ttl_seconds
  absolute_expiry_slides input input' fresh' later first second one two same =
      let rotated = (rotate_token p input fresh now s).1 in
      let z = rotate_token-IsRotated p fresh now s v new hash input first one in
      let (t, found, e) = rotated_absolute p input' fresh' later rotated second two in
      let same_token : some t ≡ some z.new = sym found ∙ rw same z.stored in
      e
      ∙ ap (λ o. add_seconds (issued_at_or now o) input'.absolute_ttl_seconds) same_token
      ∙ ap (λ i. add_seconds i input'.absolute_ttl_seconds) z.issued_now
