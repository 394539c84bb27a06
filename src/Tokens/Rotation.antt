-- ===== src/Tokens/Rotation.antt =====
-- What the presentation of a token that was rotated away leaves behind.
use oid.Shared.{
  ℕ, String, eq_iff, ◌≡◌, refl, subst, ◌≢◌, true, some, truthy, is_some, arith, All, update_rows,
  find_rows, List, [], ◌∷◌,
}
use oid.Platform.{Platform}
use oid.Store.{Action, Store, Result, err, RefreshToken}
use oid.Tokens.Model.{
  Fresh, IssueResult, RotateInput, RotateForClientInput, RotateForClientResult, in_family,
  mark_revoked,
}
use oid.Tokens.Service.{rotate_with, find_token, detect_replay, rotate_token, present_token}
use oid.Tokens.ForClient.{rotate_token_for_client}
use oid.Tokens.Presented.{replay_conflict, detect_replay-tokens}

-- The token that `raw` stands for was rotated away, and its family is `family`.
abbrev pub IsRetired : Platform → String → String → Store → Type 0
IsRetired p raw family s =
    (t : RefreshToken) × (find_token p raw s.refresh_tokens ≡ some t)
    × (truthy t.rotated_to_token_id ≡ true)
    × (t.family_id ≡ family)

-- How the presentation of a token that was rotated away must end: with the conflict, with every
-- token of the family revoked, and with the tokens of other families as they were.
pub record IsCaught (family : String) (before after : Store) (A : Type 0) (r : Result A)
    : Type 0 where
  pub thrown : r ≡ err replay_conflict
  pub all_revoked :
      All (λ t. t.family_id ≡ family → is_some t.revoked_at ≡ true) after.refresh_tokens
  pub others_kept :
      (other : String)
      → other ≢ family
      → find_rows (in_family other) after.refresh_tokens
        ≡ find_rows (in_family other) before.refresh_tokens

others-find_rows :
    (family other : String) (now : ℕ) (reason : String) (rows : List RefreshToken)
    → other ≢ family
    → find_rows (in_family other) (update_rows (in_family family) (mark_revoked now reason) rows)
      ≡ find_rows (in_family other) rows
unfolding find_rows update_rows
others-find_rows family other now reason [] h = refl
others-find_rows family other now reason (t ∷ rows) h = ground (
  arith,
  eq_iff t.family_id family,
  eq_iff t.family_id other,
  others-find_rows family other now reason rows h,
)

All-revoked :
    (family : String) (now : ℕ) (reason : String) (rows : List RefreshToken)
    → All
        (λ t. t.family_id ≡ family → is_some t.revoked_at ≡ true)
        (update_rows (in_family family) (mark_revoked now reason) rows)
unfolding update_rows
All-revoked family now reason [] = tt
All-revoked family now reason (t ∷ rows) =
    (λ e. ground (arith, eq_iff t.family_id family), All-revoked family now reason rows)

detect_replay-IsCaught :
    (A : Type 0) (t : RefreshToken) (now : ℕ) (s : Store)
    → IsCaught t.family_id s (detect_replay t now s).1 A (err replay_conflict)
detect_replay-IsCaught A t now s = record {
  thrown = refl;
  all_revoked =
      rw (detect_replay-tokens t now s).1 (All-revoked t.family_id now _ s.refresh_tokens);
  others_kept = λ other h.
      rw (detect_replay-tokens t now s).1
        (others-find_rows t.family_id other now _ s.refresh_tokens h);
}

module _ (p : Platform) (raw family : String) (now : ℕ) (s : Store)
    (retired : IsRetired p raw family s) {B : Type 0} (replace : RefreshToken → Action B) where
  pub retired-thrown :
      rotate_with p raw now replace s ≡ (err replay_conflict, (detect_replay retired.0 now s).1)
  unfolding present_token
  retired-thrown =
      let (t, found, rotated, same) = retired in
      rw (found, rotated, (detect_replay-tokens t now s).0)

  pub rotate_with-IsCaught : let (r, t) = rotate_with p raw now replace s in IsCaught family s t B r
  rotate_with-IsCaught =
      let (t, found, rotated, same) = retired in
      rw retired-thrown (
        subst (λ f. IsCaught f s (detect_replay t now s).1 B (err replay_conflict)) same
          (detect_replay-IsCaught B t now s))

-- A token that was rotated away is never rotated again: presenting it throws the replay conflict,
-- revokes every token of its family, and leaves the tokens of all other families as they were.
pub rotate_token_for_client-IsCaught :
    (p : Platform) (input : RotateForClientInput) (fresh : Fresh) (now : ℕ) (s : Store)
    (family : String)
    → IsRetired p input.refresh_token family s
    → let (r, t) = rotate_token_for_client p input fresh now s in
      IsCaught family s t RotateForClientResult r
unfolding rotate_token_for_client
rotate_token_for_client-IsCaught p input fresh now s family retired =
    rotate_with-IsCaught p input.refresh_token family now s retired _

-- So does `rotateToken` with a token that was rotated away: it throws the replay conflict, revokes
-- every token of the family, and leaves the tokens of all other families as they were.
pub rotate_token-IsCaught :
    (p : Platform) (input : RotateInput) (fresh : Fresh) (now : ℕ) (s : Store) (family : String)
    → IsRetired p input.refresh_token family s
    → let (r, t) = rotate_token p input fresh now s in IsCaught family s t IssueResult r
unfolding rotate_token
rotate_token-IsCaught p input fresh now s family retired =
    rotate_with-IsCaught p input.refresh_token family now s retired _
