-- ===== src/Tokens/Reach.antt =====
-- Runs of the refresh token service: any calls of its methods, one after the other, with any inputs
-- and at any times, among calls of other services, which leave refresh_tokens as it is.
use oid.Shared.{
  count-found, Run, start, next, run_keeps, ℕ, String, some, count, ◌≤◌, le→leb, leb, if◌then◌else◌,
  true, eq_refl, arith, ◌≡◌, refl, sym, subst,
}
use oid.Platform.{Platform}
use oid.Store.{and_then, Store, Action, Result, err, HttpException, RefreshToken}
use oid.Tokens.Presented.{
  IsUsable, replay_conflict, rotation_cases, present_cases, settled, detect_replay-tokens,
}
use oid.Tokens.Model.{Fresh, IssueInput, IssueForClientInput, RotateInput, RotateForClientInput}
use oid.Tokens.Service.{
  issue_token, issue_token_for_client, resolve_refresh_grant, rotate_token, rotate_with, find_token,
  open_grant,
}
use oid.Tokens.ForClient.{rotate_token_for_client}
use oid.Tokens.Revoke.{revoke_token_family, revoke_presented_token}
use oid.Tokens.Family.{IsSound, is_live_in}
use oid.Tokens.Invariant.{
  IsSoundStore, IsNewToken, IsNewFamily, issue_token-IsSound, rotate_token-IsSound,
  rotate_token_for_client-IsSound, revoke_token_family-IsSound, revoke_presented_token-IsSound,
  detect_replay-IsSound,
}
use oid.Tokens.Lifecycle.{
  FamilyState, dead, absent, live, stay, issue, revoke, ◌⟶◌, family_state, family_state-⟶,
}
use oid.Tokens.Follow.{
  Follows, same-Follows, detect_replay-Follows, issue_token-Follows, issue_cases, resolve_cases,
  rotate_token-Follows, rotate_token_for_client-Follows, revoke_token_family-Follows,
  revoke_presented_token-Follows,
}

-- One call. The ids that ulid draws for a token are new to the table.
pub data IsCall (p : Platform) (s : Store) : Store → Type 0 where
  issue_call :
      (input : IssueInput) (fresh : Fresh) (now : ℕ)
      → IsNewToken p fresh s
      → IsNewFamily p fresh s
      → IsCall p s (issue_token p input fresh now s).1
  issue_for_client_call :
      (input : IssueForClientInput) (fresh : Fresh) (now : ℕ)
      → IsNewToken p fresh s
      → IsNewFamily p fresh s
      → IsCall p s (issue_token_for_client p input fresh now s).1
  resolve_call : (raw : String) (now : ℕ) → IsCall p s (resolve_refresh_grant p raw now s).1
  rotate_call :
      (input : RotateInput) (fresh : Fresh) (now : ℕ)
      → IsNewToken p fresh s
      → IsCall p s (rotate_token p input fresh now s).1
  rotate_for_client_call :
      (input : RotateForClientInput) (fresh : Fresh) (now : ℕ)
      → IsNewToken p fresh s
      → IsCall p s (rotate_token_for_client p input fresh now s).1
  revoke_family_call :
      (family reason : String) (now : ℕ) → IsCall p s (revoke_token_family family reason now s).1
  revoke_presented_call :
      (raw reason : String) (now : ℕ) → IsCall p s (revoke_presented_token p raw reason now s).1
  other_call : (t : Store) → t.refresh_tokens ≡ s.refresh_tokens → IsCall p s t

abbrev Keeps : Store → Store → Type 0
Keeps s t = IsSoundStore t × Follows s t

pub call_keeps :
    (p : Platform) (s t : Store) → IsSoundStore s → IsCall p s t → IsSoundStore t × Follows s t
call_keeps p s _ v (issue_call input fresh now token family) = (
  issue_token-IsSound p input fresh now s v token family,
  issue_token-Follows p fresh now s input token family,
)
call_keeps p s _ v (issue_for_client_call input fresh now token family) =
    issue_cases p fresh now s input (Keeps s) (v, same-Follows s s refl)
      (λ given. (
        issue_token-IsSound p given fresh now s v token family,
        issue_token-Follows p fresh now s given token family,
      ))
call_keeps p s _ v (resolve_call raw now) =
    resolve_cases p now s raw (Keeps s) (v, same-Follows s s refl)
      (λ t. (detect_replay-IsSound t now s v, detect_replay-Follows t now s))
call_keeps p s _ v (rotate_call input fresh now new) =
    (rotate_token-IsSound p fresh now s v new input, rotate_token-Follows p fresh now s v new input)
call_keeps p s _ v (rotate_for_client_call input fresh now new) = (
  rotate_token_for_client-IsSound p fresh now s v new input,
  rotate_token_for_client-Follows p fresh now s v new input,
)
call_keeps p s _ v (revoke_family_call family reason now) = (
  revoke_token_family-IsSound family reason now s v,
  revoke_token_family-Follows family reason now s,
)
call_keeps p s _ v (revoke_presented_call raw reason now) = (
  revoke_presented_token-IsSound p raw reason now s v,
  revoke_presented_token-Follows p raw reason now s,
)
call_keeps p s _ v (other_call t e) = (subst IsSound (sym e) v, same-Follows s t e)

module _ (p : Platform) (s : Store) (v : IsSoundStore s) where
  -- In every run of the refresh token service, whatever other services do to the other tables, the
  -- refresh tokens stay sound: ids are unique, no family has two tokens that are not revoked, and a
  -- token that was rotated away is revoked.
  pub run-IsSound : (t : Store) → Run (IsCall p) s t → IsSoundStore t
  run-IsSound t = run_keeps (IsCall p) IsSoundStore (λ a b w c. (call_keeps p a b w c).0) s t v

  -- Every run of the service is a run of the abstract machine for each family of tokens: from absent
  -- to live when its first token is issued, from live to dead when it is revoked, and never back.
  pub run-follows :
      (t : Store)
      → Run (IsCall p) s t
      → (family : String)
      → Run ◌⟶◌ (family_state s.refresh_tokens family) (family_state t.refresh_tokens family)
  run-follows _ start family = start
  run-follows u (next t _ r c) family = next _ _ (run-follows t r family) (
      family_state-⟶ family t.refresh_tokens u.refresh_tokens
        ((call_keeps p t u (run-IsSound t r) c).1 family))

dead_leads : (a b : FamilyState) → Run ◌⟶◌ a b → a ≡ dead → b ≡ dead
dead_leads a b r e = run_keeps ◌⟶◌ (λ c. c ≡ dead) stays a b e r
  where
    absent-≢-dead : absent ≡ dead → ⊥
    absent-≢-dead e = cc

    stays : (c d : FamilyState) → c ≡ dead → c ⟶ d → d ≡ dead
    stays c _ e stay = e
    stays _ _ e issue = absurd (absent-≢-dead e)
    stays _ _ e revoke = refl

-- A call that returned nothing.
abbrev pub IsThrown : {A : Type 0} → Result A → Type 0
IsThrown r = (e : HttpException) × (r ≡ err e)

module _ (p : Platform) (family raw : String) (now : ℕ) (t : Store)
    (gone : family_state t.refresh_tokens family ≡ dead)
    (member : (found : RefreshToken)
      → find_token p raw t.refresh_tokens ≡ some found
      → found.family_id ≡ family) where
  dead_unusable :
      (found : RefreshToken)
      → find_token p raw t.refresh_tokens ≡ some found
      → IsUsable found now
      → ⊥
  unfolding family_state
  dead_unusable found e u =
      let counted = count-found _ (is_live_in family) t.refresh_tokens e in
      let alive : is_live_in family found ≡ true =
        rw (u.unrevoked, member found e, eq_refl family) refl in
      not_dead (count (is_live_in family) t.refresh_tokens) _ (omega (arith, rw alive at counted))
        gone
    where
      live-≢-dead : live ≡ dead → ⊥
      live-≢-dead e = cc

      not_dead :
          (n m : ℕ)
          → 1 ≤ n
          → (if leb 1 n then live else if leb 1 m then dead else absent) ≡ dead
          → ⊥
      not_dead n m h e = live-≢-dead (rw (le→leb 1 n h) at e)

  dead-IsThrown :
      {B : Type 0} (replace : RefreshToken → Action B)
      → IsThrown (rotate_with p raw now replace t).0
  dead-IsThrown replace =
      rotation_cases p raw now t replace (λ o. IsThrown o.0) (λ e. (e, refl))
        (λ f e r. (replay_conflict, refl)) (λ f e r u. absurd (dead_unusable f e u))

  resolve_dead-IsThrown : IsThrown (resolve_refresh_grant p raw now t).0
  unfolding resolve_refresh_grant
  resolve_dead-IsThrown =
      present_cases p raw now t
        (λ o. IsThrown (and_then (settled t o).0 (settled t o).1 (open_grant p)).0) (λ e. (e, refl))
        (λ f e r. rw (detect_replay-tokens f now t).0 (replay_conflict, refl))
        (λ f e r u. absurd (dead_unusable f e u))

-- A family whose tokens are all revoked never comes back: after any run, presenting one of its
-- tokens, to rotate it with or without authenticating a client or to resolve its upstream grant,
-- throws.
pub dead_family_refused :
    (p : Platform) (s t : Store) (family : String)
    → IsSoundStore s
    → family_state s.refresh_tokens family ≡ dead
    → Run (IsCall p) s t
    → (input : RotateInput) (client_input : RotateForClientInput) (fresh : Fresh) (now : ℕ)
    → client_input.refresh_token ≡ input.refresh_token
    → ((found : RefreshToken)
        → find_token p input.refresh_token t.refresh_tokens ≡ some found
        → found.family_id ≡ family)
    → IsThrown (rotate_token p input fresh now t).0
      × IsThrown (rotate_token_for_client p client_input fresh now t).0
      × IsThrown (resolve_refresh_grant p input.refresh_token now t).0
unfolding rotate_token rotate_token_for_client
dead_family_refused p s t family v gone run input client_input fresh now same member =
    let gone' = dead_leads _ _ (run-follows p s v t run family) gone in
    (
      dead-IsThrown p family input.refresh_token now t gone' member _,
      dead-IsThrown p family client_input.refresh_token now t gone' (rw same member) _,
      resolve_dead-IsThrown p family input.refresh_token now t gone' member,
    )
