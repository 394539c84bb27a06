-- ===== src/Tokens/Follow.antt =====
-- What each method of `RefreshTokenService` does to the tokens of every family.
use oid.Shared.{
  [], ◌∷◌, ℕ, String, some, List, ◌≡◌, refl, sym, inl, inr, Option-cases, List-cases, find_one,
  find_rows, update_rows, count, arith, eq_iff, All, ◌≢◌, ◌&&◌, ◌==◌, subst,
}
use oid.Platform.{Platform, prefixed_ulid}
use oid.Sealing.{unseal}
use oid.Store.{Result-cases, internal_server_error, and_then, Store, RefreshToken, is_active_client}
use oid.Audit.{record_event}
use oid.Tokens.Model.{
  Fresh, IssueInput, IssueForClientInput, RotateInput, RotateForClientInput, in_family,
  mark_revoked, revoke_family, refresh_lifetimes, Checked, checked, replay_detected, not_empty,
}
use oid.Tokens.Service.{
  find_token, detect_replay, replace_token, issue_token, issue_token_for_client,
  resolve_refresh_grant, open_grant, rotate_token, first_token,
}
use oid.Tokens.ForClient.{rotate_token_for_client}
use oid.Tokens.Revoke.{revoke_token_family, revoke_presented_token}
use oid.Tokens.Presented.{
  IsUsable, settled, settled-ok, detect_replay-tokens, rotation_cases, present_cases,
}
use oid.Tokens.Authorized.{replace_token-ok, authorized_cases}
use oid.Tokens.Invariant.{IsSoundStore, IsNewToken, IsNewFamily}
use oid.Tokens.Lifecycle.{IsStep, same-IsStep, revoked-IsStep, added-IsStep, replaced-IsStep}

-- What a call does to the tokens of every family.
abbrev pub Follows : Store → Store → Type 0
Follows s t = (f : String) → IsStep f s.refresh_tokens t.refresh_tokens

pub same-Follows : (s t : Store) → t.refresh_tokens ≡ s.refresh_tokens → Follows s t
same-Follows s t e f = rw e (same-IsStep f s.refresh_tokens)

pub detect_replay-Follows :
    (t : RefreshToken) (now : ℕ) (s : Store) → Follows s (detect_replay t now s).1
detect_replay-Follows t now s f =
    rw (detect_replay-tokens t now s).1
      (revoked-IsStep f t.family_id "replay_detected" now s.refresh_tokens)

none_in_new :
    (family : String) (rows : List RefreshToken)
    → All (λ t. t.family_id ≢ family) rows
    → count (in_family family) rows ≡ 0
unfolding count
none_in_new family [] h = refl
none_in_new family (t ∷ rows) (h, hs) =
    ground (arith, eq_iff t.family_id family, none_in_new family rows hs)

module _ (p : Platform) (now : ℕ) (s : Store) where
  -- Opening a grant only reads.
  opened_tables : (t : Checked RefreshToken) (u : Store) → (open_grant p t u).1 ≡ u
  opened_tables replay_detected u = refl
  opened_tables (checked t) u =
      elim (Option-cases (not_empty t.upstream_refresh_token_ciphertext)) [
        | inl e ↦ rw e refl
        | inr (c, e) ↦
            elim (Result-cases
              (unseal p (internal_server_error "Refresh token mapping ciphertext is invalid.") c)) [
                | inl (x, e') ↦ rw (e, e') refl
                | inr (text, e') ↦ rw (e, e') refl
              ]
      ]

  -- `resolveRefreshGrant` revokes the family of a replayed token or changes nothing.
  pub resolve_cases :
      (raw : String) (P : Store → Type 0)
      → P s
      → ((t : RefreshToken) → P (detect_replay t now s).1)
      → P (resolve_refresh_grant p raw now s).1
  unfolding resolve_refresh_grant
  resolve_cases raw P idle replayed =
      present_cases p raw now s (λ o. P (and_then (settled s o).0 (settled s o).1 (open_grant p)).1)
        (λ x. idle) (λ t found r. subst P (sym (kept t)) (replayed t))
        (λ t found r u. rw (opened_tables (checked t) s) idle)
    where
      kept :
          (t : RefreshToken)
          → (and_then
              (settled s (detect_replay t now s)).0
              (settled s (detect_replay t now s)).1
              (open_grant p)).1
            ≡ (detect_replay t now s).1
      kept t = rw (detect_replay-tokens t now s).0 refl

module _ (p : Platform) (fresh : Fresh) (now : ℕ) (s : Store) where
  pub issue_token-Follows :
      (input : IssueInput)
      → IsNewToken p fresh s
      → IsNewFamily p fresh s
      → Follows s (issue_token p input fresh now s).1
  unfolding issue_token record_event
  issue_token-Follows input token family f =
      added-IsStep f (first_token p input fresh now) s.refresh_tokens token
        (none_in_new _ s.refresh_tokens family) refl

  -- `issueTokenForClient` issues a token or does nothing.
  pub issue_cases :
      (input : IssueForClientInput) (P : Store → Type 0)
      → P s
      → ((given : IssueInput) → P (issue_token p given fresh now s).1)
      → P (issue_token_for_client p input fresh now s).1
  unfolding issue_token_for_client issue_token record_event
  issue_cases input P idle issued =
      elim (Option-cases (
        find_one (λ c. c.client_id == input.client_identifier && is_active_client c.status)
          s.clients)) [
            | inl e ↦ rw e idle
            | inr (c, e) ↦ elim (Option-cases (refresh_lifetimes c)) [
              | inl e' ↦ rw (e, e') idle
              | inr ((idle_ttl, absolute_ttl), e') ↦
                  rw (e, e') (issued (for_client input c.id idle_ttl absolute_ttl))
            ]
          ]
    where
      for_client : IssueForClientInput → String → ℕ → ℕ → IssueInput
      for_client input id idle absolute = record {
        user_id = input.user_id;
        client_id = id;
        provider_session_id = input.provider_session_id;
        idle_ttl_seconds = idle;
        absolute_ttl_seconds = absolute;
        upstream_refresh_token = input.upstream_refresh_token;
      }

  module _ (v : IsSoundStore s) (new : IsNewToken p fresh s) where
    module _ (raw : String) (t : RefreshToken) (found : find_token p raw s.refresh_tokens ≡ some t)
        (u : IsUsable t now) where
      replaced-Follows :
          (next : RefreshToken)
          → next.id ≡ prefixed_ulid p "rtk" fresh.token_ulid
          → next.family_id ≡ t.family_id
          → (raw' : String) → Follows s (replace_token t next raw' now s).1
      unfolding replace_token record_event
      replaced-Follows next id family raw' f =
          replaced-IsStep _ f t next now s.refresh_tokens v found u.unrevoked (rw id new) family

      settled-Follows :
          (next : RefreshToken)
          → next.id ≡ prefixed_ulid p "rtk" fresh.token_ulid
          → next.family_id ≡ t.family_id
          → (raw' : String) → Follows s (settled s (replace_token t next raw' now s)).1
      settled-Follows next id family raw' =
          rw (settled-ok s (replace_token t next raw' now s) (replace_token-ok t next raw' now s))
            (replaced-Follows next id family raw')

    pub rotate_token-Follows :
        (input : RotateInput) → Follows s (rotate_token p input fresh now s).1
    unfolding rotate_token
    rotate_token-Follows input =
        rotation_cases p input.refresh_token now s _ (λ o. Follows s o.1)
          (λ e. same-Follows s s refl) (λ t found r. detect_replay-Follows t now s)
          (λ t found r u. settled-Follows input.refresh_token t found u _ refl refl _)

    pub rotate_token_for_client-Follows :
        (input : RotateForClientInput) → Follows s (rotate_token_for_client p input fresh now s).1
    unfolding rotate_token_for_client
    rotate_token_for_client-Follows input =
        rotation_cases p input.refresh_token now s _ (λ o. Follows s o.1)
          (λ e. same-Follows s s refl) (λ t found r. detect_replay-Follows t now s)
          (λ t found r u.
            authorized_cases p input fresh now t s (λ o. Follows s (settled s o).1)
              (λ e. same-Follows s s refl)
              (λ c idle absolute a. replaced-Follows input.refresh_token t found u _ refl refl _))

pub revoke_token_family-Follows :
    (family reason : String) (now : ℕ) (s : Store)
    → Follows s (revoke_token_family family reason now s).1
unfolding revoke_token_family revoke_family record_event
revoke_token_family-Follows family reason now s f =
    let rows = update_rows (in_family family) (mark_revoked now reason) s.refresh_tokens in
    let step = revoked-IsStep f family reason now s.refresh_tokens in
    elim (List-cases (find_rows (in_family family) rows)) [
      | inl e ↦ rw e step
      | inr (t, ts, e) ↦ rw e step
    ]

pub revoke_presented_token-Follows :
    (p : Platform) (raw reason : String) (now : ℕ) (s : Store)
    → Follows s (revoke_presented_token p raw reason now s).1
unfolding revoke_presented_token revoke_family record_event
revoke_presented_token-Follows p raw reason now s f =
    elim (Option-cases (find_token p raw s.refresh_tokens)) [
      | inl e ↦ rw e (same-IsStep f s.refresh_tokens)
      | inr (t, e) ↦ rw e (revoked-IsStep f t.family_id reason now s.refresh_tokens)
    ]
