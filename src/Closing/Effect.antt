-- ===== src/Closing/Effect.antt =====
-- What is left of a user's sessions and refresh tokens when they were ended.
use oid.Shared.{
  ℕ, String, ◌==◌, eq_iff, ◌≡◌, ◌≢◌, refl, ◌⊎◌, inl, inr, true, false, is_some, is_some, none, some,
  List, [], ◌∷◌, Option, All, find_rows, update_rows, All-of-find_one, arith,
}
use oid.Platform.{Platform}
use oid.Store.{Store, ok, ProviderSession, RefreshToken}
use oid.Tokens.{Fresh, RotateForClientInput, find_token, rotate_token_for_client}
use oid.Tokens.Presented.{replay_conflict, rotation_cases}
use oid.Tokens.Reach.{IsThrown}
use oid.Oidc.SessionLookup.{resolve_provider_session, session_cases}
use oid.Closing.{is_open_session, is_open_token, close_session, close_token, close_all}

-- All sessions and refresh tokens of the user are revoked.
pub record IsClosedTo (user_id : String) (s : Store) : Type 0 where
  pub sessions : All (λ r. r.user_id ≡ user_id → is_some r.revoked_at ≡ true) s.sessions
  pub tokens : All (λ r. r.user_id ≡ user_id → is_some r.revoked_at ≡ true) s.refresh_tokens

-- The rows of the other users are as they were.
pub record IsKeptFromOthers (user_id : String) (before after : Store) : Type 0 where
  pub sessions :
      (other : String)
      → other ≢ user_id
      → find_rows (λ r. r.user_id == other) after.sessions
        ≡ find_rows (λ r. r.user_id == other) before.sessions
  pub tokens :
      (other : String)
      → other ≢ user_id
      → find_rows (λ r. r.user_id == other) after.refresh_tokens
        ≡ find_rows (λ r. r.user_id == other) before.refresh_tokens

closed_sessions :
    (user_id : String) (now : ℕ) (reason : String) (rows : List ProviderSession)
    → All
        (λ r. r.user_id ≡ user_id → is_some r.revoked_at ≡ true)
        (update_rows (is_open_session user_id) (close_session now reason) rows)
unfolding update_rows
closed_sessions user_id now reason [] = tt
closed_sessions user_id now reason (r ∷ rows) =
    (λ e. ground (arith, eq_iff r.user_id user_id), closed_sessions user_id now reason rows)

closed_tokens :
    (user_id : String) (now : ℕ) (reason : String) (rows : List RefreshToken)
    → All
        (λ r. r.user_id ≡ user_id → is_some r.revoked_at ≡ true)
        (update_rows (is_open_token user_id) (close_token now reason) rows)
unfolding update_rows
closed_tokens user_id now reason [] = tt
closed_tokens user_id now reason (r ∷ rows) =
    (λ e. ground (arith, eq_iff r.user_id user_id), closed_tokens user_id now reason rows)

other_sessions :
    (user_id other : String) (now : ℕ) (reason : String) (rows : List ProviderSession)
    → other ≢ user_id
    → find_rows
        (λ r. r.user_id == other)
        (update_rows (is_open_session user_id) (close_session now reason) rows)
      ≡ find_rows (λ r. r.user_id == other) rows
unfolding find_rows update_rows
other_sessions user_id other now reason [] h = refl
other_sessions user_id other now reason (r ∷ rows) h = ground (
  arith,
  eq_iff r.user_id user_id,
  eq_iff r.user_id other,
  other_sessions user_id other now reason rows h,
)

other_tokens :
    (user_id other : String) (now : ℕ) (reason : String) (rows : List RefreshToken)
    → other ≢ user_id
    → find_rows
        (λ r. r.user_id == other)
        (update_rows (is_open_token user_id) (close_token now reason) rows)
      ≡ find_rows (λ r. r.user_id == other) rows
unfolding find_rows update_rows
other_tokens user_id other now reason [] h = refl
other_tokens user_id other now reason (r ∷ rows) h = ground (
  arith,
  eq_iff r.user_id user_id,
  eq_iff r.user_id other,
  other_tokens user_id other now reason rows h,
)

pub close_all-IsClosedTo :
    (user_id : String) (now : ℕ) (reason : String) (s : Store)
    → IsClosedTo user_id (close_all user_id now reason s).1
unfolding close_all
close_all-IsClosedTo user_id now reason s = record {
  sessions = closed_sessions user_id now reason s.sessions;
  tokens = closed_tokens user_id now reason s.refresh_tokens;
}

pub close_all-IsKeptFromOthers :
    (user_id : String) (now : ℕ) (reason : String) (s : Store)
    → IsKeptFromOthers user_id s (close_all user_id now reason s).1
unfolding close_all
close_all-IsKeptFromOthers user_id now reason s = record {
  sessions = λ other h. other_sessions user_id other now reason s.sessions h;
  tokens = λ other h. other_tokens user_id other now reason s.refresh_tokens h;
}

open_closed : {o : Option ℕ} → o ≡ none → is_some o ≡ true → ⊥
open_closed e h = false-≢-true (rw e at h)
  where
    false-≢-true : false ≡ true → ⊥
    false-≢-true h = cc

-- While all sessions and refresh tokens of a user are revoked, at any time: a cookie resumes no
-- session, or one of another user; and a refresh token that belongs to the user, if any, cannot be
-- rotated at the token endpoint.
pub closed_user_refused :
    (p : Platform) (user_id : String) (s : Store) (now : ℕ) (cookie : Option String)
    (input : RotateForClientInput) (fresh : Fresh)
    → IsClosedTo user_id s
    → ((found : RefreshToken)
        → find_token p input.refresh_token s.refresh_tokens ≡ some found
        → found.user_id ≡ user_id)
    → ((resolve_provider_session p cookie now s ≡ (ok none, s))
        ⊎ ((r : ProviderSession) × (r.user_id ≢ user_id)
            × (resolve_provider_session p cookie now s ≡ (ok (some r), s))))
      × IsThrown (rotate_token_for_client p input fresh now s).0
unfolding rotate_token_for_client
closed_user_refused p user_id s now cookie input fresh v mine = (
  elim (session_cases p cookie now s) [
    | inl e ↦ inl e
    | inr (r, raw, given, found, unrevoked, idle, absolute, e) ↦ inr (
      r,
      (λ same. open_closed unrevoked (All-of-find_one _ _ s.sessions v.sessions found same)),
      e,
    )
  ],
  rotation_cases p input.refresh_token now s _ (λ o. IsThrown o.0) (λ x. (x, refl))
      (λ t f r. (replay_conflict, refl))
      (λ t f r u.
        absurd
          (open_closed u.unrevoked (All-of-find_one _ _ s.refresh_tokens v.tokens f (mine t f)))),
)
