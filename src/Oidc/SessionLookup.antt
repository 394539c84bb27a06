-- ===== src/Oidc/SessionLookup.antt =====
-- `resolveProviderSession` of oidc/oidc-authorization.service.ts, and how it can end.
use oid.Shared.{
  ℕ, ◌<◌, String, ◌==◌, ◌||◌, List, Option, none, some, is_some, truthy, find_one, leb, leb→lt,
  if◌then◌else◌, ◌≡◌, refl, ◌⊎◌, inl, inr, Bool-cases, Option-cases,
}
use oid.Platform.{Platform, hash_secret}
use oid.Store.{Store, Action, ok, gets, ProviderSession}

-- A session that has not been revoked and is before both of its expiries.
unfoldable pub live_session : ℕ → Option ProviderSession → Option ProviderSession
live_session now none = none
live_session now (some session) =
    if is_some session.revoked_at
      || leb session.idle_expires_at now
      || leb session.absolute_expires_at now
    then none
    else some session

module _ (p : Platform) where
  abbrev session_of : ℕ → List ProviderSession → Option String → Option ProviderSession
  session_of now sessions none = none
  session_of now sessions (some token) =
      if truthy (some token)
      then live_session now (find_one (λ r. r.session_hash == hash_secret p token) sessions)
      else none

  unfoldable pub resolve_provider_session : Option String → ℕ → Action (Option ProviderSession)
  resolve_provider_session token now = gets (λ s. session_of now s.sessions token)

live_session_cases :
    (now : ℕ) (o : Option ProviderSession)
    → (live_session now o ≡ none)
      ⊎ ((r : ProviderSession) × (o ≡ some r)
          × (r.revoked_at ≡ none)
          × (now < r.idle_expires_at)
          × (now < r.absolute_expires_at)
          × (live_session now o ≡ some r))
unfolding live_session
live_session_cases now none = inl refl
live_session_cases now (some r) = elim (Option-cases r.revoked_at) [
  | inr (at, e) ↦ inl (rw e refl)
  | inl e ↦ elim (Bool-cases (leb r.idle_expires_at now)) [
    | inl e' ↦ inl (rw (e, e') refl)
    | inr e' ↦ elim (Bool-cases (leb r.absolute_expires_at now)) [
      | inl e'' ↦ inl (rw (e, e', e'') refl)
      | inr e'' ↦ inr (r, refl, e, leb→lt _ _ e', leb→lt _ _ e'', rw (e, e', e'') refl)
    ]
  ]
]

-- The session that a token stands for.
pub session_cases :
    (p : Platform) (token : Option String) (now : ℕ) (s : Store)
    → (resolve_provider_session p token now s ≡ (ok none, s))
      ⊎ ((r : ProviderSession) × (raw : String) × (token ≡ some raw)
          × (find_one (λ r. r.session_hash == hash_secret p raw) s.sessions ≡ some r)
          × (r.revoked_at ≡ none)
          × (now < r.idle_expires_at)
          × (now < r.absolute_expires_at)
          × (resolve_provider_session p token now s ≡ (ok (some r), s)))
unfolding resolve_provider_session
session_cases p none now s = inl refl
session_cases p (some raw) now s = elim (Bool-cases (truthy (some raw))) [
  | inr e ↦ inl (rw e refl)
  | inl e ↦
      elim (live_session_cases now
        (find_one (λ r. r.session_hash == hash_secret p raw) s.sessions)) [
          | inl e' ↦ inl (rw (e, e') refl)
          | inr (r, f, a, b, c, e') ↦ inr (r, raw, refl, f, a, b, c, rw (e, e') refl)
        ]
]
