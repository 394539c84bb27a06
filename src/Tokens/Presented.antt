-- ===== src/Tokens/Presented.antt =====
-- What presenting a token can come to: the cases of `present_token`, with the tables after each.
use oid.Shared.{
  ℕ, ◌<◌, String, ◌≡◌, refl, ◌⊎◌, inl, inr, true, false, none, some, truthy, leb, leb→lt,
  if◌then◌else◌, Bool-cases, Option-cases, update_rows,
}
use oid.Platform.{Platform}
use oid.Store.{
  Action, and_then, end_transaction, lift, pure, conflict, Store, Result, ok, err, HttpException,
  unauthorized, RefreshToken,
}
use oid.Audit.{record_event}
use oid.Tokens.Model.{
  restore_tokens, Checked, replay_detected, checked, in_family, mark_revoked,
  assert_token_is_usable, revoke_family,
}
use oid.Tokens.Service.{
  on_checked, throw_if_replayed, rotate_with, find_token, detect_replay, usable_token,
  present_token,
}

-- Not revoked, and before both of its expiries.
pub record IsUsable (t : RefreshToken) (now : ℕ) : Type 0 where
  pub unrevoked : t.revoked_at ≡ none
  pub before_idle : now < t.idle_expires_at
  pub before_absolute : now < t.absolute_expires_at

pub IsUsable-cases :
    (t : RefreshToken) (now : ℕ)
    → ((e : HttpException) × (assert_token_is_usable t now ≡ err e))
      ⊎ (IsUsable t now × (assert_token_is_usable t now ≡ ok tt))
unfolding assert_token_is_usable
IsUsable-cases t now = elim (Option-cases t.revoked_at) [
  | inl live ↦ elim (Bool-cases (leb t.idle_expires_at now)) [
    | inl e ↦ inl (unauthorized "Refresh token has expired.", rw (live, e))
    | inr e ↦ elim (Bool-cases (leb t.absolute_expires_at now)) [
      | inl e' ↦ inl (unauthorized "Refresh token has expired.", rw (live, e, e'))
      | inr e' ↦ inr (
        record { unrevoked = live; before_idle = leb→lt _ _ e; before_absolute = leb→lt _ _ e' },
        rw (live, e, e'),
      )
    ]
  ]
  | inr (at, e) ↦ inl (unauthorized "Refresh token has been revoked.", rw e)
]

pub detect_replay-tokens :
    (t : RefreshToken) (now : ℕ) (s : Store)
    → ((detect_replay t now s).0 ≡ ok replay_detected)
      × ((detect_replay t now s).1.refresh_tokens
          ≡ update_rows
              (in_family t.family_id)
              (mark_revoked now "replay_detected")
              s.refresh_tokens)
unfolding detect_replay revoke_family record_event
detect_replay-tokens t now s = (refl, refl)

module _ (p : Platform) (raw : String) (now : ℕ) (s : Store) where
  module _ (P : Result (Checked RefreshToken) × Store → Type 0)
      (refused : (e : HttpException) → P (err e, s))
      (replayed : (t : RefreshToken)
        → find_token p raw s.refresh_tokens ≡ some t
        → truthy t.rotated_to_token_id ≡ true
        → P (detect_replay t now s))
      (usable : (t : RefreshToken)
        → find_token p raw s.refresh_tokens ≡ some t
        → truthy t.rotated_to_token_id ≡ false
        → IsUsable t now
        → P (ok (checked t), s)) where
    found_cases :
        (t : RefreshToken)
        → find_token p raw s.refresh_tokens ≡ some t
        → P ((if truthy t.rotated_to_token_id then detect_replay t now else usable_token t now) s)
    found_cases t e = elim (Bool-cases (truthy t.rotated_to_token_id)) [
      | inl r ↦ rw r (replayed t e r)
      | inr r ↦ rw r (elim (IsUsable-cases t now) [
        | inl (x, refusal) ↦ rw refusal (refused x)
        | inr (u, fine) ↦ rw fine (usable t e r u)
      ])
    ]

    -- A property of the outcome holds if it holds of each way in which the call can end.
    pub present_cases : P (present_token p raw now s)
    unfolding present_token
    present_cases = elim (Option-cases (find_token p raw s.refresh_tokens)) [
      | inl e ↦ rw e (refused (unauthorized "Invalid refresh token."))
      | inr (t, e) ↦ rw e (found_cases t e)
    ]

-- How a transaction ends that began at `s`: its writes to the tokens are kept or taken back.
abbrev pub settled : {B : Type 0} → Store → Result B × Store → Result B × Store
settled s (ok b, t) = (ok b, t)
settled s (err e, t) = (err e, restore_tokens s t)

pub settled-ok :
    {B : Type 0} (s : Store) (o : Result B × Store) {b : B} → o.0 ≡ ok b → (settled s o).1 ≡ o.1
settled-ok s (ok b, t) e = refl
settled-ok s (err x, t) e = cc

abbrev pub replay_conflict : HttpException
replay_conflict = conflict "Refresh token replay detected. Token family revoked."

module _ (p : Platform) (raw : String) (now : ℕ) (s : Store) {B : Type 0}
    (replace : RefreshToken → Action B) (P : Result B × Store → Type 0)
    (refused : (e : HttpException) → P (err e, s))
    (replayed : (t : RefreshToken)
      → find_token p raw s.refresh_tokens ≡ some t
      → truthy t.rotated_to_token_id ≡ true
      → P (err replay_conflict, (detect_replay t now s).1))
    (usable : (t : RefreshToken)
      → find_token p raw s.refresh_tokens ≡ some t
      → truthy t.rotated_to_token_id ≡ false
      → IsUsable t now
      → P (settled s (replace t s))) where
  -- From what the callback came to, what the rotation comes to.
  abbrev conclude : Result (Checked B) × Store → Result B × Store
  conclude o =
      let (r, t) = end_transaction (restore_tokens s) o.0 o.1 in
      and_then r t (λ c. lift (throw_if_replayed c))

  conclude_replaced :
      (o : Result B × Store) → conclude (and_then o.0 o.1 (λ b. pure (checked b))) ≡ settled s o
  conclude_replaced (ok b, t) = refl
  conclude_replaced (err e, t) = refl

  -- The same for a whole rotation.
  pub rotation_cases : P (rotate_with p raw now replace s)
  rotation_cases =
      present_cases p raw now s (λ o. P (conclude (and_then o.0 o.1 (λ c. on_checked c replace))))
        refused (λ t e r. rw (detect_replay-tokens t now s).0 (replayed t e r))
        (λ t e r u. rw (conclude_replaced (replace t s)) (usable t e r u))
