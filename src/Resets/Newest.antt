-- ===== src/Resets/Newest.antt =====
-- A new link takes the place of the earlier ones: password resets and invites.
use oid.Shared.{
  ℕ, String, ◌==◌, eq_refl, ◌&&◌, trim, List, [], ◌∷◌, some, ◌≡◌, refl, arith, bit, count, find_one,
  update_rows, update_rows-IsFresh, save, count-save_fresh, IsFresh, if◌then◌else◌, Bool-cases, inl,
  inr,
}
use oid.Platform.{Platform, prefixed_ulid}
use oid.Store.{Store, ok, User, is_active_user, PasswordReset}
use oid.Audit.{record_event}
use oid.Resets.{
  PasswordResetRequestContext, ResetDraw, is_open_reset, supersede_reset, new_reset, store_reset,
  request_for, request_reset,
}
use oid.Resets.Completion.{id_of}

none_open :
    (user_id : String) (now : ℕ) (rows : List PasswordReset)
    → count (is_open_reset user_id) (update_rows (is_open_reset user_id) (supersede_reset now) rows)
      ≡ 0
unfolding count update_rows
none_open user_id now [] = refl
none_open user_id now (r ∷ rows) = ground (arith, none_open user_id now rows)

-- A request for the address of a user, with an id new to the table, always gets the same answer; if the
-- user is active and the mail was sent, exactly one reset of that user is open afterwards, and else as
-- many as before.
pub request_reset_lem :
    (p : Platform) (hours : ℕ) (email : String) (context : PasswordResetRequestContext)
    (draw : ResetDraw) (now : ℕ) (s : Store) (user : User)
    → find_one (λ u. u.normalized_email == p.to_lower_case (trim email)) s.users ≡ some user
    → IsFresh id_of (prefixed_ulid p "pwr" draw.ulid) s.resets
    → let (r, t) = request_reset p hours email context draw now s in
      (r ≡ ok tt)
      × (count (is_open_reset user.id) t.resets ≡ (
          if is_active_user user.status && draw.mail_sent
          then 1
          else count (is_open_reset user.id) s.resets))
unfolding request_reset request_for store_reset record_event
request_reset_lem p hours email context draw now s user found fresh =
    elim (Bool-cases (is_active_user user.status && draw.mail_sent)) [
      | inl e ↦ rw (found, e) (refl, one)
      | inr e ↦ rw (found, e) (refl, refl)
    ]
  where
    one :
        count (is_open_reset user.id) (
          save id_of
            (new_reset p hours user draw now)
            (update_rows (is_open_reset user.id) (supersede_reset now) s.resets))
        ≡ 1
    one =
        let rows = update_rows (is_open_reset user.id) (supersede_reset now) s.resets in
        let new = new_reset p hours user draw now in
        let new_open : bit (is_open_reset user.id new) ≡ 1 = rw (eq_refl user.id) refl in
        let still_fresh =
          update_rows-IsFresh id_of (is_open_reset user.id) (supersede_reset now) new.id (λ r. refl)
            s.resets fresh in
        omega (
          arith,
          new_open,
          none_open user.id now s.resets,
          count-save_fresh id_of (is_open_reset user.id) new rows still_fresh,
        )
