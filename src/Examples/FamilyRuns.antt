-- ===== src/Examples/FamilyRuns.antt =====
-- Runs of several calls: a rotation, then a revocation, then further presentations.
use oid.Shared.{Run, ◌≡◌, refl, count, find_one, some, update_rows, find_rows}
use oid.Store.{Store, RefreshToken}
use oid.Audit.{record_event}
use oid.Tokens.{
  rotate_token, rotate_token_for_client, resolve_refresh_grant, revoke_token_family, find_token,
  revoke_family,
}
use oid.Tokens.Invariant.{IsSoundStore, revoke_token_family-IsSound}
use oid.Tokens.Lifecycle.{family_state, dead, ◌⟶◌}
use oid.Tokens.Reach
use oid.Tokens.Reach.{IsCall, IsThrown}
use oid.Platform.{hash_secret}
use oid.Examples.Host.{host}
use oid.Examples.Rows.{rows, fresh}
use oid.Examples.TokenRuns.{rows-IsSound, fresh-IsNewToken, rotation, plain_rotation}

abbrev rotated_rows : Store
rotated_rows = (rotate_token_for_client host rotation fresh 2000 rows).1

abbrev left_rows : Store
left_rows = (revoke_token_family "rtf_1" "left" 3000 rotated_rows).1

rotate_then_leave : Run (IsCall host) rows left_rows
rotate_then_leave =
    Run.next rotated_rows left_rows
      (Run.next rows rotated_rows Run.start
        (Reach.IsCall.rotate_for_client_call rotation fresh 2000 fresh-IsNewToken))
      (Reach.IsCall.revoke_family_call "rtf_1" "left" 3000)

run-IsSound_example : IsSoundStore left_rows
run-IsSound_example = Reach.run-IsSound host rows rows-IsSound left_rows rotate_then_leave

run-follows_example :
    Run ◌⟶◌
      (family_state rows.refresh_tokens "rtf_1")
      (family_state left_rows.refresh_tokens "rtf_1")
run-follows_example = Reach.run-follows host rows rows-IsSound left_rows rotate_then_leave "rtf_1"

abbrev dead_rows : Store
dead_rows = (revoke_token_family "rtf_1" "left" 1500 rows).1

dead_rows-IsSound : IsSoundStore dead_rows
dead_rows-IsSound = revoke_token_family-IsSound "rtf_1" "left" 1500 rows rows-IsSound

dead_rows-dead : family_state dead_rows.refresh_tokens "rtf_1" ≡ dead
unfolding family_state count revoke_token_family revoke_family record_event update_rows find_rows
dead_rows-dead = refl

abbrev later_rows : Store
later_rows = (revoke_token_family "rtf_9" "left" 1800 dead_rows).1

found_in_family :
    (found : RefreshToken)
    → find_token host "abc" later_rows.refresh_tokens ≡ some found
    → found.family_id ≡ "rtf_1"
unfolding find_one hash_secret count revoke_token_family revoke_family record_event update_rows
    find_rows
found_in_family found e = cc

dead_family_refused_example :
    IsThrown (rotate_token host plain_rotation fresh 2000 later_rows).0
    × IsThrown (rotate_token_for_client host rotation fresh 2000 later_rows).0
    × IsThrown (resolve_refresh_grant host "abc" 2000 later_rows).0
dead_family_refused_example =
    Reach.dead_family_refused host dead_rows later_rows "rtf_1" dead_rows-IsSound dead_rows-dead
      (Run.next dead_rows later_rows Run.start
        (Reach.IsCall.revoke_family_call "rtf_9" "left" 1800))
      plain_rotation rotation fresh 2000 refl found_in_family
