-- ===== src/Examples/TokenRuns.antt =====
-- Refresh tokens: issued, rotated, presented again, revoked.
use oid.Shared.{
  ◌≡◌, refl, ◌≢◌, none, some, arith, String, eq_iff, ◌==◌, Bool, false, find_one, save, count, true,
}
use oid.Store.{ok}
use oid.Audit.{record_event}
use oid.Tokens.{
  present_token, assert_token_is_usable, rotate_checked, refreshing_client, refresh_lifetimes,
  assert_client_secret, active_user, replace_token, client_summary, RotateInput,
  RotateForClientInput, RotateForClientResult, IssueResult, rotate_token, rotate_token_for_client,
}
use oid.Tokens.Invariant.{IsSoundStore, IsNewToken, IsNewFamily}
use oid.Tokens.Rotation.{IsRetired, IsCaught}
use oid.Tokens.Rotation
use oid.Tokens.Successor
use oid.Tokens.Successor.{IsNewHash, IsRotated, IsPermitted}
use oid.Tokens.Replay
use oid.Tokens.Replay.{IsRefused}
use oid.Platform.{hash_secret}
use oid.Examples.Host.{host}
use oid.Examples.Rows.{rows, fresh, fresh', client, old_token}

pub apart : (s t : String) → (s == t) ≡ false → s ≢ t
apart s t e h = not_both e ((eq_iff s t).1 h)
  where
    not_both : {b : Bool} → b ≡ false → b ≡ true → ⊥
    not_both e h = cc

pub rows-IsSound : IsSoundStore rows
unfolding count
rows-IsSound = record {
  unique = ((apart "rtk_0" "rtk_1" refl, tt), (tt, tt));
  single = λ family. ground (arith, eq_iff "rtf_1" family);
  retired = ((λ e. cc), ((λ e. refl), tt));
}

pub fresh-IsNewToken : IsNewToken host fresh rows
fresh-IsNewToken = (apart "rtk_1" "rtk_2" refl, (apart "rtk_0" "rtk_2" refl, tt))

pub fresh-IsNewFamily : IsNewFamily host fresh rows
fresh-IsNewFamily = (apart "rtf_1" "rtf_2" refl, (apart "rtf_1" "rtf_2" refl, tt))

fresh-IsNewHash : IsNewHash host fresh rows
unfolding hash_secret
fresh-IsNewHash = (apart "ABAABAAAB" "BBBBBBBB" refl, (apart "AABAABAAB" "BBBBBBBB" refl, tt))

old-IsRetired : IsRetired host "bbb" "rtf_1" rows
unfolding find_one hash_secret
old-IsRetired = (old_token, refl, refl, refl)

-- A rotation of the live token by its client, one second on.
abbrev pub rotation : RotateForClientInput
rotation = record { refresh_token = "abc"; client_identifier = "app"; client_secret = some "abc" }

abbrev pub plain_rotation : RotateInput
plain_rotation = record {
  refresh_token = "abc";
  idle_ttl_seconds = 10;
  absolute_ttl_seconds = 20;
  upstream_refresh_token = none;
}

abbrev replayed : RotateForClientInput
replayed = record rotation { refresh_token = "bbb"; client_secret = none }

rotate_token_for_client-IsCaught_example :
    let (r, t) = rotate_token_for_client host replayed fresh 2000 rows in
    IsCaught "rtf_1" rows t RotateForClientResult r
rotate_token_for_client-IsCaught_example =
    Rotation.rotate_token_for_client-IsCaught host replayed fresh 2000 rows "rtf_1" old-IsRetired

abbrev issued : IssueResult
issued = record {
  refresh_token = "ABAAAAAB";
  token_id = "rtk_2";
  family_id = "rtf_1";
  idle_expires_at = 12000;
  absolute_expires_at = 21000;
}

abbrev rotated : RotateForClientResult
rotated = record {
  issued = issued;
  token = record {
    id = "rtk_2";
    family_id = "rtf_1";
    user_id = "usr_1";
    client_id = "cli_1";
    provider_session_id = some "ses_1";
  };
  client = client_summary client;
}

rotation-ok : (rotate_token_for_client host rotation fresh 2000 rows).0 ≡ ok rotated
unfolding rotate_token_for_client present_token find_one hash_secret assert_token_is_usable
    rotate_checked refreshing_client refresh_lifetimes assert_client_secret active_user
    replace_token record_event
rotation-ok = refl

plain_rotation-ok : (rotate_token host plain_rotation fresh 2000 rows).0 ≡ ok issued
unfolding rotate_token present_token find_one hash_secret assert_token_is_usable replace_token
    record_event
plain_rotation-ok = refl

abbrev second_rotation : RotateInput
second_rotation = record plain_rotation { refresh_token = "ABAAAAAB" }

abbrev second_issued : IssueResult
second_issued = record {
  refresh_token = "ABAAAAAAB";
  token_id = "rtk_3";
  family_id = "rtf_1";
  idle_expires_at = 15000;
  absolute_expires_at = 22000;
}

second_rotation-ok :
    (rotate_token host second_rotation fresh' 5000
      (rotate_token host plain_rotation fresh 2000 rows).1).0
    ≡ ok second_issued
unfolding save rotate_token present_token find_one hash_secret assert_token_is_usable replace_token
    record_event
second_rotation-ok = refl

rotate_token_for_client-IsRotated_example :
    IsRotated host "abc" fresh 2000 rows issued
      (rotate_token_for_client host rotation fresh 2000 rows).1
rotate_token_for_client-IsRotated_example =
    Successor.rotate_token_for_client-IsRotated host fresh 2000 rows rows-IsSound fresh-IsNewToken
      fresh-IsNewHash rotation rotated rotation-ok

rotate_token_for_client-IsAuthorized_example : IsPermitted host rotation 2000 rows rotated
rotate_token_for_client-IsAuthorized_example =
    Successor.rotate_token_for_client-IsAuthorized host rotation fresh 2000 rows rotated rotation-ok

replay_after_rotation_example :
    let rotated_rows = (rotate_token_for_client host rotation fresh 2000 rows).1 in
    let (r, caught) = rotate_token_for_client host rotation fresh' 3000 rotated_rows in
    IsCaught "rtf_1" rotated_rows caught RotateForClientResult r × IsRefused host "ABAAAAAB" caught
replay_after_rotation_example =
    Replay.replay_after_rotation host fresh 2000 rows rows-IsSound fresh-IsNewToken fresh-IsNewHash
      rotation rotation fresh' 3000 rotated rotation-ok refl

absolute_expiry_slides_example : second_issued.absolute_expires_at ≡ 22000
absolute_expiry_slides_example =
    Replay.absolute_expiry_slides host fresh 2000 rows rows-IsSound fresh-IsNewToken fresh-IsNewHash
      plain_rotation second_rotation fresh' 5000 issued second_issued plain_rotation-ok
      second_rotation-ok refl
