-- ===== src/Store/Statuses.antt =====
-- What the tests of the columns `status` say.
use oid.Shared.{true, ◌≡◌, refl}
use oid.Store.{UserStatus, is_active_user, ClientStatus, is_active_client}

pub is_active_user-eq :
    (status : UserStatus) → is_active_user status ≡ true → status ≡ UserStatus.active
is_active_user-eq UserStatus.pending e = cc
is_active_user-eq UserStatus.active e = refl
is_active_user-eq UserStatus.suspended e = cc
is_active_user-eq UserStatus.deactivated e = cc

pub is_active_client-eq :
    (status : ClientStatus) → is_active_client status ≡ true → status ≡ ClientStatus.active
is_active_client-eq ClientStatus.active e = refl
is_active_client-eq ClientStatus.disabled e = cc
