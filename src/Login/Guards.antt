-- ===== src/Login/Guards.antt =====
-- What the guards of a login demand, and what its success clears.
use oid.Shared.{
  ℕ, ◌<◌, ◌≤◌, String, true, false, is_empty, leb, List, Option, none, some, ◌≡◌, refl, ◌⊎◌, inl,
  inr, arith, subst, Bool-cases, Option-cases,
}
use oid.Platform.{Platform}
use oid.Store.{Result, ok, err, HttpException}
use oid.Csrf.Acceptance.{IsAccepted, Accepts, assert_parts-Accepts}
use oid.RateLimit.{
  LoginLimits, LoginBuckets, assert_login_allowed, record_success, Bucket, get, get-delete,
  is_blocked,
}
use oid.Login.{assert_login_csrf}

-- Fewer failures than `max` are counted for the key, or the window of its count is over.
pub data IsOpen (key : String) (max now : ℕ) (m : List (String × Bucket)) : Type 0 where
  no_failure : get key m ≡ none → IsOpen key max now m
  over : (b : Bucket) → get key m ≡ some b → b.reset_at ≤ now → IsOpen key max now m
  few : (b : Bucket) → get key m ≡ some b → b.count < max → IsOpen key max now m

-- An address that is not known, or is empty, is not counted.
abbrev pub IsOpenAddress : Option String → ℕ → ℕ → List (String × Bucket) → Type 0
IsOpenAddress none max now m = Unit
IsOpenAddress (some ip) max now m = (is_empty ip ≡ true) ⊎ IsOpen ip max now m

-- No failures are counted for the address.
abbrev pub IsClearedAddress : Option String → List (String × Bucket) → Type 0
IsClearedAddress none m = Unit
IsClearedAddress (some ip) m = (is_empty ip ≡ true) ⊎ (get ip m ≡ none)

is_blocked-IsOpen :
    (key : String) (max now : ℕ) (m : List (String × Bucket))
    → (is_blocked key max now m).0 ≡ false
    → IsOpen key max now m
unfolding is_blocked
is_blocked-IsOpen key max now m h = elim (Option-cases (get key m)) [
  | inl e ↦ IsOpen.no_failure e
  | inr (b, e) ↦ elim (Bool-cases (leb b.reset_at now)) [
    | inl f ↦ IsOpen.over b e (ground (arith, f))
    | inr f ↦ IsOpen.few b e (ground (arith, rw (e, f) at h))
  ]
]

err-≢-ok : {x : HttpException} → ◌≡◌ {A = Result (Unit {0})} (err x) (ok tt) → ⊥
err-≢-ok e = cc

-- A login that the limits let through.
pub assert_login_allowed-IsOpen :
    (limits : LoginLimits) (ip : Option String) (email : String) (now : ℕ) (m : LoginBuckets)
    → (assert_login_allowed limits ip email now m).0 ≡ ok tt
    → IsOpen email limits.account_max_attempts now m.accounts
      × IsOpenAddress ip limits.ip_max_attempts now m.ips
unfolding assert_login_allowed
assert_login_allowed-IsOpen limits none email now m h =
    elim (Bool-cases (is_blocked email limits.account_max_attempts now m.accounts).0) [
      | inl e ↦ absurd (err-≢-ok (rw e at h))
      | inr e ↦ (is_blocked-IsOpen email limits.account_max_attempts now m.accounts e, tt)
    ]
assert_login_allowed-IsOpen limits (some ip) email now m h =
    elim (Bool-cases (is_blocked email limits.account_max_attempts now m.accounts).0) [
      | inl e ↦ absurd (err-≢-ok (rw e at h))
      | inr e ↦
          let account = is_blocked-IsOpen email limits.account_max_attempts now m.accounts e in
          elim (Bool-cases (is_empty ip)) [
            | inl f ↦ (account, inl f)
            | inr f ↦ elim (Bool-cases (is_blocked ip limits.ip_max_attempts now m.ips).0) [
              | inl g ↦ absurd (err-≢-ok (rw (e, f, g) at h))
              | inr g ↦ (account, inr (is_blocked-IsOpen ip limits.ip_max_attempts now m.ips g))
            ]
          ]
    ]

-- After a success nothing is counted.
pub record_success-cleared :
    (ip : Option String) (email : String) (m : LoginBuckets)
    → (get email (record_success ip email m).accounts ≡ none)
      × IsClearedAddress ip (record_success ip email m).ips
unfolding record_success
record_success-cleared none email m = (get-delete email m.accounts, tt)
record_success-cleared (some ip) email m = elim (Bool-cases (is_empty ip)) [
  | inl e ↦ (get-delete email m.accounts, inl e)
  | inr e ↦ (get-delete email m.accounts, inr (rw e (get-delete ip m.ips)))
]

-- A form that is let through has a cookie that is signed, and repeats it.
pub assert_login_csrf-IsAccepted :
    (p : Platform) (submitted : String) (cookie : Option String)
    → assert_login_csrf p submitted cookie ≡ ok tt
    → (token : String) × (cookie ≡ some token) × IsAccepted p submitted token
unfolding assert_login_csrf
assert_login_csrf-IsAccepted p submitted none h = absurd (err-≢-ok h)
assert_login_csrf-IsAccepted p submitted (some token) h = elim (Bool-cases (is_empty token)) [
  | inl e ↦ absurd (err-≢-ok (rw e at h))
  | inr e ↦ (
    token,
    refl,
    subst (Accepts p submitted token) (rw e at h) (assert_parts-Accepts p submitted token),
  )
]
