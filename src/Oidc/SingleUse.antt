-- ===== src/Oidc/SingleUse.antt =====
-- What an exchange of a code leaves behind, and the second presentation of a code.
use oid.Shared.{
  ℕ, String, ◌==◌, ◌≡◌, refl, sym, ◌∙◌, ◌⊎◌, inl, inr, true, Option, none, some, is_some,
  Bool-cases, find_one-passes, find_one-save_self, save, HasUniqueKeys, is_empty, concat, subst,
}
use oid.Platform.{Platform, hash_secret}
use oid.Store.{
  Store, Result, ok, err, HttpException, bad_request, Client, User, AuthorizationCode,
  end_transaction, transaction,
}
use oid.Oidc.Input.{normalize_required, trimmed}
use oid.Oidc.Token.{
  TokenRequest, TokenResponse, CodeRequest, FreshTokens, restore_codes, find_code, issue_tokens,
  exchange_code,
}
use oid.Oidc.Exchange.{IsExchangeable, checked_cases, issue_cases, used}

-- The fields of the request, trimmed.
abbrev pub wanted_of : TokenRequest → CodeRequest
wanted_of request = record {
  code = trimmed request.code;
  redirect_uri = trimmed request.redirect_uri;
  client_identifier = trimmed request.client_id;
  code_verifier = trimmed request.code_verifier;
}

-- Refused without a trace among the codes and the refresh tokens, or the code is used up.
abbrev pub IsSettled : Platform → TokenRequest → ℕ → Store → Result TokenResponse × Store → Type 0
IsSettled p request now s (err e, t) = (t.codes ≡ s.codes) × (t.refresh_tokens ≡ s.refresh_tokens)
IsSettled p request now s (ok r, t) =
    (code : AuthorizationCode) × (client : Client) × (user : User) × IsExchangeable p request
      (wanted_of request) now s code client user
    × (t.codes ≡ save (λ c. c.id) (used code now) s.codes)

pub required_cases :
    (value : Option String) (name : String)
    → ((e : HttpException) × (normalize_required value name ≡ err e))
      ⊎ (normalize_required value name ≡ ok (trimmed value))
unfolding normalize_required
required_cases value name = elim (Bool-cases (is_empty (trimmed value))) [
  | inl e ↦ inl (bad_request (concat name " is required."), rw e refl)
  | inr e ↦ inr (rw e refl)
]

module _ (p : Platform) (request : TokenRequest) (fresh : FreshTokens) (now : ℕ) (s : Store)
    (P : Result TokenResponse × Store → Type 0) (refused : (e : HttpException) → P (err e, s))
    (issued : (code : AuthorizationCode) (client : Client) (user : User)
      → IsExchangeable p request (wanted_of request) now s code client user
      → P (transaction restore_codes (issue_tokens p request code client user fresh now) s)) where
  exchange_cases : P (exchange_code p request fresh now s)
  unfolding exchange_code
  exchange_cases = elim (required_cases request.code "code") [
    | inl (x, e) ↦ rw e (refused x)
    | inr a ↦ elim (required_cases request.redirect_uri "redirect_uri") [
      | inl (x, e) ↦ rw (a, e) (refused x)
      | inr b ↦ elim (required_cases request.client_id "client_id") [
        | inl (x, e) ↦ rw (a, b, e) (refused x)
        | inr c ↦ elim (required_cases request.code_verifier "code_verifier") [
          | inl (x, e) ↦ rw (a, b, c, e) (refused x)
          | inr d ↦
              rw (a, b, c, d)
                (checked_cases p request (wanted_of request) fresh now s
                  (λ end. P (end_transaction (restore_codes s) end.0 end.1)) refused issued)
        ]
      ]
    ]
  ]

-- If an exchange at the time `now` returns tokens, then the presented code was stored, unused, not
-- expired and issued for the presented redirect URI; the client it was issued to is the presented
-- client, enabled, and has authenticated unless it is public; the verifier hashes to the code's
-- challenge; the user is active; and the code is stored as used. If it throws, the codes and the
-- refresh tokens are as they were.
pub exchange_code-IsSettled :
    (p : Platform) (request : TokenRequest) (fresh : FreshTokens) (now : ℕ) (s : Store)
    → IsSettled p request now s (exchange_code p request fresh now s)
exchange_code-IsSettled p request fresh now s =
    exchange_cases p request fresh now s (IsSettled p request now s) (λ e. (refl, refl))
      λ code client user demands. elim (issue_cases p request code client user fresh now s) [
        | inl (e, t, same, kept) ↦ rw same (refl, kept)
        | inr (r, t, same, saved) ↦ rw same (code, client, user, demands, saved)
      ]

used-not_redeemable :
    (code stored : AuthorizationCode)
    → some stored ≡ some code
    → is_some stored.consumed_at ≡ true
    → code.consumed_at ≡ none
    → ⊥
used-not_redeemable code stored same gone unused = cc

-- A used code is refused.
used_again :
    (p : Platform) (request : TokenRequest) (fresh : FreshTokens) (later : ℕ) (s : Store)
    (code : AuthorizationCode)
    → find_code p (trimmed request.code) s.codes ≡ some code
    → is_some code.consumed_at ≡ true
    → (e : HttpException) × (exchange_code p request fresh later s ≡ (err e, s))
used_again p request fresh later s code found gone =
    exchange_cases p request fresh later s (λ end. (e : HttpException) × (end ≡ (err e, s)))
      (λ e. (e, refl))
      λ other client user demands.
        absurd (
          used-not_redeemable other code (sym found ∙ demands.found) gone demands.redeemable.unused)

-- The code of an exchange is stored as used.
used_up :
    (p : Platform) (request : TokenRequest) (fresh : FreshTokens) (now : ℕ) (s : Store)
    (r : TokenResponse) (t : Store)
    → HasUniqueKeys (λ c. c.id) s.codes
    → IsSettled p request now s (ok r, t)
    → (code : AuthorizationCode) × (find_code p (trimmed request.code) t.codes ≡ some code)
      × (is_some code.consumed_at ≡ true)
used_up p request fresh now s r t unique (code, client, user, demands, saved) = (
  used code now,
  rw saved (
      find_one-save_self (λ c. c.id) (λ c. c.code_hash == hash_secret p (trimmed request.code)) code
        (used code now) s.codes unique demands.found refl
        (find_one-passes (λ c. c.code_hash == hash_secret p (trimmed request.code)) s.codes
          demands.found)),
  refl,
)

-- The rows of the table of codes have different ids. Once an exchange has returned tokens, any
-- later exchange of the same code, by whichever client and at whichever time, throws and changes
-- nothing.
pub exchange_code-once :
    (p : Platform) (first again : TokenRequest) (fresh fresh' : FreshTokens) (now later : ℕ)
    (s : Store) (r : TokenResponse)
    → HasUniqueKeys (λ c. c.id) s.codes
    → (exchange_code p first fresh now s).0 ≡ ok r
    → trimmed again.code ≡ trimmed first.code
    → (e : HttpException) × (exchange_code p again fresh' later
          (exchange_code p first fresh now s).1
        ≡ (err e, (exchange_code p first fresh now s).1))
exchange_code-once p first again fresh fresh' now later s r unique returned same =
    let (code, found, gone) =
      used_up p first fresh now s r (exchange_code p first fresh now s).1 unique (
        subst (λ o. IsSettled p first now s (o, (exchange_code p first fresh now s).1)) returned
          (exchange_code-IsSettled p first fresh now s)) in
    used_again p again fresh' later _ code (rw same found) gone
