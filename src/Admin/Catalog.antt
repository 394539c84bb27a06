-- ===== src/Admin/Catalog.antt =====
-- The configuration of clients under changes from the back office.
use oid.Shared.{
  ℕ, ◌≤◌, String, Bool, true, false, ◌||◌, is_some, ltb, List, Option, none, some, ◌≡◌, subst, inl,
  inr, arith, All, All-save, All-of-find_one, Bool-cases, find_one, count, save, HasUniqueKeys,
  save-HasUniqueKeys, claim-save,
}
use oid.Store.{ok, err, HttpException, Result-cases, Client}
use oid.Admin.Clients.{
  GivenNumber, natural, not_natural, AdminUpdateClientInput, default_to, normalize_positive_integer,
  RefreshTokenPolicy, build_refresh_token_policy, has_client_id, changed,
}
use oid.Admin.ClientEdits.{policy_of, update_policy}

abbrev pub id_of : Client → String
id_of c = c.id

-- Both lifetimes are there and positive if refresh tokens are allowed, and absent otherwise.
abbrev pub IsPolicy : RefreshTokenPolicy → Type 0
IsPolicy r =
    IsPair r.allow_refresh_tokens r.refresh_token_idle_ttl_seconds
      r.refresh_token_absolute_ttl_seconds
  where
    IsPair : Bool → Option ℕ → Option ℕ → Type 0
    IsPair true (some idle) (some absolute) = (1 ≤ idle) × (1 ≤ absolute)
    IsPair false none none = Unit
    IsPair _ _ _ = ⊥

pub record IsConfigured (c : Client) : Type 0 where
  pub access : 1 ≤ c.access_token_ttl_seconds
  pub id : 1 ≤ c.id_token_ttl_seconds
  pub policy : IsPolicy (policy_of c)

-- Ids and client ids are unique, and every client is configured.
pub record IsCatalog (clients : List Client) : Type 0 where
  pub unique : HasUniqueKeys id_of clients
  pub client_ids : (client_id : String) → count (has_client_id client_id) clients ≤ 1
  pub configured : All IsConfigured clients

module _ {A : Type 0} where
  pub ok_lem : {a b : A} → ok a ≡ ok b → a ≡ b
  ok_lem e = cc

  pub err-≢-ok : {x : HttpException} {a : A} → err x ≡ ok a → ⊥
  err-≢-ok e = cc

pub positive :
    (name : String) (n : GivenNumber) {m : ℕ} → normalize_positive_integer name n ≡ ok m → 1 ≤ m
unfolding normalize_positive_integer
positive name not_natural e = absurd (err-≢-ok e)
positive name (natural n) e = elim (Bool-cases (ltb 0 n)) [
  | inl t ↦ subst (λ m. 1 ≤ m) (ok_lem (rw t at e)) (ground (arith, t))
  | inr t ↦ absurd (err-≢-ok (rw t at e))
]

pub changed-positive :
    (name : String) (given : Option GivenNumber) (old : ℕ) {m : ℕ}
    → 1 ≤ old
    → changed given (normalize_positive_integer name) old ≡ ok m
    → 1 ≤ m
changed-positive name none old h e = subst (λ m. 1 ≤ m) (ok_lem e) h
changed-positive name (some n) old h e = positive name n e

pub built-IsPolicy :
    (idle absolute : Option GivenNumber) (allow : Bool) {r : RefreshTokenPolicy}
    → build_refresh_token_policy idle absolute allow ≡ ok r
    → IsPolicy r
unfolding build_refresh_token_policy
built-IsPolicy idle absolute false e = subst IsPolicy (ok_lem e) tt
built-IsPolicy idle absolute true e =
    let idle_name : String = "refreshTokenIdleTtlSeconds" in
    let absolute_name : String = "refreshTokenAbsoluteTtlSeconds" in
    elim (Result-cases (normalize_positive_integer idle_name (default_to (natural 604800) idle))) [
      | inl (x, e') ↦ absurd (err-≢-ok (rw e' at e))
      | inr (i, e') ↦
          elim (Result-cases
            (normalize_positive_integer absolute_name (default_to (natural 2592000) absolute))) [
              | inl (x, e'') ↦ absurd (err-≢-ok (rw (e', e'') at e))
              | inr (a, e'') ↦
                  subst IsPolicy (ok_lem (rw (e', e'') at e))
                    (positive idle_name _ e', positive absolute_name _ e'')
            ]
    ]

pub updated-IsPolicy :
    (input : AdminUpdateClientInput) (c : Client) {r : RefreshTokenPolicy}
    → IsPolicy (policy_of c)
    → update_policy input c ≡ ok r
    → IsPolicy r
unfolding update_policy
updated-IsPolicy input c h e =
    elim (Bool-cases (
      is_some input.allow_refresh_tokens
      || is_some input.refresh_token_idle_ttl_seconds
      || is_some input.refresh_token_absolute_ttl_seconds)) [
        | inl t ↦ built-IsPolicy _ _ _ (rw t at e)
        | inr t ↦ subst IsPolicy (ok_lem (rw t at e)) h
      ]

-- A client replaced by one with the same client id.
pub edited-IsCatalog :
    (p : Client → Bool) (old new : Client) (clients : List Client)
    → IsCatalog clients
    → find_one p clients ≡ some old
    → new.id ≡ old.id
    → new.client_id ≡ old.client_id
    → IsConfigured new
    → IsCatalog (save id_of new clients)
edited-IsCatalog p old new clients v found same same_name fine = record {
  unique = save-HasUniqueKeys id_of new clients v.unique;
  client_ids = λ i.
      claim-save id_of (has_client_id i) p old new clients v.unique found same (v.client_ids i)
        (λ h. rw (rw same_name at h) (v.client_ids i));
  configured = All-save id_of IsConfigured new clients fine v.configured;
}

pub old-IsConfigured :
    (p : Client → Bool) (clients : List Client) {old : Client}
    → IsCatalog clients
    → find_one p clients ≡ some old
    → IsConfigured old
old-IsConfigured p clients v found = All-of-find_one IsConfigured p clients v.configured found
