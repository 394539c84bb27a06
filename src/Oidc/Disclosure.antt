-- ===== src/Oidc/Disclosure.antt =====
-- Least disclosure: which claims `buildUserClaims` can release.
use oid.Shared.{
  String, ◌==◌, eq_iff, ◌≡◌, refl, sym, arith, ◌⊎◌, inl, inr, Bool, true, false, ◌&&◌, List,
  is_some, includes, Bool-cases,
}
use oid.Json.{Json, Fields, end, member}
use oid.Store.{User}
use oid.Oidc.Claims.{claim_if, has_scope, profile_claim, email_claim, build_user_claims}

claim_if-member :
    (k name : String) (allowed : Bool) (value : Json) (rest : Fields)
    → is_some (member k (claim_if allowed name value rest)) ≡ true
    → ((allowed ≡ true) × (k ≡ name)) ⊎ (is_some (member k rest) ≡ true)
unfolding member
claim_if-member k name false value rest e = inr e
claim_if-member k name true value rest e = elim (Bool-cases (name == k)) [
  | inl t ↦ inl (refl, sym ((eq_iff _ _).0 t))
  | inr t ↦ inr (rw t at e)
]

and-both : (a b : Bool) → a && b ≡ true → (a ≡ true) × (b ≡ true)
and-both a b e = ground arith

abbrev pub IsReleasable : String → String → List String → Type 0
IsReleasable k scope allowed =
    ((has_scope "email" scope ≡ true)
      × (includes "email" allowed ≡ true)
      × ((k ≡ "email") ⊎ (k ≡ "email_verified")))
    ⊎ ((has_scope "profile" scope ≡ true) × (includes k allowed ≡ true))

profile_released :
    (k name scope : String) (allowed : List String)
    → profile_claim scope allowed name ≡ true
    → k ≡ name
    → IsReleasable k scope allowed
profile_released k name scope allowed e same =
    inr (rw same (and-both (has_scope "profile" scope) (includes name allowed) e))

email_released :
    (k scope : String) (allowed : List String)
    → email_claim scope allowed ≡ true
    → (k ≡ "email") ⊎ (k ≡ "email_verified")
    → IsReleasable k scope allowed
email_released k scope allowed e which =
    let (a, b) = and-both (has_scope "email" scope) (includes "email" allowed) e in
    inl (a, b, which)

none_left : {A : Type 0} (k : String) → is_some (member k end) ≡ true → A
unfolding member
none_left k e = absurd (false-ne-true e)
  where
    false-ne-true : false ≡ true → ⊥
    false-ne-true e = cc

-- If the claims about a user hold the name `k`, then either the scope has "email", the client may
-- see "email", and `k` is "email" or "email_verified"; or the scope has "profile" and the client
-- may see `k`.
pub build_user_claims-IsReleasable :
    (user : User) (scope : String) (allowed : List String) (k : String)
    → is_some (member k (build_user_claims user scope allowed)) ≡ true
    → IsReleasable k scope allowed
unfolding build_user_claims
build_user_claims-IsReleasable user scope allowed k e =
    elim (claim_if-member k "email" (email_claim scope allowed) _ _ e) [
      | inl (g, same) ↦ email_released k scope allowed g (inl same)
      | inr e ↦ elim (claim_if-member k "email_verified" (email_claim scope allowed) _ _ e) [
        | inl (g, same) ↦ email_released k scope allowed g (inr same)
        | inr e ↦ elim (claim_if-member k "name" (profile_claim scope allowed "name") _ _ e) [
          | inl (g, same) ↦ profile_released k "name" scope allowed g same
          | inr e ↦
              elim (claim_if-member k "given_name" (profile_claim scope allowed "given_name") _ _
                e) [
                  | inl (g, same) ↦ profile_released k "given_name" scope allowed g same
                  | inr e ↦
                      elim (claim_if-member k "family_name"
                        (profile_claim scope allowed "family_name") _ _ e) [
                          | inl (g, same) ↦ profile_released k "family_name" scope allowed g same
                          | inr e ↦
                              elim (claim_if-member k "preferred_username"
                                (profile_claim scope allowed "preferred_username") _ _ e) [
                                  | inl (g, same) ↦
                                      profile_released k "preferred_username" scope allowed g same
                                  | inr e ↦
                                      elim (claim_if-member k "profile_type"
                                        (profile_claim scope allowed "profile_type") _ _ e) [
                                          | inl (g, same) ↦
                                              profile_released k "profile_type" scope allowed g same
                                          | inr e ↦ none_left k e
                                        ]
                                ]
                        ]
                ]
        ]
      ]
    ]
