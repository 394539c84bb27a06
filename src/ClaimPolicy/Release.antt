-- ===== src/ClaimPolicy/Release.antt =====
-- The claims that the filters of better-auth release.
use oid.Shared.{
  String, ◌==◌, eq_iff, ◌≡◌, refl, sym, ◌∙◌, ◌||◌, ◌⊎◌, inl, inr, Bool, true, false, ◌&&◌, List,
  Option, none, some, includes, arith, Bool-cases, Option-cases, if◌then◌else◌, is_some,
}
use oid.Json.{Json, str, Fields, end, member}
use oid.ClaimPolicy.{
  allows, TokenContext, InternalUserClaims, copy_claim_if_allowed, copy_sub,
  filter_user_info_payload, add_claim, build_allowed_additional_claims,
}

-- The scope that stands for a claim.
unfoldable pub scope_for : String → String
scope_for claim =
    if claim == "email" || claim == "email_verified"
    then "email"
    else if claim == "groups"
    then "groups"
    else "profile"

-- The scopes and the policy allow the claim.
pub record IsCovered (scopes allowed : List String) (claim : String) : Type 0 where
  pub in_scope : includes (scope_for claim) scopes ≡ true
  pub in_policy : includes claim allowed ≡ true

copied :
    (k name : String) (v : Json) (source : Fields) (allowed : Bool) (rest : Fields)
    → member k (copy_claim_if_allowed source name allowed rest) ≡ some v
    → ((allowed ≡ true) × (k ≡ name) × (member k source ≡ some v)) ⊎ (member k rest ≡ some v)
unfolding member
copied k name v source false rest e = inr e
copied k name v source true rest e = elim (Option-cases (member name source)) [
  | inl f ↦ inr (rw f at e)
  | inr (w, f) ↦ elim (Bool-cases (name == k)) [
    | inr n ↦ inr (rw (f, n) at e)
    | inl n ↦
        let same : k ≡ name = sym ((eq_iff _ _).0 n) in
        inl (refl, same, rw same (f ∙ rw (f, n) at e))
  ]
]

copied_sub :
    (k : String) (v : Json) (source : Fields) (o : Option Json) (rest : Fields)
    → member "sub" source ≡ o
    → member k (copy_sub o rest) ≡ some v
    → ((k ≡ "sub") × (member k source ≡ some v)) ⊎ (member k rest ≡ some v)
unfolding member
copied_sub k v source none rest f e = inr e
copied_sub k v source (some (str sub)) rest f e = elim (Bool-cases ("sub" == k)) [
  | inr n ↦ inr (rw n at e)
  | inl n ↦ let same : k ≡ "sub" = sym ((eq_iff _ _).0 n) in inl (same, rw same (f ∙ rw n at e))
]
copied_sub k v source (some _) rest f e = inr e

and-both : (a b : Bool) → a && b ≡ true → (a ≡ true) × (b ≡ true)
and-both a b e = ground arith

covered :
    (k name word : String) (scopes allowed : List String)
    → scope_for name ≡ word
    → includes word scopes && includes name allowed ≡ true
    → k ≡ name
    → IsCovered scopes allowed k
covered k name word scopes allowed known e same =
    let (a, b) = and-both (includes word scopes) (includes name allowed) e in
    rw same (record { in_scope = rw known a; in_policy = b })

absent : {A : Type 0} (k : String) {v : Json} → member k end ≡ some v → A
unfolding member
absent k e = absurd (none-≢-some e)
  where
    none-≢-some : {v : Json} → none ≡ some v → ⊥
    none-≢-some e = cc

module _ (payload : Fields) (context : TokenContext) (k : String) (v : Json) where
  -- The claim is the payload's, and it is the subject or covered.
  abbrev pub IsKept : Type 0
  IsKept =
      ((k ≡ "sub") ⊎ IsCovered context.scopes context.allowed_claims k)
      × (member k payload ≡ some v)

  step :
      (name word : String)
      → scope_for name ≡ word
      → (rest : Fields) → (member k rest ≡ some v → IsKept)
      → member k (copy_claim_if_allowed payload name (allows context word name) rest) ≡ some v
      → IsKept
  step name word known rest next e =
      elim (copied k name v payload (allows context word name) rest e) [
        | inl (g, same, own) ↦
            (inr (covered k name word context.scopes context.allowed_claims known g same), own)
        | inr e' ↦ next e'
      ]

  -- If the filtered userinfo payload of a known access token holds a claim, then the payload holds it
  -- with the same value, and it is the subject, or the client's policy allows the claim and the token
  -- has the scope that stands for it.
  pub filter_user_info_payload-IsCovered :
      member k (filter_user_info_payload payload (some context)) ≡ some v → IsKept
  unfolding filter_user_info_payload scope_for
  filter_user_info_payload-IsCovered e =
      elim (copied_sub k v payload (member "sub" payload) _ refl e) [
        | inl (same, own) ↦ (inl same, own)
        | inr e' ↦
            (step "email" "email" refl _ (
                step "email_verified" "email" refl _ (
                  step "name" "profile" refl _ (
                    step "given_name" "profile" refl _ (
                      step "family_name" "profile" refl _ (
                        step "preferred_username" "profile" refl _ (
                          step "profile_type" "profile" refl _
                            (step "groups" "groups" refl _ (absent k)))))))))
              e'
      ]

added :
    (k name : String) (value : Json) (allowed : Bool) (rest : Fields)
    → is_some (member k (add_claim allowed name value rest)) ≡ true
    → ((allowed ≡ true) × (k ≡ name)) ⊎ (is_some (member k rest) ≡ true)
unfolding member
added k name value false rest e = inr e
added k name value true rest e = elim (Bool-cases (name == k)) [
  | inl n ↦ inl (refl, sym ((eq_iff _ _).0 n))
  | inr n ↦ inr (rw n at e)
]

both-of_three : (a b c : Bool) → a && b && c ≡ true → a && b ≡ true
both-of_three a b c e = ground arith

none_present : {A : Type 0} (k : String) → is_some (member k end) ≡ true → A
unfolding member
none_present k e = absurd (false-≢-true e)
  where
    false-≢-true : false ≡ true → ⊥
    false-≢-true e = cc

-- If the additional claims of better-auth hold a claim, then the client's policy allows it and the
-- request has the scope that stands for it.
pub build_allowed_additional_claims-IsCovered :
    (allowed scopes : List String) (user : InternalUserClaims) (k : String)
    → is_some (member k (build_allowed_additional_claims allowed scopes user)) ≡ true
    → IsCovered scopes allowed k
unfolding build_allowed_additional_claims scope_for
build_allowed_additional_claims-IsCovered allowed scopes user k e =
    next "preferred_username" "profile" refl _ _ _
      (next "profile_type" "profile" refl _ _ _
        (next "groups" "groups" refl _ _ _ (none_present k)))
      e
  where
    next :
        (name word : String)
        → scope_for name ≡ word
        → (value : Json) (more : Bool) (rest : Fields)
        → (is_some (member k rest) ≡ true → IsCovered scopes allowed k)
        → is_some (
            member k
              (add_claim (includes word scopes && includes name allowed && more) name value rest))
          ≡ true
        → IsCovered scopes allowed k
    next name word known value more rest after e =
        elim (added k name value (includes word scopes && includes name allowed && more) rest e) [
          | inl (g, same) ↦
              covered k name word scopes allowed known
                (both-of_three (includes word scopes) (includes name allowed) more g) same
          | inr e' ↦ after e'
        ]
