-- ===== src/Csrf/Acceptance.antt =====
-- Which tokens the back office accepts.
use oid.Shared.{
  ℕ, String, Bool, true, false, not, ◌&&◌, List, [], ◌∷◌, Option, none, some, truthy, is_empty,
  split, ◌≡◌, refl, inl, inr, Bool-cases, arith, subst,
}
use oid.Platform.{Platform}
use oid.Store.{Result, ok, err}
use oid.Csrf.{same_bytes, csrf_signature, parts_of, assert_parts, assert_csrf_token, invalid_csrf}

same_bytes-≡ : (xs ys : List ℕ) → same_bytes xs ys ≡ true → xs ≡ ys
unfolding same_bytes
same_bytes-≡ [] [] e = refl
same_bytes-≡ [] (b ∷ ys) e = cc
same_bytes-≡ (a ∷ xs) [] e = cc
same_bytes-≡ (a ∷ xs) (b ∷ ys) e = ground (arith, same_bytes-≡ xs ys)

-- The cookie is signed with the secret, and the submitted text is the cookie, byte for byte.
pub record IsAccepted (p : Platform) (submitted cookie : String) : Type 0 where
  pub has_nonce : is_empty (parts_of p (split b'.' cookie)).0 ≡ false
  pub signed :
      p.utf8 (parts_of p (split b'.' cookie)).1
      ≡ p.utf8 (csrf_signature p (parts_of p (split b'.' cookie)).0)
  pub doubled : p.utf8 submitted ≡ p.utf8 cookie

four-and :
    (a b c d : Bool) → not a && not b && c && d ≡ true → (a ≡ false) × (c ≡ true) × (d ≡ true)
four-and a b c d e = ground arith

abbrev pub Accepts : Platform → String → String → Result (Unit {0}) → Type 0
Accepts p submitted cookie (ok u) = IsAccepted p submitted cookie
Accepts p submitted cookie (err e) = Unit

pub assert_parts-Accepts :
    (p : Platform) (submitted cookie : String)
    → Accepts p submitted cookie (assert_parts p submitted cookie (parts_of p (split b'.' cookie)))
assert_parts-Accepts p submitted cookie =
    let nonce = (parts_of p (split b'.' cookie)).0 in
    let signature = (parts_of p (split b'.' cookie)).1 in
    let signed = same_bytes (p.utf8 signature) (p.utf8 (csrf_signature p nonce)) in
    let doubled = same_bytes (p.utf8 submitted) (p.utf8 cookie) in
    elim (Bool-cases (not (is_empty nonce) && not (is_empty signature) && signed && doubled)) [
      | inr f ↦ rw f tt
      | inl f ↦
          let (a, b, c) = four-and (is_empty nonce) (is_empty signature) signed doubled f in
          rw f (record { has_nonce = a; signed = same_bytes-≡ _ _ b; doubled = same_bytes-≡ _ _ c })
    ]

assert_csrf_token-Accepts :
    (p : Platform) (submitted cookie : String)
    → Accepts p submitted cookie (assert_csrf_token p (some submitted) (some cookie))
unfolding assert_csrf_token
assert_csrf_token-Accepts p submitted cookie =
    elim (Bool-cases (truthy (some submitted) && truthy (some cookie))) [
      | inr e ↦ rw e tt
      | inl e ↦ rw e (assert_parts-Accepts p submitted cookie)
    ]

err-≢-ok : (r : Result (Unit {0})) → r ≡ err invalid_csrf → r ≡ ok tt → ⊥
err-≢-ok r e h = cc

-- If the back office accepts a submitted token with a cookie, then both are there; the cookie's first
-- part is not empty, its second has the bytes of the secret's signature of the first; and the
-- submitted token has the bytes of the cookie.
pub assert_csrf_token-IsAccepted :
    (p : Platform) (submitted cookie : Option String)
    → assert_csrf_token p submitted cookie ≡ ok tt
    → (x : String) × (y : String) × (submitted ≡ some x) × (cookie ≡ some y) × IsAccepted p x y
unfolding assert_csrf_token
assert_csrf_token-IsAccepted p (some x) (some y) e =
    (x, y, refl, refl, subst (Accepts p x y) e (assert_csrf_token-Accepts p x y))
assert_csrf_token-IsAccepted p none cookie e = absurd (err-≢-ok _ refl e)
assert_csrf_token-IsAccepted p (some x) none e = absurd (err-≢-ok _ refl e)
