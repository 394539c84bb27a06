-- ===== src/Oidc/ScopeRoundTrip.antt =====
-- What the token endpoint reads from a scope that the authorization endpoint has validated.
use Prim.Native.Char.{code}
use oid.Shared.{
  String, ◌==◌, eq_iff, true, false, ◌&&◌, List, [], ◌∷◌, Option, none, some, is_empty, concat,
  trim, trim_start, trim_end, is_space, split, join, includes, ◌≡◌, inl, inr, refl, subst, ◌∙◌,
  arith, All, Bool-cases, Option-cases, leb, List-cases,
}
use oid.Store.{Result, ok, err}
use oid.Oidc.Scopes.{
  keep_full, trim_each, words_of, remove, distinct, find_disallowed, validate_scopes,
}
use oid.Oidc.Claims.{has_scope}

-- No blank in it.
abbrev IsWord : String → Type 0
IsWord String.[] = Unit
IsWord (String.◌∷◌ c s) = (leb (code c) b' ' && leb b' ' (code c) ≡ false) × IsWord s

split-word : (w : String) → IsWord w → split b' ' w ≡ w ∷ []
unfolding split
split-word String.[] h = refl
split-word (String.◌∷◌ c s) (h, hs) = rw (h, split-word s hs)

split-words :
    (w rest : String) → IsWord w → split b' ' (concat w (concat " " rest)) ≡ w ∷ split b' ' rest
unfolding split
split-words String.[] rest h = refl
split-words (String.◌∷◌ c s) rest (h, hs) = rw (h, split-words s rest hs)

-- Words joined by blanks are split into themselves.
split-join :
    (w : String) (ws : List String) → All IsWord (w ∷ ws) → split b' ' (join " " (w ∷ ws)) ≡ w ∷ ws
unfolding join
split-join w [] (h, hs) = split-word w h
split-join w (v ∷ ws) (h, hs) = split-words w (join " " (v ∷ ws)) h ∙ rw (split-join v ws hs) refl

split-IsWord : (s : String) → All IsWord (split b' ' s)
unfolding split
split-IsWord String.[] = (tt, tt)
split-IsWord (String.◌∷◌ c s) = elim (Bool-cases (leb (code c) b' ' && leb b' ' (code c))) [
  | inl e ↦ rw e (tt, split-IsWord s)
  | inr e ↦ elim (List-cases (split b' ' s)) [
    | inl e' ↦ rw (e, e') ((e, tt), tt)
    | inr (w, ws, e') ↦
        let (h, hs) : All IsWord (w ∷ ws) = rw e' at (split-IsWord s) in rw (e, e') ((e, h), hs)
  ]
]

trim_start-IsWord : (s : String) → IsWord s → IsWord (trim_start s)
unfolding trim_start
trim_start-IsWord String.[] h = tt
trim_start-IsWord (String.◌∷◌ c s) (h, hs) = elim (Bool-cases (is_space (code c))) [
  | inl e ↦ rw e (trim_start-IsWord s hs)
  | inr e ↦ rw e (h, hs)
]

trim_end-IsWord : (s : String) → IsWord s → IsWord (trim_end s)
unfolding trim_end
trim_end-IsWord String.[] h = tt
trim_end-IsWord (String.◌∷◌ c s) (h, hs) =
    elim (Bool-cases (is_empty (trim_end s) && is_space (code c))) [
      | inl e ↦ rw e tt
      | inr e ↦ rw e (h, trim_end-IsWord s hs)
    ]

trim_each-IsWord : (ws : List String) → All IsWord ws → All IsWord (trim_each ws)
unfolding trim_each trim
trim_each-IsWord [] h = tt
trim_each-IsWord (w ∷ ws) (h, hs) =
    (trim_end-IsWord _ (trim_start-IsWord w h), trim_each-IsWord ws hs)

keep_full-All : (P : String → Type 0) (ws : List String) → All P ws → All P (keep_full ws)
unfolding keep_full
keep_full-All P [] h = tt
keep_full-All P (w ∷ ws) (h, hs) = elim (Bool-cases (is_empty w)) [
  | inl e ↦ rw e (keep_full-All P ws hs)
  | inr e ↦ rw e (h, keep_full-All P ws hs)
]

remove-All : (P : String → Type 0) (v : String) (ws : List String) → All P ws → All P (remove v ws)
unfolding remove
remove-All P v [] h = tt
remove-All P v (w ∷ ws) (h, hs) = elim (Bool-cases (w == v)) [
  | inl e ↦ rw e (remove-All P v ws hs)
  | inr e ↦ rw e (h, remove-All P v ws hs)
]

distinct-All : (P : String → Type 0) (ws : List String) → All P ws → All P (distinct ws)
unfolding distinct
distinct-All P [] h = tt
distinct-All P (w ∷ ws) (h, hs) = (h, remove-All P w (distinct ws) (distinct-All P ws hs))

includes-remove :
    (x v : String) (ws : List String) → (v == x) ≡ false → includes x (remove v ws) ≡ includes x ws
unfolding includes remove
includes-remove x v [] h = refl
includes-remove x v (w ∷ ws) h =
    ground (arith, eq_iff w v, eq_iff v x, eq_iff w x, includes-remove x v ws h)

includes-distinct : (x : String) (ws : List String) → includes x (distinct ws) ≡ includes x ws
unfolding includes distinct
includes-distinct x [] = refl
includes-distinct x (w ∷ ws) = elim (Bool-cases (w == x)) [
  | inl e ↦ rw e refl
  | inr e ↦ rw e (includes-remove x w (distinct ws) e ∙ includes-distinct x ws)
]

All-allowed :
    (allowed ws : List String)
    → find_disallowed allowed ws ≡ none
    → All (λ w. includes w allowed ≡ true) ws
unfolding find_disallowed
All-allowed allowed [] h = tt
All-allowed allowed (w ∷ ws) h = elim (Bool-cases (includes w allowed)) [
  | inl e ↦ (e, All-allowed allowed ws (rw e at h))
  | inr e ↦ absurd (some-≢-none (rw e at h))
]
  where
    some-≢-none : {x : String} → some x ≡ none → ⊥
    some-≢-none h = cc

-- The words of a list that includes one are read back from their join.
split-joined :
    (x : String) (ws : List String)
    → includes x ws ≡ true
    → All IsWord ws
    → split b' ' (join " " ws) ≡ ws
unfolding includes
split-joined x [] h hs = absurd (false-≢-true h)
  where
    false-≢-true : false ≡ true → ⊥
    false-≢-true h = cc
split-joined x (w ∷ ws) h hs = split-join w ws hs

words_of-IsWord : (requested : Option String) → All IsWord (words_of requested)
unfolding words_of
words_of-IsWord none = tt
words_of-IsWord (some text) = keep_full-All IsWord _ (trim_each-IsWord _ (split-IsWord text))

-- What the validated scope of a request may be.
abbrev pub IsScope : List String → Result String → Type 0
IsScope allowed (err e) = Unit
IsScope allowed (ok scope) =
    All (λ w. includes w allowed ≡ true) (split b' ' scope) × (has_scope "openid" scope ≡ true)

validate_scopes-IsScope :
    (requested : Option String) (allowed : List String)
    → IsScope allowed (validate_scopes requested allowed)
unfolding validate_scopes
validate_scopes-IsScope requested allowed =
    let words = words_of requested in
    elim (Bool-cases (includes "openid" words)) [
      | inr e ↦ rw e tt
      | inl e ↦ elim (Option-cases (find_disallowed allowed words)) [
        | inr (w, e') ↦ rw (e, e') tt
        | inl e' ↦
            let kept = includes-distinct "openid" words ∙ e in
            let read =
              split-joined "openid" (distinct words) kept
                (distinct-All IsWord words (words_of-IsWord requested)) in
            rw (e, e') (rw read (distinct-All _ words (All-allowed allowed words e')), rw read kept)
      ]
    ]

-- If the authorization endpoint accepts a scope, then every word that the token endpoint will read
-- in it, splitting it at blanks, is a scope that the client may have, and "openid" is one of them.
pub validate_scopes-split :
    (requested : Option String) (allowed : List String) (scope : String)
    → validate_scopes requested allowed ≡ ok scope
    → All (λ w. includes w allowed ≡ true) (split b' ' scope) × (has_scope "openid" scope ≡ true)
validate_scopes-split requested allowed scope e =
    subst (IsScope allowed) e (validate_scopes-IsScope requested allowed)
