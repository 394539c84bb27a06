-- ===== src/Tokens/Lifecycle.antt =====
-- The life of a token family, with the tokens left out: the abstract machine behind refresh_tokens.
use oid.Shared.{
  ℕ, ◌≤◌, String, ◌==◌, eq_iff, Bool, List, [], ◌∷◌, none, some, ◌≡◌, refl, subst, arith,
  Bool-cases, inl, inr, bit, count, leb, if◌then◌else◌, count-found, find_one, update_rows, save,
  IsFresh, count-save, count-save_fresh, find_one-save_fresh, save-HasUniqueKeys,
  count-update_rows-le,
}
use oid.Store.{RefreshToken}
use oid.Tokens.Model.{in_family, mark_revoked}
use oid.Tokens.Service.{rotated_away}
use oid.Tokens.Family.{
  id_of, is_live_in, IsSound, revoked-not-live, rotated-not-live, successor-live,
}

-- No token of the family was ever stored; one of its tokens is not revoked; all are revoked.
pub data FamilyState : Type 0 where
  absent live dead : FamilyState

infix 40 ◌⟶◌
-- What may happen to a family. Nothing leads out of `dead`.
pub data ◌⟶◌ : FamilyState → FamilyState → Type 0 where
  stay : {a : FamilyState} → a ⟶ a
  issue : absent ⟶ live
  revoke : live ⟶ dead

-- The state of a family, read off the table.
unfoldable pub family_state : List RefreshToken → String → FamilyState
family_state rows family =
    if leb 1 (count (is_live_in family) rows)
    then live
    else if leb 1 (count (in_family family) rows)
    then dead
    else absent

-- What a change of the table may do to the tokens of one family.
pub record IsStep (family : String) (before after : List RefreshToken) : Type 0 where
  pub grows : count (in_family family) before ≤ count (in_family family) after
  pub quiet :
      1 ≤ count (in_family family) before
      → count (is_live_in family) after ≤ count (is_live_in family) before
  pub born :
      count (in_family family) before ≡ 0
      → count (is_live_in family) after ≡ count (in_family family) after

live-le :
    (family : String) (rows : List RefreshToken)
    → count (is_live_in family) rows ≤ count (in_family family) rows
unfolding count
live-le family [] = omega arith
live-le family (t ∷ rows) = ground (arith, live-le family rows)

-- Each such change follows the diagram.
pub family_state-⟶ :
    (family : String) (before after : List RefreshToken)
    → IsStep family before after
    → family_state before family ⟶ family_state after family
unfolding family_state
family_state-⟶ family before after z = grind (
  arith,
  stay,
  issue,
  revoke,
  z.grows,
  z.quiet,
  z.born,
  live-le family before,
  live-le family after,
)

pub same-IsStep : (family : String) (rows : List RefreshToken) → IsStep family rows rows
same-IsStep family rows = record {
  grows = omega arith;
  quiet = λ h. omega arith;
  born = λ h. omega (arith, live-le family rows, h);
}

count-update_rows_same :
    (q p : RefreshToken → Bool) (g : RefreshToken → RefreshToken)
    → ((t : RefreshToken) → q (g t) ≡ q t)
    → (rows : List RefreshToken) → count q (update_rows p g rows) ≡ count q rows
unfolding count update_rows
count-update_rows_same q p g same [] = refl
count-update_rows_same q p g same (t ∷ rows) =
    ground (arith, same t, count-update_rows_same q p g same rows)

-- An update that moves no token to another family and brings none back to life.
pub updated-IsStep :
    (f : String) (p : RefreshToken → Bool) (g : RefreshToken → RefreshToken)
    → ((t : RefreshToken) → (g t).family_id ≡ t.family_id)
    → ((t : RefreshToken) → bit (is_live_in f (g t)) ≤ bit (is_live_in f t))
    → (rows : List RefreshToken) → IsStep f rows (update_rows p g rows)
updated-IsStep f p g same less rows =
    let all = count-update_rows_same (in_family f) p g (λ t. rw (same t) refl) rows in
    let alive = count-update_rows-le (is_live_in f) p g (λ t e. less t) rows in
    record {
      grows = omega (arith, all);
      quiet = λ h. alive;
      born = λ h. omega (arith, all, alive, live-le f rows, h);
    }

-- Revoking a family.
pub revoked-IsStep :
    (f family reason : String) (now : ℕ) (rows : List RefreshToken)
    → IsStep f rows (update_rows (in_family family) (mark_revoked now reason) rows)
revoked-IsStep f family reason now rows =
    updated-IsStep f (in_family family) (mark_revoked now reason) (λ t. refl)
      (revoked-not-live f now reason) rows

-- The first token of a family that no row belongs to.
pub added-IsStep :
    (f : String) (t : RefreshToken) (rows : List RefreshToken)
    → IsFresh id_of t.id rows
    → count (in_family t.family_id) rows ≡ 0
    → t.revoked_at ≡ none
    → IsStep f rows (save id_of t rows)
added-IsStep f t rows fresh new unrevoked =
    let all = count-save_fresh id_of (in_family f) t rows fresh in
    let alive = count-save_fresh id_of (is_live_in f) t rows fresh in
    let alike : bit (is_live_in f t) ≡ bit (in_family f t) = ground arith in
    record {
      grows = omega (arith, all);
      quiet = λ h. omega (arith, all, alive, alike, other_family f t rows new h);
      born = λ h. omega (arith, all, alive, alike, live-le f rows, h);
    }
  where
    other_family :
        (f : String) (t : RefreshToken) (rows : List RefreshToken)
        → count (in_family t.family_id) rows ≡ 0
        → 1 ≤ count (in_family f) rows
        → bit (in_family f t) ≡ 0
    other_family f t rows new h = elim (Bool-cases (t.family_id == f)) [
      | inl e ↦
          absurd
            (omega (arith, subst (λ x. count (in_family x) rows ≡ 0) ((eq_iff _ _).0 e) new, h))
      | inr e ↦ rw e refl
    ]

-- A token replaced by its successor.
pub replaced-IsStep :
    (p : RefreshToken → Bool) (f : String) (cur next : RefreshToken) (now : ℕ)
    (rows : List RefreshToken)
    → IsSound rows
    → find_one p rows ≡ some cur
    → cur.revoked_at ≡ none
    → IsFresh id_of next.id rows
    → next.family_id ≡ cur.family_id
    → IsStep f rows (save id_of (rotated_away cur next.id now) (save id_of next rows))
replaced-IsStep p f cur next now rows v found unrevoked fresh same =
    let unique = save-HasUniqueKeys id_of next rows v.unique in
    let still_found = find_one-save_fresh id_of p cur next rows fresh found in
    let gone = rotated_away cur next.id now in
    let all =
      count-save id_of (in_family f) p cur gone (save id_of next rows) unique still_found refl in
    let alive =
      count-save id_of (is_live_in f) p cur gone (save id_of next rows) unique still_found refl in
    let all_next = count-save_fresh id_of (in_family f) next rows fresh in
    let alive_next = count-save_fresh id_of (is_live_in f) next rows fresh in
    let less = successor-live f cur next unrevoked same in
    let none_left = rotated-not-live f next.id now cur in
    let alike : bit (in_family f next) ≡ bit (in_family f cur) = rw same refl in
    let kept : bit (in_family f gone) ≡ bit (in_family f cur) = refl in
    let counted = count-found p (in_family f) rows found in
    record {
      grows = omega (arith, all, all_next, kept);
      quiet = λ h. omega (arith, alive, alive_next, less, none_left);
      born = λ h. omega (
        arith,
        all,
        all_next,
        kept,
        alike,
        counted,
        alive,
        alive_next,
        less,
        none_left,
        live-le f rows,
        h,
      );
    }
