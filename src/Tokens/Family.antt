-- ===== src/Tokens/Family.antt =====
-- The soundness of the rows of refresh_tokens, and the changes that keep it.
use oid.Shared.{
  ℕ, ◌≤◌, String, ◌==◌, eq_iff, ◌≡◌, refl, Bool, true, ◌&&◌, not, bit, List, [], ◌∷◌, none, some,
  is_some, truthy, arith, inl, inr, Bool-cases, All, All-update_rows, All-save, find_one,
  update_rows, save, count, count-update_rows-le, count-save, count-save_fresh, find_one-save_fresh,
  save-HasUniqueKeys, IsFresh, HasUniqueKeys, update_rows-HasUniqueKeys,
}
use oid.Store.{RefreshToken}
use oid.Tokens.Model.{in_family, mark_revoked}
use oid.Tokens.Service.{rotated_away}

abbrev pub id_of : RefreshToken → String
id_of t = t.id

-- Of the family, and not revoked.
abbrev pub is_live_in : String → RefreshToken → Bool
is_live_in family t = in_family family t && not (is_some t.revoked_at)

-- Ids are unique, no family has two live tokens, and a token that was rotated away is revoked.
pub record IsSound (rows : List RefreshToken) : Type 0 where
  pub unique : HasUniqueKeys id_of rows
  pub single : (family : String) → count (is_live_in family) rows ≤ 1
  pub retired : All (λ t. truthy t.rotated_to_token_id ≡ true → is_some t.revoked_at ≡ true) rows

pub revoked-not-live :
    (f : String) (now : ℕ) (reason : String) (t : RefreshToken)
    → bit (is_live_in f (mark_revoked now reason t)) ≤ bit (is_live_in f t)
revoked-not-live f now reason t = ground arith

pub rotated-not-live :
    (f id : String) (now : ℕ) (t : RefreshToken) → bit (is_live_in f (rotated_away t id now)) ≡ 0
rotated-not-live f id now t = ground arith

pub successor-live :
    (f : String) (cur next : RefreshToken)
    → cur.revoked_at ≡ none
    → next.family_id ≡ cur.family_id
    → bit (is_live_in f next) ≤ bit (is_live_in f cur)
successor-live f cur next live same = ground arith

pub revoked-IsSound :
    (family : String) (now : ℕ) (reason : String) (rows : List RefreshToken)
    → IsSound rows
    → IsSound (update_rows (in_family family) (mark_revoked now reason) rows)
revoked-IsSound family now reason rows v = record {
  unique =
      update_rows-HasUniqueKeys id_of (in_family family) (mark_revoked now reason) (λ a. refl) rows
        v.unique;
  single = λ f. omega (
    arith,
    v.single f,
    count-update_rows-le (is_live_in f) (in_family family) (mark_revoked now reason)
        (λ a e. revoked-not-live f now reason a) rows,
  );
  retired =
      All-update_rows _ (in_family family) (mark_revoked now reason) (λ a h e. ground arith) rows
        v.retired;
}

-- No token of the family is live once the family is revoked.
pub revoked-none-live :
    (family : String) (now : ℕ) (reason : String) (rows : List RefreshToken)
    → count (is_live_in family) (update_rows (in_family family) (mark_revoked now reason) rows) ≡ 0
unfolding count update_rows
revoked-none-live family now reason [] = refl
revoked-none-live family now reason (t ∷ rows) =
    ground (arith, revoked-none-live family now reason rows)

-- A token added under a fresh id.
pub added-IsSound :
    (t : RefreshToken) (rows : List RefreshToken)
    → IsSound rows
    → IsFresh id_of t.id rows
    → t.rotated_to_token_id ≡ none
    → count (is_live_in t.family_id) rows ≡ 0
    → IsSound (save id_of t rows)
added-IsSound t rows v fresh new idle = record {
  unique = save-HasUniqueKeys id_of t rows v.unique;
  single = λ f. elim (Bool-cases (t.family_id == f)) [
    | inl e ↦
        rw (← (eq_iff _ _).0 e)
          (ground (arith, count-save_fresh id_of (is_live_in t.family_id) t rows fresh))
    | inr e ↦ ground (arith, v.single f, count-save_fresh id_of (is_live_in f) t rows fresh)
  ];
  retired = All-save id_of _ t rows (λ e. ground arith) v.retired;
}

pub replaced-IsSound :
    (p : RefreshToken → Bool) (cur next : RefreshToken) (now : ℕ) (rows : List RefreshToken)
    → IsSound rows
    → find_one p rows ≡ some cur
    → cur.revoked_at ≡ none
    → IsFresh id_of next.id rows
    → next.family_id ≡ cur.family_id
    → next.rotated_to_token_id ≡ none
    → IsSound (save id_of (rotated_away cur next.id now) (save id_of next rows))
replaced-IsSound p cur next now rows v found live fresh same new = record {
  unique = save-HasUniqueKeys id_of _ _ (save-HasUniqueKeys id_of _ _ v.unique);
  single = λ f. omega (
    arith,
    v.single f,
    count-save id_of (is_live_in f) p cur (rotated_away cur next.id now) (save id_of next rows)
        (save-HasUniqueKeys id_of next rows v.unique)
        (find_one-save_fresh id_of p cur next rows fresh found) refl,
    count-save_fresh id_of (is_live_in f) next rows fresh,
    rotated-not-live f next.id now cur,
    successor-live f cur next live same,
  );
  retired = All-save id_of _ _ _ (λ e. refl) (All-save id_of _ _ _ (λ e. ground arith) v.retired);
}
