-- ===== src/Shared/Keys.antt =====
-- The laws of `save` on a table whose keys are unique.
use Prim.Native.Nat.{◌+◌}
use Prim.Native.String.{String}
use mathlib.Core.Path.{◌≡◌}
use mathlib.Core.Logic.{◌≢◌, inl, inr}
use mathlib.Core.Bool.{Bool, true, false}
use mathlib.Core.Option.{some}
use mathlib.Core.List.{List, [], ◌∷◌}
use native.Mathlib.Omega.{arith}
use text.Mathlib.Text.{◌==◌}
use text.Mathlib.TextEquality.{eq_iff}
use oid.Shared.Tests.{bit, Bool-cases}
use oid.Shared.Rows.{
  All, All-of-find_one, All-update_rows, update_rows, find_one, count, save, IsFresh, HasUniqueKeys,
}

module _ {ℓ} {A : Type ℓ} (key : A → String) where
  pub All-save {κ} : (P : A → Type κ) (a : A) (rs : List A) → P a → All P rs → All P (save key a rs)
  unfolding save
  All-save P a [] h hs = (h, tt)
  All-save P a (r ∷ rs) h (k, hs) = elim (Bool-cases (key r == key a)) [
    | inl e ↦ rw e (h, hs)
    | inr e ↦ rw e (k, All-save P a rs h hs)
  ]

  pub save-HasUniqueKeys :
      (a : A) (rs : List A) → HasUniqueKeys key rs → HasUniqueKeys key (save key a rs)
  unfolding save
  save-HasUniqueKeys a [] h = (tt, tt)
  save-HasUniqueKeys a (r ∷ rs) (h, hs) = elim (Bool-cases (key r == key a)) [
    | inl e ↦ rw e (rw ((eq_iff _ _).0 e) at h, hs)
    | inr e ↦ rw e (
      All-save (λ s. key s ≢ key r) a rs (λ q. ground (arith, eq_iff (key r) (key a))) h,
      save-HasUniqueKeys a rs hs,
    )
  ]

  -- A found row's key is taken, so a later row of that key is the row itself.
  pub count-save :
      (q p : A → Bool) (cur new : A) (rs : List A)
      → HasUniqueKeys key rs
      → find_one p rs ≡ some cur
      → key new ≡ key cur
      → count q (save key new rs) + bit (q cur) ≡ count q rs + bit (q new)
  unfolding count save find_one
  count-save q p cur new [] u e k = cc
  count-save q p cur new (r ∷ rs) (h, u) e k = elim (Bool-cases (p r)) [
    | inl t ↦ ground (arith, eq_iff (key r) (key new))
    | inr t ↦
        let found : find_one p rs ≡ some cur = rw t at e in
        ground (
          arith,
          eq_iff (key r) (key new),
          All-of-find_one (λ s. key s ≢ key r) p rs h found,
          count-save q p cur new rs u found k,
        )
  ]

  pub count-save_fresh :
      (q : A → Bool) (new : A) (rs : List A)
      → IsFresh key (key new) rs
      → count q (save key new rs) ≡ count q rs + bit (q new)
  unfolding count save
  count-save_fresh q new [] h = omega arith
  count-save_fresh q new (r ∷ rs) (h, hs) =
      ground (arith, eq_iff (key r) (key new), count-save_fresh q new rs hs)

  pub find_one-save_fresh :
      (p : A → Bool) (cur new : A) (rs : List A)
      → IsFresh key (key new) rs
      → find_one p rs ≡ some cur
      → find_one p (save key new rs) ≡ some cur
  unfolding find_one save
  find_one-save_fresh p cur new [] h e = cc
  find_one-save_fresh p cur new (r ∷ rs) (h, hs) e =
      ground (arith, eq_iff (key r) (key new), find_one-save_fresh p cur new rs hs)

  pub find_one-save_self :
      (p : A → Bool) (cur new : A) (rs : List A)
      → HasUniqueKeys key rs
      → find_one p rs ≡ some cur
      → key new ≡ key cur
      → p new ≡ true
      → find_one p (save key new rs) ≡ some new
  unfolding find_one save
  find_one-save_self p cur new [] u e k t = cc
  find_one-save_self p cur new (r ∷ rs) (h, u) e k t = elim (Bool-cases (p r)) [
    | inl t' ↦ ground (arith, eq_iff (key r) (key new))
    | inr t' ↦
        let found : find_one p rs ≡ some cur = rw t' at e in
        ground (
          arith,
          eq_iff (key r) (key new),
          All-of-find_one (λ s. key s ≢ key r) p rs h found,
          find_one-save_self p cur new rs u found k t,
        )
  ]

  -- A row added last under a fresh key is found, if no row before it passes.
  pub find_one-save_last :
      (p : A → Bool) (new : A) (rs : List A)
      → IsFresh key (key new) rs
      → All (λ r. p r ≡ false) rs
      → p new ≡ true
      → find_one p (save key new rs) ≡ some new
  unfolding find_one save
  find_one-save_last p new [] h misses t = rw t
  find_one-save_last p new (r ∷ rs) (h, hs) (miss, misses) t =
      ground (arith, eq_iff (key r) (key new), find_one-save_last p new rs hs misses t)

  -- Another row's save does not change what is found, unless that row passes.
  pub find_one-save_other :
      (p : A → Bool) (cur new : A) (rs : List A)
      → find_one p rs ≡ some cur
      → key new ≢ key cur
      → p new ≡ false
      → find_one p (save key new rs) ≡ some cur
  unfolding find_one save
  find_one-save_other p cur new [] e k t = cc
  find_one-save_other p cur new (r ∷ rs) e k t = elim (Bool-cases (p r)) [
    | inl t' ↦ ground (arith, eq_iff (key r) (key new))
    | inr t' ↦
        ground (arith, eq_iff (key r) (key new), find_one-save_other p cur new rs (rw t' at e) k t)
  ]

  pub update_rows-IsFresh :
      (p : A → Bool) (f : A → A) (k : String)
      → ((a : A) → key (f a) ≡ key a)
      → (rs : List A) → IsFresh key k rs
      → IsFresh key k (update_rows p f rs)
  update_rows-IsFresh p f k same rs h =
      All-update_rows (λ r. key r ≢ k) p f (λ a h' _. rw (same a) h') rs h

  pub update_rows-HasUniqueKeys :
      (p : A → Bool) (f : A → A)
      → ((a : A) → key (f a) ≡ key a)
      → (rs : List A) → HasUniqueKeys key rs
      → HasUniqueKeys key (update_rows p f rs)
  unfolding update_rows
  update_rows-HasUniqueKeys p f same [] h = tt
  update_rows-HasUniqueKeys p f same (r ∷ rs) (h, hs) = elim (Bool-cases (p r)) [
    | inl e ↦
        rw (e, same r)
          (update_rows-IsFresh p f _ same rs h, update_rows-HasUniqueKeys p f same rs hs)
    | inr e ↦ rw e (update_rows-IsFresh p f _ same rs h, update_rows-HasUniqueKeys p f same rs hs)
  ]
