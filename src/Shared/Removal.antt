-- ===== src/Shared/Removal.antt =====
-- The laws of `remove_rows`.
use Prim.Native.Nat.{◌≤◌}
use Prim.Native.String.{String}
use mathlib.Core.Path.{◌≡◌, refl}
use mathlib.Core.Logic.{inl, inr}
use mathlib.Core.Bool.{Bool, true, false}
use mathlib.Core.List.{List, [], ◌∷◌}
use native.Mathlib.Omega.{arith}
use oid.Shared.Tests.{Bool-cases}
use oid.Shared.Rows.{All, remove_rows, count, HasUniqueKeys}

module _ {A : Type 0} where
  pub count-remove_rows-le :
      (q p : A → Bool) (rs : List A) → count q (remove_rows p rs) ≤ count q rs
  unfolding count remove_rows
  count-remove_rows-le q p [] = omega arith
  count-remove_rows-le q p (r ∷ rs) = ground (arith, count-remove_rows-le q p rs)

  pub count-remove_rows : (p : A → Bool) (rs : List A) → count p (remove_rows p rs) ≡ 0
  unfolding count remove_rows
  count-remove_rows p [] = refl
  count-remove_rows p (r ∷ rs) = ground (arith, count-remove_rows p rs)

  -- Rows that are not removed are counted as before.
  pub count-remove_rows_other :
      (q p : A → Bool)
      → ((a : A) → p a ≡ true → q a ≡ false)
      → (rs : List A) → count q (remove_rows p rs) ≡ count q rs
  unfolding count remove_rows
  count-remove_rows_other q p apart [] = refl
  count-remove_rows_other q p apart (r ∷ rs) =
      ground (arith, apart r, count-remove_rows_other q p apart rs)

  pub All-remove_rows {κ} :
      (P : A → Type κ) (p : A → Bool) (rs : List A) → All P rs → All P (remove_rows p rs)
  unfolding remove_rows
  All-remove_rows P p [] h = tt
  All-remove_rows P p (r ∷ rs) (h, hs) = elim (Bool-cases (p r)) [
    | inl e ↦ rw e (All-remove_rows P p rs hs)
    | inr e ↦ rw e (h, All-remove_rows P p rs hs)
  ]

  pub remove_rows-HasUniqueKeys :
      (key : A → String) (p : A → Bool) (rs : List A)
      → HasUniqueKeys key rs
      → HasUniqueKeys key (remove_rows p rs)
  unfolding remove_rows
  remove_rows-HasUniqueKeys key p [] h = tt
  remove_rows-HasUniqueKeys key p (r ∷ rs) (h, hs) = elim (Bool-cases (p r)) [
    | inl e ↦ rw e (remove_rows-HasUniqueKeys key p rs hs)
    | inr e ↦ rw e (All-remove_rows _ p rs h, remove_rows-HasUniqueKeys key p rs hs)
  ]

  -- No row passes a test that none is counted for.
  pub All-count_zero : (q : A → Bool) (rs : List A) → count q rs ≡ 0 → All (λ r. q r ≡ false) rs
  unfolding count
  All-count_zero q [] h = tt
  All-count_zero q (r ∷ rs) h = (ground arith, All-count_zero q rs (ground arith))

  pub All-both {κ μ} :
      (P : A → Type κ) (Q : A → Type μ) (rs : List A)
      → All P rs
      → All Q rs
      → All (λ a. P a × Q a) rs
  All-both P Q [] h k = tt
  All-both P Q (r ∷ rs) (h, hs) (k, ks) = ((h, k), All-both P Q rs hs ks)
