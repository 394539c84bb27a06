-- ===== src/Shared/Claims.antt =====
-- Values that at most one row of a table may have: what a new row must not take from the others.
use Prim.Native.Nat.{◌≤◌}
use Prim.Native.String.{String}
use mathlib.Core.Path.{◌≡◌, refl}
use mathlib.Core.Logic.{inl, inr}
use mathlib.Core.Bool.{Bool, true}
use mathlib.Core.Option.{none, some}
use mathlib.Core.List.{List, [], ◌∷◌}
use native.Mathlib.Omega.{arith}
use oid.Shared.Tests.{bit, Bool-cases}
use oid.Shared.Rows.{find_one, count, save, IsFresh, HasUniqueKeys}
use oid.Shared.Keys.{count-save, count-save_fresh}

module _ {A : Type 0} where
  pub count-none : (q : A → Bool) (rs : List A) → find_one q rs ≡ none → count q rs ≡ 0
  unfolding count find_one
  count-none q [] e = refl
  count-none q (r ∷ rs) e = elim (Bool-cases (q r)) [
    | inl t ↦ absurd (some-≢-none (rw t at e))
    | inr t ↦ rw t (omega (arith, count-none q rs (rw t at e)))
  ]
    where
      some-≢-none : {a : A} → some a ≡ none → ⊥
      some-≢-none e = cc

  -- A row that is found is counted.
  pub count-found :
      (p q : A → Bool) (rs : List A) {a : A} → find_one p rs ≡ some a → bit (q a) ≤ count q rs
  unfolding find_one count
  count-found p q [] e = cc
  count-found p q (r ∷ rs) {a = a} e = ground (arith, count-found p q rs {a = a})

  -- `new` may take the place of `old`: a test that it passes, no row but `old` passes.
  abbrev pub IsClaim : (A → Bool) → List A → A → A → Type 0
  IsClaim q rs old new = q new ≡ true → count q rs ≤ bit (q old)

module _ {A : Type 0} (key : A → String) where
  pub claim-save :
      (q p : A → Bool) (old new : A) (rs : List A)
      → HasUniqueKeys key rs
      → find_one p rs ≡ some old
      → key new ≡ key old
      → count q rs ≤ 1
      → IsClaim q rs old new
      → count q (save key new rs) ≤ 1
  claim-save q p old new rs unique found same few claim =
      let counted = count-save key q p old new rs unique found same in
      elim (Bool-cases (q new)) [
        | inl e ↦ omega (arith, rw e at counted, claim e)
        | inr e ↦ omega (arith, rw e at counted, few)
      ]

  pub claim-save_fresh :
      (q : A → Bool) (new : A) (rs : List A)
      → IsFresh key (key new) rs
      → count q rs ≤ 1
      → (q new ≡ true → count q rs ≡ 0)
      → count q (save key new rs) ≤ 1
  claim-save_fresh q new rs fresh few zero =
      let counted = count-save_fresh key q new rs fresh in
      elim (Bool-cases (q new)) [
        | inl e ↦ omega (arith, rw e at counted, zero e)
        | inr e ↦ omega (arith, rw e at counted, few)
      ]
