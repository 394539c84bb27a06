-- ===== src/Shared/Rows.antt =====
-- A database table as the list of its rows, and the repository operations on it.
-- `key` is the primary key. The order of the rows stands for the order in which the database
-- happens to answer.
use Prim.Native.Nat.{ℕ, ◌+◌, ◌≤◌}
use Prim.Native.String.{String}
use mathlib.Core.Path.{◌≡◌}
use mathlib.Core.Logic.{◌≢◌, inl, inr}
use mathlib.Core.Bool.{Bool, true}
use mathlib.Core.Option.{Option, none, some}
use mathlib.Core.List.{List, [], ◌∷◌}
use native.Mathlib.Omega.{arith}
use text.Mathlib.Text.{◌==◌}
use oid.Shared.Tests.{if◌then◌else◌, bit, Bool-cases}

module _ {ℓ} {A : Type ℓ} where
  abbrev pub All {κ} : (A → Type κ) → List A → Type κ
  All P [] = Unit
  All P (x ∷ xs) = P x × All P xs

  abbrev pub length : List A → ℕ
  length [] = 0
  length (x ∷ xs) = 1 + length xs

  -- `repository.findOne({ where })`: the first row that passes.
  unfoldable pub find_one : (A → Bool) → List A → Option A
  find_one p [] = none
  find_one p (r ∷ rs) = if p r then some r else find_one p rs

  -- `repository.find({ where })`
  unfoldable pub find_rows : (A → Bool) → List A → List A
  find_rows p [] = []
  find_rows p (r ∷ rs) = if p r then r ∷ find_rows p rs else find_rows p rs

  -- `repository.update(where, change)`: every row that passes is changed in place.
  unfoldable pub update_rows : (A → Bool) → (A → A) → List A → List A
  update_rows p f [] = []
  update_rows p f (r ∷ rs) = (if p r then f r else r) ∷ update_rows p f rs

  -- `repository.remove(row)`: the rows that pass are deleted.
  unfoldable pub remove_rows : (A → Bool) → List A → List A
  remove_rows p [] = []
  remove_rows p (r ∷ rs) = let rest = remove_rows p rs in if p r then rest else r ∷ rest

  -- How many rows pass a test.
  unfoldable pub count : (A → Bool) → List A → ℕ
  count q [] = 0
  count q (r ∷ rs) = bit (q r) + count q rs

  pub All-imp {κ μ} :
      (P : A → Type κ) (Q : A → Type μ)
      → ((a : A) → P a → Q a)
      → (rs : List A) → All P rs
      → All Q rs
  All-imp P Q f [] h = tt
  All-imp P Q f (r ∷ rs) (h, hs) = (f r h, All-imp P Q f rs hs)

  pub All-update_rows {κ} :
      (P : A → Type κ) (p : A → Bool) (f : A → A)
      → ((a : A) → P a → p a ≡ true → P (f a))
      → (rs : List A) → All P rs
      → All P (update_rows p f rs)
  unfolding update_rows
  All-update_rows P p f keep [] h = tt
  All-update_rows P p f keep (r ∷ rs) (h, hs) = elim (Bool-cases (p r)) [
    | inl e ↦ rw e (keep r h e, All-update_rows P p f keep rs hs)
    | inr e ↦ rw e (h, All-update_rows P p f keep rs hs)
  ]

  pub count-update_rows-le :
      (q p : A → Bool) (f : A → A)
      → ((a : A) → p a ≡ true → bit (q (f a)) ≤ bit (q a))
      → (rs : List A) → count q (update_rows p f rs) ≤ count q rs
  unfolding count update_rows
  count-update_rows-le q p f le [] = omega arith
  count-update_rows-le q p f le (r ∷ rs) =
      let ih = count-update_rows-le q p f le rs in
      elim (Bool-cases (p r)) [
        | inl e ↦ rw e (omega (arith, ih, le r e))
        | inr e ↦ rw e (omega (arith, ih))
      ]

  -- A change that a search does not look at: the row that is found is the changed one.
  pub find_one-update_rows :
      (p q : A → Bool) (f : A → A)
      → ((a : A) → p (f a) ≡ p a)
      → (rs : List A) {a : A} → find_one p rs ≡ some a
      → find_one p (update_rows q f rs) ≡ some (if q a then f a else a)
  unfolding find_one update_rows
  find_one-update_rows p q f same [] e = cc
  find_one-update_rows p q f same (r ∷ rs) e = elim (Bool-cases (q r)) [
    | inl t ↦
        rw (t, same r)
          (elim (Bool-cases (p r)) [
            | inl t' ↦ ground arith
            | inr t' ↦ rw t' (find_one-update_rows p q f same rs (rw t' at e))
          ])
    | inr t ↦ rw t (elim (Bool-cases (p r)) [
      | inl t' ↦ ground arith
      | inr t' ↦ rw t' (find_one-update_rows p q f same rs (rw t' at e))
    ])
  ]

  pub All-of-find_one {κ} :
      (P : A → Type κ) (p : A → Bool) (rs : List A) {a : A}
      → All P rs
      → find_one p rs ≡ some a
      → P a
  unfolding find_one
  All-of-find_one P p [] h e = absurd (none-ne-some e)
    where
      none-ne-some : {b : A} → none ≡ some b → ⊥
      none-ne-some e = cc
  All-of-find_one P p (r ∷ rs) (h, hs) e = elim (Bool-cases (p r)) [
    | inl t ↦ rw (some_lem (rw t at e)) at h
    | inr t ↦ All-of-find_one P p rs hs (rw t at e)
  ]
    where
      some_lem : {a b : A} → some a ≡ some b → a ≡ b
      some_lem e = cc

  pub find_one-passes : (p : A → Bool) (rs : List A) {a : A} → find_one p rs ≡ some a → p a ≡ true
  unfolding find_one
  find_one-passes p [] e = cc
  find_one-passes p (r ∷ rs) e = elim (Bool-cases (p r)) [
    | inl t ↦ ground (arith, find_one-passes p rs)
    | inr t ↦ find_one-passes p rs (rw t at e)
  ]

module _ {ℓ} {A : Type ℓ} (key : A → String) where
  -- `repository.save(row)`: the row of that key is replaced, or a new row is added.
  unfoldable pub save : A → List A → List A
  save a [] = a ∷ []
  save a (r ∷ rs) = if key r == key a then a ∷ rs else r ∷ save a rs

  -- No row has the key `k`.
  abbrev pub IsFresh : String → List A → Type 0
  IsFresh k = All (λ r. key r ≢ k)

  -- No two rows have the same key.
  abbrev pub HasUniqueKeys : List A → Type 0
  HasUniqueKeys [] = Unit
  HasUniqueKeys (r ∷ rs) = IsFresh (key r) rs × HasUniqueKeys rs
