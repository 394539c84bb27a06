-- ===== src/Pages/Order.antt =====
-- The order of the rows of a list.
use oid.Shared.{
  String, Bool, true, false, List, [], ◌∷◌, ◌≡◌, ◌≢◌, refl, ◌∙◌, ap, arith, All, All-imp,
  HasUniqueKeys, is_empty, count, bit, Bool-cases, inl, inr, ◌+◌,
}
use oid.Pages.Walk.{IsDescending}
use oid.Pages.Lists.{insert_row, order_by_id_desc}

-- A strict order of texts in which any two are comparable.
pub record IsOrder (below : String → String → Bool) : Type 0 where
  pub strict : (a : String) → below a a ≡ false
  pub through : (a b c : String) → below a b ≡ true → below b c ≡ true → below a c ≡ true
  pub connected : (a b : String) → below a b ≡ false → below b a ≡ false → a ≡ b

true-≢-false : {b : Bool} → b ≡ true → b ≡ false → ⊥
true-≢-false e f = cc

module _ {A : Type 0} (id_of : A → String) (below : String → String → Bool) where
  All-insert_row :
      (P : A → Type 0) (r : A) (rows : List A)
      → P r
      → All P rows
      → All P (insert_row id_of below r rows)
  All-insert_row P r [] h hs = (h, tt)
  All-insert_row P r (s ∷ rows) h (k, hs) = elim (Bool-cases (below (id_of s) (id_of r))) [
    | inl e ↦ rw e (h, (k, hs))
    | inr e ↦ rw e (k, All-insert_row P r rows h hs)
  ]

  All-order_by_id_desc :
      (P : A → Type 0) (rows : List A) → All P rows → All P (order_by_id_desc id_of below rows)
  unfolding order_by_id_desc
  All-order_by_id_desc P [] h = tt
  All-order_by_id_desc P (r ∷ rows) (h, hs) =
      All-insert_row P r (order_by_id_desc id_of below rows) h (All-order_by_id_desc P rows hs)

  count-insert_row :
      (q : A → Bool) (r : A) (rows : List A)
      → count q (insert_row id_of below r rows) ≡ bit (q r) + count q rows
  unfolding count
  count-insert_row q r [] = refl
  count-insert_row q r (s ∷ rows) = elim (Bool-cases (below (id_of s) (id_of r))) [
    | inl e ↦ rw e refl
    | inr e ↦ rw e (omega (arith, count-insert_row q r rows))
  ]

  -- The ordered rows are the rows, each as often.
  pub count-order_by_id_desc :
      (q : A → Bool) (rows : List A) → count q (order_by_id_desc id_of below rows) ≡ count q rows
  unfolding count order_by_id_desc
  count-order_by_id_desc q [] = refl
  count-order_by_id_desc q (r ∷ rows) =
      count-insert_row q r (order_by_id_desc id_of below rows)
      ∙ ap (λ n. bit (q r) + n) (count-order_by_id_desc q rows)

  module _ (order : IsOrder below) where
    other_way : (a b : String) → below a b ≡ true → below b a ≡ false
    other_way a b e = elim (Bool-cases (below b a)) [
      | inl f ↦ absurd (true-≢-false (order.through a b a e f) (order.strict a))
      | inr f ↦ f
    ]

    either : (a b : String) → a ≢ b → below a b ≡ false → below b a ≡ true
    either a b h e = elim (Bool-cases (below b a)) [
      | inl f ↦ f
      | inr f ↦ absurd (h (order.connected a b e f))
    ]

    insert_row-IsDescending :
        (r : A) (rows : List A)
        → is_empty (id_of r) ≡ false
        → All (λ s. id_of s ≢ id_of r) rows
        → IsDescending id_of below rows
        → IsDescending id_of below (insert_row id_of below r rows)
    insert_row-IsDescending r [] full others v = (full, order.strict (id_of r), tt, tt)
    insert_row-IsDescending r (s ∷ rows) full (other, others) (full', same, after, rest) =
        elim (Bool-cases (below (id_of s) (id_of r))) [
          | inl e ↦ rw e (
            full,
            order.strict (id_of r),
            (
              (e, other_way _ _ e),
              All-imp _ _
                  (λ t (a, b). (order.through _ _ _ a e, other_way _ _ (order.through _ _ _ a e)))
                  rows after,
            ),
            (full', same, after, rest),
          )
          | inr e ↦ rw e (
            full',
            same,
            All-insert_row _ r rows (either _ _ other e, e) after,
            insert_row-IsDescending r rows full others rest,
          )
        ]

    -- Rows whose ids differ and are not empty are put into strictly descending order.
    pub order_by_id_desc-IsDescending :
        (rows : List A)
        → HasUniqueKeys id_of rows
        → All (λ r. is_empty (id_of r) ≡ false) rows
        → IsDescending id_of below (order_by_id_desc id_of below rows)
    unfolding order_by_id_desc
    order_by_id_desc-IsDescending [] unique full = tt
    order_by_id_desc-IsDescending (r ∷ rows) (others, unique) (h, full) =
        insert_row-IsDescending r (order_by_id_desc id_of below rows) h
          (All-order_by_id_desc (λ s. id_of s ≢ id_of r) rows others)
          (order_by_id_desc-IsDescending rows unique full)
