-- ===== src/Pages/Walk.antt =====
-- Following the cursors of a list.
use Prim.Native.Nat.{zero, suc}
use oid.Shared.{
  ℕ, ◌+◌, ◌≤◌, ◌<◌, String, Bool, true, false, is_empty, ltb, length, List, [], ◌∷◌, ◌++◌, Option,
  none, some, ◌≡◌, refl, sym, ap, ◌∙◌, subst, inl, inr, arith, All, All-imp, find_rows, Bool-cases,
}
use oid.Store.{ok}
use oid.Admin.Clients.{GivenNumber, natural, not_natural}
use oid.Pages.{normalize_limit, take, last_id, to_cursor_page, older, list_page}

-- A limit that is accepted is positive.
limit_positive :
    (otherwise max : ℕ) (given : Option GivenNumber) (limit : ℕ)
    → 0 < otherwise
    → 0 < max
    → normalize_limit otherwise max given ≡ ok limit
    → 0 < limit
unfolding normalize_limit
limit_positive otherwise max none limit d m e = ground (arith, e, d)
limit_positive otherwise max (some not_natural) limit d m e = ground (arith, e)
limit_positive otherwise max (some (natural n)) limit d m e = ground (arith, e, m)

module _ {A : Type 0} where
  abbrev pub on_cursor : (String → List A) → Option String → List A
  on_cursor go none = []
  on_cursor go (some next) = go next

module _ {A : Type 0} (id_of : A → String) (below : String → String → Bool) where
  -- The rows are in strictly descending order of their ids, which are not empty.
  abbrev pub IsDescending : List A → Type 0
  IsDescending [] = Unit
  IsDescending (r ∷ rows) =
      (is_empty (id_of r) ≡ false)
      × (below (id_of r) (id_of r) ≡ false)
      × All (λ s. (below (id_of s) (id_of r) ≡ true) × (below (id_of r) (id_of s) ≡ false)) rows
      × IsDescending rows

  -- What a client sees that follows the cursors for at most `fuel` pages.
  unfoldable pub walk : ℕ → List A → ℕ → Option String → List A
  walk zero rows limit cursor = []
  walk (suc fuel) rows limit cursor =
      let page = list_page id_of below rows limit cursor in
      page.items ++ on_cursor (λ next. walk fuel rows limit (some next)) page.next_cursor

  find_rows-All :
      (c : String) (rows : List A)
      → All (λ s. below (id_of s) c ≡ true) rows
      → find_rows (λ r. below (id_of r) c) rows ≡ rows
  unfolding find_rows
  find_rows-All c [] h = refl
  find_rows-All c (r ∷ rows) (h, hs) = rw (h, find_rows-All c rows hs) refl

  -- The rows older than one of them are those after it.
  older-after :
      (xs : List A) (c : A) (zs : List A)
      → IsDescending (xs ++ c ∷ zs)
      → (find_rows (λ r. below (id_of r) (id_of c)) (xs ++ c ∷ zs) ≡ zs)
        × (is_empty (id_of c) ≡ false)
  unfolding find_rows
  older-after [] c zs (full, same, after, rest) =
      (rw (same, find_rows-All (id_of c) zs (All-imp _ _ (λ s (a, b). a) zs after)) refl, full)
  older-after (x ∷ xs) c zs (full, same, after, rest) =
      let (found, full') = older-after xs c zs rest in
      (rw (last_after xs c zs after, found) refl, full')
    where
      last_after :
          {x : A} (xs : List A) (c : A) (zs : List A)
          → All
              (λ s. (below (id_of s) (id_of x) ≡ true) × (below (id_of x) (id_of s) ≡ false))
              (xs ++ c ∷ zs)
          → below (id_of x) (id_of c) ≡ false
      last_after [] c zs ((a, b), h) = b
      last_after (y ∷ ys) c zs (h, hs) = last_after ys c zs hs

  take-short : (n : ℕ) (rows : List A) → length (take n rows) < n → take n rows ≡ rows
  unfolding take
  take-short zero rows h = absurd (omega (arith, h))
  take-short (suc n) [] h = refl
  take-short (suc n) (r ∷ rows) h = ap (λ x. r ∷ x) (take-short n rows (omega (arith, h)))

  -- A page that is not the last one ends with a row that others follow.
  cut_page :
      (k : ℕ) (rows : List A)
      → suc k < length (take (suc (suc k)) rows)
      → (xs : List A) × (c : A) × (zs : List A) × (rows ≡ xs ++ c ∷ zs)
        × (take (suc k) (take (suc (suc k)) rows) ≡ xs ++ c ∷ [])
  unfolding take
  cut_page k [] h = absurd (omega (arith, h))
  cut_page zero (r ∷ rows) h = ([], r, rows, refl, refl)
  cut_page (suc k) (r ∷ rows) h =
      let (xs, c, zs, e, e') = cut_page k rows (omega (arith, h)) in
      (r ∷ xs, c, zs, ap (λ x. r ∷ x) e, ap (λ x. r ∷ x) e')

  last_id-append : (xs : List A) (c : A) → last_id id_of (xs ++ c ∷ []) ≡ some (id_of c)
  unfolding last_id
  last_id-append [] c = refl
  last_id-append (x ∷ []) c = refl
  last_id-append (x ∷ y ∷ xs) c = last_id-append (y ∷ xs) c

  append_assoc : (xs ys zs : List A) → (xs ++ ys) ++ zs ≡ xs ++ (ys ++ zs)
  append_assoc [] ys zs = refl
  append_assoc (x ∷ xs) ys zs = ap (λ l. x ∷ l) (append_assoc xs ys zs)

  length-append : (xs ys : List A) → length (xs ++ ys) ≡ length xs + length ys
  length-append [] ys = omega arith
  length-append (x ∷ xs) ys = omega (arith, length-append xs ys)

  append_nil : (xs : List A) → xs ++ [] ≡ xs
  append_nil [] = refl
  append_nil (x ∷ xs) = ap (λ l. x ∷ l) (append_nil xs)

  -- After a page that ends with `c`, its cursor finds the rows after it.
  older-split :
      (rows xs : List A) (c : A) (zs : List A)
      → rows ≡ xs ++ c ∷ zs
      → IsDescending rows
      → older id_of below (some (id_of c)) rows ≡ zs
  unfolding older
  older-split rows xs c zs e v =
      let (found, full) = older-after xs c zs (subst IsDescending e v) in rw (e, full) found

  rows_split :
      (rows seen rest xs : List A) (c : A) (zs : List A)
      → rows ≡ seen ++ rest
      → rest ≡ xs ++ c ∷ zs
      → (rows ≡ (seen ++ xs) ++ c ∷ zs) × (rows ≡ (seen ++ (xs ++ c ∷ [])) ++ zs)
  rows_split rows seen rest xs c zs e split = (
    e ∙ ap (λ l. seen ++ l) split ∙ sym (append_assoc seen xs (c ∷ zs)),
    e
        ∙ ap (λ l. seen ++ l) (split ∙ sym (append_assoc xs (c ∷ []) zs))
        ∙ sym (append_assoc seen (xs ++ c ∷ []) zs),
  )

  fewer :
      (xs : List A) (c : A) (zs : List A) (fuel : ℕ)
      → length (xs ++ c ∷ zs) ≤ suc fuel
      → length zs ≤ fuel
  fewer xs c zs fuel h = omega (arith, h, length-append xs (c ∷ zs))

  -- Following the cursors from where `rest` is left.
  walk_rest :
      (fuel k : ℕ) (rows seen rest : List A) (cursor : Option String)
      → rows ≡ seen ++ rest
      → IsDescending rows
      → older id_of below cursor rows ≡ rest
      → length rest ≤ fuel
      → walk fuel rows (suc k) cursor ≡ rest
  unfolding walk list_page to_cursor_page
  walk_rest zero k rows seen [] cursor s v e h = refl
  walk_rest zero k rows seen (r ∷ rest) cursor s v e h = absurd (omega (arith, h))
  walk_rest (suc fuel) k rows seen rest cursor s v e h =
      elim (Bool-cases (ltb (suc k) (length (take (suc (suc k)) rest)))) [
        | inr t ↦
            rw (e, t, append_nil (take (suc (suc k)) rest))
              (take-short (suc (suc k)) rest (ground (arith, t)))
        | inl t ↦
            let (xs, c, zs, split, page) = cut_page k rest (ground (arith, t)) in
            let (before, after) = rows_split rows seen rest xs c zs s split in
            let left =
              walk_rest fuel k rows (seen ++ (xs ++ c ∷ [])) zs (some (id_of c)) after v
                (older-split rows (seen ++ xs) c zs before v)
                (fewer xs c zs fuel (subst (λ l. length l ≤ suc fuel) split h)) in
            rw (e, t, page, last_id-append xs c, left, append_assoc xs (c ∷ []) zs) (sym split)
      ]

  -- When the rows of a list are in strictly descending order of their ids, a client that asks for pages of
  -- any limit that is accepted and follows the cursors for at most as many pages as there are rows sees
  -- every row exactly once, in order. The default and the maximum are positive.
  pub walk-normalize_limit :
      (otherwise max : ℕ) (given : Option GivenNumber) (limit : ℕ) (rows : List A)
      → 0 < otherwise
      → 0 < max
      → normalize_limit otherwise max given ≡ ok limit
      → IsDescending rows
      → walk (length rows) rows limit none ≡ rows
  unfolding older
  walk-normalize_limit otherwise max given zero rows d m e v =
      absurd (omega (arith, limit_positive otherwise max given zero d m e))
  walk-normalize_limit otherwise max given (suc k) rows d m e v =
      walk_rest (length rows) k rows [] rows none refl v refl (omega arith)
