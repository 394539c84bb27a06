-- ===== src/Examples/TextOrder.antt =====
-- An order of texts: that of their characters' numbers, from the first on.
use Prim.Native.Char.{Char, code}
use oid.Shared.{String, Bool, true, false, leb, if◌then◌else◌, ◌≡◌, refl, arith}
use text.Mathlib.TextEquality.{Char-path}
use oid.Pages.Order.{IsOrder}

unfoldable pub comes_before : String → String → Bool
comes_before String.[] String.[] = false
comes_before String.[] (String.◌∷◌ d t) = true
comes_before (String.◌∷◌ c s) String.[] = false
comes_before (String.◌∷◌ c s) (String.◌∷◌ d t) =
    let rest = comes_before s t in
    if leb (code c) (code d) then if leb (code d) (code c) then rest else true else false

strict : (a : String) → comes_before a a ≡ false
unfolding comes_before
strict String.[] = refl
strict (String.◌∷◌ c s) = ground (arith, strict s)

through :
    (a b c : String) → comes_before a b ≡ true → comes_before b c ≡ true → comes_before a c ≡ true
unfolding comes_before
through String.[] String.[] c e f = f
through String.[] (String.◌∷◌ b bs) String.[] e f = cc
through String.[] (String.◌∷◌ b bs) (String.◌∷◌ c cs) e f = refl
through (String.◌∷◌ a rest) String.[] c e f = cc
through (String.◌∷◌ a rest) (String.◌∷◌ b bs) String.[] e f = cc
through (String.◌∷◌ a rest) (String.◌∷◌ b bs) (String.◌∷◌ c cs) e f =
    ground (arith, e, f, through rest bs cs)

same_code :
    (c d : Char) (s t : String)
    → comes_before (String.◌∷◌ c s) (String.◌∷◌ d t) ≡ false
    → comes_before (String.◌∷◌ d t) (String.◌∷◌ c s) ≡ false
    → (code c ≡ code d) × (comes_before s t ≡ false) × (comes_before t s ≡ false)
unfolding comes_before
same_code c d s t e f = (ground (arith, e, f), ground (arith, e, f), ground (arith, e, f))

connected : (a b : String) → comes_before a b ≡ false → comes_before b a ≡ false → a ≡ b
unfolding comes_before
connected String.[] String.[] e f = refl
connected String.[] (String.◌∷◌ d t) e f = cc
connected (String.◌∷◌ c s) String.[] e f = cc
connected (String.◌∷◌ c s) (String.◌∷◌ d t) e f =
    let (codes, left, right) = same_code c d s t e f in
    λ i. String.◌∷◌ (Char-path c d codes i) (connected s t left right i)

pub comes_before-IsOrder : IsOrder comes_before
comes_before-IsOrder = record { strict = strict; through = through; connected = connected }
