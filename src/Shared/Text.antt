-- ===== src/Shared/Text.antt =====
-- The operations of JavaScript's `String.prototype` that the services use, on sequences of code points.
use Prim.Native.Nat.{ℕ, ◌+◌}
use Prim.Native.Char.{Char, code}
use Prim.Native.String.{String}
use mathlib.Core.Path.{◌≡◌, refl}
use mathlib.Core.Bool.{Bool, true, false, not, ◌&&◌, ◌||◌}
use mathlib.Core.Option.{Option, none, some}
use mathlib.Core.List.{List, [], ◌∷◌}
use mathlib.Core.Logic.{◌≢◌}
use native.Mathlib.Omega.{arith}
use text.Mathlib.TextEquality.{eq_iff}
use text.Mathlib.Text.{◌==◌}
use oid.Shared.Tests.{leb, if◌then◌else◌}

abbrev pub is_empty : String → Bool
is_empty String.[] = true
is_empty (String.◌∷◌ c s) = false

-- A nullable text in a condition: null and "" are false.
abbrev pub truthy : Option String → Bool
truthy none = false
truthy (some s) = not (is_empty s)

-- `${s}${t}`
abbrev pub concat : String → String → String
concat String.[] t = t
concat (String.◌∷◌ c s) t = String.◌∷◌ c (concat s t)

pub ==-eq-false : (s t : String) → s ≢ t → (s == t) ≡ false
==-eq-false s t h = ground (arith, eq_iff s t)

-- WhiteSpace and LineTerminator of ECMAScript, by their code points.
pub is_space : ℕ → Bool
is_space c =
    (leb 9 c && leb c 13)
    || same c 32
    || same c 160
    || same c 0x1680
    || (leb 0x2000 c && leb c 0x200a)
    || same c 0x2028
    || same c 0x2029
    || same c 0x202f
    || same c 0x205f
    || same c 0x3000
    || same c 0xfeff
  where
    same : ℕ → ℕ → Bool
    same a b = leb a b && leb b a

unfoldable pub trim_start : String → String
unfolding is_space
trim_start String.[] = String.[]
trim_start (String.◌∷◌ c s) = if is_space (code c) then trim_start s else String.◌∷◌ c s

abbrev keep_unless_space : Char → String → String
keep_unless_space c rest =
    if is_empty rest && is_space (code c) then String.[] else String.◌∷◌ c rest

unfoldable pub trim_end : String → String
unfolding is_space
trim_end String.[] = String.[]
trim_end (String.◌∷◌ c s) = keep_unless_space c (trim_end s)

-- `s.trim()`
unfoldable pub trim : String → String
unfolding trim_start trim_end
trim s = trim_end (trim_start s)

abbrev cons_first : Char → List String → List String
cons_first c [] = String.◌∷◌ c String.[] ∷ []
cons_first c (w ∷ ws) = String.◌∷◌ c w ∷ ws

-- `s.split(sep)` at a separator of one code point.
unfoldable pub split : ℕ → String → List String
split sep String.[] = String.[] ∷ []
split sep (String.◌∷◌ c s) =
    let rest = split sep s in
    if leb (code c) sep && leb sep (code c) then String.[] ∷ rest else cons_first c rest

-- `parts.join(sep)`
unfoldable pub join : String → List String → String
join sep [] = String.[]
join sep (w ∷ []) = w
join sep (w ∷ v ∷ ws) = concat w (concat sep (join sep (v ∷ ws)))

-- `xs.includes(x)`, and `set.has(x)` on the set of the list.
unfoldable pub includes : String → List String → Bool
includes x [] = false
includes x (y ∷ ys) = (y == x) || includes x ys

-- `s.length`: code points above the basic plane count twice.
unfoldable pub utf16_length : String → ℕ
utf16_length String.[] = 0
utf16_length (String.◌∷◌ c s) = (if leb 0x10000 (code c) then 2 else 1) + utf16_length s

trim_test : trim "  a b\t" ≡ "a b"
unfolding trim
trim_test = refl

split_test : split 32 "a  b" ≡ "a" ∷ "" ∷ "b" ∷ []
unfolding split
split_test = refl
