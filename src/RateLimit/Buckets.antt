-- ===== src/RateLimit/Buckets.antt =====
-- A `Map<string, RateLimitBucket>`: the entries in the order of their insertion.
use oid.Shared.{
  ℕ, String, ◌==◌, eq_iff, eq_refl, List, [], ◌∷◌, Option, none, some, ◌≡◌, ◌≢◌, refl, arith,
  if◌then◌else◌,
}

pub record Bucket : Type 0 where
  pub count : ℕ
  pub reset_at : ℕ

abbrev pub Buckets : Type 0
Buckets = List (String × Bucket)

unfoldable pub get : String → Buckets → Option Bucket
get key [] = none
get key ((k, b) ∷ rest) = if k == key then some b else get key rest

unfoldable pub set : String → Bucket → Buckets → Buckets
set key bucket [] = (key, bucket) ∷ []
set key bucket ((k, b) ∷ rest) =
    if k == key then (k, bucket) ∷ rest else (k, b) ∷ set key bucket rest

unfoldable pub delete : String → Buckets → Buckets
delete key [] = []
delete key ((k, b) ∷ rest) = let left = delete key rest in if k == key then left else (k, b) ∷ left

pub get-set :
    (key : String) (bucket : Bucket) (m : Buckets) → get key (set key bucket m) ≡ some bucket
unfolding get set
get-set key bucket [] = rw (eq_refl key) refl
get-set key bucket ((k, b) ∷ rest) = ground (arith, get-set key bucket rest)

pub get-set_other :
    (key other : String) (bucket : Bucket) (m : Buckets)
    → other ≢ key
    → get key (set other bucket m) ≡ get key m
unfolding get set
get-set_other key other bucket [] h = ground (arith, eq_iff other key)
get-set_other key other bucket ((k, b) ∷ rest) h =
    ground (arith, eq_iff k other, eq_iff k key, get-set_other key other bucket rest h)

pub get-delete : (key : String) (m : Buckets) → get key (delete key m) ≡ none
unfolding get delete
get-delete key [] = refl
get-delete key ((k, b) ∷ rest) = ground (arith, get-delete key rest)

pub get-delete_other :
    (key other : String) (m : Buckets) → other ≢ key → get key (delete other m) ≡ get key m
unfolding get delete
get-delete_other key other [] h = refl
get-delete_other key other ((k, b) ∷ rest) h =
    ground (arith, eq_iff k other, eq_iff k key, get-delete_other key other rest h)
