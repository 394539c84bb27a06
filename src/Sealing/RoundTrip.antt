-- ===== src/Sealing/RoundTrip.antt =====
-- `seal` and `unseal`, one after the other.
use Prim.Native.Char.{code}
use oid.Shared.{
  ℕ, String, List, [], ◌∷◌, is_empty, ◌&&◌, split, join, concat, some, ◌≡◌, refl, false, leb, ◌≢◌,
  All, ◌<◌,
}
use oid.Platform.{Platform}
use oid.Store.{ok, HttpException}
use oid.Sealing.{seal, unseal, sealing_key}

-- The text has no full stop.
abbrev pub IsUndotted : String → Type 0
IsUndotted String.[] = Unit
IsUndotted (String.◌∷◌ c s) = (leb (code c) b'.' && leb b'.' (code c) ≡ false) × IsUndotted s

split-undotted : (s : String) → IsUndotted s → split b'.' s ≡ s ∷ []
unfolding split
split-undotted String.[] h = refl
split-undotted (String.◌∷◌ c s) (h, hs) = rw (h, split-undotted s hs)

split-part :
    (s rest : String) → IsUndotted s → split b'.' (concat s (concat "." rest)) ≡ s ∷ split b'.' rest
unfolding split
split-part String.[] rest h = refl
split-part (String.◌∷◌ c s) rest (h, hs) = rw (h, split-part s rest hs)

abbrev pub AreBytes : List ℕ → Type 0
AreBytes = All (λ n. n < 256)

-- What Buffer documents of its base64url texts: they decode to the bytes they encode, have no full
-- stop, and are empty for no bytes only.
pub record IsLawful (p : Platform) : Type 0 where
  pub round_trip : (bytes : List ℕ) → AreBytes bytes → p.from_base64url (p.base64url bytes) ≡ bytes
  pub undotted : (bytes : List ℕ) → AreBytes bytes → IsUndotted (p.base64url bytes)
  pub full : (bytes : List ℕ) → AreBytes bytes → bytes ≢ [] → is_empty (p.base64url bytes) ≡ false

-- The cipher's outputs on this text are bytes, at least one each, and decrypt to the text's UTF-8,
-- which reads as the text: so it is for a text that is not empty and has no lone surrogate.
pub record IsSealable (p : Platform) (iv : List ℕ) (text : String) : Type 0 where
  pub iv_bytes : AreBytes iv
  pub iv_full : iv ≢ []
  pub ciphertext_bytes : AreBytes (p.gcm_encrypt (sealing_key p) iv (p.utf8 text)).0
  pub ciphertext_full : (p.gcm_encrypt (sealing_key p) iv (p.utf8 text)).0 ≢ []
  pub tag_bytes : AreBytes (p.gcm_encrypt (sealing_key p) iv (p.utf8 text)).1
  pub tag_full : (p.gcm_encrypt (sealing_key p) iv (p.utf8 text)).1 ≢ []
  pub decrypts :
      let (ciphertext, auth_tag) = p.gcm_encrypt (sealing_key p) iv (p.utf8 text) in
      p.gcm_decrypt (sealing_key p) iv auth_tag ciphertext ≡ some (p.utf8 text)
  pub readable : p.from_utf8 (p.utf8 text) ≡ text

-- A text that was sealed is unsealed to itself, if base64url texts and the cipher are as documented,
-- and neither the iv nor the text is empty.
pub unseal-seal :
    (p : Platform) (invalid : HttpException) (iv : List ℕ) (text : String)
    → IsLawful p
    → IsSealable p iv text
    → unseal p invalid (seal p iv text) ≡ ok text
unfolding seal unseal join
unseal-seal p invalid iv text laws z =
    let (ciphertext, auth_tag) = p.gcm_encrypt (sealing_key p) iv (p.utf8 text) in
    rw (
      split-part (p.base64url iv)
          (concat (p.base64url auth_tag) (concat "." (p.base64url ciphertext)))
          (laws.undotted iv z.iv_bytes),
      split-part (p.base64url auth_tag) (p.base64url ciphertext)
          (laws.undotted auth_tag z.tag_bytes),
      split-undotted (p.base64url ciphertext) (laws.undotted ciphertext z.ciphertext_bytes),
      laws.full iv z.iv_bytes z.iv_full,
      laws.full auth_tag z.tag_bytes z.tag_full,
      laws.full ciphertext z.ciphertext_bytes z.ciphertext_full,
      laws.round_trip iv z.iv_bytes,
      laws.round_trip auth_tag z.tag_bytes,
      laws.round_trip ciphertext z.ciphertext_bytes,
      z.decrypts,
      z.readable,
    )
