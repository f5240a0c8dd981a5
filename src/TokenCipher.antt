-- ===== src/TokenCipher.antt =====
-- The cipher of OAuth tokens: services/api/internal/services/oauth_token_crypto.go. A token that is
-- stored encrypted begins with a version; one that does not was stored before there was a cipher, and
-- is read as it is. AES-GCM and base64 are parameters.
pub mod RoundTrip
use Prim.Native.Char.{code}
use Prim.Native.String.{◌++◌ as ◌+++◌}
use tachigo.Base.{
  ℕ, zero, suc, String, Bool, true, false, Option, none, some, List, [], ◌∷◌, ◌++◌, ◌==◌, ltb,
  if◌then◌else◌, length, take,
}
use tachigo.Models.{
  Error, Result, ok, err, oauth_token_encryption_key_missing, encrypted_oauth_token_too_short,
}

abbrev pub Bytes : Type 0
Bytes = List ℕ

-- SHA-256 as the key of a secret, GCM under a key and a nonce, and unpadded base64.
pub record Primitives : Type 0 where
  pub sum256 : String → Bytes
  pub nonce_size : ℕ
  pub seal : Bytes → Bytes → String → Bytes
  pub unseal : Bytes → Bytes → Bytes → Result String
  pub encode : Bytes → String
  pub decode : String → Result Bytes

abbrev pub encrypted_oauth_token_prefix : String
encrypted_oauth_token_prefix = "enc:v1:"

-- No key: the cipher is not enabled.
pub record OauthTokenCipher : Type 0 where
  pub key : Option Bytes

abbrev pub is_empty : String → Bool
is_empty String.[] = true
is_empty (String.◌∷◌ c s) = false

abbrev pub strip_prefix : String → String → Option String
strip_prefix String.[] s = some s
strip_prefix (String.◌∷◌ c p) String.[] = none
strip_prefix (String.◌∷◌ c p) (String.◌∷◌ d s) = if code c == code d then strip_prefix p s else none

abbrev pub drop {ℓ} : {A : Type ℓ} → ℕ → List A → List A
drop zero xs = xs
drop (suc n) [] = []
drop (suc n) (x ∷ xs) = drop n xs

module _ (prim : Primitives) where
  unfoldable pub new_oauth_token_cipher : String → OauthTokenCipher
  new_oauth_token_cipher secret = record {
    key = if is_empty secret then none else some (prim.sum256 secret);
  }

  -- The nonce, and then the sealed text.
  abbrev pub sealed : Bytes → String → Bytes → Result String
  sealed key plaintext nonce =
      ok (encrypted_oauth_token_prefix +++ prim.encode (nonce ++ prim.seal key nonce plaintext))

  abbrev pub with_nonce : Result Bytes → (Bytes → Result String) → Result String
  with_nonce (ok nonce) f = f nonce
  with_nonce (err e) f = err e

  abbrev pub encrypt_under : Option Bytes → Result Bytes → String → Result String
  encrypt_under none nonce plaintext = err oauth_token_encryption_key_missing
  encrypt_under (some key) nonce plaintext = with_nonce nonce (sealed key plaintext)

  -- The bytes that the random source gives for the nonce are an argument.
  unfoldable pub encrypt : OauthTokenCipher → Result Bytes → String → Result String
  encrypt c nonce plaintext =
      if is_empty plaintext then ok "" else encrypt_under c.key nonce plaintext

  abbrev pub unsealed : Bytes → Bytes → Result String
  unsealed key raw =
      if ltb (length raw) prim.nonce_size
      then err encrypted_oauth_token_too_short
      else prim.unseal key (take prim.nonce_size raw) (drop prim.nonce_size raw)

  abbrev pub open_decoded : Bytes → Result Bytes → Result String
  open_decoded key (ok raw) = unsealed key raw
  open_decoded key (err e) = err e

  abbrev pub decrypt_under : Option Bytes → String → Result String
  decrypt_under none rest = err oauth_token_encryption_key_missing
  decrypt_under (some key) rest = open_decoded key (prim.decode rest)

  abbrev pub decrypt_rest : OauthTokenCipher → String → Option String → Result String
  decrypt_rest c stored none = ok stored
  decrypt_rest c stored (some rest) = decrypt_under c.key rest

  unfoldable pub decrypt : OauthTokenCipher → String → Result String
  decrypt c stored =
      if is_empty stored
      then ok ""
      else decrypt_rest c stored (strip_prefix encrypted_oauth_token_prefix stored)
