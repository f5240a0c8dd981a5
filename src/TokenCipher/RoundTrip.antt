-- ===== src/TokenCipher/RoundTrip.antt =====
-- Encryption and decryption, one after the other.
use Prim.Native.Char.{code}
use Prim.Native.String.{◌++◌ as ◌+++◌}
use text.Mathlib.TextLemmas.{nil-append, cons-append}
use tachigo.Base.{
  ◌≡◌, refl, ap, ◌⊎◌, inl, inr, String, true, false, some, [], ◌∷◌, ◌++◌, ltb, arith, length, take,
  ==_refl,
}
use tachigo.Models.{ok}
use tachigo.TokenCipher.{
  Bytes, Primitives, encrypted_oauth_token_prefix, is_empty, strip_prefix, drop,
  new_oauth_token_cipher, encrypt, unsealed, decrypt,
}

-- What AES-GCM and base64 promise: to open what was sealed under the same key and nonce, and to decode
-- what was encoded.
pub record Inverts (prim : Primitives) : Type 0 where
  pub unseal_seal :
      (key nonce : Bytes) (plaintext : String)
      → prim.unseal key nonce (prim.seal key nonce plaintext) ≡ ok plaintext
  pub decode_encode : (b : Bytes) → prim.decode (prim.encode b) ≡ ok b

strip_prefix-append : (p s : String) → strip_prefix p (p +++ s) ≡ some s
strip_prefix-append String.[] s = ap some (nil-append s)
strip_prefix-append (String.◌∷◌ c p) s =
    rw (cons-append c p s, ==_refl (code c)) (strip_prefix-append p s)

is_empty-append : (p s : String) → is_empty p ≡ false → is_empty (p +++ s) ≡ false
is_empty-append String.[] s e = cc
is_empty-append (String.◌∷◌ c p) s e = rw (cons-append c p s) refl

take-append : (xs ys : Bytes) → take (length xs) (xs ++ ys) ≡ xs
take-append [] ys = refl
take-append (x ∷ xs) ys = ap (λ r. x ∷ r) (take-append xs ys)

drop-append : (xs ys : Bytes) → drop (length xs) (xs ++ ys) ≡ ys
drop-append [] ys = refl
drop-append (x ∷ xs) ys = drop-append xs ys

long_enough : (xs ys : Bytes) → ltb (length (xs ++ ys)) (length xs) ≡ false
long_enough [] ys = ground arith
long_enough (x ∷ xs) ys = ground (arith, long_enough xs ys)

module _ (prim : Primitives) (inverts : Inverts prim) where
  unsealed-sealed :
      (key nonce : Bytes) (plaintext : String)
      → length nonce ≡ prim.nonce_size
      → unsealed prim key (nonce ++ prim.seal key nonce plaintext) ≡ ok plaintext
  unsealed-sealed key nonce plaintext size =
      let text = prim.seal key nonce plaintext in
      rw (← size, long_enough nonce text, take-append nonce text, drop-append nonce text)
        (inverts.unseal_seal key nonce plaintext)

  -- A cipher with a secret decrypts what it has encrypted, whatever the text, the empty one included,
  -- and whichever nonce of the right size the random source gives; and it never stores a text that is
  -- not empty without its prefix. AES-GCM and base64 are taken to invert themselves.
  pub decrypt-encrypt :
      (secret plaintext : String) (nonce : Bytes)
      → is_empty secret ≡ false
      → length nonce ≡ prim.nonce_size
      → (stored : String) × (encrypt prim (new_oauth_token_cipher prim secret) (ok nonce) plaintext
          ≡ ok stored)
        × (decrypt prim (new_oauth_token_cipher prim secret) stored ≡ ok plaintext)
        × ((is_empty plaintext ≡ true)
            ⊎ ((rest : String) × (strip_prefix encrypted_oauth_token_prefix stored ≡ some rest)))
  unfolding encrypt decrypt new_oauth_token_cipher
  decrypt-encrypt secret String.[] nonce set size = ("", refl, refl, inl refl)
  decrypt-encrypt secret (String.◌∷◌ c s) nonce set size =
      let plaintext = String.◌∷◌ c s in
      let key = prim.sum256 secret in
      let rest = prim.encode (nonce ++ prim.seal key nonce plaintext) in
      let stripped = strip_prefix-append encrypted_oauth_token_prefix rest in
      (
        encrypted_oauth_token_prefix +++ rest,
        rw set refl,
        rw
            (
              set,
              is_empty-append encrypted_oauth_token_prefix rest refl,
              stripped,
              inverts.decode_encode,
            )
            (unsealed-sealed key nonce plaintext size),
        inr (rest, stripped),
      )
